-- ===== src/Endpoint/Tests.antt =====
-- The manager run on two flows that share an address.
use flowgo_server.Prelude.{
  Option, ◌==◌, not, contains, is_some, if◌then◌else◌, String, ◌≡◌, refl, true, false, some, none,
  List, [], ◌∷◌, lookup, put, delete, ◌⊎◌, inl,
}
use flowgo_server.Prelude.Action.{◌>>=◌, fails, returns, refuse_if}
use flowgo_server.Types.{FlowDsl}
use flowgo_server.Endpoint.Config.{Component}
use flowgo_server.Endpoint.Manager.{
  Manager, patterns, panicked, new_manager, route_conflict, route_at, routes_of, remove_flow,
  remove_routes, remove_route, without_route, settle, rebuilt_mux, server_at, with_route, add_route,
  add_routers, add_node, add_nodes, sync_flow,
}
use flowgo_server.Endpoint.Check.{
  seen_at, see_routers, see_tls, see_node, see_nodes, any_foreign, any_tls_blocked, first_conflict,
  check_http_routes, same_tls,
}
use flowgo_server.Endpoint.Checking.{check_http_routes-passes}
use flowgo_server.Endpoint.Routes.{disowned}
use flowgo_server.Endpoint.Tracking.{IsSound}
use flowgo_server.Endpoint.Answers.{Answers}
use flowgo_server.Endpoint.Serving.{Has, sync_flow-Serves}
use flowgo_server.Endpoint.Histories.{
  EndpointCall, syncs, run_sync, run_syncs, run_syncs-IsSound, remove_flow-run_syncs,
}

-- A node's configuration is its path; CORS is off.
abbrev component : Component
component = record {
  Configuration = String;
  type = "http";
  parse_http_config = λ path. some (record {
    server = ":80";
    https = false;
    cert_pem = "";
    key_pem = "";
    allow_cors = false;
    routers = record { method = "GET"; path = path } ∷ [];
  });
  normalize_server = λ s. s;
  to_pattern = λ method path. path;
  router_relation = λ r. r.path;
  tls_fingerprint = λ cfg. "";
  x509_key_pair = λ cert key. true;
  registers = λ patterns pattern. true;
}

abbrev flow_on : String → FlowDsl String
flow_on path = record {
  id = "f";
  name = "n";
  entry_node = "a";
  nodes = record { id = "a"; type = "http"; name = "a"; debug = false; configuration = path } ∷ [];
  edges = [];
}

abbrev sync : String → String → EndpointCall component
sync f path = syncs (λ addr. true) (λ id. id) f (some (flow_on path))

abbrev both : List (EndpointCall component)
both = sync "f" "/a" ∷ sync "g" "/b" ∷ []

new_manager-IsSound_test : IsSound {D = FlowDsl String} new_manager
unfolding route_at lookup
new_manager-IsSound_test = record { counted = tt; tracked = λ a p t h. cc }

abbrev tables_of : Option (Manager (FlowDsl String)) → Manager (FlowDsl String)
tables_of none = new_manager
tables_of (some m) = m

abbrev after_both : Manager (FlowDsl String)
after_both = tables_of (run_syncs component both new_manager)

run_syncs-IsSound_example : IsSound after_both
unfolding run_syncs run_sync sync_flow add_nodes add_node add_routers add_route server_at with_route
    lookup put delete ◌>>=◌ routes_of remove_flow remove_routes remove_route without_route settle
    rebuilt_mux refuse_if patterns
run_syncs-IsSound_example =
    run_syncs-IsSound component both new_manager after_both new_manager-IsSound_test refl

remove_flow-run_syncs_example :
    route_at ":80" "/b" (remove_flow component.registers "f" after_both).0
    ≡ disowned "f" (route_at ":80" "/b" after_both)
unfolding run_syncs run_sync sync_flow add_nodes add_node add_routers add_route server_at with_route
    lookup put delete ◌>>=◌ routes_of remove_flow remove_routes remove_route without_route settle
    rebuilt_mux refuse_if patterns
remove_flow-run_syncs_example =
    remove_flow-run_syncs component both "f" ":80" "/b" after_both refl refl refl

-- The other flow's route answers before and after, and after that with CORS.
cors_test :
    let server = lookup ":80" (remove_flow component.registers "f" after_both).0.by_addr in
    (elim (lookup ":80" after_both.by_addr) [ none ↦ none | some ss ↦ lookup "/b" ss.mux ]
      ≡ some false)
    × (elim server [ none ↦ none | some ss ↦ lookup "/b" ss.mux ] ≡ some true)
unfolding run_syncs run_sync sync_flow add_nodes add_node add_routers add_route server_at with_route
    lookup put delete ◌>>=◌ routes_of remove_flow remove_routes remove_route without_route settle
    rebuilt_mux refuse_if patterns
cors_test = (refl, refl)

sync_flow-Serves_example :
    let m =
      (sync_flow component (λ addr. true) (λ id. id) "f" (some (flow_on "/a")) new_manager).0 in
    Answers "f" (some (flow_on "/a")) m
    × Has component (λ addr. true) (λ id. id) "f" (flow_on "/a") m ":80" "/a"
unfolding run_syncs run_sync sync_flow add_nodes add_node add_routers add_route server_at with_route
    lookup put delete ◌>>=◌ routes_of remove_flow remove_routes remove_route without_route settle
    rebuilt_mux refuse_if patterns
sync_flow-Serves_example =
    sync_flow-Serves component (λ addr. true) (λ id. id) "f" (flow_on "/a") new_manager _
      (record { id = "a"; type = "http"; name = "a"; debug = false; configuration = "/a" })
      (record {
        server = ":80";
        https = false;
        cert_pem = "";
        key_pem = "";
        allow_cors = false;
        routers = record { method = "GET"; path = "/a" } ∷ [];
      })
      (record { method = "GET"; path = "/a" }) refl new_manager-IsSound_test refl (inl refl) refl
      refl (inl refl)

check_http_routes-passes_example : ◌≡◌ {A = String} "f" "" ⊎ ◌≡◌ {A = String} "f" "f"
unfolding check_http_routes see_nodes see_node see_tls see_routers seen_at any_tls_blocked
    any_foreign first_conflict same_tls route_at run_syncs run_sync sync_flow add_nodes add_node
    add_routers add_route server_at with_route lookup put delete ◌>>=◌ routes_of remove_flow
    remove_routes remove_route without_route settle rebuilt_mux refuse_if patterns
check_http_routes-passes_example =
    check_http_routes-passes component (λ id. id) "f" (flow_on "/a") after_both
      (record { id = "a"; type = "http"; name = "a"; debug = false; configuration = "/a" })
      (record {
        server = ":80";
        https = false;
        cert_pem = "";
        key_pem = "";
        allow_cors = false;
        routers = record { method = "GET"; path = "/a" } ∷ [];
      })
      (record { method = "GET"; path = "/a" })
      (record { flow_id = "f"; node_id = "a"; relation = "/a"; dsl = flow_on "/a" }) refl (inl refl)
      refl refl (inl refl) refl

-- A route of the other flow is refused, under its name.
conflict_test :
    check_http_routes component (λ id. id) "f" (some (flow_on "/b")) after_both
    ≡ fails (route_conflict ":80" "/b" "g" "g")
unfolding check_http_routes see_nodes see_node see_tls see_routers seen_at any_tls_blocked
    any_foreign first_conflict same_tls route_at run_syncs run_sync sync_flow add_nodes add_node
    add_routers add_route server_at with_route lookup put delete ◌>>=◌ routes_of remove_flow
    remove_routes remove_route without_route settle rebuilt_mux refuse_if patterns
conflict_test = refl

-- The patterns "/a" and "/b" cannot stand in one mux, which the check does not see.
abbrev quarrelling : Component
quarrelling = record component {
  registers = λ patterns pattern. if pattern == "/b" then not (contains patterns "/a") else true;
}

-- The synchronisation of the second flow panics, and leaves its route in the tables.
panic_test :
    let m =
      (sync_flow quarrelling (λ addr. true) (λ id. id) "f" (some (flow_on "/a")) new_manager).0 in
    let r = sync_flow quarrelling (λ addr. true) (λ id. id) "g" (some (flow_on "/b")) m in
    (check_http_routes quarrelling (λ id. id) "g" (some (flow_on "/b")) m ≡ returns tt)
    × (r.1 ≡ fails panicked)
    × (is_some (route_at ":80" "/b" r.0) ≡ true)
unfolding check_http_routes see_nodes see_node see_tls see_routers seen_at any_tls_blocked
    any_foreign first_conflict same_tls route_at run_syncs run_sync sync_flow add_nodes add_node
    add_routers add_route server_at with_route lookup put delete ◌>>=◌ routes_of remove_flow
    remove_routes remove_route without_route settle rebuilt_mux refuse_if patterns
panic_test = (refl, refl, refl)
