-- ===== src/Endpoint/Check.antt =====
-- internal/endpoint/route_check.go: the test of a flow's routes before it is published. Go ranges
-- over its maps in any order; here the routes are taken in the order of the nodes, so where several
-- routes are in conflict the model reports one that the code may report.
use flowgo_server.Prelude.{
  String, ◌==◌, Bool, false, not, ◌&&◌, ◌||◌, Option, none, some, List, [], ◌∷◌, if◌then◌else◌,
  nonempty, GoMap, lookup, put,
}
use flowgo_server.Prelude.Action.{Outcome, returns, fails}
use flowgo_server.Types.{FlowDsl, FlowNode}
use flowgo_server.Endpoint.Config.{Component, HttpConfig, Router}
use flowgo_server.Endpoint.Manager.{
  RouteTarget, SharedServer, Manager, EndpointError, bad_config, tls_mismatch, route_conflict,
  local_conflict, route_at,
}

-- An entry of `seen`: a route of the flow and the first node that has it.
pub record Seen : Type 0 where
  pub addr : String
  pub pattern : String
  pub node_id : String

-- addrTLS
pub record AddrTls : Type 0 where
  pub https : Bool
  pub fp : String

-- The two maps of the first loop.
pub record Wanted : Type 0 where
  pub seen : List Seen
  pub tls_by_addr : GoMap AddrTls

abbrev pub nothing_wanted : Wanted
nothing_wanted = record { seen = []; tls_by_addr = [] }

-- seen[k]
unfoldable pub seen_at : String → String → List Seen → Option String
seen_at addr pattern [] = none
seen_at addr pattern (s ∷ seen) =
    if s.addr == addr && s.pattern == pattern then some s.node_id else seen_at addr pattern seen

unfoldable pub same_tls : Bool → String → AddrTls → Bool
same_tls https fp want = (if https then want.https else not want.https) && fp == want.fp

module _ (c : Component) (name_of : String → String) where
  -- The routes of a node, none of which was seen before.
  unfoldable pub see_routers : String → String → List Router → Wanted → Outcome EndpointError Wanted
  see_routers addr node_id [] w = returns w
  see_routers addr node_id (r ∷ routers) w =
      elim (seen_at addr (c.to_pattern r.method r.path) w.seen) [
        | some prev ↦ fails (local_conflict addr (c.to_pattern r.method r.path) prev node_id)
        | none ↦ see_routers addr node_id routers (record w {
          seen =
              record { addr = addr; pattern = c.to_pattern r.method r.path; node_id = node_id }
              ∷ w.seen;
        })
      ]

  -- The TLS settings of the node's address, which agree with those of earlier nodes.
  unfoldable pub see_tls : String → HttpConfig → Wanted → Outcome EndpointError Wanted
  see_tls addr cfg w = elim (lookup addr w.tls_by_addr) [
    | some prev ↦
        if same_tls cfg.https (c.tls_fingerprint cfg) prev then returns w else fails tls_mismatch
    | none ↦ returns (record w {
      tls_by_addr =
          put addr (record { https = cfg.https; fp = c.tls_fingerprint cfg }) w.tls_by_addr;
    })
  ]

  abbrev pub and_then :
      Outcome EndpointError Wanted
      → (Wanted → Outcome EndpointError Wanted)
      → Outcome EndpointError Wanted
  and_then (returns w) f = f w
  and_then (fails e) f = fails e

  unfoldable pub see_node : FlowNode c.Configuration → Wanted → Outcome EndpointError Wanted
  see_node node w =
      if node.type == c.type
      then elim (c.parse_http_config node.configuration) [
        | none ↦ fails bad_config
        | some cfg ↦
            and_then (see_tls (c.normalize_server cfg.server) cfg w)
              (see_routers (c.normalize_server cfg.server) node.id cfg.routers)
      ]
      else returns w

  -- The first loop.
  unfoldable pub see_nodes : List (FlowNode c.Configuration) → Wanted → Outcome EndpointError Wanted
  see_nodes [] w = returns w
  see_nodes (node ∷ nodes) w = and_then (see_node node w) (see_nodes nodes)

  -- A route of another flow: `rt.flowID != "" && rt.flowID != flowID`.
  abbrev pub is_foreign : String → RouteTarget (FlowDsl c.Configuration) → Bool
  is_foreign flow_id t = nonempty t.flow_id && not (t.flow_id == flow_id)

  unfoldable pub any_foreign : String → GoMap (RouteTarget (FlowDsl c.Configuration)) → Bool
  any_foreign flow_id [] = false
  any_foreign flow_id ((pattern, t) ∷ routes) = is_foreign flow_id t || any_foreign flow_id routes

  -- The server of the address cannot take the TLS settings.
  abbrev tls_blocked : String → AddrTls → Option (SharedServer (FlowDsl c.Configuration)) → Bool
  tls_blocked flow_id want none = false
  tls_blocked flow_id want (some ss) =
      not (same_tls ss.https ss.tls_fp want) && any_foreign flow_id ss.routes

  -- The second loop.
  unfoldable pub any_tls_blocked : String → GoMap AddrTls → Manager (FlowDsl c.Configuration) → Bool
  any_tls_blocked flow_id [] m = false
  any_tls_blocked flow_id ((addr, want) ∷ tls) m =
      tls_blocked flow_id want (lookup addr m.by_addr) || any_tls_blocked flow_id tls m

  -- The third loop: a route that another flow has.
  unfoldable pub first_conflict :
      String → List Seen → Manager (FlowDsl c.Configuration) → Outcome EndpointError (Unit {0})
  first_conflict flow_id [] m = returns tt
  first_conflict flow_id (s ∷ seen) m = elim (route_at s.addr s.pattern m) [
    | none ↦ first_conflict flow_id seen m
    | some t ↦
        if is_foreign flow_id t
        then fails (route_conflict s.addr s.pattern t.flow_id (name_of t.flow_id))
        else first_conflict flow_id seen m
  ]

  abbrev pub checked :
      String
      → Manager (FlowDsl c.Configuration)
      → Outcome EndpointError Wanted
      → Outcome EndpointError (Unit {0})
  checked flow_id m (fails e) = fails e
  checked flow_id m (returns w) =
      if any_tls_blocked flow_id w.tls_by_addr m
      then fails tls_mismatch
      else first_conflict flow_id w.seen m

  -- CheckHTTPRoutes, which changes nothing.
  unfoldable pub check_http_routes :
      String
      → Option (FlowDsl c.Configuration)
      → Manager (FlowDsl c.Configuration)
      → Outcome EndpointError (Unit {0})
  check_http_routes flow_id none m = returns tt
  check_http_routes flow_id (some dsl) m = checked flow_id m (see_nodes dsl.nodes nothing_wanted)
