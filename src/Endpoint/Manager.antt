-- ===== src/Endpoint/Manager.antt =====
-- internal/endpoint/manager.go: which flow answers at which address and pattern. A listener and its
-- server are the entry of the address; a mux is the patterns that it answers, each with its CORS
-- setting. `listens` says where net.Listen succeeds at the time of the call, and `name_of` is the
-- name of a flow, or "", for the text of an error. ServeMux.HandleFunc panics on a pattern that it
-- cannot take: the call of the manager ends there, with what it had written.
use flowgo_server.Prelude.{
  ℕ, ◌+◌, ◌-◌, String, ◌==◌, Bool, true, false, not, ◌&&◌, ◌||◌, Option, none, some, List, [], ◌∷◌,
  ◌++◌, if◌then◌else◌, nat_eq, nonempty, GoMap, lookup, delete, put,
}
use flowgo_server.Prelude.Action.{Action, Outcome, returns, fails, ◌>>=◌, pure, refuse, refuse_if}
use flowgo_server.Types.{FlowDsl, FlowNode}
use flowgo_server.Endpoint.Config.{Component, HttpConfig, Router}

-- routeTarget
pub record RouteTarget (D : Type 0) : Type 0 where
  pub flow_id : String
  pub node_id : String
  pub relation : String
  pub dsl : D

-- sharedServer. Go's `refCount` is an int; the `- 1` below is taken only where a route is deleted.
pub record SharedServer (D : Type 0) : Type 0 where
  pub routes : GoMap (RouteTarget D)
  pub ref_count : ℕ
  pub https : Bool
  pub tls_fp : String
  pub mux : GoMap Bool

-- flowRoute
pub record FlowRoute : Type 0 where
  pub addr : String
  pub pattern : String

pub record Manager (D : Type 0) : Type 0 where
  pub by_addr : GoMap (SharedServer D)
  pub by_flow : GoMap (List FlowRoute)

pub data EndpointError : Type 0 where
  listen_failed bad_certificate bad_config tls_mismatch panicked : EndpointError
  route_conflict : String → String → String → String → EndpointError
  local_conflict : String → String → String → String → EndpointError

-- The end of a call by a panic is the error `panicked`.
abbrev pub is_panic : EndpointError → Bool
is_panic panicked = true
is_panic e = false

-- The call did not panic.
abbrev pub calm : {A : Type 0} → Outcome EndpointError A → Bool
calm (returns a) = true
calm (fails e) = not (is_panic e)

-- The patterns of a mux.
unfoldable pub patterns : GoMap Bool → List String
patterns [] = []
patterns ((pattern, cors) ∷ mux) = pattern ∷ patterns mux

-- NewManager
abbrev pub new_manager : {D : Type 0} → Manager D
new_manager = record { by_addr = []; by_flow = [] }

-- m.byFlow[flowID] of a missing flow is nil.
abbrev pub or_nil : Option (List FlowRoute) → List FlowRoute
or_nil none = []
or_nil (some routes) = routes

module _ {D : Type 0} where
  unfoldable pub routes_of : String → Manager D → List FlowRoute
  routes_of flow_id m = or_nil (lookup flow_id m.by_flow)

  abbrev pub target_at : Option (SharedServer D) → String → Option (RouteTarget D)
  target_at none pattern = none
  target_at (some ss) pattern = lookup pattern ss.routes

  -- m.byAddr[addr].routes[pattern], with the test whether it is there
  unfoldable pub route_at : String → String → Manager D → Option (RouteTarget D)
  route_at addr pattern m = target_at (lookup addr m.by_addr) pattern

  abbrev pub has_no_routes : GoMap (RouteTarget D) → Bool
  has_no_routes [] = true
  has_no_routes (e ∷ routes) = false

  -- `ok && rt.flowID == flowID`
  abbrev pub owned_by : String → Option (RouteTarget D) → Bool
  owned_by flow_id none = false
  owned_by flow_id (some t) = t.flow_id == flow_id

  -- The route is deleted from its server, where the flow owns it.
  unfoldable pub without_route : String → String → SharedServer D → SharedServer D
  without_route flow_id pattern ss =
      if owned_by flow_id (lookup pattern ss.routes)
      then record ss { routes = delete pattern ss.routes; ref_count = ss.ref_count - 1 }
      else ss

module _ (registers : List String → String → Bool) {D : Type 0} where
  -- rebuildMuxLocked: each route is registered with CORS in a new mux, up to one that is not taken.
  unfoldable pub rebuilt_mux : GoMap (RouteTarget D) → GoMap Bool → GoMap Bool × Bool
  rebuilt_mux [] mux = (mux, true)
  rebuilt_mux ((pattern, t) ∷ routes) mux =
      let rest = rebuilt_mux routes ((pattern, true) ∷ mux) in
      if registers (patterns mux) pattern then rest else (mux, false)

  -- The server is shut down, or its mux rebuilt.
  unfoldable pub settle : String → SharedServer D → Action (Manager D) EndpointError (Unit {0})
  settle addr ss m =
      let (mux, done) = rebuilt_mux ss.routes [] in
      if nat_eq ss.ref_count 0 || has_no_routes ss.routes
      then (record m { by_addr = delete addr m.by_addr }, returns tt)
      else (
        record m { by_addr = put addr (record ss { mux = mux }) m.by_addr },
        if done then returns tt else fails panicked,
      )

  -- The body of RemoveFlow's loop.
  unfoldable pub remove_route : String → FlowRoute → Action (Manager D) EndpointError (Unit {0})
  remove_route flow_id fr m = elim (lookup fr.addr m.by_addr) [
    | none ↦ (m, returns tt)
    | some ss ↦ settle fr.addr (without_route flow_id fr.pattern ss) m
  ]

  unfoldable pub remove_routes :
      String → List FlowRoute → Action (Manager D) EndpointError (Unit {0})
  remove_routes flow_id [] = pure tt
  remove_routes flow_id (fr ∷ routes) = do u ← remove_route flow_id fr; remove_routes flow_id routes

  -- RemoveFlow, which returns nothing.
  unfoldable pub remove_flow : String → Action (Manager D) EndpointError (Unit {0})
  remove_flow flow_id m =
      if flow_id == ""
      then (m, returns tt)
      else remove_routes flow_id (routes_of flow_id m)
          (record m { by_flow = delete flow_id m.by_flow })

module _ (c : Component) (listens : String → Bool) (name_of : String → String) where
  abbrev pub Dsl : Type 0
  Dsl = FlowDsl c.Configuration

  abbrev pub Step : Type 0 → Type 0
  Step A = Action (Manager Dsl) EndpointError A

  abbrev new_server : HttpConfig → SharedServer Dsl
  new_server cfg = record {
    routes = [];
    ref_count = 0;
    https = cfg.https;
    tls_fp = c.tls_fingerprint cfg;
    mux = [];
  }

  -- The server of the address: the one that runs there with the same TLS, or a new one.
  unfoldable pub server_at :
      Option (SharedServer Dsl) → String → HttpConfig → Outcome EndpointError (SharedServer Dsl)
  server_at none addr cfg =
      if not (listens addr)
      then fails listen_failed
      else if cfg.https && not (c.x509_key_pair cfg.cert_pem cfg.key_pem)
      then fails bad_certificate
      else returns (new_server cfg)
  server_at (some ss) addr cfg =
      if (if ss.https then not cfg.https else cfg.https) || not (ss.tls_fp == c.tls_fingerprint cfg)
      then fails tls_mismatch
      else returns ss

  -- m.byFlow[flowID] = append(m.byFlow[flowID], flowRoute{…})
  abbrev tracked : String → FlowRoute → Manager Dsl → GoMap (List FlowRoute)
  tracked flow_id fr m = put flow_id (routes_of flow_id m ++ (fr ∷ [])) m.by_flow

  -- The server with the route, where no other flow has it.
  unfoldable pub with_route :
      Option (RouteTarget Dsl)
      → String
      → String
      → HttpConfig
      → RouteTarget Dsl
      → String
      → SharedServer Dsl
      → Outcome EndpointError (SharedServer Dsl)
  with_route none addr pattern cfg target flow_id ss = returns (record ss {
    routes = put pattern target ss.routes;
    ref_count = ss.ref_count + 1;
    mux =
        if c.registers (patterns ss.mux) pattern then put pattern cfg.allow_cors ss.mux else ss.mux;
  })
  with_route (some existing) addr pattern cfg target flow_id ss =
      if nonempty existing.flow_id && not (existing.flow_id == flow_id)
      then fails (route_conflict addr pattern existing.flow_id (name_of existing.flow_id))
      else returns (record ss { routes = put pattern target ss.routes })

  abbrev from_outcome : {A : Type 0} → Outcome EndpointError A → Step A
  from_outcome r m = (m, r)

  abbrev store_server : String → String → String → SharedServer Dsl → Step (Unit {0})
  store_server addr pattern flow_id ss m = (
    record m {
      by_addr = put addr ss m.by_addr;
      by_flow = tracked flow_id (record { addr = addr; pattern = pattern }) m;
    },
    returns tt,
  )

  -- registerPatternLocked panics on a route that is new in the server.
  abbrev unregistered : Option (RouteTarget Dsl) → String → GoMap Bool → Bool
  unregistered none pattern mux = not (c.registers (patterns mux) pattern)
  unregistered (some existing) pattern mux = false

  -- addRoute. A new server has no routes, so its address is entered in `byAddr` with its route.
  unfoldable pub add_route :
      String → String → HttpConfig → RouteTarget Dsl → String → Step (Unit {0})
  add_route addr pattern cfg target flow_id m =
      (do
        ss ← from_outcome (server_at (lookup addr m.by_addr) addr cfg)
        ss' ←
            from_outcome (with_route (lookup pattern ss.routes) addr pattern cfg target flow_id ss)
        stored ← store_server addr pattern flow_id ss'
        refuse_if (unregistered (lookup pattern ss.routes) pattern ss.mux) panicked)
        m

  -- The end of an addRoute in SyncFlow that returns an error.
  abbrev pub or_remove :
      String
      → Manager Dsl × Outcome EndpointError (Unit {0})
      → Manager Dsl × Outcome EndpointError (Unit {0})
  or_remove flow_id (m, returns u) = (m, returns u)
  or_remove flow_id (m, fails e) =
      if is_panic e then (m, fails e) else (remove_flow c.registers flow_id >>= λ u. refuse e) m

  unfoldable pub add_routers : String → String → Dsl → HttpConfig → List Router → Step (Unit {0})
  add_routers flow_id node_id dsl cfg [] = pure tt
  add_routers flow_id node_id dsl cfg (r ∷ routers) = do
    u ← (λ m. or_remove flow_id (
        add_route (c.normalize_server cfg.server) (c.to_pattern r.method r.path) cfg
          (record {
            flow_id = flow_id;
            node_id = node_id;
            relation = c.router_relation r;
            dsl = dsl;
          })
          flow_id m))
    add_routers flow_id node_id dsl cfg routers

  -- A node of SyncFlow's loop; a configuration that does not parse ends it.
  unfoldable pub add_node : String → Dsl → FlowNode c.Configuration → Step (Unit {0})
  add_node flow_id dsl node m =
      if node.type == c.type
      then elim (c.parse_http_config node.configuration) [
        | none ↦ (m, fails bad_config)
        | some cfg ↦ add_routers flow_id node.id dsl cfg cfg.routers m
      ]
      else (m, returns tt)

  unfoldable pub add_nodes : String → Dsl → List (FlowNode c.Configuration) → Step (Unit {0})
  add_nodes flow_id dsl [] = pure tt
  add_nodes flow_id dsl (node ∷ nodes) = do
    u ← add_node flow_id dsl node
    add_nodes flow_id dsl nodes

  -- SyncFlow on a record that is not nil, by its id and its published DSL.
  unfoldable pub sync_flow : String → Option Dsl → Step (Unit {0})
  sync_flow flow_id none = remove_flow c.registers flow_id
  sync_flow flow_id (some dsl) = do
    u ← remove_flow c.registers flow_id
    add_nodes flow_id dsl dsl.nodes
