-- ===== src/Endpoint/Checking.antt =====
-- The routes of a graph that CheckHTTPRoutes (internal/endpoint/route_check.go) lets pass.
use flowgo_server.Prelude.{
  String, ◌≡◌, refl, ◌==◌, true, false, some, List, [], ◌∷◌, Bool-cases, Option-cases, text_cases,
  lookup, subst, inl, inr, ◌⊎◌, arith, All, All-In, In,
}
use flowgo_server.Prelude.Action.{Outcome, returns, fails}
use flowgo_server.Types.{FlowDsl, FlowNode}
use flowgo_server.Endpoint.Config.{Component, HttpConfig, Router}
use flowgo_server.Endpoint.Manager.{EndpointError, RouteTarget, Manager, route_at}
use flowgo_server.Endpoint.Check.{
  Seen, Wanted, nothing_wanted, seen_at, see_routers, see_tls, see_node, see_nodes, any_tls_blocked,
  first_conflict, check_http_routes, is_foreign, same_tls, and_then, checked,
}

module _ (c : Component) (name_of : String → String) where
  and_then-returns :
      (r : Outcome EndpointError Wanted) (f : Wanted → Outcome EndpointError Wanted) {w : Wanted}
      → and_then c name_of r f ≡ returns w
      → (v : Wanted) × (r ≡ returns v) × (f v ≡ returns w)
  and_then-returns (returns v) f h = (v, refl, h)
  and_then-returns (fails e) f h = cc

  -- The routes of a node, each of which has the property.
  abbrev pub Routes : (String → String → Type 0) → FlowNode c.Configuration → Type 0
  Routes Q node =
      (cfg : HttpConfig)
      → (node.type == c.type) ≡ true
      → c.parse_http_config node.configuration ≡ some cfg
      → All (λ (r : Router). Q (c.normalize_server cfg.server) (c.to_pattern r.method r.path))
          cfg.routers

  module _ (Q : String → String → Type 0) where
    abbrev SeenAll : Wanted → Type 0
    SeenAll w = All (λ (s : Seen). Q s.addr s.pattern) w.seen

    see_routers-All :
        (addr id : String) (routers : List Router) (w w' : Wanted)
        → see_routers c name_of addr id routers w ≡ returns w'
        → SeenAll w'
        → SeenAll w × All (λ (r : Router). Q addr (c.to_pattern r.method r.path)) routers
    unfolding see_routers
    see_routers-All addr id [] w w' h k = let same : w' ≡ w = cc in (subst SeenAll same k, tt)
    see_routers-All addr id (r ∷ routers) w w' h k =
        elim (Option-cases (seen_at addr (c.to_pattern r.method r.path) w.seen)) [
          | inr (prev, e) ↦ cc (rw (see_routers, e) at h)
          | inl e ↦
              let ((q, before), rest) =
                see_routers-All addr id routers _ w' (rw (see_routers, e) at h) k in
              (before, (q, rest))
        ]

    see_tls-seen :
        (addr : String) (cfg : HttpConfig) (w w' : Wanted)
        → see_tls c name_of addr cfg w ≡ returns w'
        → w'.seen ≡ w.seen
    unfolding see_tls
    see_tls-seen addr cfg w w' h = elim (Option-cases (lookup addr w.tls_by_addr)) [
      | inl e ↦ cc (rw (see_tls, e) at h)
      | inr (prev, e) ↦ elim (Bool-cases (same_tls cfg.https (c.tls_fingerprint cfg) prev)) [
        | inl q ↦ cc (rw (see_tls, e, q) at h)
        | inr q ↦ cc (rw (see_tls, e, q) at h)
      ]
    ]

    see_http-All :
        (node : FlowNode c.Configuration) (cfg : HttpConfig) (w w' : Wanted)
        → and_then c name_of
            (see_tls c name_of (c.normalize_server cfg.server) cfg w)
            (see_routers c name_of (c.normalize_server cfg.server) node.id cfg.routers)
          ≡ returns w'
        → SeenAll w'
        → SeenAll w
          × All
              (λ (r : Router). Q (c.normalize_server cfg.server) (c.to_pattern r.method r.path))
              cfg.routers
    see_http-All node cfg w w' h k =
        let (v, e, rest) =
          and_then-returns (see_tls c name_of (c.normalize_server cfg.server) cfg w) _ h in
        let (before, all) =
          see_routers-All (c.normalize_server cfg.server) node.id cfg.routers v w' rest k in
        (
          subst (λ seen. All (λ (s : Seen). Q s.addr s.pattern) seen) (see_tls-seen _ cfg w v e)
              before,
          all,
        )

    see_node-All :
        (node : FlowNode c.Configuration) (w w' : Wanted)
        → see_node c name_of node w ≡ returns w'
        → SeenAll w'
        → SeenAll w × Routes Q node
    unfolding see_node
    see_node-All node w w' h k = elim (Bool-cases (node.type == c.type)) [
      | inr e ↦
          let same : w' ≡ w = cc (rw (see_node, e) at h) in
          (subst SeenAll same k, λ cfg typed parsed. absurd (ground arith))
      | inl e ↦ elim (Option-cases (c.parse_http_config node.configuration)) [
        | inl q ↦ cc (rw (see_node, e, q) at h)
        | inr (cfg, q) ↦
            let (before, all) = see_http-All node cfg w w' (rw (see_node, e, q) at h) k in
            (
              before,
              λ cfg' typed parsed.
                  let same : cfg ≡ cfg' = cc in
                  subst
                    (λ (x : HttpConfig).
                      All
                        (λ (r : Router).
                          Q (c.normalize_server x.server) (c.to_pattern r.method r.path))
                        x.routers)
                    same all,
            )
      ]
    ]

    see_nodes-All :
        (nodes : List (FlowNode c.Configuration)) (w w' : Wanted)
        → see_nodes c name_of nodes w ≡ returns w'
        → SeenAll w'
        → SeenAll w × All (Routes Q) nodes
    unfolding see_nodes
    see_nodes-All [] w w' h k = let same : w' ≡ w = cc in (subst SeenAll same k, tt)
    see_nodes-All (node ∷ nodes) w w' h k =
        let (v, e, rest) = and_then-returns (see_node c name_of node w) _ h in
        let (later, all) = see_nodes-All nodes v w' rest k in
        let (before, here) = see_node-All node w v e later in (before, (here, all))

  -- No other flow has the route.
  abbrev IsFree : String → Manager (FlowDsl c.Configuration) → String → String → Type 0
  IsFree flow_id m addr pattern =
      (t : RouteTarget (FlowDsl c.Configuration))
      → route_at addr pattern m ≡ some t
      → (t.flow_id ≡ "") ⊎ (t.flow_id ≡ flow_id)

  not_foreign :
      (flow_id : String) (t : RouteTarget (FlowDsl c.Configuration))
      → is_foreign c name_of flow_id t ≡ false
      → (t.flow_id ≡ "") ⊎ (t.flow_id ≡ flow_id)
  not_foreign flow_id t h = elim (text_cases t.flow_id "") [
    | inl e ↦ inl e
    | inr e ↦ elim (text_cases t.flow_id flow_id) [ inl q ↦ inr q | inr q ↦ absurd (ground arith) ]
  ]

  first_conflict-All :
      (flow_id : String) (seen : List Seen) (m : Manager (FlowDsl c.Configuration))
      → first_conflict c name_of flow_id seen m ≡ returns tt
      → All (λ (s : Seen). IsFree flow_id m s.addr s.pattern) seen
  unfolding first_conflict
  first_conflict-All flow_id [] m h = tt
  first_conflict-All flow_id (s ∷ seen) m h = elim (Option-cases (route_at s.addr s.pattern m)) [
    | inl e ↦ (λ t at. cc, first_conflict-All flow_id seen m (rw (first_conflict, e) at h))
    | inr (t, e) ↦ elim (Bool-cases (is_foreign c name_of flow_id t)) [
      | inl q ↦ cc (rw (first_conflict, e, q) at h)
      | inr q ↦ (
        λ t' at.
            let same : t ≡ t' = cc in
            not_foreign flow_id t' (subst (λ x. is_foreign c name_of flow_id x ≡ false) same q),
        first_conflict-All flow_id seen m (rw (first_conflict, e, q) at h),
      )
    ]
  ]

  checked-All :
      (flow_id : String) (nodes : List (FlowNode c.Configuration))
      (m : Manager (FlowDsl c.Configuration)) (r : Outcome EndpointError Wanted)
      → see_nodes c name_of nodes nothing_wanted ≡ r
      → checked c name_of flow_id m r ≡ returns tt
      → All (Routes (IsFree flow_id m)) nodes
  checked-All flow_id nodes m (fails e) seen h = cc
  checked-All flow_id nodes m (returns w) seen h =
      elim (Bool-cases (any_tls_blocked c name_of flow_id w.tls_by_addr m)) [
        | inl q ↦ cc (rw q at h)
        | inr q ↦
            (see_nodes-All (IsFree flow_id m) nodes nothing_wanted w seen
              (first_conflict-All flow_id w.seen m (rw q at h))).1
      ]

  -- A check of a flow's graph that passes: a route of a node of the component's type whose
  -- configuration parses stands in the tables only for the flow itself, or for the empty id.
  pub check_http_routes-passes :
      (flow_id : String) (dsl : FlowDsl c.Configuration) (m : Manager (FlowDsl c.Configuration))
      (node : FlowNode c.Configuration) (cfg : HttpConfig) (r : Router)
      (t : RouteTarget (FlowDsl c.Configuration))
      → check_http_routes c name_of flow_id (some dsl) m ≡ returns tt
      → In node dsl.nodes
      → (node.type == c.type) ≡ true
      → c.parse_http_config node.configuration ≡ some cfg
      → In r cfg.routers
      → route_at (c.normalize_server cfg.server) (c.to_pattern r.method r.path) m ≡ some t
      → (t.flow_id ≡ "") ⊎ (t.flow_id ≡ flow_id)
  unfolding check_http_routes
  check_http_routes-passes flow_id dsl m node cfg r t h here typed parsed router at =
      let free = checked-All flow_id dsl.nodes m _ refl h in
      All-In
        (λ (x : Router).
          IsFree flow_id m (c.normalize_server cfg.server) (c.to_pattern x.method x.path))
        r cfg.routers (All-In (Routes (IsFree flow_id m)) node dsl.nodes free here cfg typed parsed)
        router t at
