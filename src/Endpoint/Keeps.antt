-- ===== src/Endpoint/Keeps.antt =====
-- What SyncFlow keeps: a property of the tables that adding the flow's routes and removing the flow
-- keep.
use flowgo_server.Prelude.{
  String, refl, ◌≡◌, ◌==◌, Bool, true, Option, none, some, List, [], ◌∷◌, Bool-cases, Option-cases,
  inl, inr,
}
use flowgo_server.Prelude.Action.{Action, Outcome, returns, fails, proceed, ◌>>=◌, Preserves}
use flowgo_server.Types.{FlowDsl, FlowNode}
use flowgo_server.Endpoint.Config.{Component, HttpConfig, Router}
use flowgo_server.Endpoint.Manager.{
  calm, is_panic, Manager, EndpointError, remove_flow, or_remove, add_route, add_routers, add_node,
  add_nodes, sync_flow,
}

module _ (c : Component) (listens : String → Bool) (name_of : String → String)
    (P : Manager (FlowDsl c.Configuration) → Type 0) where
  -- The property is kept where there is no panic.
  abbrev pub Calm :
      {A : Type 0} → Action (Manager (FlowDsl c.Configuration)) EndpointError A → Type 0
  Calm act = (m : Manager (FlowDsl c.Configuration)) → P m → calm (act m).1 ≡ true → P (act m).0

  proceed-Calm :
      {A B : Type 0} (m : Manager (FlowDsl c.Configuration)) (r : Outcome EndpointError A)
      (f : A → Action (Manager (FlowDsl c.Configuration)) EndpointError B)
      → (calm r ≡ true → P m)
      → ((a : A) → Calm (f a))
      → calm (proceed m r f).1 ≡ true
      → P (proceed m r f).0
  proceed-Calm m (returns a) f p k h = k a m (p refl) h
  proceed-Calm m (fails e) f p k h = p h

  pub then-Calm :
      {A B : Type 0} (act : Action (Manager (FlowDsl c.Configuration)) EndpointError A)
      (f : A → Action (Manager (FlowDsl c.Configuration)) EndpointError B)
      → Calm act
      → ((a : A) → Calm (f a))
      → Calm (act >>= f)
  unfolding ◌>>=◌
  then-Calm act f k l m p h = proceed-Calm (act m).0 (act m).1 f (k m p) l h

  -- The property is kept by adding a route of the graph to the flow, and by removing the flow.
  pub record Kept (f : String) (dsl : FlowDsl c.Configuration) : Type 0 where
    pub adds :
        (addr pattern node_id relation : String) (cfg : HttpConfig)
        → Preserves P (
            add_route c listens name_of addr pattern cfg
              (record { flow_id = f; node_id = node_id; relation = relation; dsl = dsl })
              f)
    pub removes : Calm (remove_flow c.registers f)

  module _ (f : String) (dsl : FlowDsl c.Configuration) (k : Kept f dsl) where
    or_remove-Kept :
        (m : Manager (FlowDsl c.Configuration)) (o : Outcome EndpointError (Unit {0}))
        → P m
        → calm (or_remove c listens name_of f (m, o)).1 ≡ true
        → P (or_remove c listens name_of f (m, o)).0
    or_remove-Kept m (returns u) p h = p
    or_remove-Kept m (fails e) p h = elim (Bool-cases (is_panic e)) [
      | inl q ↦ rw q p
      | inr q ↦ rw q (then-Calm _ _ k.removes (λ u m p h. p) m p (rw q at h))
    ]

    add_routers-Kept :
        (node_id : String) (cfg : HttpConfig) (routers : List Router)
        → Calm (add_routers c listens name_of f node_id dsl cfg routers)
    unfolding add_routers
    add_routers-Kept node_id cfg [] = λ m p h. p
    add_routers-Kept node_id cfg (r ∷ routers) =
        then-Calm _ _ (λ m p. or_remove-Kept _ _ (k.adds _ _ node_id _ cfg m p))
          (λ u. add_routers-Kept node_id cfg routers)

    add_node-Kept : (node : FlowNode c.Configuration) → Calm (add_node c listens name_of f dsl node)
    unfolding add_node
    add_node-Kept node m p h = elim (Bool-cases (node.type == c.type)) [
      | inr e ↦ rw e p
      | inl e ↦ elim (Option-cases (c.parse_http_config node.configuration)) [
        | inl e' ↦ rw (e, e', add_node) p
        | inr (cfg, e') ↦
            rw (e, e', add_node)
              (add_routers-Kept node.id cfg cfg.routers m p (rw (add_node, e, e') at h))
      ]
    ]

    pub add_nodes-Kept :
        (nodes : List (FlowNode c.Configuration)) → Calm (add_nodes c listens name_of f dsl nodes)
    unfolding add_nodes
    add_nodes-Kept [] = λ m p h. p
    add_nodes-Kept (node ∷ nodes) = then-Calm _ _ (add_node-Kept node) (λ u. add_nodes-Kept nodes)

  pub sync_flow-Kept :
      (f : String) (published : Option (FlowDsl c.Configuration))
      → Calm (remove_flow c.registers f)
      → ((dsl : FlowDsl c.Configuration) → published ≡ some dsl → Kept f dsl)
      → Calm (sync_flow c listens name_of f published)
  unfolding sync_flow
  sync_flow-Kept f none removes k = removes
  sync_flow-Kept f (some dsl) removes k =
      then-Calm _ _ removes (λ u. add_nodes-Kept f dsl (k dsl (λ i. some dsl)) dsl.nodes)
