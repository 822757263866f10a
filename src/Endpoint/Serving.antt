-- ===== src/Endpoint/Serving.antt =====
-- The routes that a SyncFlow which returns has added (internal/endpoint/manager.go).
use flowgo_server.Prelude.{
  String, ◌≡◌, refl, ap, subst, ◌==◌, true, false, some, List, [], ◌∷◌, All, All-In, In, Bool,
  Bool-cases, Option-cases, inl, inr, arith,
}
use flowgo_server.Prelude.Action.{Outcome, returns, fails, ◌>>=◌, proceed, refuse, >>=-returns}
use flowgo_server.Types.{FlowDsl, FlowNode}
use flowgo_server.Endpoint.Config.{Component, HttpConfig, Router}
use flowgo_server.Endpoint.Manager.{
  EndpointError, RouteTarget, Manager, is_panic, route_at, remove_flow, or_remove, add_route,
  add_routers, add_node, add_nodes, sync_flow,
}
use flowgo_server.Endpoint.Tracking.{IsSound, remove_flow-IsSound}
use flowgo_server.Endpoint.Adding.{add_route-IsSound, add_route-enters, add_route-keeps}
use flowgo_server.Endpoint.Answers.{Answers, sync_flow-Answers}
use flowgo_server.Endpoint.Checking.{Routes}

All-map :
    {A : Type 0} (P Q : A → Type 0) (xs : List A) → ((a : A) → P a → Q a) → All P xs → All Q xs
All-map P Q [] f h = tt
All-map P Q (x ∷ xs) f (p, h) = (f x p, All-map P Q xs f h)

module _ (c : Component) (listens : String → Bool) (name_of : String → String) (f : String)
    (dsl : FlowDsl c.Configuration) where
  abbrev Tables : Type 0
  Tables = Manager (FlowDsl c.Configuration)

  -- The flow answers there, with the graph.
  abbrev pub Has : Tables → String → String → Type 0
  Has m a p =
      (t : RouteTarget (FlowDsl c.Configuration)) × (route_at a p m ≡ some t)
      × (t.flow_id ≡ f)
      × (t.dsl ≡ dsl)

  -- What a part of SyncFlow that returns does: what was there stays, and `Q` is added.
  record Adds (m m' : Tables) (Q : Type 0) : Type 0 where
    sound : IsSound m'
    keeps : (a p : String) → Has m a p → Has m' a p
    added : Q

  or_remove-returns :
      (m m' : Tables) (o : Outcome EndpointError (Unit {0}))
      → or_remove c listens name_of f (m, o) ≡ (m', returns tt)
      → (m ≡ m') × (o ≡ returns tt)
  unfolding ◌>>=◌
  or_remove-returns m m' (returns u) h = (cc, refl)
  or_remove-returns m m' (fails e) h = elim (Bool-cases (is_panic e)) [
    | inl q ↦ cc (rw q at h)
    | inr q ↦ absurd (refused (remove_flow c.registers f m).1 (rw q at h))
  ]
    where
      refused :
          (r : Outcome EndpointError (Unit {0}))
          → proceed (remove_flow c.registers f m).0 r (λ u. refuse {A = Unit {0}} e)
            ≡ (m', returns tt)
          → ⊥
      refused (returns u) h = cc
      refused (fails x) h = cc

  added_route :
      (addr pattern node_id relation : String) (cfg : HttpConfig) (m m' : Tables)
      → IsSound m
      → or_remove c listens name_of f (
          add_route c listens name_of addr pattern cfg
            (record { flow_id = f; node_id = node_id; relation = relation; dsl = dsl })
            f
            m)
        ≡ (m', returns tt)
      → Adds m m' (Has m' addr pattern)
  added_route addr pattern node_id relation cfg m m' s h =
      let target : RouteTarget (FlowDsl c.Configuration) = record {
        flow_id = f;
        node_id = node_id;
        relation = relation;
        dsl = dsl;
      } in
      let r = add_route c listens name_of addr pattern cfg target f m in
      let (same, done) = or_remove-returns r.0 m' r.1 h in
      subst (λ x. Adds m x (Has x addr pattern)) same
        (record {
          sound = add_route-IsSound c listens name_of addr pattern cfg target f refl m s;
          keeps = λ a p (t, there, owner, same_dsl).
              elim (add_route-keeps c listens name_of addr pattern cfg target f a p m t refl s
                there) [
                  | inl now ↦ (target, now, refl, refl)
                  | inr now ↦ (t, now, owner, same_dsl)
                ];
          added = (
            target,
            add_route-enters c listens name_of addr pattern cfg target f m refl s done,
            refl,
            refl,
          );
        })

  abbrev HasRouter : Tables → HttpConfig → Router → Type 0
  HasRouter m cfg r = Has m (c.normalize_server cfg.server) (c.to_pattern r.method r.path)

  added_routers :
      (node_id : String) (cfg : HttpConfig) (routers : List Router) (m m' : Tables)
      → IsSound m
      → add_routers c listens name_of f node_id dsl cfg routers m ≡ (m', returns tt)
      → Adds m m' (All (HasRouter m' cfg) routers)
  unfolding add_routers
  added_routers node_id cfg [] m m' s h =
      let same : m ≡ m' = cc in
      subst (λ x. Adds m x Unit) same (record { sound = s; keeps = λ a p q. q; added = tt })
  added_routers node_id cfg (r ∷ routers) m m' s h =
      let (m₁, u, one, rest) = >>=-returns _ _ m h in
      let a = added_route _ _ node_id _ cfg m m₁ s one in
      let b = added_routers node_id cfg routers m₁ m' a.sound rest in
      record {
        sound = b.sound;
        keeps = λ x y q. b.keeps x y (a.keeps x y q);
        added = (b.keeps _ _ a.added, b.added);
      }

  added_node :
      (node : FlowNode c.Configuration) (m m' : Tables)
      → IsSound m
      → add_node c listens name_of f dsl node m ≡ (m', returns tt)
      → Adds m m' (Routes c name_of (Has m') node)
  unfolding add_node
  added_node node m m' s h = elim (Bool-cases (node.type == c.type)) [
    | inr e ↦
        let same : m ≡ m' = cc (rw (add_node, e) at h) in
        subst (λ x. Adds m x (Routes c name_of (Has x) node)) same
          (record {
            sound = s;
            keeps = λ a p q. q;
            added = λ cfg typed parsed. absurd (ground (arith, e, typed));
          })
    | inl e ↦ elim (Option-cases (c.parse_http_config node.configuration)) [
      | inl q ↦ cc (rw (add_node, e, q) at h)
      | inr (cfg, q) ↦
          let a = added_routers node.id cfg cfg.routers m m' s (rw (add_node, e, q) at h) in
          record {
            sound = a.sound;
            keeps = a.keeps;
            added = λ cfg' typed parsed.
                let same : cfg ≡ cfg' = cc in
                subst (λ (x : HttpConfig). All (HasRouter m' x) x.routers) same a.added;
          }
    ]
  ]

  added_nodes :
      (nodes : List (FlowNode c.Configuration)) (m m' : Tables)
      → IsSound m
      → add_nodes c listens name_of f dsl nodes m ≡ (m', returns tt)
      → Adds m m' (All (Routes c name_of (Has m')) nodes)
  unfolding add_nodes
  added_nodes [] m m' s h =
      let same : m ≡ m' = cc in
      subst (λ x. Adds m x Unit) same (record { sound = s; keeps = λ a p q. q; added = tt })
  added_nodes (node ∷ nodes) m m' s h =
      let (m₁, u, one, rest) = >>=-returns _ _ m h in
      let a = added_node node m m₁ s one in
      let b = added_nodes nodes m₁ m' a.sound rest in
      record {
        sound = b.sound;
        keeps = λ x y q. b.keeps x y (a.keeps x y q);
        added = (
          λ cfg typed parsed.
              All-map (HasRouter m₁ cfg) (HasRouter m' cfg) cfg.routers (λ r q. b.keeps _ _ q)
                (a.added cfg typed parsed),
          b.added,
        );
      }

  -- A synchronisation with a graph that returns, of a flow with an id: each route that the flow then
  -- has runs the graph, and it has each route of each node of the component's type whose
  -- configuration parses.
  pub sync_flow-Serves :
      (m m' : Tables) (node : FlowNode c.Configuration) (cfg : HttpConfig) (r : Router)
      → (f == "") ≡ false
      → IsSound m
      → sync_flow c listens name_of f (some dsl) m ≡ (m', returns tt)
      → In node dsl.nodes
      → (node.type == c.type) ≡ true
      → c.parse_http_config node.configuration ≡ some cfg
      → In r cfg.routers
      → Answers f (some dsl) m'
        × Has m' (c.normalize_server cfg.server) (c.to_pattern r.method r.path)
  unfolding sync_flow
  sync_flow-Serves m m' node cfg r named s h here typed parsed router =
      let (m₁, u, removed, rest) = >>=-returns (remove_flow c.registers f) _ m h in
      let sound =
        subst IsSound (ap (λ (x : Tables × Outcome EndpointError (Unit {0})). x.0) removed)
          (remove_flow-IsSound c.registers f m s (rw removed refl)) in
      let answers = sync_flow-Answers c listens name_of f (some dsl) m named s (rw h refl) in
      let all = (added_nodes dsl.nodes m₁ m' sound rest).added in
      (
        subst (Answers f (some dsl)) (ap (λ (x : Tables × Outcome EndpointError (Unit {0})). x.0) h)
            answers.answers,
        All-In (HasRouter m' cfg) r cfg.routers
            (All-In (Routes c name_of (Has m')) node dsl.nodes all here cfg typed parsed) router,
      )
