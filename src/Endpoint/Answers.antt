-- ===== src/Endpoint/Answers.antt =====
-- Which graph answers for a flow, through the synchronisations of any flows.
use flowgo_server.Prelude.{
  String, ◌≡◌, ◌≢◌, refl, sym, ap, subst, true, List, ◌∙◌, ◌==◌, Bool, false, Option, none, some,
  Bool-cases, inl, inr, arith, eq_iff,
}
use flowgo_server.Types.{FlowDsl}
use flowgo_server.Endpoint.Config.{Component}
use flowgo_server.Prelude.Action.{Outcome}
use flowgo_server.Endpoint.Manager.{
  EndpointError, calm, add_nodes, RouteTarget, Manager, route_at, remove_flow, sync_flow,
}
use flowgo_server.Endpoint.Routes.{disowned}
use flowgo_server.Endpoint.Removal.{remove_flow-route_at, calm_first, >>=-done, remove_flow-returns}
use flowgo_server.Endpoint.Tracking.{IsSound, remove_flow-IsSound}
use flowgo_server.Endpoint.Adding.{add_route-IsSound, add_route-route_at}
use flowgo_server.Endpoint.Keeps.{Kept, add_nodes-Kept}

module _ {D : Type 0} where
  -- Each route of the flow runs the graph; with no graph, it has no route.
  abbrev pub Answers : String → Option D → Manager D → Type 0
  Answers g o m =
      (a p : String) (t : RouteTarget D) → route_at a p m ≡ some t → t.flow_id ≡ g → o ≡ some t.dsl

  disowned-some :
      (f : String) (o : Option (RouteTarget D)) (t : RouteTarget D)
      → disowned f o ≡ some t
      → (o ≡ some t) × (t.flow_id ≢ f)
  disowned-some f none t h = cc
  disowned-some f (some x) t h = elim (Bool-cases (x.flow_id == f)) [
    | inl e ↦ cc (rw e at h)
    | inr e ↦
        let same : x ≡ t = cc (rw e at h) in
        (ap (λ y. some y) same, λ q. ground (arith, e, same, q, eq_iff x.flow_id f))
  ]

  remove_flow-keeps :
      (registers : List String → String → Bool) (f g : String) (o : Option D) (m : Manager D)
      → IsSound m
      → Answers g o m
      → calm (remove_flow registers f m).1 ≡ true
      → Answers g o (remove_flow registers f m).0
  unfolding remove_flow
  remove_flow-keeps registers f g o m s h calmly a p t at owner = elim (Bool-cases (f == "")) [
    | inl e ↦ h a p t (rw (remove_flow, e) at at) owner
    | inr e ↦
        let at' = sym (remove_flow-route_at registers f a p m s.counted s.tracked e calmly) ∙ at in
        h a p t (disowned-some f (route_at a p m) t at').0 owner
  ]

  pub remove_flow-Answers :
      (registers : List String → String → Bool) (f : String) (o : Option D) (m : Manager D)
      → IsSound m
      → (f == "") ≡ false
      → calm (remove_flow registers f m).1 ≡ true
      → Answers f o (remove_flow registers f m).0
  remove_flow-Answers registers f o m s e calmly a p t at owner =
      let at' = sym (remove_flow-route_at registers f a p m s.counted s.tracked e calmly) ∙ at in
      absurd ((disowned-some f (route_at a p m) t at').1 owner)

  -- The invariant of the tables, and what answers for one flow.
  pub record IsAnswering (g : String) (o : Option D) (m : Manager D) : Type 0 where
    pub sound : IsSound m
    pub answers : Answers g o m

module _ (c : Component) (listens : String → Bool) (name_of : String → String) where
  IsAnswering-Kept :
      (f g : String) (o : Option (FlowDsl c.Configuration)) (dsl : FlowDsl c.Configuration)
      → (f ≡ g → o ≡ some dsl)
      → Kept c listens name_of (IsAnswering g o) f dsl
  IsAnswering-Kept f g o dsl fits = record {
    adds = λ addr pattern node_id relation cfg m k. record {
      sound = add_route-IsSound c listens name_of addr pattern cfg _ f refl m k.sound;
      answers = λ a p t at owner.
          elim (add_route-route_at c listens name_of addr pattern cfg _ f a p m t refl k.sound at) [
            | inl same ↦
                fits (ap (λ (x : RouteTarget (FlowDsl c.Configuration)). x.flow_id) same ∙ owner)
                ∙ ap (λ (x : RouteTarget (FlowDsl c.Configuration)). some x.dsl) same
            | inr before ↦ k.answers a p t before owner
          ];
    };
    removes = λ m k h. record {
      sound = remove_flow-IsSound c.registers f m k.sound h;
      answers = remove_flow-keeps c.registers f g o m k.sound k.answers h;
    };
  }

  -- After a synchronisation without a panic, failing or not, each route of the flow runs the graph
  -- that it was given; with none, it has no route.
  pub sync_flow-Answers :
      (f : String) (published : Option (FlowDsl c.Configuration))
      (m : Manager (FlowDsl c.Configuration))
      → (f == "") ≡ false
      → IsSound m
      → calm (sync_flow c listens name_of f published m).1 ≡ true
      → IsAnswering f published (sync_flow c listens name_of f published m).0
  unfolding sync_flow
  sync_flow-Answers f none m named s h = record {
    sound = remove_flow-IsSound c.registers f m s h;
    answers = remove_flow-Answers c.registers f none m s named h;
  }
  sync_flow-Answers f (some dsl) m named s h =
      let (removed, rest) = calm_first (remove_flow c.registers f) _ m h in
      let one = remove_flow-returns c.registers f m removed in
      let done =
        >>=-done (remove_flow c.registers f) (λ u. add_nodes c listens name_of f dsl dsl.nodes) m
          one in
      subst
        (λ (x : Manager (FlowDsl c.Configuration) × Outcome EndpointError (Unit {0})).
          IsAnswering f (some dsl) x.0)
        (sym done)
        (add_nodes-Kept c listens name_of (IsAnswering f (some dsl)) f dsl
          (IsAnswering-Kept f f (some dsl) dsl (λ e. refl)) dsl.nodes
          (remove_flow c.registers f m).0
          (record {
            sound = remove_flow-IsSound c.registers f m s removed;
            answers = remove_flow-Answers c.registers f (some dsl) m s named removed;
          })
          (rest tt one))
