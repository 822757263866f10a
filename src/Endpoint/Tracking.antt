-- ===== src/Endpoint/Tracking.antt =====
-- The invariant of the manager, and that removals keep it.
use flowgo_server.Prelude.{
  Bool, String, ◌≡◌, refl, sym, subst, ◌∙◌, inl, inr, ◌==◌, true, false, ◌||◌, Option, none, some,
  List, [], ◌∷◌, ◌++◌, arith, Bool-cases, Option-cases, eq_iff, lookup, delete, lookup-delete,
}
use flowgo_server.Prelude.Action.{then-Preserves}
use flowgo_server.Endpoint.Manager.{
  calm, RouteTarget, SharedServer, FlowRoute, Manager, routes_of, route_at, settle, remove_route,
  remove_routes, remove_flow,
}
use flowgo_server.Endpoint.Routes.{AllCounted, IsTracked, disowned, lists, is_route}
use flowgo_server.Endpoint.Removal.{remove_flow-route_at, remove_routes-AllCounted}

module _ {D : Type 0} where
  -- Servers are counted, and routes are tracked.
  pub record IsSound (m : Manager D) : Type 0 where
    pub counted : AllCounted m
    pub tracked : IsTracked m

  settle-by_flow :
      (registers : List String → String → Bool) (addr : String) (ss : SharedServer D)
      (m : Manager D)
      → (settle registers addr ss m).0.by_flow ≡ m.by_flow
  unfolding settle
  settle-by_flow registers addr ss m = ground arith

  remove_route-by_flow :
      (registers : List String → String → Bool) (f : String) (fr : FlowRoute) (m : Manager D)
      → (remove_route registers f fr m).0.by_flow ≡ m.by_flow
  unfolding remove_route
  remove_route-by_flow registers f fr m = elim (Option-cases (lookup fr.addr m.by_addr)) [
    | inl e ↦ rw (e, remove_route) refl
    | inr (ss, e) ↦ rw (e, remove_route) (settle-by_flow registers fr.addr _ m)
  ]

  remove_routes-by_flow :
      (registers : List String → String → Bool) (f : String) (routes : List FlowRoute)
      (m : Manager D)
      → (remove_routes registers f routes m).0.by_flow ≡ m.by_flow
  unfolding remove_routes
  remove_routes-by_flow registers f [] m = refl
  remove_routes-by_flow registers f (fr ∷ routes) m =
      then-Preserves (λ (x : Manager D). x.by_flow ≡ m.by_flow) (remove_route registers f fr)
        (λ u. remove_routes registers f routes) (λ x h. remove_route-by_flow registers f fr x ∙ h)
        (λ u x h. remove_routes-by_flow registers f routes x ∙ h) m refl

  disowned-some :
      (f : String) (o : Option (RouteTarget D)) (t : RouteTarget D)
      → disowned f o ≡ some t
      → (o ≡ some t) × ((t.flow_id == f) ≡ false)
  disowned-some f none t h = cc
  disowned-some f (some u) t h = elim (Bool-cases (u.flow_id == f)) [
    | inl e ↦ cc (rw e at h)
    | inr e ↦
        let same : some u ≡ some t = rw e at h in
        let eq : u ≡ t = cc in (same, subst (λ (x : RouteTarget D). (x.flow_id == f) ≡ false) eq e)
  ]

  remove_flow-by_flow :
      (registers : List String → String → Bool) (f : String) (m : Manager D)
      → (f == "") ≡ false
      → (remove_flow registers f m).0.by_flow ≡ delete f m.by_flow
  unfolding remove_flow
  remove_flow-by_flow registers f m named = rw named (
      remove_routes-by_flow registers f (routes_of f m) (record m { by_flow = delete f m.by_flow }))

  routes_of-delete :
      (f g : String) (m m' : Manager D)
      → m'.by_flow ≡ delete f m.by_flow
      → (g == f) ≡ false
      → routes_of g m' ≡ routes_of g m
  unfolding routes_of
  routes_of-delete f g m m' same other =
      let apart : (f == g) ≡ false = ground (arith, eq_iff f g, eq_iff g f) in
      rw same (rw (lookup-delete f g m.by_flow) (rw apart refl))

  still_counted :
      (registers : List String → String → Bool) (f : String) (m : Manager D)
      → (f == "") ≡ false
      → IsSound m
      → AllCounted (remove_flow registers f m).0
  unfolding remove_flow
  still_counted registers f m named s =
      rw (named, remove_flow)
        (remove_routes-AllCounted registers f (routes_of f m)
          (record m { by_flow = delete f m.by_flow }) s.counted)

  unnamed :
      (registers : List String → String → Bool) (f : String) (m : Manager D)
      → (f == "") ≡ true
      → (remove_flow registers f m).0 ≡ m
  unfolding remove_flow
  unnamed registers f m e = rw (e, remove_flow) refl

  still_tracked :
      (registers : List String → String → Bool) (f : String) (m : Manager D)
      → (f == "") ≡ false
      → IsSound m
      → calm (remove_flow registers f m).1 ≡ true
      → IsTracked (remove_flow registers f m).0
  still_tracked registers f m named s calmly a p t h =
      let gone = remove_flow-route_at registers f a p m s.counted s.tracked named calmly in
      let (before, other) = disowned-some f (route_at a p m) t (sym gone ∙ h) in
      let same =
        routes_of-delete f t.flow_id m (remove_flow registers f m).0
          (remove_flow-by_flow registers f m named) other in
      subst (λ l. lists a p l ≡ true) (sym same) (s.tracked a p t before)

  pub remove_flow-IsSound :
      (registers : List String → String → Bool) (f : String) (m : Manager D)
      → IsSound m
      → calm (remove_flow registers f m).1 ≡ true
      → IsSound (remove_flow registers f m).0
  remove_flow-IsSound registers f m s calmly = elim (Bool-cases (f == "")) [
    | inl e ↦ subst IsSound (sym (unnamed registers f m e)) s
    | inr named ↦ record {
      counted = still_counted registers f m named s;
      tracked = still_tracked registers f m named s calmly;
    }
  ]

pub lists-append :
    (a p : String) (xs : List FlowRoute) (fr : FlowRoute)
    → lists a p (xs ++ (fr ∷ [])) ≡ (lists a p xs || is_route a p fr)
lists-append a p [] fr = ground arith
lists-append a p (x ∷ xs) fr = ground (arith, lists-append a p xs fr)
