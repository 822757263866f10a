-- ===== src/Endpoint/Removal.antt =====
-- Removing a flow removes its routes and no others.
use flowgo_server.Prelude.{
  String, ◌≡◌, refl, sym, subst, ◌∙◌, inl, inr, ◌==◌, Bool, true, false, ◌&&◌, ◌||◌, Option, none,
  some, List, [], ◌∷◌, arith, if◌then◌else◌, Bool-cases, Option-cases, eq_iff, lookup, delete, ap,
  nat_eq,
}
use flowgo_server.Prelude.Action.{
  Action, Outcome, returns, fails, ◌>>=◌, proceed, Preserves, then-Preserves,
}
use flowgo_server.Endpoint.Manager.{
  EndpointError, calm, rebuilt_mux, settle, has_no_routes, RouteTarget, SharedServer, FlowRoute,
  Manager, routes_of, route_at, owned_by, without_route, remove_route, remove_routes, remove_flow,
}
use flowgo_server.Endpoint.Routes.{
  is_route, lists, AllCounted, disowned, IsTracked, settle-route_at, owned_none, disowned_idem,
  without_route-lookup, owned-some, without_route-IsCounted, server-IsCounted,
  remove_route-AllCounted,
}

-- The first part of a block without a panic, and the rest.
calm-proceed :
    {S A B : Type 0} (s : S) (r : Outcome EndpointError A) (f : A → Action S EndpointError B)
    → calm (proceed s r f).1 ≡ true
    → (calm r ≡ true) × ((a : A) → r ≡ returns a → calm (f a s).1 ≡ true)
calm-proceed s (returns a) f h =
    (refl, λ a' e. let same : a ≡ a' = cc in subst (λ x. calm (f x s).1 ≡ true) same h)
calm-proceed s (fails e) f h = (h, λ a q. cc)

pub calm_first :
    {S A B : Type 0} (m : Action S EndpointError A) (f : A → Action S EndpointError B) (s : S)
    → calm ((m >>= f) s).1 ≡ true
    → (calm (m s).1 ≡ true) × ((a : A) → (m s).1 ≡ returns a → calm (f a (m s).0).1 ≡ true)
unfolding ◌>>=◌
calm_first m f s h = calm-proceed (m s).0 (m s).1 f h

pub >>=-done :
    {S A B : Type 0} (m : Action S EndpointError A) (f : A → Action S EndpointError B) (s : S)
    {a : A}
    → (m s).1 ≡ returns a
    → (m >>= f) s ≡ f a (m s).0
unfolding ◌>>=◌
>>=-done m f s h = rw h refl

module _ {D : Type 0} where
  -- The route of an address whose server is known.
  pub route_at-found :
      (addr a p : String) (m : Manager D) (ss : SharedServer D)
      → lookup addr m.by_addr ≡ some ss
      → addr ≡ a
      → route_at a p m ≡ lookup p ss.routes
  unfolding route_at
  route_at-found addr a p m ss e same = rw (rw same at e) refl

  pub route_at-missing :
      (addr a p : String) (m : Manager D)
      → lookup addr m.by_addr ≡ none
      → addr ≡ a
      → route_at a p m ≡ none
  unfolding route_at
  route_at-missing addr a p m e same = rw (rw same at e) refl

  settled :
      (f a p addr q : String) (m : Manager D) (ss : SharedServer D)
      → lookup addr m.by_addr ≡ some ss
      → (if addr == a then lookup p (without_route f q ss).routes else route_at a p m)
        ≡ (if addr == a && q == p then disowned f (route_at a p m) else route_at a p m)
  settled f a p addr q m ss e = elim (Bool-cases (addr == a)) [
    | inl here ↦
        let found = route_at-found addr a p m ss e ((eq_iff addr a).0 here) in
        rw (here, without_route-lookup f q p ss, found) refl
    | inr away ↦ rw away refl
  ]

  settle-returns :
      (registers : List String → String → Bool) (addr : String) (ss : SharedServer D)
      (m : Manager D)
      → calm (settle registers addr ss m).1 ≡ true
      → (settle registers addr ss m).1 ≡ returns tt
  unfolding settle
  settle-returns registers addr ss m h =
      elim (Bool-cases (nat_eq ss.ref_count 0 || has_no_routes ss.routes)) [
        | inl e ↦ rw (e, settle) refl
        | inr e ↦ elim (Bool-cases (rebuilt_mux registers ss.routes []).1) [
          | inl q ↦ rw (e, q, settle) refl
          | inr q ↦ cc (rw (settle, e, q) at h)
        ]
      ]

  remove_route-route_at :
      (registers : List String → String → Bool) (f a p : String) (fr : FlowRoute) (m : Manager D)
      → AllCounted m
      → route_at a p (remove_route registers f fr m).0
        ≡ (if is_route a p fr then disowned f (route_at a p m) else route_at a p m)
  unfolding remove_route
  remove_route-route_at registers f a p fr m h = elim (Option-cases (lookup fr.addr m.by_addr)) [
    | inl e ↦
        rw (e, remove_route)
          (elim (Bool-cases (is_route a p fr)) [
            | inl here ↦
                let missing =
                  route_at-missing fr.addr a p m e ((eq_iff fr.addr a).0 (ground arith)) in
                rw (here, missing) refl
            | inr away ↦ rw away refl
          ])
    | inr (ss, e) ↦
        rw (e, remove_route)
          (settle-route_at registers fr.addr a p _ m
              (without_route-IsCounted f fr.pattern ss (server-IsCounted fr.addr ss m h e))
            ∙ settled f a p fr.addr fr.pattern m ss e)
  ]

  -- A step of a removal returns or panics.
  remove_route-returns :
      (registers : List String → String → Bool) (f : String) (fr : FlowRoute) (m : Manager D)
      → calm (remove_route registers f fr m).1 ≡ true
      → (remove_route registers f fr m).1 ≡ returns tt
  unfolding remove_route settle
  remove_route-returns registers f fr m h = elim (Option-cases (lookup fr.addr m.by_addr)) [
    | inl e ↦ rw (e, remove_route) refl
    | inr (ss, e) ↦
        rw (e, remove_route)
          (settle-returns registers fr.addr (without_route f fr.pattern ss) m
            (rw (remove_route, e) at h))
  ]

  remove_routes-route_at :
      (registers : List String → String → Bool) (f a p : String) (routes : List FlowRoute)
      (m : Manager D)
      → AllCounted m
      → calm (remove_routes registers f routes m).1 ≡ true
      → route_at a p (remove_routes registers f routes m).0
        ≡ (if lists a p routes then disowned f (route_at a p m) else route_at a p m)
  unfolding remove_routes
  remove_routes-route_at registers f a p [] m h k = refl
  remove_routes-route_at registers f a p (fr ∷ routes) m h k =
      let (done, k') = calm_first _ _ m k in
      let one = remove_route-returns registers f fr m done in
      let rest =
        remove_routes-route_at registers f a p routes (remove_route registers f fr m).0
          (remove_route-AllCounted registers f fr m h) (k' tt one) in
      ap (λ x. route_at a p x.0) (>>=-done _ _ m one)
      ∙ rest
      ∙ rw (remove_route-route_at registers f a p fr m h)
          (both (is_route a p fr) (lists a p routes) (route_at a p m))
    where
      both :
          (x y : Bool) (o : Option (RouteTarget D))
          → (if y
              then disowned f (if x then disowned f o else o)
              else (if x then disowned f o else o))
            ≡ (if x || y then disowned f o else o)
      both true true o = disowned_idem f o
      both true false o = refl
      both false true o = refl
      both false false o = refl

  pub remove_routes-AllCounted :
      (registers : List String → String → Bool) (f : String) (routes : List FlowRoute)
      → Preserves (AllCounted {D = D}) (remove_routes registers f routes)
  unfolding remove_routes
  remove_routes-AllCounted registers f [] = λ m h. h
  remove_routes-AllCounted registers f (fr ∷ routes) =
      then-Preserves (AllCounted {D = D}) _ _ (remove_route-AllCounted registers f fr)
        (λ u. remove_routes-AllCounted registers f routes)

  remove_routes-returns :
      (registers : List String → String → Bool) (f : String) (routes : List FlowRoute)
      (m : Manager D)
      → calm (remove_routes registers f routes m).1 ≡ true
      → (remove_routes registers f routes m).1 ≡ returns tt
  unfolding remove_routes
  remove_routes-returns registers f [] m h = refl
  remove_routes-returns registers f (fr ∷ routes) m h =
      let (done, rest) = calm_first _ _ m h in
      let one = remove_route-returns registers f fr m done in
      ap (λ (x : Manager D × Outcome EndpointError (Unit {0})). x.1) (>>=-done _ _ m one)
      ∙ remove_routes-returns registers f routes (remove_route registers f fr m).0 (rest tt one)

  -- RemoveFlow returns or panics.
  pub remove_flow-returns :
      (registers : List String → String → Bool) (f : String) (m : Manager D)
      → calm (remove_flow registers f m).1 ≡ true
      → (remove_flow registers f m).1 ≡ returns tt
  unfolding remove_flow
  remove_flow-returns registers f m h = elim (Bool-cases (f == "")) [
    | inl e ↦ rw (e, remove_flow) refl
    | inr e ↦
        rw (e, remove_flow)
          (remove_routes-returns registers f (routes_of f m) _ (rw (remove_flow, e) at h))
  ]

  listed_all :
      (f a p : String) (m : Manager D)
      → IsTracked m
      → (if lists a p (routes_of f m) then disowned f (route_at a p m) else route_at a p m)
        ≡ disowned f (route_at a p m)
  listed_all f a p m tracked = elim (Bool-cases (lists a p (routes_of f m))) [
    | inl e ↦ rw e refl
    | inr e ↦ rw e (elim (Bool-cases (owned_by f (route_at a p m))) [
      | inl owned ↦
          let (t, there) = owned-some f (route_at a p m) owned in
          let mine : t.flow_id ≡ f = (eq_iff t.flow_id f).0 (rw there at owned) in
          let listed = subst (λ g. lists a p (routes_of g m) ≡ true) mine (tracked a p t there) in
          cc (listed, e)
      | inr free ↦ sym (owned_none f (route_at a p m) free)
    ])
  ]

  -- In a manager whose servers are counted and whose routes are tracked, without a panic.
  pub remove_flow-route_at :
      (registers : List String → String → Bool) (f a p : String) (m : Manager D)
      → AllCounted m
      → IsTracked m
      → (f == "") ≡ false
      → calm (remove_flow registers f m).1 ≡ true
      → route_at a p (remove_flow registers f m).0 ≡ disowned f (route_at a p m)
  unfolding remove_flow route_at
  remove_flow-route_at registers f a p m counted tracked named h =
      rw (named, remove_flow)
        (remove_routes-route_at registers f a p (routes_of f m)
            (record m { by_flow = delete f m.by_flow }) counted (rw (remove_flow, named) at h)
          ∙ listed_all f a p m tracked)
