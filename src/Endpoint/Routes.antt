-- ===== src/Endpoint/Routes.antt =====
-- The servers' counts and the flows' lists, and what one step of a removal does to a server.
use flowgo_server.Prelude.{
  String, ◌≡◌, refl, inl, inr, ◌==◌, Bool, true, false, ◌&&◌, ◌||◌, Option, none, some, List, [],
  ◌∷◌, arith, if◌then◌else◌, nat_eq, Bool-cases, Option-cases, eq_iff, length, GoMap, lookup, put,
  lookup-delete, lookup-put, lookup-HasEntry, Values, Values-at, Values-delete, Distinct,
  delete-Distinct, length-delete,
}
use flowgo_server.Endpoint.Manager.{
  RouteTarget, SharedServer, FlowRoute, Manager, routes_of, route_at, rebuilt_mux, has_no_routes,
  owned_by, without_route, settle, remove_route,
}

abbrev pub is_route : String → String → FlowRoute → Bool
is_route addr pattern fr = fr.addr == addr && fr.pattern == pattern

abbrev pub lists : String → String → List FlowRoute → Bool
lists addr pattern [] = false
lists addr pattern (fr ∷ routes) = is_route addr pattern fr || lists addr pattern routes

module _ {D : Type 0} where
  -- The count of a server is that of its routes.
  pub record IsCounted (ss : SharedServer D) : Type 0 where
    pub counted : ss.ref_count ≡ length ss.routes
    pub distinct : Distinct ss.routes

  abbrev pub AllCounted : Manager D → Type 0
  AllCounted m = Values IsCounted m.by_addr

  -- What is left of a route when the flow is removed.
  abbrev pub disowned : String → Option (RouteTarget D) → Option (RouteTarget D)
  disowned flow_id o = if owned_by flow_id o then none else o

  -- Each route is in the list of the flow that owns it.
  abbrev pub IsTracked : Manager D → Type 0
  IsTracked m =
      (addr pattern : String) (t : RouteTarget D)
      → route_at addr pattern m ≡ some t
      → lists addr pattern (routes_of t.flow_id m) ≡ true

  empty_of : (routes : GoMap (RouteTarget D)) → length routes ≡ 0 → routes ≡ []
  empty_of [] h = refl
  empty_of (e ∷ routes) h = absurd (omega (arith, h))

  no_routes : (routes : GoMap (RouteTarget D)) → has_no_routes routes ≡ true → routes ≡ []
  no_routes [] h = refl
  no_routes (e ∷ routes) h = cc

  shut_empty :
      (ss : SharedServer D)
      → IsCounted ss
      → (nat_eq ss.ref_count 0 || has_no_routes ss.routes) ≡ true
      → ss.routes ≡ []
  shut_empty ss c h = elim (Bool-cases (has_no_routes ss.routes)) [
    | inl e ↦ no_routes ss.routes e
    | inr e ↦
        let zero_count : nat_eq ss.ref_count 0 ≡ true = ground arith in
        let counted = c.counted in empty_of ss.routes (ground arith)
  ]

  pub settle-route_at :
      (registers : List String → String → Bool) (addr a p : String) (ss : SharedServer D)
      (m : Manager D)
      → IsCounted ss
      → route_at a p (settle registers addr ss m).0
        ≡ (if addr == a then lookup p ss.routes else route_at a p m)
  unfolding settle route_at lookup
  settle-route_at registers addr a p ss m c =
      elim (Bool-cases (nat_eq ss.ref_count 0 || has_no_routes ss.routes)) [
        | inl e ↦
            rw (e, shut_empty ss c e, lookup-delete addr a m.by_addr)
              (elim (Bool-cases (addr == a)) [ inl e' ↦ rw e' refl | inr e' ↦ rw e' refl ])
        | inr e ↦
            rw
              (
                e,
                lookup-put addr a (record ss { mux = (rebuilt_mux registers ss.routes []).0 })
                    m.by_addr,
              )
              (elim (Bool-cases (addr == a)) [ inl e' ↦ rw e' refl | inr e' ↦ rw e' refl ])
      ]

  pub owned_none :
      (f : String) (o : Option (RouteTarget D)) → owned_by f o ≡ false → disowned f o ≡ o
  owned_none f o h = rw h refl

  pub disowned_idem :
      (f : String) (o : Option (RouteTarget D)) → disowned f (disowned f o) ≡ disowned f o
  disowned_idem f o = elim (Bool-cases (owned_by f o)) [
    | inl e ↦ rw e refl
    | inr e ↦ rw e (rw e refl)
  ]

  pub without_route-lookup :
      (f q p : String) (ss : SharedServer D)
      → lookup p (without_route f q ss).routes
        ≡ (if q == p then disowned f (lookup p ss.routes) else lookup p ss.routes)
  unfolding without_route
  without_route-lookup f q p ss = elim (Bool-cases (owned_by f (lookup q ss.routes))) [
    | inl e ↦
        rw (e, lookup-delete q p ss.routes)
          (elim (Bool-cases (q == p)) [
            | inl same ↦ let eq : q ≡ p = (eq_iff q p).0 same in rw same (rw (rw eq at e) refl)
            | inr other ↦ rw other refl
          ])
    | inr e ↦ rw e (elim (Bool-cases (q == p)) [
      | inl same ↦ let eq : q ≡ p = (eq_iff q p).0 same in rw same (rw (rw eq at e) refl)
      | inr other ↦ rw other refl
    ])
  ]

  pub owned-some :
      (f : String) (o : Option (RouteTarget D))
      → owned_by f o ≡ true
      → (t : RouteTarget D) × (o ≡ some t)
  owned-some f none h = cc
  owned-some f (some t) h = (t, refl)

  pub without_route-IsCounted :
      (f q : String) (ss : SharedServer D) → IsCounted ss → IsCounted (without_route f q ss)
  unfolding without_route
  without_route-IsCounted f q ss c = elim (Bool-cases (owned_by f (lookup q ss.routes))) [
    | inl e ↦
        let (t, there) = owned-some f (lookup q ss.routes) e in
        let one = length-delete q t ss.routes c.distinct there in
        let counted = c.counted in
        rw e (record {
          counted = omega (arith, one, counted);
          distinct = delete-Distinct q ss.routes c.distinct;
        })
    | inr e ↦ rw e c
  ]

  settle-AllCounted :
      (registers : List String → String → Bool) (addr : String) (ss : SharedServer D)
      (m : Manager D)
      → IsCounted ss
      → AllCounted m
      → AllCounted (settle registers addr ss m).0
  unfolding settle put
  settle-AllCounted registers addr ss m c h =
      elim (Bool-cases (nat_eq ss.ref_count 0 || has_no_routes ss.routes)) [
        | inl e ↦ rw e (Values-delete IsCounted addr m.by_addr h)
        | inr e ↦ rw e (
          record { counted = c.counted; distinct = c.distinct },
          Values-delete IsCounted addr m.by_addr h,
        )
      ]

  pub server-IsCounted :
      (addr : String) (ss : SharedServer D) (m : Manager D)
      → AllCounted m
      → lookup addr m.by_addr ≡ some ss
      → IsCounted ss
  server-IsCounted addr ss m h e =
      Values-at IsCounted addr ss m.by_addr h (lookup-HasEntry addr ss m.by_addr e)

  pub remove_route-AllCounted :
      (registers : List String → String → Bool) (f : String) (fr : FlowRoute) (m : Manager D)
      → AllCounted m
      → AllCounted (remove_route registers f fr m).0
  unfolding remove_route
  remove_route-AllCounted registers f fr m h = elim (Option-cases (lookup fr.addr m.by_addr)) [
    | inl e ↦ rw (e, remove_route) h
    | inr (ss, e) ↦
        rw (e, remove_route)
          (settle-AllCounted registers fr.addr _ m
            (without_route-IsCounted f fr.pattern ss (server-IsCounted fr.addr ss m h e)) h)
  ]
