-- ===== src/Endpoint/Adding.antt =====
-- Adding a route keeps the invariant of the manager.
use flowgo_server.Prelude.{
  ◌+◌, String, ◌≡◌, refl, sym, ap, subst, ◌∙◌, ◌⊎◌, inl, inr, ◌==◌, Bool, true, false, ◌&&◌, Option,
  none, some, [], ◌∷◌, ◌++◌, arith, if◌then◌else◌, Bool-cases, eq_iff, eq_refl, length, GoMap,
  lookup, put, lookup-put, Values-delete, Distinct, put-Distinct, delete-absent, length-delete,
}
use flowgo_server.Prelude.Action.{Outcome, returns, fails, ◌>>=◌, refuse_if, Preserves}
use flowgo_server.Types.{FlowDsl}
use flowgo_server.Endpoint.Config.{Component, HttpConfig}
use flowgo_server.Endpoint.Manager.{
  RouteTarget, SharedServer, Manager, routes_of, route_at, server_at, with_route, add_route,
}
use flowgo_server.Endpoint.Routes.{IsCounted, IsTracked, lists, server-IsCounted}
use flowgo_server.Endpoint.Removal.{route_at-found, route_at-missing}
use flowgo_server.Endpoint.Tracking.{lists-append, IsSound, remove_flow-IsSound}
use flowgo_server.Endpoint.Keeps.{Kept}

module _ (c : Component) (listens : String → Bool) (name_of : String → String) where
  abbrev Server : Type 0
  Server = SharedServer (FlowDsl c.Configuration)

  abbrev Target : Type 0
  Target = RouteTarget (FlowDsl c.Configuration)

  abbrev Routes : Type 0
  Routes = Manager (FlowDsl c.Configuration)

  -- The server that takes a route: the one of the address, or one without routes.
  server_at-cases :
      (o : Option Server) (addr : String) (cfg : HttpConfig) (ss : Server)
      → server_at c listens name_of o addr cfg ≡ returns ss
      → (o ≡ some ss) ⊎ ((o ≡ none) × (ss.routes ≡ []) × (ss.ref_count ≡ 0))
  unfolding server_at
  server_at-cases none addr cfg ss h = inr (refl, ground arith, ground arith)
  server_at-cases (some s) addr cfg ss h = inl (ground arith)

  outcome_cases :
      {E A : Type 0} (o : Outcome E A) → ((a : A) × (o ≡ returns a)) ⊎ ((e : E) × (o ≡ fails e))
  outcome_cases (returns a) = inl (a, refl)
  outcome_cases (fails e) = inr (e, refl)

  with_route-routes :
      (o : Option Target) (addr pattern : String) (cfg : HttpConfig) (target : Target) (f : String)
      (ss ss' : Server)
      → with_route c listens name_of o addr pattern cfg target f ss ≡ returns ss'
      → ss'.routes ≡ put pattern target ss.routes
  unfolding with_route
  with_route-routes none addr pattern cfg target f ss ss' h = ground arith
  with_route-routes (some t) addr pattern cfg target f ss ss' h = ground arith

  with_route-count :
      (o : Option Target) (addr pattern : String) (cfg : HttpConfig) (target : Target) (f : String)
      (ss ss' : Server)
      → o ≡ lookup pattern ss.routes
      → with_route c listens name_of o addr pattern cfg target f ss ≡ returns ss'
      → IsCounted ss
      → ss'.ref_count ≡ length (put pattern target ss.routes)
  unfolding with_route put
  with_route-count none addr pattern cfg target f ss ss' e h k =
      let counted = k.counted in
      let count : ss'.ref_count ≡ ss.ref_count + 1 = ground arith in
      let same = ap (λ (l : GoMap Target). length l) (delete-absent pattern ss.routes (sym e)) in
      omega (arith, counted, count, same)
  with_route-count (some t) addr pattern cfg target f ss ss' e h k =
      let counted = k.counted in
      let count : ss'.ref_count ≡ ss.ref_count = ground arith in
      let one = length-delete pattern t ss.routes k.distinct (sym e) in
      omega (arith, counted, count, one)

  with_route-IsCounted :
      (addr pattern : String) (cfg : HttpConfig) (target : Target) (f : String) (ss ss' : Server)
      → with_route c listens name_of (lookup pattern ss.routes) addr pattern cfg target f ss
        ≡ returns ss'
      → IsCounted ss
      → IsCounted ss'
  with_route-IsCounted addr pattern cfg target f ss ss' h k =
      let routes =
        with_route-routes (lookup pattern ss.routes) addr pattern cfg target f ss ss' h in
      let count =
        with_route-count (lookup pattern ss.routes) addr pattern cfg target f ss ss' refl h k in
      record {
        counted = count ∙ ap (λ (l : GoMap Target). length l) (sym routes);
        distinct =
            subst (λ (l : GoMap Target). Distinct l) (sym routes)
              (put-Distinct pattern target ss.routes k.distinct);
      }

  empty-IsCounted : (ss : Server) → ss.routes ≡ [] → ss.ref_count ≡ 0 → IsCounted ss
  empty-IsCounted ss e z = record {
    counted = z ∙ ap (λ (l : GoMap Target). length l) (sym e);
    distinct = subst (λ (l : GoMap Target). Distinct l) (sym e) tt;
  }

  -- The manager with the route entered.
  abbrev entered : String → String → String → Server → Routes → Routes
  entered addr pattern f ss m = record m {
    by_addr = put addr ss m.by_addr;
    by_flow = put f (routes_of f m ++ (record { addr = addr; pattern = pattern } ∷ [])) m.by_flow;
  }

  refuse_if-state : {S E : Type 0} (t : Bool) (e : E) (s : S) → (refuse_if t e s).0 ≡ s
  unfolding refuse_if
  refuse_if-state true e s = refl
  refuse_if-state false e s = refl

  -- Adding a route fails and changes nothing, or enters it, with a panic or not.
  add_route-cases :
      (addr pattern : String) (cfg : HttpConfig) (target : Target) (f : String) (m : Routes)
      → ((add_route c listens name_of addr pattern cfg target f m).0 ≡ m)
        ⊎ ((ss : Server) × (ss' : Server) × (server_at c listens name_of
                (lookup addr m.by_addr)
                addr
                cfg
              ≡ returns ss)
            × (with_route c listens name_of (lookup pattern ss.routes) addr pattern cfg target f ss
                ≡ returns ss')
            × ((add_route c listens name_of addr pattern cfg target f m).0
                ≡ entered addr pattern f ss' m))
  unfolding add_route ◌>>=◌
  add_route-cases addr pattern cfg target f m =
      elim (outcome_cases (server_at c listens name_of (lookup addr m.by_addr) addr cfg)) [
        | inr (e, failed) ↦ inl (rw (failed, add_route) refl)
        | inl (ss, served) ↦
            elim (outcome_cases (
              with_route c listens name_of (lookup pattern ss.routes) addr pattern cfg target f
                ss)) [
                  | inr (e, failed) ↦ inl (rw (served, failed, add_route) refl)
                  | inl (ss', routed) ↦ inr (
                    ss,
                    ss',
                    served,
                    routed,
                    rw (served, routed, add_route) (refuse_if-state _ _ _),
                  )
                ]
      ]

  module _ (addr pattern : String) (cfg : HttpConfig) (target : Target) (f : String) (m : Routes)
      (ss ss' : Server) (owner : target.flow_id ≡ f)
      (served : server_at c listens name_of (lookup addr m.by_addr) addr cfg ≡ returns ss)
      (routed : with_route c listens name_of (lookup pattern ss.routes) addr pattern cfg target f ss
        ≡ returns ss')
      (s : IsSound m) where
    -- What the server answered before the route was added.
    served_before : (a p : String) → addr ≡ a → lookup p ss.routes ≡ route_at a p m
    unfolding lookup
    served_before a p same = elim (server_at-cases (lookup addr m.by_addr) addr cfg ss served) [
      | inl there ↦ sym (route_at-found addr a p m ss there same)
      | inr (none_there, empty, zero_count) ↦
          rw empty (sym (route_at-missing addr a p m none_there same))
    ]

    served-IsCounted : IsCounted ss
    served-IsCounted = elim (server_at-cases (lookup addr m.by_addr) addr cfg ss served) [
      | inl there ↦ server-IsCounted addr ss m s.counted there
      | inr (none_there, empty, zero_count) ↦ empty-IsCounted ss empty zero_count
    ]

    entered-route_at :
        (a p : String)
        → route_at a p (entered addr pattern f ss' m)
          ≡ (if addr == a && pattern == p then some target else route_at a p m)
    unfolding route_at
    entered-route_at a p = elim (Bool-cases (addr == a)) [
      | inl here ↦
          let before = served_before a p ((eq_iff addr a).0 here) in
          let routes =
            with_route-routes (lookup pattern ss.routes) addr pattern cfg target f ss ss' routed in
          rw (lookup-put addr a ss' m.by_addr, here)
            (rw (routes, lookup-put pattern p target ss.routes)
              (ap (λ (o : Option Target). if pattern == p then some target else o) before))
      | inr away ↦ rw (lookup-put addr a ss' m.by_addr, away) refl
    ]

    routes_of-entered :
        (g : String)
        → routes_of g (entered addr pattern f ss' m) ≡ (
            if f == g
            then routes_of f m ++ (record { addr = addr; pattern = pattern } ∷ [])
            else routes_of g m)
    unfolding routes_of
    routes_of-entered g =
        rw
          (lookup-put f g (routes_of f m ++ (record { addr = addr; pattern = pattern } ∷ []))
            m.by_flow)
          (elim (Bool-cases (f == g)) [ inl e ↦ rw e refl | inr e ↦ rw e refl ])

    still_listed :
        (a p g : String)
        → lists a p (routes_of g m) ≡ true
        → lists a p (routes_of g (entered addr pattern f ss' m)) ≡ true
    still_listed a p g h = elim (Bool-cases (f == g)) [
      | inl e ↦
          let same : f ≡ g = (eq_iff f g).0 e in
          let before = subst (λ x. lists a p (routes_of x m) ≡ true) (sym same) h in
          rw (routes_of-entered g, e)
            (rw
              (lists-append a p (routes_of f m) (record { addr = addr; pattern = pattern }), before)
              refl)
      | inr e ↦ rw (routes_of-entered g, e) h
    ]

    newly_listed :
        (a p : String)
        → (addr == a && pattern == p) ≡ true
        → lists a p (routes_of f (entered addr pattern f ss' m)) ≡ true
    newly_listed a p here =
        rw (routes_of-entered f, eq_refl f)
          (rw (lists-append a p (routes_of f m) (record { addr = addr; pattern = pattern }))
            (ground arith))

    entered-IsTracked : IsTracked (entered addr pattern f ss' m)
    entered-IsTracked a p t h = elim (Bool-cases (addr == a && pattern == p)) [
      | inl here ↦
          let it : some target ≡ some t = rw here at (sym (entered-route_at a p) ∙ h) in
          let same : target ≡ t = cc in
          subst
            (λ (x : Target). lists a p (routes_of x.flow_id (entered addr pattern f ss' m)) ≡ true)
            same
            (subst (λ g. lists a p (routes_of g (entered addr pattern f ss' m)) ≡ true) (sym owner)
              (newly_listed a p here))
      | inr away ↦
          let before : route_at a p m ≡ some t = rw away at (sym (entered-route_at a p) ∙ h) in
          still_listed a p t.flow_id (s.tracked a p t before)
    ]

    entered-IsSound : IsSound (entered addr pattern f ss' m)
    unfolding put
    entered-IsSound = record {
      counted = (
        with_route-IsCounted addr pattern cfg target f ss ss' routed served-IsCounted,
        Values-delete IsCounted addr m.by_addr s.counted,
      );
      tracked = entered-IsTracked;
    }

  pub add_route-IsSound :
      (addr pattern : String) (cfg : HttpConfig) (target : Target) (f : String)
      → target.flow_id ≡ f
      → Preserves IsSound (add_route c listens name_of addr pattern cfg target f)
  add_route-IsSound addr pattern cfg target f owner m s =
      elim (add_route-cases addr pattern cfg target f m) [
        | inl same ↦ subst IsSound (sym same) s
        | inr (ss, ss', served, routed, now) ↦
            subst IsSound (sym now)
              (entered-IsSound addr pattern cfg target f m ss ss' owner served routed s)
      ]

  pub IsSound-Kept :
      (f : String) (dsl : FlowDsl c.Configuration) → Kept c listens name_of IsSound f dsl
  IsSound-Kept f dsl = record {
    adds = λ addr pattern node_id relation cfg. add_route-IsSound addr pattern cfg _ f refl;
    removes = remove_flow-IsSound c.registers f;
  }

  -- A route after adding one is that or an earlier one.
  pub add_route-route_at :
      (addr pattern : String) (cfg : HttpConfig) (target : Target) (f a p : String) (m : Routes)
      (t : Target)
      → target.flow_id ≡ f
      → IsSound m
      → route_at a p (add_route c listens name_of addr pattern cfg target f m).0 ≡ some t
      → (target ≡ t) ⊎ (route_at a p m ≡ some t)
  add_route-route_at addr pattern cfg target f a p m t owner s h =
      elim (add_route-cases addr pattern cfg target f m) [
        | inl same ↦ inr (rw same at h)
        | inr (ss, ss', served, routed, now) ↦
            let at =
              entered-route_at addr pattern cfg target f m ss ss' owner served routed s a p in
            let h' : route_at a p (entered addr pattern f ss' m) ≡ some t = rw now at h in
            elim (Bool-cases (addr == a && pattern == p)) [
              | inl here ↦ let it : some target ≡ some t = rw here at (sym at ∙ h') in inl cc
              | inr away ↦ inr (rw away at (sym at ∙ h'))
            ]
      ]

  -- A route that returns is entered.
  pub add_route-enters :
      (addr pattern : String) (cfg : HttpConfig) (target : Target) (f : String) (m : Routes)
      → target.flow_id ≡ f
      → IsSound m
      → (add_route c listens name_of addr pattern cfg target f m).1 ≡ returns tt
      → route_at addr pattern (add_route c listens name_of addr pattern cfg target f m).0
        ≡ some target
  unfolding add_route ◌>>=◌
  add_route-enters addr pattern cfg target f m owner s h =
      elim (outcome_cases (server_at c listens name_of (lookup addr m.by_addr) addr cfg)) [
        | inr (e, failed) ↦ cc (rw (add_route, failed) at h)
        | inl (ss, served) ↦
            elim (outcome_cases (
              with_route c listens name_of (lookup pattern ss.routes) addr pattern cfg target f
                ss)) [
                  | inr (e, failed) ↦ cc (rw (add_route, served, failed) at h)
                  | inl (ss', routed) ↦
                      let now : (add_route c listens name_of addr pattern cfg target f m).0
                          ≡ entered addr pattern f ss' m =
                        rw (served, routed, add_route) (refuse_if-state _ _ _) in
                      ap (λ x. route_at addr pattern x) now
                      ∙ entered-route_at addr pattern cfg target f m ss ss' owner served routed s
                          addr pattern
                      ∙ rw (eq_refl addr, eq_refl pattern) refl
                ]
      ]

  -- A route that was there is as it was, or is the new one.
  pub add_route-keeps :
      (addr pattern : String) (cfg : HttpConfig) (target : Target) (f a p : String) (m : Routes)
      (t : Target)
      → target.flow_id ≡ f
      → IsSound m
      → route_at a p m ≡ some t
      → (route_at a p (add_route c listens name_of addr pattern cfg target f m).0 ≡ some target)
        ⊎ (route_at a p (add_route c listens name_of addr pattern cfg target f m).0 ≡ some t)
  add_route-keeps addr pattern cfg target f a p m t owner s h =
      elim (add_route-cases addr pattern cfg target f m) [
        | inl same ↦ inr (ap (λ x. route_at a p x) same ∙ h)
        | inr (ss, ss', served, routed, now) ↦
            let at =
              ap (λ x. route_at a p x) now
              ∙ entered-route_at addr pattern cfg target f m ss ss' owner served routed s a p in
            elim (Bool-cases (addr == a && pattern == p)) [
              | inl here ↦ inl (at ∙ rw here refl)
              | inr away ↦ inr (at ∙ rw away h)
            ]
      ]
