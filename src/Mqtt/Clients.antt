-- ===== src/Mqtt/Clients.antt =====
-- The clients of the tables: the invariant on them, and the loop of removeTrack.
use flowgo_server.Prelude.{
  ℕ, ◌<◌, String, ◌≡◌, ◌≢◌, refl, ◌∙◌, subst, ◌==◌, eq_iff, true, none, some, List, [], ◌∷◌,
  if◌then◌else◌, lookup, lookup-delete, Bool-cases, Option-cases, text_cases, inl, inr, arith, In,
  In-select_ne, select_ne-In, contains,
}
use flowgo_server.Mqtt.Connections.{
  Connections, ClientHandle, keys_of, disconnect, stop, remove_key, remove_keys, no_connections,
}
use flowgo_server.Mqtt.Keys.{flow_part}

module _ {D : Type 0} where
  abbrev pub HandleAt : Connections D → String → ClientHandle → Type 0
  HandleAt m k h = lookup k m.by_node ≡ some h

  -- Each handle is in the list of its own flow, its client is connected and is shared within the
  -- flow only, and no client has a number that is still to come.
  pub record IsConnected (m : Connections D) : Type 0 where
    pub keyed : (fk k : String) → In k (keys_of fk m) → flow_part k ≡ fk
    pub listed : (k : String) (h : ClientHandle) → HandleAt m k h → In k (keys_of (flow_part k) m)
    pub shared :
        (k j : String) (h g : ClientHandle)
        → HandleAt m k h
        → HandleAt m j g
        → h.client ≡ g.client
        → flow_part k ≡ flow_part j
    pub connected : (k : String) (h : ClientHandle) → HandleAt m k h → In h.client m.live
    pub numbered : (n : ℕ) → In n m.live → n < m.attempts

  pub no_connections-IsConnected : IsConnected no_connections
  unfolding keys_of lookup
  no_connections-IsConnected = record {
    keyed = λ fk k i. absurd i;
    listed = λ k h e. cc;
    shared = λ k j h g e e' s. cc;
    connected = λ k h e. cc;
    numbered = λ n i. absurd i;
  }

  lookup-remove_key :
      (k j : String) (m : Connections D)
      → lookup j (remove_key k m).by_node ≡ (if k == j then none else lookup j m.by_node)
  unfolding remove_key stop disconnect
  lookup-remove_key k j m = elim (Option-cases (lookup k m.by_node)) [
    | inl e ↦ rw (e, remove_key) (ground (arith, eq_iff k j, e))
    | inr (h, e) ↦ rw (e, remove_key) (ground (arith, lookup-delete k j m.by_node))
  ]

  pub lookup-remove_keys :
      (ks : List String) (j : String) (m : Connections D)
      → lookup j (remove_keys ks m).by_node ≡ (if contains ks j then none else lookup j m.by_node)
  unfolding remove_keys
  lookup-remove_keys [] j m = refl
  lookup-remove_keys (k ∷ ks) j m =
      ground (arith, lookup-remove_keys ks j (remove_key k m), lookup-remove_key k j m)

  remove_key-rest :
      (k : String) (m : Connections D)
      → ((remove_key k m).by_flow ≡ m.by_flow) × ((remove_key k m).attempts ≡ m.attempts)
  unfolding remove_key stop disconnect
  remove_key-rest k m = elim (Option-cases (lookup k m.by_node)) [
    | inl e ↦ rw (e, remove_key) (refl, refl)
    | inr (h, e) ↦ elim (Bool-cases h.owned) [
      | inl q ↦ rw (e, remove_key, q) (refl, refl)
      | inr q ↦ rw (e, remove_key, q) (refl, refl)
    ]
  ]

  pub remove_keys-rest :
      (ks : List String) (m : Connections D)
      → ((remove_keys ks m).by_flow ≡ m.by_flow) × ((remove_keys ks m).attempts ≡ m.attempts)
  unfolding remove_keys
  remove_keys-rest [] m = (refl, refl)
  remove_keys-rest (k ∷ ks) m =
      let (a, b) = remove_key-rest k m in
      let (c, d) = remove_keys-rest ks (remove_key k m) in (c ∙ a, d ∙ b)

  -- A client stays connected, unless the handle of the key owns it.
  live_after-key :
      (k : String) (m : Connections D) (n : ℕ)
      → In n m.live
      → ((h : ClientHandle) → HandleAt m k h → h.client ≢ n)
      → In n (remove_key k m).live
  unfolding remove_key stop disconnect
  live_after-key k m n i ne = elim (Option-cases (lookup k m.by_node)) [
    | inl e ↦ rw (e, remove_key) i
    | inr (h, e) ↦ elim (Bool-cases h.owned) [
      | inr q ↦ rw (e, remove_key, q) i
      | inl q ↦
          rw (e, remove_key, q)
            (In-select_ne n h.client m.live i (let d : h.client ≢ n = ne h e in ground (arith, d)))
    ]
  ]

  live_before-key :
      (k : String) (m : Connections D) (n : ℕ) → In n (remove_key k m).live → In n m.live
  unfolding remove_key stop disconnect
  live_before-key k m n i = elim (Option-cases (lookup k m.by_node)) [
    | inl e ↦ rw (e, remove_key) at i
    | inr (h, e) ↦ elim (Bool-cases h.owned) [
      | inr q ↦ rw (e, remove_key, q) at i
      | inl q ↦ (select_ne-In n h.client m.live (rw (e, remove_key, q) at i)).0
    ]
  ]

  pub live_before :
      (ks : List String) (m : Connections D) (n : ℕ) → In n (remove_keys ks m).live → In n m.live
  unfolding remove_keys
  live_before [] m n i = i
  live_before (k ∷ ks) m n i = live_before-key k m n (live_before ks (remove_key k m) n i)

  pub live_after :
      (ks : List String) (m : Connections D) (n : ℕ)
      → In n m.live
      → ((k : String) (h : ClientHandle) → In k ks → HandleAt m k h → h.client ≢ n)
      → In n (remove_keys ks m).live
  unfolding remove_keys
  live_after [] m n i ne = i
  live_after (k ∷ ks) m n i ne =
      live_after ks (remove_key k m) n (live_after-key k m n i (λ h. ne k h (inl refl)))
        (λ j h q e. ne j h (inr q) (ground (arith, e, lookup-remove_key k j m)))

  not_live_after-key :
      (k : String) (m : Connections D) (h : ClientHandle)
      → HandleAt m k h
      → h.owned ≡ true
      → ¬ In h.client (remove_key k m).live
  unfolding remove_key stop disconnect
  not_live_after-key k m h e o i =
      let d = (select_ne-In h.client h.client m.live (rw (e, remove_key, o) at i)).1 in
      ground (arith, d)

  -- The client that the handle of a removed key owns is disconnected.
  pub not_live_after :
      (ks : List String) (m : Connections D) (k : String) (h : ClientHandle)
      → In k ks
      → HandleAt m k h
      → h.owned ≡ true
      → ¬ In h.client (remove_keys ks m).live
  unfolding remove_keys
  not_live_after [] m k h i e o l = absurd i
  not_live_after (x ∷ ks) m k h i e o l = elim (text_cases x k) [
    | inl same ↦ not_live_after-key k m h e o (
        subst (λ y. In h.client (remove_key y m).live) same
          (live_before ks (remove_key x m) h.client l))
    | inr ne ↦ elim i [
      | inl same ↦ ground (arith, eq_iff x k, same, ne)
      | inr j ↦
          not_live_after ks (remove_key x m) k h j (ground (arith, e, lookup-remove_key x k m)) o l
    ]
  ]
