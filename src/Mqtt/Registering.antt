-- ===== src/Mqtt/Registering.antt =====
-- What registering a handle does to the clients of the tables.
use flowgo_server.Prelude.{
  ℕ, String, ◌≡◌, ◌≢◌, refl, sym, ◌∙◌, subst, ◌==◌, eq_iff, true, some, [], ◌∷◌, ◌++◌,
  if◌then◌else◌, lookup, lookup-put, text_cases, inl, inr, ◌⊎◌, arith, In, In-select_ne,
  select_ne-In, In-append_left, In-append_right, In-append_cases,
}
use flowgo_server.Mqtt.Helpers.{flow_key, node_key}
use flowgo_server.Mqtt.Connections.{Connections, ClientHandle, keys_of, register, disconnect}
use flowgo_server.Mqtt.Keys.{is_plain, flow_part, flow_part-node_key}
use flowgo_server.Mqtt.Clients.{HandleAt, IsConnected}

module _ {D : Type 0} where
  -- The client may be registered for the flow: it is connected, and other handles that have it are
  -- of the same flow.
  pub record MayRegister (m : Connections D) (fk : String) (client : ℕ) : Type 0 where
    pub live : In client m.live
    pub own :
        (k : String) (h : ClientHandle) → HandleAt m k h → h.client ≡ client → flow_part k ≡ fk

  -- The client is connected and no handle has it.
  pub record IsUnused (m : Connections D) (client : ℕ) : Type 0 where
    pub live : In client m.live
    pub unused : (k : String) (h : ClientHandle) → HandleAt m k h → h.client ≢ client

  pub unused-MayRegister :
      (m : Connections D) (fk : String) (client : ℕ) → IsUnused m client → MayRegister m fk client
  unused-MayRegister m fk client u = record {
    live = u.live;
    own = λ k h e s. absurd (u.unused k h e s);
  }

  pub disconnect-IsConnected :
      (client : ℕ) (m : Connections D)
      → IsUnused m client
      → IsConnected m
      → IsConnected (disconnect client m)
  unfolding disconnect keys_of
  disconnect-IsConnected client m u r = record {
    keyed = r.keyed;
    listed = r.listed;
    shared = r.shared;
    connected = λ k h e.
        In-select_ne h.client client m.live (r.connected k h e)
          (let d : h.client ≢ client = u.unused k h e in ground (arith, d));
    numbered = λ n i. r.numbered n (select_ne-In n client m.live i).0;
  }

  keys_of-register :
      (h : ClientHandle) (j : String) (m : Connections D)
      → let fk = flow_key h.track h.flow_id in
        keys_of j (register h m) ≡ (
          if fk == j
          then keys_of fk m ++ (node_key h.track h.flow_id h.node_id ∷ [])
          else keys_of j m)
  unfolding keys_of register
  keys_of-register h j m =
      let fk = flow_key h.track h.flow_id in
      ground (
        arith,
        lookup-put fk j (keys_of fk m ++ (node_key h.track h.flow_id h.node_id ∷ [])) m.by_flow,
      )

  keys_of-register_own :
      (h : ClientHandle) (m : Connections D)
      → keys_of (flow_key h.track h.flow_id) (register h m)
        ≡ keys_of (flow_key h.track h.flow_id) m ++ (node_key h.track h.flow_id h.node_id ∷ [])
  keys_of-register_own h m =
      let fk = flow_key h.track h.flow_id in ground (arith, keys_of-register h fk m, eq_iff fk fk)

  In-register :
      (h : ClientHandle) (k j : String) (m : Connections D)
      → In k (keys_of j m)
      → In k (keys_of j (register h m))
  In-register h k j m i = elim (text_cases (flow_key h.track h.flow_id) j) [
    | inr ne ↦ rw (keys_of-register h j m, ne) i
    | inl same ↦
        subst (λ x. In k (keys_of x (register h m))) same
          (subst (λ ks. In k ks) (sym (keys_of-register_own h m))
            (In-append_left k _ _ (subst (λ x. In k (keys_of x m)) (sym same) i)))
  ]

  lookup-register :
      (h : ClientHandle) (k : String) (m : Connections D)
      → lookup k (register h m).by_node
        ≡ (if node_key h.track h.flow_id h.node_id == k then some h else lookup k m.by_node)
  unfolding register
  lookup-register h k m = lookup-put (node_key h.track h.flow_id h.node_id) k h m.by_node

  module _ (h : ClientHandle) (m : Connections D) (plain : is_plain h.flow_id ≡ true) where
    own_part : flow_part (node_key h.track h.flow_id h.node_id) ≡ flow_key h.track h.flow_id
    own_part = flow_part-node_key h.track h.flow_id h.node_id plain

    -- An entry after the registration is the new one or an old one.
    registered :
        (k : String) (g : ClientHandle)
        → HandleAt (register h m) k g
        → ((g ≡ h) × (flow_part k ≡ flow_key h.track h.flow_id)) ⊎ HandleAt m k g
    registered k g e = elim (text_cases (node_key h.track h.flow_id h.node_id) k) [
      | inl same ↦ inl (
        ground (
          arith,
          e,
          lookup-register h k m,
          eq_iff (node_key h.track h.flow_id h.node_id) k,
          same,
        ),
        subst (λ j. flow_part j ≡ flow_key h.track h.flow_id) same own_part,
      )
      | inr ne ↦ inr (ground (arith, e, lookup-register h k m, ne))
    ]

    register-keyed :
        (fk k : String) → IsConnected m → In k (keys_of fk (register h m)) → flow_part k ≡ fk
    register-keyed fk k r i = elim (text_cases (flow_key h.track h.flow_id) fk) [
      | inr ne ↦ r.keyed fk k (rw (keys_of-register h fk m, ne) at i)
      | inl same ↦
          let i' : In k (keys_of (flow_key h.track h.flow_id) (register h m)) =
            subst (λ j. In k (keys_of j (register h m))) (sym same) i in
          elim (In-append_cases k _ _ (subst (λ ks. In k ks) (keys_of-register_own h m) i')) [
            | inl old ↦ r.keyed _ k old ∙ same
            | inr (inl new) ↦ subst (λ j. flow_part j ≡ fk) new (own_part ∙ same)
            | inr (inr nothing) ↦ absurd nothing
          ]
    ]

    register-listed :
        (k : String) (g : ClientHandle)
        → IsConnected m
        → HandleAt (register h m) k g
        → In k (keys_of (flow_part k) (register h m))
    register-listed k g r e =
        let key = node_key h.track h.flow_id h.node_id in
        elim (text_cases key k) [
          | inl same ↦
              subst (λ j. In j (keys_of (flow_part j) (register h m))) same
                (subst (λ fk. In key (keys_of fk (register h m))) (sym own_part)
                  (subst (λ ks. In key ks) (sym (keys_of-register_own h m))
                    (In-append_right key (keys_of (flow_key h.track h.flow_id) m) (key ∷ [])
                      (inl refl))))
          | inr ne ↦
              In-register h k (flow_part k) m
                (r.listed k g (ground (arith, e, lookup-register h k m, ne)))
        ]

    pub register-IsConnected :
        MayRegister m (flow_key h.track h.flow_id) h.client
        → IsConnected m
        → IsConnected (register h m)
    unfolding register
    register-IsConnected may r = record {
      keyed = λ fk k i. register-keyed fk k r i;
      listed = λ k g e. register-listed k g r e;
      shared = λ k j g g' e e' s. elim (registered k g e) [
        | inl (x, p) ↦ elim (registered j g' e') [
          | inl (y, q) ↦ p ∙ sym q
          | inr y ↦ p ∙ sym (may.own j g' y (ground (arith, x, s)))
        ]
        | inr x ↦ elim (registered j g' e') [
          | inl (y, q) ↦ may.own k g x (ground (arith, y, s)) ∙ sym q
          | inr y ↦ r.shared k j g g' x y s
        ]
      ];
      connected = λ k g e. elim (registered k g e) [
        | inl (x, p) ↦ subst (λ (y : ClientHandle). In y.client m.live) (sym x) may.live
        | inr x ↦ r.connected k g x
      ];
      numbered = λ n i. r.numbered n i;
    }
