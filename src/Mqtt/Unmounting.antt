-- ===== src/Mqtt/Unmounting.antt =====
-- What removing a track does to the clients of the tables.
use flowgo_server.Prelude.{
  String, ◌≡◌, ◌≢◌, sym, ◌∙◌, ap, subst, ◌==◌, false, [], if◌then◌else◌, lookup, delete,
  lookup-delete, Bool-cases, text_cases, inl, inr, arith, In, contains, In→contains,
}
use flowgo_server.Mqtt.Helpers.{Track, flow_key}
use flowgo_server.Mqtt.Connections.{
  Connections, ClientHandle, keys_or_nil, keys_of, remove_keys, remove_track,
}
use flowgo_server.Mqtt.Keys.{flow_part}
use flowgo_server.Mqtt.Clients.{
  HandleAt, IsConnected, lookup-remove_keys, remove_keys-rest, live_before, live_after,
}

module _ {D : Type 0} where
  keys_of-delete :
      (fk j : String) (m : Connections D)
      → keys_of j (record m { by_flow = delete fk m.by_flow })
        ≡ (if fk == j then [] else keys_of j m)
  unfolding keys_of
  keys_of-delete fk j m = ground (arith, lookup-delete fk j m.by_flow)

  -- The tables without the listed keys of a flow.
  unlisted : String → Connections D → Connections D
  unlisted fk m = remove_keys (keys_of fk m) (record m { by_flow = delete fk m.by_flow })

  keys_of-unlisted :
      (fk j : String) (m : Connections D)
      → keys_of j (unlisted fk m) ≡ (if fk == j then [] else keys_of j m)
  unfolding unlisted keys_of
  keys_of-unlisted fk j m =
      ap (λ b. keys_or_nil (lookup j b))
        (remove_keys-rest (keys_of fk m) (record m { by_flow = delete fk m.by_flow })).0
      ∙ keys_of-delete fk j m

  unlisted-HandleAt :
      (fk k : String) (m : Connections D) (h : ClientHandle)
      → HandleAt (unlisted fk m) k h
      → HandleAt m k h × (contains (keys_of fk m) k ≡ false)
  unfolding unlisted
  unlisted-HandleAt fk k m h e =
      let l = lookup-remove_keys (keys_of fk m) k (record m { by_flow = delete fk m.by_flow }) in
      elim (Bool-cases (contains (keys_of fk m) k)) [
        | inl q ↦ cc (rw q at l)
        | inr q ↦ (sym (rw q at l) ∙ e, q)
      ]

  -- What is left is of another flow.
  unlisted-other :
      (fk k : String) (m : Connections D) (h : ClientHandle)
      → IsConnected m
      → HandleAt (unlisted fk m) k h
      → flow_part k ≢ fk
  unlisted-other fk k m h r e same =
      let (at, out) = unlisted-HandleAt fk k m h e in
      let i : In k (keys_of fk m) = subst (λ j. In k (keys_of j m)) same (r.listed k h at) in
      cc (In→contains (keys_of fk m) k i)

  unlisted-keyed :
      (fk j k : String) (m : Connections D)
      → IsConnected m
      → In k (keys_of j (unlisted fk m))
      → flow_part k ≡ j
  unlisted-keyed fk j k m r i =
      let l : In k (if fk == j then [] else keys_of j m) =
        subst (λ ks. In k ks) (keys_of-unlisted fk j m) i in
      elim (Bool-cases (fk == j)) [ inl q ↦ absurd (rw q at l) | inr q ↦ r.keyed j k (rw q at l) ]

  unlisted-listed :
      (fk k : String) (m : Connections D) (h : ClientHandle)
      → IsConnected m
      → HandleAt (unlisted fk m) k h
      → In k (keys_of (flow_part k) (unlisted fk m))
  unlisted-listed fk k m h r e =
      let other = unlisted-other fk k m h r e in
      let i = r.listed k h (unlisted-HandleAt fk k m h e).0 in
      elim (text_cases fk (flow_part k)) [
        | inl same ↦ absurd (other (sym same))
        | inr q ↦ rw (keys_of-unlisted fk (flow_part k) m, q) i
      ]

  unlisted-connected :
      (fk k : String) (m : Connections D) (h : ClientHandle)
      → IsConnected m
      → HandleAt (unlisted fk m) k h
      → In h.client (unlisted fk m).live
  unfolding unlisted
  unlisted-connected fk k m h r e =
      let at = (unlisted-HandleAt fk k m h e).0 in
      live_after (keys_of fk m) _ h.client (r.connected k h at) (λ j g i e' s.
        unlisted-other fk k m h r e (sym (r.shared j k g h e' at s) ∙ r.keyed fk j i))

  unlisted-IsConnected :
      (fk : String) (m : Connections D) → IsConnected m → IsConnected (unlisted fk m)
  unfolding unlisted
  unlisted-IsConnected fk m r = record {
    keyed = λ j k i. unlisted-keyed fk j k m r i;
    listed = λ k h e. unlisted-listed fk k m h r e;
    shared = λ k j h g e e' s.
        r.shared k j h g (unlisted-HandleAt fk k m h e).0 (unlisted-HandleAt fk j m g e').0 s;
    connected = λ k h e. unlisted-connected fk k m h r e;
    numbered = λ n i.
        let ks = keys_of fk m in
        let m₁ : Connections D = record m { by_flow = delete fk m.by_flow } in
        rw ((remove_keys-rest ks m₁).1) (r.numbered n (live_before ks m₁ n i));
  }

  pub remove_track-IsConnected :
      (t : Track) (f : String) (m : Connections D)
      → IsConnected m
      → IsConnected (remove_track t f m)
  unfolding remove_track unlisted
  remove_track-IsConnected t f m r = elim (Bool-cases (f == "")) [
    | inl e ↦ rw e r
    | inr e ↦ rw e (unlisted-IsConnected (flow_key t f) m r)
  ]
