-- ===== src/Mqtt/Drafts.antt =====
-- Which drafts of internal/mqttendpoint/manager.go and draft_session.go are mounted, and when.

use flowgo_server.Prelude.{
  ℕ, String, ◌≡◌, refl, sym, subst, ◌==◌, false, none, List, [], ◌∷◌, ◌++◌, if◌then◌else◌, lookup,
  delete, lookup-delete, lookup-put, Bool-cases, Option-cases, inl, inr, arith, nonempty,
}
use flowgo_server.Prelude.Action.{Preserves, then-Preserves, require-Preserves}
use flowgo_server.Mqtt.Config.{
  Iot, Network, MqttInConfig, MqttOutConfig, Broker, SubscribeToken, acknowledged, timed_out,
  refused,
}
use flowgo_server.Mqtt.Helpers.{Track, flow_key, node_key}
use flowgo_server.Mqtt.Connections.{
  Connections, ClientHandle, Subscription, keys_of, register, disconnect, stop, remove_key,
  remove_keys, remove_track,
}
use flowgo_server.Mqtt.Adding.{
  Dsl, connect, subscribe, registers, add_in, add_reuse, add_persistent, add_out,
}
use flowgo_server.Mqtt.Keeps.{Kept}

module _ {D : Type 0} where
  stop-by_flow : (h : ClientHandle) (m : Connections D) → (stop h m).by_flow ≡ m.by_flow
  unfolding stop disconnect
  stop-by_flow h m = ground arith

  remove_key-by_flow : (k : String) (m : Connections D) → (remove_key k m).by_flow ≡ m.by_flow
  unfolding remove_key
  remove_key-by_flow k m = elim (Option-cases (lookup k m.by_node)) [
    | inl e ↦ rw (e, remove_key) refl
    | inr (h, e) ↦ rw (e, remove_key) (stop-by_flow h m)
  ]

  remove_keys-by_flow :
      (ks : List String) (m : Connections D) → (remove_keys ks m).by_flow ≡ m.by_flow
  unfolding remove_keys
  remove_keys-by_flow [] m = refl
  remove_keys-by_flow (k ∷ ks) m =
      cc (remove_keys-by_flow ks (remove_key k m), remove_key-by_flow k m)

  pub lookup-remove_track :
      (t : Track) (f j : String) (m : Connections D)
      → lookup j (remove_track t f m).by_flow ≡ (
          if f == ""
          then lookup j m.by_flow
          else if flow_key t f == j
          then none
          else lookup j m.by_flow)
  unfolding remove_track
  lookup-remove_track t f j m = elim (Bool-cases (f == "")) [
    | inl e ↦ rw e refl
    | inr e ↦
        rw
          (
            e,
            remove_keys-by_flow (keys_of (flow_key t f) m)
                (record m { by_flow = delete (flow_key t f) m.by_flow }),
          )
          (lookup-delete (flow_key t f) j m.by_flow)
  ]

  -- The key is not in byFlow.
  abbrev pub IsUnmounted : String → Connections D → Type 0
  IsUnmounted j m = lookup j m.by_flow ≡ none

  pub remove_track-IsUnmounted :
      (j : String) (t : Track) (f : String) (m : Connections D)
      → IsUnmounted j m
      → IsUnmounted j (remove_track t f m)
  remove_track-IsUnmounted j t f m h = ground (arith, lookup-remove_track t f j m)

module _ (c : Iot) (net : Network c.Settings) where
  connect-by_flow :
      (n : String) (b : Broker c.Settings) (m : Connections (Dsl c))
      → (connect c net n b m).0.by_flow ≡ m.by_flow
  unfolding connect
  connect-by_flow n b m = elim (Bool-cases (net.connects m.attempts b)) [
    | inl e ↦ rw e refl
    | inr e ↦ rw e refl
  ]

  subscribe-by_flow :
      (q : ℕ) (s : Subscription (Dsl c)) (m : Connections (Dsl c))
      → (subscribe c net q s m).0.by_flow ≡ m.by_flow
  unfolding subscribe disconnect
  subscribe-by_flow q s m = token (net.subscribes s.client s.topic q) refl
    where
      token :
          (t : SubscribeToken)
          → net.subscribes s.client s.topic q ≡ t
          → (subscribe c net q s m).0.by_flow ≡ m.by_flow
      token acknowledged e = rw (e, subscribe) refl
      token timed_out e = rw (e, subscribe) refl
      token refused e = rw (e, subscribe) refl

  module _ (t : Track) (f j : String) (ne : (flow_key t f == j) ≡ false) where
    registers-IsUnmounted :
        (h : ClientHandle) → h.track ≡ t → h.flow_id ≡ f → Preserves (IsUnmounted j) (registers c h)
    unfolding register
    registers-IsUnmounted h e e' m p =
        let fk = flow_key t f in
        rw (e, e')
          (ground
            (arith, lookup-put fk j (keys_of fk m ++ (node_key t f h.node_id ∷ [])) m.by_flow))

    add_in-IsUnmounted :
        (n : String) (cfg : MqttInConfig c.Settings) (dsl : Dsl c)
        → Preserves (IsUnmounted j) (add_in c net t f n cfg dsl)
    unfolding add_in
    add_in-IsUnmounted n cfg dsl =
        then-Preserves (IsUnmounted j) _ _ (λ m p. rw (connect-by_flow n _ m) p)
          (λ client.
            then-Preserves (IsUnmounted j) _ _ (λ m p. rw (subscribe-by_flow cfg.qos _ m) p)
              (λ u. registers-IsUnmounted _ refl refl))

    add_out-IsUnmounted :
        (n : String) (cfg : MqttOutConfig c.Settings)
        → Preserves (IsUnmounted j) (add_out c net t f n cfg)
    unfolding add_out add_reuse add_persistent
    add_out-IsUnmounted n cfg m p = elim (Bool-cases (nonempty cfg.reuse_from)) [
      | inl e ↦
          rw (e, add_reuse)
            (then-Preserves (IsUnmounted j) _ _ (require-Preserves (IsUnmounted j) _ _)
              (λ h. registers-IsUnmounted _ refl refl) m p)
      | inr e ↦ elim (Bool-cases (cfg.session_mode == c.session_persistent)) [
        | inl e' ↦
            rw (e, e', add_persistent)
              (then-Preserves (IsUnmounted j) _ _
                (λ m p. subst (λ b. lookup j b ≡ none) (sym (connect-by_flow n _ m)) p)
                (λ client. registers-IsUnmounted _ refl refl) m p)
        | inr e' ↦ rw (e, e') p
      ]
    ]

    pub IsUnmounted-Kept : Kept c net (IsUnmounted j) t f
    IsUnmounted-Kept = record {
      ins = add_in-IsUnmounted;
      outs = add_out-IsUnmounted;
      removes = remove_track-IsUnmounted j t f;
    }
