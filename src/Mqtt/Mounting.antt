-- ===== src/Mqtt/Mounting.antt =====
-- What mounting a node (addIn and addOut of internal/mqttendpoint/manager.go) does to the clients
-- of the tables.
use flowgo_server.Prelude.{
  ℕ, String, ◌≡◌, refl, ◌∙◌, ◌==◌, true, some, nonempty, lookup, Bool-cases, Option-cases, inl, inr,
  arith,
}
use flowgo_server.Prelude.Action.{returns, Preserves, bind-Preserves, with_required-Preserves}
use flowgo_server.Mqtt.Config.{
  Iot, Network, Broker, MqttInConfig, MqttOutConfig, SubscribeToken, acknowledged, timed_out,
  refused,
}
use flowgo_server.Mqtt.Helpers.{Track, flow_key, node_key}
use flowgo_server.Mqtt.Connections.{Connections, ClientHandle, Subscription, keys_of, is_in}
use flowgo_server.Mqtt.Adding.{
  Dsl, connect, subscribe, registers, reusable, add_in, add_reuse, add_persistent, add_out,
}
use flowgo_server.Mqtt.Keys.{is_plain, flow_part-node_key}
use flowgo_server.Mqtt.Keeps.{Kept}
use flowgo_server.Mqtt.Clients.{HandleAt, IsConnected}
use flowgo_server.Mqtt.Unmounting.{remove_track-IsConnected}
use flowgo_server.Mqtt.Registering.{
  MayRegister, IsUnused, unused-MayRegister, disconnect-IsConnected, register-IsConnected,
}

module _ (c : Iot) (net : Network c.Settings) where
  connect-IsUnused :
      (n : String) (b : Broker c.Settings) (m : Connections (Dsl c)) (client : ℕ)
      → IsConnected m
      → (connect c net n b m).1 ≡ returns client
      → IsUnused (connect c net n b m).0 client
  unfolding connect
  connect-IsUnused n b m client r e = elim (Bool-cases (net.connects m.attempts b)) [
    | inr q ↦ cc (rw (q, connect) at e)
    | inl q ↦
        let same : m.attempts ≡ client = cc (rw (q, connect) at e) in
        rw (q, connect)
          (record {
            live = inl same;
            unused = λ k h at s. omega (arith, r.numbered h.client (r.connected k h at), s, same);
          })
  ]

  connect-IsConnected :
      (n : String) (b : Broker c.Settings) → Preserves IsConnected (connect c net n b)
  unfolding connect keys_of
  connect-IsConnected n b m r = elim (Bool-cases (net.connects m.attempts b)) [
    | inr q ↦
        rw (q, connect)
          (record {
            keyed = r.keyed;
            listed = r.listed;
            shared = r.shared;
            connected = r.connected;
            numbered = λ j i. omega (arith, r.numbered j i);
          })
    | inl q ↦
        rw (q, connect)
          (record {
            keyed = r.keyed;
            listed = r.listed;
            shared = r.shared;
            connected = λ k h at. inr (r.connected k h at);
            numbered = λ j i. elim i [
              | inl e ↦ omega (arith, e)
              | inr i' ↦ omega (arith, r.numbered j i')
            ];
          })
  ]

  -- A subscription for an unused client; if it is refused, the client is disconnected.
  subscribe-IsConnected :
      (q : ℕ) (s : Subscription (Dsl c)) (m : Connections (Dsl c))
      → IsUnused m s.client
      → IsConnected m
      → IsConnected (subscribe c net q s m).0
        × ((u : Unit {0})
            → (subscribe c net q s m).1 ≡ returns u
            → IsUnused (subscribe c net q s m).0 s.client)
  unfolding subscribe keys_of
  subscribe-IsConnected q s m u r = token (net.subscribes s.client s.topic q) refl
    where
      token :
          (t : SubscribeToken)
          → net.subscribes s.client s.topic q ≡ t
          → IsConnected (subscribe c net q s m).0
            × ((x : Unit {0})
                → (subscribe c net q s m).1 ≡ returns x
                → IsUnused (subscribe c net q s m).0 s.client)
      token acknowledged e =
          rw (e, subscribe)
            (
              record {
                keyed = r.keyed;
                listed = r.listed;
                shared = r.shared;
                connected = r.connected;
                numbered = r.numbered;
              },
              λ x k. record { live = u.live; unused = u.unused },
            )
      token timed_out e = rw (e, subscribe) (disconnect-IsConnected s.client m u r, λ x k. cc)
      token refused e = rw (e, subscribe) (disconnect-IsConnected s.client m u r, λ x k. cc)

  module _ (t : Track) (f : String) (plain : is_plain f ≡ true) where
    registers-IsConnected :
        (h : ClientHandle) (m : Connections (Dsl c))
        → h.track ≡ t
        → h.flow_id ≡ f
        → MayRegister m (flow_key t f) h.client
        → IsConnected m
        → IsConnected (registers c h m).0
    registers-IsConnected h m e e' may r =
        register-IsConnected h m (ground (arith, e', plain)) (rw (e, e') may) r

    add_in-IsConnected :
        (n : String) (cfg : MqttInConfig c.Settings) (dsl : Dsl c)
        → Preserves IsConnected (add_in c net t f n cfg dsl)
    unfolding add_in
    add_in-IsConnected n cfg dsl m r =
        let m₁ = (connect c net n _ m).0 in
        bind-Preserves IsConnected _ _ m (connect-IsConnected n _ m r) (λ client e.
          let (k, free) =
            subscribe-IsConnected cfg.qos _ m₁ (connect-IsUnused n _ m client r e)
              (connect-IsConnected n _ m r) in
          bind-Preserves IsConnected _ _ m₁ k (λ u e'.
            registers-IsConnected _ _ refl refl
              (unused-MayRegister _ (flow_key t f) client (free u e')) k))

    reusable-at :
        (n : String) (m : Connections (Dsl c)) (h : ClientHandle)
        → IsConnected m
        → reusable (lookup (node_key t f n) m.by_node) ≡ some h
        → MayRegister m (flow_key t f) h.client
    unfolding reusable
    reusable-at n m h r e = elim (Option-cases (lookup (node_key t f n) m.by_node)) [
      | inl q ↦ cc (rw (q, reusable) at e)
      | inr (g, q) ↦ elim (Bool-cases (is_in g.kind)) [
        | inr k ↦ cc (rw (q, reusable, k) at e)
        | inl k ↦
            let same : g ≡ h = cc (rw (q, reusable, k) at e) in
            let at : HandleAt m (node_key t f n) h = ground (arith, q, same) in
            record {
              live = r.connected (node_key t f n) h at;
              own = λ j g' e' s.
                  r.shared j (node_key t f n) g' h e' at s ∙ flow_part-node_key t f n plain;
            }
      ]
    ]

    add_out-IsConnected :
        (n : String) (cfg : MqttOutConfig c.Settings)
        → Preserves IsConnected (add_out c net t f n cfg)
    unfolding add_out add_reuse add_persistent
    add_out-IsConnected n cfg m r = elim (Bool-cases (nonempty cfg.reuse_from)) [
      | inl e ↦
          rw (e, add_reuse)
            (with_required-Preserves IsConnected _ _ _ m r
              (λ h q. registers-IsConnected _ m refl refl (reusable-at cfg.reuse_from m h r q) r))
      | inr e ↦ elim (Bool-cases (cfg.session_mode == c.session_persistent)) [
        | inr e' ↦ rw (e, e') r
        | inl e' ↦
            rw (e, e', add_persistent)
              (bind-Preserves IsConnected _ _ m (connect-IsConnected n _ m r) (λ client q.
                registers-IsConnected _ _ refl refl
                  (unused-MayRegister _ (flow_key t f) client (connect-IsUnused n _ m client r q))
                  (connect-IsConnected n _ m r)))
      ]
    ]

    pub IsConnected-Kept : Kept c net IsConnected t f
    IsConnected-Kept = record {
      ins = add_in-IsConnected;
      outs = add_out-IsConnected;
      removes = remove_track-IsConnected t f;
    }
