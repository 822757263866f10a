-- ===== src/Mqtt/Adding.antt =====
-- internal/mqttendpoint/manager.go: addIn and addOut, which connect a node's client and register it.
use Prim.Native.String.{◌++◌ as ◌<>◌}
use flowgo_server.Prelude.{
  ℕ, ◌+◌, String, ◌==◌, true, false, Option, none, some, ◌∷◌, if◌then◌else◌, nonempty, trim_space,
  lookup,
}
use flowgo_server.Prelude.Action.{Action, returns, fails, ◌>>=◌, pure, require}
use flowgo_server.Types.{FlowDsl}
use flowgo_server.Mqtt.Config.{
  Broker, MqttInConfig, MqttOutConfig, Iot, Network, acknowledged, timed_out, refused,
}
use flowgo_server.Mqtt.Helpers.{Track, published, draft, node_key, short_id}
use flowgo_server.Mqtt.Connections.{
  Connections, ClientHandle, kind_in, kind_out_persist, kind_out_reuse, is_in, Subscription,
  MqttError, connect_failed, subscribe_timeout, subscribe_failed, reuse_not_found, register,
  disconnect,
}

-- The handle whose client is reused: that of a node that receives.
unfoldable pub reusable : Option ClientHandle → Option ClientHandle
reusable none = none
reusable (some h) = if is_in h.kind then some h else none

module _ (c : Iot) where
  abbrev pub Dsl : Type 0
  Dsl = FlowDsl c.Configuration

  abbrev pub Step : Type 0 → Type 0
  Step A = Action (Connections Dsl) MqttError A

  -- The broker of the node, with a client id where it has none.
  unfoldable pub with_client_id : String → Broker c.Settings → Broker c.Settings
  with_client_id id b = if trim_space b.client_id == "" then record b { client_id = id } else b

  abbrev pub client_prefix : Track → String
  client_prefix published = "flowgo"
  client_prefix draft = "flowgo-draft"

  abbrev pub registers : ClientHandle → Step (Unit {0})
  registers h m = (register h m, returns tt)

  abbrev in_broker : Track → String → String → MqttInConfig c.Settings → Broker c.Settings
  in_broker track flow_id node_id cfg =
      with_client_id (client_prefix track <> "-" <> short_id flow_id <> "-" <> short_id node_id)
        cfg.broker

  -- addOut with `reuseFrom`
  unfoldable pub add_reuse : Track → String → String → String → Step (Unit {0})
  add_reuse track flow_id node_id reuse_from m =
      (do
        h ←
            require (reusable (lookup (node_key track flow_id reuse_from) m.by_node))
              (reuse_not_found node_id reuse_from)
        registers (record {
          track = track;
          flow_id = flow_id;
          node_id = node_id;
          kind = kind_out_reuse;
          client = h.client;
          topic = "";
          owned = false;
          reuse_of = reuse_from;
        }))
        m

  module _ (net : Network c.Settings) where
    -- mqtt.Connect
    unfoldable pub connect : String → Broker c.Settings → Step ℕ
    connect node_id broker m =
        if net.connects m.attempts broker
        then (
          record m { live = m.attempts ∷ m.live; attempts = m.attempts + 1 },
          returns m.attempts,
        )
        else (record m { attempts = m.attempts + 1 }, fails (connect_failed node_id))

    unfoldable pub subscribe : ℕ → Subscription Dsl → Step (Unit {0})
    subscribe qos s m = elim (net.subscribes s.client s.topic qos) [
      | acknowledged ↦ (record m { subscriptions = s ∷ m.subscriptions }, returns tt)
      | timed_out ↦ (disconnect s.client m, fails (subscribe_timeout s.node_id))
      | refused ↦ (disconnect s.client m, fails (subscribe_failed s.node_id))
    ]

    -- addIn
    unfoldable pub add_in :
        Track → String → String → MqttInConfig c.Settings → Dsl → Step (Unit {0})
    add_in track flow_id node_id cfg dsl = do
      client ← connect node_id (in_broker track flow_id node_id cfg)
      u ← subscribe cfg.qos (record {
        client = client;
        topic = cfg.topic;
        dsl = dsl;
        flow_id = flow_id;
        node_id = node_id;
        cache_track = track;
      })
      registers (record {
        track = track;
        flow_id = flow_id;
        node_id = node_id;
        kind = kind_in;
        client = client;
        topic = cfg.topic;
        owned = true;
        reuse_of = "";
      })

    -- addOut with a persistent session
    unfoldable pub add_persistent :
        Track → String → String → MqttOutConfig c.Settings → Step (Unit {0})
    add_persistent track flow_id node_id cfg = do
      client ←
          connect node_id
            (with_client_id ("flowgo-" <> short_id flow_id <> "-" <> short_id node_id) cfg.broker)
      registers (record {
        track = track;
        flow_id = flow_id;
        node_id = node_id;
        kind = kind_out_persist;
        client = client;
        topic = "";
        owned = true;
        reuse_of = "";
      })

    -- addOut
    unfoldable pub add_out : Track → String → String → MqttOutConfig c.Settings → Step (Unit {0})
    add_out track flow_id node_id cfg =
        if nonempty cfg.reuse_from
        then add_reuse track flow_id node_id cfg.reuse_from
        else if cfg.session_mode == c.session_persistent
        then add_persistent track flow_id node_id cfg
        else pure tt
