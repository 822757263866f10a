-- ===== src/Mqtt/Config.antt =====
-- What internal/mqttendpoint calls outside the repository: the iot components of the engine, which
-- read a node's configuration, and the MQTT client library.
use flowgo_server.Prelude.{ℕ, String, Bool, Option}

-- The broker's settings; only the client's id is looked at here.
pub record Broker (S : Type 0) : Type 0 where
  pub client_id : String
  pub settings : S

-- iot.MqttInConfig
pub record MqttInConfig (S : Type 0) : Type 0 where
  pub broker : Broker S
  pub topic : String
  pub qos : ℕ
  pub connect_and_respond : Bool

-- iot.MqttOutConfig
pub record MqttOutConfig (S : Type 0) : Type 0 where
  pub broker : Broker S
  pub reuse_from : String
  pub session_mode : String

-- The package components/iot
pub record Iot : Type 1 where
  pub Configuration : Type 0
  pub Settings : Type 0
  pub type_mqtt_in : String
  pub type_mqtt_out : String
  pub session_persistent : String
  pub parse_mqtt_in_config : Configuration → Option (MqttInConfig Settings)
  pub parse_mqtt_out_config : Configuration → Option (MqttOutConfig Settings)
  pub needs_managed_client : MqttOutConfig Settings → Bool

-- How a subscription ended within its ten seconds.
pub data SubscribeToken : Type 0 where
  acknowledged timed_out refused : SubscribeToken

-- The brokers, as the calls meet them: the n-th call of mqtt.Connect makes client n, or fails.
pub record Network (S : Type 0) : Type 0 where
  pub connects : ℕ → Broker S → Bool
  pub subscribes : ℕ → String → ℕ → SubscribeToken
