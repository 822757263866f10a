-- ===== src/Mqtt/Connections.antt =====
-- internal/mqttendpoint/manager.go: the tables of clients behind `mu`. A client is the number of the
-- call of mqtt.Connect that made it. `live` are the clients that are connected, and `subscriptions`
-- what their message handlers were given. A client that connected is never nil.

use flowgo_server.Prelude.{
  ℕ, String, ◌==◌, Bool, true, false, not, ◌||◌, Option, none, some, List, [], ◌∷◌, ◌++◌,
  if◌then◌else◌, nat_eq, select, GoMap, lookup, delete, put,
}
use flowgo_server.Prelude.Action.{Outcome, returns, fails}
use flowgo_server.Mqtt.Helpers.{Track, published, draft, flow_key, node_key}

pub data ClientKind : Type 0 where
  kind_in kind_out_persist kind_out_reuse : ClientKind

-- clientHandle
pub record ClientHandle : Type 0 where
  pub track : Track
  pub flow_id : String
  pub node_id : String
  pub kind : ClientKind
  pub client : ℕ
  pub topic : String
  pub owned : Bool
  pub reuse_of : String

-- The arguments of onMessage that a subscription fixes.
pub record Subscription (D : Type 0) : Type 0 where
  pub client : ℕ
  pub topic : String
  pub dsl : D
  pub flow_id : String
  pub node_id : String
  pub cache_track : Track

pub record Connections (D : Type 0) : Type 0 where
  pub by_node : GoMap ClientHandle
  pub by_flow : GoMap (List String)
  pub live : List ℕ
  pub attempts : ℕ
  pub subscriptions : List (Subscription D)

pub data MqttError : Type 0 where
  connect_failed subscribe_timeout subscribe_failed bad_in bad_out : String → MqttError
  reuse_not_found : String → String → MqttError

-- NewManager
abbrev pub no_connections : {D : Type 0} → Connections D
no_connections = record { by_node = []; by_flow = []; live = []; attempts = 0; subscriptions = [] }

abbrev pub keys_or_nil : Option (List String) → List String
keys_or_nil none = []
keys_or_nil (some keys) = keys

abbrev pub is_in : ClientKind → Bool
is_in kind_in = true
is_in kind_out_persist = false
is_in kind_out_reuse = false

-- The client of a published node, or that of the draft's.
abbrev first_client : Option ClientHandle → Option ClientHandle → Option ℕ
first_client (some h) o = some h.client
first_client none (some h) = some h.client
first_client none none = none

module _ {D : Type 0} where
  -- m.byFlow[fk]
  unfoldable pub keys_of : String → Connections D → List String
  keys_of fk m = keys_or_nil (lookup fk m.by_flow)

  -- registerLocked
  unfoldable pub register : ClientHandle → Connections D → Connections D
  register h m =
      let key = node_key h.track h.flow_id h.node_id in
      let fk = flow_key h.track h.flow_id in
      record m {
        by_node = put key h m.by_node;
        by_flow = put fk (keys_of fk m ++ (key ∷ [])) m.by_flow;
      }

  -- client.Disconnect(250)
  unfoldable pub disconnect : ℕ → Connections D → Connections D
  disconnect n m = record m {
    live = select (λ k. not (nat_eq k n)) m.live;
    subscriptions = select (λ (s : Subscription D). not (nat_eq s.client n)) m.subscriptions;
  }

  -- stopLocked. Unsubscribing before the client disconnects leaves no other trace.
  unfoldable pub stop : ClientHandle → Connections D → Connections D
  stop h m = if h.owned then disconnect h.client m else m

  -- The body of removeTrack's loop.
  unfoldable pub remove_key : String → Connections D → Connections D
  remove_key key m = elim (lookup key m.by_node) [
    | none ↦ m
    | some h ↦ record (stop h m) { by_node = delete key m.by_node }
  ]

  unfoldable pub remove_keys : List String → Connections D → Connections D
  remove_keys [] m = m
  remove_keys (key ∷ keys) m = remove_keys keys (remove_key key m)

  -- removeTrack; RemoveFlow and RemoveDraft are its two tracks.
  unfoldable pub remove_track : Track → String → Connections D → Connections D
  remove_track track flow_id m =
      if flow_id == ""
      then m
      else remove_keys (keys_of (flow_key track flow_id) m)
          (record m { by_flow = delete (flow_key track flow_id) m.by_flow })

  -- Publisher
  unfoldable pub publisher : String → String → Connections D → Option ℕ
  publisher flow_id out_node_id m =
      if flow_id == "" || out_node_id == ""
      then none
      else first_client (lookup (node_key published flow_id out_node_id) m.by_node)
          (lookup (node_key draft flow_id out_node_id) m.by_node)

  -- The error paths of SyncFlow and SyncDraft: unload the track and return the error.
  abbrev pub or_remove :
      {A : Type 0}
      → Track
      → String
      → Connections D × Outcome MqttError A
      → Connections D × Outcome MqttError A
  or_remove track flow_id (m, returns a) = (m, returns a)
  or_remove track flow_id (m, fails e) = (remove_track track flow_id m, fails e)
