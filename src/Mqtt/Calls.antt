-- ===== src/Mqtt/Calls.antt =====
-- The calls of the manager as data, to speak of every history of them.
use flowgo_server.Prelude.{String, Option, List, [], ◌∷◌}
use flowgo_server.Mqtt.Config.{Iot, Network}
use flowgo_server.Mqtt.Adding.{Dsl}
use flowgo_server.Mqtt.Sync.{Flow, remove_flow, remove_draft, sync_flow, sync_draft_if_open}
use flowgo_server.Mqtt.Manager.{Manager, update_session_open_flows, release_session, start_all}

module _ (c : Iot) where
  pub data MqttCall : Type 0 where
    starts : Option (List (Flow (Dsl c))) → MqttCall
    syncs_flow syncs_draft : Flow (Dsl c) → MqttCall
    removes_flow removes_draft : String → MqttCall
    updates : (String → Option (Flow (Dsl c))) → String → List String → MqttCall
    releases : String → MqttCall

  unfoldable pub run_call : Network c.Settings → MqttCall → Manager (Dsl c) → Manager (Dsl c)
  run_call net (starts list) m = start_all c net list m
  run_call net (syncs_flow rec) m = record m { connections = (sync_flow c net rec m.connections).0 }
  run_call net (syncs_draft rec) m = record m {
    connections = (sync_draft_if_open c net m.editors rec m.connections).0;
  }
  run_call net (removes_flow id) m = record m { connections = remove_flow id m.connections }
  run_call net (removes_draft id) m = record m { connections = remove_draft id m.connections }
  run_call net (updates get_flow id ids) m = update_session_open_flows c net get_flow id ids m
  run_call net (releases id) m = release_session c net id m

  unfoldable pub run_calls : Network c.Settings → List MqttCall → Manager (Dsl c) → Manager (Dsl c)
  run_calls net [] m = m
  run_calls net (call ∷ calls) m = run_calls net calls (run_call net call m)
