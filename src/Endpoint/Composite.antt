-- ===== src/Endpoint/Composite.antt =====
-- internal/endpoint/composite.go: the HTTP and the MQTT entry points together, both there. The iot
-- components read the same configuration as the endpoint component, by `for_iot`.
use flowgo_server.Prelude.{String, Bool, true, false, Option, none, some, if◌then◌else◌, map}
use flowgo_server.Prelude.Action.{Outcome, returns, fails}
use flowgo_server.Types.{FlowDsl, FlowNode}
use flowgo_server.Store.Records.{FlowRecord}
use flowgo_server.Endpoint.Config.{Component}
use flowgo_server.Endpoint.Manager.{EndpointError, is_panic, Manager, sync_flow, remove_flow}
use flowgo_server.Endpoint.Check.{check_http_routes}
use flowgo_server.Mqtt.Config.{Iot, Network}
use flowgo_server.Mqtt.Manager.{Manager as MqttManager}
use flowgo_server.Mqtt.Sync.{
  Flow, sync_flow as sync_mqtt, sync_draft_if_open as sync_mqtt_draft, remove_flow as remove_mqtt,
  remove_draft,
}

module _ (c : Component) (listens : String → Bool) (name_of : String → String) (i : Iot)
    (net : Network i.Settings) (for_iot : c.Configuration → i.Configuration) where
  abbrev Graph : Type 0
  Graph = FlowDsl c.Configuration

  abbrev Record : Type 0
  Record = FlowRecord c.Configuration

  -- Composite
  pub record Composite : Type 0 where
    pub http : Manager Graph
    pub mqtt : MqttManager (FlowDsl i.Configuration)

  abbrev node_for_iot : FlowNode c.Configuration → FlowNode i.Configuration
  node_for_iot n = record {
    id = n.id;
    type = n.type;
    name = n.name;
    debug = n.debug;
    configuration = for_iot n.configuration;
  }

  -- The graph as the iot components read it.
  abbrev graph_for_iot : Graph → FlowDsl i.Configuration
  graph_for_iot d = record {
    id = d.id;
    name = d.name;
    entry_node = d.entry_node;
    nodes = map node_for_iot d.nodes;
    edges = d.edges;
  }

  abbrev maybe_for_iot : Option Graph → Option (FlowDsl i.Configuration)
  maybe_for_iot none = none
  maybe_for_iot (some d) = some (graph_for_iot d)

  abbrev flow_for_iot : Record → Flow (FlowDsl i.Configuration)
  flow_for_iot rec = record {
    id = rec.id;
    dsl = maybe_for_iot rec.dsl;
    published_dsl = maybe_for_iot rec.published_dsl;
  }

  abbrev is_ok : {E A : Type 0} → Outcome E A → Bool
  is_ok (returns a) = true
  is_ok (fails e) = false

  -- CheckHTTPRoutes
  unfoldable pub composite_check : String → Graph → Composite → Bool
  composite_check flow_id dsl s = is_ok (check_http_routes c name_of flow_id (some dsl) s.http)

  -- How a call ends: it returns nil, it returns an error, or it panics.
  pub data Ending : Type 0 where
    done refused aborted : Ending

  abbrev ending : Outcome EndpointError (Unit {0}) → Ending
  ending (returns u) = done
  ending (fails x) = if is_panic x then aborted else refused

  abbrev with_mqtt : Composite → Record → Composite × Ending
  with_mqtt s rec =
      let r = sync_mqtt i net (flow_for_iot rec) s.mqtt.connections in
      (record s { mqtt = record s.mqtt { connections = r.0 } }, if is_ok r.1 then done else refused)

  -- SyncFlow: MQTT after HTTP, where that succeeds.
  unfoldable pub composite_sync_flow : Record → Composite → Composite × Ending
  composite_sync_flow rec s =
      let r = sync_flow c listens name_of rec.id rec.published_dsl s.http in
      if is_ok r.1
      then with_mqtt (record s { http = r.0 }) rec
      else (record s { http = r.0 }, ending r.1)

  -- SyncDraftIfOpen, its error dropped
  unfoldable pub composite_sync_draft : Record → Composite → Composite
  composite_sync_draft rec s = record s {
    mqtt = record s.mqtt {
      connections = (sync_mqtt_draft i net s.mqtt.editors (flow_for_iot rec) s.mqtt.connections).0;
    };
  }

  -- RemoveFlow: MQTT after HTTP, unless that panics.
  unfoldable pub composite_remove_flow : String → Composite → Composite × Ending
  composite_remove_flow flow_id s =
      let r = remove_flow c.registers flow_id s.http in
      if is_ok r.1
      then (
        record s {
          http = r.0;
          mqtt = record s.mqtt {
            connections = remove_draft flow_id (remove_mqtt flow_id s.mqtt.connections);
          };
        },
        done,
      )
      else (record s { http = r.0 }, ending r.1)
