-- ===== src/Mqtt/Tests.antt =====
-- The manager run on small flows.
use flowgo_server.Prelude.{
  Bool, is_some, ◌&&◌, String, ◌≡◌, refl, subst, ◌⊎◌, Bool-cases, trim_space, ◌==◌, ◌<◌, true,
  false, some, none, Option, List, [], ◌∷◌, In, inl, inr, if◌then◌else◌, lookup, put, delete, All,
}
use flowgo_server.Prelude.Action.{◌>>=◌, require}
use flowgo_server.Types.{FlowDsl, FlowNode}
use flowgo_server.Mqtt.Config.{Iot, Network, acknowledged}
use flowgo_server.Mqtt.Helpers.{
  Track, draft, track_name, flow_key, node_key, ensure_dsl_id, cut_prefix, cut_draft,
}
use flowgo_server.Mqtt.Connections.{
  ClientHandle, kind_in, keys_of, register, disconnect, stop, remove_key, remove_keys, remove_track,
  publisher, no_connections,
}
use flowgo_server.Mqtt.Adding.{
  connect, subscribe, with_client_id, add_in, add_reuse, add_persistent, add_out, reusable,
}
use flowgo_server.Mqtt.Sessions.{
  count_of, opened_by, unique_from, unique_nonempty, added_flows, removed_flows, decrement,
  decrements, increment, increments, set_open, to_close, to_open, is_draft_open,
}
use flowgo_server.Mqtt.Counting.{sessions_with}
use flowgo_server.Mqtt.Sync.{
  Flow, published_in, published_ins, published_out, published_outs, sync_flow, draft_in, draft_ins,
  draft_out, draft_outs, draft_of, sync_draft, remove_flow, remove_draft,
}
use flowgo_server.Mqtt.Manager.{
  new_manager, draft_ids, close_unopened, close_unopened_drafts, remove_drafts, sync_drafts,
  update_session_open_flows,
}
use flowgo_server.Mqtt.Calls.{MqttCall, updates, run_call, run_calls}
use flowgo_server.Mqtt.Keys.{is_plain}
use flowgo_server.Mqtt.Dispatch.{EngineMsg, Message, engine_msg, on_message, on_message-runs}
use flowgo_server.Mqtt.Open.{run_calls-count_of, run_calls-draft_open}
use flowgo_server.Mqtt.Live.{IsPlainCall, publisher-live, remove_track-disconnects}

-- A node's configuration is its topic.
abbrev component : Iot
component = record {
  Configuration = String;
  Settings = Unit;
  type_mqtt_in = "mqttIn";
  type_mqtt_out = "mqttOut";
  session_persistent = "persistent";
  parse_mqtt_in_config = λ topic. some (record {
    broker = record { client_id = "c"; settings = tt };
    topic = topic;
    qos = 0;
    connect_and_respond = true;
  });
  parse_mqtt_out_config = λ from. some (record {
    broker = record { client_id = "c"; settings = tt };
    reuse_from = from;
    session_mode = "persistent";
  });
  needs_managed_client = λ cfg. true;
}

-- Every broker answers.
abbrev network : Network (Unit {0})
network = record { connects = λ n broker. true; subscribes = λ n topic qos. acknowledged }

abbrev node : String → String → String → FlowNode String
node id type config = record {
  id = id;
  type = type;
  name = id;
  debug = false;
  configuration = config;
}

abbrev graph : List (FlowNode String) → FlowDsl String
graph nodes = record { id = "f"; name = "n"; entry_node = "a"; nodes = nodes; edges = [] }

-- A flow that receives at `a` and sends by the same client at `b`.
abbrev flow : Flow (FlowDsl String)
flow = record {
  id = "f";
  dsl = some (graph (node "a" "mqttIn" "t" ∷ node "b" "mqttOut" "a" ∷ []));
  published_dsl = none;
}

abbrev get : String → Option (Flow (FlowDsl String))
get id = if id == "f" then some flow else none

-- Two editors open the flow, and one of them closes it.
abbrev calls : List (MqttCall component)
calls = updates get "s" ("f" ∷ "" ∷ "f" ∷ []) ∷ updates get "t" ("f" ∷ []) ∷ updates get "s" [] ∷ []

flow_plain :
    (o : Option (Flow (FlowDsl String))) (rec : Flow (FlowDsl String))
    → o ≡ some rec
    → (o ≡ some flow) ⊎ (o ≡ none)
    → is_plain rec.id ≡ true
unfolding is_plain
flow_plain o rec h (inl e) =
    let same : flow ≡ rec = cc in
    subst (λ (r : Flow (FlowDsl String)). is_plain r.id ≡ true) same refl
flow_plain o rec h (inr e) = cc

get-cases : (id : String) → (get id ≡ some flow) ⊎ (get id ≡ none)
get-cases id = elim (Bool-cases (id == "f")) [ inl e ↦ inl (rw e refl) | inr e ↦ inr (rw e refl) ]

get_plain : (id : String) (rec : Flow (FlowDsl String)) → get id ≡ some rec → is_plain rec.id ≡ true
get_plain id rec h = flow_plain (get id) rec h (get-cases id)

plain_calls : All (IsPlainCall component) calls
plain_calls = (get_plain, (get_plain, (get_plain, tt)))

-- The sender's entry has the client of the receiver.
abbrev receiver : ClientHandle
receiver = record {
  track = draft;
  flow_id = "f";
  node_id = "a";
  kind = kind_in;
  client = 0;
  topic = "t";
  owned = true;
  reuse_of = "";
}

mounted :
    let m = (run_calls component network calls new_manager).connections in
    (lookup (flow_key draft "f") m.by_flow
      ≡ some (node_key draft "f" "a" ∷ node_key draft "f" "b" ∷ []))
    × (lookup (node_key draft "f" "a") m.by_node ≡ some receiver)
    × (publisher "f" "b" m ≡ some 0)
unfolding run_calls run_call lookup update_session_open_flows close_unopened_drafts close_unopened
    draft_ids sync_drafts to_open added_flows unique_nonempty remove_drafts to_close removed_flows
    opened_by set_open put delete add_in add_out add_persistent add_reuse connect reusable subscribe
    with_client_id disconnect keys_of register remove_key remove_keys remove_track stop cut_draft
    cut_prefix ensure_dsl_id flow_key node_key track_name count_of decrement decrements increment
    increments is_draft_open unique_from draft_in draft_ins draft_of draft_out draft_outs
    remove_draft sync_draft require ◌>>=◌ trim_space publisher
mounted = (refl, refl, refl)

run_calls-count_of_example :
    count_of "f" (run_calls component network calls new_manager).editors.open_count
    ≡ sessions_with "f" (run_calls component network calls new_manager).editors.sessions
run_calls-count_of_example = run_calls-count_of component network calls "f"

run_calls-draft_open_example :
    0 < sessions_with "f" (run_calls component network calls new_manager).editors.sessions
run_calls-draft_open_example = run_calls-draft_open component network calls "f" _ mounted.0

publisher-live_example : In 0 (run_calls component network calls new_manager).connections.live
publisher-live_example = publisher-live component network calls "f" "b" 0 plain_calls mounted.2

remove_track-disconnects_example :
    let m = remove_track draft "f" (run_calls component network calls new_manager).connections in
    (lookup (node_key draft "f" "a") m.by_node ≡ none) × ¬ In 0 m.live
unfolding is_plain
remove_track-disconnects_example =
    remove_track-disconnects component network calls draft "f" "a" receiver plain_calls refl refl
      mounted.1 refl

-- Two receivers with one id: the first one's client stays connected when the flow is unloaded.
abbrev twins : FlowDsl String
twins = graph (node "a" "mqttIn" "t" ∷ node "a" "mqttIn" "u" ∷ [])

twins_test :
    let m =
      (sync_flow component network
        (record { id = "f"; dsl = none; published_dsl = some twins })
        no_connections).0 in
    (m.live ≡ 1 ∷ 0 ∷ []) × ((remove_flow "f" m).live ≡ 0 ∷ [])
unfolding run_calls run_call lookup update_session_open_flows close_unopened_drafts close_unopened
    draft_ids sync_drafts to_open added_flows unique_nonempty remove_drafts to_close removed_flows
    opened_by set_open put delete add_in add_out add_persistent add_reuse connect reusable subscribe
    with_client_id disconnect keys_of register remove_key remove_keys remove_track stop cut_draft
    cut_prefix ensure_dsl_id flow_key node_key track_name count_of decrement decrements increment
    increments is_draft_open unique_from draft_in draft_ins draft_of draft_out draft_outs
    remove_draft sync_draft require ◌>>=◌ trim_space sync_flow published_ins published_in
    published_outs published_out remove_flow
twins_test = (refl, refl)

-- The engine, which answers with one log.
abbrev engine : FlowDsl String → String → EngineMsg → Track → Bool → List String × String
engine dsl start_id msg track skip = (start_id ∷ [], "")

abbrev watched : FlowDsl String
watched = record {
  id = "f";
  name = "n";
  entry_node = "a";
  nodes = record { id = "a"; type = "mqttIn"; name = ""; debug = true; configuration = "t" } ∷ [];
  edges = record { from = "a"; to = "b"; relation = "" } ∷ [];
}

on_message-runs_example :
    let pm : Message = record { topic = "t"; qos = "0"; payload = "{}"; retained = false } in
    let r = on_message engine watched "f" "a" draft pm in
    (r.started ≡ some ("b", engine_msg pm)) × (is_some r.pushed ≡ (true && true))
on_message-runs_example =
    on_message-runs engine watched "f" "a" draft _ [] []
      (record { from = "a"; to = "b"; relation = "" }) [] []
      (record { id = "a"; type = "mqttIn"; name = ""; debug = true; configuration = "t" }) refl refl
      tt refl refl refl tt refl
