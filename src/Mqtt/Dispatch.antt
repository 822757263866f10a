-- ===== src/Mqtt/Dispatch.antt =====
-- internal/mqttendpoint/dispatch.go: what a message of a subscription runs, and what
-- it shows to the editors. The engine is `execute`, which returns its logs and the text of its
-- error, or "". Times are left out, and a nil graph or message, which does nothing.
use flowgo_server.Prelude.{
  ◌++◌, All, refl, Bool-cases, inl, inr, String, ◌==◌, Bool, false, true, not, ◌&&◌, ◌||◌, Option,
  none, some, List, [], ◌∷◌, if◌then◌else◌, nonempty, is_some, ◌≡◌,
}
use flowgo_server.Types.{FlowDsl, FlowNode, FlowEdge}
use flowgo_server.Mqtt.Helpers.{Track, published, draft, looks_json}

abbrev edge_relation : FlowEdge → String
edge_relation e = if e.relation == "" then "Success" else e.relation

unfoldable pub edge_target : List FlowEdge → String → String → String
edge_target [] from_id relation = ""
edge_target (e ∷ edges) from_id relation =
    if e.from == from_id
    then if edge_relation e == relation then e.to else edge_target edges from_id relation
    else edge_target edges from_id relation

unfoldable pub next_node_by_relation : {C : Type 0} → FlowDsl C → String → String → String
unfolding edge_target
next_node_by_relation dsl from_id relation =
    if from_id == "" || relation == "" then "" else edge_target dsl.edges from_id relation

unfoldable pub in_debug : {C : Type 0} → List (FlowNode C) → String → Bool
in_debug [] node_id = false
in_debug (n ∷ nodes) node_id = if n.id == node_id then n.debug else in_debug nodes node_id

unfoldable pub node_name : {C : Type 0} → List (FlowNode C) → String → String
node_name [] node_id = node_id
node_name (n ∷ nodes) node_id =
    if n.id == node_id then if nonempty n.name then n.name else n.type else node_name nodes node_id

-- The edge is one for Success, which is also what no relation means.
abbrev pub leaves : String → FlowEdge → Bool
leaves node_id e = e.from == node_id && (e.relation == "" || e.relation == "Success")

edge_target-cons :
    (node_id : String) (e : FlowEdge) (edges : List FlowEdge)
    → edge_target (e ∷ edges) node_id "Success"
      ≡ (if leaves node_id e then e.to else edge_target edges node_id "Success")
unfolding edge_target
edge_target-cons node_id e edges = elim (Bool-cases (e.from == node_id)) [
  | inr q ↦ rw q refl
  | inl q ↦ elim (Bool-cases (e.relation == "")) [ inl r ↦ rw (q, r) refl | inr r ↦ rw (q, r) refl ]
]

edge_target-first :
    (node_id : String) (before after : List FlowEdge) (e : FlowEdge)
    → All (λ x. leaves node_id x ≡ false) before
    → leaves node_id e ≡ true
    → edge_target (before ++ (e ∷ after)) node_id "Success" ≡ e.to
edge_target-first node_id [] after e others h = rw (edge_target-cons node_id e after, h) refl
edge_target-first node_id (x ∷ before) after e (other, others) h =
    rw (edge_target-cons node_id x (before ++ (e ∷ after)), other)
      (edge_target-first node_id before after e others h)

in_debug-first :
    {C : Type 0} (node_id : String) (over under : List (FlowNode C)) (n : FlowNode C)
    → All (λ (x : FlowNode C). (x.id == node_id) ≡ false) over
    → (n.id == node_id) ≡ true
    → in_debug (over ++ (n ∷ under)) node_id ≡ n.debug
unfolding in_debug
in_debug-first node_id [] under n above h = rw h refl
in_debug-first node_id (x ∷ over) under n (other, above) h =
    rw other (in_debug-first node_id over under n above h)

-- paho.Message, with the QoS as a text
pub record Message : Type 0 where
  pub topic : String
  pub qos : String
  pub payload : String
  pub retained : Bool

pub data DataType : Type 0 where
  text json : DataType

-- types.Msg of the event type "MQTT"
pub record EngineMsg : Type 0 where
  pub data_type : DataType
  pub payload : String
  pub metadata : List (String × String)

-- A types.DebugLog that onMessage writes
pub record NodeLog : Type 0 where
  pub flow_type : String
  pub node_id : String
  pub node_name : String
  pub relation_type : String
  pub err : String
  pub body : String

-- types.DebugLog: the engine's, or onMessage's.
pub data DebugLog (L : Type 0) : Type 0 where
  engine_log : L → DebugLog L
  node_log : NodeLog → DebugLog L

-- What a message led to: the node that the engine started from with the message, whether it kept no
-- logs, and what was pushed to the editors, logs and error.
pub record Dispatched (L : Type 0) : Type 0 where
  pub started : Option (String × EngineMsg)
  pub skip_debug_logs : Bool
  pub pushed : Option (List (DebugLog L) × String)

unfoldable pub engine_msg : Message → EngineMsg
engine_msg pm = record {
  data_type = if looks_json pm.payload then json else text;
  payload = pm.payload;
  metadata =
      ("mqttTopic", pm.topic)
      ∷ ("mqttQos", pm.qos)
      ∷ (if pm.retained then ("mqttRetained", "true") ∷ [] else []);
}

abbrev pub is_draft : Track → Bool
is_draft published = false
is_draft draft = true

abbrev with_id : {C : Type 0} → FlowDsl C → String → FlowDsl C
with_id dsl flow_id = if dsl.id == "" then record dsl { id = flow_id } else dsl

module _ {C L : Type 0}
    (execute : FlowDsl C → String → EngineMsg → Track → Bool → List L × String) where
  engine_logs : List L → List (DebugLog L)
  engine_logs [] = []
  engine_logs (l ∷ ls) = engine_log l ∷ engine_logs ls

  unfoldable pub on_message : FlowDsl C → String → String → Track → Message → Dispatched L
  unfolding engine_logs
  on_message dsl flow_id node_id cache_track pm =
      let start_id = next_node_by_relation dsl node_id "Success" in
      let name = node_name dsl.nodes node_id in
      let want_debug = is_draft cache_track && in_debug dsl.nodes node_id in
      let msg = engine_msg pm in
      let (logs, err) = execute (with_id dsl flow_id) start_id msg cache_track (not want_debug) in
      if start_id == ""
      then record {
        started = none;
        skip_debug_logs = false;
        pushed =
            if want_debug
            then some (
              node_log (record {
                flow_type = "ERROR";
                node_id = node_id;
                node_name = name;
                relation_type = "";
                err = "no Success outgoing edge";
                body = pm.payload;
              })
                  ∷ [],
              "no Success outgoing edge",
            )
            else none;
      }
      else record {
        started = some (start_id, msg);
        skip_debug_logs = not want_debug;
        pushed =
            if want_debug
            then some (
              node_log (record {
                flow_type = "IN";
                node_id = node_id;
                node_name = name;
                relation_type = "";
                err = "";
                body = pm.payload;
              })
                  ∷ node_log (record {
                    flow_type = "OUT";
                    node_id = node_id;
                    node_name = name;
                    relation_type = "Success";
                    err = "";
                    body = pm.payload;
                  })
                  ∷ engine_logs logs,
              err,
            )
            else none;
      }

  -- A message for a node with an id and an edge for Success, whose target has an id: the engine is
  -- started, with the message, at the target of the first such edge, and the message is shown to
  -- the editors exactly when it came by the draft and the first node of that id is in debug.
  pub on_message-runs :
      (dsl : FlowDsl C) (flow_id node_id : String) (cache_track : Track) (pm : Message)
      (before after : List FlowEdge) (e : FlowEdge) (over under : List (FlowNode C))
      (n : FlowNode C)
      → (node_id == "") ≡ false
      → dsl.edges ≡ before ++ (e ∷ after)
      → All (λ x. leaves node_id x ≡ false) before
      → leaves node_id e ≡ true
      → (e.to == "") ≡ false
      → dsl.nodes ≡ over ++ (n ∷ under)
      → All (λ (x : FlowNode C). (x.id == node_id) ≡ false) over
      → (n.id == node_id) ≡ true
      → let r = on_message dsl flow_id node_id cache_track pm in
        (r.started ≡ some (e.to, engine_msg pm))
        × (is_some r.pushed ≡ (is_draft cache_track && n.debug))
  unfolding on_message next_node_by_relation
  on_message-runs dsl flow_id node_id cache_track pm before after e over under n named edges others
        leaving target nodes above here =
      let starts : next_node_by_relation dsl node_id "Success" ≡ e.to =
        rw (named, edges) (edge_target-first node_id before after e others leaving) in
      let debug : in_debug dsl.nodes node_id ≡ n.debug =
        rw nodes (in_debug-first node_id over under n above here) in
      (
        rw (starts, target) refl,
        rw (starts, target, debug)
            (elim (Bool-cases (is_draft cache_track && n.debug)) [
              | inl q ↦ rw q refl
              | inr q ↦ rw q refl
            ]),
      )
