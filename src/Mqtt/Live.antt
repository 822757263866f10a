-- ===== src/Mqtt/Live.antt =====
-- What Publisher hands out, and what removing a flow leaves, along a history of calls.
use flowgo_server.Prelude.{
  String, ◌≡◌, ◌==◌, Bool, false, true, Option, none, some, List, [], ◌∷◌, if◌then◌else◌, lookup,
  delete, Bool-cases, Option-cases, inl, inr, arith, In, In→contains, ℕ, is_some, subst, All, ◌||◌,
}
use flowgo_server.Mqtt.Config.{Iot, Network}
use flowgo_server.Mqtt.Helpers.{Track, published, draft, flow_key, node_key}
use flowgo_server.Mqtt.Connections.{Connections, ClientHandle, keys_of, publisher, remove_track}
use flowgo_server.Mqtt.Adding.{Dsl}
use flowgo_server.Mqtt.Sessions.{Editors, is_draft_open}
use flowgo_server.Mqtt.Sync.{Flow, remove_flow, remove_draft, sync_flow}
use flowgo_server.Mqtt.Manager.{
  Manager, new_manager, close_unopened, close_unopened_drafts, remove_drafts, sync_drafts,
  update_session_open_flows, release_session, sync_flows, start_all,
}
use flowgo_server.Mqtt.Calls.{
  MqttCall, starts, syncs_flow, syncs_draft, removes_flow, removes_draft, updates, releases,
  run_call, run_calls,
}
use flowgo_server.Mqtt.Keeps.{sync_flow-Kept, sync_draft-Kept, sync_draft_if_open-Kept}
use flowgo_server.Mqtt.Keys.{is_plain, flow_part-node_key}
use flowgo_server.Mqtt.Clients.{
  HandleAt, IsConnected, no_connections-IsConnected, not_live_after, lookup-remove_keys,
}
use flowgo_server.Mqtt.Unmounting.{remove_track-IsConnected}
use flowgo_server.Mqtt.Mounting.{IsConnected-Kept}

module _ {D : Type 0} where
  close_unopened-IsConnected :
      (e : Editors) (ids : List String) (m : Connections D)
      → IsConnected m
      → IsConnected (close_unopened e ids m)
  unfolding close_unopened
  close_unopened-IsConnected e [] m r = r
  close_unopened-IsConnected e (id ∷ ids) m r =
      close_unopened-IsConnected e ids _ (step (is_draft_open id e))
    where
      step : (b : Bool) → IsConnected (if b then m else remove_track draft id m)
      step true = r
      step false = remove_track-IsConnected draft id m r

  remove_drafts-IsConnected :
      (ids : List String) (m : Connections D) → IsConnected m → IsConnected (remove_drafts ids m)
  unfolding remove_drafts
  remove_drafts-IsConnected [] m r = r
  remove_drafts-IsConnected (id ∷ ids) m r =
      remove_drafts-IsConnected ids _ (remove_track-IsConnected draft id m r)

  publisher-In :
      (f n : String) (m : Connections D) (client : ℕ)
      → IsConnected m
      → publisher f n m ≡ some client
      → In client m.live
  unfolding publisher
  publisher-In f n m client r h = elim (Bool-cases (f == "" || n == "")) [
    | inl e ↦ cc (rw (e, publisher) at h)
    | inr e ↦ elim (Option-cases (lookup (node_key published f n) m.by_node)) [
      | inr (g, q) ↦
          let same : g.client ≡ client = cc (rw (e, publisher, q) at h) in
          subst (λ x. In x m.live) same (r.connected (node_key published f n) g q)
      | inl q ↦ elim (Option-cases (lookup (node_key draft f n) m.by_node)) [
        | inl q' ↦ cc (rw (e, publisher, q, q') at h)
        | inr (g, q') ↦
            let same : g.client ≡ client = cc (rw (e, publisher, q, q') at h) in
            subst (λ x. In x m.live) same (r.connected (node_key draft f n) g q')
      ]
    ]
  ]

  removed-handle :
      (t : Track) (f n : String) (m : Connections D) (h : ClientHandle)
      → IsConnected m
      → is_plain f ≡ true
      → (f == "") ≡ false
      → HandleAt m (node_key t f n) h
      → h.owned ≡ true
      → (lookup (node_key t f n) (remove_track t f m).by_node ≡ none)
        × ¬ In h.client (remove_track t f m).live
  unfolding remove_track
  removed-handle t f n m h r plain ne e o =
      let k = node_key t f n in
      let ks = keys_of (flow_key t f) m in
      let m₁ : Connections D = record m { by_flow = delete (flow_key t f) m.by_flow } in
      let i : In k ks =
        subst (λ fk. In k (keys_of fk m)) (flow_part-node_key t f n plain) (r.listed k h e) in
      rw (ne, remove_track)
        (
          ground (arith, lookup-remove_keys ks k m₁, In→contains ks k i),
          not_live_after ks m₁ k h i e o,
        )

module _ (c : Iot) where
  abbrev pub IsPlainFlow : Flow (Dsl c) → Type 0
  IsPlainFlow rec = is_plain rec.id ≡ true

  -- The ids of the flows that a call is given have no NUL.
  abbrev pub IsPlainCall : MqttCall c → Type 0
  IsPlainCall (starts none) = Unit
  IsPlainCall (starts (some list)) = All IsPlainFlow list
  IsPlainCall (syncs_flow rec) = IsPlainFlow rec
  IsPlainCall (syncs_draft rec) = IsPlainFlow rec
  IsPlainCall (removes_flow id) = Unit
  IsPlainCall (removes_draft id) = Unit
  IsPlainCall (updates get_flow id ids) =
      (flow_id : String) (rec : Flow (Dsl c)) → get_flow flow_id ≡ some rec → IsPlainFlow rec
  IsPlainCall (releases id) = Unit

  module _ (net : Network c.Settings) where
    sync_flow-IsConnected :
        (rec : Flow (Dsl c)) (m : Connections (Dsl c))
        → IsPlainFlow rec
        → IsConnected m
        → IsConnected (sync_flow c net rec m).0
    sync_flow-IsConnected rec m plain r =
        sync_flow-Kept c net IsConnected rec (IsConnected-Kept c net published rec.id plain)
          (remove_track-IsConnected draft rec.id) m r

    sync_flows-IsConnected :
        (list : List (Flow (Dsl c))) (m : Connections (Dsl c))
        → All IsPlainFlow list
        → IsConnected m
        → IsConnected (sync_flows c net list m)
    unfolding sync_flows
    sync_flows-IsConnected [] m plain r = r
    sync_flows-IsConnected (rec ∷ list) m (p, plain) r =
        sync_flows-IsConnected list _ plain (step (is_some rec.published_dsl))
      where
        step : (b : Bool) → IsConnected (if b then (sync_flow c net rec m).0 else m)
        step true = sync_flow-IsConnected rec m p r
        step false = r

    sync_drafts-IsConnected :
        (get_flow : String → Option (Flow (Dsl c))) (e : Editors) (ids : List String)
        (m : Connections (Dsl c))
        → ((flow_id : String) (rec : Flow (Dsl c)) → get_flow flow_id ≡ some rec → IsPlainFlow rec)
        → IsConnected m
        → IsConnected (sync_drafts c net get_flow e ids m)
    unfolding sync_drafts
    sync_drafts-IsConnected get_flow e [] m plain r = r
    sync_drafts-IsConnected get_flow e (id ∷ ids) m plain r = elim (Option-cases (get_flow id)) [
      | inl q ↦ rw (q, sync_drafts) (sync_drafts-IsConnected get_flow e ids m plain r)
      | inr (rec, q) ↦
          rw (q, sync_drafts)
            (sync_drafts-IsConnected get_flow e ids _ plain (
              sync_draft-Kept c net IsConnected e rec (remove_track-IsConnected draft rec.id)
                (λ o. IsConnected-Kept c net draft rec.id (plain id rec q)) m r))
    ]

    run_call-IsConnected :
        (call : MqttCall c) (m : Manager (Dsl c))
        → IsPlainCall call
        → IsConnected m.connections
        → IsConnected (run_call c net call m).connections
    unfolding run_call remove_flow remove_draft update_session_open_flows release_session start_all
        close_unopened_drafts
    run_call-IsConnected (starts none) m p r = r
    run_call-IsConnected (starts (some list)) m p r =
        close_unopened-IsConnected m.editors _ _ (sync_flows-IsConnected list _ p r)
    run_call-IsConnected (syncs_flow rec) m p r = sync_flow-IsConnected rec _ p r
    run_call-IsConnected (syncs_draft rec) m p r =
        sync_draft_if_open-Kept c net IsConnected m.editors rec
          (remove_track-IsConnected draft rec.id) (λ o. IsConnected-Kept c net draft rec.id p) _ r
    run_call-IsConnected (removes_flow id) m p r = remove_track-IsConnected published id _ r
    run_call-IsConnected (removes_draft id) m p r = remove_track-IsConnected draft id _ r
    run_call-IsConnected (updates get_flow id ids) m p r = elim (Bool-cases (id == "")) [
      | inl e ↦ rw e r
      | inr e ↦ rw e (
          close_unopened-IsConnected _ _ _
            (sync_drafts-IsConnected get_flow _ _ _ p (remove_drafts-IsConnected _ _ r)))
    ]
    run_call-IsConnected (releases id) m p r = elim (Bool-cases (id == "")) [
      | inl e ↦ rw e r
      | inr e ↦ rw e (close_unopened-IsConnected _ _ _ (remove_drafts-IsConnected _ _ r))
    ]

    run_calls-IsConnected :
        (calls : List (MqttCall c)) (m : Manager (Dsl c))
        → All IsPlainCall calls
        → IsConnected m.connections
        → IsConnected (run_calls c net calls m).connections
    unfolding run_calls
    run_calls-IsConnected [] m p r = r
    run_calls-IsConnected (call ∷ calls) m (p, ps) r =
        run_calls-IsConnected calls _ ps (run_call-IsConnected call m p r)

    -- After any calls of a new manager, failing or not, on flows whose ids have no NUL, a client
    -- that Publisher hands out has connected and is not disconnected.
    pub publisher-live :
        (calls : List (MqttCall c)) (flow_id node_id : String) (client : ℕ)
        → All IsPlainCall calls
        → publisher flow_id node_id (run_calls c net calls new_manager).connections ≡ some client
        → In client (run_calls c net calls new_manager).connections.live
    publisher-live calls flow_id node_id client plain h =
        publisher-In flow_id node_id _ client
          (run_calls-IsConnected calls new_manager plain no_connections-IsConnected) h

    -- After such calls, unloading a track of a flow with an id that has no NUL takes the entry of
    -- each of its nodes, and disconnects the client that the entry owns.
    pub remove_track-disconnects :
        (calls : List (MqttCall c)) (t : Track) (flow_id node_id : String) (h : ClientHandle)
        → All IsPlainCall calls
        → is_plain flow_id ≡ true
        → (flow_id == "") ≡ false
        → lookup
            (node_key t flow_id node_id)
            (run_calls c net calls new_manager).connections.by_node
          ≡ some h
        → h.owned ≡ true
        → let m = remove_track t flow_id (run_calls c net calls new_manager).connections in
          (lookup (node_key t flow_id node_id) m.by_node ≡ none) × ¬ In h.client m.live
    remove_track-disconnects calls t flow_id node_id h plain p ne e o =
        removed-handle t flow_id node_id _ h
          (run_calls-IsConnected calls new_manager plain no_connections-IsConnected) p ne e o
