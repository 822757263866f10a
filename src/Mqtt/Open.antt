-- ===== src/Mqtt/Open.antt =====
-- The counts, the sessions and the mounted drafts along a history of calls.
use flowgo_server.Prelude.{
  ◌<◌, String, ◌≡◌, refl, ◌==◌, Bool, false, true, Option, none, some, List, [], ◌∷◌, if◌then◌else◌,
  lookup, Bool-cases, Option-cases, text_cases, inl, inr, arith, is_some,
}
use flowgo_server.Mqtt.Config.{Iot, Network}
use flowgo_server.Mqtt.Helpers.{published, draft, flow_key}
use flowgo_server.Mqtt.Connections.{Connections}
use flowgo_server.Mqtt.Adding.{Dsl}
use flowgo_server.Mqtt.Sessions.{Editors, count_of, is_draft_open}
use flowgo_server.Mqtt.Sync.{Flow, remove_flow, remove_draft, sync_flow, sync_draft_if_open}
use flowgo_server.Mqtt.Manager.{
  Manager, new_manager, sync_drafts, update_session_open_flows, release_session, sync_flows,
  start_all,
}
use flowgo_server.Mqtt.Calls.{
  MqttCall, starts, syncs_flow, syncs_draft, removes_flow, removes_draft, updates, releases,
  run_call, run_calls,
}
use flowgo_server.Mqtt.Counting.{
  IsCounted, sessions_with, no_editors-IsCounted, unique_nonempty-IsUnrepeated, set_open-IsCounted,
  drop_session-IsCounted,
}
use flowgo_server.Mqtt.Keeps.{sync_flow-Kept, sync_draft-Kept, sync_draft_if_open-Kept}
use flowgo_server.Mqtt.Keys.{draft_key-ne, published_key-ne}
use flowgo_server.Mqtt.Drafts.{IsUnmounted, remove_track-IsUnmounted, IsUnmounted-Kept}
use flowgo_server.Mqtt.Closing.{
  DraftsAreOpen, remove_drafts-IsUnmounted, close_unopened_drafts-open,
}

module _ (c : Iot) (net : Network c.Settings) where
  sync_flow-IsUnmounted :
      (j : String) (rec : Flow (Dsl c)) (m : Connections (Dsl c))
      → IsUnmounted (flow_key draft j) m
      → IsUnmounted (flow_key draft j) (sync_flow c net rec m).0
  sync_flow-IsUnmounted j rec m h =
      sync_flow-Kept c net (IsUnmounted (flow_key draft j)) rec
        (IsUnmounted-Kept c net published rec.id (flow_key draft j) (published_key-ne rec.id j))
        (remove_track-IsUnmounted (flow_key draft j) draft rec.id) m h

  ne_open :
      (e : Editors) (id j : String)
      → is_draft_open j e ≡ false
      → is_draft_open id e ≡ true
      → (id == j) ≡ false
  ne_open e id j h q = elim (text_cases id j) [ inl same ↦ cc (rw same at q) | inr ne ↦ ne ]

  sync_draft_if_open-IsUnmounted :
      (e : Editors) (j : String) (rec : Flow (Dsl c)) (m : Connections (Dsl c))
      → is_draft_open j e ≡ false
      → IsUnmounted (flow_key draft j) m
      → IsUnmounted (flow_key draft j) (sync_draft_if_open c net e rec m).0
  sync_draft_if_open-IsUnmounted e j rec m q h =
      sync_draft_if_open-Kept c net (IsUnmounted (flow_key draft j)) e rec
        (remove_track-IsUnmounted (flow_key draft j) draft rec.id)
        (λ o.
          IsUnmounted-Kept c net draft rec.id (flow_key draft j)
            (draft_key-ne rec.id j (ne_open e rec.id j q o)))
        m h

  sync_drafts-IsUnmounted :
      (get_flow : String → Option (Flow (Dsl c))) (e : Editors) (ids : List String) (j : String)
      (m : Connections (Dsl c))
      → is_draft_open j e ≡ false
      → IsUnmounted (flow_key draft j) m
      → IsUnmounted (flow_key draft j) (sync_drafts c net get_flow e ids m)
  unfolding sync_drafts
  sync_drafts-IsUnmounted get_flow e [] j m q h = h
  sync_drafts-IsUnmounted get_flow e (id ∷ ids) j m q h = elim (Option-cases (get_flow id)) [
    | inl r ↦ rw (r, sync_drafts) (sync_drafts-IsUnmounted get_flow e ids j m q h)
    | inr (rec, r) ↦
        rw (r, sync_drafts)
          (sync_drafts-IsUnmounted get_flow e ids j _ q (
            sync_draft-Kept c net (IsUnmounted (flow_key draft j)) e rec
              (remove_track-IsUnmounted (flow_key draft j) draft rec.id)
              (λ o.
                IsUnmounted-Kept c net draft rec.id (flow_key draft j)
                  (draft_key-ne rec.id j (ne_open e rec.id j q o)))
              m h))
  ]

  sync_flows-IsUnmounted :
      (list : List (Flow (Dsl c))) (j : String) (m : Connections (Dsl c))
      → IsUnmounted (flow_key draft j) m
      → IsUnmounted (flow_key draft j) (sync_flows c net list m)
  unfolding sync_flows
  sync_flows-IsUnmounted [] j m h = h
  sync_flows-IsUnmounted (rec ∷ list) j m h =
      sync_flows-IsUnmounted list j _ (step (is_some rec.published_dsl))
    where
      step :
          (b : Bool) → IsUnmounted (flow_key draft j) (if b then (sync_flow c net rec m).0 else m)
      step true = sync_flow-IsUnmounted j rec m h
      step false = h

  -- The two tables of a manager: the counts agree, and only open flows have drafts mounted.
  pub record IsTracked (m : Manager (Dsl c)) : Type 0 where
    pub counts : IsCounted m.editors
    pub drafts : DraftsAreOpen m.editors m.connections

  pub new_manager-IsTracked : IsTracked new_manager
  unfolding lookup
  new_manager-IsTracked = record { counts = no_editors-IsCounted; drafts = λ id q. refl }

  count_positive :
      (id : String) (e : Editors) → is_draft_open id e ≡ true → 0 < count_of id e.open_count
  unfolding is_draft_open
  count_positive id e h = ground arith

  never_open : (e : Editors) → is_draft_open "" e ≡ false
  unfolding is_draft_open
  never_open e = refl

  run_call-IsTracked :
      (call : MqttCall c) (m : Manager (Dsl c)) → IsTracked m → IsTracked (run_call c net call m)
  unfolding run_call remove_flow remove_draft update_session_open_flows release_session start_all
  run_call-IsTracked (starts none) m t = t
  run_call-IsTracked (starts (some list)) m t = record {
    counts = t.counts;
    drafts =
        close_unopened_drafts-open m.editors _
          (sync_flows-IsUnmounted list "" m.connections (t.drafts "" (never_open m.editors)));
  }
  run_call-IsTracked (syncs_flow rec) m t = record {
    counts = t.counts;
    drafts = λ j q. sync_flow-IsUnmounted j rec m.connections (t.drafts j q);
  }
  run_call-IsTracked (syncs_draft rec) m t = record {
    counts = t.counts;
    drafts = λ j q. sync_draft_if_open-IsUnmounted m.editors j rec m.connections q (t.drafts j q);
  }
  run_call-IsTracked (removes_flow id) m t = record {
    counts = t.counts;
    drafts = λ j q. remove_track-IsUnmounted _ published id m.connections (t.drafts j q);
  }
  run_call-IsTracked (removes_draft id) m t = record {
    counts = t.counts;
    drafts = λ j q. remove_track-IsUnmounted _ draft id m.connections (t.drafts j q);
  }
  run_call-IsTracked (updates get_flow id ids) m t = elim (Bool-cases (id == "")) [
    | inl e ↦ rw e t
    | inr e ↦ rw e (record {
      counts = set_open-IsCounted id _ m.editors (unique_nonempty-IsUnrepeated ids) t.counts;
      drafts = close_unopened_drafts-open _ _ (
          sync_drafts-IsUnmounted get_flow _ _ "" _ (never_open _)
            (remove_drafts-IsUnmounted _ _ m.connections (t.drafts "" (never_open m.editors))));
    })
  ]
  run_call-IsTracked (releases id) m t = elim (Bool-cases (id == "")) [
    | inl e ↦ rw e t
    | inr e ↦ rw e (record {
      counts = drop_session-IsCounted id m.editors t.counts;
      drafts =
          close_unopened_drafts-open _ _
            (remove_drafts-IsUnmounted _ _ m.connections (t.drafts "" (never_open m.editors)));
    })
  ]

  run_calls-IsTracked :
      (calls : List (MqttCall c)) (m : Manager (Dsl c))
      → IsTracked m
      → IsTracked (run_calls c net calls m)
  unfolding run_calls
  run_calls-IsTracked [] m t = t
  run_calls-IsTracked (call ∷ calls) m t = run_calls-IsTracked calls _ (run_call-IsTracked call m t)

  -- After any calls of a new manager, failing or not, the count of each flow is the number of the
  -- sessions that have it open.
  pub run_calls-count_of :
      (calls : List (MqttCall c)) (id : String)
      → count_of id (run_calls c net calls new_manager).editors.open_count
        ≡ sessions_with id (run_calls c net calls new_manager).editors.sessions
  run_calls-count_of calls id =
      (run_calls-IsTracked calls new_manager new_manager-IsTracked).counts.counted id

  -- After any calls of a new manager, failing or not, a flow whose draft the tables list as mounted
  -- (byFlow has its draft's key) is open in the editor of some session.
  pub run_calls-draft_open :
      (calls : List (MqttCall c)) (id : String) (keys : List String)
      → lookup (flow_key draft id) (run_calls c net calls new_manager).connections.by_flow
        ≡ some keys
      → 0 < sessions_with id (run_calls c net calls new_manager).editors.sessions
  run_calls-draft_open calls id keys h =
      let m = run_calls c net calls new_manager in
      let t = run_calls-IsTracked calls new_manager new_manager-IsTracked in
      elim (Bool-cases (is_draft_open id m.editors)) [
        | inr q ↦ cc (t.drafts id q)
        | inl q ↦ ground (arith, count_positive id m.editors q, t.counts.counted id)
      ]
