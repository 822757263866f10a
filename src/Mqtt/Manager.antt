-- ===== src/Mqtt/Manager.antt =====
-- internal/mqttendpoint/manager.go and draft_session.go: the calls of the manager. Calls follow one
-- another here. What a call logs is left out.
use flowgo_server.Prelude.{
  String, ◌==◌, Option, none, some, List, [], ◌∷◌, if◌then◌else◌, is_some, GoMap,
}
use flowgo_server.Mqtt.Config.{Iot, Network}
use flowgo_server.Mqtt.Helpers.{draft, cut_draft}
use flowgo_server.Mqtt.Connections.{Connections, no_connections, remove_track}
use flowgo_server.Mqtt.Adding.{Dsl}
use flowgo_server.Mqtt.Sync.{Flow, sync_flow, sync_draft}
use flowgo_server.Mqtt.Sessions.{
  Editors, no_editors, opened_by, unique_nonempty, set_open, to_close, to_open, drop_session, gone,
  is_draft_open,
}

-- Manager
pub record Manager (D : Type 0) : Type 0 where
  pub connections : Connections D
  pub editors : Editors

abbrev pub new_manager : {D : Type 0} → Manager D
new_manager = record { connections = no_connections; editors = no_editors }

-- The flows of the draft track: the keys of byFlow with its prefix.
unfoldable pub draft_ids : GoMap (List String) → List String
draft_ids [] = []
draft_ids ((fk, keys) ∷ m) = elim (cut_draft fk) [ none ↦ draft_ids m | some id ↦ id ∷ draft_ids m ]

module _ {D : Type 0} where
  unfoldable pub close_unopened : Editors → List String → Connections D → Connections D
  close_unopened e [] m = m
  close_unopened e (id ∷ ids) m =
      close_unopened e ids (if is_draft_open id e then m else remove_track draft id m)

  -- closeUnopenedDrafts
  unfoldable pub close_unopened_drafts : Editors → Connections D → Connections D
  close_unopened_drafts e m = close_unopened e (draft_ids m.by_flow) m

  unfoldable pub remove_drafts : List String → Connections D → Connections D
  remove_drafts [] m = m
  remove_drafts (id ∷ ids) m = remove_drafts ids (remove_track draft id m)

module _ (c : Iot) (net : Network c.Settings) where
  -- The loop over toOpen, with syncDraftByID: `get_flow` is what Store.GetFlow returns, or nothing.
  unfoldable pub sync_drafts :
      (String → Option (Flow (Dsl c)))
      → Editors
      → List String
      → Connections (Dsl c)
      → Connections (Dsl c)
  sync_drafts get_flow e [] m = m
  sync_drafts get_flow e (id ∷ ids) m =
      sync_drafts get_flow e ids
        (elim (get_flow id) [ none ↦ m | some rec ↦ (sync_draft c net e rec m).0 ])

  -- UpdateSessionOpenFlows
  unfoldable pub update_session_open_flows :
      (String → Option (Flow (Dsl c))) → String → List String → Manager (Dsl c) → Manager (Dsl c)
  update_session_open_flows get_flow session_id open_ids m =
      if session_id == ""
      then m
      else let wanted = unique_nonempty open_ids in
        let old = opened_by session_id m.editors.sessions in
        let e = set_open session_id wanted m.editors in
        record {
          editors = e;
          connections = close_unopened_drafts e (
              sync_drafts get_flow e (to_open old wanted e.open_count)
                (remove_drafts (to_close old wanted e.open_count) m.connections));
        }

  -- ReleaseSession
  unfoldable pub release_session : String → Manager (Dsl c) → Manager (Dsl c)
  release_session session_id m =
      if session_id == ""
      then m
      else let e = drop_session session_id m.editors in
        record {
          editors = e;
          connections = close_unopened_drafts e (
              remove_drafts (gone (opened_by session_id m.editors.sessions) m.editors.open_count)
                m.connections);
        }

  -- The loop of StartAll over the published flows.
  unfoldable pub sync_flows : List (Flow (Dsl c)) → Connections (Dsl c) → Connections (Dsl c)
  sync_flows [] m = m
  sync_flows (rec ∷ list) m =
      sync_flows list (if is_some rec.published_dsl then (sync_flow c net rec m).0 else m)

  -- StartAll, with what ListFlows returns: nothing if it fails.
  unfoldable pub start_all : Option (List (Flow (Dsl c))) → Manager (Dsl c) → Manager (Dsl c)
  start_all none m = m
  start_all (some list) m = record m {
    connections = close_unopened_drafts m.editors (sync_flows list m.connections);
  }
