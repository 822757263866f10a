-- ===== src/Store/Publish.antt =====
-- internal/store/flow_publish.go: publishing a draft, discarding it, rolling back, and the history.
use flowgo_server.Prelude.{
  ℕ, ◌+◌, String, ◌==◌, Bool, true, false, not, ◌&&◌, Option, none, some, List, [], ◌∷◌, ◌++◌, ltb,
  nat_eq, if◌then◌else◌, nonempty, select, trim_space,
}
use flowgo_server.Clover.{Entry}
use flowgo_server.Store.Docs.{
  FlowDoc, HistoryEntry, version_or_zero, flow_locked, no_published, history_not_found,
  cannot_delete_live, draft_empty, bad_json,
}
use flowgo_server.Store.Backend.{Backend}
use flowgo_server.Store.Exec.{M, or_err, ◌>>=◌, ◌>>◌, pure, lift, refuse_if, attempt, update_flow}
use flowgo_server.Store.Records.{Dsl, Rec, keep_last_history, read_history, parse_dsl}
use flowgo_server.Store.Flow.{first_flow, get_flow}

-- The current version as a history entry, with the note that the caller gives.
abbrev pub live_entry : FlowDoc → String → HistoryEntry
live_entry doc note = record {
  version = version_or_zero doc.published_version;
  note = note;
  published_at = doc.published_at;
  dsl_json = doc.published_json;
}

-- The note of a rollback: that of its target, trimmed, or "rollback".
unfoldable pub rollback_note : String → String
rollback_note note = if trim_space note == "" then "rollback" else trim_space note

-- The first history entry with the version.
unfoldable pub find_version : ℕ → List HistoryEntry → Option HistoryEntry
find_version v [] = none
find_version v (e ∷ es) = if nat_eq e.version v then some e else find_version v es

-- PublishHistoryItem
pub record HistoryItem (D : Type 0) : Type 0 where
  pub version : ℕ
  pub note : String
  pub published_at : String
  pub dsl : Option D

module _ ⦃b : Backend⦄ where
  -- PublishFlow: what is pushed onto the history, the note dropped.
  unfoldable pub publish_history : FlowDoc → List HistoryEntry
  publish_history doc =
      if doc.published_json == ""
      then read_history doc
      else keep_last_history (read_history doc ++ (live_entry doc "" ∷ []))

  abbrev pub publish_edit : FlowDoc → Dsl → String → String → FlowDoc → FlowDoc
  publish_edit doc draft hist now d = record d {
    name = draft.name;
    published_json = doc.dsl_json;
    published_at = now;
    published_version = some (version_or_zero doc.published_version + 1);
    history_json = hist;
    updated_at = now;
  }

  abbrev pub note_edit : String → FlowDoc → FlowDoc
  note_edit note d = record d { published_note = trim_space note }

  unfoldable pub publish_flow : String → String → String → M Rec
  publish_flow id note now = do
    (i, doc) ← first_flow id
    refuse_if doc.locked flow_locked
    refuse_if (trim_space doc.dsl_json == "") draft_empty
    draft ← lift (or_err (b.unmarshal_dsl doc.dsl_json) bad_json)
    hist ← lift (or_err (b.marshal_history (publish_history doc)) bad_json)
    update_flow i (publish_edit doc draft hist now)
    ignored ← attempt (update_flow i (note_edit note))
    get_flow id now

  abbrev pub discard_edit : FlowDoc → Dsl → String → FlowDoc → FlowDoc
  discard_edit doc dsl now d = record d {
    name = dsl.name;
    dsl_json = doc.published_json;
    updated_at = now;
  }

  unfoldable pub discard_draft : String → String → M Rec
  discard_draft id now = do
    (i, doc) ← first_flow id
    refuse_if doc.locked flow_locked
    refuse_if (doc.published_json == "") no_published
    dsl ← lift (or_err (b.unmarshal_dsl doc.published_json) bad_json)
    update_flow i (discard_edit doc dsl now)
    get_flow id now

  abbrev history_item : Bool → HistoryEntry → HistoryItem Dsl
  history_item include_dsl e = record {
    version = e.version;
    note = e.note;
    published_at = e.published_at;
    dsl = if include_dsl then parse_dsl e.dsl_json else none;
  }

  -- The loop of ListPublishHistory, from the newest entry to the oldest.
  unfoldable pub history_items : Bool → List HistoryEntry → List (HistoryItem Dsl)
  history_items include_dsl [] = []
  history_items include_dsl (e ∷ es) =
      history_items include_dsl es ++ (history_item include_dsl e ∷ [])

  -- The first item: the live version, where there is one.
  unfoldable pub live_items : Bool → Rec → FlowDoc → List (HistoryItem Dsl)
  live_items include_dsl rec doc = elim rec.published_dsl [
    | none ↦ []
    | some dsl ↦
        record {
          version = rec.published_version;
          note = doc.published_note;
          published_at = rec.published_at;
          dsl = if include_dsl then some dsl else none;
        }
        ∷ []
  ]

  unfoldable pub list_publish_history : String → Bool → String → M (List (HistoryItem Dsl) × Rec)
  list_publish_history id include_dsl now = do
    rec ← get_flow id now
    (i, doc) ← first_flow id
    pure (live_items include_dsl rec doc ++ history_items include_dsl (read_history doc), rec)

  -- RollbackPublish: the live version is pushed onto the history with its note.
  unfoldable pub rollback_history : FlowDoc → List HistoryEntry
  rollback_history doc =
      if nonempty doc.published_json && ltb 0 (version_or_zero doc.published_version)
      then keep_last_history (read_history doc ++ (live_entry doc doc.published_note ∷ []))
      else read_history doc

  abbrev pub rollback_edit : FlowDoc → HistoryEntry → String → String → FlowDoc → FlowDoc
  rollback_edit doc target hist now d = record d {
    published_json = target.dsl_json;
    published_at = now;
    published_version = some (version_or_zero doc.published_version + 1);
    published_note = rollback_note target.note;
    history_json = hist;
    updated_at = now;
  }

  -- `targetJSON == ""` after the loop: no entry has the version, or its text is empty.
  unfoldable pub rollback_target : ℕ → FlowDoc → Option HistoryEntry
  rollback_target version doc = elim (find_version version (read_history doc)) [
    | none ↦ none
    | some e ↦ if e.dsl_json == "" then none else some e
  ]

  -- The rest of RollbackPublish, where the version is not the live one.
  unfoldable pub rollback_to : String → Entry FlowDoc → ℕ → String → M Rec
  rollback_to id (i, doc) version now = do
    target ← lift (or_err (rollback_target version doc) history_not_found)
    hist ← lift (or_err (b.marshal_history (rollback_history doc)) bad_json)
    rolled ← lift (or_err (b.unmarshal_dsl target.dsl_json) bad_json)
    update_flow i (rollback_edit doc target hist now)
    get_flow id now

  unfoldable pub rollback_publish : String → ℕ → String → M Rec
  rollback_publish id version now = do
    (i, doc) ← first_flow id
    refuse_if doc.locked flow_locked
    if nat_eq version (version_or_zero doc.published_version)
        then get_flow id now
        else rollback_to id (i, doc) version now

  -- The history without the entries of a version.
  abbrev pub without_version : ℕ → List HistoryEntry → List HistoryEntry
  without_version v = select (λ e. not (nat_eq e.version v))

  abbrev pub history_edit : String → String → FlowDoc → FlowDoc
  history_edit hist now d = record d { history_json = hist; updated_at = now }

  abbrev pub missing_version : Option HistoryEntry → Bool
  missing_version none = true
  missing_version (some e) = false

  unfoldable pub delete_publish_history : String → ℕ → String → M Rec
  delete_publish_history id version now = do
    (i, doc) ← first_flow id
    refuse_if doc.locked flow_locked
    refuse_if (nat_eq version 0) history_not_found
    refuse_if (nat_eq version (version_or_zero doc.published_version)) cannot_delete_live
    refuse_if (missing_version (find_version version (read_history doc))) history_not_found
    hist ← lift (or_err (b.marshal_history (without_version version (read_history doc))) bad_json)
    update_flow i (history_edit hist now)
    get_flow id now
