-- ===== src/Store/Online.antt =====
-- internal/store/flow_online.go: taking a flow off line and bringing its last version back.
use flowgo_server.Prelude.{
  String, ◌==◌, Option, none, some, List, [], ◌∷◌, ◌++◌, if◌then◌else◌, nonempty,
}
use flowgo_server.Store.Docs.{
  FlowDoc, HistoryEntry, flow_locked, no_published, no_publish_history, already_online, bad_json,
}
use flowgo_server.Store.Backend.{Backend}
use flowgo_server.Store.Exec.{M, or_err, ◌>>=◌, ◌>>◌, lift, refuse_if, update_flow}
use flowgo_server.Store.Records.{Dsl, Rec, keep_last_history, read_history}
use flowgo_server.Store.Flow.{first_flow, get_flow}
use flowgo_server.Store.Publish.{live_entry}

-- hist[:len(hist)-1] and hist[len(hist)-1]
unfoldable pub split_last : List HistoryEntry → Option (List HistoryEntry × HistoryEntry)
split_last [] = none
split_last (e ∷ es) = elim (split_last es) [
  | none ↦ some ([], e)
  | some (front, last) ↦ some (e ∷ front, last)
]

module _ ⦃b : Backend⦄ where
  unfoldable pub offline_history : FlowDoc → List HistoryEntry
  offline_history doc =
      keep_last_history (read_history doc ++ (live_entry doc doc.published_note ∷ []))

  abbrev pub offline_edit : String → String → FlowDoc → FlowDoc
  offline_edit hist now d = record d {
    published_json = "";
    published_at = "";
    published_note = "";
    published_version = some 0;
    history_json = hist;
    updated_at = now;
  }

  unfoldable pub unpublish_flow : String → String → M Rec
  unpublish_flow id now = do
    (i, doc) ← first_flow id
    refuse_if doc.locked flow_locked
    refuse_if (doc.published_json == "") no_published
    hist ← lift (or_err (b.marshal_history (offline_history doc)) bad_json)
    update_flow i (offline_edit hist now)
    get_flow id now

  abbrev pub online_edit : HistoryEntry → String → String → FlowDoc → FlowDoc
  online_edit last hist now d = record d {
    published_json = last.dsl_json;
    published_at = if last.published_at == "" then now else last.published_at;
    published_note = last.note;
    published_version = some last.version;
    history_json = hist;
    updated_at = now;
  }

  unfoldable pub go_online_from_latest : String → String → M Rec
  go_online_from_latest id now = do
    (i, doc) ← first_flow id
    refuse_if doc.locked flow_locked
    refuse_if (nonempty doc.published_json) already_online
    (front, last) ← lift (or_err (split_last (read_history doc)) no_publish_history)
    hist ← lift (or_err (b.marshal_history front) bad_json)
    dsl ← lift (or_err (b.unmarshal_dsl last.dsl_json) bad_json)
    update_flow i (online_edit last hist now)
    get_flow id now

  unfoldable pub peek_latest_publish_dsl : String → M Dsl
  peek_latest_publish_dsl id = do
    (i, doc) ← first_flow id
    (front, last) ← lift (or_err (split_last (read_history doc)) no_publish_history)
    lift (or_err (b.unmarshal_dsl last.dsl_json) bad_json)
