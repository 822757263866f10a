-- ===== src/Api/World.antt =====
-- internal/api/middleware.go and response.go: what a handler works on. The entry points, the
-- execution cache and the hub are there. A refusal is the status of the answer; the texts of the
-- answers are left out. An unreadable body is `none`.
use flowgo_server.Prelude.{String, ◌==◌, not, List, ◌∷◌}
use flowgo_server.Prelude.Action.{Action, Outcome, returns, fails, ◌>>=◌, refuse_if}
use flowgo_server.Api.Sync.{EndpointSync}
use flowgo_server.Store.Docs.{
  StoreError, not_found, flow_locked, no_published, history_not_found, cannot_delete_live,
  no_publish_history, already_online, User, can_access_flow,
}
use flowgo_server.Store.Backend.{Backend, StoreDb}
use flowgo_server.Store.Exec.{M, Result, ok, err}
use flowgo_server.Store.Records.{Rec, Dsl}

-- The statuses of a refusal: 400, 403, 404, 409 and 500.
pub data Status : Type 0 where
  bad_request forbidden missing in_conflict internal_error : Status

-- engine.CacheTrackPublished, engine.CacheTrackDraft, or all of them
pub data CacheTrack : Type 0 where
  published_track draft_track every_track : CacheTrack

-- NotifyFlowChanged, by its first three arguments
pub record FlowChanged : Type 0 where
  pub action : String
  pub id : String
  pub name : String

-- The statuses of an error of the store.
unfoldable pub write_flow_store_err : StoreError → Status
write_flow_store_err not_found = missing
write_flow_store_err flow_locked = in_conflict
write_flow_store_err no_published = in_conflict
write_flow_store_err history_not_found = in_conflict
write_flow_store_err cannot_delete_live = in_conflict
write_flow_store_err no_publish_history = in_conflict
write_flow_store_err already_online = in_conflict
write_flow_store_err e = bad_request

module _ ⦃b : Backend⦄ where
  abbrev pub Entries : Type 1
  Entries = EndpointSync Dsl Rec

  module _ (e : Entries) where
    -- The database, the entry points, what the hub was told and which caches were dropped.
    pub record World : Type 0 where
      pub db : StoreDb b
      pub entries : e.State
      pub told : List FlowChanged
      pub dropped : List (String × CacheTrack)

    abbrev pub Handler : Type 0 → Type 0
    Handler A = Action World Status A

    abbrev pub to_outcome : {A : Type 0} → (StoreError → Status) → Result A → Outcome Status A
    to_outcome status (ok a) = returns a
    to_outcome status (err x) = fails (status x)

    -- A method of the store, its error as a status.
    unfoldable pub call : {A : Type 0} → (StoreError → Status) → M A → Handler A
    call status m w = (record w { db = (m w.db).0 }, to_outcome status (m w.db).1)

    -- s.Exec.InvalidateFlowTrack, or InvalidateFlow
    unfoldable pub invalidate : String → CacheTrack → Handler (Unit {0})
    invalidate id track w = (record w { dropped = (id, track) ∷ w.dropped }, returns tt)

    -- s.Hub.NotifyFlowChanged
    unfoldable pub notify : String → String → String → Handler (Unit {0})
    notify action id name w =
        (record w { told = record { action = action; id = id; name = name } ∷ w.told }, returns tt)

    -- s.Endpoints.CheckHTTPRoutes; a conflict is answered.
    unfoldable pub check_routes : String → Dsl → Handler (Unit {0})
    check_routes id dsl w = refuse_if (not (e.check_http_routes id dsl w.entries)) in_conflict w

    -- s.Endpoints.SyncFlow; an error is answered.
    unfoldable pub sync : Rec → Handler (Unit {0})
    sync rec w =
        let s = e.sync_flow rec w.entries in
        refuse_if (not s.1) bad_request (record w { entries = s.0 })

    -- s.Endpoints.SyncDraftIfOpen, its error dropped
    unfoldable pub sync_draft : Rec → Handler (Unit {0})
    sync_draft rec w = (record w { entries = e.sync_draft_if_open rec w.entries }, returns tt)

    unfoldable pub unload : String → Handler (Unit {0})
    unload id w = (record w { entries = e.remove_flow id w.entries }, returns tt)

    -- The tests that begin the handlers of a flow: its id, and the user's access.
    abbrev pub with_access : {A : Type 0} → User → String → Handler A → Handler A
    with_access user id handler = do
      u ← refuse_if (id == "") bad_request
      v ← refuse_if (not (can_access_flow user id)) forbidden
      handler
