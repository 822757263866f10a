-- ===== src/Api/Publishing.antt =====
-- internal/api/flow_publish.go: the handlers of publishing. `now` is the time of the request.
use flowgo_server.Prelude.{
  ℕ, String, Bool, true, Option, none, some, List, [], ◌∷◌, if◌then◌else◌, nat_eq,
}
use flowgo_server.Prelude.Action.{◌>>=◌, pure, refuse_if, require}
use flowgo_server.Store.Docs.{User}
use flowgo_server.Store.Backend.{Backend}
use flowgo_server.Store.Records.{Rec, Dsl}
use flowgo_server.Store.Flow.{get_flow}
use flowgo_server.Store.Publish.{
  HistoryItem, publish_flow, discard_draft, list_publish_history, rollback_publish,
  delete_publish_history,
}
use flowgo_server.Store.Online.{unpublish_flow, go_online_from_latest, peek_latest_publish_dsl}
use flowgo_server.Api.World.{
  Entries, Handler, call, invalidate, notify, check_routes, sync, sync_draft, with_access,
  write_flow_store_err, bad_request, in_conflict, published_track, draft_track,
}

-- The loop over the history that stops at the version.
unfoldable pub find_item : {D : Type 0} → ℕ → List (HistoryItem D) → Option (HistoryItem D)
find_item version [] = none
find_item version (h ∷ hist) = if nat_eq h.version version then some h else find_item version hist

abbrev pub item_dsl : {D : Type 0} → Option (HistoryItem D) → Option D
item_dsl none = none
item_dsl (some h) = h.dsl

-- `err != nil || version <= 0`, as the version that is left
unfoldable pub positive : Option ℕ → Option ℕ
positive none = none
positive (some n) = if nat_eq n 0 then none else some n

module _ ⦃b : Backend⦄ (e : Entries) where
  -- afterPublish
  unfoldable pub after_publish : Rec → Handler e (Unit {0})
  after_publish rec = do
    u ← sync e rec
    v ← invalidate e rec.id published_track
    notify e "published" rec.id rec.name

  -- afterOffline
  unfoldable pub after_offline : Rec → Handler e (Unit {0})
  after_offline rec = do
    u ← sync e rec
    v ← sync_draft e rec
    w ← invalidate e rec.id published_track
    notify e "offline" rec.id rec.name

  -- The flow, which is not locked.
  unfoldable pub unlocked : String → String → Handler e Rec
  unlocked id now = do
    rec ← call e write_flow_store_err (get_flow id now)
    u ← refuse_if rec.locked in_conflict
    pure rec

  -- HandlePublishFlow, after the tests of access
  unfoldable pub publish : String → String → String → Handler e Rec
  publish id note now = do
    rec ← unlocked id now
    dsl ← require rec.dsl bad_request
    u ← check_routes e id dsl
    out ← call e write_flow_store_err (publish_flow id note now)
    v ← after_publish out
    pure out

  unfoldable pub handle_publish_flow : User → String → String → String → Handler e Rec
  handle_publish_flow user id note now = with_access e user id (publish id note now)

  -- HandleUnpublishFlow
  unfoldable pub unpublish : String → String → Handler e Rec
  unpublish id now = do
    rec ← unlocked id now
    out ← call e write_flow_store_err (unpublish_flow id now)
    v ← after_offline out
    pure out

  unfoldable pub handle_unpublish_flow : User → String → String → Handler e Rec
  handle_unpublish_flow user id now = with_access e user id (unpublish id now)

  -- HandleGoOnlineFlow
  unfoldable pub go_online : String → String → Handler e Rec
  go_online id now = do
    rec ← unlocked id now
    u ← refuse_if rec.published in_conflict
    peek ← call e write_flow_store_err (peek_latest_publish_dsl id)
    v ← check_routes e id peek
    out ← call e write_flow_store_err (go_online_from_latest id now)
    w ← after_publish out
    pure out

  unfoldable pub handle_go_online_flow : User → String → String → Handler e Rec
  handle_go_online_flow user id now = with_access e user id (go_online id now)

  -- HandleDiscardDraft
  unfoldable pub discard : String → String → Handler e Rec
  discard id now = do
    rec ← call e write_flow_store_err (discard_draft id now)
    u ← invalidate e id draft_track
    v ← notify e "discard-draft" rec.id rec.name
    pure rec

  unfoldable pub handle_discard_draft : User → String → String → Handler e Rec
  handle_discard_draft user id now = with_access e user id (discard id now)

  -- HandleListPublishHistory
  unfoldable pub handle_list_publish_history :
      User → String → Bool → String → Handler e (List (HistoryItem Dsl) × Rec)
  handle_list_publish_history user id include_dsl now =
      with_access e user id (call e write_flow_store_err (list_publish_history id include_dsl now))

  -- HandleRollbackPublish
  unfoldable pub rollback : String → Option ℕ → String → Handler e Rec
  rollback id body now = do
    version ← require (positive body) bad_request
    rec ← unlocked id now
    (hist, rec') ← call e write_flow_store_err (list_publish_history id true now)
    dsl ← require (item_dsl (find_item version hist)) in_conflict
    u ← check_routes e id dsl
    out ← call e write_flow_store_err (rollback_publish id version now)
    v ← after_publish out
    pure out

  unfoldable pub handle_rollback_publish : User → String → Option ℕ → String → Handler e Rec
  handle_rollback_publish user id body now = with_access e user id (rollback id body now)

  -- HandleDeletePublishHistory. The route gives a version that is not the empty text: `none` is one
  -- that is no number above zero.
  unfoldable pub delete_version : String → Option ℕ → String → Handler e Rec
  delete_version id ver now = do
    version ← require (positive ver) bad_request
    rec ← call e write_flow_store_err (delete_publish_history id version now)
    u ← notify e "history-deleted" rec.id rec.name
    pure rec

  unfoldable pub handle_delete_publish_history : User → String → Option ℕ → String → Handler e Rec
  handle_delete_publish_history user id ver now = with_access e user id (delete_version id ver now)
