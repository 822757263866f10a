-- ===== src/Api/Flows.antt =====
-- internal/api/flow_handlers.go: the handlers that list, read, save, delete, restore and lock flows.
use flowgo_server.Prelude.{
  String, ◌==◌, Bool, true, false, not, ◌||◌, Option, none, some, List, [], ◌∷◌, ◌++◌,
  if◌then◌else◌, contains,
}
use flowgo_server.Prelude.Action.{returns, ◌>>=◌, pure, refuse_if, require}
use flowgo_server.Types.{FlowDsl}
use flowgo_server.Store.Docs.{
  User, role_admin, can_access_flow, StoreError, not_found, flow_locked, unlock_failed,
  not_in_trash,
}
use flowgo_server.Store.Backend.{Backend}
use flowgo_server.Store.Exec.{M, Result, ok, err}
use flowgo_server.Store.Records.{Rec, Dsl}
use flowgo_server.Store.Flow.{get_flow, list_flows, save_flow, set_flow_locked}
use flowgo_server.Store.Trash.{SoftDeleteResult, soft_delete_or_purge_flow, restore_flow}
use flowgo_server.Store.User.{update_user_flows}
use flowgo_server.Api.World.{
  Entries, Handler, Status, call, invalidate, notify, sync_draft, unload, with_access, bad_request,
  forbidden, missing, in_conflict, internal_error, draft_track, every_track,
}
use flowgo_server.Api.Publishing.{after_offline}

abbrev list_status : StoreError → Status
list_status e = internal_error

unfoldable pub get_status : StoreError → Status
get_status not_found = missing
get_status e = internal_error

unfoldable pub save_status : StoreError → Status
save_status flow_locked = in_conflict
save_status e = bad_request

unfoldable pub delete_status : StoreError → Status
delete_status not_found = missing
delete_status flow_locked = in_conflict
delete_status e = internal_error

unfoldable pub restore_status : StoreError → Status
restore_status not_found = missing
restore_status flow_locked = in_conflict
restore_status not_in_trash = bad_request
restore_status e = internal_error

unfoldable pub lock_status : StoreError → Status
lock_status not_found = missing
lock_status unlock_failed = forbidden
lock_status e = bad_request

-- `if dsl.ID == "" { dsl.ID = types.NewID() }`
abbrev with_new_id : {C : Type 0} → FlowDsl C → String → FlowDsl C
with_new_id dsl new_id = if dsl.id == "" then record dsl { id = new_id } else dsl

module _ ⦃b : Backend⦄ (e : Entries) where
  -- HandleListFlows
  unfoldable pub handle_list_flows : User → String → Handler e (List Rec)
  handle_list_flows user now = call e list_status (list_flows (some user) now)

  -- HandleGetFlow
  unfoldable pub handle_get_flow : User → String → String → Handler e Rec
  handle_get_flow user id now = with_access e user id (call e get_status (get_flow id now))

  abbrev value_or_none : {A : Type 0} → Result A → Option A
  value_or_none (ok a) = some a
  value_or_none (err x) = none

  -- A method of the store whose error is not answered.
  unfoldable pub tried : {A : Type 0} → M A → Handler e (Option A)
  tried m w = (record w { db = (m w.db).0 }, returns (value_or_none (m w.db).1))

  -- The tests of HandleSaveFlow on the flow that is there, if it could be read.
  unfoldable pub may_save : User → String → Option Rec → Handler e (Unit {0})
  may_save user id none = pure tt
  may_save user id (some existing) = do
    u ← refuse_if (not (can_access_flow user id)) forbidden
    refuse_if existing.locked in_conflict

  -- A user who is no administrator gets the flow among his own.
  unfoldable pub grant : User → String → Handler e (Unit {0})
  grant user id =
      if user.role == role_admin || contains user.flow_ids id
      then pure tt
      else tried (update_user_flows user.id (user.flow_ids ++ (id ∷ []))) >>= λ u. pure tt

  unfoldable pub save : User → Dsl → String → Handler e Rec
  save user dsl now = do
    existing ← tried (get_flow dsl.id now)
    u ← may_save user dsl.id existing
    rec ← call e save_status (save_flow user.id dsl now)
    v ← grant user dsl.id
    w ← invalidate e rec.id draft_track
    x ← sync_draft e rec
    y ← notify e "saved" rec.id rec.name
    pure rec

  -- HandleSaveFlow: `new_id` is the id for a graph that has none.
  unfoldable pub handle_save_flow : User → Option Dsl → String → String → Handler e Rec
  handle_save_flow user body new_id now = do
    dsl ← require body bad_request
    save user (with_new_id dsl new_id) now

  -- A flow that was live goes off line. The store gives its record then.
  unfoldable pub offline_if : Bool → Option Rec → Handler e (Unit {0})
  offline_if true (some rec) = after_offline e rec
  offline_if true none = pure tt
  offline_if false o = pure tt

  abbrev name_or_empty : Option Rec → String
  name_or_empty none = ""
  name_or_empty (some rec) = rec.name

  -- HandleDeleteFlow after the call of the store
  unfoldable pub deleted : String → SoftDeleteResult Rec → Handler e (SoftDeleteResult Rec)
  deleted id result =
      if result.purged
      then (do
        u ← unload e id
        v ← invalidate e id every_track
        w ← notify e "deleted" id ""
        pure result)
      else (do
        u ← offline_if result.was_published result.flow
        v ← notify e "trashed" id (name_or_empty result.flow)
        pure result)

  unfoldable pub soft_delete : String → String → Handler e (SoftDeleteResult Rec)
  soft_delete id now = do
    result ← call e delete_status (soft_delete_or_purge_flow id now)
    deleted id result

  unfoldable pub handle_delete_flow : User → String → String → Handler e (SoftDeleteResult Rec)
  handle_delete_flow user id now = with_access e user id (soft_delete id now)

  -- HandleRestoreFlow
  unfoldable pub restore : String → String → Handler e Rec
  restore id now = do
    rec ← call e restore_status (restore_flow id now)
    u ← notify e "restored" rec.id rec.name
    pure rec

  unfoldable pub handle_restore_flow : User → String → String → Handler e Rec
  handle_restore_flow user id now = with_access e user id (restore id now)

  -- HandleSetFlowLocked
  unfoldable pub set_lock : String → Option (Bool × String) → String → Handler e Rec
  set_lock id body now = do
    (locked, password) ← require body bad_request
    rec ← call e lock_status (set_flow_locked id locked password now)
    u ← notify e "lock" rec.id rec.name
    pure rec

  unfoldable pub handle_set_flow_locked :
      User → String → Option (Bool × String) → String → Handler e Rec
  handle_set_flow_locked user id body now = with_access e user id (set_lock id body now)
