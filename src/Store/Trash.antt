-- ===== src/Store/Trash.antt =====
-- internal/store/flow_trash.go: deleting a flow into the trash, restoring it, and purging it.
use flowgo_server.Prelude.{String, ◌==◌, Bool, true, false, Option, none, some, if◌then◌else◌}
use flowgo_server.Store.Docs.{FlowDoc, trash_group_id, flow_locked, not_in_trash, no_published}
use flowgo_server.Store.Backend.{Backend}
use flowgo_server.Store.Exec.{
  M, Result, ok, err, ◌>>=◌, ◌>>◌, pure, raise, refuse_if, attempt, update_flow, delete_flow_doc,
}
use flowgo_server.Store.Records.{Rec}
use flowgo_server.Store.Flow.{first_flow, get_flow, require_group}
use flowgo_server.Store.Online.{unpublish_flow}

-- SoftDeleteResult
pub record SoftDeleteResult (R : Type 0) : Type 0 where
  pub flow : Option R
  pub was_published : Bool
  pub purged : Bool

-- `if prev == TrashGroupID { prev = "" }`
unfoldable pub not_trash : String → String
not_trash id = if id == trash_group_id then "" else id

module _ ⦃b : Backend⦄ where
  -- purgeFlowUnlocked
  unfoldable pub purge_flow_unlocked : String → M (Unit {0})
  purge_flow_unlocked id = do (i, doc) ← first_flow id; delete_flow_doc i

  -- `err != nil && !errors.Is(err, ErrNoPublished)`
  unfoldable pub unless_no_published : Result Rec → M (Unit {0})
  unless_no_published (ok rec) = pure tt
  unless_no_published (err no_published) = pure tt
  unless_no_published (err e) = raise e

  unfoldable pub unpublish_if : Bool → String → String → M (Unit {0})
  unpublish_if published id now =
      if published then (do r ← attempt (unpublish_flow id now); unless_no_published r) else pure tt

  abbrev pub trash_edit : String → String → FlowDoc → FlowDoc
  trash_edit prev now d = record d {
    group_id = trash_group_id;
    previous_group_id = prev;
    updated_at = now;
  }

  -- SoftDeleteOrPurgeFlow on a flow outside the trash, after the guards.
  unfoldable pub move_to_trash : Rec → String → String → M (SoftDeleteResult Rec)
  move_to_trash rec id now = do
    unpublish_if rec.published id now
    (i, doc) ← first_flow id
    update_flow i (trash_edit (not_trash rec.group_id) now)
    out ← get_flow id now
    pure (record { flow = some out; was_published = rec.published; purged = false })

  unfoldable pub soft_delete_or_purge_flow : String → String → M (SoftDeleteResult Rec)
  soft_delete_or_purge_flow id now = do
    rec ← get_flow id now
    refuse_if rec.locked flow_locked
    if rec.group_id == trash_group_id
        then (do
          purge_flow_unlocked id
          pure (record { flow = none; was_published = false; purged = true }))
        else move_to_trash rec id now

  -- The group to restore to: none, where GetGroup fails on it.
  unfoldable pub existing_or_none : String → Result (Unit {0}) → String
  existing_or_none prev (ok u) = prev
  existing_or_none prev (err e) = ""

  abbrev pub restore_edit : String → String → FlowDoc → FlowDoc
  restore_edit prev now d = record d { group_id = prev; previous_group_id = ""; updated_at = now }

  unfoldable pub restore_flow : String → String → M Rec
  restore_flow id now = do
    rec ← get_flow id now
    refuse_if rec.locked flow_locked
    if rec.group_id == trash_group_id
        then (do
          checked ← attempt (require_group (not_trash rec.previous_group_id))
          (i, doc) ← first_flow id
          update_flow i
              (restore_edit (existing_or_none (not_trash rec.previous_group_id) checked) now)
          get_flow id now)
        else raise not_in_trash
