-- ===== src/Store/Tests.antt =====
-- The store run on a flow that is live as version 1, with a different draft.
mod Collections
use flowgo_server.Prelude.{
  ◌≡◌, refl, ◌==◌, true, false, some, [], ◌∷◌, arith, trim_space, if◌then◌else◌, nonempty, ltb,
  ◌&&◌,
}
use flowgo_server.Store.Docs.{FlowDoc, HistoryEntry, StoreError, version_or_zero}
use flowgo_server.Store.Backend.{StoreDb}
use flowgo_server.Store.Exec.{
  Result, ok, err, ◌>>=◌, pure, lift, refuse_if, attempt, find_flows, update_flow, first_doc,
}
use flowgo_server.Store.Exec.Keeps.{AllFlows}
use flowgo_server.Store.Records.{
  Rec, flow_from_doc, apply_publish_status, parse_dsl, unpublished_changes_of, fingerprints_differ,
  read_history, parse_history, keep_last_history, hash_lock_password,
}
use flowgo_server.Store.Flow.{
  first_flow, get_flow, migrate_legacy_published, is_legacy, set_flow_locked, unlock_edit,
  wrong_password,
}
use flowgo_server.Store.Publish.{
  discard_draft, discard_edit, publish_flow, publish_history, rollback_publish, rollback_to,
  rollback_target, rollback_history, rollback_note, find_version,
}
use flowgo_server.Store.Online.{unpublish_flow, go_online_from_latest, offline_history, split_last}
use flowgo_server.Store.Ops.{unpublishes, goes_online, publishes, soft_deletes, run_op, run_ops}
use flowgo_server.Store.WellFormed.{IsWellFormed}
use flowgo_server.Store.Preservation.Histories.{run_ops-IsWellFormed}
use flowgo_server.Store.Spec.{Edited, FirstIs}
use flowgo_server.Store.Spec.Publishing.{
  IsLive, IsFirstOf, pushed, discard_draft-live, publish_flow-IsLive, rollback_publish-IsLive,
}
use flowgo_server.Store.Spec.Online.{
  SameLive, go_online-unpublish, publish-unpublish_version, rollback-publish-unpublish,
}
use flowgo_server.Store.Spec.Locking.{run_op-locked, unlock-lock}
use flowgo_server.Store.Trash.{
  soft_delete_or_purge_flow, move_to_trash, unpublish_if, not_trash, restore_flow, existing_or_none,
  restore_edit,
}
use flowgo_server.Store.Spec.Trashing.{surviving_group, restore_flow-soft_delete}
use flowgo_server.Store.Flow.{require_group}
use flowgo_server.Store.Exec.{raise, find_groups}
use flowgo_server.Prelude.{String, ◌⊎◌, List}
use flowgo_server.Store.Sample.{sample, bare_dsl}
use mathlib.Core.List.{Perm}
use flowgo_server.Clover.{Entry}
use flowgo_server.Store.Docs.{GroupDoc}
use flowgo_server.Store.Group.{group_from_doc, group_less, sink, sort_from, list_groups}
use flowgo_server.Store.GroupOrder.{TextOrder, IsOrdered, list_groups-IsOrdered}
use flowgo_server.Prelude.{ℕ, Bool, not, ◌&&◌, map}
use flowgo_server.Store.Usernames.{named, HasUniqueNames}
use flowgo_server.Store.UserCalls.{
  UserOp, creates, ensures_admin, run_user_ops, run_user_ops-HasUniqueNames,
}

-- A live flow, locked or not.
abbrev live_doc : FlowDoc
live_doc = record {
  flow_id = "f";
  name = "draft";
  owner_id = "u";
  group_id = "g";
  previous_group_id = "";
  locked = false;
  lock_password_hash = "";
  dsl_json = "{draft}";
  published_json = "{live}";
  published_at = "t0";
  published_note = "first";
  published_version = some 1;
  history_json = "[]";
  created_at = "t0";
  updated_at = "t0";
}

abbrev db_of : FlowDoc → StoreDb sample
db_of doc = record { flows = ("d", doc) ∷ []; groups = []; users = [] }

-- The record of a call that succeeds.
abbrev rec_of : {A : Type 0} → A → Result A → A
rec_of a (ok r) = r
rec_of a (err e) = a

abbrev live_rec : Rec ⦃b = sample⦄
live_rec = record {
  id = "f";
  name = "draft";
  owner_id = "u";
  group_id = "g";
  previous_group_id = "";
  locked = false;
  has_lock_password = false;
  dsl = some (bare_dsl "draft");
  published_dsl = some (bare_dsl "live");
  published = true;
  unpublished_changes = true;
  has_publish_history = false;
  published_at = "t0";
  published_version = 1;
  updated_at = "t0";
  created_at = "t0";
}

live_doc-IsWellFormed : IsWellFormed ⦃b = sample⦄ live_doc
unfolding parse_history trim_space version_or_zero
live_doc-IsWellFormed = record { history = (omega arith, tt); live = (λ h. omega arith, λ h. cc) }

run_ops-IsWellFormed_example : AllFlows ⦃b = sample⦄ (IsWellFormed ⦃b = sample⦄) (
    run_ops ⦃b = sample⦄
      ((unpublishes "f", "t1") ∷ (goes_online "f", "t2") ∷ (publishes "f" "n", "t3") ∷ [])
      (db_of live_doc))
run_ops-IsWellFormed_example =
    run_ops-IsWellFormed ⦃b = sample⦄
      ((unpublishes "f", "t1") ∷ (goes_online "f", "t2") ∷ (publishes "f" "n", "t3") ∷ [])
      (db_of live_doc) (live_doc-IsWellFormed, tt)

-- The flow off line, the version that was live in its history.
abbrev off_doc : FlowDoc
off_doc = record live_doc {
  published_json = "";
  published_version = some 0;
  history_json = "[first]";
}

discard_draft-live_example :
    let r =
      flow_from_doc ⦃b = sample⦄
        (discard_edit ⦃b = sample⦄ live_doc (bare_dsl "live") "t1" live_doc) in
    (r.dsl ≡ some (bare_dsl "live"))
    × (r.published_dsl ≡ some (bare_dsl "live"))
    × (r.unpublished_changes ≡ false)
    × Edited ⦃b = sample⦄
        (db_of live_doc)
        "d"
        (discard_edit ⦃b = sample⦄ live_doc (bare_dsl "live") "t1")
        (discard_draft ⦃b = sample⦄ "f" "t1" (db_of live_doc)).0
unfolding first_flow find_flows first_doc ◌>>=◌ refuse_if lift pure update_flow get_flow attempt
    migrate_legacy_published is_legacy flow_from_doc apply_publish_status parse_dsl version_or_zero
    unpublished_changes_of fingerprints_differ parse_history trim_space keep_last_history
    discard_draft
discard_draft-live_example =
    discard_draft-live ⦃b = sample⦄ "f" "d" "t1" live_doc (bare_dsl "live") "live" (db_of live_doc)
      _ _ refl refl refl refl refl refl

publish_flow-IsLive_example :
    let done = publish_flow ⦃b = sample⦄ "f" "n" "t1" (db_of off_doc) in
    (doc' : FlowDoc) × FirstIs ⦃b = sample⦄ done.0 "f" "d" doc'
    × IsLive ⦃b = sample⦄ off_doc doc' "{draft}" (
        if off_doc.published_json == ""
        then read_history ⦃b = sample⦄ off_doc
        else pushed ⦃b = sample⦄ off_doc "")
    × (rec_of live_rec done.1 ≡ flow_from_doc ⦃b = sample⦄ doc')
unfolding first_flow find_flows first_doc ◌>>=◌ refuse_if lift pure update_flow get_flow attempt
    migrate_legacy_published is_legacy flow_from_doc apply_publish_status parse_dsl version_or_zero
    unpublished_changes_of fingerprints_differ parse_history trim_space keep_last_history
    publish_flow publish_history
publish_flow-IsLive_example =
    publish_flow-IsLive ⦃b = sample⦄ "f" "d" "n" "t1" off_doc (db_of off_doc) _ _ refl refl

rollback_publish-IsLive_example :
    let done = rollback_publish ⦃b = sample⦄ "f" 1 "t1" (db_of off_doc) in
    (target : HistoryEntry) × IsFirstOf ⦃b = sample⦄ 1 (read_history ⦃b = sample⦄ off_doc) target
    × (doc' : FlowDoc) × FirstIs ⦃b = sample⦄ done.0 "f" "d" doc'
    × IsLive ⦃b = sample⦄ off_doc doc' target.dsl_json (
        if nonempty off_doc.published_json && ltb 0 (version_or_zero off_doc.published_version)
        then pushed ⦃b = sample⦄ off_doc off_doc.published_note
        else read_history ⦃b = sample⦄ off_doc)
    × (rec_of live_rec done.1 ≡ flow_from_doc ⦃b = sample⦄ doc')
unfolding first_flow find_flows first_doc ◌>>=◌ refuse_if lift pure update_flow get_flow attempt
    migrate_legacy_published is_legacy flow_from_doc apply_publish_status parse_dsl version_or_zero
    unpublished_changes_of fingerprints_differ parse_history trim_space keep_last_history
    rollback_publish rollback_to rollback_target find_version rollback_history rollback_note
rollback_publish-IsLive_example =
    rollback_publish-IsLive ⦃b = sample⦄ "f" "d" "t1" 1 off_doc (db_of off_doc) _ _ refl refl refl

go_online-unpublish_example :
    (doc' : FlowDoc) × FirstIs ⦃b = sample⦄
      (go_online_from_latest ⦃b = sample⦄ "f" "t2"
        (unpublish_flow ⦃b = sample⦄ "f" "t1" (db_of live_doc)).0).0
      "f"
      "d"
      doc'
    × SameLive ⦃b = sample⦄ live_doc doc'
unfolding first_flow find_flows first_doc ◌>>=◌ refuse_if lift pure update_flow get_flow attempt
    migrate_legacy_published is_legacy flow_from_doc apply_publish_status parse_dsl version_or_zero
    unpublished_changes_of fingerprints_differ parse_history trim_space keep_last_history
    unpublish_flow offline_history go_online_from_latest split_last
go_online-unpublish_example =
    go_online-unpublish ⦃b = sample⦄ "f" "d" "t1" "t2" live_doc (db_of live_doc) _ _ _ _ refl
      (omega arith) refl refl refl

publish-unpublish_version_example :
    (rec_of live_rec
      (publish_flow ⦃b = sample⦄ "f" "n" "t2"
        (unpublish_flow ⦃b = sample⦄ "f" "t1" (db_of live_doc)).0).1).published_version
    ≡ 1
unfolding first_flow find_flows first_doc ◌>>=◌ refuse_if lift pure update_flow get_flow attempt
    migrate_legacy_published is_legacy flow_from_doc apply_publish_status parse_dsl version_or_zero
    unpublished_changes_of fingerprints_differ parse_history trim_space keep_last_history
    unpublish_flow offline_history publish_flow publish_history
publish-unpublish_version_example =
    publish-unpublish_version ⦃b = sample⦄ "f" "d" "n" "t1" "t2" live_doc (db_of live_doc) _ _ _ _
      refl refl refl

rollback-publish-unpublish_example :
    let published =
      publish_flow ⦃b = sample⦄ "f" "n" "t2"
        (unpublish_flow ⦃b = sample⦄ "f" "t1" (db_of live_doc)).0 in
    let back = rollback_publish ⦃b = sample⦄ "f" 1 "t3" published.0 in
    (back.0 ≡ published.0) × (rec_of live_rec back.1 ≡ rec_of live_rec published.1)
unfolding first_flow find_flows first_doc ◌>>=◌ refuse_if lift pure update_flow get_flow attempt
    migrate_legacy_published is_legacy flow_from_doc apply_publish_status parse_dsl version_or_zero
    unpublished_changes_of fingerprints_differ parse_history trim_space keep_last_history
    unpublish_flow offline_history publish_flow publish_history rollback_publish
rollback-publish-unpublish_example =
    rollback-publish-unpublish ⦃b = sample⦄ "f" "d" "n" "t1" "t2" "t3" live_doc (db_of live_doc) _ _
      _ _ _ _ refl refl refl refl

-- The flow locked with the password "secret".
abbrev locked_doc : FlowDoc
locked_doc = record live_doc { locked = true; lock_password_hash = "aa" }

run_op-locked_example :
    (e : StoreError) × (run_op ⦃b = sample⦄ (soft_deletes "f") "t1" (db_of locked_doc)
      ≡ (db_of locked_doc, err e))
run_op-locked_example =
    run_op-locked ⦃b = sample⦄ (db_of locked_doc) "f" "d" locked_doc [] refl refl refl
      (soft_deletes "f") "t1" refl

unlock-lock_example :
    (("secret" == "") ≡ false)
    × (sample.sha256_hex "secret" ≡ sample.sha256_hex "secret")
    × FirstIs ⦃b = sample⦄
        (set_flow_locked ⦃b = sample⦄ "f" false "secret" "t2"
          (set_flow_locked ⦃b = sample⦄ "f" true "secret" "t1" (db_of live_doc)).0).0
        "f"
        "d"
        (record live_doc { locked = false; lock_password_hash = ""; updated_at = "t2" })
unfolding first_flow find_flows first_doc ◌>>=◌ refuse_if lift pure update_flow get_flow attempt
    migrate_legacy_published is_legacy flow_from_doc apply_publish_status parse_dsl version_or_zero
    unpublished_changes_of fingerprints_differ parse_history trim_space keep_last_history
    set_flow_locked hash_lock_password wrong_password
unlock-lock_example =
    unlock-lock ⦃b = sample⦄ "f" "d" "secret" "secret" "t1" "t2" live_doc (db_of live_doc) _ _ _ _
      refl refl refl refl refl

restore_flow-soft_delete_example :
    let deleted = soft_delete_or_purge_flow ⦃b = sample⦄ "f" "t1" (db_of off_doc) in
    let restored = restore_flow ⦃b = sample⦄ "f" "t2" deleted.0 in
    let back = record off_doc {
      group_id = surviving_group ⦃b = sample⦄ "g" deleted.0;
      previous_group_id = "";
      updated_at = "t2";
    } in
    FirstIs ⦃b = sample⦄ restored.0 "f" "d" back
    × (rec_of live_rec restored.1 ≡ flow_from_doc ⦃b = sample⦄ back)
unfolding first_flow find_flows first_doc ◌>>=◌ refuse_if lift pure update_flow get_flow attempt
    migrate_legacy_published is_legacy flow_from_doc apply_publish_status parse_dsl version_or_zero
    unpublished_changes_of fingerprints_differ parse_history trim_space keep_last_history
    soft_delete_or_purge_flow move_to_trash unpublish_if not_trash restore_flow existing_or_none
    require_group find_groups raise
restore_flow-soft_delete_example =
    restore_flow-soft_delete ⦃b = sample⦄ "f" "d" "t1" "t2" off_doc (db_of off_doc) _ _ _ _ refl
      refl refl refl refl refl
