-- ===== src/Store/Ops.antt =====
-- The store's operations on flows and groups as data, to state what holds of every history of them.
use flowgo_server.Prelude.{ℕ, String, Bool, true, Option, List, [], ◌∷◌}
use flowgo_server.Store.Docs.{User}
use flowgo_server.Store.Backend.{Backend, StoreDb}
use flowgo_server.Store.Exec.{M, ◌>>=◌, pure}
use flowgo_server.Store.Records.{Dsl}
use flowgo_server.Store.Flow.{
  get_flow, list_flows, save_flow, set_flow_locked, set_flow_group, delete_flow,
}
use flowgo_server.Store.Publish.{
  publish_flow, discard_draft, list_publish_history, rollback_publish, delete_publish_history,
}
use flowgo_server.Store.Online.{unpublish_flow, go_online_from_latest, peek_latest_publish_dsl}
use flowgo_server.Store.Trash.{soft_delete_or_purge_flow, restore_flow}
use flowgo_server.Store.Group.{create_group, rename_group, delete_group, ensure_trash_group}

module _ ⦃b : Backend⦄ where
  pub data Op : Type 0 where
    gets lists_history discards unpublishes goes_online soft_deletes restores : String → Op
    lists : Option User → Op
    saves : String → Dsl → Op
    locks : String → Bool → String → Op
    moves : String → String → Op
    hard_deletes peeks : String → Op
    publishes : String → String → Op
    rolls_back deletes_history : String → ℕ → Op
    creates_group renames_group : String → String → Op
    deletes_group : String → Op
    ensures_trash : Op

  -- The action with its value dropped.
  unfoldable pub drop_value : {A : Type 0} → M A → M (Unit {0})
  drop_value m = do a ← m; pure tt

  -- One call at a time of the clock.
  unfoldable pub run_op : Op → String → M (Unit {0})
  run_op (gets id) now = drop_value (get_flow id now)
  run_op (lists user) now = drop_value (list_flows user now)
  run_op (lists_history id) now = drop_value (list_publish_history id true now)
  run_op (saves owner dsl) now = drop_value (save_flow owner dsl now)
  run_op (locks id locked password) now = drop_value (set_flow_locked id locked password now)
  run_op (moves id group) now = drop_value (set_flow_group id group now)
  run_op (hard_deletes id) now = delete_flow id
  run_op (peeks id) now = drop_value (peek_latest_publish_dsl id)
  run_op (publishes id note) now = drop_value (publish_flow id note now)
  run_op (discards id) now = drop_value (discard_draft id now)
  run_op (rolls_back id version) now = drop_value (rollback_publish id version now)
  run_op (deletes_history id version) now = drop_value (delete_publish_history id version now)
  run_op (unpublishes id) now = drop_value (unpublish_flow id now)
  run_op (goes_online id) now = drop_value (go_online_from_latest id now)
  run_op (soft_deletes id) now = drop_value (soft_delete_or_purge_flow id now)
  run_op (restores id) now = drop_value (restore_flow id now)
  run_op (creates_group name id) now = drop_value (create_group name id now)
  run_op (renames_group id name) now = drop_value (rename_group id name now)
  run_op (deletes_group id) now = delete_group id now
  run_op ensures_trash now = ensure_trash_group now

  -- A history of calls, failing or not, each at its time.
  unfoldable pub run_ops : List (Op × String) → StoreDb b → StoreDb b
  run_ops [] s = s
  run_ops ((op, now) ∷ ops) s = run_ops ops (run_op op now s).0
