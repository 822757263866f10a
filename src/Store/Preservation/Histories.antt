-- ===== src/Store/Preservation/Histories.antt =====
-- The invariant over any history of calls.
use flowgo_server.Prelude.{String, List, [], ◌∷◌, true}
use flowgo_server.Store.Backend.{Backend, StoreDb}
use flowgo_server.Store.Exec.{M}
use flowgo_server.Store.Exec.Keeps.{AllFlows, Keeps-bind, Keeps-pure}
use flowgo_server.Store.WellFormed.{IsWellFormed}
use flowgo_server.Store.Ops.{
  Op, gets, lists, lists_history, saves, locks, moves, hard_deletes, peeks, publishes, discards,
  rolls_back, deletes_history, unpublishes, goes_online, soft_deletes, restores, creates_group,
  renames_group, deletes_group, ensures_trash, drop_value, run_op, run_ops,
}
use flowgo_server.Store.Preservation.{
  KeepsWf, get_flow-Keeps, list_flows-Keeps, save_flow-Keeps, set_flow_locked-Keeps,
  set_flow_group-Keeps, delete_flow-Keeps,
}
use flowgo_server.Store.Preservation.Publishing.{
  publish_flow-Keeps, discard_draft-Keeps, list_publish_history-Keeps, rollback_publish-Keeps,
  delete_publish_history-Keeps, unpublish_flow-Keeps, go_online-Keeps, peek-Keeps,
}
use flowgo_server.Store.Preservation.Groups.{
  soft_delete-Keeps, restore_flow-Keeps, create_group-Keeps, rename_group-Keeps, delete_group-Keeps,
  ensure_trash-Keeps,
}

module _ ⦃b : Backend⦄ where
  dropped : {A : Type 0} {m : M A} → KeepsWf m → KeepsWf (drop_value m)
  unfolding drop_value
  dropped k = Keeps-bind _ _ k (λ a. Keeps-pure tt)

  run_op-Keeps : (op : Op) (now : String) → KeepsWf (run_op op now)
  unfolding run_op
  run_op-Keeps (gets id) now = dropped (get_flow-Keeps id now)
  run_op-Keeps (lists user) now = dropped (list_flows-Keeps user now)
  run_op-Keeps (lists_history id) now = dropped (list_publish_history-Keeps id true now)
  run_op-Keeps (saves owner dsl) now = dropped (save_flow-Keeps owner dsl now)
  run_op-Keeps (locks id locked password) now =
      dropped (set_flow_locked-Keeps id locked password now)
  run_op-Keeps (moves id group) now = dropped (set_flow_group-Keeps id group now)
  run_op-Keeps (hard_deletes id) now = delete_flow-Keeps id
  run_op-Keeps (peeks id) now = dropped (peek-Keeps id)
  run_op-Keeps (publishes id note) now = dropped (publish_flow-Keeps id note now)
  run_op-Keeps (discards id) now = dropped (discard_draft-Keeps id now)
  run_op-Keeps (rolls_back id version) now = dropped (rollback_publish-Keeps id version now)
  run_op-Keeps (deletes_history id version) now =
      dropped (delete_publish_history-Keeps id version now)
  run_op-Keeps (unpublishes id) now = dropped (unpublish_flow-Keeps id now)
  run_op-Keeps (goes_online id) now = dropped (go_online-Keeps id now)
  run_op-Keeps (soft_deletes id) now = dropped (soft_delete-Keeps id now)
  run_op-Keeps (restores id) now = dropped (restore_flow-Keeps id now)
  run_op-Keeps (creates_group name id) now = dropped (create_group-Keeps name id now)
  run_op-Keeps (renames_group id name) now = dropped (rename_group-Keeps id name now)
  run_op-Keeps (deletes_group id) now = delete_group-Keeps id now
  run_op-Keeps ensures_trash now = ensure_trash-Keeps now

  -- From documents that are all well formed, whatever calls are made, failing or not, at whatever
  -- times, every flow document stays well formed: its history has at most 20 entries, each with a
  -- positive version and a DSL text, and its version is positive exactly while it has a live text.
  pub run_ops-IsWellFormed :
      (ops : List (Op × String)) (s : StoreDb b)
      → AllFlows IsWellFormed s
      → AllFlows IsWellFormed (run_ops ops s)
  unfolding run_ops
  run_ops-IsWellFormed [] s h = h
  run_ops-IsWellFormed ((op, now) ∷ ops) s h =
      run_ops-IsWellFormed ops (run_op op now s).0 ((run_op-Keeps op now).at s h)
