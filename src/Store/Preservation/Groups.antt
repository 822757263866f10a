-- ===== src/Store/Preservation/Groups.antt =====
-- The trash and the groups keep the flow documents well formed.
use flowgo_server.Prelude.{String, ◌==◌, Bool, true, false}
use flowgo_server.Store.Docs.{no_published, not_found, trash_group_id}
use flowgo_server.Store.Backend.{Backend}
use flowgo_server.Store.Exec.{Result, ok, err}
use flowgo_server.Store.Exec.Keeps.{
  Keeps-pure, Keeps-raise, Keeps-attempt, Keeps-if, Keeps-bind, Keeps-refuse, Keeps-find,
  Keeps-update, Keeps-delete, Keeps-find_groups, Keeps-first_group, Keeps-insert_group,
  Keeps-update_group, Keeps-delete_group,
}
use flowgo_server.Store.Records.{Rec}
use flowgo_server.Store.Trash.{
  purge_flow_unlocked, unless_no_published, unpublish_if, move_to_trash, soft_delete_or_purge_flow,
  restore_flow,
}
use flowgo_server.Store.Group.{
  GroupRecord, get_group, create_group, rename_group, clear_previous_group_refs, delete_group,
  insert_if_missing, ensure_trash_group,
}
use flowgo_server.Store.Preservation.{
  KeepsWf, first_flow-Keeps, get_flow-Keeps, update_get-Keeps, require_group-Keeps,
  update_each-Keeps, clear_flows_group-Keeps,
}
use flowgo_server.Store.Preservation.Publishing.{unpublish_flow-Keeps}

module _ ⦃b : Backend⦄ where
  purge-Keeps : (id : String) → KeepsWf (purge_flow_unlocked id)
  unfolding purge_flow_unlocked
  purge-Keeps id = first_flow-Keeps id _ λ i doc w. Keeps-delete i

  unless_no_published-Keeps : (r : Result Rec) → KeepsWf (unless_no_published r)
  unfolding unless_no_published
  unless_no_published-Keeps (ok rec) = Keeps-pure tt
  unless_no_published-Keeps (err no_published) = Keeps-pure tt
  unless_no_published-Keeps (err e) = Keeps-raise _

  unpublish_if-Keeps :
      (published : Bool) (id now : String) → KeepsWf (unpublish_if published id now)
  unfolding unpublish_if
  unpublish_if-Keeps true id now =
      Keeps-bind _ _ (Keeps-attempt _ (unpublish_flow-Keeps id now)) unless_no_published-Keeps
  unpublish_if-Keeps false id now = Keeps-pure tt

  move_to_trash-Keeps : (rec : Rec) (id now : String) → KeepsWf (move_to_trash rec id now)
  unfolding move_to_trash
  move_to_trash-Keeps rec id now = Keeps-bind _ _ (unpublish_if-Keeps rec.published id now) λ _.
      first_flow-Keeps id _ λ i doc w.
        Keeps-bind _ _ (Keeps-update i _ λ d v. record { history = v.history; live = v.live })
          λ _. Keeps-bind _ _ (get_flow-Keeps id now) (λ out. Keeps-pure _)

  pub soft_delete-Keeps : (id now : String) → KeepsWf (soft_delete_or_purge_flow id now)
  unfolding soft_delete_or_purge_flow
  soft_delete-Keeps id now = Keeps-bind _ _ (get_flow-Keeps id now) λ rec. Keeps-refuse _ _ _ λ _.
      Keeps-if (rec.group_id == trash_group_id) _ _
        (Keeps-bind _ _ (purge-Keeps id) (λ _. Keeps-pure _)) (move_to_trash-Keeps rec id now)

  pub restore_flow-Keeps : (id now : String) → KeepsWf (restore_flow id now)
  unfolding restore_flow
  restore_flow-Keeps id now = Keeps-bind _ _ (get_flow-Keeps id now) λ rec. Keeps-refuse _ _ _ λ _.
      Keeps-if (rec.group_id == trash_group_id) _ _
        (Keeps-bind _ _ (Keeps-attempt _ (require_group-Keeps _)) λ checked.
          first_flow-Keeps id _ λ i doc w.
            update_get-Keeps i id now _ λ d v. record { history = v.history; live = v.live })
        (Keeps-raise _)

  get_group-Keeps : (id : String) → KeepsWf (get_group id)
  unfolding get_group
  get_group-Keeps id =
      Keeps-bind _ _ (Keeps-find_groups _)
        λ es. Keeps-bind _ _ (Keeps-first_group es) (λ e. Keeps-pure _)

  pub create_group-Keeps : (name id now : String) → KeepsWf (create_group name id now)
  unfolding create_group
  create_group-Keeps name id now =
      Keeps-refuse _ _ _ λ _. Keeps-bind _ _ (Keeps-insert_group _) (λ _. get_group-Keeps id)

  pub rename_group-Keeps : (id name now : String) → KeepsWf (rename_group id name now)
  unfolding rename_group
  rename_group-Keeps id name now = Keeps-refuse _ _ _ λ _. Keeps-refuse _ _ _ λ _.
      Keeps-bind _ _ (Keeps-find_groups _) λ es. Keeps-bind _ _ (Keeps-first_group es) λ e.
        Keeps-refuse _ _ _ λ _. Keeps-bind _ _ (Keeps-update_group _ _) (λ _. get_group-Keeps id)

  clear_previous-Keeps : (id now : String) → KeepsWf (clear_previous_group_refs id now)
  unfolding clear_previous_group_refs
  clear_previous-Keeps id now =
      Keeps-find _ _
        λ es w. update_each-Keeps _ (λ d v. record { history = v.history; live = v.live }) es

  pub delete_group-Keeps : (id now : String) → KeepsWf (delete_group id now)
  unfolding delete_group
  delete_group-Keeps id now = Keeps-refuse _ _ _ λ _. Keeps-bind _ _ (Keeps-find_groups _) λ es.
      Keeps-bind _ _ (Keeps-first_group es) λ e. Keeps-refuse _ _ _ λ _.
        Keeps-bind _ _ (clear_flows_group-Keeps id now)
          λ _. Keeps-bind _ _ (clear_previous-Keeps id now) (λ _. Keeps-delete_group _)

  insert_if_missing-Keeps :
      (r : Result GroupRecord) (now : String) → KeepsWf (insert_if_missing r now)
  unfolding insert_if_missing
  insert_if_missing-Keeps (ok g) now = Keeps-pure tt
  insert_if_missing-Keeps (err not_found) now = Keeps-insert_group _
  insert_if_missing-Keeps (err e) now = Keeps-raise _

  pub ensure_trash-Keeps : (now : String) → KeepsWf (ensure_trash_group now)
  unfolding ensure_trash_group
  ensure_trash-Keeps now =
      Keeps-bind _ _ (Keeps-attempt _ (get_group-Keeps trash_group_id))
        (λ r. insert_if_missing-Keeps r now)
