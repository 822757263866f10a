-- ===== src/Store/Group.antt =====
-- internal/store/group.go: the groups of flows.
use flowgo_server.Prelude.{
  ℕ, String, ◌==◌, Bool, true, false, ◌||◌, List, [], ◌∷◌, ltb, nat_eq, if◌then◌else◌, trim_space,
  map,
}
use mathlib.Core.List.{reverse}
use flowgo_server.Clover.{Entry}
use flowgo_server.Store.Docs.{
  FlowDoc, GroupDoc, trash_group_id, is_trash_group_id, not_found, system_group,
  group_name_required,
}
use flowgo_server.Store.Backend.{Backend}
use flowgo_server.Store.Exec.{
  M, Result, ok, err, ◌>>=◌, ◌>>◌, pure, raise, refuse_if, attempt, find_flows, find_groups,
  insert_group, update_group, delete_group_doc, first_doc,
}
use flowgo_server.Store.Flow.{has_group_id, update_each, clear_flows_group}

pub record GroupRecord : Type 0 where
  pub id : String
  pub name : String
  pub sort : ℕ
  pub system : Bool
  pub created_at : String
  pub updated_at : String

unfoldable pub group_from_doc : GroupDoc → GroupRecord
group_from_doc d = record {
  id = d.group_id;
  name = d.name;
  sort = d.sort;
  system = d.system || is_trash_group_id d.group_id;
  created_at = d.created_at;
  updated_at = d.updated_at;
}

abbrev pub trash_group_sort : ℕ
trash_group_sort = 100000

module _ ⦃b : Backend⦄ where
  unfoldable pub get_group : String → M GroupRecord
  get_group id = do
    docs ← find_groups (has_group_id id)
    (i, d) ← first_doc docs
    pure (group_from_doc d)

  -- `id` is what types.NewID returns.
  unfoldable pub create_group : String → String → String → M GroupRecord
  create_group name id now = do
    refuse_if (trim_space name == "") group_name_required
    insert_group (record {
      group_id = id;
      name = trim_space name;
      sort = 0;
      system = false;
      created_at = now;
      updated_at = now;
    })
    get_group id

  abbrev pub rename_edit : String → String → GroupDoc → GroupDoc
  rename_edit name now d = record d { name = name; updated_at = now }

  unfoldable pub rename_group : String → String → String → M GroupRecord
  rename_group id name now = do
    refuse_if (is_trash_group_id id) system_group
    refuse_if (trim_space name == "") group_name_required
    docs ← find_groups (has_group_id id)
    (i, d) ← first_doc docs
    refuse_if d.system system_group
    update_group i (rename_edit (trim_space name) now)
    get_group id

  abbrev pub forget_edit : String → FlowDoc → FlowDoc
  forget_edit now d = record d { previous_group_id = ""; updated_at = now }

  unfoldable pub clear_previous_group_refs : String → String → M (Unit {0})
  clear_previous_group_refs group_id now = do
    docs ← find_flows (λ d. d.previous_group_id == group_id)
    update_each (forget_edit now) docs

  unfoldable pub delete_group : String → String → M (Unit {0})
  delete_group id now = do
    refuse_if (is_trash_group_id id) system_group
    docs ← find_groups (has_group_id id)
    (i, d) ← first_doc docs
    refuse_if d.system system_group
    clear_flows_group id now
    clear_previous_group_refs id now
    delete_group_doc i

  abbrev pub trash_group_doc : String → GroupDoc
  trash_group_doc now = record {
    group_id = trash_group_id;
    name = "垃圾箱";
    sort = trash_group_sort;
    system = true;
    created_at = now;
    updated_at = now;
  }

  unfoldable pub insert_if_missing : Result GroupRecord → String → M (Unit {0})
  insert_if_missing (ok g) now = pure tt
  insert_if_missing (err not_found) now = insert_group (trash_group_doc now)
  insert_if_missing (err e) now = raise e

  unfoldable pub ensure_trash_group : String → M (Unit {0})
  ensure_trash_group now = do r ← attempt (get_group trash_group_id); insert_if_missing r now

-- groupLess, with what strings.ToLower and `<` on texts give.
module _ (to_lower : String → String) (text_lt : String → String → Bool) where
  unfoldable pub group_less : GroupRecord → GroupRecord → Bool
  group_less x y =
      if nat_eq x.sort y.sort
      then text_lt (to_lower x.name) (to_lower y.name)
      else ltb x.sort y.sort

  -- The inner loop of ListGroups: `out[j]` moves left past the greater ones. The sorted part of the
  -- slice is held from its right end.
  unfoldable pub sink : GroupRecord → List GroupRecord → List GroupRecord
  sink x [] = x ∷ []
  sink x (y ∷ left) = if group_less x y then y ∷ sink x left else x ∷ y ∷ left

  -- The outer loop.
  unfoldable pub sort_from : List GroupRecord → List GroupRecord → List GroupRecord
  sort_from left [] = reverse left
  sort_from left (x ∷ right) = sort_from (sink x left) right

  module _ ⦃b : Backend⦄ where
    unfoldable pub list_groups : M (List GroupRecord)
    list_groups = do
      docs ← find_groups (λ d. true)
      pure (sort_from [] (map (λ (e : Entry GroupDoc). group_from_doc e.1) docs))
