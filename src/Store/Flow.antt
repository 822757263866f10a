-- ===== src/Store/Flow.antt =====
-- internal/store/flow.go: reading, saving, locking, grouping and deleting flows. `now` is the time
-- that the call reads from the clock.
use flowgo_server.Prelude.{
  String, ◌==◌, Bool, true, false, not, ◌&&◌, Option, none, some, List, [], ◌∷◌, if◌then◌else◌,
  is_some, nonempty,
}
use flowgo_server.Clover.{Entry}
use flowgo_server.Store.Docs.{
  FlowDoc, GroupDoc, User, can_access_flow, is_trash_group_id, trash_group_id, flow_locked,
  unlock_failed, system_group, cannot_move_to_trash, must_restore_from_trash, flow_id_required,
  bad_json,
}
use flowgo_server.Store.Backend.{Backend}
use flowgo_server.Store.Exec.{
  M, or_err, ◌>>=◌, ◌>>◌, pure, lift, refuse_if, find_flows, insert_flow, update_flow,
  delete_flow_doc, find_groups, first_doc,
}
use flowgo_server.Store.Records.{Dsl, Rec, apply_publish_status, flow_from_doc, hash_lock_password}

module _ ⦃b : Backend⦄ where
  -- query.Field("flowId").Eq(id)
  abbrev pub has_flow_id : String → FlowDoc → Bool
  has_flow_id id d = d.flow_id == id

  -- The documents with the flow id, and the first of them or ErrNotFound.
  unfoldable pub first_flow : String → M (Entry FlowDoc)
  first_flow id = do docs ← find_flows (has_flow_id id); first_doc docs

  -- `now := rec.UpdatedAt`, or the clock where that is empty
  abbrev migration_time : Rec → String → String
  migration_time rec now = if rec.updated_at == "" then now else rec.updated_at

  -- The fields that the migration writes.
  abbrev pub as_published : String → FlowDoc → FlowDoc → FlowDoc
  as_published at read d = record d {
    published_json = read.dsl_json;
    published_at = at;
    published_version = some 1;
    history_json = "[]";
  }

  -- The guards of migrateLegacyPublished: the document has a draft and no publish fields at all.
  unfoldable pub is_legacy : FlowDoc → Rec → Bool
  is_legacy doc rec =
      not (is_some rec.published_dsl)
      && is_some rec.dsl
      && not (is_some doc.published_version)
      && nonempty doc.dsl_json

  unfoldable pub migrate_legacy_published : Entry FlowDoc → Rec → String → M Rec
  migrate_legacy_published (i, doc) rec now =
      if is_legacy doc rec
      then (do
        update_flow i (as_published (migration_time rec now) doc)
        pure (
            apply_publish_status (record rec {
              published_dsl = rec.dsl;
              published_at = migration_time rec now;
              published_version = 1;
            })))
      else pure rec

  unfoldable pub get_flow : String → String → M Rec
  get_flow id now = do
    (i, doc) ← first_flow id
    migrate_legacy_published (i, doc) (flow_from_doc doc) now

  -- `user != nil && !user.CanAccessFlow(rec.ID)`
  unfoldable pub hidden_from : Option User → String → Bool
  hidden_from none id = false
  hidden_from (some u) id = not (can_access_flow u id)

  -- The loop of ListFlows.
  unfoldable pub list_flows_from : Option User → String → List (Entry FlowDoc) → M (List Rec)
  list_flows_from user now [] = pure []
  list_flows_from user now ((i, doc) ∷ docs) = do
    rec ← migrate_legacy_published (i, doc) (flow_from_doc doc) now
    rest ← list_flows_from user now docs
    pure (if hidden_from user rec.id then rest else rec ∷ rest)

  unfoldable pub list_flows : Option User → String → M (List Rec)
  list_flows user now = do docs ← find_flows (λ d. true); list_flows_from user now docs

  -- The document that SaveFlow inserts.
  abbrev pub new_flow_doc : String → Dsl → String → String → FlowDoc
  new_flow_doc owner_id dsl json now = record {
    flow_id = dsl.id;
    name = dsl.name;
    owner_id = owner_id;
    group_id = "";
    previous_group_id = "";
    locked = false;
    lock_password_hash = "";
    dsl_json = json;
    published_json = "";
    published_at = "";
    published_note = "";
    published_version = some 0;
    history_json = "[]";
    created_at = now;
    updated_at = now;
  }

  abbrev pub save_edit : Dsl → String → String → FlowDoc → FlowDoc
  save_edit dsl json now d = record d { name = dsl.name; dsl_json = json; updated_at = now }

  -- The two branches of SaveFlow on `len(existing) == 0`.
  unfoldable pub insert_or_update :
      String → Dsl → String → String → List (Entry FlowDoc) → M (Unit {0})
  insert_or_update owner_id dsl json now [] = insert_flow (new_flow_doc owner_id dsl json now)
  insert_or_update owner_id dsl json now ((i, doc) ∷ docs) = do
    refuse_if doc.locked flow_locked
    update_flow i (save_edit dsl json now)

  unfoldable pub save_flow : String → Dsl → String → M Rec
  save_flow owner_id dsl now = do
    refuse_if (dsl.id == "") flow_id_required
    json ← lift (or_err (b.marshal_dsl dsl) bad_json)
    existing ← find_flows (has_flow_id dsl.id)
    insert_or_update owner_id dsl json now existing
    get_flow dsl.id now

  abbrev pub lock_edit : String → String → FlowDoc → FlowDoc
  lock_edit hash now d = record d { locked = true; lock_password_hash = hash; updated_at = now }

  abbrev pub unlock_edit : String → FlowDoc → FlowDoc
  unlock_edit now d = record d { locked = false; lock_password_hash = ""; updated_at = now }

  -- `stored != "" && stored != hashLockPassword(password)`
  unfoldable pub wrong_password : String → String → Bool
  wrong_password stored password = nonempty stored && not (stored == hash_lock_password password)

  unfoldable pub set_flow_locked : String → Bool → String → String → M Rec
  set_flow_locked id true password now = do
    (i, doc) ← first_flow id
    update_flow i (lock_edit (hash_lock_password password) now)
    get_flow id now
  set_flow_locked id false password now = do
    (i, doc) ← first_flow id
    refuse_if (wrong_password doc.lock_password_hash password) unlock_failed
    update_flow i (unlock_edit now)
    get_flow id now

  -- query.Field("groupId").Eq(id) on the groups
  abbrev pub has_group_id : String → GroupDoc → Bool
  has_group_id id g = g.group_id == id

  -- The test on GetGroup's error in SetFlowGroup; the empty id is "no group".
  unfoldable pub require_group : String → M (Unit {0})
  require_group id =
      if id == ""
      then pure tt
      else (do groups ← find_groups (has_group_id id); g ← first_doc groups; pure tt)

  abbrev pub group_edit : String → String → FlowDoc → FlowDoc
  group_edit group_id now d = record d { group_id = group_id; updated_at = now }

  unfoldable pub set_flow_group : String → String → String → M Rec
  set_flow_group id group_id now = do
    refuse_if (is_trash_group_id group_id) cannot_move_to_trash
    cur ← get_flow id now
    refuse_if (cur.group_id == trash_group_id) must_restore_from_trash
    require_group group_id
    (i, doc) ← first_flow id
    update_flow i (group_edit group_id now)
    get_flow id now

  -- A loop of UpdateById over the documents of a query.
  unfoldable pub update_each : (FlowDoc → FlowDoc) → List (Entry FlowDoc) → M (Unit {0})
  update_each f [] = pure tt
  update_each f ((i, doc) ∷ docs) = do update_flow i f; update_each f docs

  unfoldable pub clear_flows_group : String → String → M (Unit {0})
  clear_flows_group group_id now = do
    refuse_if (is_trash_group_id group_id) system_group
    docs ← find_flows (λ d. d.group_id == group_id)
    update_each (group_edit "" now) docs

  -- DeleteFlow
  unfoldable pub delete_flow : String → M (Unit {0})
  delete_flow id = do (i, doc) ← first_flow id; refuse_if doc.locked flow_locked; delete_flow_doc i
