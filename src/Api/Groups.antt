-- ===== src/Api/Groups.antt =====
-- internal/api/group_handlers.go: the handlers of groups. Only that of a flow's group takes the user.
use flowgo_server.Prelude.{String, ◌==◌, Bool, Option, List}
use flowgo_server.Prelude.Action.{◌>>=◌, pure, refuse_if, require}
use flowgo_server.Store.Docs.{User, StoreError, not_found, system_group}
use flowgo_server.Store.Backend.{Backend}
use flowgo_server.Store.Records.{Rec}
use flowgo_server.Store.Flow.{set_flow_group}
use flowgo_server.Store.Group.{GroupRecord, list_groups, create_group, rename_group, delete_group}
use flowgo_server.Api.World.{
  Entries, Handler, Status, call, notify, with_access, bad_request, missing, internal_error,
}

-- The statuses of RenameGroup and SetFlowGroup
unfoldable pub group_status : StoreError → Status
group_status not_found = missing
group_status e = bad_request

unfoldable pub delete_group_status : StoreError → Status
delete_group_status not_found = missing
delete_group_status system_group = bad_request
delete_group_status e = internal_error

abbrev list_groups_status : StoreError → Status
list_groups_status e = internal_error

abbrev create_group_status : StoreError → Status
create_group_status e = bad_request

module _ ⦃b : Backend⦄ (e : Entries) where
  -- HandleListGroups, with the lower-casing and the order of Go's texts
  unfoldable pub handle_list_groups :
      (String → String) → (String → String → Bool) → Handler e (List GroupRecord)
  handle_list_groups to_lower text_less = call e list_groups_status (list_groups to_lower text_less)

  -- HandleCreateGroup, with the id that it draws
  unfoldable pub handle_create_group : Option String → String → String → Handler e GroupRecord
  handle_create_group body new_id now = do
    name ← require body bad_request
    call e create_group_status (create_group name new_id now)

  -- HandleRenameGroup
  unfoldable pub handle_rename_group : String → Option String → String → Handler e GroupRecord
  handle_rename_group id body now = do
    u ← refuse_if (id == "") bad_request
    name ← require body bad_request
    call e group_status (rename_group id name now)

  -- HandleDeleteGroup
  unfoldable pub handle_delete_group : String → String → Handler e (Unit {0})
  handle_delete_group id now = do
    u ← refuse_if (id == "") bad_request
    call e delete_group_status (delete_group id now)

  -- HandleSetFlowGroup
  unfoldable pub set_group : String → Option String → String → Handler e Rec
  set_group id body now = do
    group_id ← require body bad_request
    rec ← call e group_status (set_flow_group id group_id now)
    u ← notify e "group" rec.id rec.name
    pure rec

  unfoldable pub handle_set_flow_group : User → String → Option String → String → Handler e Rec
  handle_set_flow_group user id body now = with_access e user id (set_group id body now)
