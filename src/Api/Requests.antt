-- ===== src/Api/Requests.antt =====
-- The requests on one flow, and those of them that change what is live, as data.
use flowgo_server.Prelude.{ℕ, String, Bool, Option}
use flowgo_server.Prelude.Action.{◌>>=◌, pure}
use flowgo_server.Store.Docs.{User}
use flowgo_server.Store.Backend.{Backend}
use flowgo_server.Store.Records.{Rec}
use flowgo_server.Api.World.{Entries, Handler}
use flowgo_server.Api.Publishing.{
  handle_publish_flow, handle_unpublish_flow, handle_go_online_flow, handle_discard_draft,
  handle_list_publish_history, handle_rollback_publish, handle_delete_publish_history,
}
use flowgo_server.Api.Flows.{
  handle_get_flow, handle_delete_flow, handle_restore_flow, handle_set_flow_locked,
}
use flowgo_server.Api.Groups.{handle_set_flow_group}

-- POST publish, offline, online and rollback
pub data LiveRequest : Type 0 where
  publishes : String → LiveRequest
  unpublishes goes_online : LiveRequest
  rolls_back : Option ℕ → LiveRequest

pub data FlowRequest : Type 0 where
  changes_live : LiveRequest → FlowRequest
  gets deletes restores discards : FlowRequest
  lists_history : Bool → FlowRequest
  deletes_version : Option ℕ → FlowRequest
  locks : Option (Bool × String) → FlowRequest
  moves : Option String → FlowRequest

module _ ⦃b : Backend⦄ (e : Entries) where
  unfoldable pub change_live : User → String → LiveRequest → String → Handler e Rec
  change_live user id (publishes note) now = handle_publish_flow e user id note now
  change_live user id unpublishes now = handle_unpublish_flow e user id now
  change_live user id goes_online now = handle_go_online_flow e user id now
  change_live user id (rolls_back body) now = handle_rollback_publish e user id body now

  -- The handler's answer without its body.
  abbrev bodiless : {A : Type 0} → Handler e A → Handler e (Unit {0})
  bodiless h = h >>= λ a. pure tt

  unfoldable pub handle : User → String → FlowRequest → String → Handler e (Unit {0})
  handle user id (changes_live q) now = bodiless (change_live user id q now)
  handle user id gets now = bodiless (handle_get_flow e user id now)
  handle user id deletes now = bodiless (handle_delete_flow e user id now)
  handle user id restores now = bodiless (handle_restore_flow e user id now)
  handle user id discards now = bodiless (handle_discard_draft e user id now)
  handle user id (lists_history include) now =
      bodiless (handle_list_publish_history e user id include now)
  handle user id (deletes_version ver) now =
      bodiless (handle_delete_publish_history e user id ver now)
  handle user id (locks body) now = bodiless (handle_set_flow_locked e user id body now)
  handle user id (moves body) now = bodiless (handle_set_flow_group e user id body now)
