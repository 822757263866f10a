-- ===== src/Api/Access.antt =====
-- The tests of access in the handlers of a flow.
use flowgo_server.Prelude.{String, ◌≡◌, ◌==◌, false}
use flowgo_server.Prelude.Action.{fails}
use flowgo_server.Store.Docs.{User, can_access_flow}
use flowgo_server.Store.Backend.{Backend}
use flowgo_server.Api.World.{Entries, Handler, World, forbidden}

module _ ⦃b : Backend⦄ (e : Entries) (user : User) (id : String) (named : (id == "") ≡ false)
    (barred : can_access_flow user id ≡ false) (w : World e) where
  abbrev IsForbidden : {A : Type 0} → Handler e A → Type 0
  IsForbidden h = h w ≡ (w, fails forbidden)
