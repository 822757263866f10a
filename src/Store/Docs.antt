-- ===== src/Store/Docs.antt =====
-- The documents and the errors of internal/store. A text field that a document lacks reads as ""
-- (DocString), and an absent `locked` or `system` as false (docBool), so these are plain fields;
-- `published_version` is optional, since migrateLegacyPublished asks whether the field is there.
use flowgo_server.Prelude.{ℕ, String, ◌==◌, Bool, true, Option, none, some, List, contains}
use flowgo_server.Prelude.{if◌then◌else◌}

pub record FlowDoc : Type 0 where
  pub flow_id : String
  pub name : String
  pub owner_id : String
  pub group_id : String
  pub previous_group_id : String
  pub locked : Bool
  pub lock_password_hash : String
  pub dsl_json : String
  pub published_json : String
  pub published_at : String
  pub published_note : String
  pub published_version : Option ℕ
  pub history_json : String
  pub created_at : String
  pub updated_at : String

pub record GroupDoc : Type 0 where
  pub group_id : String
  pub name : String
  pub sort : ℕ
  pub system : Bool
  pub created_at : String
  pub updated_at : String

pub record UserDoc : Type 0 where
  pub username : String
  pub password_hash : String
  pub role : String
  pub flow_ids : List String
  pub created_at : String

pub record HistoryEntry : Type 0 where
  pub version : ℕ
  pub note : String
  pub published_at : String
  pub dsl_json : String

-- The sentinel errors of the package, and those that it makes with errors.New or passes on.
pub data StoreError : Type 0 where
  not_found conflict flow_locked unlock_failed no_published history_not_found : StoreError
  cannot_delete_live no_publish_history already_online : StoreError
  system_group not_in_trash cannot_move_to_trash must_restore_from_trash : StoreError
  flow_id_required group_name_required draft_empty : StoreError
  bad_json hash_failed storage : StoreError

abbrev pub trash_group_id : String
trash_group_id = "__trash__"

abbrev pub role_admin : String
role_admin = "admin"

abbrev pub role_user : String
role_user = "user"

-- IsTrashGroupID
unfoldable pub is_trash_group_id : String → Bool
is_trash_group_id id = id == trash_group_id

-- docInt(doc, "publishedVersion", 0)
unfoldable pub version_or_zero : Option ℕ → ℕ
version_or_zero none = 0
version_or_zero (some n) = n

-- User
pub record User : Type 0 where
  pub id : String
  pub username : String
  pub password_hash : String
  pub role : String
  pub flow_ids : List String
  pub created_at : String

-- (*User).CanAccessFlow on a user that is not nil
unfoldable pub can_access_flow : User → String → Bool
can_access_flow u flow_id = if u.role == role_admin then true else contains u.flow_ids flow_id

-- userFromDoc
unfoldable pub user_from_doc : String × UserDoc → User
user_from_doc (i, d) = record {
  id = i;
  username = d.username;
  password_hash = d.password_hash;
  role = d.role;
  flow_ids = d.flow_ids;
  created_at = d.created_at;
}
