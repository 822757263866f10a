-- ===== src/Store/User.antt =====
-- internal/store/user.go, and the first administrator of store.go. `now` is the time of the call.
use flowgo_server.Prelude.{String, ◌==◌, Bool, true, none, some, List, [], ◌∷◌, if◌then◌else◌, map}
use flowgo_server.Clover.{Entry}
use flowgo_server.Store.Docs.{
  UserDoc, User, user_from_doc, role_user, role_admin, not_found, conflict, hash_failed, storage,
}
use flowgo_server.Store.Backend.{Backend}
use flowgo_server.Store.Exec.{
  M, Result, ok, err, or_err, ◌>>=◌, ◌>>◌, pure, raise, lift, attempt, first_doc,
}

module _ ⦃b : Backend⦄ where
  -- s.db.FindAll on the users
  unfoldable pub find_users : (UserDoc → Bool) → M (List (Entry UserDoc))
  find_users q s = (s, or_err (b.users.find_all q s.users) storage)

  unfoldable pub insert_user : UserDoc → M String
  insert_user d s = elim (b.users.insert_one d s.users) [
    | none ↦ (s, err storage)
    | some (i, db) ↦ (record s { users = db }, ok i)
  ]

  unfoldable pub update_user : String → (UserDoc → UserDoc) → M (Unit {0})
  update_user i f s = elim (b.users.update_by_id i f s.users) [
    | none ↦ (s, err storage)
    | some db ↦ (record s { users = db }, ok tt)
  ]

  abbrev pub has_username : String → UserDoc → Bool
  has_username username d = d.username == username

  -- FindUserByUsername
  unfoldable pub find_user_by_username : String → M User
  find_user_by_username username = do
    docs ← find_users (has_username username)
    e ← first_doc docs
    pure (user_from_doc e)

  -- FindUserByID
  unfoldable pub find_user_by_id : String → M User
  find_user_by_id id = do
    doc ← (λ s. (s, or_err (b.users.find_by_id id s.users) storage))
    e ← lift (or_err doc not_found)
    pure (user_from_doc e)

  unfoldable pub list_users : M (List User)
  list_users = do docs ← find_users (λ d. true); pure (map user_from_doc docs)

  -- HashPassword
  abbrev pub hash_password : String → M String
  hash_password password = lift (or_err (b.generate_password_hash password) hash_failed)

  -- The first test of CreateUser: the name is free where no user is found.
  unfoldable pub name_free : Result User → M (Unit {0})
  name_free (ok u) = raise conflict
  name_free (err not_found) = pure tt
  name_free (err e) = raise e

  abbrev pub new_user_doc : String → String → String → List String → String → UserDoc
  new_user_doc username hash role flow_ids now = record {
    username = username;
    password_hash = hash;
    role = if role == "" then role_user else role;
    flow_ids = flow_ids;
    created_at = now;
  }

  unfoldable pub create_user : String → String → String → List String → String → M User
  create_user username password role flow_ids now = do
    found ← attempt (find_user_by_username username)
    name_free found
    hash ← hash_password password
    id ← insert_user (new_user_doc username hash role flow_ids now)
    find_user_by_id id

  unfoldable pub update_password : String → String → M (Unit {0})
  update_password user_id new_password = do
    hash ← hash_password new_password
    update_user user_id (λ d. record d { password_hash = hash })

  unfoldable pub update_user_flows : String → List String → M (Unit {0})
  update_user_flows user_id flow_ids = update_user user_id (λ d. record d { flow_ids = flow_ids })

  unfoldable pub insert_admin : List (Entry UserDoc) → String → M (Unit {0})
  insert_admin (e ∷ es) now = pure tt
  insert_admin [] now = do
    hash ← hash_password "admin"
    id ← insert_user (new_user_doc "admin" hash role_admin [] now)
    pure tt

  -- ensureAdmin
  unfoldable pub ensure_admin : String → M (Unit {0})
  unfolding insert_admin
  ensure_admin now = do docs ← find_users (has_username "admin"); insert_admin docs now
