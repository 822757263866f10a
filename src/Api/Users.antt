-- ===== src/Api/Users.antt =====
-- internal/api/user_handlers.go, and the change of a password in auth_handlers.go. What the answer
-- leaves out of a user is not modelled.
use Prim.Native.String.{len}
use flowgo_server.Prelude.{
  ◌≤◌, String, ◌≡◌, refl, ap, sym, ◌∙◌, ◌==◌, true, not, Option, none, some, List, map, ltb, arith,
  Option-cases, inl, inr,
}
use flowgo_server.Prelude.Action.{
  returns, ◌>>=◌, pure, refuse_if, require, refuse_if-returns, require-returns,
}
use flowgo_server.Clover.{edit_at}
use flowgo_server.Store.Docs.{User, UserDoc, role_admin, StoreError, conflict, hash_failed}
use flowgo_server.Store.Backend.{Backend, StoreDb}
use flowgo_server.Store.Exec.{M, Result, ok, err, or_err}
use flowgo_server.Store.Spec.{lift-ok}
use flowgo_server.Store.User.{
  list_users, create_user, update_user_flows, update_password, update_user,
}
use flowgo_server.Api.World.{
  Entries, Handler, World, Status, call, bad_request, forbidden, in_conflict, internal_error,
}

-- The body of a request for a new user
pub record CreateUserReq : Type 0 where
  pub username : String
  pub password : String
  pub role : String
  pub flow_ids : List String

unfoldable pub create_user_status : StoreError → Status
create_user_status conflict = in_conflict
create_user_status e = bad_request

abbrev pub user_error : StoreError → Status
user_error e = bad_request

abbrev pub stored_error : StoreError → Status
stored_error e = internal_error

module _ ⦃b : Backend⦄ (e : Entries) where
  -- `if user.Role != store.RoleAdmin`
  abbrev pub admin_only : {A : Type 0} → User → Handler e A → Handler e A
  admin_only user handler = do u ← refuse_if (not (user.role == role_admin)) forbidden; handler

  -- HandleListUsers
  unfoldable pub handle_list_users : User → Handler e (List User)
  handle_list_users user = admin_only user (call e stored_error list_users)

  unfoldable pub create : Option CreateUserReq → String → Handler e User
  create body now = do
    req ← require body bad_request
    call e create_user_status (create_user req.username req.password req.role req.flow_ids now)

  -- HandleCreateUser
  unfoldable pub handle_create_user : User → Option CreateUserReq → String → Handler e User
  handle_create_user user body now = admin_only user (create body now)

  unfoldable pub set_flows : String → Option (List String) → Handler e (Unit {0})
  set_flows id body = do
    flow_ids ← require body bad_request
    call e user_error (update_user_flows id flow_ids)

  -- HandleUpdateUserFlows
  unfoldable pub handle_update_user_flows :
      User → String → Option (List String) → Handler e (Unit {0})
  handle_update_user_flows actor id body = admin_only actor (set_flows id body)

  -- HandleChangePassword, of the old and the new password; Go's `len` counts bytes.
  unfoldable pub handle_change_password : User → Option (String × String) → Handler e (Unit {0})
  handle_change_password user body = do
    (old, new) ← require body bad_request
    u ← refuse_if (not (b.compare_hash_and_password user.password_hash old)) bad_request
    v ← refuse_if (ltb (len new) 4) bad_request
    call e stored_error (update_password user.id new)

  -- The requests on users.
  pub data UserRequest : Type 0 where
    lists : UserRequest
    creates : Option CreateUserReq → String → UserRequest
    sets_flows : String → Option (List String) → UserRequest

  abbrev bodiless : {A : Type 0} → Handler e A → Handler e (Unit {0})
  bodiless h = h >>= λ a. pure tt

  unfoldable pub handle_users : User → UserRequest → Handler e (Unit {0})
  handle_users user lists = bodiless (handle_list_users user)
  handle_users user (creates body now) = bodiless (handle_create_user user body now)
  handle_users user (sets_flows id body) = handle_update_user_flows user id body

  -- What a change of the password did.
  pub record IsChanged (user : User) (old new : String) (w w' : World e) : Type 0 where
    pub proved : b.compare_hash_and_password user.password_hash old ≡ true
    pub long : 4 ≤ len new
    pub hash : String
    pub hashed : b.generate_password_hash new ≡ some hash
    pub users :
        b.users.contents w'.db.users
        ≡ map
            (edit_at user.id (λ d. record d { password_hash = hash }))
            (b.users.contents w.db.users)

  call-returns :
      {A : Type 0} (status : StoreError → Status) (m : M A) (w w' : World e) (a : A)
      → call e status m w ≡ (w', returns a)
      → m w.db ≡ (w'.db, ok a)
  unfolding call
  call-returns {A = A} status m w w' a h = value (m w.db).1 refl
    where
      value : (o : Result A) → (m w.db).1 ≡ o → m w.db ≡ (w'.db, ok a)
      value (ok x) q = let h' = rw (q, call) at h in ground (arith, h', q)
      value (err x) q = cc (rw (q, call) at h)

  update_user-ok :
      (i : String) (f : UserDoc → UserDoc) (s s' : StoreDb b) (u : Unit {0})
      → update_user i f s ≡ (s', ok u)
      → b.users.contents s'.users ≡ map (edit_at i f) (b.users.contents s.users)
  unfolding update_user
  update_user-ok i f s s' u h = elim (Option-cases (b.users.update_by_id i f s.users)) [
    | inl q ↦ cc (rw (q, update_user) at h)
    | inr (db, q) ↦
        let done : b.users.contents db ≡ b.users.contents s'.users =
          ap (λ (p : StoreDb b × Result (Unit {0})). b.users.contents p.0.users)
            (rw (q, update_user) at h) in
        sym done ∙ b.users.updated i f s.users db q
  ]

  or_err-ok : {A : Type 0} (o : Option A) (x : StoreError) (a : A) → or_err o x ≡ ok a → o ≡ some a
  or_err-ok none x a h = cc
  or_err-ok (some y) x a h = ground arith

  -- A change of the password that succeeds: the old one fits the user's hash, the new one has at
  -- least four bytes, and its hash is now that of the user, no other document and no other field
  -- being changed.
  pub handle_change_password-IsChanged :
      (user : User) (old new : String) (w w' : World e) (u : Unit {0})
      → handle_change_password user (some (old, new)) w ≡ (w', returns u)
      → IsChanged user old new w w'
  unfolding handle_change_password update_password
  handle_change_password-IsChanged user old new w w' u h =
      let (pair, given, h₁) = require-returns (some (old, new)) bad_request _ w h in
      let (fits, h₂) = refuse_if-returns _ bad_request _ w h₁ in
      let (long, h₃) = refuse_if-returns _ bad_request _ w h₂ in
      let stored = call-returns stored_error (update_password user.id pair.1) w w' u h₃ in
      let (hash, made, updated) =
        lift-ok (or_err (b.generate_password_hash pair.1) hash_failed) _ w.db stored in
      let same : (old, new) ≡ pair = cc in
      record {
        proved = ground (arith, fits, same);
        long = ground (arith, long, same);
        hash = hash;
        hashed =
            ap (λ (p : String × String). b.generate_password_hash p.1) same
            ∙ or_err-ok (b.generate_password_hash pair.1) hash_failed hash made;
        users =
            update_user-ok user.id (λ d. record d { password_hash = hash }) w.db w'.db u updated;
      }
