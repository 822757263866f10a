-- ===== src/Store/UserCalls.antt =====
-- The calls on users as data, and their histories.
use flowgo_server.Prelude.{String, ◌≡◌, refl, sym, subst, Option, none, some, List, [], ◌∷◌}
use flowgo_server.Clover.{Entry}
use flowgo_server.Store.Docs.{UserDoc, User, not_found, role_admin, hash_failed}
use flowgo_server.Store.Backend.{Backend, StoreDb}
use flowgo_server.Store.Exec.{
  M, Result, ok, err, or_err, ◌>>=◌, pure, raise, lift, attempt, first_doc,
}
use flowgo_server.Store.User.{
  find_users, insert_user, has_username, find_user_by_username, find_user_by_id, name_free,
  new_user_doc, create_user, update_password, update_user_flows, insert_admin, ensure_admin,
}
use flowgo_server.Store.Usernames.{
  named, HasUniqueNames, insert_user_unique, update_user_unique, found_none, bind_unique,
  find_user_by_id_unique,
}

module _ ⦃b : Backend⦄ where
  -- Hashing and storing a user whose name is free.
  stored_unique :
      {A : Type 0} (hash : Option String) (doc : String → UserDoc) (after : String → M A)
      (username : String) (s : StoreDb b)
      → ((h : String) → (doc h).username ≡ username)
      → ((id : String) (t : StoreDb b) → HasUniqueNames t → HasUniqueNames (after id t).0)
      → named username (b.users.contents s.users) ≡ 0
      → HasUniqueNames s
      → HasUniqueNames ((lift (or_err hash hash_failed) >>= λ h. insert_user (doc h) >>= after) s).0
  unfolding ◌>>=◌ lift
  stored_unique none doc after username s same keeps free h = h
  stored_unique (some x) doc after username s same keeps free h =
      bind_unique (insert_user (doc x)) after s (insert_user_unique (doc x) s (rw (same x) free) h)
        keeps

  -- A search by name changes nothing, and where it finds no user, the name is free.
  find_user-result :
      (username : String) (s : StoreDb b)
      → ((find_user_by_username username s).0 ≡ s)
        × ((find_user_by_username username s).1 ≡ err not_found
            → named username (b.users.contents s.users) ≡ 0)
  unfolding find_user_by_username find_users ◌>>=◌ first_doc raise pure
  find_user-result username s = found (b.users.find_all (has_username username) s.users) refl
    where
      found :
          (o : Option (List (Entry UserDoc)))
          → b.users.find_all (has_username username) s.users ≡ o
          → ((find_user_by_username username s).0 ≡ s)
            × ((find_user_by_username username s).1 ≡ err not_found
                → named username (b.users.contents s.users) ≡ 0)
      found none e = rw (e, find_user_by_username) (refl, λ q. cc)
      found (some []) e = rw (e, find_user_by_username) (refl, λ q. found_none username s e)
      found (some (x ∷ es)) e = rw (e, find_user_by_username) (refl, λ q. cc)

  passed_unique :
      {A : Type 0} (r : Result User) (rest : M A) (s : StoreDb b)
      → HasUniqueNames s
      → (r ≡ err not_found → HasUniqueNames (rest s).0)
      → HasUniqueNames ((name_free r >>= λ u. rest) s).0
  unfolding name_free ◌>>=◌ pure raise
  passed_unique (ok u) rest s h k = h
  passed_unique (err not_found) rest s h k = k refl
  passed_unique (err e) rest s h k = h

  create_user_unique :
      (username password role : String) (flow_ids : List String) (now : String) (s : StoreDb b)
      → HasUniqueNames s
      → HasUniqueNames (create_user username password role flow_ids now s).0
  unfolding create_user attempt ◌>>=◌
  create_user_unique username password role flow_ids now s h =
      let (same, free) = find_user-result username s in
      let h' = subst (λ t. HasUniqueNames t) (sym same) h in
      passed_unique (find_user_by_username username s).1 _ (find_user_by_username username s).0 h'
        (λ missing.
          stored_unique (b.generate_password_hash password)
            (λ hash. new_user_doc username hash role flow_ids now) (λ id. find_user_by_id id)
            username (find_user_by_username username s).0 (λ x. refl) find_user_by_id_unique
            (subst (λ (t : StoreDb b). named username (b.users.contents t.users) ≡ 0) (sym same)
              (free missing))
            h')

  update_password_unique :
      (user_id password : String) (s : StoreDb b)
      → HasUniqueNames s
      → HasUniqueNames (update_password user_id password s).0
  unfolding update_password lift
  update_password_unique user_id password s h = bind_unique _ _ s h λ hash t k.
      update_user_unique user_id (λ d. record d { password_hash = hash }) t (λ d. refl) k

  update_user_flows_unique :
      (user_id : String) (flow_ids : List String) (s : StoreDb b)
      → HasUniqueNames s
      → HasUniqueNames (update_user_flows user_id flow_ids s).0
  unfolding update_user_flows
  update_user_flows_unique user_id flow_ids s h =
      update_user_unique user_id (λ d. record d { flow_ids = flow_ids }) s (λ d. refl) h

  ensure_admin_unique :
      (now : String) (s : StoreDb b) → HasUniqueNames s → HasUniqueNames (ensure_admin now s).0
  unfolding ensure_admin insert_admin find_users ◌>>=◌ pure
  ensure_admin_unique now s h = found (b.users.find_all (has_username "admin") s.users) refl
    where
      found :
          (o : Option (List (Entry UserDoc)))
          → b.users.find_all (has_username "admin") s.users ≡ o
          → HasUniqueNames (ensure_admin now s).0
      found none e = rw (e, ensure_admin) h
      found (some (x ∷ es)) e = rw (e, ensure_admin) h
      found (some []) e =
          rw (e, ensure_admin)
            (stored_unique (b.generate_password_hash "admin")
              (λ hash. new_user_doc "admin" hash role_admin [] now) (λ id. pure tt) "admin" s
              (λ x. refl) (λ id t k. k) (found_none "admin" s e) h)

  -- The calls that change users, as data.
  pub data UserOp : Type 0 where
    creates : String → String → String → List String → String → UserOp
    changes_password : String → String → UserOp
    sets_flows : String → List String → UserOp
    ensures_admin : String → UserOp

  unfoldable pub run_user_op : UserOp → StoreDb b → StoreDb b
  run_user_op (creates username password role flow_ids now) s =
      (create_user username password role flow_ids now s).0
  run_user_op (changes_password id password) s = (update_password id password s).0
  run_user_op (sets_flows id flow_ids) s = (update_user_flows id flow_ids s).0
  run_user_op (ensures_admin now) s = (ensure_admin now s).0

  unfoldable pub run_user_ops : List UserOp → StoreDb b → StoreDb b
  run_user_ops [] s = s
  run_user_ops (op ∷ ops) s = run_user_ops ops (run_user_op op s)

  run_user_op_unique :
      (op : UserOp) (s : StoreDb b) → HasUniqueNames s → HasUniqueNames (run_user_op op s)
  unfolding run_user_op
  run_user_op_unique (creates username password role flow_ids now) s h =
      create_user_unique username password role flow_ids now s h
  run_user_op_unique (changes_password id password) s h = update_password_unique id password s h
  run_user_op_unique (sets_flows id flow_ids) s h = update_user_flows_unique id flow_ids s h
  run_user_op_unique (ensures_admin now) s h = ensure_admin_unique now s h

  -- Where no two users have one name, none have after any calls that create users, change their
  -- passwords or flows, or make the first administrator, failing or not.
  pub run_user_ops-HasUniqueNames :
      (ops : List UserOp) (s : StoreDb b) → HasUniqueNames s → HasUniqueNames (run_user_ops ops s)
  unfolding run_user_ops
  run_user_ops-HasUniqueNames [] s h = h
  run_user_ops-HasUniqueNames (op ∷ ops) s h =
      run_user_ops-HasUniqueNames ops (run_user_op op s) (run_user_op_unique op s h)
