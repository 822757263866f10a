-- ===== src/Store/Usernames.antt =====
-- The uniqueness of user names, and the calls of the database.
use flowgo_server.Prelude.{
  ℕ, ◌+◌, ◌≤◌, String, ◌≡◌, refl, sym, ap, subst, ◌∙◌, ◌==◌, some, List, [], ◌∷◌, ◌++◌, map, select,
  if◌then◌else◌, Bool-cases, Option-cases, text_cases, inl, inr, arith,
}
use flowgo_server.Clover.{Entry, edit_at}
use flowgo_server.Store.Docs.{UserDoc}
use flowgo_server.Store.Backend.{Backend, StoreDb}
use flowgo_server.Store.Exec.{M, Result, ok, err, continue, ◌>>=◌, pure, lift}
use flowgo_server.Store.User.{insert_user, update_user, has_username, find_user_by_id}

-- How many of the documents have the name.
unfoldable pub named : String → List (Entry UserDoc) → ℕ
named username [] = 0
named username ((i, d) ∷ es) =
    if d.username == username then 1 + named username es else named username es

named-append :
    (username : String) (xs ys : List (Entry UserDoc))
    → named username (xs ++ ys) ≡ named username xs + named username ys
unfolding named
named-append username [] ys = omega arith
named-append username ((i, d) ∷ xs) ys = ground (arith, named-append username xs ys)

named-edit :
    (username i : String) (f : UserDoc → UserDoc) (es : List (Entry UserDoc))
    → ((d : UserDoc) → (f d).username ≡ d.username)
    → named username (map (edit_at i f) es) ≡ named username es
unfolding named
named-edit username i f [] same = refl
named-edit username i f ((j, d) ∷ es) same = ground (arith, same d, named-edit username i f es same)

named-none :
    (username : String) (es : List (Entry UserDoc))
    → select (λ (e : Entry UserDoc). e.1.username == username) es ≡ []
    → named username es ≡ 0
unfolding named
named-none username [] h = refl
named-none username ((i, d) ∷ es) h = elim (Bool-cases (d.username == username)) [
  | inl e ↦ cc (rw e at h)
  | inr e ↦ rw (e, named) (named-none username es (rw e at h))
]

module _ ⦃b : Backend⦄ where
  -- No two users have one name.
  abbrev pub HasUniqueNames : StoreDb b → Type 0
  HasUniqueNames s = (username : String) → named username (b.users.contents s.users) ≤ 1

  inserted_unique :
      (d : UserDoc) (s : StoreDb b) (i : String) (db : b.users.Db)
      → b.users.insert_one d s.users ≡ some (i, db)
      → named d.username (b.users.contents s.users) ≡ 0
      → HasUniqueNames s
      → HasUniqueNames (record s { users = db })
  unfolding named
  inserted_unique d s i db e free h username =
      let (xs, ys, before, after) = b.users.inserted d s.users i db e in
      let now = ap (λ es. named username es) after ∙ named-append username xs ((i, d) ∷ ys) in
      let was = ap (λ es. named username es) before ∙ named-append username xs ys in
      elim (text_cases d.username username) [
        | inl same ↦
            let zero : named username (b.users.contents s.users) ≡ 0 =
              subst (λ n. named n (b.users.contents s.users) ≡ 0) same free in
            ground (arith, now, was, zero)
        | inr ne ↦ let was' = h username in ground (arith, now, was, was', ne)
      ]

  pub insert_user_unique :
      (d : UserDoc) (s : StoreDb b)
      → named d.username (b.users.contents s.users) ≡ 0
      → HasUniqueNames s
      → HasUniqueNames (insert_user d s).0
  unfolding insert_user
  insert_user_unique d s free h = elim (Option-cases (b.users.insert_one d s.users)) [
    | inl e ↦ rw (e, insert_user) h
    | inr ((i, db), e) ↦ rw (e, insert_user) (inserted_unique d s i db e free h)
  ]

  pub update_user_unique :
      (i : String) (f : UserDoc → UserDoc) (s : StoreDb b)
      → ((d : UserDoc) → (f d).username ≡ d.username)
      → HasUniqueNames s
      → HasUniqueNames (update_user i f s).0
  unfolding update_user
  update_user_unique i f s same h = elim (Option-cases (b.users.update_by_id i f s.users)) [
    | inl e ↦ rw (e, update_user) h
    | inr (db, e) ↦
        rw (e, update_user)
          (λ username.
            let now =
              ap (λ es. named username es) (b.users.updated i f s.users db e)
              ∙ named-edit username i f (b.users.contents s.users) same in
            ground (arith, now, h username))
  ]

  -- A search that finds no user: the name is free.
  pub found_none :
      (username : String) (s : StoreDb b)
      → b.users.find_all (has_username username) s.users ≡ some []
      → named username (b.users.contents s.users) ≡ 0
  found_none username s e =
      named-none username _ (sym (b.users.found (has_username username) s.users [] e))

  -- The rest of a block keeps the names unique if its actions do.
  pub bind_unique :
      {A B : Type 0} (m : M A) (f : A → M B) (s : StoreDb b)
      → HasUniqueNames (m s).0
      → ((a : A) (t : StoreDb b) → HasUniqueNames t → HasUniqueNames (f a t).0)
      → HasUniqueNames ((m >>= f) s).0
  unfolding ◌>>=◌
  bind_unique {A = A} {B = B} m f s h k = continued (m s).1
    where
      continued : (r : Result A) → HasUniqueNames (continue (m s).0 r f).0
      continued (ok a) = k a (m s).0 h
      continued (err e) = h

  pub find_user_by_id_unique :
      (id : String) (s : StoreDb b) → HasUniqueNames s → HasUniqueNames (find_user_by_id id s).0
  unfolding find_user_by_id lift pure
  find_user_by_id_unique id s h = bind_unique _ _ s h λ doc t k. bind_unique _ _ t k λ e u k'. k'
