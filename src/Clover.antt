-- ===== src/Clover.antt =====
-- CloverDB (github.com/ostafen/clover/v2), which is not part of the repository: one collection of
-- documents `D`, as internal/store calls it. A call may fail, and a call that fails changes nothing.
-- The laws state what the store relies on; `Memory` is a plain list that has them.
pub mod Memory
use flowgo_server.Prelude.{
  String, ◌≡◌, ◌==◌, Bool, not, Option, none, some, List, [], ◌∷◌, ◌++◌, map, select, if◌then◌else◌,
}

-- `doc.ObjectId()` with the document.
abbrev pub Entry : Type 0 → Type 0
Entry D = String × D

-- What UpdateById does to the documents: the one with the id is replaced.
abbrev pub edit_at : {D : Type 0} → String → (D → D) → Entry D → Entry D
edit_at i f e = if e.0 == i then (e.0, f e.1) else e

-- `docs[0]`, if there is one.
abbrev pub first {ℓ} : {A : Type ℓ} → List A → Option A
first [] = none
first (x ∷ xs) = some x

pub record Collection (D : Type 0) : Type 1 where
  pub Db : Type 0
  pub contents : Db → List (Entry D)
  pub find_all : (D → Bool) → Db → Option (List (Entry D))
  pub find_by_id : String → Db → Option (Option (Entry D))
  pub insert_one : D → Db → Option (String × Db)
  pub update_by_id : String → (D → D) → Db → Option Db
  pub delete_by_id : String → Db → Option Db
  -- FindAll returns the documents that the query fits.
  pub found :
      (q : D → Bool) (db : Db) (es : List (Entry D))
      → find_all q db ≡ some es
      → es ≡ select (λ e. q e.1) (contents db)
  -- FindById returns the first document with the id.
  pub found_by_id :
      (i : String) (db : Db) (o : Option (Entry D))
      → find_by_id i db ≡ some o
      → o ≡ first (select (λ e. e.0 == i) (contents db))
  -- InsertOne adds the document somewhere among the others.
  pub inserted :
      (d : D) (db : Db) (i : String) (db' : Db)
      → insert_one d db ≡ some (i, db')
      → (xs : List (Entry D)) × (ys : List (Entry D)) × (contents db ≡ xs ++ ys)
        × (contents db' ≡ xs ++ ((i, d) ∷ ys))
  -- UpdateById replaces the document with the id.
  pub updated :
      (i : String) (f : D → D) (db db' : Db)
      → update_by_id i f db ≡ some db'
      → contents db' ≡ map (edit_at i f) (contents db)
  -- DeleteById removes the document with the id.
  pub deleted :
      (i : String) (db db' : Db)
      → delete_by_id i db ≡ some db'
      → contents db' ≡ select (λ e. not (e.0 == i)) (contents db)
