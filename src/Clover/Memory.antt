-- ===== src/Clover/Memory.antt =====
-- A collection as a plain list: it meets the laws, and the tests run on it.
use flowgo_server.Prelude.{
  String, ◌≡◌, refl, sym, ap, ◌∙◌, ◌==◌, not, Option, some, List, [], ◌∷◌, map, select,
}
use flowgo_server.Clover.{Collection, Entry, edit_at, first}

-- An object id for the next document: one letter for each that is there, and one more.
abbrev next_id : {D : Type 0} → List (Entry D) → String
next_id [] = "d"
next_id (e ∷ es) = String.◌∷◌ "d" (next_id es)

pub some-injective : {A : Type 0} {a c : A} → some a ≡ some c → a ≡ c
some-injective h = cc

pair-left :
    {A B : Type 0} {a c : A} {x y : B}
    → ◌≡◌ {A = Option (A × B)} (some (a, x)) (some (c, y))
    → a ≡ c
pair-left h = cc

pair-right :
    {A B : Type 0} {a c : A} {x y : B}
    → ◌≡◌ {A = Option (A × B)} (some (a, x)) (some (c, y))
    → x ≡ y
pair-right h = cc

pub inserted_first :
    {D : Type 0} (new i : String) (d : D) (db db' : List (Entry D))
    → ◌≡◌ {A = Option (String × List (Entry D))} (some (new, (new, d) ∷ db)) (some (i, db'))
    → db' ≡ (i, d) ∷ db
inserted_first new i d db db' h = sym (pair-right h) ∙ ap (λ j. (j, d) ∷ db) (pair-left h)

abbrev pub memory : (D : Type 0) → Collection D
memory D = record {
  Db = List (Entry D);
  contents = λ db. db;
  find_all = λ q db. some (select (λ e. q e.1) db);
  find_by_id = λ i db. some (first (select (λ e. e.0 == i) db));
  insert_one = λ d db. some (next_id db, (next_id db, d) ∷ db);
  update_by_id = λ i f db. some (map (edit_at i f) db);
  delete_by_id = λ i db. some (select (λ e. not (e.0 == i)) db);
  found = λ q db es h. sym (some-injective h);
  found_by_id = λ i db o h. sym (some-injective h);
  inserted = λ d db i db' h. ([], db, refl, inserted_first (next_id db) i d db db' h);
  updated = λ i f db db' h. sym (some-injective h);
  deleted = λ i db db' h. sym (some-injective h);
}
