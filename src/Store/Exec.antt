-- ===== src/Store/Exec.antt =====
-- The store's methods as actions: each takes the database and returns it with a value or an error.
-- What an action wrote before it failed stays written.
pub mod Keeps
use flowgo_server.Prelude.{String, Bool, true, false, Option, none, some, List, [], ◌∷◌}
use flowgo_server.Clover.{Entry}
use flowgo_server.Store.Docs.{FlowDoc, GroupDoc, StoreError, not_found, storage}
use flowgo_server.Store.Backend.{Backend, StoreDb}

pub data Result (A : Type 0) : Type 0 where
  ok : A → Result A
  err : StoreError → Result A

-- `if o == nil { return err }`
abbrev pub or_err : {A : Type 0} → Option A → StoreError → Result A
or_err none e = err e
or_err (some a) e = ok a

module _ ⦃b : Backend⦄ where
  abbrev pub M : Type 0 → Type 0
  M A = StoreDb b → StoreDb b × Result A

  abbrev pub continue : {A B : Type 0} → StoreDb b → Result A → (A → M B) → StoreDb b × Result B
  continue s (ok a) f = f a s
  continue s (err e) f = (s, err e)

  infixl 5 ◌>>=◌ ◌>>◌
  unfoldable pub ◌>>=◌ : {A B : Type 0} → M A → (A → M B) → M B
  ◌>>=◌ m f s = continue (m s).0 (m s).1 f

  abbrev pub ◌>>◌ : {B : Type 0} → M (Unit {0}) → M B → M B
  ◌>>◌ m n = m >>= λ _. n

  unfoldable pub pure : {A : Type 0} → A → M A
  pure a s = (s, ok a)

  unfoldable pub raise : {A : Type 0} → StoreError → M A
  raise e s = (s, err e)

  unfoldable pub lift : {A : Type 0} → Result A → M A
  lift r s = (s, r)

  -- `if test { return err }`
  unfoldable pub refuse_if : Bool → StoreError → M (Unit {0})
  refuse_if true e s = (s, err e)
  refuse_if false e s = (s, ok tt)

  -- The error of `m` as a value, for the caller that looks at it.
  unfoldable pub attempt : {A : Type 0} → M A → M (Result A)
  attempt m s = ((m s).0, ok (m s).1)

  -- s.db.FindAll on the flows
  unfoldable pub find_flows : (FlowDoc → Bool) → M (List (Entry FlowDoc))
  find_flows q s = (s, or_err (b.flows.find_all q s.flows) storage)

  unfoldable pub insert_flow : FlowDoc → M (Unit {0})
  insert_flow d s = elim (b.flows.insert_one d s.flows) [
    | none ↦ (s, err storage)
    | some (i, db) ↦ (record s { flows = db }, ok tt)
  ]

  -- s.db.UpdateById(ColFlows, …)
  unfoldable pub update_flow : String → (FlowDoc → FlowDoc) → M (Unit {0})
  update_flow i f s = elim (b.flows.update_by_id i f s.flows) [
    | none ↦ (s, err storage)
    | some db ↦ (record s { flows = db }, ok tt)
  ]

  -- s.db.DeleteById(ColFlows, …)
  unfoldable pub delete_flow_doc : String → M (Unit {0})
  delete_flow_doc i s = elim (b.flows.delete_by_id i s.flows) [
    | none ↦ (s, err storage)
    | some db ↦ (record s { flows = db }, ok tt)
  ]

  unfoldable pub find_groups : (GroupDoc → Bool) → M (List (Entry GroupDoc))
  find_groups q s = (s, or_err (b.groups.find_all q s.groups) storage)

  unfoldable pub insert_group : GroupDoc → M (Unit {0})
  insert_group d s = elim (b.groups.insert_one d s.groups) [
    | none ↦ (s, err storage)
    | some (i, db) ↦ (record s { groups = db }, ok tt)
  ]

  unfoldable pub update_group : String → (GroupDoc → GroupDoc) → M (Unit {0})
  update_group i f s = elim (b.groups.update_by_id i f s.groups) [
    | none ↦ (s, err storage)
    | some db ↦ (record s { groups = db }, ok tt)
  ]

  unfoldable pub delete_group_doc : String → M (Unit {0})
  delete_group_doc i s = elim (b.groups.delete_by_id i s.groups) [
    | none ↦ (s, err storage)
    | some db ↦ (record s { groups = db }, ok tt)
  ]

  -- `if len(docs) == 0 { return ErrNotFound }`, then `docs[0]`
  unfoldable pub first_doc : {D : Type 0} → List (Entry D) → M (Entry D)
  first_doc [] = raise not_found
  first_doc (e ∷ es) = pure e
