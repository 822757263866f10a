-- ===== src/Store/Exec/Keeps.antt =====
-- Invariants of the flow documents under the store's actions: one rule for each way to build one.
use mathlib.Core.Path.{fun_ext}
use flowgo_server.Prelude.{
  String, ◌≡◌, refl, Bool, true, false, inl, inr, some, List, [], ◌∷◌, ◌++◌, map, arith, All,
  All-append, All-append_left, All-append_right, All-select, Option-cases, if◌then◌else◌,
}
use flowgo_server.Clover.{Entry, edit_at}
use flowgo_server.Store.Docs.{FlowDoc, GroupDoc, StoreError}
use flowgo_server.Store.Backend.{Backend, StoreDb}
use flowgo_server.Store.Exec.{
  M, Result, ok, err, continue, ◌>>=◌, pure, raise, lift, refuse_if, attempt, find_flows,
  insert_flow, update_flow, delete_flow_doc, find_groups, insert_group, update_group,
  delete_group_doc, first_doc,
}

module _ (P : FlowDoc → Type 0) where
  abbrev pub AllEntries : List (Entry FlowDoc) → Type 0
  AllEntries = All (λ (e : Entry FlowDoc). P e.1)

  pub All-edit_at :
      (i : String) (f : FlowDoc → FlowDoc)
      → ((d : FlowDoc) → P d → P (f d))
      → (es : List (Entry FlowDoc)) → AllEntries es
      → AllEntries (map (edit_at i f) es)
  All-edit_at i f keep [] h = tt
  All-edit_at i f keep ((j, d) ∷ es) (p, h) = ground (arith, All-edit_at i f keep es h, keep d p)

module _ ⦃b : Backend⦄ where
  -- Each flow document has the property.
  abbrev pub AllFlows : (FlowDoc → Type 0) → StoreDb b → Type 0
  AllFlows P s = AllEntries P (b.flows.contents s.flows)

  -- `m` keeps the property of all flow documents, whether it returns or fails.
  pub record Keeps (P : FlowDoc → Type 0) {A : Type 0} (m : M A) : Type 0 where
    pub at : (s : StoreDb b) → AllFlows P s → AllFlows P (m s).0

module _ ⦃b : Backend⦄ (P : FlowDoc → Type 0) where
  found_all :
      (q : FlowDoc → Bool) (s : StoreDb b) (es : List (Entry FlowDoc))
      → b.flows.find_all q s.flows ≡ some es
      → AllFlows P s
      → AllEntries P es
  found_all q s es e h =
      rw (b.flows.found q s.flows es e) (All-select (λ (e : Entry FlowDoc). P e.1) _ _ h)

  insert_all :
      (d : FlowDoc) (s : StoreDb b) (i : String) (db : b.flows.Db)
      → b.flows.insert_one d s.flows ≡ some (i, db)
      → P d
      → AllFlows P s
      → AllEntries P (b.flows.contents db)
  insert_all d s i db e p h =
      let (xs, ys, before, after) = b.flows.inserted d s.flows i db e in
      let Q = λ (e : Entry FlowDoc). P e.1 in
      let h' : All Q (xs ++ ys) = rw before at h in
      rw after (
        All-append Q xs ((i, d) ∷ ys) (All-append_left Q xs ys h') (p, All-append_right Q xs ys h'))

module _ ⦃b : Backend⦄ {P : FlowDoc → Type 0} {A : Type 0} where
  pub Keeps-pure : (a : A) → Keeps P (pure a)
  unfolding pure
  Keeps-pure a = record { at = λ s h. h }

  pub Keeps-raise : (e : StoreError) → Keeps P (raise {A = A} e)
  unfolding raise
  Keeps-raise e = record { at = λ s h. h }

  pub Keeps-lift_end : (r : Result A) → Keeps P (lift r)
  unfolding lift
  Keeps-lift_end r = record { at = λ s h. h }

  pub Keeps-attempt : (m : M A) → Keeps P m → Keeps P (attempt m)
  unfolding attempt
  Keeps-attempt m k = record { at = λ s h. k.at s h }

  pub Keeps-if : (t : Bool) (m n : M A) → Keeps P m → Keeps P n → Keeps P (if t then m else n)
  Keeps-if true m n km kn = km
  Keeps-if false m n km kn = kn

module _ ⦃b : Backend⦄ {P : FlowDoc → Type 0} {A B : Type 0} where
  pub Keeps-continue :
      (r : Result A) (f : A → M B) (s : StoreDb b)
      → ((a : A) → r ≡ ok a → Keeps P (f a))
      → AllFlows P s
      → AllFlows P (continue s r f).0
  Keeps-continue (ok a) f s kf h = (kf a refl).at s h
  Keeps-continue (err e) f s kf h = h

  pub Keeps-bind :
      (m : M A) (f : A → M B) → Keeps P m → ((a : A) → Keeps P (f a)) → Keeps P (m >>= f)
  unfolding ◌>>=◌
  Keeps-bind m f km kf = record {
    at = λ s h. Keeps-continue (m s).1 f (m s).0 (λ a e. kf a) (km.at s h);
  }

  -- The rest of the block may use that `r` is no error.
  pub Keeps-lift :
      (r : Result A) (f : A → M B) → ((a : A) → r ≡ ok a → Keeps P (f a)) → Keeps P (lift r >>= f)
  unfolding ◌>>=◌ lift
  Keeps-lift r f kf = record { at = λ s h. Keeps-continue r f s kf h }

module _ ⦃b : Backend⦄ {P : FlowDoc → Type 0} {B : Type 0} where
  -- The rest of the block may use that the guard let it pass.
  pub Keeps-refuse :
      (t : Bool) (e : StoreError) (m : M B)
      → (t ≡ false → Keeps P m)
      → Keeps P (refuse_if t e >>= λ _. m)
  unfolding ◌>>=◌ refuse_if
  Keeps-refuse true e m k = record { at = λ s h. h }
  Keeps-refuse false e m k = record { at = λ s h. (k refl).at s h }

  -- What a query returns has the property.
  pub Keeps-find :
      (q : FlowDoc → Bool) (f : List (Entry FlowDoc) → M B)
      → ((es : List (Entry FlowDoc)) → All (λ (e : Entry FlowDoc). P e.1) es → Keeps P (f es))
      → Keeps P (find_flows q >>= f)
  unfolding ◌>>=◌ find_flows
  Keeps-find q f kf = record {
    at = λ s h. elim (Option-cases (b.flows.find_all q s.flows)) [
      | inl e ↦ rw e h
      | inr (es, e) ↦ rw e ((kf es (found_all P q s es e h)).at s h)
    ];
  }

  pub Keeps-first_doc :
      (es : List (Entry FlowDoc)) (f : Entry FlowDoc → M B)
      → All (λ (e : Entry FlowDoc). P e.1) es
      → ((i : String) (doc : FlowDoc) → P doc → Keeps P (f (i, doc)))
      → Keeps P (first_doc es >>= f)
  unfolding ◌>>=◌ first_doc raise pure
  Keeps-first_doc [] f h kf = record { at = λ s k. k }
  Keeps-first_doc ((i, doc) ∷ es) f h kf = record { at = λ s k. (kf i doc h.0).at s k }

module _ ⦃b : Backend⦄ {P : FlowDoc → Type 0} where
  pub Keeps-update :
      (i : String) (f : FlowDoc → FlowDoc)
      → ((d : FlowDoc) → P d → P (f d))
      → Keeps P (update_flow i f)
  unfolding update_flow
  Keeps-update i f keep = record {
    at = λ s h. elim (Option-cases (b.flows.update_by_id i f s.flows)) [
      | inl e ↦ rw (e, update_flow) h
      | inr (db, e) ↦
          rw (e, update_flow) (rw (b.flows.updated i f s.flows db e) (All-edit_at P i f keep _ h))
    ];
  }

  pub Keeps-insert : (d : FlowDoc) → P d → Keeps P (insert_flow d)
  unfolding insert_flow
  Keeps-insert d p = record {
    at = λ s h. elim (Option-cases (b.flows.insert_one d s.flows)) [
      | inl e ↦ rw (e, insert_flow) h
      | inr (r, e) ↦ rw (e, insert_flow) (insert_all P d s r.0 r.1 e p h)
    ];
  }

  pub Keeps-delete : (i : String) → Keeps P (delete_flow_doc i)
  unfolding delete_flow_doc
  Keeps-delete i = record {
    at = λ s h. elim (Option-cases (b.flows.delete_by_id i s.flows)) [
      | inl e ↦ rw (e, delete_flow_doc) h
      | inr (db, e) ↦
          rw (e, delete_flow_doc)
            (rw (b.flows.deleted i s.flows db e) (All-select (λ (e : Entry FlowDoc). P e.1) _ _ h))
    ];
  }

  pub Keeps-find_groups : (q : GroupDoc → Bool) → Keeps P (find_groups q)
  unfolding find_groups
  Keeps-find_groups q = record { at = λ s h. h }

  pub Keeps-first_group : (es : List (Entry GroupDoc)) → Keeps P (first_doc es)
  unfolding first_doc raise pure
  Keeps-first_group [] = record { at = λ s h. h }
  Keeps-first_group (e ∷ es) = record { at = λ s h. h }

  pub Keeps-insert_group : (d : GroupDoc) → Keeps P (insert_group d)
  unfolding insert_group
  Keeps-insert_group d = record { at = λ s h. ground arith }

  pub Keeps-update_group : (i : String) (f : GroupDoc → GroupDoc) → Keeps P (update_group i f)
  unfolding update_group
  Keeps-update_group i f = record { at = λ s h. ground arith }

  pub Keeps-delete_group : (i : String) → Keeps P (delete_group_doc i)
  unfolding delete_group_doc
  Keeps-delete_group i = record { at = λ s h. ground arith }

module _ ⦃b : Backend⦄ {A B C : Type 0} where
  continue_assoc :
      (s : StoreDb b) (r : Result A) (f : A → M B) (g : B → M C)
      → continue (continue s r f).0 (continue s r f).1 g ≡ continue s r (λ a. f a >>= g)
  unfolding ◌>>=◌
  continue_assoc s (ok a) f g = refl
  continue_assoc s (err e) f g = refl

  pub bind_assoc :
      (m : M A) (f : A → M B) (g : B → M C) → ((m >>= f) >>= g) ≡ (m >>= λ a. f a >>= g)
  unfolding ◌>>=◌
  bind_assoc m f g = fun_ext (λ s. continue_assoc (m s).0 (m s).1 f g)
