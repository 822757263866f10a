-- ===== src/Store/Spec.antt =====
-- What a successful call does, by the laws of the collections: inversion of the actions, and the
-- first document of a flow after an update.
pub mod Publishing
pub mod Online
pub mod Locking
pub mod Trashing
pub mod Named
use flowgo_server.Prelude.{
  String, ◌≡◌, refl, sym, ap, subst, ◌∙◌, ◌==◌, Bool, true, false, Option, none, some, List, [],
  ◌∷◌, map, arith, select, Option-cases, Bool-cases, ◌⊎◌, inl, inr, if◌then◌else◌, is_some, eq_iff,
}
use flowgo_server.Clover.{Entry, edit_at, first}
use flowgo_server.Store.Docs.{FlowDoc, StoreError}
use flowgo_server.Store.Backend.{Backend, StoreDb}
use flowgo_server.Store.Exec.{
  M, Result, ok, err, or_err, continue, ◌>>=◌, pure, raise, lift, refuse_if, find_flows,
  update_flow, first_doc,
}
use flowgo_server.Store.Records.{Rec, flow_from_doc}
use flowgo_server.Store.Flow.{
  has_flow_id, first_flow, is_legacy, migrate_legacy_published, get_flow,
}

module _ ⦃b : Backend⦄ where
  -- The documents of a flow, in the collection's order.
  abbrev pub docs_of : String → StoreDb b → List (Entry FlowDoc)
  docs_of id s = select (λ e. has_flow_id id e.1) (b.flows.contents s.flows)

  -- The document that the store works on for a flow.
  abbrev pub FirstIs : StoreDb b → String → String → FlowDoc → Type 0
  FirstIs s id i doc = first (docs_of id s) ≡ some (i, doc)

  -- `s'` is `s` with `f` applied to the document with the object id.
  abbrev pub Edited : StoreDb b → String → (FlowDoc → FlowDoc) → StoreDb b → Type 0
  Edited s i f s' = b.flows.contents s'.flows ≡ map (edit_at i f) (b.flows.contents s.flows)

  module _ {A B : Type 0} where
    continue-ok :
        (s : StoreDb b) (r : Result A) (f : A → M B) {s' : StoreDb b} {c : B}
        → continue s r f ≡ (s', ok c)
        → (a : A) × (r ≡ ok a) × (f a s ≡ (s', ok c))
    continue-ok s (ok a) f e = (a, refl, e)
    continue-ok s (err x) f e = cc

    -- A successful block: its first action succeeded, and so did the rest.
    pub >>=-ok :
        (m : M A) (f : A → M B) (s : StoreDb b) {s' : StoreDb b} {c : B}
        → (m >>= f) s ≡ (s', ok c)
        → (s₁ : StoreDb b) × (a : A) × (m s ≡ (s₁, ok a)) × (f a s₁ ≡ (s', ok c))
    unfolding ◌>>=◌
    >>=-ok m f s e =
        let (a, r, rest) = continue-ok (m s).0 (m s).1 f e in ((m s).0, a, ground arith, rest)

    pub lift-ok :
        (r : Result A) (f : A → M B) (s : StoreDb b) {s' : StoreDb b} {c : B}
        → (lift r >>= f) s ≡ (s', ok c)
        → (a : A) × (r ≡ ok a) × (f a s ≡ (s', ok c))
    unfolding ◌>>=◌ lift
    lift-ok r f s e = continue-ok s r f e

  pub refuse-ok :
      {B : Type 0} (t : Bool) (x : StoreError) (m : M B) (s : StoreDb b) {s' : StoreDb b} {c : B}
      → (refuse_if t x >>= λ _. m) s ≡ (s', ok c)
      → (t ≡ false) × (m s ≡ (s', ok c))
  unfolding ◌>>=◌ refuse_if
  refuse-ok true x m s e = cc
  refuse-ok false x m s e = (refl, e)

  first_doc-ok :
      (es : List (Entry FlowDoc)) (s : StoreDb b) {s' : StoreDb b} {e : Entry FlowDoc}
      → first_doc es s ≡ (s', ok e)
      → (s ≡ s') × (first es ≡ some e)
  unfolding first_doc raise pure
  first_doc-ok [] s h = cc
  first_doc-ok (x ∷ es) s h = ground arith

  find-first :
      (id : String) (s : StoreDb b) {s₁ s' : StoreDb b} {es : List (Entry FlowDoc)}
      {e : Entry FlowDoc}
      → find_flows (has_flow_id id) s ≡ (s₁, ok es)
      → first_doc es s₁ ≡ (s', ok e)
      → (s ≡ s') × FirstIs s id e.0 e.1
  unfolding find_flows
  find-first id s {s₁} {s'} {es} found rest =
      let (same, is_first) = first_doc-ok es s₁ rest in
      let start : s ≡ s₁ = ground arith in
      let all : b.flows.find_all (has_flow_id id) s.flows ≡ some es = ground arith in
      (start ∙ same, rw (← b.flows.found (has_flow_id id) s.flows es all) is_first)

  -- A successful look-up of a flow changes nothing and returns its first document.
  pub first_flow-ok :
      (id : String) (s : StoreDb b) {s' : StoreDb b} {e : Entry FlowDoc}
      → first_flow id s ≡ (s', ok e)
      → (s ≡ s') × FirstIs s id e.0 e.1
  unfolding first_flow
  first_flow-ok id s h =
      let (s₁, es, found, rest) =
        >>=-ok (find_flows (has_flow_id id)) (λ docs. first_doc docs) s h in
      let (same, is_first) = find-first id s found rest in (same, is_first)

  -- Edits of other fields leave a query by flow id as it was.
  select-edit_at :
      (q : FlowDoc → Bool) (i : String) (f : FlowDoc → FlowDoc)
      → ((d : FlowDoc) → q (f d) ≡ q d)
      → (es : List (Entry FlowDoc))
      → select (λ e. q e.1) (map (edit_at i f) es) ≡ map (edit_at i f) (select (λ e. q e.1) es)
  select-edit_at q i f same [] = refl
  select-edit_at q i f same ((j, d) ∷ es) = ground (arith, same d, select-edit_at q i f same es)

  first-edit_at :
      (i : String) (f : FlowDoc → FlowDoc) (doc : FlowDoc) (es : List (Entry FlowDoc))
      → first es ≡ some (i, doc)
      → first (map (edit_at i f) es) ≡ some (i, f doc)
  first-edit_at i f doc [] h = cc
  first-edit_at i f doc ((j, d) ∷ es) h = ground (arith, eq_iff j i)

  -- After an update of its first document, a flow's first document is the updated one.
  pub FirstIs-Edited :
      (s s' : StoreDb b) (id i : String) (doc : FlowDoc) (f : FlowDoc → FlowDoc)
      → ((d : FlowDoc) → (f d).flow_id ≡ d.flow_id)
      → FirstIs s id i doc
      → Edited s i f s'
      → FirstIs s' id i (f doc)
  FirstIs-Edited s s' id i doc f keeps before edited =
      let same =
        select-edit_at (has_flow_id id) i f (λ d. ap (λ j. j == id) (keeps d))
          (b.flows.contents s.flows) in
      rw edited (rw same (first-edit_at i f doc _ before))

  pub update-ok :
      (i : String) (f : FlowDoc → FlowDoc) (s : StoreDb b) {s' : StoreDb b} {u : Unit {0}}
      → update_flow i f s ≡ (s', ok u)
      → Edited s i f s'
  unfolding update_flow
  update-ok i f s {s'} h = elim (Option-cases (b.flows.update_by_id i f s.flows)) [
    | inl e ↦ cc (rw (e, update_flow) at h)
    | inr (db, e) ↦
        let done : b.flows.contents db ≡ b.flows.contents s'.flows =
          ap (λ (p : StoreDb b × Result (Unit {0})). b.flows.contents p.0.flows)
            (rw (e, update_flow) at h) in
        sym done ∙ b.flows.updated i f s.flows db e
  ]

  not_legacy :
      (doc : FlowDoc) (r : Rec) → is_some doc.published_version ≡ true → is_legacy doc r ≡ false
  unfolding is_legacy
  not_legacy doc r h = ground arith

  migrate-ok :
      (i : String) (doc : FlowDoc) (rec : Rec) (now : String) (s : StoreDb b) {s' : StoreDb b}
      {r : Rec}
      → is_some doc.published_version ≡ true
      → migrate_legacy_published (i, doc) rec now s ≡ (s', ok r)
      → (s ≡ s') × (r ≡ rec)
  unfolding migrate_legacy_published pure
  migrate-ok i doc rec now s has h =
      let e = not_legacy doc rec has in
      let h' = rw (e, migrate_legacy_published) at h in (ground arith, ground arith)

  -- A successful read of a flow whose document has the publish fields: nothing is migrated.
  pub get_flow-ok :
      (id now i : String) (doc : FlowDoc) (s : StoreDb b) {s' : StoreDb b} {r : Rec}
      → FirstIs s id i doc
      → is_some doc.published_version ≡ true
      → get_flow id now s ≡ (s', ok r)
      → (s ≡ s') × (r ≡ flow_from_doc doc)
  unfolding get_flow
  get_flow-ok id now i doc s {s'} {r} first_is has h =
      let (s₁, e, found, rest) =
        >>=-ok (first_flow id) (λ e. migrate_legacy_published (e.0, e.1) (flow_from_doc e.1) now) s
          h in
      let (same, is_first) = first_flow-ok id s found in
      let it : some e ≡ some (i, doc) = sym is_first ∙ first_is in
      let eq : e ≡ (i, doc) = cc in
      let rest' : migrate_legacy_published (i, doc) (flow_from_doc doc) now s₁ ≡ (s', ok r) =
        rw eq at rest in
      let (same', value) = migrate-ok i doc (flow_from_doc doc) now s₁ has rest' in
      (same ∙ same', value)

  -- The end of most operations: an update of the flow's first document, and a read back.
  pub update_get-ok :
      (i id now : String) (f : FlowDoc → FlowDoc) (doc : FlowDoc) (s : StoreDb b) {s' : StoreDb b}
      {r : Rec}
      → ((d : FlowDoc) → (f d).flow_id ≡ d.flow_id)
      → is_some (f doc).published_version ≡ true
      → FirstIs s id i doc
      → (update_flow i f >>= λ _. get_flow id now) s ≡ (s', ok r)
      → Edited s i f s' × FirstIs s' id i (f doc) × (r ≡ flow_from_doc (f doc))
  update_get-ok i id now f doc s {s'} {r} keeps has before h =
      let (s₁, u, updated, read) = >>=-ok (update_flow i f) (λ _. get_flow id now) s h in
      let edited = update-ok i f s updated in
      let after = FirstIs-Edited s s₁ id i doc f keeps before edited in
      let (same, value) = get_flow-ok id now i (f doc) s₁ after has read in
      (
        subst (λ t. Edited s i f t) same edited,
        subst (λ t. FirstIs t id i (f doc)) same after,
        value,
      )

  -- A block that starts at a flow's first document, which is known.
  pub first_flow-bind :
      {B : Type 0} (id i : String) (doc : FlowDoc) (f : Entry FlowDoc → M B) (s : StoreDb b)
      {s' : StoreDb b} {c : B}
      → FirstIs s id i doc
      → (first_flow id >>= f) s ≡ (s', ok c)
      → f (i, doc) s ≡ (s', ok c)
  first_flow-bind id i doc f s {s'} {c} before h =
      let (s₁, e, found, rest) = >>=-ok (first_flow id) f s h in
      let (same, is_first) = first_flow-ok id s found in
      let it : some e ≡ some (i, doc) = sym is_first ∙ before in
      let eq : e ≡ (i, doc) = cc in
      let rest' : f (i, doc) s₁ ≡ (s', ok c) = rw eq at rest in rw same rest'

  -- An update fails and changes nothing, or edits the document.
  pub update_cases :
      (i : String) (f : FlowDoc → FlowDoc) (s : StoreDb b)
      → ((update_flow i f s).0 ≡ s) ⊎ Edited s i f (update_flow i f s).0
  unfolding update_flow
  update_cases i f s = elim (Option-cases (b.flows.update_by_id i f s.flows)) [
    | inl e ↦ rw (e, update_flow) (inl refl)
    | inr (db, e) ↦ rw (e, update_flow) (inr (b.flows.updated i f s.flows db e))
  ]
