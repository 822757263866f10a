-- ===== src/Store/Spec/Named.antt =====
-- The record that a publishing call returns, and the flow it was called with.
use flowgo_server.Prelude.{
  ℕ, String, ◌≡◌, sym, ap, ◌∙◌, ◌==◌, Bool, true, false, some, List, [], ◌∷◌, select, Bool-cases,
  inl, inr, if◌then◌else◌, eq_iff, arith, nat_eq,
}
use flowgo_server.Clover.{Entry, first}
use flowgo_server.Store.Docs.{FlowDoc, version_or_zero}
use flowgo_server.Store.Backend.{Backend, StoreDb}
use flowgo_server.Store.Exec.{M, ok, ◌>>=◌, pure}
use flowgo_server.Store.Records.{Rec, flow_from_doc, apply_publish_status}
use flowgo_server.Store.Flow.{
  has_flow_id, first_flow, is_legacy, migrate_legacy_published, get_flow,
}
use flowgo_server.Store.Publish.{publish_flow, rollback_to, rollback_publish}
use flowgo_server.Store.Online.{unpublish_flow, go_online_from_latest}
use flowgo_server.Store.Spec.{>>=-ok, first_flow-ok}

module _ ⦃b : Backend⦄ where
  -- Each record that the call returns has the id.
  abbrev pub Names : String → M Rec → Type 0
  Names id m = (s s' : StoreDb b) (r : Rec) → m s ≡ (s', ok r) → r.id ≡ id

  rest-Names :
      {A : Type 0} (id : String) (m : M A) (f : A → M Rec)
      → ((a : A) → Names id (f a))
      → Names id (m >>= f)
  rest-Names id m f h s s' r e = let (s₁, a, done, rest) = >>=-ok m f s e in h a s₁ s' r rest

  pure-Names : (id : String) (r : Rec) → r.id ≡ id → Names id (pure r)
  unfolding pure
  pure-Names id r h s s' r' e =
      let same : r ≡ r' = ground arith in ap (λ (x : Rec). x.id) (sym same) ∙ h

  first-has :
      (id : String) (es : List (Entry FlowDoc)) (e : Entry FlowDoc)
      → first (select (λ x. has_flow_id id x.1) es) ≡ some e
      → e.1.flow_id ≡ id
  first-has id [] e h = cc
  first-has id (x ∷ es) e h = elim (Bool-cases (x.1.flow_id == id)) [
    | inl q ↦
        let same : x ≡ e = cc (rw q at h) in
        ap (λ (y : Entry FlowDoc). y.1.flow_id) (sym same) ∙ (eq_iff x.1.flow_id id).0 q
    | inr q ↦ first-has id es e (rw q at h)
  ]

  migrate-Names :
      (id : String) (e : Entry FlowDoc) (now : String)
      → e.1.flow_id ≡ id
      → Names id (migrate_legacy_published e (flow_from_doc e.1) now)
  unfolding migrate_legacy_published flow_from_doc apply_publish_status
  migrate-Names id e now h = elim (Bool-cases (is_legacy e.1 (flow_from_doc e.1))) [
    | inl q ↦ rw (q, migrate_legacy_published) (rest-Names id _ _ (λ u. pure-Names id _ h))
    | inr q ↦ rw (q, migrate_legacy_published) (pure-Names id _ h)
  ]

  get_flow-Names : (id now : String) → Names id (get_flow id now)
  unfolding get_flow
  get_flow-Names id now s s' r e =
      let (s₁, x, found, rest) =
        >>=-ok (first_flow id) (λ e. migrate_legacy_published (e.0, e.1) (flow_from_doc e.1) now) s
          e in
      migrate-Names id x now (first-has id _ x (first_flow-ok id s found).1) s₁ s' r rest

  get-Names : {A : Type 0} (id now : String) (m : M A) → Names id (m >>= λ a. get_flow id now)
  get-Names id now m = rest-Names id m _ (λ a. get_flow-Names id now)

  pub publish_flow-Names : (id note now : String) → Names id (publish_flow id note now)
  unfolding publish_flow
  publish_flow-Names id note now = rest-Names id _ _ λ e. rest-Names id _ _ λ u.
      rest-Names id _ _ λ v.
        rest-Names id _ _ λ dsl. rest-Names id _ _ λ hist. rest-Names id _ _ λ w. get-Names id now _

  pub unpublish_flow-Names : (id now : String) → Names id (unpublish_flow id now)
  unfolding unpublish_flow
  unpublish_flow-Names id now = rest-Names id _ _ λ e.
      rest-Names id _ _ λ u. rest-Names id _ _ λ v. rest-Names id _ _ λ hist. get-Names id now _

  pub go_online_from_latest-Names : (id now : String) → Names id (go_online_from_latest id now)
  unfolding go_online_from_latest
  go_online_from_latest-Names id now = rest-Names id _ _ λ e. rest-Names id _ _ λ u.
      rest-Names id _ _ λ v.
        rest-Names id _ _
          λ last. rest-Names id _ _ λ hist. rest-Names id _ _ λ dsl. get-Names id now _

  rollback_to-Names :
      (id : String) (e : Entry FlowDoc) (version : ℕ) (now : String)
      → Names id (rollback_to id e version now)
  unfolding rollback_to
  rollback_to-Names id e version now =
      rest-Names id _ _
        λ target. rest-Names id _ _ λ hist. rest-Names id _ _ λ dsl. get-Names id now _

  choice-Names :
      (id : String) (t : Bool) (m n : M Rec)
      → Names id m
      → Names id n
      → Names id (if t then m else n)
  choice-Names id true m n h k = h
  choice-Names id false m n h k = k

  pub rollback_publish-Names :
      (id : String) (version : ℕ) (now : String) → Names id (rollback_publish id version now)
  unfolding rollback_publish
  rollback_publish-Names id version now = rest-Names id _ _ λ e. rest-Names id _ _ λ u.
      choice-Names id (nat_eq version (version_or_zero e.1.published_version)) _ _
        (get_flow-Names id now) (rollback_to-Names id e version now)
