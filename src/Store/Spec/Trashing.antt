-- ===== src/Store/Spec/Trashing.antt =====
-- Into the trash and out of it again.
use flowgo_server.Prelude.{
  String, if◌then◌else◌, Bool, Option, none, some, ◌≡◌, refl, sym, ap, subst, ◌∙◌, inl, inr, ◌==◌,
  true, false, List, [], ◌∷◌, is_some, Bool-cases, Option-cases, eq_iff,
}
use flowgo_server.Clover.{Entry}
use flowgo_server.Store.Docs.{FlowDoc, GroupDoc, trash_group_id}
use flowgo_server.Store.Backend.{Backend, StoreDb}
use flowgo_server.Store.Exec.{
  M, Result, ok, ◌>>=◌, pure, raise, attempt, find_groups, first_doc, update_flow,
}
use flowgo_server.Store.Records.{Rec, flow_from_doc, parse_dsl, apply_publish_status}
use flowgo_server.Store.Flow.{get_flow, require_group, has_group_id}
use flowgo_server.Store.Trash.{
  SoftDeleteResult, soft_delete_or_purge_flow, move_to_trash, unpublish_if, restore_flow, not_trash,
  trash_edit, restore_edit, existing_or_none,
}
use flowgo_server.Store.Spec.{
  FirstIs, first_flow-bind, update_get-ok, >>=-ok, refuse-ok, get_flow-ok, update-ok,
  FirstIs-Edited,
}

module _ ⦃b : Backend⦄ where
  -- A read of a migrated flow at the head of a block.
  get_flow-bind :
      {B : Type 0} (id now i : String) (doc : FlowDoc) (f : Rec → M B) (s : StoreDb b)
      {s' : StoreDb b} {c : B}
      → FirstIs s id i doc
      → is_some doc.published_version ≡ true
      → (get_flow id now >>= f) s ≡ (s', ok c)
      → f (flow_from_doc doc) s ≡ (s', ok c)
  get_flow-bind id now i doc f s {s'} {c} before has h =
      let (s₁, r, read, rest) = >>=-ok (get_flow id now) f s h in
      let (same, value) = get_flow-ok id now i doc s before has read in
      let rest' : f (flow_from_doc doc) s₁ ≡ (s', ok c) = rw value at rest in rw same rest'

  require_group-state : (g : String) (s : StoreDb b) → (require_group g s).0 ≡ s
  unfolding require_group ◌>>=◌ find_groups first_doc pure raise
  require_group-state g s = elim (Bool-cases (g == "")) [
    | inl e ↦ rw e refl
    | inr e ↦ elim (Option-cases (b.groups.find_all (has_group_id g) s.groups)) [
      | inl failed ↦ rw e (rw failed refl)
      | inr (found, there) ↦ rw e (rw there (found_state found))
    ]
  ]
    where
      found_state : (found : List (Entry GroupDoc)) → ((first_doc found >>= λ g. pure tt) s).0 ≡ s
      found_state [] = refl
      found_state (x ∷ found) = refl

  off_line :
      (doc : FlowDoc) → (doc.published_json == "") ≡ true → (flow_from_doc doc).published ≡ false
  unfolding flow_from_doc apply_publish_status parse_dsl
  off_line doc e = rw e refl

  moved :
      (rec : Rec) (id i now : String) (doc : FlowDoc) (s s' : StoreDb b) (r : SoftDeleteResult Rec)
      → FirstIs s id i doc
      → is_some doc.published_version ≡ true
      → rec.published ≡ false
      → move_to_trash rec id now s ≡ (s', ok r)
      → FirstIs s' id i (trash_edit (not_trash rec.group_id) now doc)
  unfolding move_to_trash unpublish_if pure
  moved rec id i now doc s s' r before has off h =
      let (s₁, u, skipped, h₁) = >>=-ok (unpublish_if rec.published id now) _ s h in
      let same : s ≡ s₁ =
        ap (λ (p : StoreDb b × Result (Unit {0})). p.0) (rw (off, unpublish_if) at skipped) in
      let h₂ = first_flow-bind id i doc _ s₁ (subst (λ t. FirstIs t id i doc) same before) h₁ in
      let edit = trash_edit (not_trash rec.group_id) now in
      let (s₂, v, updated, h₃) = >>=-ok (update_flow i edit) _ s₁ h₂ in
      let after =
        FirstIs-Edited s₁ s₂ id i doc edit (λ d. refl) (subst (λ t. FirstIs t id i doc) same before)
          (update-ok i edit s₁ updated) in
      let h₄ = get_flow-bind id now i (edit doc) _ s₂ after has h₃ in
      let there : s₂ ≡ s' = ap (λ (p : StoreDb b × Result (SoftDeleteResult Rec)). p.0) h₄ in
      subst (λ t. FirstIs t id i (edit doc)) there after

  -- In the trash, with the group to go back to.
  trashed :
      (id i now : String) (doc : FlowDoc) (s s' : StoreDb b) (r : SoftDeleteResult Rec)
      → FirstIs s id i doc
      → is_some doc.published_version ≡ true
      → (doc.published_json == "") ≡ true
      → (doc.group_id == trash_group_id) ≡ false
      → soft_delete_or_purge_flow id now s ≡ (s', ok r)
      → FirstIs s' id i (trash_edit doc.group_id now doc)
  unfolding soft_delete_or_purge_flow not_trash flow_from_doc apply_publish_status
  trashed id i now doc s s' r before has off outside h =
      let h₁ = get_flow-bind id now i doc _ s before has h in
      let (_, h₂) = refuse-ok _ _ _ s h₁ in
      let h₃ : move_to_trash (flow_from_doc doc) id now s ≡ (s', ok r) = rw outside at h₂ in
      let there = moved (flow_from_doc doc) id i now doc s s' r before has (off_line doc off) h₃ in
      subst (λ g. FirstIs s' id i (trash_edit g now doc)) (rw outside refl) there

  abbrev any_group : Option (List (Entry GroupDoc)) → Bool
  any_group none = false
  any_group (some []) = false
  any_group (some (x ∷ xs)) = true

  -- The group, if the database finds it, else no group.
  abbrev pub surviving_group : String → StoreDb b → String
  surviving_group g s = if any_group (b.groups.find_all (has_group_id g) s.groups) then g else ""

  found_survives :
      (g : String) (s : StoreDb b) (found : List (Entry GroupDoc))
      → existing_or_none g ((first_doc found >>= λ x. pure tt) s).1
        ≡ (if any_group (some found) then g else "")
  unfolding existing_or_none ◌>>=◌ first_doc pure raise
  found_survives g s [] = refl
  found_survives g s (x ∷ found) = refl

  required_survives :
      (g : String) (s : StoreDb b) → existing_or_none g (require_group g s).1 ≡ surviving_group g s
  unfolding require_group existing_or_none ◌>>=◌ find_groups first_doc pure raise
  required_survives g s = elim (Bool-cases (g == "")) [
    | inl e ↦
        let empty : g ≡ "" = (eq_iff g "").0 e in
        elim (Bool-cases (any_group (b.groups.find_all (has_group_id g) s.groups))) [
          | inl q ↦ rw (e, q) refl
          | inr q ↦ rw (e, q) empty
        ]
    | inr e ↦ elim (Option-cases (b.groups.find_all (has_group_id g) s.groups)) [
      | inl failed ↦ rw e (rw failed refl)
      | inr (found, there) ↦ rw e (rw there (found_survives g s found))
    ]
  ]

  survives :
      (g : String) (s t : StoreDb b) (checked : Result (Unit {0}))
      → attempt (require_group g) s ≡ (t, ok checked)
      → existing_or_none g checked ≡ surviving_group g s
  unfolding attempt
  survives g s t checked h =
      let same : (require_group g s).1 ≡ checked = cc in
      ap (λ o. existing_or_none g o) (sym same) ∙ required_survives g s

  -- A flow with the publish fields, off line and not in the trash, is deleted softly and then
  -- restored, both calls succeeding. Its document is then as it was, but for the time of update, the
  -- group to go back to, which is cleared, and the group, which is cleared where the database does
  -- not find it at the restore.
  pub restore_flow-soft_delete :
      (id i now later : String) (doc : FlowDoc) (s s₁ s₂ : StoreDb b) (r₁ : SoftDeleteResult Rec)
      (r₂ : Rec)
      → FirstIs s id i doc
      → is_some doc.published_version ≡ true
      → (doc.published_json == "") ≡ true
      → (doc.group_id == trash_group_id) ≡ false
      → soft_delete_or_purge_flow id now s ≡ (s₁, ok r₁)
      → restore_flow id later s₁ ≡ (s₂, ok r₂)
      → let back = record doc {
        group_id = surviving_group doc.group_id s₁;
        previous_group_id = "";
        updated_at = later;
      } in
        FirstIs s₂ id i back × (r₂ ≡ flow_from_doc back)
  unfolding restore_flow not_trash flow_from_doc apply_publish_status attempt
  restore_flow-soft_delete id i now later doc s s₁ s₂ r₁ r₂ before has off outside deleted
        restored =
      let there = trashed id i now doc s s₁ r₁ before has off outside deleted in
      let old = trash_edit doc.group_id now doc in
      let h₁ = get_flow-bind id later i old _ s₁ there has restored in
      let (_, h₂) = refuse-ok _ _ _ s₁ h₁ in
      let (t, checked, looked, h₃) = >>=-ok _ _ s₁ h₂ in
      let same : s₁ ≡ t =
        sym (require_group-state (not_trash doc.group_id) s₁)
        ∙ ap (λ (p : StoreDb b × Result (Result (Unit {0}))). p.0) looked in
      let there' = subst (λ x. FirstIs x id i old) same there in
      let h₄ = first_flow-bind id i old _ t there' h₃ in
      let group = existing_or_none (not_trash doc.group_id) checked in
      let kept : not_trash doc.group_id ≡ doc.group_id = rw outside refl in
      let (_, after, value) =
        update_get-ok i id later (restore_edit group later) old t (λ d. refl) has there' h₄ in
      let eq : group ≡ surviving_group doc.group_id s₁ =
        survives (not_trash doc.group_id) s₁ t checked looked
        ∙ ap (λ g. surviving_group g s₁) kept in
      (
        subst (λ g. FirstIs s₂ id i (restore_edit g later doc)) eq after,
        value ∙ ap (λ g. flow_from_doc (restore_edit g later doc)) eq,
      )
