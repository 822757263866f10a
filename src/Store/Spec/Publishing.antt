-- ===== src/Store/Spec/Publishing.antt =====
-- What a successful publication, discard or rollback leaves in the flow's document.
use flowgo_server.Prelude.{
  ℕ, ◌+◌, ◌-◌, ◌&&◌, nonempty, ltb, length, drop, if◌then◌else◌, All, [], ◌∷◌, ◌++◌, Bool-cases,
  Option-cases, sym, String, ◌≡◌, refl, ap, subst, ◌∙◌, ◌⊎◌, eq_iff, ◌==◌, true, false, Option,
  some, List, arith, nat_eq, is_some, inl, inr,
}
use flowgo_server.Store.Docs.{
  FlowDoc, HistoryEntry, StoreError, version_or_zero, bad_json, history_not_found,
}
use flowgo_server.Store.Backend.{Backend, StoreDb}
use flowgo_server.Store.Exec.{ok, or_err, ◌>>=◌, attempt, update_flow}
use flowgo_server.Store.Records.{
  Rec, Dsl, keep_last_history, flow_from_doc, read_history, parse_dsl, apply_publish_status,
  unpublished_changes_of, fingerprints_differ,
}
use flowgo_server.Store.WellFormed.{parse-marshal}
use flowgo_server.Store.Flow.{get_flow}
use flowgo_server.Store.Publish.{
  publish_flow, discard_draft, rollback_to, rollback_publish, publish_history, rollback_history,
  live_entry, find_version, publish_edit, note_edit, discard_edit, rollback_edit, rollback_target,
}
use flowgo_server.Store.Spec.{
  FirstIs, Edited, first_flow-bind, update_get-ok, >>=-ok, lift-ok, refuse-ok, update-ok,
  FirstIs-Edited, get_flow-ok, update_cases,
}

or_err-ok : {A : Type 0} (o : Option A) (e : StoreError) {a : A} → or_err o e ≡ ok a → o ≡ some a
or_err-ok o e h = ground arith

module _ ⦃b : Backend⦄ where
  -- What is live after a publication or a rollback of the document `doc`.
  pub record IsLive (doc doc' : FlowDoc) (json : String) (history : List HistoryEntry)
      : Type 0 where
    pub live : doc'.published_json ≡ json
    pub draft : doc'.dsl_json ≡ doc.dsl_json
    pub version : doc'.published_version ≡ some (version_or_zero doc.published_version + 1)
    pub past : read_history doc' ≡ history
    pub group : doc'.group_id ≡ doc.group_id
    pub unlocked : doc'.locked ≡ false

  -- The newest 20 entries.
  abbrev pub newest_20 : List HistoryEntry → List HistoryEntry
  newest_20 h = drop (length h - 20) h

  -- The history with the version that was live at its end, under a note.
  abbrev pub pushed : FlowDoc → String → List HistoryEntry
  pushed doc note = newest_20 (
      read_history doc
      ++ (record {
        version = version_or_zero doc.published_version;
        note = note;
        published_at = doc.published_at;
        dsl_json = doc.published_json;
      }
          ∷ []))

  keep_last-newest_20 : (h : List HistoryEntry) → keep_last_history h ≡ newest_20 h
  unfolding keep_last_history
  keep_last-newest_20 h = elim (Bool-cases (ltb 20 (length h))) [
    | inl long ↦ rw long refl
    | inr short ↦ let none_cut : length h - 20 ≡ 0 = ground arith in rw (short, none_cut) refl
  ]

  publish_history-pushed :
      (doc : FlowDoc)
      → publish_history doc ≡ (if doc.published_json == "" then read_history doc else pushed doc "")
  unfolding publish_history
  publish_history-pushed doc =
      rw (keep_last-newest_20 (read_history doc ++ (live_entry doc "" ∷ []))) refl

  rollback_history-pushed :
      (doc : FlowDoc)
      → rollback_history doc ≡ (
          if nonempty doc.published_json && ltb 0 (version_or_zero doc.published_version)
          then pushed doc doc.published_note
          else read_history doc)
  unfolding rollback_history
  rollback_history-pushed doc =
      rw (keep_last-newest_20 (read_history doc ++ (live_entry doc doc.published_note ∷ []))) refl

  -- The first entry of a history with the version.
  pub record IsFirstOf (version : ℕ) (history : List HistoryEntry) (target : HistoryEntry)
      : Type 0 where
    pub older : List HistoryEntry
    pub newer : List HistoryEntry
    pub placed : history ≡ older ++ (target ∷ newer)
    pub others : All (λ (e : HistoryEntry). nat_eq e.version version ≡ false) older
    pub fits : target.version ≡ version

  find_version-IsFirstOf :
      (version : ℕ) (history : List HistoryEntry) (target : HistoryEntry)
      → find_version version history ≡ some target
      → IsFirstOf version history target
  unfolding find_version
  find_version-IsFirstOf version [] target h = cc
  find_version-IsFirstOf version (e ∷ es) target h = elim (Bool-cases (nat_eq e.version version)) [
    | inl q ↦
        let same : e ≡ target = cc (rw (find_version, q) at h) in
        record {
          older = [];
          newer = es;
          placed = ap (λ x. x ∷ es) same;
          others = tt;
          fits = ap (λ (x : HistoryEntry). x.version) (sym same) ∙ ground (arith, q);
        }
    | inr q ↦
        let k = find_version-IsFirstOf version es target (rw (find_version, q) at h) in
        record {
          older = e ∷ k.older;
          newer = k.newer;
          placed = ap (λ l. e ∷ l) k.placed;
          others = (q, k.others);
          fits = k.fits;
        }
  ]

  rollback_target-IsFirstOf :
      (version : ℕ) (doc : FlowDoc) (target : HistoryEntry)
      → rollback_target version doc ≡ some target
      → IsFirstOf version (read_history doc) target
  unfolding rollback_target
  rollback_target-IsFirstOf version doc target h =
      elim (Option-cases (find_version version (read_history doc))) [
        | inl q ↦ cc (rw (rollback_target, q) at h)
        | inr (e, q) ↦ elim (Bool-cases (e.dsl_json == "")) [
          | inl r ↦ cc (rw (rollback_target, q, r) at h)
          | inr r ↦
              find_version-IsFirstOf version (read_history doc) target
                (q ∙ (rw (rollback_target, q, r) at h))
        ]
      ]

  discard_result :
      (id i now : String) (doc : FlowDoc) (s : StoreDb b) {s' : StoreDb b} {r : Rec}
      → FirstIs s id i doc
      → is_some doc.published_version ≡ true
      → discard_draft id now s ≡ (s', ok r)
      → (dsl : Dsl) × (b.unmarshal_dsl doc.published_json ≡ some dsl)
        × Edited s i (discard_edit doc dsl now) s'
        × (r ≡ flow_from_doc (discard_edit doc dsl now doc))
  unfolding discard_draft
  discard_result id i now doc s before has h =
      let h₁ = first_flow-bind id i doc _ s before h in
      let (_, h₂) = refuse-ok _ _ _ s h₁ in
      let (_, h₃) = refuse-ok _ _ _ s h₂ in
      let (dsl, parsed, h₄) = lift-ok _ _ s h₃ in
      let (edited, _, value) =
        update_get-ok i id now (discard_edit doc dsl now) doc s (λ d. refl) has before h₄ in
      (dsl, or_err-ok _ bad_json parsed, edited, value)

  same_draft :
      (doc : FlowDoc) (now : String) (dsl : Dsl) (fp : String)
      → b.unmarshal_dsl doc.published_json ≡ some dsl
      → b.dsl_fingerprint dsl ≡ some fp
      → (doc.published_json == "") ≡ false
      → let r = flow_from_doc (discard_edit doc dsl now doc) in
        (r.dsl ≡ some dsl) × (r.published_dsl ≡ some dsl) × (r.unpublished_changes ≡ false)
  unfolding flow_from_doc parse_dsl apply_publish_status unpublished_changes_of fingerprints_differ
  same_draft doc now dsl fp parsed fingerprint solid =
      rw (solid, parsed) (refl, refl, rw fingerprint (ground (arith, eq_iff fp fp)))

  -- A flow's first document has a publish version and a live text that is not empty, and its DSL
  -- `dsl` has a fingerprint. A discard that succeeds makes `dsl` the draft and leaves it live, clears
  -- the mark of unpublished changes, and edits no other document.
  pub discard_draft-live :
      (id i now : String) (doc : FlowDoc) (dsl : Dsl) (fp : String) (s s' : StoreDb b) (r : Rec)
      → FirstIs s id i doc
      → is_some doc.published_version ≡ true
      → (doc.published_json == "") ≡ false
      → b.unmarshal_dsl doc.published_json ≡ some dsl
      → b.dsl_fingerprint dsl ≡ some fp
      → discard_draft id now s ≡ (s', ok r)
      → (r.dsl ≡ some dsl)
        × (r.published_dsl ≡ some dsl)
        × (r.unpublished_changes ≡ false)
        × Edited s i (discard_edit doc dsl now) s'
  discard_draft-live id i now doc dsl fp s s' r before has solid parsed fingerprint h =
      let (dsl', parsed', edited, value) = discard_result id i now doc s before has h in
      let eq : dsl' ≡ dsl = cc in
      let (x, y, z) = same_draft doc now dsl fp parsed fingerprint solid in
      let value' : r ≡ flow_from_doc (discard_edit doc dsl now doc) =
        value ∙ ap (λ e. flow_from_doc (discard_edit doc e now doc)) eq in
      rw value' (x, y, z, subst (λ e. Edited s i (discard_edit doc e now) s') eq edited)

  -- The second update of PublishFlow, whose error is ignored, changes the note or nothing.
  note_result :
      (i id note now : String) (doc : FlowDoc) (s : StoreDb b) {s' : StoreDb b} {r : Rec}
      → is_some doc.published_version ≡ true
      → FirstIs s id i doc
      → (attempt (update_flow i (note_edit note)) >>= λ _. get_flow id now) s ≡ (s', ok r)
      → (doc' : FlowDoc) × FirstIs s' id i doc'
        × (r ≡ flow_from_doc doc')
        × ((doc' ≡ doc) ⊎ (doc' ≡ note_edit note doc))
  unfolding attempt ◌>>=◌
  note_result i id note now doc s {s'} {r} has before h = elim (update_cases i (note_edit note) s) [
    | inl same ↦
        let h' : get_flow id now s ≡ (s', ok r) =
          subst (λ t. get_flow id now t ≡ (s', ok r)) same h in
        let (there, value) = get_flow-ok id now i doc s before has h' in
        (doc, subst (λ t. FirstIs t id i doc) there before, value, inl refl)
    | inr edited ↦
        let after =
          FirstIs-Edited s (update_flow i (note_edit note) s).0 id i doc (note_edit note)
            (λ d. refl) before edited in
        let (there, value) = get_flow-ok id now i (note_edit note doc) _ after has h in
        (
          note_edit note doc,
          subst (λ t. FirstIs t id i (note_edit note doc)) there after,
          value,
          inr refl,
        )
  ]

  -- A publication that succeeds: the draft's text is live under the next version, and draft, group
  -- and lock are as they were. The history is the newest 20 entries of the old history and the
  -- version that was live, with no note, or the old history where none was live.
  pub publish_flow-IsLive :
      (id i note now : String) (doc : FlowDoc) (s s' : StoreDb b) (r : Rec)
      → FirstIs s id i doc
      → publish_flow id note now s ≡ (s', ok r)
      → (doc' : FlowDoc) × FirstIs s' id i doc'
        × IsLive doc doc' doc.dsl_json
            (if doc.published_json == "" then read_history doc else pushed doc "")
        × (r ≡ flow_from_doc doc')
  unfolding publish_flow
  publish_flow-IsLive id i note now doc s s' r before h =
      let h₁ = first_flow-bind id i doc _ s before h in
      let (unlocked, h₂) = refuse-ok _ _ _ s h₁ in
      let (_, h₃) = refuse-ok _ _ _ s h₂ in
      let (draft, _, h₄) = lift-ok _ _ s h₃ in
      let (hist, marshalled, h₅) = lift-ok _ _ s h₄ in
      let (s₁, _, updated, h₆) = >>=-ok (update_flow i (publish_edit doc draft hist now)) _ s h₅ in
      let edited = update-ok i (publish_edit doc draft hist now) s updated in
      let new = publish_edit doc draft hist now doc in
      let after =
        FirstIs-Edited s s₁ id i doc (publish_edit doc draft hist now) (λ d. refl) before edited in
      let (doc', there, value, which) = note_result i id note now new s₁ refl after h₆ in
      let past =
        parse-marshal (publish_history doc) hist (or_err-ok _ bad_json marshalled)
        ∙ publish_history-pushed doc in
      (
        doc',
        there,
        elim which [
          | inl e ↦ rw e (record {
            live = refl;
            draft = refl;
            version = refl;
            past = past;
            group = refl;
            unlocked = unlocked;
          })
          | inr e ↦ rw e (record {
            live = refl;
            draft = refl;
            version = refl;
            past = past;
            group = refl;
            unlocked = unlocked;
          })
        ],
        value,
      )

  -- A rollback to a version that is not the live one and that succeeds: the text of the history's
  -- first entry with that version is live under the next version, and draft, group and lock are as
  -- they were. The history is the newest 20 entries of the old history and the version that was
  -- live, with its note, or the old history where none was live.
  pub rollback_publish-IsLive :
      (id i now : String) (version : ℕ) (doc : FlowDoc) (s s' : StoreDb b) (r : Rec)
      → FirstIs s id i doc
      → nat_eq version (version_or_zero doc.published_version) ≡ false
      → rollback_publish id version now s ≡ (s', ok r)
      → (target : HistoryEntry) × IsFirstOf version (read_history doc) target
        × (doc' : FlowDoc) × FirstIs s' id i doc'
        × IsLive doc doc' target.dsl_json (
            if nonempty doc.published_json && ltb 0 (version_or_zero doc.published_version)
            then pushed doc doc.published_note
            else read_history doc)
        × (r ≡ flow_from_doc doc')
  unfolding rollback_publish rollback_to
  rollback_publish-IsLive id i now version doc s s' r before other h =
      let h₁ = first_flow-bind id i doc _ s before h in
      let (unlocked, h₂) = refuse-ok _ _ _ s h₁ in
      let h₃ : rollback_to id (i, doc) version now s ≡ (s', ok r) = rw other at h₂ in
      let (target, found, h₄) = lift-ok _ _ s h₃ in
      let (hist, marshalled, h₅) = lift-ok _ _ s h₄ in
      let (_, _, h₆) = lift-ok _ _ s h₅ in
      let (edited, there, value) =
        update_get-ok i id now (rollback_edit doc target hist now) doc s (λ d. refl) refl before
          h₆ in
      (
        target,
        rollback_target-IsFirstOf version doc target (or_err-ok _ history_not_found found),
        rollback_edit doc target hist now doc,
        there,
        record {
          live = refl;
          draft = refl;
          version = refl;
          past =
              parse-marshal (rollback_history doc) hist (or_err-ok _ bad_json marshalled)
              ∙ rollback_history-pushed doc;
          group = refl;
          unlocked = unlocked;
        },
        value,
      )
