-- ===== src/Store/Spec/Online.antt =====
-- Off line and on line again, and the numbering of versions across that.
use flowgo_server.Prelude.{
  ◌<◌, ◌≤◌, String, ◌≡◌, refl, sym, ◌∙◌, ◌==◌, false, Option, some, List, [], ◌∷◌, ◌++◌, arith,
  length, length-append,
}
use flowgo_server.Store.Docs.{
  FlowDoc, HistoryEntry, StoreError, version_or_zero, bad_json, no_publish_history,
}
use flowgo_server.Store.Backend.{Backend, StoreDb}
use flowgo_server.Store.Exec.{ok, or_err}
use flowgo_server.Store.Records.{
  Rec, flow_from_doc, apply_publish_status, read_history, keep_last_history, parse_history,
}
use flowgo_server.Store.WellFormed.{parse-marshal}
use flowgo_server.Store.Flow.{get_flow}
use flowgo_server.Store.Publish.{live_entry, publish_flow, rollback_publish}
use flowgo_server.Store.Online.{
  split_last, unpublish_flow, offline_history, offline_edit, go_online_from_latest, online_edit,
}
use flowgo_server.Store.Spec.Publishing.{publish_flow-IsLive}
use flowgo_server.Store.Spec.{
  FirstIs, first_flow-bind, update_get-ok, lift-ok, refuse-ok, get_flow-ok,
}

or_err-ok : {A : Type 0} (o : Option A) (e : StoreError) {a : A} → or_err o e ≡ ok a → o ≡ some a
or_err-ok o e h = ground arith

keep_last-short : (h : List HistoryEntry) → length h ≤ 20 → keep_last_history h ≡ h
unfolding keep_last_history
keep_last-short h short = ground arith

split_last-append :
    (h : List HistoryEntry) (e : HistoryEntry) → split_last (h ++ (e ∷ [])) ≡ some (h, e)
unfolding split_last
split_last-append [] e = refl
split_last-append (x ∷ h) e = rw (split_last-append h e, split_last)

split_last_unique :
    (h front : List HistoryEntry) (e last : HistoryEntry)
    → split_last (h ++ (e ∷ [])) ≡ some (front, last)
    → (h ≡ front) × (e ≡ last)
split_last_unique h front e last p =
    let both : ◌≡◌ {A = Option (List HistoryEntry × HistoryEntry)} (some (h, e))
        (some (front, last)) =
      sym (split_last-append h e) ∙ p in
    (cc, cc)

module _ ⦃b : Backend⦄ where
  -- After going off line: nothing is live, and the history ends in what was.
  unpublish_result :
      (id i now : String) (doc : FlowDoc) (s s' : StoreDb b) (r : Rec)
      → FirstIs s id i doc
      → unpublish_flow id now s ≡ (s', ok r)
      → (hist : String) × (read_history (offline_edit hist now doc) ≡ offline_history doc)
        × ((doc.published_json == "") ≡ false)
        × (doc.locked ≡ false)
        × FirstIs s' id i (offline_edit hist now doc)
  unfolding unpublish_flow
  unpublish_result id i now doc s s' r before h =
      let h₁ = first_flow-bind id i doc _ s before h in
      let (unlocked, h₂) = refuse-ok _ _ _ s h₁ in
      let (solid, h₃) = refuse-ok _ _ _ s h₂ in
      let (hist, marshalled, h₄) = lift-ok _ _ s h₃ in
      let (_, there, _) =
        update_get-ok i id now (offline_edit hist now) doc s (λ d. refl) refl before h₄ in
      (
        hist,
        parse-marshal (offline_history doc) hist (or_err-ok _ bad_json marshalled),
        solid,
        unlocked,
        there,
      )

  -- After coming on line: the last entry of the history is live.
  go_online_result :
      (id i now : String) (doc : FlowDoc) (s s' : StoreDb b) (r : Rec)
      → FirstIs s id i doc
      → go_online_from_latest id now s ≡ (s', ok r)
      → (front : List HistoryEntry) × (last : HistoryEntry) × (hist : String) × (split_last
            (read_history doc)
          ≡ some (front, last))
        × (parse_history hist ≡ front)
        × FirstIs s' id i (online_edit last hist now doc)
  unfolding go_online_from_latest
  go_online_result id i now doc s s' r before h =
      let h₁ = first_flow-bind id i doc _ s before h in
      let (_, h₂) = refuse-ok _ _ _ s h₁ in
      let (_, h₃) = refuse-ok _ _ _ s h₂ in
      let (split, e, h₄) = lift-ok _ _ s h₃ in
      let (hist, marshalled, h₅) = lift-ok _ _ s h₄ in
      let (_, _, h₆) = lift-ok _ _ s h₅ in
      let (_, there, _) =
        update_get-ok i id now (online_edit split.1 hist now) doc s (λ d. refl) refl before h₆ in
      (
        split.0,
        split.1,
        hist,
        or_err-ok _ no_publish_history e,
        parse-marshal split.0 hist (or_err-ok _ bad_json marshalled),
        there,
      )

  -- What two documents of a flow have in common when the same version is live in both.
  pub record SameLive (doc doc' : FlowDoc) : Type 0 where
    pub live : doc'.published_json ≡ doc.published_json
    pub note : doc'.published_note ≡ doc.published_note
    pub time : doc'.published_at ≡ doc.published_at
    pub version : version_or_zero doc'.published_version ≡ version_or_zero doc.published_version
    pub past : read_history doc' ≡ read_history doc
    pub draft : doc'.dsl_json ≡ doc.dsl_json
    pub group : doc'.group_id ≡ doc.group_id

  -- A flow with fewer than 20 history entries and a publication time goes off line and then on line
  -- again, both calls succeeding: the same text is live under the same version, note and time, with
  -- the same history, and draft and group are as they were.
  pub go_online-unpublish :
      (id i now later : String) (doc : FlowDoc) (s s₁ s₂ : StoreDb b) (r₁ r₂ : Rec)
      → FirstIs s id i doc
      → length (read_history doc) < 20
      → (doc.published_at == "") ≡ false
      → unpublish_flow id now s ≡ (s₁, ok r₁)
      → go_online_from_latest id later s₁ ≡ (s₂, ok r₂)
      → (doc' : FlowDoc) × FirstIs s₂ id i doc' × SameLive doc doc'
  unfolding offline_history version_or_zero
  go_online-unpublish id i now later doc s s₁ s₂ r₁ r₂ before short timed off on =
      let (hist, past, solid, unlocked, there) = unpublish_result id i now doc s s₁ r₁ before off in
      let (front, last, hist', split, past', there') =
        go_online_result id i later (offline_edit hist now doc) s₁ s₂ r₂ there on in
      let entry = live_entry doc doc.published_note in
      let kept : offline_history doc ≡ read_history doc ++ (entry ∷ []) =
        keep_last-short _ (omega (arith, length-append (read_history doc) (entry ∷ []))) in
      let is_split : split_last (read_history doc ++ (entry ∷ [])) ≡ some (front, last) =
        rw (past, kept) at split in
      let (fronts, lasts) = split_last_unique (read_history doc) front entry last is_split in
      (
        online_edit last hist' later (offline_edit hist now doc),
        there',
        rw (← lasts) (record {
          live = refl;
          note = refl;
          time = rw timed;
          version = refl;
          past = past' ∙ sym fronts;
          draft = refl;
          group = refl;
        }),
      )

  -- Going off line forgets the version: whatever the live version was, the first publication after
  -- it, if both calls succeed, is version 1 again.
  pub publish-unpublish_version :
      (id i note now later : String) (doc : FlowDoc) (s s₁ s₂ : StoreDb b) (r₁ r₂ : Rec)
      → FirstIs s id i doc
      → unpublish_flow id now s ≡ (s₁, ok r₁)
      → publish_flow id note later s₁ ≡ (s₂, ok r₂)
      → r₂.published_version ≡ 1
  unfolding version_or_zero flow_from_doc apply_publish_status
  publish-unpublish_version id i note now later doc s s₁ s₂ r₁ r₂ before off on =
      let (hist, past, _, _, there) = unpublish_result id i now doc s s₁ r₁ before off in
      let (doc', there', is_live, value) =
        publish_flow-IsLive id i note later (offline_edit hist now doc) s₁ s₂ r₂ there on in
      rw (value, is_live.version)

  -- So after going off line and publishing, both successfully, a rollback to version 1 that succeeds
  -- changes nothing, whatever text the history still holds as version 1.
  pub rollback-publish-unpublish :
      (id i note now later last : String) (doc : FlowDoc) (s s₁ s₂ s₃ : StoreDb b) (r₁ r₂ r₃ : Rec)
      → FirstIs s id i doc
      → unpublish_flow id now s ≡ (s₁, ok r₁)
      → publish_flow id note later s₁ ≡ (s₂, ok r₂)
      → rollback_publish id 1 last s₂ ≡ (s₃, ok r₃)
      → (s₃ ≡ s₂) × (r₃ ≡ r₂)
  unfolding version_or_zero rollback_publish
  rollback-publish-unpublish id i note now later last doc s s₁ s₂ s₃ r₁ r₂ r₃ before off on back =
      let (hist, past, _, _, there) = unpublish_result id i now doc s s₁ r₁ before off in
      let (doc', there', is_live, value) =
        publish_flow-IsLive id i note later (offline_edit hist now doc) s₁ s₂ r₂ there on in
      let version : doc'.published_version ≡ some 1 = is_live.version in
      let h₁ = first_flow-bind id i doc' _ s₂ there' back in
      let (_, h₂) = refuse-ok _ _ _ s₂ h₁ in
      let h₃ : get_flow id last s₂ ≡ (s₃, ok r₃) = rw (version, version_or_zero) at h₂ in
      let (same, value') = get_flow-ok id last i doc' s₂ there' (rw version) h₃ in
      (sym same, value' ∙ sym value)
