-- ===== src/Store/Preservation/Publishing.antt =====
-- Publishing, rolling back, going off and on line keep the documents well formed.
use flowgo_server.Prelude.{ℕ, ◌+◌, String, ◌≡◌, refl, Bool, Option, some, arith, nat_eq}
use flowgo_server.Store.Docs.{FlowDoc, StoreError, bad_json, version_or_zero}
use flowgo_server.Store.Backend.{Backend}
use flowgo_server.Store.Exec.{ok, or_err}
use flowgo_server.Store.Exec.Keeps.{
  Keeps-pure, Keeps-attempt, Keeps-if, Keeps-bind, Keeps-lift, Keeps-lift_end, Keeps-refuse,
  Keeps-update,
}
use flowgo_server.Store.Records.{read_history}
use flowgo_server.Store.WellFormed.{
  IsWellFormed, publish_history-IsHistory, rollback_history-IsHistory, offline_history-IsHistory,
  without_version-IsHistory, split_last-IsHistory, rollback_target-nonempty, parse-marshal,
  trim_space-ne_empty,
}
use flowgo_server.Store.Publish.{
  publish_flow, discard_draft, list_publish_history, rollback_to, rollback_publish,
  delete_publish_history, history_edit, without_version, publish_history, rollback_history,
}
use flowgo_server.Store.Online.{unpublish_flow, go_online_from_latest, peek_latest_publish_dsl}
use flowgo_server.Store.Preservation.{
  KeepsWf, first_flow-Keeps, published-IsWellFormed, offline-IsWellFormed, get_flow-Keeps,
  update_get-Keeps,
}

or_err-ok : {A : Type 0} (o : Option A) (e : StoreError) {a : A} → or_err o e ≡ ok a → o ≡ some a
or_err-ok o e h = ground arith

module _ ⦃b : Backend⦄ where
  pub publish_flow-Keeps : (id note now : String) → KeepsWf (publish_flow id note now)
  unfolding publish_flow
  publish_flow-Keeps id note now = first_flow-Keeps id _ λ i doc w. Keeps-refuse _ _ _ λ _.
      Keeps-refuse _ _ _ λ solid. Keeps-lift _ _ λ draft _. Keeps-lift _ _ λ hist m.
        Keeps-bind _ _
          (Keeps-update i _ λ d v.
            published-IsWellFormed _ (publish_history doc)
              (version_or_zero doc.published_version + 1) (parse-marshal _ hist (or_err-ok _ _ m))
              (publish_history-IsHistory w) refl (trim_space-ne_empty doc.dsl_json solid)
              (omega arith))
          (λ _.
            Keeps-bind _ _
              (Keeps-attempt _
                (Keeps-update i _ λ d v. record { history = v.history; live = v.live }))
              (λ _. get_flow-Keeps id now))

  pub discard_draft-Keeps : (id now : String) → KeepsWf (discard_draft id now)
  unfolding discard_draft
  discard_draft-Keeps id now = first_flow-Keeps id _ λ i doc w. Keeps-refuse _ _ _ λ _.
      Keeps-refuse _ _ _ λ _.
        Keeps-lift _ _
          λ dsl _. update_get-Keeps i id now _ λ d v. record { history = v.history; live = v.live }

  pub list_publish_history-Keeps :
      (id : String) (full : Bool) (now : String) → KeepsWf (list_publish_history id full now)
  unfolding list_publish_history
  list_publish_history-Keeps id full now =
      Keeps-bind _ _ (get_flow-Keeps id now) λ rec. first_flow-Keeps id _ λ i doc w. Keeps-pure _

  pub rollback_to-Keeps :
      (id i : String) (doc : FlowDoc) (version : ℕ) (now : String)
      → IsWellFormed doc
      → KeepsWf (rollback_to id (i, doc) version now)
  unfolding rollback_to
  rollback_to-Keeps id i doc version now w = Keeps-lift _ _ λ target t. Keeps-lift _ _ λ hist m.
      Keeps-lift _ _ λ rolled _. update_get-Keeps i id now _ λ d v.
        published-IsWellFormed _ (rollback_history doc) (version_or_zero doc.published_version + 1)
          (parse-marshal _ hist (or_err-ok _ _ m)) (rollback_history-IsHistory w) refl
          (rollback_target-nonempty w version target (or_err-ok _ _ t)) (omega arith)

  pub rollback_publish-Keeps :
      (id : String) (version : ℕ) (now : String) → KeepsWf (rollback_publish id version now)
  unfolding rollback_publish
  rollback_publish-Keeps id version now = first_flow-Keeps id _ λ i doc w. Keeps-refuse _ _ _ λ _.
      Keeps-if (nat_eq version (version_or_zero doc.published_version)) _ _ (get_flow-Keeps id now)
        (rollback_to-Keeps id i doc version now w)

  pub delete_publish_history-Keeps :
      (id : String) (version : ℕ) (now : String) → KeepsWf (delete_publish_history id version now)
  unfolding delete_publish_history
  delete_publish_history-Keeps id version now = first_flow-Keeps id _ λ i doc w.
      Keeps-refuse _ _ _ λ _. Keeps-refuse _ _ _ λ _. Keeps-refuse _ _ _ λ _.
        Keeps-refuse _ _ _ λ _. Keeps-lift _ _ λ hist m.
          update_get-Keeps i id now (history_edit hist now) λ d v. record {
            history =
                rw
                  (parse-marshal (without_version version (read_history doc)) hist
                    (or_err-ok _ bad_json m))
                  (without_version-IsHistory w version);
            live = v.live;
          }

  pub unpublish_flow-Keeps : (id now : String) → KeepsWf (unpublish_flow id now)
  unfolding unpublish_flow
  unpublish_flow-Keeps id now = first_flow-Keeps id _ λ i doc w. Keeps-refuse _ _ _ λ _.
      Keeps-refuse _ _ _ λ live. Keeps-lift _ _ λ hist m. update_get-Keeps i id now _ λ d v.
        offline-IsWellFormed _ _ (parse-marshal _ hist (or_err-ok _ _ m))
          (offline_history-IsHistory w live) refl refl

  pub go_online-Keeps : (id now : String) → KeepsWf (go_online_from_latest id now)
  unfolding go_online_from_latest
  go_online-Keeps id now = first_flow-Keeps id _ λ i doc w. Keeps-refuse _ _ _ λ _.
      Keeps-refuse _ _ _ λ _. Keeps-lift _ _ λ split e. Keeps-lift _ _ λ hist m.
        Keeps-lift _ _ λ dsl _. update_get-Keeps i id now _ λ d v.
          let (front, last) = split_last-IsHistory w split.0 split.1 (or_err-ok _ _ e) in
          published-IsWellFormed _ split.0 split.1.version (parse-marshal _ hist (or_err-ok _ _ m))
            front refl last.1 last.0

  pub peek-Keeps : (id : String) → KeepsWf (peek_latest_publish_dsl id)
  unfolding peek_latest_publish_dsl
  peek-Keeps id = first_flow-Keeps id _ λ i doc w. Keeps-lift _ _ λ split _. Keeps-lift_end _
