-- ===== src/Store/Spec/Locking.antt =====
-- The lock: what it refuses, and what opens it.
use flowgo_server.Prelude.{
  String, ◌≡◌, refl, inl, inr, ◌==◌, true, false, Option, some, none, List, ◌∷◌, arith, is_some,
  Bool-cases, Option-cases, eq_iff,
}
use flowgo_server.Clover.{Entry}
use flowgo_server.Store.Docs.{FlowDoc, StoreError, flow_locked, flow_id_required, bad_json}
use flowgo_server.Store.Backend.{Backend, StoreDb}
use flowgo_server.Store.Exec.{M, ok, err, ◌>>=◌, pure, lift, refuse_if, find_flows, first_doc}
use flowgo_server.Store.Records.{Rec, Dsl, flow_from_doc, apply_publish_status, hash_lock_password}
use flowgo_server.Store.Flow.{
  has_flow_id, first_flow, is_legacy, migrate_legacy_published, get_flow, insert_or_update,
  save_flow, set_flow_locked, lock_edit, unlock_edit, wrong_password, delete_flow,
}
use flowgo_server.Store.Publish.{
  publish_flow, discard_draft, rollback_publish, delete_publish_history,
}
use flowgo_server.Store.Online.{unpublish_flow, go_online_from_latest}
use flowgo_server.Store.Trash.{soft_delete_or_purge_flow, restore_flow}
use flowgo_server.Store.Ops.{
  Op, saves, hard_deletes, publishes, discards, rolls_back, deletes_history, unpublishes,
  goes_online, soft_deletes, restores, drop_value, run_op,
}
use flowgo_server.Store.Spec.{FirstIs, first_flow-bind, update_get-ok, refuse-ok}

module _ ⦃b : Backend⦄ where
  -- The operations that the lock is meant to stop, by the flow that each names. Locking, unlocking,
  -- moving to a group and deleting a group do not ask for the lock.
  abbrev pub changed_flow : Op → Option String
  changed_flow (saves owner dsl) = some dsl.id
  changed_flow (hard_deletes id) = some id
  changed_flow (publishes id note) = some id
  changed_flow (discards id) = some id
  changed_flow (rolls_back id version) = some id
  changed_flow (deletes_history id version) = some id
  changed_flow (unpublishes id) = some id
  changed_flow (goes_online id) = some id
  changed_flow (soft_deletes id) = some id
  changed_flow (restores id) = some id
  changed_flow _ = none

  module _ (s : StoreDb b) (id i : String) (doc : FlowDoc) (es : List (Entry FlowDoc))
      (found : b.flows.find_all (has_flow_id id) s.flows ≡ some ((i, doc) ∷ es))
      (locked : doc.locked ≡ true) where
    first_flow_eq : first_flow id s ≡ (s, ok (i, doc))
    unfolding first_flow ◌>>=◌ find_flows first_doc pure
    first_flow_eq = rw (found, find_flows)

    refused :
        {A : Type 0} (f : Entry FlowDoc → M A)
        → ((t : StoreDb b) → f (i, doc) t ≡ (t, err flow_locked))
        → (first_flow id >>= f) s ≡ (s, err flow_locked)
    unfolding ◌>>=◌
    refused f h = rw first_flow_eq (h s)

    guard_refuses :
        {A : Type 0} (m : M A) (t : StoreDb b)
        → (refuse_if doc.locked flow_locked >>= λ _. m) t ≡ (t, err flow_locked)
    unfolding ◌>>=◌ refuse_if
    guard_refuses m t = rw locked

    dropped :
        {A : Type 0} {e : StoreError} (m : M A) → m s ≡ (s, err e) → drop_value m s ≡ (s, err e)
    unfolding drop_value ◌>>=◌
    dropped m h = rw h

    module _ (migrated : is_some doc.published_version ≡ true) where
      get_flow_eq : (now : String) → get_flow id now s ≡ (s, ok (flow_from_doc doc))
      unfolding get_flow ◌>>=◌ migrate_legacy_published is_legacy pure
      get_flow_eq now = rw first_flow_eq (rw migrated (ground arith))

      refused_after_get :
          {A : Type 0} (now : String) (f : Rec → M A)
          → (get_flow id now >>= λ rec. refuse_if rec.locked flow_locked >>= λ _. f rec) s
            ≡ (s, err flow_locked)
      unfolding ◌>>=◌ flow_from_doc apply_publish_status refuse_if
      refused_after_get now f = rw (get_flow_eq now) (rw locked refl)

      save_refused :
          (owner now : String) (dsl : Dsl)
          → dsl.id ≡ id
          → (e : StoreError) × (save_flow owner dsl now s ≡ (s, err e))
      unfolding save_flow insert_or_update ◌>>=◌ refuse_if lift find_flows
      save_refused owner now dsl same = elim (Bool-cases (dsl.id == "")) [
        | inl e ↦ (flow_id_required, rw e refl)
        | inr e ↦ elim (Option-cases (b.marshal_dsl dsl)) [
          | inl e' ↦ (bad_json, rw (e, e') refl)
          | inr (json, e') ↦ (flow_locked, rw (e, e') (rw same (rw (found, locked) refl)))
        ]
      ]

      -- On a locked flow whose document has the publish fields and can be read, each of these fails
      -- and leaves the database as it was: saving, publishing, discarding, rolling back, deleting a
      -- version, going off line or on line, deleting softly or for good, and restoring.
      pub run_op-locked :
          (op : Op) (now : String)
          → changed_flow op ≡ some id
          → (e : StoreError) × (run_op op now s ≡ (s, err e))
      unfolding run_op delete_flow publish_flow discard_draft rollback_publish
          delete_publish_history unpublish_flow go_online_from_latest soft_delete_or_purge_flow
          restore_flow
      run_op-locked (saves owner dsl) now h =
          let (e, r) = save_refused owner now dsl cc in (e, dropped (save_flow owner dsl now) r)
      run_op-locked (hard_deletes j) now h =
          let same : j ≡ id = cc in (flow_locked, rw same (refused _ (λ t. guard_refuses _ t)))
      run_op-locked (publishes j note) now h =
          let same : j ≡ id = cc in
          (flow_locked, rw same (dropped _ (refused _ (λ t. guard_refuses _ t))))
      run_op-locked (discards j) now h =
          let same : j ≡ id = cc in
          (flow_locked, rw same (dropped _ (refused _ (λ t. guard_refuses _ t))))
      run_op-locked (rolls_back j version) now h =
          let same : j ≡ id = cc in
          (flow_locked, rw same (dropped _ (refused _ (λ t. guard_refuses _ t))))
      run_op-locked (deletes_history j version) now h =
          let same : j ≡ id = cc in
          (flow_locked, rw same (dropped _ (refused _ (λ t. guard_refuses _ t))))
      run_op-locked (unpublishes j) now h =
          let same : j ≡ id = cc in
          (flow_locked, rw same (dropped _ (refused _ (λ t. guard_refuses _ t))))
      run_op-locked (goes_online j) now h =
          let same : j ≡ id = cc in
          (flow_locked, rw same (dropped _ (refused _ (λ t. guard_refuses _ t))))
      run_op-locked (soft_deletes j) now h =
          let same : j ≡ id = cc in (flow_locked, rw same (dropped _ (refused_after_get now _)))
      run_op-locked (restores j) now h =
          let same : j ≡ id = cc in (flow_locked, rw same (dropped _ (refused_after_get now _)))
      run_op-locked _ now h = cc

  locked_result :
      (id i password now : String) (doc : FlowDoc) (s s' : StoreDb b) (r : Rec)
      → FirstIs s id i doc
      → is_some doc.published_version ≡ true
      → set_flow_locked id true password now s ≡ (s', ok r)
      → FirstIs s' id i (lock_edit (hash_lock_password password) now doc)
  unfolding set_flow_locked
  locked_result id i password now doc s s' r before has h =
      let h₁ = first_flow-bind id i doc _ s before h in
      let (_, there, _) =
        update_get-ok i id now (lock_edit (hash_lock_password password) now) doc s (λ d. refl) has
          before h₁ in
      there

  unlocked_result :
      (id i password now : String) (doc : FlowDoc) (s s' : StoreDb b) (r : Rec)
      → FirstIs s id i doc
      → is_some doc.published_version ≡ true
      → set_flow_locked id false password now s ≡ (s', ok r)
      → (wrong_password doc.lock_password_hash password ≡ false)
        × FirstIs s' id i (unlock_edit now doc)
  unfolding set_flow_locked
  unlocked_result id i password now doc s s' r before has h =
      let h₁ = first_flow-bind id i doc _ s before h in
      let (right, h₂) = refuse-ok _ _ _ s h₁ in
      let (_, there, _) =
        update_get-ok i id now (unlock_edit now) doc s (λ d. refl) has before h₂ in
      (right, there)

  same_digest :
      (password other : String)
      → (password == "") ≡ false
      → wrong_password (hash_lock_password password) other ≡ false
      → ((other == "") ≡ false) × (b.sha256_hex other ≡ b.sha256_hex password)
  unfolding wrong_password hash_lock_password
  same_digest password other set h = elim (Bool-cases (other == "")) [
    | inl e ↦ cc (rw (set, e, b.sha256_hex_nonempty password) at h)
    | inr e ↦ (
      e,
      ground (
        arith,
        set,
        e,
        h,
        b.sha256_hex_nonempty password,
        eq_iff (b.sha256_hex password) (b.sha256_hex other),
      ),
    )
  ]

  -- A flow with the publish fields is locked with a password that is not empty. If the next call
  -- unlocks it, the password given has the same SHA-256 digest and is not empty, and the document is
  -- as before the lock, but not locked, with no hash and with the time of the unlock.
  pub unlock-lock :
      (id i password other now later : String) (doc : FlowDoc) (s s₁ s₂ : StoreDb b) (r₁ r₂ : Rec)
      → FirstIs s id i doc
      → is_some doc.published_version ≡ true
      → (password == "") ≡ false
      → set_flow_locked id true password now s ≡ (s₁, ok r₁)
      → set_flow_locked id false other later s₁ ≡ (s₂, ok r₂)
      → ((other == "") ≡ false)
        × (b.sha256_hex other ≡ b.sha256_hex password)
        × FirstIs s₂ id i
            (record doc { locked = false; lock_password_hash = ""; updated_at = later })
  unlock-lock id i password other now later doc s s₁ s₂ r₁ r₂ before has set locks unlocks =
      let there = locked_result id i password now doc s s₁ r₁ before has locks in
      let (right, after) =
        unlocked_result id i other later (lock_edit (hash_lock_password password) now doc) s₁ s₂ r₂
          there has unlocks in
      let (nonempty_other, digest) = same_digest password other set right in
      (nonempty_other, digest, after)
