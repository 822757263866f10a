-- ===== src/Api/Serving.antt =====
-- What the requests that change the live graph of a flow do beside the store.
use flowgo_server.Prelude.{
  String, ◌≡◌, refl, sym, ap, subst, ◌∙◌, true, Bool-cases, ◌∷◌, arith, inl, inr,
}
use flowgo_server.Prelude.Action.{
  refuse_if, Outcome, returns, ◌>>=◌, pure, >>=-returns, refuse_if-Preserves, require-Preserves,
}
use flowgo_server.Store.Docs.{User, StoreError}
use flowgo_server.Store.Backend.{Backend}
use flowgo_server.Store.Exec.{M, Result, ok, err}
use flowgo_server.Store.Records.{Rec}
use flowgo_server.Store.Spec.Named.{
  Names, publish_flow-Names, unpublish_flow-Names, go_online_from_latest-Names,
  rollback_publish-Names,
}
use flowgo_server.Api.World.{
  Entries, Handler, World, Status, published_track, call, invalidate, notify, sync, sync_draft,
  with_access,
}
use flowgo_server.Api.Publishing.{
  after_publish, after_offline, publish, unpublish, go_online, rollback, handle_publish_flow,
  handle_unpublish_flow, handle_go_online_flow, handle_rollback_publish,
}
use flowgo_server.Api.Requests.{
  LiveRequest, publishes, unpublishes, goes_online, rolls_back, change_live,
}
use flowgo_server.Api.Refusals.{IsUntouched, Keeps, call-Keeps, check_routes-Keeps, unlocked-Keeps}

module _ ⦃b : Backend⦄ (e : Entries) (id : String) (w₀ : World e) where
  -- The entry points after a change that synchronised them: going off line goes on to the draft.
  abbrev pub settled : LiveRequest → Rec → e.State → e.State
  settled unpublishes rec s = e.sync_draft_if_open rec s
  settled (publishes note) rec s = s
  settled goes_online rec s = s
  settled (rolls_back body) rec s = s

  abbrev pub told_action : LiveRequest → String
  told_action unpublishes = "offline"
  told_action (publishes note) = "published"
  told_action goes_online = "published"
  told_action (rolls_back body) = "published"

  -- One synchronisation, with the record that is answered, one cache dropped, one message told.
  pub record IsServed (q : LiveRequest) (rec : Rec) (w : World e) : Type 0 where
    pub named : rec.id ≡ id
    pub synced : (e.sync_flow rec w₀.entries).1 ≡ true
    pub entries : w.entries ≡ settled q rec (e.sync_flow rec w₀.entries).0
    pub dropped : w.dropped ≡ (id, published_track) ∷ w₀.dropped
    pub told : w.told ≡ record { action = told_action q; id = id; name = rec.name } ∷ w₀.told

  -- A handler whose answered records are served.
  abbrev AnswersServed : LiveRequest → Handler e Rec → Type 0
  AnswersServed q h =
      (w w' : World e) (rec : Rec)
      → IsUntouched e w₀ w
      → h w ≡ (w', returns rec)
      → IsServed q rec w'

  -- The same of what follows the call of the store.
  abbrev Settles : LiveRequest → (Rec → Handler e (Unit {0})) → Type 0
  Settles q after =
      (rec : Rec) (w w' : World e) (u : Unit {0})
      → rec.id ≡ id
      → IsUntouched e w₀ w
      → after rec w ≡ (w', returns u)
      → IsServed q rec w'

  rest-AnswersServed :
      {A : Type 0} (q : LiveRequest) (h : Handler e A) (f : A → Handler e Rec)
      → Keeps e w₀ h
      → ((a : A) → AnswersServed q (f a))
      → AnswersServed q (h >>= f)
  rest-AnswersServed q h f keeps k w w' rec p r =
      let (w₁, a, done, rest) = >>=-returns h f w r in
      let same : (h w).0 ≡ w₁ = ap (λ (x : World e × Outcome Status _). x.0) done in
      k a w₁ w' rec (subst (λ x. IsUntouched e w₀ x) same (keeps w p)) rest

  synced_state :
      (rec : Rec) (w w' : World e) (u : Unit {0})
      → sync e rec w ≡ (w', returns u)
      → ((e.sync_flow rec w.entries).1 ≡ true)
        × (record w { entries = (e.sync_flow rec w.entries).0 } ≡ w')
  unfolding sync refuse_if
  synced_state rec w w' u h = elim (Bool-cases (e.sync_flow rec w.entries).1) [
    | inr q ↦ cc (rw (q, sync) at h)
    | inl q ↦ (q, ap (λ (p : World e × Outcome Status (Unit {0})). p.0) (rw (q, sync) at h))
  ]

  -- What the end of these handlers leaves, from what it began with.
  served :
      (q : LiveRequest) (rec : Rec) (w w₁ w' : World e) (s : e.State)
      → rec.id ≡ id
      → IsUntouched e w₀ w
      → (e.sync_flow rec w.entries).1 ≡ true
      → record w { entries = (e.sync_flow rec w.entries).0 } ≡ w₁
      → s ≡ settled q rec w₁.entries
      → record w₁ {
        entries = s;
        told = record { action = told_action q; id = rec.id; name = rec.name } ∷ w₁.told;
        dropped = (rec.id, published_track) ∷ w₁.dropped;
      }
        ≡ w'
      → IsServed q rec w'
  served q rec w w₁ w' s named p synced same fits end = record {
    named = named;
    synced = subst (λ t. (e.sync_flow rec t).1 ≡ true) p.entries synced;
    entries =
        sym (ap (λ (x : World e). x.entries) end)
        ∙ fits
        ∙ ap (λ t. settled q rec t)
            (sym (ap (λ (x : World e). x.entries) same)
              ∙ ap (λ t. (e.sync_flow rec t).0) p.entries);
    dropped =
        sym (ap (λ (x : World e). x.dropped) end)
        ∙ ap (λ i. (i, published_track) ∷ w₁.dropped) named
        ∙ ap (λ l. (id, published_track) ∷ l)
            (sym (ap (λ (x : World e). x.dropped) same) ∙ p.dropped);
    told =
        sym (ap (λ (x : World e). x.told) end)
        ∙ ap (λ i. record { action = told_action q; id = i; name = rec.name } ∷ w₁.told) named
        ∙ ap (λ l. record { action = told_action q; id = id; name = rec.name } ∷ l)
            (sym (ap (λ (x : World e). x.told) same) ∙ p.told);
  }

  after_publish-Settles :
      (q : LiveRequest)
      → ((rec : Rec) (s : e.State) → s ≡ settled q rec s)
      → "published" ≡ told_action q
      → Settles q (after_publish e)
  unfolding after_publish ◌>>=◌ invalidate notify
  after_publish-Settles q plain action rec w w' u named p h =
      let (w₁, v, done, rest) = >>=-returns (sync e rec) _ w h in
      let (synced, same) = synced_state rec w w₁ v done in
      let end = ap (λ (x : World e × Outcome Status (Unit {0})). x.0) rest in
      served q rec w w₁ w' w₁.entries named p synced same (plain rec w₁.entries) (
        subst
          (λ a.
            record w₁ {
              told = record { action = a; id = rec.id; name = rec.name } ∷ w₁.told;
              dropped = (rec.id, published_track) ∷ w₁.dropped;
            }
            ≡ w')
          action end)

  after_offline-Settles : Settles unpublishes (after_offline e)
  unfolding after_offline ◌>>=◌ invalidate notify sync_draft
  after_offline-Settles rec w w' u named p h =
      let (w₁, v, done, rest) = >>=-returns (sync e rec) _ w h in
      let (synced, same) = synced_state rec w w₁ v done in
      let end = ap (λ (x : World e × Outcome Status (Unit {0})). x.0) rest in
      served unpublishes rec w w₁ w' (e.sync_draft_if_open rec w₁.entries) named p synced same refl
        end

  call-id :
      (status : StoreError → Status) (m : M Rec) (w w' : World e) (rec : Rec)
      → Names id m
      → call e status m w ≡ (w', returns rec)
      → rec.id ≡ id
  unfolding call
  call-id status m w w' rec names h = value (m w.db).1 refl
    where
      value : (o : Result Rec) → (m w.db).1 ≡ o → rec.id ≡ id
      value (ok r) q =
          let same : r ≡ rec = cc (rw (q, call) at h) in
          ap (λ (x : Rec). x.id) (sym same) ∙ names w.db (m w.db).0 r (ground (arith, q))
      value (err x) q = cc (rw (q, call) at h)

  -- The call of the store and what follows it.
  call-AnswersServed :
      (q : LiveRequest) (status : StoreError → Status) (m : M Rec)
      (after : Rec → Handler e (Unit {0}))
      → Names id m
      → Settles q after
      → AnswersServed q (call e status m >>= λ out. after out >>= λ v. pure out)
  call-AnswersServed q status m after names settles w w' rec p h =
      let (w₁, out, called, rest) = >>=-returns (call e status m) _ w h in
      let (w₂, v, done, end) = >>=-returns (after out) (λ v. pure out) w₁ rest in
      let same : out ≡ rec = ground (arith, end) in
      let there : w₂ ≡ w' = ground (arith, end) in
      let at : (call e status m w).0 ≡ w₁ = ap (λ (x : World e × Outcome Status Rec). x.0) called in
      let s =
        settles out w₁ w₂ v (call-id status m w w₁ out names called)
          (subst (λ x. IsUntouched e w₀ x) at (call-Keeps e w₀ status m w p)) done in
      subst (λ r. IsServed q r w') same (subst (λ x. IsServed q out x) there s)

  access-AnswersServed :
      (q : LiveRequest) (user : User) (h : Handler e Rec)
      → AnswersServed q h
      → AnswersServed q (with_access e user id h)
  access-AnswersServed q user h k =
      rest-AnswersServed q _ _ (refuse_if-Preserves (IsUntouched e w₀) _ _)
        λ u. rest-AnswersServed q _ _ (refuse_if-Preserves (IsUntouched e w₀) _ _) λ v. k

  change-AnswersServed :
      (user : User) (q : LiveRequest) (now : String) → AnswersServed q (change_live e user id q now)
  unfolding change_live handle_publish_flow handle_unpublish_flow handle_go_online_flow
      handle_rollback_publish publish unpublish go_online rollback
  change-AnswersServed user (publishes note) now = access-AnswersServed (publishes note) user _ (
      rest-AnswersServed (publishes note) _ _ (unlocked-Keeps e w₀ id now) λ rec.
        rest-AnswersServed (publishes note) _ _ (require-Preserves (IsUntouched e w₀) _ _) λ dsl.
          rest-AnswersServed (publishes note) _ _ (check_routes-Keeps e w₀ id dsl) λ u.
            call-AnswersServed (publishes note) _ _ _ (publish_flow-Names id note now)
              (after_publish-Settles (publishes note) (λ rec s. refl) refl))
  change-AnswersServed user unpublishes now = access-AnswersServed unpublishes user _ (
      rest-AnswersServed unpublishes _ _ (unlocked-Keeps e w₀ id now) λ rec.
        call-AnswersServed unpublishes _ _ _ (unpublish_flow-Names id now) after_offline-Settles)
  change-AnswersServed user goes_online now = access-AnswersServed goes_online user _ (
      rest-AnswersServed goes_online _ _ (unlocked-Keeps e w₀ id now) λ rec.
        rest-AnswersServed goes_online _ _ (refuse_if-Preserves (IsUntouched e w₀) _ _) λ u.
          rest-AnswersServed goes_online _ _ (call-Keeps e w₀ _ _) λ peek.
            rest-AnswersServed goes_online _ _ (check_routes-Keeps e w₀ id peek) λ v.
              call-AnswersServed goes_online _ _ _ (go_online_from_latest-Names id now)
                (after_publish-Settles goes_online (λ rec s. refl) refl))
  change-AnswersServed user (rolls_back body) now =
      let q = rolls_back body in
      access-AnswersServed q user _ (
        rest-AnswersServed q _ _ (require-Preserves (IsUntouched e w₀) _ _) λ version.
          rest-AnswersServed q _ _ (unlocked-Keeps e w₀ id now) λ rec.
            rest-AnswersServed q _ _ (call-Keeps e w₀ _ _) λ hist.
              rest-AnswersServed q _ _ (require-Preserves (IsUntouched e w₀) _ _) λ dsl.
                rest-AnswersServed q _ _ (check_routes-Keeps e w₀ id dsl) λ u.
                  call-AnswersServed q _ _ _ (rollback_publish-Names id version now)
                    (after_publish-Settles q (λ rec s. refl) refl))

  -- A publication, rollback, going off line or going on line that is answered with a record, the
  -- calls of the entry points returning. The record is of the flow; the entry points are those after
  -- one SyncFlow of the record without an error, and for going off line one SyncDraftIfOpen; the
  -- cache of the published track is dropped; and the hub is told once, with the record's name.
  pub change_live-IsServed :
      (user : User) (q : LiveRequest) (now : String) (w' : World e) (rec : Rec)
      → change_live e user id q now w₀ ≡ (w', returns rec)
      → IsServed q rec w'
  change_live-IsServed user q now w' rec h =
      change-AnswersServed user q now w₀ w' rec
        (record { entries = refl; told = refl; dropped = refl }) h
