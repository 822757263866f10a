-- ===== src/Api/Refusals.antt =====
-- What a refused request leaves as it was.
use flowgo_server.Prelude.{ℕ, String, ◌≡◌, ◌≢◌, refl, subst, Bool-cases, Option, arith, inl, inr}
use flowgo_server.Prelude.Action.{
  fails, ◌>>=◌, pure, refuse_if, >>=-fails, Preserves, then-Preserves, refuse_if-Preserves,
  require-Preserves,
}
use flowgo_server.Store.Docs.{User, StoreError}
use flowgo_server.Store.Backend.{Backend}
use flowgo_server.Store.Exec.{M}
use flowgo_server.Store.Records.{Rec, Dsl}
use flowgo_server.Api.World.{
  Entries, Handler, World, Status, bad_request, call, invalidate, notify, check_routes, sync,
  sync_draft, with_access,
}
use flowgo_server.Api.Publishing.{
  after_publish, after_offline, unlocked, publish, unpublish, go_online, rollback,
  handle_publish_flow, handle_unpublish_flow, handle_go_online_flow, handle_rollback_publish,
}
use flowgo_server.Api.Requests.{
  LiveRequest, publishes, unpublishes, goes_online, rolls_back, change_live,
}

module _ ⦃b : Backend⦄ (e : Entries) (w₀ : World e) where
  -- Entry points, caches and what the hub has told are as they were.
  pub record IsUntouched (w : World e) : Type 0 where
    pub entries : w.entries ≡ w₀.entries
    pub told : w.told ≡ w₀.told
    pub dropped : w.dropped ≡ w₀.dropped

  abbrev pub Keeps : {A : Type 0} → Handler e A → Type 0
  Keeps h = Preserves IsUntouched h

  pub call-Keeps : {A : Type 0} (status : StoreError → Status) (m : M A) → Keeps (call e status m)
  unfolding call
  call-Keeps status m w p = record { entries = p.entries; told = p.told; dropped = p.dropped }

  pub check_routes-Keeps : (id : String) (dsl : Dsl) → Keeps (check_routes e id dsl)
  unfolding check_routes
  check_routes-Keeps id dsl w p = refuse_if-Preserves IsUntouched _ _ w p

  pub unlocked-Keeps : (id now : String) → Keeps (unlocked e id now)
  unfolding unlocked
  unlocked-Keeps id now =
      then-Preserves IsUntouched _ _ (call-Keeps _ _)
        λ rec. then-Preserves IsUntouched _ _ (refuse_if-Preserves IsUntouched _ _) λ u w p. p

  -- A refusal by another status than 400 leaves them.
  abbrev RefusalKeeps : {A : Type 0} → Handler e A → Type 0
  RefusalKeeps h =
      (w w' : World e) (x : Status)
      → IsUntouched w
      → h w ≡ (w', fails x)
      → x ≢ bad_request
      → IsUntouched w'

  bind-RefusalKeeps :
      {A B : Type 0} (h : Handler e A) (f : A → Handler e B)
      → Keeps h
      → ((a : A) → RefusalKeeps (f a))
      → RefusalKeeps (h >>= f)
  bind-RefusalKeeps h f k r w w' x p failed ne = elim (>>=-fails h f w failed) [
    | inl (q, there) ↦ subst IsUntouched there (k w p)
    | inr (a, q, rest) ↦ r a (h w).0 w' x (k w p) rest ne
  ]

  call-RefusalKeeps :
      (status : StoreError → Status) (m : M Rec) (after : Rec → Handler e (Unit {0}))
      → ((rec : Rec) (w w' : World e) (x : Status) → after rec w ≡ (w', fails x) → x ≡ bad_request)
      → RefusalKeeps (call e status m >>= λ out. after out >>= λ v. pure out)
  call-RefusalKeeps status m after only =
      bind-RefusalKeeps _ _ (call-Keeps status m) λ out w w' x p failed ne.
        elim (>>=-fails (after out) (λ v. pure out) w failed) [
          | inl (q, there) ↦ absurd (ne (only out w (after out w).0 x (ground (arith, q))))
          | inr (a, q, rest) ↦ cc
        ]

  sync-fails :
      (rec : Rec) (w w' : World e) (x : Status) → sync e rec w ≡ (w', fails x) → x ≡ bad_request
  unfolding sync refuse_if
  sync-fails rec w w' x h = elim (Bool-cases (e.sync_flow rec w.entries).1) [
    | inl q ↦ cc (rw (q, sync) at h)
    | inr q ↦ let h' = rw (q, sync) at h in ground (arith, h')
  ]

  after_publish-fails :
      (rec : Rec) (w w' : World e) (x : Status)
      → after_publish e rec w ≡ (w', fails x)
      → x ≡ bad_request
  unfolding after_publish ◌>>=◌ invalidate notify
  after_publish-fails rec w w' x h = elim (>>=-fails (sync e rec) _ w h) [
    | inl (q, there) ↦ sync-fails rec w w' x (ground (arith, q, there))
    | inr (u, q, rest) ↦ cc
  ]

  after_offline-fails :
      (rec : Rec) (w w' : World e) (x : Status)
      → after_offline e rec w ≡ (w', fails x)
      → x ≡ bad_request
  unfolding after_offline ◌>>=◌ invalidate notify sync_draft
  after_offline-fails rec w w' x h = elim (>>=-fails (sync e rec) _ w h) [
    | inl (q, there) ↦ sync-fails rec w w' x (ground (arith, q, there))
    | inr (u, q, rest) ↦ cc
  ]

  access-RefusalKeeps :
      (user : User) (id : String) (h : Handler e Rec)
      → RefusalKeeps h
      → RefusalKeeps (with_access e user id h)
  access-RefusalKeeps user id h k =
      bind-RefusalKeeps _ _ (refuse_if-Preserves IsUntouched _ _)
        λ u. bind-RefusalKeeps _ _ (refuse_if-Preserves IsUntouched _ _) λ v. k

  publish-RefusalKeeps : (id note now : String) → RefusalKeeps (publish e id note now)
  unfolding publish
  publish-RefusalKeeps id note now = bind-RefusalKeeps _ _ (unlocked-Keeps id now) λ rec.
      bind-RefusalKeeps _ _ (require-Preserves IsUntouched _ _) λ dsl.
        bind-RefusalKeeps _ _ (check_routes-Keeps id dsl)
          λ u. call-RefusalKeeps _ _ _ after_publish-fails

  unpublish-RefusalKeeps : (id now : String) → RefusalKeeps (unpublish e id now)
  unfolding unpublish
  unpublish-RefusalKeeps id now =
      bind-RefusalKeeps _ _ (unlocked-Keeps id now)
        λ rec. call-RefusalKeeps _ _ _ after_offline-fails

  go_online-RefusalKeeps : (id now : String) → RefusalKeeps (go_online e id now)
  unfolding go_online
  go_online-RefusalKeeps id now = bind-RefusalKeeps _ _ (unlocked-Keeps id now) λ rec.
      bind-RefusalKeeps _ _ (refuse_if-Preserves IsUntouched _ _) λ u.
        bind-RefusalKeeps _ _ (call-Keeps _ _) λ peek.
          bind-RefusalKeeps _ _ (check_routes-Keeps id peek)
            λ v. call-RefusalKeeps _ _ _ after_publish-fails

  rollback-RefusalKeeps :
      (id : String) (body : Option ℕ) (now : String) → RefusalKeeps (rollback e id body now)
  unfolding rollback
  rollback-RefusalKeeps id body now =
      bind-RefusalKeeps _ _ (require-Preserves IsUntouched _ _) λ version.
        bind-RefusalKeeps _ _ (unlocked-Keeps id now) λ rec.
          bind-RefusalKeeps _ _ (call-Keeps _ _) λ hist.
            bind-RefusalKeeps _ _ (require-Preserves IsUntouched _ _) λ dsl.
              bind-RefusalKeeps _ _ (check_routes-Keeps id dsl)
                λ u. call-RefusalKeeps _ _ _ after_publish-fails

  any-RefusalKeeps :
      (user : User) (id : String) (q : LiveRequest) (now : String)
      → RefusalKeeps (change_live e user id q now)
  unfolding change_live handle_publish_flow handle_unpublish_flow handle_go_online_flow
      handle_rollback_publish
  any-RefusalKeeps user id (publishes note) now =
      access-RefusalKeeps user id _ (publish-RefusalKeeps id note now)
  any-RefusalKeeps user id unpublishes now =
      access-RefusalKeeps user id _ (unpublish-RefusalKeeps id now)
  any-RefusalKeeps user id goes_online now =
      access-RefusalKeeps user id _ (go_online-RefusalKeeps id now)
  any-RefusalKeeps user id (rolls_back body) now =
      access-RefusalKeeps user id _ (rollback-RefusalKeeps id body now)

  -- A publication, rollback, going off line or going on line that is refused by 403, 404, 409 or 500
  -- leaves the entry points, the caches and what the hub has told as they were.
  pub change_live-IsUntouched :
      (user : User) (id : String) (q : LiveRequest) (now : String) (w' : World e) (x : Status)
      → change_live e user id q now w₀ ≡ (w', fails x)
      → x ≢ bad_request
      → IsUntouched w'
  change_live-IsUntouched user id q now w' x h ne =
      any-RefusalKeeps user id q now w₀ w' x
        (record { entries = refl; told = refl; dropped = refl }) h ne
