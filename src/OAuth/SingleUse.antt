-- ===== src/OAuth/SingleUse.antt =====
-- Codes and refresh tokens work once.
use flowgo_server.Prelude.{
  ℕ, String, ◌≡◌, ◌≢◌, refl, ap, ◌∙◌, none, some, List, [], ◌∷◌, All, arith, Option-cases, inl, inr,
  eq_iff, ne→==_false, lookup, delete, lookup-delete, lookup-put, lookup-retain-none,
}
use flowgo_server.Prelude.Action.{returns}
use flowgo_server.OAuth.Memory.{
  MemoryStore, AuthCode, take_code, take_refresh, save_code, save_refresh, purge_locked, put_client,
}
use flowgo_server.OAuth.Server.{Services, Config, Request}
use flowgo_server.OAuth.Token.{TokenForm, TokenDraw, TokenResponse, token_from_code}
use flowgo_server.OAuth.Keeps.{register-Preserves, authorize-Preserves, handle_token-Preserves}
use flowgo_server.OAuth.Grants.{token_from_code-CodeGrant}
use flowgo_server.OAuth.Calls.{
  Call, registers, authorizes, redeems, DrawsOther, run_call, run_calls,
}

-- No code, or no refresh token, of that text is stored.
abbrev pub NoCode : String → MemoryStore → Type 0
NoCode c m = lookup c m.codes ≡ none

abbrev pub NoRefresh : String → MemoryStore → Type 0
NoRefresh t m = lookup t m.refresh ≡ none

delete-none :
    {V : Type 0} (c code : String) (m : List (String × V))
    → lookup c m ≡ none
    → lookup c (delete code m) ≡ none
delete-none c code m h = ground (arith, lookup-delete code c m)

module _ (c code : String) (now later : ℕ) (m : MemoryStore) where
  purge-NoCode : NoCode c m → NoCode c (purge_locked now m)
  unfolding purge_locked
  purge-NoCode h = lookup-retain-none _ c m.codes h

  take_code-NoCode : NoCode c m → NoCode c (take_code code now later m).0
  unfolding take_code
  take_code-NoCode h = elim (Option-cases (lookup code (purge_locked now m).codes)) [
    | inl e ↦ rw e (purge-NoCode h)
    | inr (a, e) ↦ rw e (delete-none c code (purge_locked now m).codes (purge-NoCode h))
  ]

  take_refresh-NoCode : NoCode c m → NoCode c (take_refresh code now later m).0
  unfolding take_refresh
  take_refresh-NoCode h = elim (Option-cases (lookup code (purge_locked now m).refresh)) [
    | inl e ↦ rw e (purge-NoCode h)
    | inr (a, e) ↦ rw e (purge-NoCode h)
  ]

  -- A code that is not stored is not taken.
  take_code-missing : NoCode code m → (take_code code now later m).1 ≡ none
  unfolding take_code purge_locked
  take_code-missing h = rw (lookup-retain-none _ code m.codes h) refl

  -- After it is taken, a code is not stored, whether it had expired or not.
  pub take_code-gone : NoCode code (take_code code now later m).0
  unfolding take_code
  take_code-gone = elim (Option-cases (lookup code (purge_locked now m).codes)) [
    | inl e ↦ rw e e
    | inr (a, e) ↦
        rw e (ground (arith, lookup-delete code code (purge_locked now m).codes, eq_iff code code))
  ]

  -- So is a refresh token.
  pub take_refresh-gone : NoRefresh code (take_refresh code now later m).0
  unfolding take_refresh
  take_refresh-gone = elim (Option-cases (lookup code (purge_locked now m).refresh)) [
    | inl e ↦ rw e e
    | inr (a, e) ↦
        rw e
          (ground (arith, lookup-delete code code (purge_locked now m).refresh, eq_iff code code))
  ]

module _ (c : String) where
  save_code-NoCode :
      (a : AuthCode) (now : ℕ) (m : MemoryStore)
      → a.code ≢ c
      → NoCode c m
      → NoCode c (save_code a now m)
  unfolding save_code
  save_code-NoCode a now m other h = ground (
    arith,
    lookup-put a.code c a (purge_locked now m).codes,
    ne→==_false a.code c other,
    purge-NoCode c a.code now now m h,
  )

  module _ (env : Services) (cfg : Config) where
    run_call-NoCode :
        (call : Call)
        → DrawsOther c call
        → (m : MemoryStore) → NoCode c m
        → NoCode c (run_call env cfg call m)
    unfolding run_call put_client save_refresh
    run_call-NoCode (registers body draw now) other =
        register-Preserves env cfg (NoCode c) body draw now (λ a m h. h)
    run_call-NoCode (authorizes r aq username password draw now) other =
        authorize-Preserves env cfg (NoCode c) r aq username password draw now
          (λ user code m₀ m ok drawn h.
            save_code-NoCode _ now m (λ e. other (drawn ∙ ap (λ x. some x) e)) h)
    run_call-NoCode (redeems r form draw) other =
        handle_token-Preserves env cfg (NoCode c) r form draw
          (λ code m h. take_code-NoCode c code draw.now draw.later m h)
          (λ token m h. take_refresh-NoCode c token draw.now draw.later m h) (λ t m drawn h. h)

    run_calls-NoCode :
        (calls : List Call)
        → All (DrawsOther c) calls
        → (m : MemoryStore) → NoCode c m
        → NoCode c (run_calls env cfg calls m)
    unfolding run_calls
    run_calls-NoCode [] others m h = h
    run_calls-NoCode (call ∷ calls) (other, others) m h =
        run_calls-NoCode calls others (run_call env cfg call m) (run_call-NoCode call other m h)

module _ (env : Services) (cfg : Config) where
  module _ (r : Request) (f : TokenForm) (draw : TokenDraw) (m m' : MemoryStore)
      (resp : TokenResponse) where
    exchanged-NoCode : token_from_code env cfg r f draw m ≡ (m', returns resp) → NoCode f.code m'
    unfolding save_refresh
    exchanged-NoCode h =
        let grant = token_from_code-CodeGrant env cfg r f draw m m' resp h in
        rw (← grant.issued.saved) (take_code-gone f.code f.code draw.now draw.later m)

  NoCode-no_tokens :
      (r : Request) (f : TokenForm) (draw : TokenDraw) (m m' : MemoryStore) (resp : TokenResponse)
      → NoCode f.code m
      → ¬ (token_from_code env cfg r f draw m ≡ (m', returns resp))
  NoCode-no_tokens r f draw m m' resp missing h =
      let grant = token_from_code-CodeGrant env cfg r f draw m m' resp h in
      let nothing = take_code-missing f.code f.code draw.now draw.later m missing in
      cc (nothing, grant.taken)

  -- A code that was exchanged for tokens is never exchanged again: after any requests, none of which
  -- draws that code anew, no request with it is answered with tokens, whatever its other fields.
  pub token_from_code-once :
      (r r' : Request) (f f' : TokenForm) (draw draw' : TokenDraw) (m m₁ m₂ : MemoryStore)
      (resp resp' : TokenResponse) (calls : List Call)
      → token_from_code env cfg r f draw m ≡ (m₁, returns resp)
      → All (DrawsOther f.code) calls
      → f'.code ≡ f.code
      → ¬ (token_from_code env cfg r' f' draw' (run_calls env cfg calls m₁) ≡ (m₂, returns resp'))
  token_from_code-once r r' f f' draw draw' m m₁ m₂ resp resp' calls first others same again =
      let gone = exchanged-NoCode r f draw m m₁ resp first in
      let still = run_calls-NoCode f.code env cfg calls others m₁ gone in
      NoCode-no_tokens r' f' draw' (run_calls env cfg calls m₁) m₂ resp' (rw same still) again
