-- ===== src/OAuth/Pkce.antt =====
-- No code without a challenge: what the validation of authorize.go gives the exchange of token.go.
use flowgo_server.Prelude.{
  ℕ, String, ◌≡◌, refl, ap, subst, ◌⊎◌, inl, inr, ◌==◌, true, false, not, ◌&&◌, Option, none, some,
  List, [], ◌∷◌, arith, Bool-cases, Option-cases, eq_iff, lookup, put, HasEntry, lookup-HasEntry,
  retain-HasEntry, Values, Values-at, Values-retain, Values-delete, is_some,
}
use flowgo_server.Prelude.Action.{returns}
use flowgo_server.Store.Docs.{User}
use flowgo_server.OAuth.Memory.{
  MemoryStore, AuthCode, take_code, take_refresh, save_code, save_refresh, purge_locked, put_client,
  after, verify_pkce, normalize_challenge_method, get_client, client_allows_redirect,
}
use flowgo_server.OAuth.Server.{Services, Config, Request, seeded_store}
use flowgo_server.OAuth.Authorize.{AuthorizeQuery, validate_authorize_params, new_code}
use flowgo_server.OAuth.Token.{TokenForm, TokenDraw, TokenResponse, token_from_code}
use flowgo_server.OAuth.Keeps.{register-Preserves, authorize-Preserves, handle_token-Preserves}
use flowgo_server.OAuth.Grants.{token_from_code-CodeGrant}
use flowgo_server.OAuth.Calls.{Call, registers, authorizes, redeems, run_call, run_calls}

-- The code has a challenge, under one of the two methods.
abbrev pub IsPkceCode : AuthCode → Type 0
IsPkceCode c =
    ((c.code_challenge == "") ≡ false)
    × ((c.code_challenge_method ≡ "S256") ⊎ (c.code_challenge_method ≡ "plain"))

abbrev pub CodesArePkce : MemoryStore → Type 0
CodesArePkce m = Values IsPkceCode m.codes

module _ (code : String) (now later : ℕ) (m : MemoryStore) where
  taken_entry :
      (o : Option AuthCode) (c : AuthCode)
      → lookup code (purge_locked now m).codes ≡ o
      → (take_code code now later m).1 ≡ some c
      → (o ≡ some c) × (after later c.expires_at ≡ false)
  unfolding take_code
  taken_entry none c e h = cc (rw e at h)
  taken_entry (some a) c e h = elim (Bool-cases (after later a.expires_at)) [
    | inl late ↦ cc (rw (e, late) at h)
    | inr fresh ↦
        let same : a ≡ c = cc (rw (e, fresh) at h) in
        (
          ap (λ x. some x) same,
          subst (λ (x : AuthCode). after later x.expires_at ≡ false) same fresh,
        )
  ]

  -- A code that is taken was an entry, and has not expired.
  pub take_code-HasEntry :
      (c : AuthCode)
      → (take_code code now later m).1 ≡ some c
      → HasEntry code c m.codes × (after later c.expires_at ≡ false)
  unfolding purge_locked
  take_code-HasEntry c h =
      let (found, unexpired) = taken_entry (lookup code (purge_locked now m).codes) c refl h in
      let entry = lookup-HasEntry code c (purge_locked now m).codes found in
      ((retain-HasEntry _ code c m.codes entry).0, unexpired)

  purge-Pkce : CodesArePkce m → CodesArePkce (purge_locked now m)
  unfolding purge_locked
  purge-Pkce h = Values-retain IsPkceCode _ m.codes h

  take_code-Pkce : CodesArePkce m → CodesArePkce (take_code code now later m).0
  unfolding take_code
  take_code-Pkce h = elim (Option-cases (lookup code (purge_locked now m).codes)) [
    | inl e ↦ rw e (purge-Pkce h)
    | inr (a, e) ↦ rw e (Values-delete IsPkceCode code (purge_locked now m).codes (purge-Pkce h))
  ]

  take_refresh-Pkce : CodesArePkce m → CodesArePkce (take_refresh code now later m).0
  unfolding take_refresh
  take_refresh-Pkce h = elim (Option-cases (lookup code (purge_locked now m).refresh)) [
    | inl e ↦ rw e (purge-Pkce h)
    | inr (a, e) ↦ rw e (purge-Pkce h)
  ]

save_code-Pkce :
    (c : AuthCode) (now : ℕ) (m : MemoryStore)
    → IsPkceCode c
    → CodesArePkce m
    → CodesArePkce (save_code c now m)
unfolding save_code put
save_code-Pkce c now m p h =
    (p, Values-delete IsPkceCode c.code (purge_locked now m).codes (purge-Pkce c.code now now m h))

methods :
    (s : String) → (not (s == "S256") && not (s == "plain")) ≡ false → (s ≡ "S256") ⊎ (s ≡ "plain")
methods s h = elim (Bool-cases (s == "S256")) [
  | inl e ↦ inl ((eq_iff s "S256").0 e)
  | inr e ↦ inr ((eq_iff s "plain").0 (ground arith))
]

module _ (env : Services) (cfg : Config) where
  -- What a request that passes validation has.
  pub record IsValid (r : Request) (aq : AuthorizeQuery) (m : MemoryStore) : Type 0 where
    pub asks_for_code : aq.response_type ≡ "code"
    pub registered : is_some (get_client aq.client_id m) ≡ true
    pub allowed : client_allows_redirect aq.client_id aq.redirect_uri m ≡ true
    pub challenged : (aq.code_challenge == "") ≡ false
    pub method :
        (normalize_challenge_method aq.code_challenge_method ≡ "S256")
        ⊎ (normalize_challenge_method aq.code_challenge_method ≡ "plain")

  pub validate-IsValid :
      (r : Request) (aq : AuthorizeQuery) (m : MemoryStore)
      → validate_authorize_params env cfg r aq m ≡ none
      → IsValid r aq m
  unfolding validate_authorize_params
  validate-IsValid r aq m h = record {
    asks_for_code = (eq_iff aq.response_type "code").0 (ground arith);
    registered = ground arith;
    allowed = ground arith;
    challenged = ground arith;
    method = methods _ (ground arith);
  }

  new_code-Pkce :
      (r : Request) (aq : AuthorizeQuery) (m : MemoryStore) (user : User) (code : String) (now : ℕ)
      → validate_authorize_params env cfg r aq m ≡ none
      → IsPkceCode (new_code env cfg r aq user code now)
  new_code-Pkce r aq m user code now h =
      let v = validate-IsValid r aq m h in (v.challenged, v.method)

  run_call-Pkce :
      (call : Call) (m : MemoryStore) → CodesArePkce m → CodesArePkce (run_call env cfg call m)
  unfolding run_call put_client save_refresh
  run_call-Pkce (registers body draw now) =
      register-Preserves env cfg CodesArePkce body draw now (λ a m h. h)
  run_call-Pkce (authorizes r aq username password draw now) =
      authorize-Preserves env cfg CodesArePkce r aq username password draw now
        (λ user code m₀ m ok drawn h.
          save_code-Pkce _ now m (new_code-Pkce r aq m₀ user code now ok) h)
  run_call-Pkce (redeems r form draw) =
      handle_token-Preserves env cfg CodesArePkce r form draw
        (λ code m h. take_code-Pkce code draw.now draw.later m h)
        (λ token m h. take_refresh-Pkce token draw.now draw.later m h) (λ t m drawn h. h)

  run_calls-Pkce :
      (calls : List Call) (m : MemoryStore)
      → CodesArePkce m
      → CodesArePkce (run_calls env cfg calls m)
  unfolding run_calls
  run_calls-Pkce [] m h = h
  run_calls-Pkce (call ∷ calls) m h =
      run_calls-Pkce calls (run_call env cfg call m) (run_call-Pkce call m h)

  seeded-Pkce : (start : ℕ) → CodesArePkce (seeded_store start)
  unfolding seeded_store put_client
  seeded-Pkce start = tt

  -- The verifier fits the challenge under the code's own method.
  abbrev pub Proves : String → AuthCode → Type 0
  Proves verifier c =
      ((c.code_challenge_method ≡ "S256") × (env.s256 verifier ≡ c.code_challenge))
      ⊎ ((c.code_challenge_method ≡ "plain") × (verifier ≡ c.code_challenge))

  verified-Proves :
      (verifier : String) (c : AuthCode)
      → IsPkceCode c
      → verify_pkce env.s256 verifier c.code_challenge c.code_challenge_method ≡ true
      → Proves verifier c
  unfolding verify_pkce normalize_challenge_method
  verified-Proves verifier c (challenged, inl e) h =
      inl (e, (eq_iff (env.s256 verifier) c.code_challenge).0 (rw e at h))
  verified-Proves verifier c (challenged, inr e) h =
      inr (e, (eq_iff verifier c.code_challenge).0 (rw e at h))

  -- Whatever requests a server has handled since its start, an exchange that answers with tokens is
  -- of a code that was stored, has not expired, and has a challenge, which the verifier proves under
  -- SHA-256 or by being the same text, as the code says.
  pub token_from_code-Proves :
      (start : ℕ) (calls : List Call) (r : Request) (f : TokenForm) (draw : TokenDraw)
      (m' : MemoryStore) (resp : TokenResponse)
      → token_from_code env cfg r f draw (run_calls env cfg calls (seeded_store start))
        ≡ (m', returns resp)
      → (c : AuthCode) × HasEntry f.code c (run_calls env cfg calls (seeded_store start)).codes
        × (after draw.later c.expires_at ≡ false)
        × (c.client_id ≡ f.client_id)
        × (c.redirect_uri ≡ f.redirect_uri)
        × ((c.code_challenge == "") ≡ false)
        × Proves f.code_verifier c
  token_from_code-Proves start calls r f draw m' resp h =
      let m = run_calls env cfg calls (seeded_store start) in
      let grant = token_from_code-CodeGrant env cfg r f draw m m' resp h in
      let (entry, unexpired) =
        take_code-HasEntry f.code draw.now draw.later m grant.code grant.taken in
      let pkce =
        Values-at IsPkceCode f.code grant.code m.codes
          (run_calls-Pkce calls (seeded_store start) (seeded-Pkce start)) entry in
      (
        grant.code,
        entry,
        unexpired,
        grant.same_client,
        grant.same_redirect,
        pkce.0,
        verified-Proves f.code_verifier grant.code pkce grant.verified,
      )
