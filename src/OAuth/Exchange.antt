-- ===== src/OAuth/Exchange.antt =====
-- From the login to the tokens: the code that a login gives can be exchanged.
use flowgo_server.Prelude.{
  ℕ, ◌+◌, ◌≤◌, String, ◌≡◌, refl, sym, ap, subst, ◌∙◌, ◌==◌, true, false, not, ◌||◌, Option, none,
  some, arith, if◌then◌else◌, Bool-cases, Option-cases, inl, inr, eq_refl, lookup, put, retain,
  trim_space, ltb,
}
use flowgo_server.Prelude.Action.{
  Action, returns, ◌>>=◌, refuse_if, require, >>=-returns, refuse_if-returns, require-returns,
}
use flowgo_server.Store.Docs.{User}
use flowgo_server.OAuth.Memory.{
  MemoryStore, Client, AuthCode, get_client, take_code, save_code, purge_locked, verify_pkce,
  normalize_challenge_method,
}
use flowgo_server.OAuth.Server.{Services, Config, Request, resource_url}
use flowgo_server.OAuth.Authorize.{
  AuthorizeQuery, AuthorizeError, handle_authorize_post, refuse_with, new_code, log_in, is_enabled,
}
use flowgo_server.OAuth.Pkce.{IsValid, validate-IsValid}
use flowgo_server.OAuth.Grants.{returned}
use flowgo_server.OAuth.Token.{
  TokenForm, TokenDraw, TokenResponse, authenticate_client, token_from_code, issue_token_response,
}

module _ (env : Services) (cfg : Config) where
  refuse_with-passed :
      {B : Type 0} (check : MemoryStore → Option AuthorizeError)
      (f : Unit {0} → Action MemoryStore AuthorizeError B) (m : MemoryStore) {m' : MemoryStore}
      {c : B}
      → (refuse_with env cfg check >>= f) m ≡ (m', returns c)
      → (check m ≡ none) × (f tt m ≡ (m', returns c))
  unfolding refuse_with ◌>>=◌
  refuse_with-passed check f m h = elim (Option-cases (check m)) [
    | inl e ↦ (e, rw (e, refuse_with) at h)
    | inr (x, e) ↦ cc (rw (e, refuse_with) at h)
  ]

  -- What a login that redirects has done.
  pub record LoggedIn (r : Request) (aq : AuthorizeQuery) (username password : String)
      (draw : Option String) (now : ℕ) (m m' : MemoryStore) : Type 0 where
    pub valid : IsValid env cfg r aq m
    pub user : User
    pub authentic : log_in env cfg (trim_space username) password ≡ some user
    pub enabled : is_enabled env cfg (env.is_mcp_enabled user.id) ≡ true
    pub code : String
    pub drawn : draw ≡ some code
    pub saved : save_code (new_code env cfg r aq user code now) now m ≡ m'

  -- A login that redirects: the request is for a registered client and one of its redirect URIs, with
  -- a challenge; the password is the user's, who may use MCP; and one code is saved, for that user,
  -- client, redirect URI and challenge, for ten minutes.
  pub handle_authorize_post-LoggedIn :
      (r : Request) (aq : AuthorizeQuery) (username password : String) (draw : Option String)
      (now : ℕ) (m m' : MemoryStore) (url : String)
      → handle_authorize_post env cfg r aq username password draw now m ≡ (m', returns url)
      → LoggedIn r aq username password draw now m m'
  unfolding handle_authorize_post
  handle_authorize_post-LoggedIn r aq username password draw now m m' url h =
      let (passed, h₁) = refuse_with-passed _ _ m h in
      let (user, authentic, h₂) = require-returns _ _ _ m h₁ in
      let (enabled, h₃) = refuse_if-returns _ _ _ m h₂ in
      let (code, drawn, h₄) = require-returns _ _ _ m h₃ in
      let (s, u, saved, h₅) = >>=-returns _ _ m h₄ in
      let (_, _, h₆) = require-returns _ _ _ s h₅ in
      record {
        valid = validate-IsValid env cfg r aq m passed;
        user = user;
        authentic = authentic;
        enabled = ground arith;
        code = code;
        drawn = drawn;
        saved = (returned saved).0 ∙ (returned h₆).0;
      }

-- What an exchange needs to succeed, of a stored code that has not expired.
module _ (env : Services) (cfg : Config) (r : Request) (f : TokenForm) (draw : TokenDraw)
    (user : User) (client : Client) (access token : String) (ac : AuthCode) (now : ℕ)
    (m : MemoryStore)
    (given : (f.code == "" || f.redirect_uri == "" || f.client_id == "" || f.code_verifier == "")
      ≡ false)
    (registered : get_client f.client_id m ≡ some client)
    (authentic : authenticate_client f client ≡ true) (same_code : f.code ≡ ac.code)
    (same_client : ac.client_id ≡ f.client_id) (same_redirect : ac.redirect_uri ≡ f.redirect_uri)
    (verified : verify_pkce env.s256 f.code_verifier ac.code_challenge ac.code_challenge_method
      ≡ true)
    (known : env.find_user_by_id ac.user_id ≡ some user)
    (issues : env.issue_access_token user
        (if ac.resource == "" then resource_url cfg r else ac.resource)
        cfg.access_ttl
      ≡ some access)
    (drawn : draw.refresh ≡ some token) (purged_before : draw.now ≤ ac.expires_at)
    (read_before : draw.later ≤ ac.expires_at) where
  take-save : (take_code f.code draw.now draw.later (save_code ac now m)).1 ≡ some ac
  unfolding take_code save_code purge_locked put lookup retain
  take-save =
      let kept : ltb ac.expires_at draw.now ≡ false = ground arith in
      let fresh : ltb ac.expires_at draw.later ≡ false = ground arith in
      rw (kept, same_code, eq_refl ac.code) (rw fresh refl)

  registered_after : get_client f.client_id (save_code ac now m) ≡ some client
  unfolding get_client save_code purge_locked
  registered_after = registered

  same_test : (not (ac.client_id == f.client_id) || not (ac.redirect_uri == f.redirect_uri)) ≡ false
  same_test = rw (same_client, same_redirect, eq_refl f.client_id, eq_refl f.redirect_uri) refl

  issued :
      (t : MemoryStore)
      → (m' : MemoryStore) × (resp : TokenResponse) × (issue_token_response env cfg r user
            f.client_id ac.scope ac.resource draw t
          ≡ (m', returns resp))
  unfolding issue_token_response ◌>>=◌ require
  issued t = rw (issues, drawn) (_, _, refl)

  exchanged :
      (m' : MemoryStore) × (resp : TokenResponse) × (token_from_code env cfg r f draw
          (save_code ac now m)
        ≡ (m', returns resp))
  unfolding token_from_code ◌>>=◌ refuse_if require
  exchanged =
      rw (given, registered_after, authentic, take-save, same_test, verified, known) (issued _)

normalize_idem :
    (s : String)
    → normalize_challenge_method (normalize_challenge_method s) ≡ normalize_challenge_method s
unfolding normalize_challenge_method
normalize_idem s = elim (Bool-cases (s == "")) [ inl e ↦ rw e refl | inr e ↦ rw e (rw e refl) ]

verify-normalized :
    (s256 : String → String) (verifier challenge method : String)
    → verify_pkce s256 verifier challenge (normalize_challenge_method method)
      ≡ verify_pkce s256 verifier challenge method
unfolding verify_pkce
verify-normalized s256 verifier challenge method = rw (normalize_idem method) refl

module _ (env : Services) (cfg : Config) where
  logged_in_user :
      (name password : String) (user : User)
      → log_in env cfg name password ≡ some user
      → env.find_user_by_username name ≡ some user
  unfolding log_in
  logged_in_user name password user h = elim (Option-cases (env.find_user_by_username name)) [
    | inl e ↦ cc (rw (e, log_in) at h)
    | inr (u, e) ↦ elim (Bool-cases (env.check_password u.password_hash password)) [
      | inl e' ↦ let same : some u ≡ some user = rw (e, e', log_in) at h in e ∙ same
      | inr e' ↦ cc (rw (e, e', log_in) at h)
    ]
  ]

  -- Where user names and ids agree and access tokens can be made: a login for a client redirects with
  -- a code. Within ten minutes of it, an exchange of the code by that client, with the redirect URI
  -- and a verifier that fits the challenge, is answered with tokens, if a refresh token is drawn.
  pub token_from_code-authorize :
      (r : Request) (aq : AuthorizeQuery) (username password code token url : String) (now : ℕ)
      (m m' : MemoryStore) (f : TokenForm) (draw : TokenDraw) (client : Client)
      → ((name : String) (u : User)
          → env.find_user_by_username name ≡ some u
          → env.find_user_by_id u.id ≡ some u)
      → ((u : User) (resource : String) (ttl : ℕ)
          → (access : String) × (env.issue_access_token u resource ttl ≡ some access))
      → handle_authorize_post env cfg r aq username password (some code) now m ≡ (m', returns url)
      → f.code ≡ code
      → f.client_id ≡ aq.client_id
      → f.redirect_uri ≡ aq.redirect_uri
      → (f.code == "" || f.redirect_uri == "" || f.client_id == "" || f.code_verifier == "") ≡ false
      → get_client aq.client_id m ≡ some client
      → authenticate_client f client ≡ true
      → verify_pkce env.s256 f.code_verifier aq.code_challenge aq.code_challenge_method ≡ true
      → draw.refresh ≡ some token
      → draw.now ≤ now + 600
      → draw.later ≤ now + 600
      → (m₂ : MemoryStore) × (resp : TokenResponse) × (token_from_code env cfg r f draw m'
          ≡ (m₂, returns resp))
  token_from_code-authorize r aq username password code token url now m m' f draw client agree
        issues login same_code same_client same_redirect given registered authentic verified drawn
        purged_before read_before =
      let done =
        handle_authorize_post-LoggedIn env cfg r aq username password (some code) now m m' url
          login in
      let user = done.user in
      let ac = new_code env cfg r aq user code now in
      let drawn_code : code ≡ done.code = cc (done.drawn) in
      let saved : save_code ac now m ≡ m' =
        ap (λ c. save_code (new_code env cfg r aq user c now) now m) drawn_code ∙ done.saved in
      let known =
        agree (trim_space username) user
          (logged_in_user (trim_space username) password user done.authentic) in
      let (access, issued) =
        issues user (if ac.resource == "" then resource_url cfg r else ac.resource)
          cfg.access_ttl in
      let fits =
        verify-normalized env.s256 f.code_verifier aq.code_challenge aq.code_challenge_method
        ∙ verified in
      subst
        (λ t.
          (m₂ : MemoryStore) × (resp : TokenResponse) × (token_from_code env cfg r f draw t
            ≡ (m₂, returns resp)))
        saved
        (exchanged env cfg r f draw user client access token ac now m given
          (rw same_client registered) authentic same_code (sym same_client) (sym same_redirect) fits
          known issued drawn purged_before read_before)
