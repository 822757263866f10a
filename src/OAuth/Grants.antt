-- ===== src/OAuth/Grants.antt =====
-- What stands behind every access token.
use flowgo_server.Prelude.{
  String, ◌≡◌, sym, ap, subst, ◌∙◌, ◌==◌, Bool, true, false, not, ◌||◌, Option, none, some, arith,
  if◌then◌else◌, eq_iff,
}
use flowgo_server.Prelude.Action.{
  Action, Outcome, returns, ◌>>=◌, require, >>=-returns, refuse_if-returns, require-returns,
}
use flowgo_server.Store.Docs.{User}
use flowgo_server.OAuth.Memory.{
  MemoryStore, Client, AuthCode, RefreshToken, get_client, take_code, take_refresh, save_refresh,
  verify_pkce,
}
use flowgo_server.OAuth.Server.{Services, Config, Request, OAuthError, default_scope, resource_url}
use flowgo_server.OAuth.Token.{
  TokenForm, TokenDraw, TokenResponse, taking, find_client, authenticate_client, token_from_code,
  token_from_refresh, new_refresh, issue_token_response, client_or, scope_or,
}

require-same :
    {A E : Type 0} (o : Option A) (e : E) (m : MemoryStore) {m' : MemoryStore} {a : A}
    → require o e m ≡ (m', returns a)
    → (m ≡ m') × (o ≡ some a)
unfolding require
require-same none e m h = cc
require-same (some a) e m h = (cc, cc)

-- A block that takes something from the memory and returns.
taking-returns :
    {T B : Type 0} (take : MemoryStore → MemoryStore × Option T) (e : OAuthError)
    (f : T → Action MemoryStore OAuthError B) (m : MemoryStore) {m' : MemoryStore} {c : B}
    → (taking take e >>= f) m ≡ (m', returns c)
    → (t : T) × ((take m).1 ≡ some t) × (f t (take m).0 ≡ (m', returns c))
taking-returns take e f m {m'} {c} h =
    let (s, t, took, rest) = >>=-returns (taking take e) f m h in
    let (same, value) = require-same (take m).1 e (take m).0 took in
    (t, value, subst (λ x. f t x ≡ (m', returns c)) (sym same) rest)

find_client-returns :
    {B : Type 0} (id : String) (f : Client → Action MemoryStore OAuthError B) (m : MemoryStore)
    {m' : MemoryStore} {c : B}
    → (find_client id >>= f) m ≡ (m', returns c)
    → (client : Client) × (get_client id m ≡ some client) × (f client m ≡ (m', returns c))
find_client-returns id f m {m'} {c} h =
    let (s, client, found, rest) = >>=-returns (find_client id) f m h in
    let (same, value) = require-same (get_client id m) OAuthError.invalid_client m found in
    (client, value, subst (λ x. f client x ≡ (m', returns c)) (sym same) rest)

pub returned :
    {S A E : Type 0} {s s' : S} {a c : A}
    → ◌≡◌ {A = S × Outcome E A} (s, returns a) (s', returns c)
    → (s ≡ s') × (a ≡ c)
returned h = (cc, cc)

not-false : (t : Bool) → not t ≡ false → t ≡ true
not-false t h = ground arith

differ_left : (s t u v : String) → (not (s == t) || not (u == v)) ≡ false → s ≡ t
differ_left s t u v h = (eq_iff s t).0 (ground arith)

differ_right : (s t u v : String) → (not (s == t) || not (u == v)) ≡ false → u ≡ v
differ_right s t u v h = (eq_iff u v).0 (ground arith)

module _ (env : Services) (cfg : Config) (r : Request) (f : TokenForm) (draw : TokenDraw) where
  -- The tokens of a user for a client, and the memory after.
  pub record Issued (user : User) (client_id scope resource : String) (m m' : MemoryStore)
      (resp : TokenResponse) : Type 0 where
    pub token : String
    pub drawn : draw.refresh ≡ some token
    pub access :
        env.issue_access_token user
          (if resource == "" then resource_url cfg r else resource)
          cfg.access_ttl
        ≡ some resp.access_token
    pub saved :
        save_refresh (new_refresh env cfg r user client_id scope resource token draw.last) m ≡ m'
    pub answered : resp.refresh_token ≡ token
    pub scoped : resp.scope ≡ (if scope == "" then default_scope else scope)

  issue-Issued :
      (user : User) (client_id scope resource : String) (m m' : MemoryStore) (resp : TokenResponse)
      → issue_token_response env cfg r user client_id scope resource draw m ≡ (m', returns resp)
      → Issued user client_id scope resource m m' resp
  unfolding issue_token_response ◌>>=◌
  issue-Issued user client_id scope resource m m' resp h =
      let (access, issued, h₁) = require-returns _ _ _ m h in
      let (token, drawn, h₂) = require-returns _ _ _ m h₁ in
      let (saved, value) = returned h₂ in
      record {
        token = token;
        drawn = drawn;
        access = issued ∙ ap (λ (v : TokenResponse). some v.access_token) value;
        saved = saved;
        answered = sym (ap (λ (v : TokenResponse). v.refresh_token) value);
        scoped = sym (ap (λ (v : TokenResponse). v.scope) value);
      }

  -- What a code is exchanged under.
  pub record CodeGrant (m m' : MemoryStore) (resp : TokenResponse) : Type 0 where
    pub client : Client
    pub registered : get_client f.client_id m ≡ some client
    pub authentic : authenticate_client f client ≡ true
    pub code : AuthCode
    pub taken : (take_code f.code draw.now draw.later m).1 ≡ some code
    pub same_client : code.client_id ≡ f.client_id
    pub same_redirect : code.redirect_uri ≡ f.redirect_uri
    pub verified :
        verify_pkce env.s256 f.code_verifier code.code_challenge code.code_challenge_method ≡ true
    pub verifier_given : (f.code_verifier == "") ≡ false
    pub user : User
    pub known : env.find_user_by_id code.user_id ≡ some user
    pub issued :
        Issued user f.client_id code.scope code.resource
          (take_code f.code draw.now draw.later m).0
          m'
          resp

  -- A code exchange that answers with tokens: the client is registered and authentic, the code was
  -- stored for that client and redirect URI and is now taken, the verifier fits its challenge, and
  -- the tokens are for the code's user, scope and resource.
  pub token_from_code-CodeGrant :
      (m m' : MemoryStore) (resp : TokenResponse)
      → token_from_code env cfg r f draw m ≡ (m', returns resp)
      → CodeGrant m m' resp
  unfolding token_from_code
  token_from_code-CodeGrant m m' resp h =
      let (given, h₁) = refuse_if-returns _ _ _ m h in
      let (client, registered, h₂) = find_client-returns f.client_id _ m h₁ in
      let (authentic, h₃) = refuse_if-returns _ _ _ m h₂ in
      let (ac, taken, h₄) = taking-returns (take_code f.code draw.now draw.later) _ _ m h₃ in
      let (same, h₅) = refuse_if-returns _ _ _ _ h₄ in
      let (verified, h₆) = refuse_if-returns _ _ _ _ h₅ in
      let (user, known, h₇) = require-returns _ _ _ _ h₆ in
      record {
        client = client;
        registered = registered;
        authentic = not-false _ authentic;
        code = ac;
        taken = taken;
        same_client = differ_left ac.client_id f.client_id ac.redirect_uri f.redirect_uri same;
        same_redirect = differ_right ac.client_id f.client_id ac.redirect_uri f.redirect_uri same;
        verified = not-false _ verified;
        verifier_given = ground arith;
        user = user;
        known = known;
        issued = issue-Issued user f.client_id ac.scope ac.resource _ m' resp h₇;
      }

  -- What a refresh token is exchanged under.
  pub record RefreshGrant (m m' : MemoryStore) (resp : TokenResponse) : Type 0 where
    pub old : RefreshToken
    pub taken : (take_refresh f.refresh_token draw.now draw.later m).1 ≡ some old
    pub same_client : old.client_id ≡ client_or f.client_id old.client_id
    pub client : Client
    pub registered :
        get_client
          (client_or f.client_id old.client_id)
          (take_refresh f.refresh_token draw.now draw.later m).0
        ≡ some client
    pub authentic : authenticate_client f client ≡ true
    pub user : User
    pub known : env.find_user_by_id old.user_id ≡ some user
    pub issued :
        Issued user
          (client_or f.client_id old.client_id)
          (scope_or f.scope old.scope)
          old.resource
          (take_refresh f.refresh_token draw.now draw.later m).0
          m'
          resp

  -- A refresh that answers with tokens: the refresh token was stored and is now taken, it belongs to
  -- the client, which is registered and authentic, and the new tokens are for the same user, client
  -- and resource. Their scope is the one that the request asks for, where it asks for one.
  pub token_from_refresh-RefreshGrant :
      (m m' : MemoryStore) (resp : TokenResponse)
      → token_from_refresh env cfg r f draw m ≡ (m', returns resp)
      → RefreshGrant m m' resp
  unfolding token_from_refresh
  token_from_refresh-RefreshGrant m m' resp h =
      let (_, h₁) = refuse_if-returns _ _ _ m h in
      let (rt, taken, h₂) =
        taking-returns (take_refresh f.refresh_token draw.now draw.later) _ _ m h₁ in
      let (same, h₃) = refuse_if-returns _ _ _ _ h₂ in
      let (client, registered, h₄) =
        find_client-returns (client_or f.client_id rt.client_id) _ _ h₃ in
      let (authentic, h₅) = refuse_if-returns _ _ _ _ h₄ in
      let (user, known, h₆) = require-returns _ _ _ _ h₅ in
      record {
        old = rt;
        taken = taken;
        same_client =
            (eq_iff rt.client_id (client_or f.client_id rt.client_id)).0 (not-false _ same);
        client = client;
        registered = registered;
        authentic = not-false _ authentic;
        user = user;
        known = known;
        issued = issue-Issued user _ _ rt.resource _ m' resp h₆;
      }
