-- ===== src/OAuth/Granted.antt =====
-- What the tables hold before and after a login, a code exchange and a refresh (token.go,
-- authorize.go and memory.go of internal/oauth), by the contents of the tables themselves.
use flowgo_server.Prelude.{
  ℕ, ◌+◌, ◌≤◌, String, ◌≡◌, refl, sym, ap, subst, ◌∙◌, ◌⊎◌, inl, inr, ◌==◌, true, false, text_cases,
  Option, none, some, arith, if◌then◌else◌, eq_iff, eq_refl, Bool-cases, Option-cases, lookup,
  lookup-put, HasEntry, lookup-HasEntry, retain-HasEntry, trim_space, ltb, Bool,
}
use flowgo_server.Prelude.Action.{returns}
use flowgo_server.Store.Docs.{User}
use flowgo_server.OAuth.Memory.{
  MemoryStore, Client, AuthCode, RefreshToken, get_client, take_code, take_refresh, save_refresh,
  save_code, purge_locked, normalize_challenge_method,
}
use flowgo_server.OAuth.Server.{Services, Config, Request, resource_url}
use flowgo_server.OAuth.Authorize.{
  AuthorizeQuery, handle_authorize_post, log_in, is_enabled, new_code,
}
use flowgo_server.OAuth.Token.{
  TokenForm, TokenDraw, TokenResponse, authenticate_client, token_from_code, token_from_refresh,
  client_or, scope_or, new_refresh,
}
use flowgo_server.OAuth.Grants.{Issued, token_from_code-CodeGrant, token_from_refresh-RefreshGrant}
use flowgo_server.OAuth.Pkce.{IsValid, take_code-HasEntry}
use flowgo_server.OAuth.SingleUse.{take_code-gone, take_refresh-gone}
use flowgo_server.OAuth.Exchange.{handle_authorize_post-LoggedIn}

-- The client is a public one, or gives its secret.
abbrev pub IsAuthentic : TokenForm → Client → Type 0
IsAuthentic f client =
    ((client.token_endpoint_auth_method ≡ "") ⊎ (client.token_endpoint_auth_method ≡ "none"))
    ⊎ (((f.client_secret == "") ≡ false) × (f.client_secret ≡ client.secret))

authenticate_client-IsAuthentic :
    (f : TokenForm) (client : Client) → authenticate_client f client ≡ true → IsAuthentic f client
unfolding authenticate_client
authenticate_client-IsAuthentic f client h =
    elim (text_cases client.token_endpoint_auth_method "") [
      | inl e ↦ inl (inl e)
      | inr e ↦ elim (text_cases client.token_endpoint_auth_method "none") [
        | inl q ↦ inl (inr q)
        | inr q ↦ inr (ground arith, (eq_iff f.client_secret client.secret).0 (ground arith))
      ]
    ]

module _ (token : String) (now later : ℕ) (m : MemoryStore) where
  take_code-clients : (take_code token now later m).0.clients ≡ m.clients
  unfolding take_code purge_locked
  take_code-clients = elim (Option-cases (lookup token (purge_locked now m).codes)) [
    | inl e ↦ rw e refl
    | inr (a, e) ↦ rw e refl
  ]

  take_refresh-clients : (take_refresh token now later m).0.clients ≡ m.clients
  unfolding take_refresh purge_locked
  take_refresh-clients = elim (Option-cases (lookup token (purge_locked now m).refresh)) [
    | inl e ↦ rw e refl
    | inr (a, e) ↦ rw e refl
  ]

  take_refresh-HasEntry :
      (t : RefreshToken)
      → (take_refresh token now later m).1 ≡ some t
      → HasEntry token t m.refresh × (later ≤ t.expires_at)
  unfolding take_refresh purge_locked
  take_refresh-HasEntry t h = elim (Option-cases (lookup token (purge_locked now m).refresh)) [
    | inl e ↦ cc (rw (take_refresh, e) at h)
    | inr (a, e) ↦ elim (Bool-cases (ltb a.expires_at later)) [
      | inl q ↦ cc (rw (take_refresh, e, q) at h)
      | inr q ↦
          let same : a ≡ t = cc (rw (take_refresh, e, q) at h) in
          let entry = lookup-HasEntry token a (purge_locked now m).refresh e in
          (
            subst (λ x. HasEntry token x m.refresh) same
                (retain-HasEntry _ token a m.refresh entry).0,
            subst (λ (x : RefreshToken). later ≤ x.expires_at) same (ground (arith, q)),
          )
    ]
  ]

module _ (env : Services) (cfg : Config) (r : Request) (f : TokenForm) (draw : TokenDraw) where
  -- The tokens that are answered, and the refresh token that is stored for them.
  pub record Stored (user : User) (client_id scope resource : String) (m' : MemoryStore)
      (resp : TokenResponse) : Type 0 where
    pub access :
        env.issue_access_token user
          (if resource == "" then resource_url cfg r else resource)
          cfg.access_ttl
        ≡ some resp.access_token
    pub drawn : draw.refresh ≡ some resp.refresh_token
    pub kept :
        lookup resp.refresh_token m'.refresh
        ≡ some (record {
          token = resp.refresh_token;
          client_id = client_id;
          user_id = user.id;
          scope = resp.scope;
          resource = if resource == "" then resource_url cfg r else resource;
          expires_at = draw.last + cfg.refresh_ttl;
        })
    pub scoped : resp.scope ≡ (if scope == "" then "mcp" else scope)

  saved-refresh :
      (t : RefreshToken) (m : MemoryStore) → lookup t.token (save_refresh t m).refresh ≡ some t
  unfolding save_refresh
  saved-refresh t m = rw (lookup-put t.token t.token t m.refresh, eq_refl t.token) refl

  issue_token_response-Stored :
      (user : User) (client_id scope resource : String) (m m' : MemoryStore) (resp : TokenResponse)
      → Issued env cfg r f draw user client_id scope resource m m' resp
      → Stored user client_id scope resource m' resp
  issue_token_response-Stored user client_id scope resource m m' resp i =
      let new = new_refresh env cfg r user client_id scope resource i.token draw.last in
      let there : lookup i.token m'.refresh ≡ some new =
        subst (λ (x : MemoryStore). lookup i.token x.refresh ≡ some new) i.saved
          (saved-refresh new m) in
      record {
        access = i.access;
        drawn = i.drawn ∙ ap (λ t. some t) (sym i.answered);
        kept = rw (i.answered, i.scoped) there;
        scoped = i.scoped;
      }

  kept_codes : (t : RefreshToken) (m m' : MemoryStore) → save_refresh t m ≡ m' → m.codes ≡ m'.codes
  unfolding save_refresh
  kept_codes t m m' h = ap (λ (x : MemoryStore). x.codes) h

  -- What a code is exchanged under, and what that leaves.
  pub record CodeExchange (m m' : MemoryStore) (resp : TokenResponse) : Type 0 where
    pub client : Client
    pub registered : lookup f.client_id m.clients ≡ some client
    pub authentic : IsAuthentic f client
    pub code : AuthCode
    pub found : HasEntry f.code code m.codes
    pub unexpired : draw.later ≤ code.expires_at
    pub same_client : code.client_id ≡ f.client_id
    pub same_redirect : code.redirect_uri ≡ f.redirect_uri
    pub spent : lookup f.code m'.codes ≡ none
    pub user : User
    pub known : env.find_user_by_id code.user_id ≡ some user
    pub stored : Stored user f.client_id code.scope code.resource m' resp

  -- A code exchange that answers with tokens. The client is registered, and is public or gave its
  -- secret. The code was stored, for that client and redirect URI, has not expired and is stored no
  -- more. The access token is for the code's user and resource, and the refresh token that is
  -- answered is stored for that user, client, scope and resource, for as long as is configured.
  pub token_from_code-CodeExchange :
      (m m' : MemoryStore) (resp : TokenResponse)
      → token_from_code env cfg r f draw m ≡ (m', returns resp)
      → CodeExchange m m' resp
  unfolding get_client
  token_from_code-CodeExchange m m' resp h =
      let g = token_from_code-CodeGrant env cfg r f draw m m' resp h in
      let (found, fresh) = take_code-HasEntry f.code draw.now draw.later m g.code g.taken in
      record {
        client = g.client;
        registered = g.registered;
        authentic = authenticate_client-IsAuthentic f g.client g.authentic;
        code = g.code;
        found = found;
        unexpired = ground (arith, fresh);
        same_client = g.same_client;
        same_redirect = g.same_redirect;
        spent =
            subst (λ codes. lookup f.code codes ≡ none) (kept_codes _ _ m' g.issued.saved)
              (take_code-gone f.code f.code draw.now draw.later m);
        user = g.user;
        known = g.known;
        stored =
            issue_token_response-Stored g.user f.client_id g.code.scope g.code.resource _ m' resp
              g.issued;
      }

  -- What a refresh token is exchanged under, and what that leaves.
  pub record Refreshed (m m' : MemoryStore) (resp : TokenResponse) : Type 0 where
    pub old : RefreshToken
    pub found : HasEntry f.refresh_token old m.refresh
    pub unexpired : draw.later ≤ old.expires_at
    pub same_client : (f.client_id ≡ "") ⊎ (f.client_id ≡ old.client_id)
    pub client : Client
    pub registered : lookup old.client_id m.clients ≡ some client
    pub authentic : IsAuthentic f client
    pub spent : lookup f.refresh_token m'.refresh ≡ none
    pub user : User
    pub known : env.find_user_by_id old.user_id ≡ some user
    pub stored :
        Stored user old.client_id
          (if trim_space f.scope == "" then old.scope else trim_space f.scope)
          old.resource
          m'
          resp

  named_client : (id owner : String) → owner ≡ client_or id owner → (id ≡ "") ⊎ (id ≡ owner)
  named_client id owner h = elim (text_cases id "") [
    | inl e ↦ inl e
    | inr e ↦ inr (sym (rw e at h))
  ]

  other_token :
      (t : RefreshToken) (token : String) (m m' : MemoryStore)
      → (t.token == token) ≡ false
      → lookup token m.refresh ≡ none
      → save_refresh t m ≡ m'
      → lookup token m'.refresh ≡ none
  unfolding save_refresh
  other_token t token m m' ne gone h =
      subst (λ (x : MemoryStore). lookup token x.refresh ≡ none) h
        (lookup-put t.token token t m.refresh ∙ rw ne gone)

  -- A refresh that answers with tokens, the new refresh token not being the old one. The old one was
  -- stored and has not expired and is stored no more. Its client is registered, and is public or gave
  -- its secret, and the request names no other. The new tokens are for the same user, client and
  -- resource, and the scope is the one that the request asks for, or else the old one.
  pub token_from_refresh-Refreshed :
      (m m' : MemoryStore) (resp : TokenResponse)
      → token_from_refresh env cfg r f draw m ≡ (m', returns resp)
      → (resp.refresh_token == f.refresh_token) ≡ false
      → Refreshed m m' resp
  unfolding get_client
  token_from_refresh-Refreshed m m' resp h other =
      let g = token_from_refresh-RefreshGrant env cfg r f draw m m' resp h in
      let (found, fresh) =
        take_refresh-HasEntry f.refresh_token draw.now draw.later m g.old g.taken in
      let owner = sym g.same_client in
      record {
        old = g.old;
        found = found;
        unexpired = fresh;
        same_client = named_client f.client_id g.old.client_id g.same_client;
        client = g.client;
        registered =
            subst (λ id. lookup id m.clients ≡ some g.client) owner
              (subst
                (λ clients. lookup (client_or f.client_id g.old.client_id) clients ≡ some g.client)
                (take_refresh-clients f.refresh_token draw.now draw.later m) g.registered);
        authentic = authenticate_client-IsAuthentic f g.client g.authentic;
        spent =
            other_token _ f.refresh_token _ m'
              (subst (λ t. (t == f.refresh_token) ≡ false) g.issued.answered other)
              (take_refresh-gone f.refresh_token f.refresh_token draw.now draw.later m)
              g.issued.saved;
        user = g.user;
        known = g.known;
        stored =
            subst (λ id. Stored g.user id (scope_or f.scope g.old.scope) g.old.resource m' resp)
              owner (issue_token_response-Stored g.user _ _ g.old.resource _ m' resp g.issued);
      }

module _ (env : Services) (cfg : Config) (r : Request) (aq : AuthorizeQuery)
    (username password : String) (now : ℕ) where
  -- What a login that redirects was for, and the code that it stores.
  pub record CodeStored (draw : Option String) (m m' : MemoryStore) : Type 0 where
    pub valid : IsValid env cfg r aq m
    pub user : User
    pub known : env.find_user_by_username (trim_space username) ≡ some user
    pub proved : env.check_password user.password_hash password ≡ true
    pub enabled : env.is_mcp_enabled user.id ≡ some true
    pub code : String
    pub drawn : draw ≡ some code
    pub stored :
        lookup code m'.codes
        ≡ some (record {
          code = code;
          client_id = aq.client_id;
          user_id = user.id;
          redirect_uri = aq.redirect_uri;
          scope = if trim_space aq.scope == "" then "mcp" else trim_space aq.scope;
          resource =
              if trim_space aq.resource == "" then resource_url cfg r else trim_space aq.resource;
          code_challenge = aq.code_challenge;
          code_challenge_method =
              if aq.code_challenge_method == "" then "plain" else aq.code_challenge_method;
          expires_at = now + 600;
        })

  logged_in :
      (user : User)
      → log_in env cfg (trim_space username) password ≡ some user
      → (env.find_user_by_username (trim_space username) ≡ some user)
        × (env.check_password user.password_hash password ≡ true)
  unfolding log_in
  logged_in user h = elim (Option-cases (env.find_user_by_username (trim_space username))) [
    | inl e ↦ cc (rw (log_in, e) at h)
    | inr (u, e) ↦ elim (Bool-cases (env.check_password u.password_hash password)) [
      | inr q ↦ cc (rw (log_in, e, q) at h)
      | inl q ↦
          let same : u ≡ user = cc (rw (log_in, e, q) at h) in
          (
            e ∙ ap (λ x. some x) same,
            subst (λ (x : User). env.check_password x.password_hash password ≡ true) same q,
          )
    ]
  ]

  enabled_by : (o : Option Bool) → is_enabled env cfg o ≡ true → o ≡ some true
  enabled_by none h = cc
  enabled_by (some b) h = ap (λ t. some t) h

  saved-code :
      (c : AuthCode) (m m' : MemoryStore) → save_code c now m ≡ m' → lookup c.code m'.codes ≡ some c
  unfolding save_code
  saved-code c m m' h =
      subst (λ (x : MemoryStore). lookup c.code x.codes ≡ some c) h
        (lookup-put c.code c.code c _ ∙ rw (eq_refl c.code) refl)

  -- A login that redirects. The request is for a registered client and one of its redirect URIs, with
  -- a challenge; the user of that name has the password and may use MCP; and the code that was drawn
  -- is stored for that user, client, redirect URI and challenge, for ten minutes.
  pub handle_authorize_post-CodeStored :
      (draw : Option String) (m m' : MemoryStore) (url : String)
      → handle_authorize_post env cfg r aq username password draw now m ≡ (m', returns url)
      → CodeStored draw m m'
  unfolding normalize_challenge_method
  handle_authorize_post-CodeStored draw m m' url h =
      let g = handle_authorize_post-LoggedIn env cfg r aq username password draw now m m' url h in
      let (known, proved) = logged_in g.user g.authentic in
      record {
        valid = g.valid;
        user = g.user;
        known = known;
        proved = proved;
        enabled = enabled_by (env.is_mcp_enabled g.user.id) g.enabled;
        code = g.code;
        drawn = g.drawn;
        stored = saved-code (new_code env cfg r aq g.user g.code now) m m' g.saved;
      }
