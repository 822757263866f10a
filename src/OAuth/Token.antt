-- ===== src/OAuth/Token.antt =====
-- internal/oauth/token.go: tokens for a code or for a refresh token.
use flowgo_server.Prelude.{
  ℕ, ◌+◌, String, ◌==◌, Bool, true, not, ◌&&◌, ◌||◌, Option, if◌then◌else◌, trim_space, nonempty,
}
use flowgo_server.Prelude.Action.{returns, ◌>>=◌, ◌>>◌, pure, refuse, refuse_if, require}
use flowgo_server.Store.Docs.{User}
use flowgo_server.OAuth.Memory.{
  MemoryStore, Client, RefreshToken, get_client, take_code, take_refresh, save_refresh, verify_pkce,
}
use flowgo_server.OAuth.Server.{
  Services, Config, Request, Handler, OAuthError, invalid_request, invalid_client, invalid_grant,
  unsupported_grant_type, server_error, default_scope, resource_url,
}

-- The form of a token request.
pub record TokenForm : Type 0 where
  pub grant_type : String
  pub code : String
  pub redirect_uri : String
  pub client_id : String
  pub code_verifier : String
  pub client_secret : String
  pub refresh_token : String
  pub scope : String

-- The readings of the clock (for the purge, for the expiry, for the new token) and the random token.
pub record TokenDraw : Type 0 where
  pub now : ℕ
  pub later : ℕ
  pub last : ℕ
  pub refresh : Option String

-- The answer with the tokens.
pub record TokenResponse : Type 0 where
  pub access_token : String
  pub expires_in : ℕ
  pub refresh_token : String
  pub scope : String

unfoldable pub authenticate_client : TokenForm → Client → Bool
authenticate_client f client =
    let method = client.token_endpoint_auth_method in
    if method == "" || method == "none"
    then true
    else nonempty f.client_secret && f.client_secret == client.secret

-- A method of the memory as an action, failing with `e` where it finds nothing.
abbrev pub taking : {T : Type 0} → (MemoryStore → MemoryStore × Option T) → OAuthError → Handler T
taking take e m = require (take m).1 e (take m).0

abbrev pub find_client : String → Handler Client
find_client id m = require (get_client id m) invalid_client m

abbrev store_refresh : RefreshToken → Handler (Unit {0})
store_refresh t m = (save_refresh t m, returns tt)

-- The client that a refresh is for.
abbrev pub client_or : String → String → String
client_or client_id owner = if client_id == "" then owner else client_id

abbrev pub scope_or : String → String → String
scope_or asked granted = if trim_space asked == "" then granted else trim_space asked

module _ (env : Services) (cfg : Config) where
  abbrev pub new_refresh : Request → User → String → String → String → String → ℕ → RefreshToken
  new_refresh r user client_id scope resource token last = record {
    token = token;
    client_id = client_id;
    user_id = user.id;
    scope = if scope == "" then default_scope else scope;
    resource = if resource == "" then resource_url cfg r else resource;
    expires_at = last + cfg.refresh_ttl;
  }

  unfoldable pub issue_token_response :
      Request → User → String → String → String → TokenDraw → Handler TokenResponse
  issue_token_response r user client_id scope resource draw = do
    access ←
        require
          (env.issue_access_token user (if resource == "" then resource_url cfg r else resource)
            cfg.access_ttl)
          server_error
    refresh ← require draw.refresh server_error
    store_refresh (new_refresh r user client_id scope resource refresh draw.last)
    pure (record {
      access_token = access;
      expires_in = cfg.access_ttl;
      refresh_token = refresh;
      scope = if scope == "" then default_scope else scope;
    })

  unfoldable pub token_from_code : Request → TokenForm → TokenDraw → Handler TokenResponse
  token_from_code r f draw = do
    refuse_if (f.code == "" || f.redirect_uri == "" || f.client_id == "" || f.code_verifier == "")
        invalid_request
    client ← find_client f.client_id
    refuse_if (not (authenticate_client f client)) invalid_client
    ac ← taking (take_code f.code draw.now draw.later) invalid_grant
    refuse_if (not (ac.client_id == f.client_id) || not (ac.redirect_uri == f.redirect_uri))
        invalid_grant
    refuse_if
        (not (verify_pkce env.s256 f.code_verifier ac.code_challenge ac.code_challenge_method))
        invalid_grant
    user ← require (env.find_user_by_id ac.user_id) invalid_grant
    issue_token_response r user f.client_id ac.scope ac.resource draw

  unfoldable pub token_from_refresh : Request → TokenForm → TokenDraw → Handler TokenResponse
  token_from_refresh r f draw = do
    refuse_if (f.refresh_token == "") invalid_request
    rt ← taking (take_refresh f.refresh_token draw.now draw.later) invalid_grant
    refuse_if (not (rt.client_id == client_or f.client_id rt.client_id)) invalid_grant
    client ← find_client (client_or f.client_id rt.client_id)
    refuse_if (not (authenticate_client f client)) invalid_client
    user ← require (env.find_user_by_id rt.user_id) invalid_grant
    issue_token_response r user (client_or f.client_id rt.client_id) (scope_or f.scope rt.scope)
        rt.resource draw

  -- handleToken; `none` is a form that does not parse.
  unfoldable pub handle_token : Request → Option TokenForm → TokenDraw → Handler TokenResponse
  handle_token r form draw = do
    f ← require form invalid_request
    if f.grant_type == "authorization_code"
        then token_from_code r f draw
        else if f.grant_type == "refresh_token"
        then token_from_refresh r f draw
        else refuse unsupported_grant_type
