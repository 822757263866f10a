-- ===== src/OAuth/Authorize.antt =====
-- internal/oauth/authorize.go: the login that gives an authorization code.
use flowgo_server.Prelude.{
  ℕ, ◌+◌, String, ◌==◌, Bool, false, not, ◌&&◌, Option, none, some, if◌then◌else◌, trim_space,
  is_some,
}
use flowgo_server.Prelude.Action.{Action, Outcome, returns, ◌>>=◌, ◌>>◌, pure, refuse_if, require}
use flowgo_server.Store.Docs.{User}
use flowgo_server.OAuth.Memory.{
  MemoryStore, AuthCode, get_client, client_allows_redirect, save_code, normalize_challenge_method,
}
use flowgo_server.OAuth.Server.{
  Services, Config, Request, default_scope, code_ttl, resource_url, same_resource,
}

-- authorizeQuery, but for the locale, which only the page reads.
pub record AuthorizeQuery : Type 0 where
  pub response_type : String
  pub client_id : String
  pub redirect_uri : String
  pub scope : String
  pub state : String
  pub code_challenge : String
  pub code_challenge_method : String
  pub resource : String

-- The messages of validateAuthorizeParams, and the other failures of the handler.
pub data AuthorizeError : Type 0 where
  invalid_form response_type_must_be_code client_id_required unknown_client_id : AuthorizeError
  redirect_uri_required redirect_uri_not_registered code_challenge_required : AuthorizeError
  unsupported_code_challenge_method resource_mismatch : AuthorizeError
  bad_credentials mcp_disabled no_randomness invalid_redirect : AuthorizeError

abbrev pub Page : Type 0 → Type 0
Page A = Action MemoryStore AuthorizeError A

-- The first message whose test holds.
abbrev complain_if : Bool → AuthorizeError → Option AuthorizeError → Option AuthorizeError
complain_if test e rest = if test then some e else rest

module _ (env : Services) (cfg : Config) where
  -- validateAuthorizeParams; `none` is its empty message.
  unfoldable pub validate_authorize_params :
      Request → AuthorizeQuery → MemoryStore → Option AuthorizeError
  validate_authorize_params r aq m =
      let method = normalize_challenge_method aq.code_challenge_method in
      complain_if (not (aq.response_type == "code")) response_type_must_be_code (
        complain_if (aq.client_id == "") client_id_required (
          complain_if (not (is_some (get_client aq.client_id m))) unknown_client_id (
            complain_if (aq.redirect_uri == "") redirect_uri_required (
              complain_if (not (client_allows_redirect aq.client_id aq.redirect_uri m))
                redirect_uri_not_registered
                (complain_if (aq.code_challenge == "") code_challenge_required (
                  complain_if (not (method == "S256") && not (method == "plain"))
                    unsupported_code_challenge_method
                    (complain_if
                      (not (aq.resource == "")
                        && not (same_resource aq.resource (resource_url cfg r)))
                      resource_mismatch none)))))))

  -- The message becomes the answer.
  unfoldable pub refuse_with : (MemoryStore → Option AuthorizeError) → Page (Unit {0})
  refuse_with check m = elim (check m) [ none ↦ (m, returns tt) | some e ↦ (m, Outcome.fails e) ]

  abbrev or_else : String → String → String
  or_else text other = if trim_space text == "" then other else trim_space text

  -- The code that the handler saves.
  abbrev pub new_code : Request → AuthorizeQuery → User → String → ℕ → AuthCode
  new_code r aq user code now = record {
    code = code;
    client_id = aq.client_id;
    user_id = user.id;
    redirect_uri = aq.redirect_uri;
    scope = or_else aq.scope default_scope;
    resource = or_else aq.resource (resource_url cfg r);
    code_challenge = aq.code_challenge;
    code_challenge_method = normalize_challenge_method aq.code_challenge_method;
    expires_at = now + code_ttl;
  }

  abbrev store_code : AuthCode → ℕ → Page (Unit {0})
  store_code c now m = (save_code c now m, returns tt)

  -- A user with the password, or nothing.
  unfoldable pub log_in : String → String → Option User
  log_in username password = elim (env.find_user_by_username username) [
    | none ↦ none
    | some u ↦ if env.check_password u.password_hash password then some u else none
  ]

  -- `err != nil || !enabled`
  abbrev pub is_enabled : Option Bool → Bool
  is_enabled none = false
  is_enabled (some enabled) = enabled

  -- The redirect with the code and, where there is one, the state.
  abbrev redirect_to : String → String → env.Url → String
  redirect_to code state u =
      let q = env.set_query "code" code u in
      env.url_string (if state == "" then q else env.set_query "state" state q)

  -- handleAuthorizePost, after the form is parsed: `now` is the time at which the code is saved, and
  -- `draw` what randomToken returns. The answer is the URL to go to.
  unfoldable pub handle_authorize_post :
      Request → AuthorizeQuery → String → String → Option String → ℕ → Page String
  handle_authorize_post r aq username password draw now = do
    refuse_with (validate_authorize_params r aq)
    user ← require (log_in (trim_space username) password) bad_credentials
    refuse_if (not (is_enabled (env.is_mcp_enabled user.id))) mcp_disabled
    code ← require draw no_randomness
    store_code (new_code r aq user code now) now
    u ← require (env.parse_url aq.redirect_uri) invalid_redirect
    pure (redirect_to code aq.state u)
