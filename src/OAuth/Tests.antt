-- ===== src/OAuth/Tests.antt =====
-- The server run on one user and the client that it starts with.
use flowgo_server.Prelude.{
  String, ◌≡◌, refl, ◌==◌, true, false, Option, some, none, [], ◌∷◌, arith, HasEntry, lookup, put,
  delete, retain, trim_space, trim_right_slashes, if◌then◌else◌, Bool-cases, inl, inr,
}
use flowgo_server.Prelude.Action.{Outcome, returns, fails, ◌>>=◌, refuse_if, require}
use flowgo_server.Store.Docs.{User}
use flowgo_server.OAuth.Memory.{
  MemoryStore, Client, AuthCode, put_client, get_client, client_allows_redirect, save_code,
  take_code, save_refresh, take_refresh, purge_locked, normalize_challenge_method, verify_pkce,
  after,
}
use flowgo_server.OAuth.Server.{
  Services, OAuthError, Config, Request, seeded_store, resource_url, base_url, url_scheme,
  same_resource, valid_redirect_uri,
}
use flowgo_server.OAuth.Register.{RegistrationRequest, handle_register, all_valid, auth_method}
use flowgo_server.OAuth.Authorize.{
  AuthorizeQuery, AuthorizeError, handle_authorize_post, validate_authorize_params, refuse_with,
  log_in,
}
use flowgo_server.OAuth.Token.{
  TokenForm, TokenDraw, TokenResponse, token_from_code, token_from_refresh, issue_token_response,
  authenticate_client,
}
use flowgo_server.OAuth.Calls.{authorizes, redeems, run_call, run_calls}
use flowgo_server.OAuth.Granted.{
  CodeStored, handle_authorize_post-CodeStored, CodeExchange, token_from_code-CodeExchange,
  Refreshed, token_from_refresh-Refreshed,
}
use flowgo_server.OAuth.Registration.{Registered, handle_register-Registered}
use flowgo_server.OAuth.SingleUse.{token_from_code-once}
use flowgo_server.OAuth.Pkce.{Proves, token_from_code-Proves}
use flowgo_server.OAuth.Exchange.{token_from_code-authorize}

abbrev admin : User
admin = record {
  id = "u";
  username = "admin";
  password_hash = "pw";
  role = "admin";
  flow_ids = [];
  created_at = "t";
}

abbrev find : String → String → Option User
find key s = if s == key then some admin else none

abbrev services : Services
services = record {
  Url = String;
  parse_url = λ s. some s;
  scheme = λ u. "https";
  hostname = λ u. "h";
  set_query = λ k v u. u;
  url_string = λ u. u;
  to_lower = λ s. s;
  s256 = λ s. s;
  find_user_by_id = find "u";
  find_user_by_username = find "admin";
  check_password = λ hash password. hash == password;
  is_mcp_enabled = λ id. some true;
  issue_access_token = λ u resource ttl. some "jwt";
}

abbrev config : Config
config = record { public_base_url = "http://h"; access_ttl = 3600; refresh_ttl = 86400 }

abbrev request : Request
request = record { tls = false; forwarded_proto = ""; host = "h" }

abbrev query : AuthorizeQuery
query = record {
  response_type = "code";
  client_id = "flowgo-cursor";
  redirect_uri = "http://localhost:8787/callback";
  scope = "";
  state = "";
  code_challenge = "v";
  code_challenge_method = "";
  resource = "";
}

abbrev form : TokenForm
form = record {
  grant_type = "authorization_code";
  code = "c1";
  redirect_uri = "http://localhost:8787/callback";
  client_id = "flowgo-cursor";
  code_verifier = "v";
  client_secret = "";
  refresh_token = "";
  scope = "";
}

abbrev refresh_form : TokenForm
refresh_form = record form { refresh_token = "t1" }

abbrev draw_of : String → TokenDraw
draw_of token = record { now = 10; later = 10; last = 10; refresh = some token }

abbrev answer_of : {A E : Type 0} → A → Outcome E A → A
answer_of a (returns b) = b
answer_of a (fails e) = a

abbrev no_answer : TokenResponse
no_answer = record { access_token = ""; expires_in = 0; refresh_token = ""; scope = "" }

-- The memory after the login, after the exchange of its code, and after a refresh.
abbrev logged_in : MemoryStore × Outcome AuthorizeError String
logged_in =
    handle_authorize_post services config request query "admin" "pw" (some "c1") 5 (seeded_store 0)

abbrev exchanged : MemoryStore × Outcome OAuthError TokenResponse
exchanged = token_from_code services config request form (draw_of "t1") logged_in.0

abbrev refreshed : MemoryStore × Outcome OAuthError TokenResponse
refreshed = token_from_refresh services config request refresh_form (draw_of "t2") exchanged.0

handle_authorize_post-CodeStored_example :
    CodeStored services config request query "admin" "pw" 5 (some "c1") (seeded_store 0) logged_in.0
unfolding handle_authorize_post refuse_with validate_authorize_params log_in seeded_store put_client
    get_client client_allows_redirect save_code purge_locked normalize_challenge_method resource_url
    base_url url_scheme same_resource trim_space trim_right_slashes ◌>>=◌ refuse_if require lookup
    put delete retain
handle_authorize_post-CodeStored_example =
    handle_authorize_post-CodeStored services config request query "admin" "pw" 5 (some "c1")
      (seeded_store 0) _ _ refl

token_from_code-CodeExchange_example :
    CodeExchange services config request form
      (draw_of "t1")
      logged_in.0
      exchanged.0
      (answer_of no_answer exchanged.1)
unfolding handle_authorize_post refuse_with validate_authorize_params log_in seeded_store put_client
    get_client client_allows_redirect save_code purge_locked normalize_challenge_method resource_url
    base_url url_scheme same_resource trim_space trim_right_slashes ◌>>=◌ refuse_if require lookup
    put delete retain token_from_code issue_token_response take_code save_refresh
    authenticate_client verify_pkce
token_from_code-CodeExchange_example =
    token_from_code-CodeExchange services config request form (draw_of "t1") logged_in.0 _ _ refl

token_from_refresh-Refreshed_example :
    Refreshed services config request refresh_form
      (draw_of "t2")
      exchanged.0
      refreshed.0
      (answer_of no_answer refreshed.1)
unfolding handle_authorize_post refuse_with validate_authorize_params log_in seeded_store put_client
    get_client client_allows_redirect save_code purge_locked normalize_challenge_method resource_url
    base_url url_scheme same_resource trim_space trim_right_slashes ◌>>=◌ refuse_if require lookup
    put delete retain token_from_code issue_token_response take_code save_refresh
    authenticate_client verify_pkce token_from_refresh take_refresh
token_from_refresh-Refreshed_example =
    token_from_refresh-Refreshed services config request refresh_form (draw_of "t2") exchanged.0 _ _
      refl refl

token_from_code-once_example : ¬ (
    token_from_code services config request form (draw_of "t3") (
      run_calls services config
        (redeems request (some refresh_form) (draw_of "t2") ∷ [])
        exchanged.0)
    ≡ (exchanged.0, returns no_answer))
unfolding handle_authorize_post refuse_with validate_authorize_params log_in seeded_store put_client
    get_client client_allows_redirect save_code purge_locked normalize_challenge_method resource_url
    base_url url_scheme same_resource trim_space trim_right_slashes ◌>>=◌ refuse_if require lookup
    put delete retain token_from_code issue_token_response take_code save_refresh
    authenticate_client verify_pkce
token_from_code-once_example =
    token_from_code-once services config request request form form (draw_of "t1") (draw_of "t3")
      logged_in.0 exchanged.0 exchanged.0 _ no_answer
      (redeems request (some refresh_form) (draw_of "t2") ∷ []) refl (tt, tt) refl

token_from_code-Proves_example :
    let m =
      run_calls services config
        (authorizes request query "admin" "pw" (some "c1") 5 ∷ [])
        (seeded_store 0) in
    (c : AuthCode) × HasEntry "c1" c m.codes
    × (after 10 c.expires_at ≡ false)
    × (c.client_id ≡ "flowgo-cursor")
    × (c.redirect_uri ≡ "http://localhost:8787/callback")
    × ((c.code_challenge == "") ≡ false)
    × Proves services config "v" c
unfolding handle_authorize_post refuse_with validate_authorize_params log_in seeded_store put_client
    get_client client_allows_redirect save_code purge_locked normalize_challenge_method resource_url
    base_url url_scheme same_resource trim_space trim_right_slashes ◌>>=◌ refuse_if require lookup
    put delete retain token_from_code issue_token_response take_code save_refresh
    authenticate_client verify_pkce run_calls run_call
token_from_code-Proves_example =
    token_from_code-Proves services config 0
      (authorizes request query "admin" "pw" (some "c1") 5 ∷ []) request form (draw_of "t1") _ _
      refl

find_agrees : (name : String) (u : User) → find "admin" name ≡ some u → find "u" u.id ≡ some u
find_agrees name u h = elim (Bool-cases (name == "admin")) [
  | inl e ↦ let same : admin ≡ u = cc (rw e at h) in rw (← same) refl
  | inr e ↦ cc (rw e at h)
]

token_from_code-authorize_example :
    (m₂ : MemoryStore) × (resp : TokenResponse) × (token_from_code services config request form
        (draw_of "t1")
        logged_in.0
      ≡ (m₂, returns resp))
unfolding handle_authorize_post refuse_with validate_authorize_params log_in seeded_store put_client
    get_client client_allows_redirect save_code purge_locked normalize_challenge_method resource_url
    base_url url_scheme same_resource trim_space trim_right_slashes ◌>>=◌ refuse_if require lookup
    put delete retain authenticate_client verify_pkce
token_from_code-authorize_example =
    token_from_code-authorize services config request query "admin" "pw" "c1" "t1" _ 5
      (seeded_store 0) logged_in.0 form (draw_of "t1") _ find_agrees
      (λ u resource ttl. ("jwt", refl)) refl refl refl refl refl refl refl refl refl (omega arith)
      (omega arith)

abbrev registration : RegistrationRequest
registration = record {
  client_name = "";
  redirect_uris = "https://h/cb" ∷ [];
  grant_types = [];
  response_types = [];
  token_endpoint_auth_method = "";
}

abbrev no_client : Client
no_client = record {
  id = "";
  secret = "";
  name = "";
  redirect_uris = [];
  token_endpoint_auth_method = "";
  grant_types = [];
  response_types = [];
  created_at = 0;
}

abbrev registered : MemoryStore × Outcome OAuthError Client
registered =
    handle_register services (some registration) (record { client_id = some "id1"; secret = none })
      7 (seeded_store 0)

handle_register-Registered_example :
    (req : RegistrationRequest) × (some registration ≡ some req)
    × Registered services req (answer_of no_client registered.1) (seeded_store 0) registered.0
unfolding handle_register all_valid auth_method valid_redirect_uri seeded_store put_client
    trim_space ◌>>=◌ refuse_if require put delete
handle_register-Registered_example =
    handle_register-Registered services (some registration)
      (record { client_id = some "id1"; secret = none }) 7 (seeded_store 0) _ _ refl
