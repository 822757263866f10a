-- ===== src/OAuth/Register.antt =====
-- internal/oauth/register.go: dynamic client registration.
use flowgo_server.Prelude.{
  ℕ, String, ◌==◌, Bool, true, false, not, ◌&&◌, Option, some, List, [], ◌∷◌, if◌then◌else◌,
  trim_space,
}
use flowgo_server.Prelude.Action.{◌>>=◌, ◌>>◌, pure, refuse_if, require, returns}
use flowgo_server.OAuth.Memory.{Client, put_client}
use flowgo_server.OAuth.Server.{
  Services, Handler, invalid_redirect_uri, invalid_client_metadata, server_error, both_grants,
  valid_redirect_uri,
}

-- registrationRequest: the fields that the handler uses.
pub record RegistrationRequest : Type 0 where
  pub client_name : String
  pub redirect_uris : List String
  pub grant_types : List String
  pub response_types : List String
  pub token_endpoint_auth_method : String

-- The tokens that the handler draws: none where the system has no randomness to give.
pub record RegisterDraw : Type 0 where
  pub client_id : Option String
  pub secret : Option String

abbrev pub is_nil : List String → Bool
is_nil [] = true
is_nil (x ∷ xs) = false

unfoldable pub auth_method : RegistrationRequest → String
auth_method req = let m = trim_space req.token_endpoint_auth_method in if m == "" then "none" else m

abbrev client_name_or : String → String
client_name_or name = let n = trim_space name in if n == "" then "MCP Client" else n

abbrev pub new_client : RegistrationRequest → String → String → ℕ → Client
new_client req id secret now = record {
  id = id;
  secret = secret;
  name = client_name_or req.client_name;
  redirect_uris = req.redirect_uris;
  token_endpoint_auth_method = auth_method req;
  grant_types = if is_nil req.grant_types then both_grants else req.grant_types;
  response_types = if is_nil req.response_types then "code" ∷ [] else req.response_types;
  created_at = now;
}

-- A secret is drawn for a client that is not public.
abbrev drawn_secret : String → Option String → Option String
drawn_secret method secret = if method == "none" then some "" else secret

-- m.putClient as an action.
abbrev store_client : Client → Handler (Unit {0})
store_client c m = (put_client c m, returns tt)

module _ (env : Services) where
  -- The loop over the URIs.
  unfoldable pub all_valid : List String → Bool
  all_valid [] = true
  all_valid (u ∷ us) = valid_redirect_uri env u && all_valid us

  -- handleRegister; `none` is a body that is not JSON. The answer holds the client.
  unfoldable pub handle_register : Option RegistrationRequest → RegisterDraw → ℕ → Handler Client
  handle_register body draw now = do
    req ← require body invalid_client_metadata
    refuse_if (is_nil req.redirect_uris) invalid_redirect_uri
    refuse_if (not (all_valid req.redirect_uris)) invalid_redirect_uri
    refuse_if (not (auth_method req == "none") && not (auth_method req == "client_secret_post"))
        invalid_client_metadata
    id ← require draw.client_id server_error
    secret ← require (drawn_secret (auth_method req) draw.secret) server_error
    store_client (new_client req id secret now)
    pure (new_client req id secret now)
