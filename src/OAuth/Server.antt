-- ===== src/OAuth/Server.antt =====
-- internal/oauth/server.go: what the handlers share. `Services` holds what they call outside the
-- package: net/url, SHA-256 with base64, the accounts of internal/store and the tokens of
-- internal/auth.
use Prim.Native.Char.{code}
use Prim.Native.Nat.{ℕ}
use Prim.Native.String.{◌∷◌ as ◌∷ₛ◌, [] as []ₛ, ◌++◌ as ◌<>◌}
use flowgo_server.Prelude.{
  String, ◌==◌, Bool, true, false, ◌||◌, Option, none, some, List, [], ◌∷◌, if◌then◌else◌, nat_eq,
  trim_space, trim_right_slashes,
}
use flowgo_server.Prelude.Action.{Action}
use flowgo_server.Store.Docs.{User}
use flowgo_server.OAuth.Memory.{MemoryStore, Client, put_client, new_memory_store}

-- A failing call and a missing user are both `none`, as the handlers treat them.
pub record Services : Type 1 where
  pub Url : Type 0
  pub parse_url : String → Option Url
  pub scheme : Url → String
  pub hostname : Url → String
  pub set_query : String → String → Url → Url
  pub url_string : Url → String
  pub to_lower : String → String
  pub s256 : String → String
  pub find_user_by_id : String → Option User
  pub find_user_by_username : String → Option User
  pub check_password : String → String → Bool
  pub is_mcp_enabled : String → Option Bool
  pub issue_access_token : User → String → ℕ → Option String

-- The errors of writeOAuthError.
pub data OAuthError : Type 0 where
  invalid_request invalid_client invalid_grant unsupported_grant_type server_error : OAuthError
  invalid_client_metadata invalid_redirect_uri : OAuthError

abbrev pub Handler : Type 0 → Type 0
Handler A = Action MemoryStore OAuthError A

abbrev pub default_scope : String
default_scope = "mcp"

-- Times are counted in seconds.
abbrev pub code_ttl : ℕ
code_ttl = 600

pub record Config : Type 0 where
  pub public_base_url : String
  pub access_ttl : ℕ
  pub refresh_ttl : ℕ

abbrev or_default : ℕ → ℕ → ℕ
or_default n d = if nat_eq n 0 then d else n

-- The defaults that New puts in place.
unfoldable pub with_defaults : Config → Config
with_defaults cfg = record cfg {
  access_ttl = or_default cfg.access_ttl 3600;
  refresh_ttl = or_default cfg.refresh_ttl 2592000;
}

-- What baseURL reads of a request.
pub record Request : Type 0 where
  pub tls : Bool
  pub forwarded_proto : String
  pub host : String

-- strings.Split(s, ",")[0]
unfoldable pub before_comma : String → String
before_comma []ₛ = ""
before_comma (c ∷ₛ s) = let rest = before_comma s in if nat_eq (code c) b',' then "" else c ∷ₛ rest

unfoldable pub url_scheme : Request → String
url_scheme r =
    if r.forwarded_proto == ""
    then (if r.tls then "https" else "http")
    else trim_space (before_comma r.forwarded_proto)

unfoldable pub base_url : Config → Request → String
base_url cfg r =
    if trim_space cfg.public_base_url == ""
    then url_scheme r <> ("://" <> (if r.host == "" then "127.0.0.1:8090" else r.host))
    else trim_right_slashes (trim_space cfg.public_base_url)

unfoldable pub resource_url : Config → Request → String
resource_url cfg r = trim_right_slashes (base_url cfg r) <> "/mcp"

unfoldable pub same_resource : String → String → Bool
same_resource a b = trim_right_slashes (trim_space a) == trim_right_slashes (trim_space b)

abbrev pub cursor_redirect_uris : List String
cursor_redirect_uris =
    "http://localhost:8787/callback" ∷ "http://127.0.0.1:8787/callback"
    ∷ "cursor://anysphere.cursor-mcp/oauth/callback"
    ∷ "https://www.cursor.com/agents/mcp/oauth/callback" ∷ []

abbrev pub both_grants : List String
both_grants = "authorization_code" ∷ "refresh_token" ∷ []

abbrev cursor_client : ℕ → Client
cursor_client now = record {
  id = "flowgo-cursor";
  secret = "";
  name = "Cursor";
  redirect_uris = cursor_redirect_uris;
  token_endpoint_auth_method = "none";
  grant_types = both_grants;
  response_types = "code" ∷ [];
  created_at = now;
}

-- The store of a new server: newMemoryStore, then seedCursorClient.
unfoldable pub seeded_store : ℕ → MemoryStore
seeded_store now = put_client (cursor_client now) new_memory_store

module _ (env : Services) where
  abbrev is_loopback : String → Bool
  is_loopback host = host == "localhost" || host == "127.0.0.1" || host == "::1"

  abbrev allowed_url : Option env.Url → Bool
  allowed_url none = false
  allowed_url (some u) =
      if env.scheme u == "https"
      then true
      else if env.scheme u == "http"
      then is_loopback (env.to_lower (env.hostname u))
      else env.scheme u == "cursor"

  unfoldable pub valid_redirect_uri : String → Bool
  valid_redirect_uri raw = if raw == "" then false else allowed_url (env.parse_url raw)
