-- ===== src/OAuth/Memory.antt =====
-- internal/oauth/memory.go: clients, authorization codes and refresh tokens in memory. Times are
-- instants of one clock; a method that reads it twice takes both readings.
use flowgo_server.Prelude.{
  ℕ, String, ◌==◌, Bool, false, not, Option, none, some, List, [], if◌then◌else◌, ltb, contains,
  GoMap, lookup, delete, put, retain,
}

pub record Client : Type 0 where
  pub id : String
  pub secret : String
  pub name : String
  pub redirect_uris : List String
  pub token_endpoint_auth_method : String
  pub grant_types : List String
  pub response_types : List String
  pub created_at : ℕ

-- authCode
pub record AuthCode : Type 0 where
  pub code : String
  pub client_id : String
  pub user_id : String
  pub redirect_uri : String
  pub scope : String
  pub resource : String
  pub code_challenge : String
  pub code_challenge_method : String
  pub expires_at : ℕ

-- refreshToken
pub record RefreshToken : Type 0 where
  pub token : String
  pub client_id : String
  pub user_id : String
  pub scope : String
  pub resource : String
  pub expires_at : ℕ

-- memoryStore
pub record MemoryStore : Type 0 where
  pub clients : GoMap Client
  pub codes : GoMap AuthCode
  pub refresh : GoMap RefreshToken

abbrev pub new_memory_store : MemoryStore
new_memory_store = record { clients = []; codes = []; refresh = [] }

unfoldable pub put_client : Client → MemoryStore → MemoryStore
put_client c m = record m { clients = put c.id c m.clients }

unfoldable pub get_client : String → MemoryStore → Option Client
get_client id m = lookup id m.clients

abbrev has_redirect : Option Client → String → Bool
has_redirect none uri = false
has_redirect (some c) uri = contains c.redirect_uris uri

unfoldable pub client_allows_redirect : String → String → MemoryStore → Bool
client_allows_redirect id uri m = has_redirect (get_client id m) uri

-- now.After(t)
abbrev pub after : ℕ → ℕ → Bool
after now t = ltb t now

unfoldable pub purge_locked : ℕ → MemoryStore → MemoryStore
purge_locked now m = record m {
  codes = retain (λ c. not (after now c.expires_at)) m.codes;
  refresh = retain (λ t. not (after now t.expires_at)) m.refresh;
}

unfoldable pub save_code : AuthCode → ℕ → MemoryStore → MemoryStore
save_code c now m = let p = purge_locked now m in record p { codes = put c.code c p.codes }

-- The value, unless it has expired.
abbrev fresh : {T : Type 0} → ℕ → ℕ → T → Option T
fresh later expires_at t = if after later expires_at then none else some t

abbrev taken_code : Option AuthCode → String → ℕ → MemoryStore → MemoryStore × Option AuthCode
taken_code none code later m = (m, none)
taken_code (some c) code later m =
    (record m { codes = delete code m.codes }, fresh later c.expires_at c)

unfoldable pub take_code : String → ℕ → ℕ → MemoryStore → MemoryStore × Option AuthCode
take_code code now later m =
    let p = purge_locked now m in taken_code (lookup code p.codes) code later p

unfoldable pub save_refresh : RefreshToken → MemoryStore → MemoryStore
save_refresh t m = record m { refresh = put t.token t m.refresh }

abbrev taken_refresh :
    Option RefreshToken → String → ℕ → MemoryStore → MemoryStore × Option RefreshToken
taken_refresh none token later m = (m, none)
taken_refresh (some t) token later m =
    (record m { refresh = delete token m.refresh }, fresh later t.expires_at t)

unfoldable pub take_refresh : String → ℕ → ℕ → MemoryStore → MemoryStore × Option RefreshToken
take_refresh token now later m =
    let p = purge_locked now m in taken_refresh (lookup token p.refresh) token later p

unfoldable pub normalize_challenge_method : String → String
normalize_challenge_method m = if m == "" then "plain" else m

-- verifyPKCE; `s256` is the URL-safe base64 of a text's SHA-256, without padding.
unfoldable pub verify_pkce : (String → String) → String → String → String → Bool
verify_pkce s256 verifier challenge method =
    let m = normalize_challenge_method method in
    if m == "S256"
    then s256 verifier == challenge
    else if m == "plain"
    then verifier == challenge
    else false
