-- ===== src/Endpoint/Config.antt =====
-- What internal/endpoint calls outside the repository: the endpoint component of the engine, the
-- network and crypto/tls.
use flowgo_server.Prelude.{String, Bool, Option, List}

-- A router of an HTTP endpoint node.
pub record Router : Type 0 where
  pub method : String
  pub path : String

-- epcomp.HttpConfig
pub record HttpConfig : Type 0 where
  pub server : String
  pub https : Bool
  pub cert_pem : String
  pub key_pem : String
  pub allow_cors : Bool
  pub routers : List Router

pub record Component : Type 1 where
  pub Configuration : Type 0
  pub type : String
  pub parse_http_config : Configuration → Option HttpConfig
  pub normalize_server : String → String
  pub to_pattern : String → String → String
  pub router_relation : Router → String
  pub tls_fingerprint : HttpConfig → String
  pub x509_key_pair : String → String → Bool
  -- Whether ServeMux.HandleFunc takes a pattern in a mux that has these, in place of a panic.
  pub registers : List String → String → Bool
