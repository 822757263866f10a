-- ===== src/Store/Backend.antt =====
-- What the store calls that is not part of the repository: CloverDB's collections, encoding/json on
-- the two texts that documents hold, engine.DslFingerprint, SHA-256 and bcrypt.
use flowgo_server.Prelude.{String, ◌≡◌, ◌==◌, Bool, false, Option, some, List, [], trim_space}
use flowgo_server.Types.{FlowDsl}
use flowgo_server.Clover.{Collection}
use flowgo_server.Store.Docs.{FlowDoc, GroupDoc, UserDoc, HistoryEntry}

pub record Backend : Type 1 where
  pub Configuration : Type 0
  pub flows : Collection FlowDoc
  pub groups : Collection GroupDoc
  pub users : Collection UserDoc
  pub marshal_dsl : FlowDsl Configuration → Option String
  pub unmarshal_dsl : String → Option (FlowDsl Configuration)
  pub marshal_history : List HistoryEntry → Option String
  pub unmarshal_history : String → Option (List HistoryEntry)
  pub dsl_fingerprint : FlowDsl Configuration → Option String
  pub sha256_hex : String → String
  pub generate_password_hash : String → Option String
  pub compare_hash_and_password : String → String → Bool
  -- What is marshalled reads back, and is not blank.
  pub dsl_round_trip :
      (d : FlowDsl Configuration) (s : String)
      → marshal_dsl d ≡ some s
      → (unmarshal_dsl s ≡ some d) × ((s == "") ≡ false) × ((trim_space s == "") ≡ false)
  pub history_round_trip :
      (h : List HistoryEntry) (s : String)
      → marshal_history h ≡ some s
      → (unmarshal_history s ≡ some h) × ((trim_space s == "") ≡ false)
  pub empty_history : unmarshal_history "[]" ≡ some []
  -- A digest in hexadecimal is not empty.
  pub sha256_hex_nonempty : (s : String) → (sha256_hex s == "") ≡ false

-- The collections that the store works on; they are separate key spaces of one database.
pub record StoreDb (b : Backend) : Type 0 where
  pub flows : b.flows.Db
  pub groups : b.groups.Db
  pub users : b.users.Db
