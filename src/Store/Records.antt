-- ===== src/Store/Records.antt =====
-- internal/store/flow.go and flow_publish.go: a flow's record, as flowFromDoc reads it from a
-- document, and its publish history.
use flowgo_server.Prelude.{
  ℕ, ◌-◌, String, ◌==◌, Bool, true, false, not, Option, none, some, List, [], ◌∷◌, ltb,
  if◌then◌else◌, is_some, nonempty, length, drop, trim_space,
}
use flowgo_server.Types.{FlowDsl}
use flowgo_server.Store.Docs.{FlowDoc, HistoryEntry, version_or_zero}
use flowgo_server.Store.Backend.{Backend}

abbrev pub max_publish_history : ℕ
max_publish_history = 20

-- hist = hist[len(hist)-maxPublishHistory:] where it is longer
unfoldable pub keep_last_history : List HistoryEntry → List HistoryEntry
keep_last_history h =
    if ltb max_publish_history (length h) then drop (length h - max_publish_history) h else h

pub record FlowRecord (C : Type 0) : Type 0 where
  pub id : String
  pub name : String
  pub owner_id : String
  pub group_id : String
  pub previous_group_id : String
  pub locked : Bool
  pub has_lock_password : Bool
  pub dsl : Option (FlowDsl C)
  pub published_dsl : Option (FlowDsl C)
  pub published : Bool
  pub unpublished_changes : Bool
  pub has_publish_history : Bool
  pub published_at : String
  pub published_version : ℕ
  pub updated_at : String
  pub created_at : String

-- `len(entries) > 0`
abbrev pub has_entries : {A : Type 0} → List A → Bool
has_entries [] = false
has_entries (x ∷ xs) = true

module _ ⦃b : Backend⦄ where
  abbrev pub Dsl : Type 0
  Dsl = FlowDsl b.Configuration

  abbrev pub Rec : Type 0
  Rec = FlowRecord b.Configuration

  -- readHistory on the text of `historyJSON`
  unfoldable pub parse_history : String → List HistoryEntry
  parse_history raw =
      if trim_space raw == ""
      then []
      else elim (b.unmarshal_history raw) [ none ↦ [] | some es ↦ es ]

  abbrev pub read_history : FlowDoc → List HistoryEntry
  read_history doc = parse_history doc.history_json

  -- The DSL of a text field: none where it is empty or does not parse.
  unfoldable pub parse_dsl : String → Option Dsl
  parse_dsl raw = if raw == "" then none else b.unmarshal_dsl raw

  -- fa != fb, or an error of either
  unfoldable pub fingerprints_differ : Option String → Option String → Bool
  fingerprints_differ (some fa) (some fb) = not (fa == fb)
  fingerprints_differ _ _ = true

  -- The value of UnpublishedChanges that applyPublishStatus sets.
  unfoldable pub unpublished_changes_of : Option Dsl → Option Dsl → Bool
  unpublished_changes_of dsl none = is_some dsl
  unpublished_changes_of none (some p) = false
  unpublished_changes_of (some d) (some p) =
      fingerprints_differ (b.dsl_fingerprint d) (b.dsl_fingerprint p)

  unfoldable pub apply_publish_status : Rec → Rec
  apply_publish_status r = record r {
    published = is_some r.published_dsl;
    unpublished_changes = unpublished_changes_of r.dsl r.published_dsl;
  }

  unfoldable pub flow_from_doc : FlowDoc → Rec
  flow_from_doc doc = apply_publish_status (record {
    id = doc.flow_id;
    name = doc.name;
    owner_id = doc.owner_id;
    group_id = doc.group_id;
    previous_group_id = doc.previous_group_id;
    locked = doc.locked;
    has_lock_password = nonempty doc.lock_password_hash;
    dsl = parse_dsl doc.dsl_json;
    published_dsl = parse_dsl doc.published_json;
    published = false;
    unpublished_changes = false;
    has_publish_history = has_entries (read_history doc);
    published_at = doc.published_at;
    published_version = version_or_zero doc.published_version;
    updated_at = doc.updated_at;
    created_at = doc.created_at;
  })

  -- hashLockPassword
  unfoldable pub hash_lock_password : String → String
  hash_lock_password password = if password == "" then "" else b.sha256_hex password
