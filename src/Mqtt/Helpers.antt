-- ===== src/Mqtt/Helpers.antt =====
-- internal/mqttendpoint/helpers.go: the keys of the tables, ids in a client's name, and the test for JSON.
use Prim.Native.Char.{code}
use Prim.Native.String.{[], ◌∷◌, ◌++◌ as ◌<>◌}
use flowgo_server.Prelude.{
  ℕ, zero, suc, String, ◌==◌, if◌then◌else◌, nat_eq, trim_space, Option, none, some, Bool, false,
  ◌||◌, ◌≡◌, refl,
}
use flowgo_server.Types.{FlowDsl}

-- trackPublished and trackDraft
pub data Track : Type 0 where
  published draft : Track

unfoldable pub track_name : Track → String
track_name published = "published"
track_name draft = "draft"

unfoldable pub flow_key : Track → String → String
flow_key track flow_id = track_name track <> "\0" <> flow_id

unfoldable pub node_key : Track → String → String → String
node_key track flow_id node_id = track_name track <> "\0" <> flow_id <> "\0" <> node_id

unfoldable pub ensure_dsl_id : {C : Type 0} → FlowDsl C → String → FlowDsl C
ensure_dsl_id dsl flow_id = if dsl.id == flow_id then dsl else record dsl { id = flow_id }

unfoldable pub starts_json : String → Bool
starts_json [] = false
starts_json (c ∷ s) = nat_eq (code c) b'{' || nat_eq (code c) b'['

unfoldable pub looks_json : String → Bool
unfolding starts_json
looks_json s = starts_json (trim_space s)

-- strings.ReplaceAll(s, "-", "")
unfoldable pub without_dashes : String → String
without_dashes [] = []
without_dashes (c ∷ s) = if nat_eq (code c) b'-' then without_dashes s else c ∷ without_dashes s

-- The first n characters. Go counts bytes, which is the same for the ASCII ids of the program.
unfoldable pub first_chars : ℕ → String → String
first_chars zero s = []
first_chars (suc n) [] = []
first_chars (suc n) (c ∷ s) = c ∷ first_chars n s

unfoldable pub short_id : String → String
unfolding without_dashes first_chars
short_id s = let t = first_chars 12 (without_dashes s) in if t == "" then "x" else t

short_id_tests : (short_id "0123-4567-89ab-cdef" ≡ "0123456789ab") × (short_id "-" ≡ "x")
unfolding short_id
short_id_tests = (refl, refl)

-- strings.TrimPrefix where strings.HasPrefix holds
unfoldable pub cut_prefix : String → String → Option String
cut_prefix [] s = some s
cut_prefix (c ∷ p) [] = none
cut_prefix (c ∷ p) (d ∷ s) = if nat_eq (code c) (code d) then cut_prefix p s else none

-- The flow of a key of the draft track.
unfoldable pub cut_draft : String → Option String
unfolding cut_prefix
cut_draft fk = cut_prefix "draft\0" fk
