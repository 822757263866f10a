-- ===== src/Store/Sample.antt =====
-- A backend to run the store on: collections in memory, and a coder that knows two flow graphs and
-- the histories of the tests. It meets the laws of `Backend`.
use flowgo_server.Prelude.{
  ℕ, String, ◌≡◌, refl, ◌==◌, Bool, true, false, ◌&&◌, Option, none, some, List, [], ◌∷◌, arith,
  nat_eq, if◌then◌else◌, eq_iff, trim_space, Bool-cases, inl, inr,
}
use flowgo_server.Types.{FlowDsl}
use flowgo_server.Clover.Memory.{memory}
use flowgo_server.Store.Docs.{FlowDoc, GroupDoc, UserDoc, HistoryEntry}
use flowgo_server.Store.Backend.{Backend}

-- A flow graph without nodes.
abbrev pub bare_dsl : String → FlowDsl Unit
bare_dsl name = record { id = "f"; name = name; entry_node = ""; nodes = []; edges = [] }

abbrev is_empty : {A : Type 0} → List A → Bool
is_empty [] = true
is_empty (x ∷ xs) = false

is_empty-nil : {A : Type 0} (xs : List A) → is_empty xs ≡ true → xs ≡ []
is_empty-nil [] h = refl
is_empty-nil (x ∷ xs) h = cc

and_left : (a c : Bool) → (a && c) ≡ true → a ≡ true
and_left a c h = ground arith

and_right : (a c : Bool) → (a && c) ≡ true → c ≡ true
and_right a c h = ground arith

-- Both texts' tests at once, for the proofs below.
abbrev pub is_bare : FlowDsl Unit → String → Bool
is_bare d name =
    ((d.id == "f") && (d.name == name))
    && ((d.entry_node == "") && (is_empty d.nodes && is_empty d.edges))

pub is_bare-eq : (d : FlowDsl Unit) (name : String) → is_bare d name ≡ true → d ≡ bare_dsl name
is_bare-eq d name h =
    let left = and_left _ _ h in
    let right = and_right _ _ h in
    let i : d.id ≡ "f" = (eq_iff d.id "f").0 (and_left _ _ left) in
    let n : d.name ≡ name = (eq_iff d.name name).0 (and_right _ _ left) in
    let e : d.entry_node ≡ "" = (eq_iff d.entry_node "").0 (and_left _ _ right) in
    let rest = and_right _ _ right in
    let ns = is_empty-nil d.nodes (and_left _ _ rest) in
    let es = is_empty-nil d.edges (and_right _ _ rest) in cc

-- A history entry with its own text, and the test on it.
abbrev pub entry_eq : HistoryEntry → HistoryEntry → Bool
entry_eq x y =
    (nat_eq x.version y.version && (x.note == y.note))
    && ((x.published_at == y.published_at) && (x.dsl_json == y.dsl_json))

nat_eq-eq : (m n : ℕ) → nat_eq m n ≡ true → m ≡ n
nat_eq-eq m n h = ground arith

pub entry_eq-eq : (x y : HistoryEntry) → entry_eq x y ≡ true → x ≡ y
entry_eq-eq x y h =
    let left = and_left _ _ h in
    let right = and_right _ _ h in
    let v : x.version ≡ y.version = nat_eq-eq _ _ (and_left _ _ left) in
    let n : x.note ≡ y.note = (eq_iff x.note y.note).0 (and_right _ _ left) in
    let a : x.published_at ≡ y.published_at = (eq_iff _ _).0 (and_left _ _ right) in
    let j : x.dsl_json ≡ y.dsl_json = (eq_iff _ _).0 (and_right _ _ right) in cc

-- The live version of the tests' flow, as the history keeps it.
abbrev pub sample_entry : HistoryEntry
sample_entry = record { version = 1; note = "first"; published_at = "t0"; dsl_json = "{live}" }

abbrev marshal_sample_dsl : FlowDsl Unit → Option String
marshal_sample_dsl d =
    if is_bare d "draft" then some "{draft}" else if is_bare d "live" then some "{live}" else none

abbrev unmarshal_sample_dsl : String → Option (FlowDsl Unit)
unmarshal_sample_dsl s =
    if s == "{draft}"
    then some (bare_dsl "draft")
    else if s == "{live}"
    then some (bare_dsl "live")
    else none

abbrev marshal_sample_history : List HistoryEntry → Option String
marshal_sample_history [] = some "[]"
marshal_sample_history (e ∷ []) = if entry_eq e sample_entry then some "[first]" else none
marshal_sample_history _ = none

abbrev unmarshal_sample_history : String → Option (List HistoryEntry)
unmarshal_sample_history s =
    if s == "[]" then some [] else if s == "[first]" then some (sample_entry ∷ []) else none

pub dsl_round_trip :
    (d : FlowDsl Unit) (s : String)
    → marshal_sample_dsl d ≡ some s
    → (unmarshal_sample_dsl s ≡ some d) × ((s == "") ≡ false) × ((trim_space s == "") ≡ false)
unfolding trim_space
dsl_round_trip d s h = elim (Bool-cases (is_bare d "draft")) [
  | inl e ↦
      let text : "{draft}" ≡ s = cc (rw e at h) in
      rw (← text) (rw (is_bare-eq d "draft" e) refl, refl, refl)
  | inr e ↦ elim (Bool-cases (is_bare d "live")) [
    | inl e' ↦
        let text : "{live}" ≡ s = cc (rw (e, e') at h) in
        rw (← text) (rw (is_bare-eq d "live" e') refl, refl, refl)
    | inr e' ↦ cc (rw (e, e') at h)
  ]
]

pub history_round_trip :
    (es : List HistoryEntry) (s : String)
    → marshal_sample_history es ≡ some s
    → (unmarshal_sample_history s ≡ some es) × ((trim_space s == "") ≡ false)
unfolding trim_space
history_round_trip [] s h = let text : "[]" ≡ s = cc in rw (← text) (refl, refl)
history_round_trip (e ∷ []) s h = elim (Bool-cases (entry_eq e sample_entry)) [
  | inl same ↦
      let text : "[first]" ≡ s = cc (rw same at h) in
      rw (← text) (rw (entry_eq-eq e sample_entry same) refl, refl)
  | inr other ↦ cc (rw other at h)
]
history_round_trip (e ∷ e' ∷ es) s h = cc

abbrev sample_sha256_hex : String → String
sample_sha256_hex s = if s == "secret" then "aa" else "bb"

pub sha256_hex_nonempty : (s : String) → (sample_sha256_hex s == "") ≡ false
sha256_hex_nonempty s = elim (Bool-cases (s == "secret")) [ inl e ↦ rw e refl | inr e ↦ rw e refl ]

abbrev pub sample : Backend
sample = record {
  Configuration = Unit;
  flows = memory FlowDoc;
  groups = memory GroupDoc;
  users = memory UserDoc;
  marshal_dsl = marshal_sample_dsl;
  unmarshal_dsl = unmarshal_sample_dsl;
  marshal_history = marshal_sample_history;
  unmarshal_history = unmarshal_sample_history;
  dsl_fingerprint = λ d. some d.name;
  sha256_hex = sample_sha256_hex;
  generate_password_hash = λ p. some p;
  compare_hash_and_password = λ hash p. hash == p;
  dsl_round_trip = dsl_round_trip;
  history_round_trip = history_round_trip;
  empty_history = refl;
  sha256_hex_nonempty = sha256_hex_nonempty;
}
