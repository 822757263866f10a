-- ===== src/Mqtt/Keys.antt =====
-- The keys of the tables of internal/mqttendpoint/manager.go: of tracks, flows and nodes, and NULs
-- in them.
use Prim.Native.Char.{code}
use Prim.Native.String.{String, [], ◌∷◌, ◌++◌ as ◌<>◌}
use text.Mathlib.TextLemmas.{nil-append, cons-append, append_assoc}
use flowgo_server.Prelude.{
  ◌≡◌, refl, ap, sym, ◌==◌, eq_iff, Bool, false, true, none, some, if◌then◌else◌, nat_eq,
  text_cases, inl, inr, arith,
}
use flowgo_server.Mqtt.Helpers.{
  Track, published, draft, track_name, flow_key, node_key, cut_prefix, cut_draft,
}

-- No NUL, the character that separates the parts of a key.
unfoldable pub is_plain : String → Bool
is_plain [] = true
is_plain (c ∷ s) = if nat_eq (code c) 0 then false else is_plain s

unfoldable before_nul : String → String
before_nul [] = []
before_nul (c ∷ s) = if nat_eq (code c) 0 then [] else c ∷ before_nul s

unfoldable after_nul : String → String
after_nul [] = []
after_nul (c ∷ s) = if nat_eq (code c) 0 then s else after_nul s

nul_first : (b : String) → (before_nul ("\0" <> b) ≡ "") × (after_nul ("\0" <> b) ≡ b)
unfolding before_nul after_nul
nul_first b = rw (cons-append "\0" [] b, nil-append b) (refl, refl)

before_nul-append : (a b : String) → is_plain a ≡ true → before_nul (a <> "\0" <> b) ≡ a
unfolding is_plain before_nul
before_nul-append [] b h = rw (nil-append ("\0" <> b)) (nul_first b).0
before_nul-append (c ∷ a) b h =
    rw (cons-append c a ("\0" <> b)) (ground (arith, before_nul-append a b))

after_nul-append : (a b : String) → is_plain a ≡ true → after_nul (a <> "\0" <> b) ≡ b
unfolding is_plain after_nul
after_nul-append [] b h = rw (nil-append ("\0" <> b)) (nul_first b).1
after_nul-append (c ∷ a) b h =
    rw (cons-append c a ("\0" <> b)) (ground (arith, after_nul-append a b))

track_name-plain : (t : Track) → is_plain (track_name t) ≡ true
unfolding is_plain track_name
track_name-plain published = refl
track_name-plain draft = refl

-- The key of the flow in that of a node.
pub flow_part : String → String
flow_part k = before_nul k <> "\0" <> before_nul (after_nul k)

pub flow_part-node_key :
    (t : Track) (f n : String) → is_plain f ≡ true → flow_part (node_key t f n) ≡ flow_key t f
unfolding flow_part node_key flow_key
flow_part-node_key t f n h =
    let p = track_name-plain t in
    rw
      (
        before_nul-append (track_name t) (f <> "\0" <> n) p,
        after_nul-append (track_name t) (f <> "\0" <> n) p,
        before_nul-append f n h,
      )
      refl

pub cut_prefix-append : (p s : String) → cut_prefix p (p <> s) ≡ some s
unfolding cut_prefix
cut_prefix-append [] s = rw (nil-append s) refl
cut_prefix-append (c ∷ p) s = rw (cons-append c p s) (ground (arith, cut_prefix-append p s))

pub cut_draft-flow_key : (id : String) → cut_draft (flow_key draft id) ≡ some id
unfolding cut_draft flow_key track_name
cut_draft-flow_key id = rw (sym (append_assoc "draft" "\0" id)) (cut_prefix-append "draft\0" id)

cut_draft-published : (id : String) → cut_draft (flow_key published id) ≡ none
unfolding cut_draft flow_key cut_prefix track_name
cut_draft-published id = rw (cons-append "p" "ublished" ("\0" <> id)) refl

pub draft_key-ne :
    (f g : String) → (f == g) ≡ false → (flow_key draft f == flow_key draft g) ≡ false
draft_key-ne f g h = elim (text_cases (flow_key draft f) (flow_key draft g)) [
  | inr e ↦ e
  | inl e ↦
      let p = ap cut_draft e in
      let q : f ≡ g = cc (cut_draft-flow_key f, cut_draft-flow_key g, p) in
      ground (arith, eq_iff f g, q)
]

pub published_key-ne : (f g : String) → (flow_key published f == flow_key draft g) ≡ false
published_key-ne f g = elim (text_cases (flow_key published f) (flow_key draft g)) [
  | inr e ↦ e
  | inl e ↦ let p = ap cut_draft e in cc (cut_draft-published f, cut_draft-flow_key g, p)
]
