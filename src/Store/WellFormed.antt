-- ===== src/Store/WellFormed.antt =====
-- Well-formed flow documents: the publish fields agree, and the history is bounded.
use flowgo_server.Prelude.{
  ℕ, ◌-◌, ◌≤◌, ◌<◌, String, ◌≡◌, refl, ◌==◌, true, false, Option, none, some, List, [], ◌∷◌, ◌++◌,
  arith, All, All-append, All-drop, All-append_left, All-append_right, ap, All-select, length,
  length-append, length-drop, length-select-le, not, nat_eq, trim_space, text_cases, inl, inr,
  Bool-cases, ltb,
}
use flowgo_server.Store.Docs.{FlowDoc, HistoryEntry, version_or_zero}
use flowgo_server.Store.Backend.{Backend}
use flowgo_server.Store.Records.{
  keep_last_history, parse_history, read_history, max_publish_history,
}
use flowgo_server.Store.Publish.{
  live_entry, publish_history, rollback_history, rollback_target, without_version,
}
use flowgo_server.Store.Online.{offline_history, split_last}

-- A history entry has a version and the text of a DSL.
abbrev pub IsEntry : HistoryEntry → Type 0
IsEntry e = (0 < e.version) × ((e.dsl_json == "") ≡ false)

-- At most `max_publish_history` entries.
abbrev pub IsHistory : List HistoryEntry → Type 0
IsHistory h = (length h ≤ max_publish_history) × All IsEntry h

-- The version is positive exactly while a DSL is live.
abbrev pub AgreesOnLive : String → Option ℕ → Type 0
AgreesOnLive json version =
    ((json == "") ≡ false → 0 < version_or_zero version)
    × ((json == "") ≡ true → version_or_zero version ≡ 0)

pub trim_space-ne_empty : (s : String) → (trim_space s == "") ≡ false → (s == "") ≡ false
unfolding trim_space
trim_space-ne_empty s h = elim (text_cases s "") [ inl e ↦ cc (subst_trim e) | inr e ↦ e ]
  where
    subst_trim : s ≡ "" → (trim_space s == "") ≡ true
    subst_trim e = rw e refl

pub keep_last-IsHistory : (h : List HistoryEntry) → All IsEntry h → IsHistory (keep_last_history h)
unfolding keep_last_history
keep_last-IsHistory h a = elim (Bool-cases (ltb 20 (length h))) [
  | inl long ↦
      rw long (omega (arith, length-drop (length h - 20) h), All-drop IsEntry (length h - 20) h a)
  | inr short ↦ rw short (ground arith, a)
]

-- What `split_last` returns puts the list together again.
abbrev pub Splits : List HistoryEntry → Option (List HistoryEntry × HistoryEntry) → Type 0
Splits h none = h ≡ []
Splits h (some (front, last)) = h ≡ front ++ (last ∷ [])

Splits-cons :
    (e : HistoryEntry) (es : List HistoryEntry) (o : Option (List HistoryEntry × HistoryEntry))
    → split_last es ≡ o
    → Splits es o
    → Splits (e ∷ es) (split_last (e ∷ es))
unfolding split_last
Splits-cons e es none p h = rw (p, split_last) (ap (λ l. e ∷ l) h)
Splits-cons e es (some (front, last)) p h = rw (p, split_last) (ap (λ l. e ∷ l) h)

pub split_last-Splits : (h : List HistoryEntry) → Splits h (split_last h)
unfolding split_last
split_last-Splits [] = refl
split_last-Splits (e ∷ es) = Splits-cons e es (split_last es) refl (split_last-Splits es)

module _ ⦃b : Backend⦄ where
  pub record IsWellFormed (d : FlowDoc) : Type 0 where
    pub history : IsHistory (read_history d)
    pub live : AgreesOnLive d.published_json d.published_version

  module _ {doc : FlowDoc} (w : IsWellFormed doc) where
    live_entry-IsEntry :
        (note : String) → (doc.published_json == "") ≡ false → IsEntry (live_entry doc note)
    live_entry-IsEntry note e = (w.live.0 e, e)

    pushed-IsHistory :
        (note : String)
        → (doc.published_json == "") ≡ false
        → IsHistory (keep_last_history (read_history doc ++ (live_entry doc note ∷ [])))
    pushed-IsHistory note e =
        keep_last-IsHistory _
          (All-append IsEntry (read_history doc) _ w.history.1 (live_entry-IsEntry note e, tt))

    pub publish_history-IsHistory : IsHistory (publish_history doc)
    unfolding publish_history
    publish_history-IsHistory = elim (Bool-cases (doc.published_json == "")) [
      | inl e ↦ rw e w.history
      | inr e ↦ rw e (pushed-IsHistory "" e)
    ]

    pub rollback_history-IsHistory : IsHistory (rollback_history doc)
    unfolding rollback_history
    rollback_history-IsHistory = elim (Bool-cases (doc.published_json == "")) [
      | inl e ↦ rw e w.history
      | inr e ↦ elim (Bool-cases (ltb 0 (version_or_zero doc.published_version))) [
        | inl v ↦ rw (e, v) (pushed-IsHistory doc.published_note e)
        | inr v ↦ rw (e, v) w.history
      ]
    ]

    pub offline_history-IsHistory :
        (doc.published_json == "") ≡ false → IsHistory (offline_history doc)
    unfolding offline_history
    offline_history-IsHistory e = pushed-IsHistory doc.published_note e

    pub without_version-IsHistory : (v : ℕ) → IsHistory (without_version v (read_history doc))
    without_version-IsHistory v = (
      omega (
        arith,
        length-select-le (λ (e : HistoryEntry). not (nat_eq e.version v)) (read_history doc),
        w.history.0,
      ),
      All-select IsEntry _ _ w.history.1,
    )

    pub split_last-IsHistory :
        (front : List HistoryEntry) (last : HistoryEntry)
        → split_last (read_history doc) ≡ some (front, last)
        → IsHistory front × IsEntry last
    split_last-IsHistory front last e =
        let h : read_history doc ≡ front ++ (last ∷ []) =
          rw e at (split_last-Splits (read_history doc)) in
        let all : All IsEntry (front ++ (last ∷ [])) = rw h at w.history.1 in
        (
          (
            omega (arith, ap length h, length-append front (last ∷ []), w.history.0),
            All-append_left IsEntry front _ all,
          ),
          (All-append_right IsEntry front _ all).0,
        )

    pub rollback_target-nonempty :
        (v : ℕ) (t : HistoryEntry) → rollback_target v doc ≡ some t → (t.dsl_json == "") ≡ false
    unfolding rollback_target
    rollback_target-nonempty v t e = ground arith

  -- The text that a history is marshalled to reads back as the history.
  pub parse-marshal :
      (h : List HistoryEntry) (s : String) → b.marshal_history h ≡ some s → parse_history s ≡ h
  unfolding parse_history
  parse-marshal h s e = let (reads, solid) = b.history_round_trip h s e in rw (solid, reads)

  pub parse-empty : parse_history "[]" ≡ []
  unfolding parse_history trim_space
  parse-empty = rw b.empty_history
