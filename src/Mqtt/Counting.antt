-- ===== src/Mqtt/Counting.antt =====
-- The counts of open flows against the sessions' sets.
use flowgo_server.Prelude.{
  ℕ, ◌+◌, ◌-◌, ◌≤◌, String, ◌≡◌, refl, ◌==◌, eq_iff, Bool, false, true, not, List, [], ◌∷◌,
  if◌then◌else◌, select, contains, GoMap, lookup, delete, put, lookup-delete, lookup-put, Distinct,
  put-Distinct, delete-Distinct, delete-absent, Bool-cases, inl, inr, arith,
}
use flowgo_server.Mqtt.Sessions.{
  Editors, no_editors, count_of, opened_by, unique_from, unique_nonempty, added_flows,
  removed_flows, decrement, decrements, increment, increments, set_open, drop_session,
}

-- How often an id is in a list.
unfoldable pub occurrences : String → List String → ℕ
occurrences id [] = 0
occurrences id (x ∷ xs) = if x == id then 1 + occurrences id xs else occurrences id xs

-- The number of sessions that have the flow open.
unfoldable pub sessions_with : String → GoMap (List String) → ℕ
sessions_with id [] = 0
sessions_with id ((k, ids) ∷ m) = occurrences id ids + sessions_with id m

-- No id twice.
abbrev pub IsUnrepeated : List String → Type 0
IsUnrepeated ids = (id : String) → occurrences id ids ≤ 1

pub occurrences-contains :
    (id : String) (xs : List String) → contains xs id ≡ false → occurrences id xs ≡ 0
unfolding occurrences
occurrences-contains id [] h = refl
occurrences-contains id (x ∷ xs) h = ground (arith, occurrences-contains id xs)

occurrences_contained :
    (id : String) (xs : List String) → contains xs id ≡ true → 1 ≤ occurrences id xs
unfolding occurrences
occurrences_contained id [] h = cc
occurrences_contained id (x ∷ xs) h = ground (arith, occurrences_contained id xs)

occurrences-select :
    (keep : String → Bool) (id : String) (xs : List String)
    → occurrences id (select keep xs) ≡ (if keep id then occurrences id xs else 0)
unfolding occurrences
occurrences-select keep id [] = ground arith
occurrences-select keep id (x ∷ xs) = ground (arith, occurrences-select keep id xs, eq_iff x id)

count_of-decrement :
    (f id : String) (counts : GoMap ℕ)
    → count_of f (decrement id counts)
      ≡ (if id == f then count_of f counts - 1 else count_of f counts)
unfolding count_of decrement
count_of-decrement f id counts =
    ground (
      arith,
      lookup-delete id f counts,
      lookup-put id f (count_of id counts - 1) counts,
      eq_iff id f,
    )

count_of-increment :
    (f id : String) (counts : GoMap ℕ)
    → count_of f (increment id counts)
      ≡ (if id == f then count_of f counts + 1 else count_of f counts)
unfolding count_of increment
count_of-increment f id counts =
    ground (arith, lookup-put id f (count_of id counts + 1) counts, eq_iff id f)

pub count_of-decrements :
    (f : String) (ids : List String) (counts : GoMap ℕ)
    → count_of f (decrements ids counts) ≡ count_of f counts - occurrences f ids
unfolding decrements occurrences
count_of-decrements f [] counts = omega arith
count_of-decrements f (id ∷ ids) counts =
    ground (arith, count_of-decrements f ids (decrement id counts), count_of-decrement f id counts)

pub count_of-increments :
    (f : String) (ids : List String) (counts : GoMap ℕ)
    → count_of f (increments ids counts) ≡ count_of f counts + occurrences f ids
unfolding increments occurrences
count_of-increments f [] counts = omega arith
count_of-increments f (id ∷ ids) counts =
    ground (arith, count_of-increments f ids (increment id counts), count_of-increment f id counts)

unique_from-seen :
    (seen ids : List String) (f : String)
    → contains seen f ≡ true
    → occurrences f (unique_from seen ids) ≡ 0
unfolding occurrences unique_from
unique_from-seen seen [] f h = refl
unique_from-seen seen (id ∷ ids) f h =
    ground (arith, unique_from-seen seen ids f h, unique_from-seen (id ∷ seen) ids f, eq_iff id f)

unique_from-IsUnrepeated : (seen ids : List String) → IsUnrepeated (unique_from seen ids)
unfolding occurrences unique_from
unique_from-IsUnrepeated seen [] f = ground arith
unique_from-IsUnrepeated seen (id ∷ ids) f = ground (
  arith,
  unique_from-IsUnrepeated seen ids f,
  unique_from-IsUnrepeated (id ∷ seen) ids f,
  unique_from-seen (id ∷ seen) ids f,
  eq_iff id f,
)

pub unique_nonempty-IsUnrepeated : (ids : List String) → IsUnrepeated (unique_nonempty ids)
unfolding unique_nonempty
unique_nonempty-IsUnrepeated ids = unique_from-IsUnrepeated [] ids

sessions_with-delete :
    (f k : String) (m : GoMap (List String))
    → Distinct m
    → sessions_with f (delete k m) + occurrences f (opened_by k m) ≡ sessions_with f m
unfolding sessions_with opened_by delete lookup occurrences
sessions_with-delete f k [] d = omega arith
sessions_with-delete f k ((j, ids) ∷ m) (p, d) = elim (Bool-cases (j == k)) [
  | inl e ↦
      let same : j ≡ k = (eq_iff j k).0 e in
      rw (e, delete-absent k m (rw same at p), lookup) (omega arith)
  | inr e ↦ rw (e, lookup) (omega (arith, sessions_with-delete f k m d))
]

-- The tables of the editors agree: each count is the number of sessions with the flow.
pub record IsCounted (e : Editors) : Type 0 where
  pub distinct : Distinct e.sessions
  pub sets : (k : String) → IsUnrepeated (opened_by k e.sessions)
  pub counted : (f : String) → count_of f e.open_count ≡ sessions_with f e.sessions

pub no_editors-IsCounted : IsCounted no_editors
unfolding opened_by lookup occurrences count_of sessions_with
no_editors-IsCounted = record { distinct = tt; sets = λ k id. omega arith; counted = λ f. refl }

opened_by-put :
    (k j : String) (ids : List String) (m : GoMap (List String))
    → IsUnrepeated ids
    → ((k : String) → IsUnrepeated (opened_by k m))
    → IsUnrepeated (opened_by j (put k ids m))
unfolding opened_by
opened_by-put k j ids m s h id = ground (arith, lookup-put k j ids m, s id, h j id)

opened_by-delete :
    (k j : String) (m : GoMap (List String))
    → ((k : String) → IsUnrepeated (opened_by k m))
    → IsUnrepeated (opened_by j (delete k m))
unfolding opened_by occurrences
opened_by-delete k j m h id = ground (arith, lookup-delete k j m, h j id)

count_of-set_open :
    (f : String) (old wanted : List String) (counts : GoMap ℕ)
    → IsUnrepeated old
    → IsUnrepeated wanted
    → occurrences f old ≤ count_of f counts
    → count_of f
        (increments (added_flows old wanted) (decrements (removed_flows old wanted) counts))
      ≡ count_of f counts - occurrences f old + occurrences f wanted
unfolding added_flows removed_flows
count_of-set_open f old wanted counts so sw le = ground (
  arith,
  so f,
  sw f,
  le,
  count_of-increments f (added_flows old wanted) (decrements (removed_flows old wanted) counts),
  count_of-decrements f (removed_flows old wanted) counts,
  occurrences-select (λ id. not (contains old id)) f wanted,
  occurrences-select (λ id. not (contains wanted id)) f old,
  occurrences-contains f old,
  occurrences-contains f wanted,
  occurrences_contained f old,
  occurrences_contained f wanted,
)

pub set_open-IsCounted :
    (k : String) (wanted : List String) (e : Editors)
    → IsUnrepeated wanted
    → IsCounted e
    → IsCounted (set_open k wanted e)
unfolding set_open sessions_with put
set_open-IsCounted k wanted e sw r = record {
  distinct = put-Distinct k wanted e.sessions r.distinct;
  sets = λ j. opened_by-put k j wanted e.sessions sw r.sets;
  counted = λ f.
      let left = sessions_with-delete f k e.sessions r.distinct in
      omega (
        arith,
        left,
        r.counted f,
        count_of-set_open f (opened_by k e.sessions) wanted e.open_count (r.sets k) sw
            (omega (arith, left, r.counted f)),
      );
}

pub drop_session-IsCounted : (k : String) (e : Editors) → IsCounted e → IsCounted (drop_session k e)
unfolding drop_session
drop_session-IsCounted k e r = record {
  distinct = delete-Distinct k e.sessions r.distinct;
  sets = λ j. opened_by-delete k j e.sessions r.sets;
  counted = λ f. omega (
    arith,
    sessions_with-delete f k e.sessions r.distinct,
    r.counted f,
    count_of-decrements f (opened_by k e.sessions) e.open_count,
  );
}
