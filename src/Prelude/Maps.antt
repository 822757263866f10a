-- ===== src/Prelude/Maps.antt =====
-- Go's `map[string]V` as an association list. No result of the models depends on the order of a
-- map's entries unless its own comment says so.
use Prim.Native.String.{String}
use mathlib.Core.Path.{◌≡◌, refl, subst, ap}
use Prim.Native.Nat.{suc}
use mathlib.Core.Bool.{Bool, true}
use mathlib.Core.Logic.{◌⊎◌, inl, inr}
use mathlib.Core.Option.{Option, none, some}
use mathlib.Core.List.{List, [], ◌∷◌}
use native.Mathlib.Omega.{arith}
use text.Mathlib.Text.{◌==◌}
use text.Mathlib.TextEquality.{eq_iff}
use flowgo_server.Prelude.Tests.{if◌then◌else◌, Bool-cases}
use flowgo_server.Prelude.Lists.{length}

abbrev pub GoMap {ℓ} : Type ℓ → Type ℓ
GoMap V = List (String × V)

module _ {ℓ} {V : Type ℓ} where
  -- m[k], with the `ok` result
  unfoldable pub lookup : String → GoMap V → Option V
  lookup k [] = none
  lookup k ((j, v) ∷ m) = if j == k then some v else lookup k m

  -- delete(m, k)
  unfoldable pub delete : String → GoMap V → GoMap V
  delete k [] = []
  delete k ((j, v) ∷ m) = if j == k then delete k m else (j, v) ∷ delete k m

  -- m[k] = v
  unfoldable pub put : String → V → GoMap V → GoMap V
  put k v m = (k, v) ∷ delete k m

  -- for k, v := range m { if test(k, v) { delete(m, k) } }, as what is left
  unfoldable pub retain : (V → Bool) → GoMap V → GoMap V
  retain keep [] = []
  retain keep ((j, v) ∷ m) = if keep v then (j, v) ∷ retain keep m else retain keep m

  pub lookup-delete :
      (k j : String) (m : GoMap V) → lookup j (delete k m) ≡ (if k == j then none else lookup j m)
  unfolding lookup delete
  lookup-delete k j [] = ground arith
  lookup-delete k j ((i, v) ∷ m) =
      ground (arith, lookup-delete k j m, eq_iff i k, eq_iff i j, eq_iff k j)

  pub lookup-put :
      (k j : String) (v : V) (m : GoMap V)
      → lookup j (put k v m) ≡ (if k == j then some v else lookup j m)
  unfolding lookup put
  lookup-put k j v m = ground (arith, lookup-delete k j m)

pub ruleset map_laws = (lookup-delete, lookup-put)

-- Being an entry of a map.
abbrev pub HasEntry : {V : Type 0} → String → V → GoMap V → Type 0
HasEntry k v [] = ⊥
HasEntry k v (e ∷ m) = (e ≡ (k, v)) ⊎ HasEntry k v m

module _ {V : Type 0} where
  pub lookup-HasEntry : (k : String) (v : V) (m : GoMap V) → lookup k m ≡ some v → HasEntry k v m
  unfolding lookup
  lookup-HasEntry k v [] h = cc
  lookup-HasEntry k v ((j, w) ∷ m) h = elim (Bool-cases (j == k)) [
    | inl e ↦ let same : j ≡ k = (eq_iff j k).0 e in let val : w ≡ v = cc (rw e at h) in inl (cc)
    | inr e ↦ inr (lookup-HasEntry k v m (rw e at h))
  ]

  kept_first :
      (keep : V → Bool) (k : String) (v : V) (j : String) (w : V) (m : GoMap V)
      → keep w ≡ true
      → HasEntry k v (retain keep ((j, w) ∷ m))
      → ◌≡◌ {A = String × V} (j, w) (k, v) ⊎ HasEntry k v (retain keep m)
  unfolding retain
  kept_first keep k v j w m e h = rw e at h

  pub retain-HasEntry :
      (keep : V → Bool) (k : String) (v : V) (m : GoMap V)
      → HasEntry k v (retain keep m)
      → HasEntry k v m × (keep v ≡ true)
  unfolding retain
  retain-HasEntry keep k v [] h = absurd h
  retain-HasEntry keep k v ((j, w) ∷ m) h = elim (Bool-cases (keep w)) [
    | inl e ↦ elim (kept_first keep k v j w m e h) [
      | inl p ↦ (inl p, subst (λ (x : String × V). keep x.1 ≡ true) p e)
      | inr q ↦ let (a, c) = retain-HasEntry keep k v m q in (inr a, c)
    ]
    | inr e ↦ let (a, c) = retain-HasEntry keep k v m (rw e at h) in (inr a, c)
  ]

  pub lookup-retain-none :
      (keep : V → Bool) (k : String) (m : GoMap V)
      → lookup k m ≡ none
      → lookup k (retain keep m) ≡ none
  unfolding lookup retain
  lookup-retain-none keep k [] h = refl
  lookup-retain-none keep k ((j, w) ∷ m) h = ground (arith, lookup-retain-none keep k m)

  -- Every value of the map has the property.
  abbrev pub Values : (V → Type 0) → GoMap V → Type 0
  Values P [] = Unit
  Values P (e ∷ m) = P e.1 × Values P m

  pub Values-at :
      (P : V → Type 0) (k : String) (v : V) (m : GoMap V) → Values P m → HasEntry k v m → P v
  Values-at P k v [] h e = absurd e
  Values-at P k v ((j, w) ∷ m) (p, h) (inl e) = subst (λ (x : String × V). P x.1) e p
  Values-at P k v ((j, w) ∷ m) (p, h) (inr e) = Values-at P k v m h e

  pub Values-retain :
      (P : V → Type 0) (keep : V → Bool) (m : GoMap V) → Values P m → Values P (retain keep m)
  unfolding retain
  Values-retain P keep [] h = tt
  Values-retain P keep ((j, w) ∷ m) (p, h) = ground (arith, Values-retain P keep m h)

  pub Values-delete :
      (P : V → Type 0) (k : String) (m : GoMap V) → Values P m → Values P (delete k m)
  unfolding delete
  Values-delete P k [] h = tt
  Values-delete P k ((j, w) ∷ m) (p, h) = ground (arith, Values-delete P k m h)

  -- No key twice.
  abbrev pub Distinct : GoMap V → Type 0
  Distinct [] = Unit
  Distinct (e ∷ m) = (lookup e.0 m ≡ none) × Distinct m

  pub delete-Distinct : (k : String) (m : GoMap V) → Distinct m → Distinct (delete k m)
  unfolding delete
  delete-Distinct k [] h = tt
  delete-Distinct k ((j, v) ∷ m) (p, h) = elim (Bool-cases (j == k)) [
    | inl e ↦ rw e (delete-Distinct k m h)
    | inr e ↦ rw e (ground (arith, lookup-delete k j m), delete-Distinct k m h)
  ]

  pub put-Distinct : (k : String) (v : V) (m : GoMap V) → Distinct m → Distinct (put k v m)
  unfolding put
  put-Distinct k v m h = (ground (arith, lookup-delete k k m, eq_iff k k), delete-Distinct k m h)

  pub delete-absent : (k : String) (m : GoMap V) → lookup k m ≡ none → delete k m ≡ m
  unfolding delete lookup
  delete-absent k [] h = refl
  delete-absent k ((j, v) ∷ m) h = elim (Bool-cases (j == k)) [
    | inl e ↦ cc (rw e at h)
    | inr e ↦ rw e (ap (λ l. (j, v) ∷ l) (delete-absent k m (rw e at h)))
  ]

  -- A key that is there is there once.
  pub length-delete :
      (k : String) (v : V) (m : GoMap V)
      → Distinct m
      → lookup k m ≡ some v
      → suc (length (delete k m)) ≡ length m
  unfolding delete lookup
  length-delete k v [] d h = cc
  length-delete k v ((j, w) ∷ m) (p, d) h = elim (Bool-cases (j == k)) [
    | inl e ↦
        let same : j ≡ k = (eq_iff j k).0 e in
        rw e (ap (λ l. suc (length l)) (delete-absent k m (rw same at p)))
    | inr e ↦ rw e (ap (λ n. suc n) (length-delete k v m d (rw e at h)))
  ]
