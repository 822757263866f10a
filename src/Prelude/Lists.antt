-- ===== src/Prelude/Lists.antt =====
-- Lists measured by native numbers, and predicates on their items.
use Prim.Native.Nat.{ℕ, zero, suc, ◌+◌, ◌-◌, ◌≤◌}
use Prim.Native.String.{String}
use mathlib.Core.Path.{◌≡◌, refl, subst}
use mathlib.Core.Logic.{◌⊎◌, inl, inr}
use mathlib.Core.Bool.{Bool, true, false, not}
use mathlib.Core.List.{List, [], ◌∷◌, ◌++◌}
use native.Mathlib.Omega.{arith}
use text.Mathlib.Text.{◌==◌}
use text.Mathlib.TextEquality.{eq_iff}
use flowgo_server.Prelude.Tests.{if◌then◌else◌, Bool-cases, nat_eq}

module _ {ℓ} {A : Type ℓ} where
  abbrev pub length : List A → ℕ
  length [] = 0
  length (x ∷ xs) = suc (length xs)

  abbrev pub drop : ℕ → List A → List A
  drop zero xs = xs
  drop (suc n) [] = []
  drop (suc n) (x ∷ xs) = drop n xs

  -- The items that pass a Boolean test, as in a loop with `continue`.
  abbrev pub select : (A → Bool) → List A → List A
  select p [] = []
  select p (x ∷ xs) = if p x then x ∷ select p xs else select p xs

  pub length-append : (xs ys : List A) → length (xs ++ ys) ≡ length xs + length ys
  length-append [] ys = omega arith
  length-append (x ∷ xs) ys = omega (arith, length-append xs ys)

  pub length-drop : (n : ℕ) (xs : List A) → length (drop n xs) ≡ length xs - n
  length-drop zero xs = omega arith
  length-drop (suc n) [] = omega arith
  length-drop (suc n) (x ∷ xs) = omega (arith, length-drop n xs)

  pub length-select-le : (p : A → Bool) (xs : List A) → length (select p xs) ≤ length xs
  length-select-le p [] = omega arith
  length-select-le p (x ∷ xs) = ground (arith, length-select-le p xs)

module _ {ℓ κ} {A : Type ℓ} (P : A → Type κ) where
  -- Each item has the property.
  abbrev pub All : List A → Type κ
  All [] = Unit
  All (x ∷ xs) = P x × All xs

  pub All-append : (xs ys : List A) → All xs → All ys → All (xs ++ ys)
  All-append [] ys h k = k
  All-append (x ∷ xs) ys (p, h) k = (p, All-append xs ys h k)

  pub All-append_left : (xs ys : List A) → All (xs ++ ys) → All xs
  All-append_left [] ys h = tt
  All-append_left (x ∷ xs) ys (p, h) = (p, All-append_left xs ys h)

  pub All-append_right : (xs ys : List A) → All (xs ++ ys) → All ys
  All-append_right [] ys h = h
  All-append_right (x ∷ xs) ys (p, h) = All-append_right xs ys h

  pub All-select : (p : A → Bool) (xs : List A) → All xs → All (select p xs)
  All-select p [] h = tt
  All-select p (x ∷ xs) (q, h) = ground (arith, All-select p xs h)

  pub All-drop : (n : ℕ) (xs : List A) → All xs → All (drop n xs)
  All-drop zero xs h = h
  All-drop (suc n) [] h = tt
  All-drop (suc n) (x ∷ xs) (p, h) = All-drop n xs h

-- The loop `for _, u := range us { if u == s { return true } }; return false`.
abbrev pub contains : List String → String → Bool
contains [] s = false
contains (x ∷ xs) s = if x == s then true else contains xs s

-- Being an item of a list, by recursion.
abbrev pub In : {A : Type 0} → A → List A → Type 0
In a [] = ⊥
In a (x ∷ xs) = (x ≡ a) ⊎ In a xs

pub All-In : {A : Type 0} (P : A → Type 0) (a : A) (xs : List A) → All P xs → In a xs → P a
All-In P a [] h i = absurd i
All-In P a (x ∷ xs) (p, h) (inl e) = subst P e p
All-In P a (x ∷ xs) (p, h) (inr i) = All-In P a xs h i

pub contains→In : (xs : List String) (s : String) → contains xs s ≡ true → In s xs
contains→In [] s h = cc
contains→In (x ∷ xs) s h = elim (Bool-cases (x == s)) [
  | inl e ↦ inl ((eq_iff x s).0 e)
  | inr e ↦ inr (contains→In xs s (ground arith))
]

pub In→contains : (xs : List String) (s : String) → In s xs → contains xs s ≡ true
In→contains [] s h = absurd h
In→contains (x ∷ xs) s (inl e) = ground (arith, eq_iff x s)
In→contains (x ∷ xs) s (inr h) = ground (arith, In→contains xs s h)

pub In-append_left : {A : Type 0} (a : A) (xs ys : List A) → In a xs → In a (xs ++ ys)
In-append_left a [] ys h = absurd h
In-append_left a (x ∷ xs) ys (inl e) = inl e
In-append_left a (x ∷ xs) ys (inr h) = inr (In-append_left a xs ys h)

pub In-append_right : {A : Type 0} (a : A) (xs ys : List A) → In a ys → In a (xs ++ ys)
In-append_right a [] ys h = h
In-append_right a (x ∷ xs) ys h = inr (In-append_right a xs ys h)

pub In-append_cases : {A : Type 0} (a : A) (xs ys : List A) → In a (xs ++ ys) → In a xs ⊎ In a ys
In-append_cases a [] ys h = inr h
In-append_cases a (x ∷ xs) ys (inl e) = inl (inl e)
In-append_cases a (x ∷ xs) ys (inr h) = elim (In-append_cases a xs ys h) [
  | inl i ↦ inl (inr i)
  | inr i ↦ inr i
]

-- The numbers of a list but one.
pub In-select_ne :
    (n k : ℕ) (xs : List ℕ)
    → In n xs
    → nat_eq n k ≡ false
    → In n (select (λ j. not (nat_eq j k)) xs)
In-select_ne n k [] h ne = absurd h
In-select_ne n k (x ∷ xs) (inl e) ne = rw (e, ne) (inl refl)
In-select_ne n k (x ∷ xs) (inr h) ne = elim (Bool-cases (nat_eq x k)) [
  | inl q ↦ rw q (In-select_ne n k xs h ne)
  | inr q ↦ rw q (inr (In-select_ne n k xs h ne))
]

pub select_ne-In :
    (n k : ℕ) (xs : List ℕ)
    → In n (select (λ j. not (nat_eq j k)) xs)
    → In n xs × (nat_eq n k ≡ false)
select_ne-In n k [] h = absurd h
select_ne-In n k (x ∷ xs) h = elim (Bool-cases (nat_eq x k)) [
  | inl q ↦ let (i, ne) = select_ne-In n k xs (rw q at h) in (inr i, ne)
  | inr q ↦ elim (rw q at h) [
    | inl e ↦ (inl e, rw e at q)
    | inr i ↦ let (j, ne) = select_ne-In n k xs i in (inr j, ne)
  ]
]
