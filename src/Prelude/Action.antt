-- ===== src/Prelude/Action.antt =====
-- Handlers as actions: each takes the state and returns it with a result or the error that it
-- reports. What a handler wrote before it failed stays written.
use mathlib.Core.Path.{◌≡◌, refl}
use mathlib.Core.Logic.{◌⊎◌, inl, inr}
use mathlib.Core.Bool.{Bool, true, false}
use mathlib.Core.Option.{Option, none, some}
use native.Mathlib.Omega.{arith}

pub data Outcome (E A : Type 0) : Type 0 where
  returns : A → Outcome E A
  fails : E → Outcome E A

abbrev pub Action : Type 0 → Type 0 → Type 0 → Type 0
Action S E A = S → S × Outcome E A

module _ {S E : Type 0} where
  abbrev pub proceed : {A B : Type 0} → S → Outcome E A → (A → Action S E B) → S × Outcome E B
  proceed s (returns a) f = f a s
  proceed s (fails e) f = (s, fails e)

  infixl 5 ◌>>=◌ ◌>>◌
  unfoldable pub ◌>>=◌ : {A B : Type 0} → Action S E A → (A → Action S E B) → Action S E B
  ◌>>=◌ m f s = proceed (m s).0 (m s).1 f

  abbrev pub ◌>>◌ : {B : Type 0} → Action S E (Unit {0}) → Action S E B → Action S E B
  ◌>>◌ m n = m >>= λ _. n

  abbrev pub pure : {A : Type 0} → A → Action S E A
  pure a s = (s, returns a)

  abbrev pub refuse : {A : Type 0} → E → Action S E A
  refuse e s = (s, fails e)

  -- `if test { write the error; return }`
  unfoldable pub refuse_if : Bool → E → Action S E (Unit {0})
  refuse_if true e s = (s, fails e)
  refuse_if false e s = (s, returns tt)

  -- The value, or the error where there is none.
  unfoldable pub require : {A : Type 0} → Option A → E → Action S E A
  require none e s = (s, fails e)
  require (some a) e s = (s, returns a)

  proceed-returns :
      {A B : Type 0} (s : S) (r : Outcome E A) (f : A → Action S E B) {s' : S} {c : B}
      → proceed s r f ≡ (s', returns c)
      → (a : A) × (r ≡ returns a) × (f a s ≡ (s', returns c))
  proceed-returns s (returns a) f h = (a, refl, h)
  proceed-returns s (fails e) f h = cc

  -- A block that returns: its first action returned, and so did the rest.
  pub >>=-returns :
      {A B : Type 0} (m : Action S E A) (f : A → Action S E B) (s : S) {s' : S} {c : B}
      → (m >>= f) s ≡ (s', returns c)
      → (s₁ : S) × (a : A) × (m s ≡ (s₁, returns a)) × (f a s₁ ≡ (s', returns c))
  unfolding ◌>>=◌
  >>=-returns m f s h =
      let (a, r, rest) = proceed-returns (m s).0 (m s).1 f h in ((m s).0, a, ground arith, rest)

  proceed-fails :
      {A B : Type 0} (s : S) (r : Outcome E A) (f : A → Action S E B) {s' : S} {e : E}
      → proceed s r f ≡ (s', fails e)
      → ((r ≡ fails e) × (s ≡ s')) ⊎ ((a : A) × (r ≡ returns a) × (f a s ≡ (s', fails e)))
  proceed-fails s (returns a) f h = inr (a, refl, h)
  proceed-fails s (fails x) f h = inl (ground arith, ground arith)

  -- A block that fails: its first action failed, or returned and the rest failed.
  pub >>=-fails :
      {A B : Type 0} (m : Action S E A) (f : A → Action S E B) (s : S) {s' : S} {e : E}
      → (m >>= f) s ≡ (s', fails e)
      → (((m s).1 ≡ fails e) × ((m s).0 ≡ s'))
        ⊎ ((a : A) × ((m s).1 ≡ returns a) × (f a (m s).0 ≡ (s', fails e)))
  unfolding ◌>>=◌
  >>=-fails m f s h = proceed-fails (m s).0 (m s).1 f h

  pub refuse_if-returns :
      {B : Type 0} (t : Bool) (e : E) (m : Action S E B) (s : S) {s' : S} {c : B}
      → (refuse_if t e >>= λ _. m) s ≡ (s', returns c)
      → (t ≡ false) × (m s ≡ (s', returns c))
  unfolding ◌>>=◌ refuse_if
  refuse_if-returns true e m s h = cc
  refuse_if-returns false e m s h = (refl, h)

  pub require-returns :
      {A B : Type 0} (o : Option A) (e : E) (f : A → Action S E B) (s : S) {s' : S} {c : B}
      → (require o e >>= f) s ≡ (s', returns c)
      → (a : A) × (o ≡ some a) × (f a s ≡ (s', returns c))
  unfolding ◌>>=◌ require
  require-returns none e f s h = cc
  require-returns (some a) e f s h = (a, refl, h)

module _ {S E : Type 0} (P : S → Type 0) where
  -- The action leaves the property as it was, whether it returns or fails.
  abbrev pub Preserves : {A : Type 0} → Action S E A → Type 0
  Preserves m = (s : S) → P s → P (m s).0

  proceed-Preserves :
      {A B : Type 0} (s : S) (r : Outcome E A) (f : A → Action S E B)
      → P s
      → ((a : A) → r ≡ returns a → P (f a s).0)
      → P (proceed s r f).0
  proceed-Preserves s (returns a) f p h = h a refl
  proceed-Preserves s (fails e) f p h = p

  -- At one state, where the rest may use what the action did there.
  pub bind-Preserves :
      {A B : Type 0} (m : Action S E A) (f : A → Action S E B) (s : S)
      → P (m s).0
      → ((a : A) → (m s).1 ≡ returns a → P (f a (m s).0).0)
      → P ((m >>= f) s).0
  unfolding ◌>>=◌
  bind-Preserves m f s p h = proceed-Preserves (m s).0 (m s).1 f p h

  -- The rest of a block may use what its first action established.
  pub >>=-Preserves :
      {A B : Type 0} (m : Action S E A) (f : A → Action S E B)
      → Preserves m
      → ((s : S) (a : A) → P (m s).0 → (m s).1 ≡ returns a → P (f a (m s).0).0)
      → Preserves (m >>= f)
  unfolding ◌>>=◌
  >>=-Preserves m f k h s p = proceed-Preserves (m s).0 (m s).1 f (k s p) (λ a r. h s a (k s p) r)

  pub then-Preserves :
      {A B : Type 0} (m : Action S E A) (f : A → Action S E B)
      → Preserves m
      → ((a : A) → Preserves (f a))
      → Preserves (m >>= f)
  then-Preserves m f k h = >>=-Preserves m f k (λ s a p r. h a (m s).0 p)

  pub refuse_if-Preserves : (t : Bool) (e : E) → Preserves (refuse_if t e)
  unfolding refuse_if
  refuse_if-Preserves true e s p = p
  refuse_if-Preserves false e s p = p

  pub require-Preserves : {A : Type 0} (o : Option A) (e : E) → Preserves (require o e)
  unfolding require
  require-Preserves none e s p = p
  require-Preserves (some a) e s p = p

  pub with_required-Preserves :
      {A B : Type 0} (o : Option A) (e : E) (f : A → Action S E B) (s : S)
      → P s
      → ((a : A) → o ≡ some a → P (f a s).0)
      → P ((require o e >>= f) s).0
  unfolding ◌>>=◌ require
  with_required-Preserves none e f s p h = p
  with_required-Preserves (some a) e f s p h = h a refl
