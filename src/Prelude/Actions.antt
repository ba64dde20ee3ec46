-- ===== src/Prelude/Actions.antt =====
-- Go code that calls the outside, returns errors and may panic.
use mathlib.Core.Option.{Option, none, some}
use mathlib.Core.Path.{◌≡◌, refl}
use mathlib.Core.Logic.{◌⊎◌, inl, inr}
use mathlib.Core.List.{List, [], ◌∷◌}

-- `crashed` is a panic: a nil pointer, or an index out of range.
pub data Answer (E A : Type 0) : Type 0 where
  ok : A → Answer E A
  failed : E → Answer E A
  crashed : Answer E A

-- Code on a state that answers, fails or panics.
abbrev pub Action : Type 0 → Type 0 → Type 0 → Type 0
Action W E A = W → Answer E A × W

infixl 5 ◌>>=◌ ◌>>◌
unfoldable pub ◌>>=◌ : {W E A B : Type 0} → Action W E A → (A → Action W E B) → Action W E B
◌>>=◌ m f w = elim (m w).0 [
  | ok a ↦ f a (m w).1
  | failed e ↦ (failed e, (m w).1)
  | crashed ↦ (crashed, (m w).1)
]

abbrev pub ◌>>◌ : {W E B : Type 0} → Action W E (Unit {0}) → Action W E B → Action W E B
m >> k = m >>= λ _. k

module _ {W E A : Type 0} where
  unfoldable pub pure : A → Action W E A
  pure a w = (ok a, w)

  unfoldable pub fail : E → Action W E A
  fail e w = (failed e, w)

  unfoldable pub crash : Action W E A
  crash w = (crashed, w)

  unfoldable pub call : (W → A × W) → Action W E A
  call f w = (ok (f w).0, (f w).1)

  -- The error of a method is looked at, not passed on.
  unfoldable pub attempt : Action W E A → Action W E (Option A)
  attempt m w =
      (elim (m w).0 [ ok a ↦ ok (some a) | failed e ↦ ok none | crashed ↦ crashed ], (m w).1)

unfoldable pub rest : {W E : Type 0} → (W → W) → Action W E (Unit {0})
rest f w = (ok tt, f w)

-- The error itself is looked at; `none` is no error.
unfoldable pub error_of : {W E A : Type 0} → Action W E A → Action W E (Option E)
error_of m w =
    (elim (m w).0 [ ok a ↦ ok none | failed e ↦ ok (some e) | crashed ↦ crashed ], (m w).1)

-- An action for every element, up to the first that fails.
unfoldable pub for_each :
    {W E A : Type 0} → (A → Action W E (Unit {0})) → List A → Action W E (Unit {0})
unfolding ◌>>=◌ pure
for_each f [] = pure tt
for_each f (x ∷ xs) = f x >> for_each f xs

pub Answer-cases :
    {E A : Type 0} (r : Answer E A)
    → ((a : A) × (r ≡ ok a)) ⊎ ((e : E) × (r ≡ failed e)) ⊎ (r ≡ crashed)
Answer-cases (ok a) = inl (a, refl)
Answer-cases (failed e) = inr (inl (e, refl))
Answer-cases crashed = inr (inr refl)

pub not_ok : {E A : Type 0} {a : A} (e : E) → ¬ (failed e ≡ ok a)
not_ok e h = cc

pub crash_not_ok : {E A : Type 0} {a : A} → ¬ (◌≡◌ {A = Answer E A} crashed (ok a))
crash_not_ok h = cc

-- A successful method: its two steps.
pub >>=-ok :
    {W E A B : Type 0} (m : Action W E A) (f : A → Action W E B) (w : W) (b : B)
    → ((m >>= f) w).0 ≡ ok b
    → (a : A) × ((m w).0 ≡ ok a) × ((f a (m w).1).0 ≡ ok b)
unfolding ◌>>=◌
>>=-ok m f w b h = elim (Answer-cases (m w).0) [
  | inl (a, e) ↦ (a, e, rw (e, ◌>>=◌) at h)
  | inr (inl (x, e)) ↦ absurd (not_ok x (rw (e, ◌>>=◌) at h))
  | inr (inr e) ↦ absurd (crash_not_ok (rw (e, ◌>>=◌) at h))
]

-- A step that succeeds.
pub bind_ok :
    {W E A B : Type 0} (m : Action W E A) (f : A → Action W E B) (w : W) (a : A)
    → (m w).0 ≡ ok a
    → (m >>= f) w ≡ f a (m w).1
unfolding ◌>>=◌
bind_ok m f w a h = rw (h, ◌>>=◌) refl
