-- ===== src/Prelude/Tests.antt =====
-- Boolean tests on the native numbers, the conditional, and splits on computed values.
use Prim.Native.Nat.{ℕ, compare, Ordering}
use Prim.Native.String.{String}
use mathlib.Core.Path.{◌≡◌, refl}
use mathlib.Core.Logic.{◌⊎◌, inl, inr, ite, if_pos, if_neg, ◌≢◌}
use mathlib.Core.Bool.{Bool, true, false}
use mathlib.Core.Option.{Option, none, some}
use native.Mathlib.Omega.{arith}
use text.Mathlib.Text.{◌==◌ as str_eq}
use text.Mathlib.TextEquality.{eq_iff}

-- These compute to `compare`, which `ground` and `grind` read with no lemma listed.
abbrev pub ltb : ℕ → ℕ → Bool
ltb a b = elim (compare a b) [ Ordering.lt ↦ true | _ ↦ false ]

abbrev pub leb : ℕ → ℕ → Bool
leb a b = elim (compare a b) [ Ordering.gt ↦ false | _ ↦ true ]

infix 50 ◌==◌
abbrev pub ◌==◌ : ℕ → ℕ → Bool
a == b = elim (compare a b) [ Ordering.eq ↦ true | _ ↦ false ]

infix 1 if◌then◌else◌
abbrev pub if◌then◌else◌ {ℓ} : {A : Type ℓ} → Bool → A → A → A
if true then x else y = x
if false then x else y = y

-- To split on a computed value and keep the equation.
pub Bool-cases : (b : Bool) → (b ≡ true) ⊎ (b ≡ false)
Bool-cases true = inl refl
Bool-cases false = inr refl

pub Option-cases {ℓ} : {A : Type ℓ} (o : Option A) → (o ≡ none) ⊎ ((a : A) × (o ≡ some a))
Option-cases none = inl refl
Option-cases (some a) = inr (a, refl)

dec_by : (s t : String) (b : Bool) → str_eq s t ≡ b → Dec (s ≡ t)
dec_by s t true e = yes ((eq_iff s t).0 e)
dec_by s t false e = no (λ p. ground (arith, (eq_iff s t).1 p))

-- Go's `==` on strings.
unfoldable pub string_discrete : Discrete String
unfolding dec_by
string_discrete s t = dec_by s t (str_eq s t) refl

-- The same, as a test.
abbrev pub same : String → String → Bool
same s t = ite (string_discrete s t) true false

pub same-ne : (s t : String) → s ≢ t → same s t ≡ false
same-ne s t ne = if_neg (string_discrete s t) ne true false

pub same_refl : (s : String) → same s s ≡ true
same_refl s = if_pos (string_discrete s s) refl true false

ite_yes : {P : Type 0} (d : Dec P) → ite d true false ≡ true → P
ite_yes (yes p) h = p
ite_yes (no n) h = absurd (ground arith)

pub same→eq : (s t : String) → same s t ≡ true → s ≡ t
same→eq s t h = ite_yes (string_discrete s t) h
