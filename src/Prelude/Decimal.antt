-- ===== src/Prelude/Decimal.antt =====
-- Numbers as `fmt` prints them.
use Prim.Native.Char.{Char, char, code}
use Prim.Native.String
use Prim.Native.String.{String}
use Prim.Native.Nat.{ℕ, zero, suc, ◌+◌, ◌*◌, ◌/◌, ◌%◌, ◌<◌}
use mathlib.Core.Path.{◌≡◌, refl, ap, sym, ◌∙◌}
use mathlib.Core.Logic.{inl, inr}
use mathlib.Core.List.{List, [], ◌∷◌}
use mathlib.Core.Option.{some}
use native.Mathlib.Omega.{arith}
use amazon_vpc_cni_k8s.Prelude.Tests.{ltb, if◌then◌else◌, Bool-cases}
use amazon_vpc_cni_k8s.Prelude.Text.{codes, digits_onto}

abbrev pub nth : ℕ → List Char → Char
nth n [] = char b'0' tt
nth zero (c ∷ cs) = c
nth (suc n) (c ∷ cs) = nth n cs

-- The digits up to that of 15.
unfoldable pub digit : ℕ → Char
digit d = nth d (
    char b'0' tt
    ∷ char b'1' tt
    ∷ char b'2' tt
    ∷ char b'3' tt
    ∷ char b'4' tt
    ∷ char b'5' tt
    ∷ char b'6' tt
    ∷ char b'7' tt
    ∷ char b'8' tt
    ∷ char b'9' tt
    ∷ char b'a' tt
    ∷ char b'b' tt
    ∷ char b'c' tt
    ∷ char b'd' tt
    ∷ char b'e' tt
    ∷ char b'f' tt
    ∷ [])

-- The digits of a number before a text.
unfoldable pub digits_before : ℕ → ℕ → ℕ → String → String
unfolding digit
digits_before base zero n s = s
digits_before base (suc fuel) n s =
    let rest = digits_before base fuel (n / base) (String.◌∷◌ (digit (n % base)) s) in
    if ltb n base then String.◌∷◌ (digit n) s else rest

-- `%d` of a number that is not negative.
unfoldable pub decimal : ℕ → String
unfolding digits_before
decimal n = digits_before 10 (suc n) n ""

-- `%#x`
unfoldable pub hexadecimal : ℕ → String
unfolding digits_before
hexadecimal n = String.◌++◌ "0x" (digits_before 16 (suc n) n "")

code-digit : (d : ℕ) → d < 10 → code (digit d) ≡ d + 48
unfolding digit
code-digit zero lt = refl
code-digit (suc zero) lt = refl
code-digit (suc (suc zero)) lt = refl
code-digit (suc (suc (suc zero))) lt = refl
code-digit (suc (suc (suc (suc zero)))) lt = refl
code-digit (suc (suc (suc (suc (suc zero))))) lt = refl
code-digit (suc (suc (suc (suc (suc (suc zero)))))) lt = refl
code-digit (suc (suc (suc (suc (suc (suc (suc zero))))))) lt = refl
code-digit (suc (suc (suc (suc (suc (suc (suc (suc zero)))))))) lt = refl
code-digit (suc (suc (suc (suc (suc (suc (suc (suc (suc zero))))))))) lt = refl
code-digit (suc (suc (suc (suc (suc (suc (suc (suc (suc (suc d)))))))))) lt = absurd (omega arith)

read_digit :
    (d m : ℕ) (s : String)
    → d < 10
    → digits_onto m (codes (String.◌∷◌ (digit d) s)) ≡ digits_onto (m * 10 + d) (codes s)
unfolding digits_onto
read_digit d m s lt = ground (arith, code-digit d lt)

digits_onto-digits_before :
    (fuel n : ℕ) (s : String)
    → n < fuel
    → digits_onto 0 (codes (digits_before 10 fuel n s)) ≡ digits_onto n (codes s)
unfolding digits_before
digits_onto-digits_before zero n s lt = absurd (omega arith)
digits_onto-digits_before (suc fuel) n s lt = elim (Bool-cases (ltb n 10)) [
  | inl one ↦
      rw (one, digits_before)
        (read_digit n 0 s (ground arith) ∙ ap (λ k. digits_onto k (codes s)) (omega arith))
  | inr more ↦
      rw (more, digits_before)
        (digits_onto-digits_before fuel (n / 10) (String.◌∷◌ (digit (n % 10)) s) (ground arith)
          ∙ read_digit (n % 10) (n / 10) s (omega arith)
          ∙ ap (λ k. digits_onto k (codes s)) (omega arith))
]

some_value : {m n : ℕ} → some m ≡ some n → m ≡ n
some_value e = cc

-- Two numbers with the same digits are equal.
pub decimal-injective : (m n : ℕ) → decimal m ≡ decimal n → m ≡ n
unfolding decimal digits_onto
decimal-injective m n e = some_value (
    sym (digits_onto-digits_before (suc m) m "" (omega arith))
    ∙ ap (λ s. digits_onto 0 (codes s)) e
    ∙ digits_onto-digits_before (suc n) n "" (omega arith))
