-- ===== src/Prelude/Text.antt =====
-- Go's `strings` and `strconv`, as far as the program uses them.
use Prim.Native.Char.{Char, code}
use Prim.Native.String.{String}
use Prim.Native.Nat.{ℕ, zero, suc, ◌+◌, ◌-◌, ◌*◌, ◌^◌}
use mathlib.Core.Bool.{Bool, true, false, ◌&&◌, ◌||◌}
use mathlib.Core.Option.{Option, none, some}
use mathlib.Core.List.{List, [], ◌∷◌}
use amazon_vpc_cni_k8s.Prelude.Tests.{ltb, leb, ◌==◌, if◌then◌else◌, same}
use amazon_vpc_cni_k8s.Prelude.Int.{ℤ, pos, negsuc}

-- The code points of a text.
abbrev pub codes : String → List ℕ
codes String.[] = []
codes (String.◌∷◌ c s) = code c ∷ codes s

-- `strings.HasPrefix`, the prefix first.
abbrev pub is_prefix : List ℕ → List ℕ → Bool
is_prefix [] ys = true
is_prefix (x ∷ xs) [] = false
is_prefix (x ∷ xs) (y ∷ ys) = x == y && is_prefix xs ys

-- `unicode.IsSpace`
unfoldable pub is_space : ℕ → Bool
is_space c =
    leb 9 c && leb c 13
    || c == 32
    || c == 0x85
    || c == 0xA0
    || c == 0x1680
    || leb 0x2000 c && leb c 0x200A
    || c == 0x2028
    || c == 0x2029
    || c == 0x202F
    || c == 0x205F
    || c == 0x3000

abbrev pub cons_head : Char → List String → List String
cons_head c [] = []
cons_head c (s ∷ rest) = String.◌∷◌ c s ∷ rest

-- The pieces between the separators, empty ones too: `strings.Split` for a one-byte separator.
unfoldable pub split_on : (ℕ → Bool) → String → List String
split_on is_sep String.[] = String.[] ∷ []
split_on is_sep (String.◌∷◌ c s) =
    let rest = split_on is_sep s in if is_sep (code c) then String.[] ∷ rest else cons_head c rest

unfoldable pub non_empty : List String → List String
non_empty [] = []
non_empty (String.[] ∷ rest) = non_empty rest
non_empty (String.◌∷◌ c s ∷ rest) = String.◌∷◌ c s ∷ non_empty rest

-- `strings.Fields`
unfoldable pub fields : String → List String
unfolding split_on is_space non_empty
fields s = non_empty (split_on is_space s)

-- The value of a digit, in bases up to 16.
abbrev pub digit_value : ℕ → Option ℕ
digit_value c =
    if leb b'0' c && leb c b'9'
    then some (c - b'0')
    else if leb b'a' c && leb c b'f'
    then some (c - b'a' + 10)
    else if leb b'A' c && leb c b'F'
    then some (c - b'A' + 10)
    else none

unfoldable pub number_onto : ℕ → ℕ → List ℕ → Option ℕ
number_onto base n [] = some n
number_onto base n (c ∷ cs) = elim (digit_value c) [
  | none ↦ none
  | some d ↦ if ltb d base then number_onto base (n * base + d) cs else none
]

-- `base` 0: the prefix 0x is for hexadecimal, a first 0 for octal.
unfoldable pub unsigned : List ℕ → Option ℕ
unfolding number_onto
unsigned [] = none
unsigned (c ∷ []) = number_onto 10 0 (c ∷ [])
unsigned (c ∷ d ∷ cs) =
    if c == b'0'
    then if d == b'x' || d == b'X'
      then elim cs [ [] ↦ none | e ∷ es ↦ number_onto 16 0 (e ∷ es) ]
      else number_onto 8 0 (d ∷ cs)
    else number_onto 10 0 (c ∷ d ∷ cs)

abbrev pub neg_ℕ : ℕ → ℤ
neg_ℕ zero = pos zero
neg_ℕ (suc n) = negsuc n

abbrev pub in_range : ℕ → ℕ → ℤ → Option ℤ
in_range limit n z = if leb n limit then some z else none

unfoldable pub parse_codes : ℕ → List ℕ → Option ℤ
unfolding unsigned
parse_codes bits [] = none
parse_codes bits (c ∷ cs) =
    if c == b'-'
    then elim (unsigned cs) [ none ↦ none | some n ↦ in_range (2 ^ (bits - 1)) n (neg_ℕ n) ]
    else elim (unsigned (if c == b'+' then cs else c ∷ cs)) [
      | none ↦ none
      | some n ↦ in_range (2 ^ (bits - 1) - 1) n (pos n)
    ]

-- `strconv.ParseInt(s, 0, bits)`, of Go 1.12; `none` is its error.
unfoldable pub parse_int : ℕ → String → Option ℤ
unfolding parse_codes
parse_int bits s = parse_codes bits (codes s)

unfoldable pub digits_onto : ℕ → List ℕ → Option ℕ
digits_onto n [] = some n
digits_onto n (c ∷ cs) =
    let rest = digits_onto (n * 10 + (c - b'0')) cs in
    if leb b'0' c && leb c b'9' then rest else none

-- One digit at least.
unfoldable pub digits : List ℕ → Option ℕ
unfolding digits_onto
digits [] = none
digits (c ∷ cs) = digits_onto 0 (c ∷ cs)

unfoldable pub atoi_codes : List ℕ → Option ℤ
unfolding digits
atoi_codes [] = none
atoi_codes (c ∷ cs) =
    if c == b'-'
    then elim (digits cs) [ none ↦ none | some n ↦ in_range (2 ^ 63) n (neg_ℕ n) ]
    else elim (digits (if c == b'+' then cs else c ∷ cs)) [
      | none ↦ none
      | some n ↦ in_range (2 ^ 63 - 1) n (pos n)
    ]

-- `strconv.Atoi`; `none` is its error. The limits are those of `int64`.
unfoldable pub atoi : String → Option ℤ
unfolding atoi_codes
atoi s = atoi_codes (codes s)

abbrev pub is_one_of : String → List String → Bool
is_one_of s [] = false
is_one_of s (t ∷ ts) = same s t || is_one_of s ts

-- `strconv.ParseBool`; `none` is its error.
unfoldable pub parse_bool : String → Option Bool
parse_bool s =
    if is_one_of s ("1" ∷ "t" ∷ "T" ∷ "TRUE" ∷ "true" ∷ "True" ∷ [])
    then some true
    else if is_one_of s ("0" ∷ "f" ∷ "F" ∷ "FALSE" ∷ "false" ∷ "False" ∷ [])
    then some false
    else none
