-- ===== src/Prelude/Words.antt =====
-- Lists of words in a text, one to a line.
use Prim.Native.Char.{code}
use Prim.Native.String.{String}
use mathlib.Core.Bool.{false}
use mathlib.Core.List.{List, [], ◌∷◌}
use mathlib.Core.Logic.{◌≢◌}
use mathlib.Core.Path.{◌≡◌, refl, ap, ◌∙◌}
use amazon_vpc_cni_k8s.Prelude.Lists.{All}
use amazon_vpc_cni_k8s.Prelude.Text.{is_space, split_on, non_empty, fields}

-- `s`, a line break, and `t`.
abbrev pub line : String → String → String
line String.[] t = String.◌∷◌ "\n" t
line (String.◌∷◌ c s) t = String.◌∷◌ c (line s t)

abbrev pub lines : List String → String
lines [] = String.[]
lines (w ∷ ws) = line w (lines ws)

abbrev pub NoSpace : String → Type 0
NoSpace String.[] = Unit
NoSpace (String.◌∷◌ c s) = (is_space (code c) ≡ false) × NoSpace s

abbrev pub IsWord : String → Type 0
IsWord s = (s ≢ "") × NoSpace s

split_on-line : (s t : String) → NoSpace s → split_on is_space (line s t) ≡ s ∷ split_on is_space t
unfolding split_on is_space
split_on-line String.[] t h = refl
split_on-line (String.◌∷◌ c s) t h = rw (h.0, split_on-line s t h.1)

fields-line : (s t : String) → IsWord s → fields (line s t) ≡ s ∷ fields t
unfolding fields non_empty
fields-line String.[] t h = absurd (h.0 refl)
fields-line (String.◌∷◌ c s) t h = rw (split_on-line (String.◌∷◌ c s) t h.1)

pub fields-lines : (ws : List String) → All IsWord ws → fields (lines ws) ≡ ws
unfolding fields split_on non_empty
fields-lines [] h = refl
fields-lines (w ∷ ws) h = fields-line w (lines ws) h.0 ∙ ap (λ l. w ∷ l) (fields-lines ws h.1)

non_empty-named : (l : List String) → All (λ s. s ≢ "") (non_empty l)
unfolding non_empty
non_empty-named [] = tt
non_empty-named (String.[] ∷ l) = non_empty-named l
non_empty-named (String.◌∷◌ c s ∷ l) = (λ e. cc, non_empty-named l)

pub fields-named : (s : String) → All (λ s. s ≢ "") (fields s)
unfolding fields
fields-named s = non_empty-named (split_on is_space s)
