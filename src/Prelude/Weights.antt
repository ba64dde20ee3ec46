-- ===== src/Prelude/Weights.antt =====
-- Totals over the values of a map, and predicates on its entries, under `insert` and `remove`.
use Prim.Native.Nat.{ℕ, ◌+◌, ◌≤◌}
use mathlib.Core.List.{[], ◌∷◌, lookup}
use mathlib.Core.Logic.{ite}
use mathlib.Core.Option.{none, some}
use mathlib.Core.Path.{◌≡◌}
use native.Mathlib.Omega.{arith}
use amazon_vpc_cni_k8s.Prelude.Lists.{length}
use amazon_vpc_cni_k8s.Prelude.Maps.{Dict, insert, remove}

module _ {ℓ} {K V : Type ℓ} where
  abbrev pub total_of : (V → ℕ) → Dict K V → ℕ
  total_of f [] = 0
  total_of f ((j, v) ∷ m) = f v + total_of f m

  abbrev pub Each {κ} : (K → V → Type κ) → Dict K V → Type κ
  Each P [] = Unit
  Each P ((j, v) ∷ m) = P j v × Each P m

module _ {ℓ} {K V : Type ℓ} (dec : Discrete K) where
  pub total_of-insert_new :
      (f : V → ℕ) (k : K) (v : V) (m : Dict K V)
      → lookup dec k m ≡ none
      → total_of f (insert dec k v m) ≡ total_of f m + f v
  unfolding insert lookup
  total_of-insert_new f k v [] h = omega arith
  total_of-insert_new f k v ((j, w) ∷ m) h = ground (arith, total_of-insert_new f k v m)

  pub total_of-insert_old :
      (f : V → ℕ) (k : K) (v w : V) (m : Dict K V)
      → lookup dec k m ≡ some w
      → total_of f (insert dec k v m) + f w ≡ total_of f m + f v
  unfolding insert lookup
  total_of-insert_old f k v w [] h = ground arith
  total_of-insert_old f k v w ((j, u) ∷ m) h = ground (arith, total_of-insert_old f k v w m)

  pub total_of-remove :
      (f : V → ℕ) (k : K) (w : V) (m : Dict K V)
      → lookup dec k m ≡ some w
      → total_of f (remove dec k m) + f w ≡ total_of f m
  unfolding remove lookup
  total_of-remove f k w [] h = ground arith
  total_of-remove f k w ((j, u) ∷ m) h = ground (arith, total_of-remove f k w m)

  pub total_of-lookup :
      (f : V → ℕ) (k : K) (w : V) (m : Dict K V) → lookup dec k m ≡ some w → f w ≤ total_of f m
  total_of-lookup f k w m h = omega (arith, total_of-remove f k w m h)

  pub total_of_mono :
      (f g : V → ℕ) (m : Dict K V) → ((v : V) → f v ≤ g v) → total_of f m ≤ total_of g m
  total_of_mono f g [] le = omega arith
  total_of_mono f g ((j, v) ∷ m) le = omega (arith, le v, total_of_mono f g m le)

  -- What one entry lacks, the total lacks.
  pub total_of-gap :
      (f g : V → ℕ) (k : K) (w : V) (m : Dict K V)
      → ((v : V) → f v ≤ g v)
      → lookup dec k m ≡ some w
      → total_of f m + g w ≤ total_of g m + f w
  unfolding lookup
  total_of-gap f g k w [] le h = cc
  total_of-gap f g k w ((j, v) ∷ m) le h =
      ground (arith, le v, total_of_mono f g m le, total_of-gap f g k w m le)

  pub length-insert_new :
      (k : K) (v : V) (m : Dict K V)
      → lookup dec k m ≡ none
      → length (insert dec k v m) ≡ length m + 1
  unfolding insert lookup
  length-insert_new k v [] h = omega arith
  length-insert_new k v ((j, w) ∷ m) h = ground (arith, length-insert_new k v m)

  pub length-insert_old :
      (k : K) (v w : V) (m : Dict K V)
      → lookup dec k m ≡ some w
      → length (insert dec k v m) ≡ length m
  unfolding insert lookup
  length-insert_old k v w [] h = ground arith
  length-insert_old k v w ((j, u) ∷ m) h = ground (arith, length-insert_old k v w m)

  pub length-remove :
      (k : K) (w : V) (m : Dict K V)
      → lookup dec k m ≡ some w
      → length (remove dec k m) + 1 ≡ length m
  unfolding remove lookup
  length-remove k w [] h = ground arith
  length-remove k w ((j, u) ∷ m) h = ground (arith, length-remove k w m)

module _ {ℓ κ} {K V : Type ℓ} (dec : Discrete K) (P : K → V → Type κ) where
  pub Each-insert : (k : K) (v : V) (m : Dict K V) → P k v → Each P m → Each P (insert dec k v m)
  unfolding insert
  Each-insert k v [] p e = (p, tt)
  Each-insert k v ((j, w) ∷ m) p e =
      elim (dec k j) as (λ d. Each P (ite d ((j, v) ∷ m) ((j, w) ∷ insert dec k v m))) [
        | yes q ↦ (rw (← q) p, e.1)
        | no q ↦ (e.0, Each-insert k v m p e.1)
      ]

  pub Each-remove : (k : K) (m : Dict K V) → Each P m → Each P (remove dec k m)
  unfolding remove
  Each-remove k [] e = tt
  Each-remove k ((j, w) ∷ m) e = ground (arith, Each-remove k m e.1)

  pub Each-lookup : (k : K) (v : V) (m : Dict K V) → Each P m → lookup dec k m ≡ some v → P k v
  unfolding lookup
  Each-lookup k v [] e h = cc
  Each-lookup k v ((j, w) ∷ m) e h = ground (arith, Each-lookup k v m e.1)
