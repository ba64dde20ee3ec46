-- ===== src/Prelude/Maps.antt =====
-- Go's maps, as association lists: the keys are distinct in every map that the code can build
-- (`Distinct`), and a `range` visits the entries in the order of the list.
use mathlib.Core.List.{List, [], ◌∷◌, lookup}
use mathlib.Core.Logic.{ite, ◌≢◌}
use mathlib.Core.Option.{none, some}
use mathlib.Core.Path.{◌≡◌, refl}
use native.Mathlib.Omega.{arith}

abbrev pub Dict {ℓ} : Type ℓ → Type ℓ → Type ℓ
Dict K V = List (K × V)

module _ {ℓ} {K V : Type ℓ} (dec : Discrete K) where
  -- `m[k] = v`
  unfoldable pub insert : K → V → Dict K V → Dict K V
  insert k v [] = (k, v) ∷ []
  insert k v ((j, w) ∷ m) = ite (dec k j) ((j, v) ∷ m) ((j, w) ∷ insert k v m)

  -- `delete(m, k)`
  unfoldable pub remove : K → Dict K V → Dict K V
  remove k [] = []
  remove k ((j, w) ∷ m) = ite (dec k j) m ((j, w) ∷ remove k m)

  -- No key twice.
  abbrev pub Distinct : Dict K V → Type ℓ
  Distinct [] = Unit
  Distinct ((j, w) ∷ m) = (lookup dec j m ≡ none) × Distinct m

module _ {ℓ} {K V : Type ℓ} (dec : Discrete K) where
  pub lookup-insert :
      (k q : K) (v : V) (m : Dict K V)
      → lookup dec q (insert dec k v m) ≡ ite (dec k q) (some v) (lookup dec q m)
  unfolding insert lookup
  lookup-insert k q v [] = ground arith
  lookup-insert k q v ((j, w) ∷ m) = ground (arith, lookup-insert k q v m)

  pub lookup-remove_ne :
      (k q : K) (m : Dict K V) → q ≢ k → lookup dec q (remove dec k m) ≡ lookup dec q m
  unfolding remove lookup
  lookup-remove_ne k q [] h = refl
  lookup-remove_ne k q ((j, w) ∷ m) h = ground (arith, lookup-remove_ne k q m)

  pub lookup-remove_self :
      (k : K) (m : Dict K V) → Distinct dec m → lookup dec k (remove dec k m) ≡ none
  unfolding remove lookup
  lookup-remove_self k [] d = refl
  lookup-remove_self k ((j, w) ∷ m) d = ground (arith, lookup-remove_self k m d.1)

  pub lookup-remove-none :
      (k q : K) (m : Dict K V) → lookup dec q m ≡ none → lookup dec q (remove dec k m) ≡ none
  unfolding remove lookup
  lookup-remove-none k q [] h = refl
  lookup-remove-none k q ((j, w) ∷ m) h = ground (arith, lookup-remove-none k q m)

  pub insert-Distinct :
      (k : K) (v : V) (m : Dict K V) → Distinct dec m → Distinct dec (insert dec k v m)
  unfolding insert lookup
  insert-Distinct k v [] d = (refl, tt)
  insert-Distinct k v ((j, w) ∷ m) d =
      ground (arith, insert-Distinct k v m d.1, lookup-insert k j v m)

  pub remove-Distinct : (k : K) (m : Dict K V) → Distinct dec m → Distinct dec (remove dec k m)
  unfolding remove
  remove-Distinct k [] d = tt
  remove-Distinct k ((j, w) ∷ m) d =
      ground (arith, remove-Distinct k m d.1, lookup-remove-none k j m)
