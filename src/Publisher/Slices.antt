-- ===== src/Publisher/Slices.antt =====
-- Lists that are cut and padded, as pkg/publisher/publisher.go cuts its slices.
use amazon_vpc_cni_k8s.Prelude.{
  ℕ, zero, suc, ◌+◌, ◌-◌, ◌≤◌, ◌≡◌, refl, sym, ap, ◌∙◌, leb, ltb, true, Bool-cases, inl, inr,
  Option, none, some, List, [], ◌∷◌, ◌++◌, map, length, arith,
}
use mathlib.Core.List.{append-nil}
use amazon_vpc_cni_k8s.Publisher.{padded, drop, min}

unfoldable pub nils : {A : Type 0} → ℕ → List (Option A)
nils zero = []
nils (suc n) = none ∷ nils n

pub leb_of_le : (m n : ℕ) → m ≤ n → leb m n ≡ true
leb_of_le m n h = ground arith

module _ {A : Type 0} where
  pub length-padded : (n : ℕ) (xs : List A) → length (padded n xs) ≡ n
  unfolding padded
  length-padded zero xs = refl
  length-padded (suc n) [] = ap suc (length-padded n [])
  length-padded (suc n) (x ∷ xs) = ap suc (length-padded n xs)

  padded_nil : (n : ℕ) → padded {A = A} n [] ≡ nils n
  unfolding padded nils
  padded_nil zero = refl
  padded_nil (suc n) = ap (λ l. none ∷ l) (padded_nil n)

  drop_all : (n : ℕ) (xs : List A) → length xs ≤ n → drop n xs ≡ []
  unfolding drop
  drop_all zero [] h = refl
  drop_all zero (x ∷ xs) h = absurd (omega (arith, h))
  drop_all (suc n) [] h = refl
  drop_all (suc n) (x ∷ xs) h = drop_all n xs (omega (arith, h))

  pub length-drop : (n : ℕ) (xs : List A) → length (drop n xs) ≡ length xs - n
  unfolding drop
  length-drop zero xs = omega arith
  length-drop (suc n) [] = omega arith
  length-drop (suc n) (x ∷ xs) = omega (arith, length-drop n xs)

  pub nils-add : (m n : ℕ) → nils {A = A} m ++ nils n ≡ nils (m + n)
  unfolding nils
  nils-add zero n = let e : 0 + n ≡ n = omega arith in rw e refl
  nils-add (suc m) n =
      let e : suc m + n ≡ suc (m + n) = omega arith in rw e (ap (λ l. none ∷ l) (nils-add m n))

  pub padded-drop :
      (n : ℕ) (xs : List A)
      → padded n xs ++ map some (drop n xs) ≡ map some xs ++ nils (n - length xs)
  unfolding padded drop nils
  padded-drop zero xs =
      let e : 0 - length xs ≡ 0 = omega arith in rw e (sym (append-nil (map some xs)))
  padded-drop (suc n) [] =
      let e : suc n - 0 ≡ suc n = omega arith in
      rw e (ap (λ l. none ∷ l) (append-nil (padded n []) ∙ padded_nil n))
  padded-drop (suc n) (x ∷ xs) =
      let e : suc n - suc (length xs) ≡ n - length xs = omega arith in
      rw e (ap (λ l. some x ∷ l) (padded-drop n xs))

  pub drop-min : (n : ℕ) (xs : List A) → drop (min n (length xs)) xs ≡ drop n xs
  unfolding min
  drop-min n xs = elim (Bool-cases (ltb n (length xs))) [
    | inl e ↦ rw e refl
    | inr e ↦ rw (e, drop_all (length xs) xs (omega arith), drop_all n xs (ground (arith, e))) refl
  ]
