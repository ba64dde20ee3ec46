-- ===== src/Awsutils/Limits.antt =====
-- pkg/awsutils/vpc_ip_resource_limit.go: what the two tables say together.
use amazon_vpc_cni_k8s.Prelude.{
  ℕ, ◌≤◌, ◌-◌, pos, leb, String, string_discrete, Bool, true, false, none, some, lookup, List, [],
  ◌∷◌, Dict, sym, ◌≡◌, refl, ◌⊎◌, inl, inr, arith, pos--ℤ, Option-cases, if◌then◌else◌,
}
use amazon_vpc_cni_k8s.Awsutils.{
  get_eni_limit, get_eni_ip_limit, instance_enis_available, instance_ips_available,
  instance_enis_to_m3, instance_enis_from_m4, instance_ips_to_m3, instance_ips_from_m4,
}

-- Every value of the table is between the bounds.
unfoldable all_within : ℕ → ℕ → Dict String ℕ → Bool
all_within lo hi [] = true
all_within lo hi ((k, v) ∷ m) =
    if leb lo v then if leb v hi then all_within lo hi m else false else false

lookup-all_within :
    (lo hi : ℕ) (t : String) (m : Dict String ℕ) (v : ℕ)
    → all_within lo hi m ≡ true
    → lookup string_discrete t m ≡ some v
    → (lo ≤ v) × (v ≤ hi)
unfolding all_within lookup
lookup-all_within lo hi t [] v h found = ground arith
lookup-all_within lo hi t ((k, w) ∷ m) v h found = ground (arith, lookup-all_within lo hi t m v)

abbrev keys : Dict String ℕ → List String
keys [] = []
keys ((k, v) ∷ m) = k ∷ keys m

-- Tables with the same keys know the same types.
lookup-same_keys :
    (t : String) (m n : Dict String ℕ)
    → keys m ≡ keys n
    → lookup string_discrete t m ≡ none
    → lookup string_discrete t n ≡ none
unfolding lookup
lookup-same_keys t [] [] h e = refl
lookup-same_keys t [] ((k, p) ∷ n) h e = cc
lookup-same_keys t ((j, v) ∷ m) [] h e = cc
lookup-same_keys t ((j, v) ∷ m) ((k, p) ∷ n) h e = ground (arith, lookup-same_keys t m n)

instance_enis-keys : keys instance_enis_available ≡ keys instance_ips_available
unfolding instance_enis_available instance_ips_available instance_enis_to_m3 instance_enis_from_m4
    instance_ips_to_m3 instance_ips_from_m4
instance_enis-keys = refl

instance_enis-within : all_within 2 15 instance_enis_available ≡ true
unfolding all_within instance_enis_available instance_enis_to_m3 instance_enis_from_m4
instance_enis-within = refl

instance_ips-within : all_within 2 50 instance_ips_available ≡ true
unfolding all_within instance_ips_available instance_ips_to_m3 instance_ips_from_m4
instance_ips-within = refl

pub ips_low :
    (t : String) (ips : ℕ) → lookup string_discrete t instance_ips_available ≡ some ips → 2 ≤ ips
ips_low t ips listed =
    (lookup-all_within 2 50 t instance_ips_available ips instance_ips-within listed).0

-- `GetENILimit` and `GetENIipLimit` know the same instance types: for each type either both fail,
-- or an instance has 2 to 15 interfaces with 1 to 49 addresses for pods on each.
pub get_limits_lem :
    (t : String)
    → ((get_eni_limit t ≡ none) × (get_eni_ip_limit t ≡ none))
      ⊎ ((enis : ℕ) × (ips : ℕ) × (get_eni_limit t ≡ some (pos enis))
          × (2 ≤ enis)
          × (enis ≤ 15)
          × (get_eni_ip_limit t ≡ some (pos ips))
          × (1 ≤ ips)
          × (ips ≤ 49))
unfolding get_eni_limit get_eni_ip_limit
get_limits_lem t = elim (Option-cases (lookup string_discrete t instance_enis_available)) [
  | inl unknown ↦
      let no_ips =
        lookup-same_keys t instance_enis_available instance_ips_available instance_enis-keys
          unknown in
      inl (rw (unknown, get_eni_limit), rw (no_ips, get_eni_ip_limit))
  | inr (e, enis) ↦ elim (Option-cases (lookup string_discrete t instance_ips_available)) [
    | inl unknown ↦
        let no_enis =
          lookup-same_keys t instance_ips_available instance_enis_available (sym instance_enis-keys)
            unknown in
        inl (rw (no_enis, get_eni_limit), rw (unknown, get_eni_ip_limit))
    | inr (p, ips) ↦
        let (e_low, e_high) =
          lookup-all_within 2 15 t instance_enis_available e instance_enis-within enis in
        let (p_low, p_high) =
          lookup-all_within 2 50 t instance_ips_available p instance_ips-within ips in
        inr (
          e,
          p - 1,
          rw (enis, get_eni_limit),
          e_low,
          e_high,
          rw (ips, get_eni_ip_limit, pos--ℤ p 1 (omega arith)),
          omega arith,
          omega arith,
        )
  ]
]
