-- ===== src/Awsutils/Devices.antt =====
-- pkg/awsutils/awsutils.go: the device number that a new ENI is attached at.
use amazon_vpc_cni_k8s.Prelude.{
  ℕ, zero, suc, ◌+◌, ◌≤◌, ◌<◌, ◌==◌, ℤ, pos, negsuc, ◌≡◌, refl, ◌∙◌, sym, ◌⊎◌, inl, inr, Bool, true,
  false, Option, none, some, List, [], ◌∷◌, if◌then◌else◌, arith, Option-cases, Bool-cases,
}
use amazon_vpc_cni_k8s.Awsutils.{
  Cache, Ec2, ok, failed, crashed, other_error, ◌>>=◌, must, pure, fail, crash, used_devices,
  is_used, free_device_from, free_device_among, aws_get_free_device_number,
}

-- An interface of the instance is attached at the index.
unfoldable pub has_device : ℤ → List (Option ℤ) → Bool
has_device d [] = false
has_device d (none ∷ rest) = has_device d rest
has_device (pos n) (some (pos m) ∷ rest) = if n == m then true else has_device (pos n) rest
has_device (negsuc n) (some (pos m) ∷ rest) = has_device (negsuc n) rest
has_device (pos n) (some (negsuc m) ∷ rest) = has_device (pos n) rest
has_device (negsuc n) (some (negsuc m) ∷ rest) = if n == m then true else has_device (negsuc n) rest

used_devices_lem :
    (n : ℕ) (inst : List (Option ℤ)) (used : List ℕ)
    → n < 128
    → used_devices inst ≡ some used
    → is_used n used ≡ has_device (pos n) inst
unfolding used_devices is_used has_device
used_devices_lem n [] used lt h = ground arith
used_devices_lem n (none ∷ rest) used lt h = cc
used_devices_lem n (some (negsuc m) ∷ rest) used lt h = cc
used_devices_lem n (some (pos m) ∷ rest) used lt h = elim (Option-cases (used_devices rest)) [
  | inl bad ↦ ground arith
  | inr (others, good) ↦ ground (arith, used_devices_lem n rest others lt good)
]

used_devices_crashes :
    (inst : List (Option ℤ)) → has_device (pos 128) inst ≡ true → used_devices inst ≡ none
unfolding used_devices has_device
used_devices_crashes [] h = cc
used_devices_crashes (none ∷ rest) h = refl
used_devices_crashes (some (negsuc m) ∷ rest) h = refl
used_devices_crashes (some (pos m) ∷ rest) h = ground (arith, used_devices_crashes rest)

free_device_found :
    (used : List ℕ) (i left d : ℕ)
    → free_device_from used i left ≡ some d
    → (i ≤ d) × (d < i + left) × (is_used d used ≡ false)
unfolding free_device_from
free_device_found used i zero d h = cc
free_device_found used i (suc left) d h = ground (arith, free_device_found used (i + 1) left d)

free_device_least :
    (used : List ℕ) (i left d j : ℕ)
    → free_device_from used i left ≡ some d
    → i ≤ j
    → j < d
    → is_used j used ≡ true
unfolding free_device_from
free_device_least used i zero d j h lo hi = cc
free_device_least used i (suc left) d j h lo hi = elim (Bool-cases (i == j)) [
  | inl same ↦ let e : i ≡ j = ground arith in rw (← e) (ground arith)
  | inr other ↦ ground (arith, free_device_least used (i + 1) left d j)
]

free_device_none :
    (used : List ℕ) (i left j : ℕ)
    → free_device_from used i left ≡ none
    → i ≤ j
    → j < i + left
    → is_used j used ≡ true
unfolding free_device_from
free_device_none used i zero j h lo hi = absurd (omega arith)
free_device_none used i (suc left) j h lo hi = elim (Bool-cases (i == j)) [
  | inl same ↦ let e : i ≡ j = ground arith in rw (← e) (ground arith)
  | inr other ↦ ground (arith, free_device_none used (i + 1) left j)
]

module _ {W : Type 0} (ec2 : Ec2 W) (cache : Cache) where
  -- When EC2 describes the instance and no device index leaves the array, the number that is
  -- answered is the least of 0 to 127 at which no interface is attached; the method fails only when
  -- an interface is attached at each of them.
  pub free_device_number_lem :
      (w : W) (inst : List (Option ℤ)) (more : List (List (Option ℤ))) (used : List ℕ)
      → (ec2.describe_instances cache.instance_id w).0 ≡ some ((inst ∷ more) ∷ [])
      → used_devices inst ≡ some used
      → ((d : ℕ) × ((aws_get_free_device_number ec2 cache w).0 ≡ ok d)
          × (d < 128)
          × (has_device (pos d) inst ≡ false)
          × ((j : ℕ) → j < d → has_device (pos j) inst ≡ true))
        ⊎ (((aws_get_free_device_number ec2 cache w).0 ≡ failed other_error)
            × ((j : ℕ) → j < 128 → has_device (pos j) inst ≡ true))
  unfolding aws_get_free_device_number ◌>>=◌ must pure fail
  free_device_number_lem w inst more used described good =
      elim (Option-cases (free_device_from used 0 128)) [
        | inr (d, found) ↦
            let (lo, hi, free) = free_device_found used 0 128 d found in
            inl (
              d,
              rw (
                described, good, found, aws_get_free_device_number, ◌>>=◌, must, free_device_among,
              ),
              hi,
              sym (used_devices_lem d inst used hi good) ∙ free,
              λ j lt.
                  sym (used_devices_lem j inst used (omega arith) good)
                  ∙ free_device_least used 0 128 d j found (omega arith) lt,
            )
        | inl full ↦ inr (
          rw (described, good, full, aws_get_free_device_number, ◌>>=◌, must, free_device_among),
          λ j lt.
              sym (used_devices_lem j inst used lt good)
              ∙ free_device_none used 0 128 j full (omega arith) lt,
        )
      ]

  -- An interface attached at the index 128 makes the method panic: the test lets that index pass,
  -- and the array ends before it.
  pub device_128_crashes :
      (w : W) (inst : List (Option ℤ)) (more : List (List (Option ℤ)))
      → (ec2.describe_instances cache.instance_id w).0 ≡ some ((inst ∷ more) ∷ [])
      → has_device (pos 128) inst ≡ true
      → (aws_get_free_device_number ec2 cache w).0 ≡ crashed
  unfolding aws_get_free_device_number ◌>>=◌ must crash pure
  device_128_crashes w inst more described there =
      rw (described, used_devices_crashes inst there, aws_get_free_device_number, ◌>>=◌, must)
