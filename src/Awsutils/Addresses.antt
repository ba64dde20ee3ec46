-- ===== src/Awsutils/Addresses.antt =====
-- pkg/awsutils/awsutils.go: how many addresses the client asks EC2 for.
use amazon_vpc_cni_k8s.Prelude.{
  ℕ, ℤ, pos, ◌≤ℤ◌, ◌-ℤ◌, ltb_ℤ, String, string_discrete, lookup, none, some, ◌≡◌, ◌⊎◌, inl, inr,
  Bool-cases, Option-cases, pos--ℤ, arith, if◌then◌else◌,
}
use amazon_vpc_cni_k8s.Awsutils.{
  Cache, Ec2, ◌>>=◌, pure, fail, call, assign_addresses, alloc_ip_addresses, get_eni_ip_limit,
  instance_ips_available,
}
use amazon_vpc_cni_k8s.Awsutils.Limits.{ips_low}

module _ {W : Type 0} (ec2 : Ec2 W) (cache : Cache) where
  assign_addresses_world :
      (eni : String) (k : ℤ) (w : W)
      → (assign_addresses ec2 cache eni k w).1 ≡ (ec2.assign_private_ip_addresses eni k w).1
  unfolding assign_addresses ◌>>=◌ call pure fail
  assign_addresses_world eni k w = ground arith

  -- `AllocIPAddresses` calls nothing exactly where the table does not list the type of the instance
  -- or no address is wanted. Otherwise it asks EC2 once, for as many addresses as are wanted, or,
  -- where more are wanted than that, for one less than the addresses that the table lists for the
  -- type of this instance, which is at least one.
  pub alloc_ip_addresses_bounded :
      (eni : String) (wanted : ℤ) (w : W)
      → let u = alloc_ip_addresses ec2 cache eni wanted w in
        let listed = lookup string_discrete cache.instance_type instance_ips_available in
        ((u.1 ≡ w) × ((listed ≡ none) ⊎ (wanted ≤ℤ pos 0)))
        ⊎ ((ips : ℕ) × (k : ℤ) × (listed ≡ some ips)
            × (u.1 ≡ (ec2.assign_private_ip_addresses eni k w).1)
            × (pos 1 ≤ℤ k)
            × (((k ≡ wanted) × (wanted ≤ℤ (pos ips -ℤ pos 1)))
                ⊎ ((k ≡ (pos ips -ℤ pos 1)) × ((pos ips -ℤ pos 1) ≤ℤ wanted))))
  unfolding alloc_ip_addresses get_eni_ip_limit pure fail
  alloc_ip_addresses_bounded eni wanted w =
      elim (Option-cases (lookup string_discrete cache.instance_type instance_ips_available)) [
        | inl unlisted ↦ inl (rw (unlisted, alloc_ip_addresses, get_eni_ip_limit), inl unlisted)
        | inr (ips, listed) ↦
            let limit = pos ips -ℤ pos 1 in
            let low = ips_low cache.instance_type ips listed in
            let q = pos--ℤ ips 1 (omega (arith, low)) in
            let k = if ltb_ℤ limit wanted then limit else wanted in
            elim (Bool-cases (ltb_ℤ k (pos 1))) [
              | inl little ↦ inl (
                rw (listed, little, alloc_ip_addresses, get_eni_ip_limit),
                inr (ground (arith, low, q)),
              )
              | inr enough ↦ inr (
                ips,
                k,
                listed,
                rw (listed, enough, alloc_ip_addresses, get_eni_ip_limit)
                    (assign_addresses_world eni k w),
                ground arith,
                elim (Bool-cases (ltb_ℤ limit wanted)) [
                  | inl more ↦ inr (ground arith, ground arith)
                  | inr fits ↦ inl (ground arith, ground arith)
                ],
              )
            ]
      ]
