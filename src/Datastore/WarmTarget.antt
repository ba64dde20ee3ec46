-- ===== src/Datastore/WarmTarget.antt =====
-- What `RemoveUnusedENIFromStore` leaves of the warm pool.
use amazon_vpc_cni_k8s.Prelude.{
  ℕ, ◌+◌, ◌-◌, ◌⊎◌, pos, ℤ, ◌≤ℤ◌, ◌+ℤ◌, ◌-ℤ◌, pos-+ℤ, pos--ℤ, String, string_discrete, ◌≡◌, ◌≢◌,
  refl, ap, ◌∙◌, inl, inr, none, some, [], ◌∷◌, Instant, Dict, remove, lookup, Distinct, Each,
  total_of, arith, Option-cases,
}
use amazon_vpc_cni_k8s.Datastore.{
  EniIpPool, DataStore, ok, get_deletable_eni, other_warm_ips, remove_unused_eni_from_store,
}
use amazon_vpc_cni_k8s.Datastore.Invariant.{PoolIsValid, IsValid, address_count, used_count}
use amazon_vpc_cni_k8s.Datastore.Invariant.Enis.{
  IsDisposable, get_deletable_eni_lem, remove_unused_eni_from_store-IsValid,
}
use amazon_vpc_cni_k8s.Datastore.Search.{in_use_le}

abbrev pub free_count : EniIpPool → ℕ
free_count e = address_count e - used_count e

warm_step :
    (key : String) (e : EniIpPool) (n : ℕ)
    → PoolIsValid key e
    → pos (address_count e) -ℤ e.assigned_ipv4_addresses +ℤ pos n ≡ pos (free_count e + n)
warm_step key e n v =
    rw v.counted (ap (λ z. z +ℤ pos n) (pos--ℤ _ _ (in_use_le e.ipv4_addresses)) ∙ pos-+ℤ _ _)

-- In a map without the key, the sum goes over all ENIs.
other_warm_ips_all :
    (id : String) (pools : Dict String EniIpPool)
    → Each PoolIsValid pools
    → lookup string_discrete id pools ≡ none
    → other_warm_ips id pools ≡ pos (total_of free_count pools)
unfolding other_warm_ips lookup
other_warm_ips_all id [] v h = refl
other_warm_ips_all id ((key, e) ∷ pools) v h =
    ground (arith, other_warm_ips_all id pools v.1, warm_step key e (total_of free_count pools) v.0)

-- The sum of the free addresses on the other ENIs is what is left when the ENI is taken out.
other_warm_ips_lem :
    (id : String) (pools : Dict String EniIpPool)
    → Distinct string_discrete pools
    → Each PoolIsValid pools
    → other_warm_ips id pools ≡ pos (total_of free_count (remove string_discrete id pools))
unfolding other_warm_ips remove lookup
other_warm_ips_lem id [] d v = refl
other_warm_ips_lem id ((key, e) ∷ pools) d v = ground (
  arith,
  other_warm_ips_lem id pools d.1 v.1,
  other_warm_ips_all id pools v.1,
  warm_step key e (total_of free_count (remove string_discrete id pools)) v.0,
)

free_total :
    (pools : Dict String EniIpPool)
    → total_of free_count pools + total_of used_count pools ≡ total_of address_count pools
free_total [] = refl
free_total ((key, e) ∷ pools) = omega (arith, free_total pools, in_use_le e.ipv4_addresses)

available_lem :
    (ds : DataStore)
    → IsValid ds
    → ds.total -ℤ ds.assigned ≡ pos (total_of free_count ds.eni_ip_pools)
available_lem ds v =
    rw (v.total_counted, v.assigned_counted)
      (pos--ℤ _ _ (omega (arith, free_total ds.eni_ip_pools))
        ∙ ap pos (omega (arith, free_total ds.eni_ip_pools)))

-- `RemoveUnusedENIFromStore` on a valid store never panics. Either it names no ENI and the store
-- stays as it was, or the ENI that it names was in the store, is not the primary one, is at
-- least a minute old, had no address handed back for a minute and has no pods; exactly that entry
-- is gone; and with a warm target the free addresses that are left still reach the target.
pub remove_unused_eni_from_store_safe :
    (ds : DataStore) (target : ℤ) (now : Instant)
    → IsValid ds
    → let r = remove_unused_eni_from_store ds target now in
      (r ≡ (ds, ok ""))
      ⊎ ((e : EniIpPool) × (r.1 ≡ ok e.id)
          × (lookup string_discrete e.id ds.eni_ip_pools ≡ some e)
          × IsDisposable ds target now e
          × (r.0.eni_ip_pools ≡ remove string_discrete e.id ds.eni_ip_pools)
          × (target ≢ pos 0 → target ≤ℤ r.0.total -ℤ r.0.assigned))
unfolding remove_unused_eni_from_store
remove_unused_eni_from_store_safe ds target now v =
    elim (Option-cases (get_deletable_eni ds target now)) [
      | inl kept ↦ inl (rw (kept, remove_unused_eni_from_store))
      | inr (e, chosen) ↦
          let (fit, found) = get_deletable_eni_lem ds target now e v chosen in
          let pools_left : (remove_unused_eni_from_store ds target now).0.eni_ip_pools
              ≡ remove string_discrete e.id ds.eni_ip_pools =
            rw (chosen, found, remove_unused_eni_from_store) in
          let left = available_lem _ (remove_unused_eni_from_store-IsValid ds target now v) in
          inr (
            e,
            rw (chosen, found, remove_unused_eni_from_store),
            found,
            fit,
            pools_left,
            λ wanted.
                rw (left, pools_left)
                  (rw (other_warm_ips_lem e.id ds.eni_ip_pools v.distinct v.pools) at
                    (fit.spare wanted)),
          )
    ]
