-- ===== src/Datastore/Invariant/Enis.antt =====
-- The removal of ENIs in ipamd/datastore/data_store.go, and the counts.
use amazon_vpc_cni_k8s.Prelude.{
  ◌+◌, ◌≤◌, pos, ℤ, ◌≤ℤ◌, eqb_ℤ, eqb_ℤ→eq, String, string_discrete, ◌≡◌, ◌≢◌, refl, inl, inr, true,
  false, some, [], ◌∷◌, Instant, Dict, lookup, Distinct, Each, arith, Option-cases, Bool-cases,
  minute, time_sub-lt,
}
use amazon_vpc_cni_k8s.Datastore.{
  EniIpPool, DataStore, deletable_from, get_deletable_eni, is_deletable, other_warm_ips,
  remove_unused_eni_from_store, remove_eni_from_data_store,
}
use amazon_vpc_cni_k8s.Datastore.Invariant.{PoolIsValid, IsValid}
use amazon_vpc_cni_k8s.Datastore.Invariant.Addresses.{removed-IsValid}

-- What the loop of `getDeletableENI` has checked of the ENI that it returns.
pub record IsDisposable (ds : DataStore) (target : ℤ) (now : Instant) (e : EniIpPool) : Type 0 where
  pub secondary : e.is_primary ≡ false
  pub old : e.create_time + minute ≤ now
  pub cool : e.last_unassigned_time + minute ≤ now
  pub unused : e.assigned_ipv4_addresses ≡ pos 0
  pub spare : target ≢ pos 0 → target ≤ℤ other_warm_ips e.id ds.eni_ip_pools

is_deletable_lem :
    (ds : DataStore) (target : ℤ) (now : Instant) (e : EniIpPool)
    → is_deletable ds target now e ≡ true
    → IsDisposable ds target now e
unfolding is_deletable
is_deletable_lem ds target now e h =
    ground
      (arith, time_sub-lt now e.create_time minute, time_sub-lt now e.last_unassigned_time minute)

deletable_from_lem :
    (ds : DataStore) (target : ℤ) (now : Instant) (pools : Dict String EniIpPool) (e : EniIpPool)
    → Distinct string_discrete pools
    → Each PoolIsValid pools
    → deletable_from ds target now pools ≡ some e
    → (is_deletable ds target now e ≡ true) × (lookup string_discrete e.id pools ≡ some e)
unfolding deletable_from lookup
deletable_from_lem ds target now [] e d v h = cc
deletable_from_lem ds target now ((key, eni) ∷ pools) e d v h =
    ground (arith, deletable_from_lem ds target now pools e d.1 v.1)

pub get_deletable_eni_lem :
    (ds : DataStore) (target : ℤ) (now : Instant) (e : EniIpPool)
    → IsValid ds
    → get_deletable_eni ds target now ≡ some e
    → IsDisposable ds target now e × (lookup string_discrete e.id ds.eni_ip_pools ≡ some e)
unfolding get_deletable_eni
get_deletable_eni_lem ds target now e v h =
    let found = deletable_from_lem ds target now ds.eni_ip_pools e v.distinct v.pools h in
    (is_deletable_lem ds target now e found.0, found.1)

pub remove_unused_eni_from_store-IsValid :
    (ds : DataStore) (target : ℤ) (now : Instant)
    → IsValid ds
    → IsValid (remove_unused_eni_from_store ds target now).0
unfolding remove_unused_eni_from_store
remove_unused_eni_from_store-IsValid ds target now v =
    elim (Option-cases (get_deletable_eni ds target now)) [
      | inl kept ↦ rw (kept, remove_unused_eni_from_store) v
      | inr (e, chosen) ↦
          let (disposable, found) = get_deletable_eni_lem ds target now e v chosen in
          rw (chosen, found, remove_unused_eni_from_store)
            (removed-IsValid ds _ e.id e v found disposable.unused refl refl refl refl)
    ]

pub remove_eni_from_data_store-IsValid :
    (ds : DataStore) (id : String) → IsValid ds → IsValid (remove_eni_from_data_store ds id).0
unfolding remove_eni_from_data_store
remove_eni_from_data_store-IsValid ds id v =
    elim (Option-cases (lookup string_discrete id ds.eni_ip_pools)) [
      | inl unknown ↦ rw (unknown, remove_eni_from_data_store) v
      | inr (e, found) ↦ elim (Bool-cases (eqb_ℤ e.assigned_ipv4_addresses (pos 0))) [
        | inr used ↦ rw (found, used, remove_eni_from_data_store) v
        | inl unused ↦
            rw (found, unused, remove_eni_from_data_store)
              (removed-IsValid ds _ id e v found (eqb_ℤ→eq _ _ unused) refl refl refl refl)
      ]
    ]
