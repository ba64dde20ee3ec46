-- ===== src/Datastore/Ownership/Addresses.antt =====
-- ENIs and addresses that enter and leave the store of ipamd/datastore/data_store.go, as seen by the
-- map of the pods and the names of the addresses.
use amazon_vpc_cni_k8s.Prelude.{
  Each, sym, pos, ℤ, String, string_discrete, ◌≡◌, ◌≢◌, refl, inl, inr, Bool, none, Instant, lookup,
  arith, Option-cases, Bool-cases, Each-lookup, Each-insert, Each-remove, lookup-insert,
  lookup-remove-none, eqb_ℤ,
}
use amazon_vpc_cni_k8s.Datastore.{
  EniIpPool, DataStore, new_pool, new_address, add_eni, add_ipv4_address_from_store,
  del_ipv4_address_from_store, remove_eni_from_data_store, remove_unused_eni_from_store,
  get_deletable_eni,
}
use amazon_vpc_cni_k8s.Datastore.Ownership.{pods_with, IsBacked}
use amazon_vpc_cni_k8s.Datastore.Ownership.Serves.{
  Serves, add_eni-Serves, add_ip-Serves, del_ip-Serves, remove_unused-Serves, remove_eni-Serves,
}

abbrev pub Unnamed : String → EniIpPool → Type 0
Unnamed _ e = lookup string_discrete "" e.ipv4_addresses ≡ none

abbrev pub AllUnnamed : DataStore → Type 0
AllUnnamed ds = Each Unnamed ds.eni_ip_pools

add_eni-AllUnnamed :
    (ds : DataStore) (id : String) (dev : ℤ) (primary : Bool) (now : Instant)
    → AllUnnamed ds
    → AllUnnamed (add_eni ds id dev primary now).0
unfolding add_eni lookup
add_eni-AllUnnamed ds id dev primary now u =
    elim (Option-cases (lookup string_discrete id ds.eni_ip_pools)) [
      | inr (e, dup) ↦ rw (dup, add_eni) u
      | inl new ↦
          rw (new, add_eni)
            (Each-insert string_discrete Unnamed id (new_pool id dev primary now) ds.eni_ip_pools
              refl u)
    ]

add_ip-AllUnnamed :
    (ds : DataStore) (id ip : String)
    → ip ≢ ""
    → AllUnnamed ds
    → AllUnnamed (add_ipv4_address_from_store ds id ip).0
unfolding add_ipv4_address_from_store
add_ip-AllUnnamed ds id ip has_name u =
    elim (Option-cases (lookup string_discrete id ds.eni_ip_pools)) [
      | inl missing ↦ rw (missing, add_ipv4_address_from_store) u
      | inr (e, found) ↦ elim (Option-cases (lookup string_discrete ip e.ipv4_addresses)) [
        | inr (a, dup) ↦ rw (found, dup, add_ipv4_address_from_store) u
        | inl new ↦
            rw (found, new, add_ipv4_address_from_store)
              (Each-insert string_discrete Unnamed id _ ds.eni_ip_pools
                (ground (
                  arith,
                  lookup-insert string_discrete ip "" (new_address ip) e.ipv4_addresses,
                  Each-lookup string_discrete Unnamed id e ds.eni_ip_pools u found,
                ))
                u)
      ]
    ]

del_ip-AllUnnamed :
    (ds : DataStore) (id ip : String)
    → AllUnnamed ds
    → AllUnnamed (del_ipv4_address_from_store ds id ip).0
unfolding del_ipv4_address_from_store
del_ip-AllUnnamed ds id ip u = elim (Option-cases (lookup string_discrete id ds.eni_ip_pools)) [
  | inl missing ↦ rw (missing, del_ipv4_address_from_store) u
  | inr (e, found) ↦ elim (Option-cases (lookup string_discrete ip e.ipv4_addresses)) [
    | inl gone ↦ rw (found, gone, del_ipv4_address_from_store) u
    | inr (a, has) ↦ elim (Bool-cases a.assigned) [
      | inl used ↦ rw (found, has, used, del_ipv4_address_from_store) u
      | inr free ↦
          rw (found, has, free, del_ipv4_address_from_store)
            (Each-insert string_discrete Unnamed id _ ds.eni_ip_pools
              (lookup-remove-none string_discrete ip "" e.ipv4_addresses
                (Each-lookup string_discrete Unnamed id e ds.eni_ip_pools u found))
              u)
    ]
  ]
]

remove_unused-AllUnnamed :
    (ds : DataStore) (target : ℤ) (now : Instant)
    → AllUnnamed ds
    → AllUnnamed (remove_unused_eni_from_store ds target now).0
unfolding remove_unused_eni_from_store
remove_unused-AllUnnamed ds target now u = elim (Option-cases (get_deletable_eni ds target now)) [
  | inl kept ↦ rw (kept, remove_unused_eni_from_store) u
  | inr (e, chosen) ↦ elim (Option-cases (lookup string_discrete e.id ds.eni_ip_pools)) [
    | inl missing ↦ rw (chosen, missing, remove_unused_eni_from_store) u
    | inr (pool, found) ↦
        rw (chosen, found, remove_unused_eni_from_store)
          (Each-remove string_discrete Unnamed e.id ds.eni_ip_pools u)
  ]
]

remove_eni-AllUnnamed :
    (ds : DataStore) (id : String) → AllUnnamed ds → AllUnnamed (remove_eni_from_data_store ds id).0
unfolding remove_eni_from_data_store
remove_eni-AllUnnamed ds id u = elim (Option-cases (lookup string_discrete id ds.eni_ip_pools)) [
  | inl unknown ↦ rw (unknown, remove_eni_from_data_store) u
  | inr (e, found) ↦ elim (Bool-cases (eqb_ℤ e.assigned_ipv4_addresses (pos 0))) [
    | inr used ↦ rw (found, used, remove_eni_from_data_store) u
    | inl unused ↦
        rw (found, unused, remove_eni_from_data_store)
          (Each-remove string_discrete Unnamed id ds.eni_ip_pools u)
  ]
]

-- What a backed store serves.
abbrev pub ServesAs : DataStore → DataStore → Type 0
ServesAs ds = Serves ds.pods_ip (λ ip. pods_with ip ds.pods_ip)

pub serves : (ds : DataStore) → IsBacked ds → ServesAs ds ds
serves ds b = record { valid = b.valid; kept = refl; held_as = λ ip. sym (b.backed ip) }

serves_back : (ds ds' : DataStore) → ServesAs ds ds' → AllUnnamed ds' → IsBacked ds'
serves_back ds ds' s u = record {
  valid = s.valid;
  named = u;
  backed = λ ip. rw (s.kept) (sym (s.held_as ip));
}

pub add_eni-IsBacked :
    (ds : DataStore) (id : String) (dev : ℤ) (primary : Bool) (now : Instant)
    → IsBacked ds
    → IsBacked (add_eni ds id dev primary now).0
add_eni-IsBacked ds id dev primary now b =
    serves_back ds _ (add_eni-Serves _ _ ds id dev primary now (serves ds b))
      (add_eni-AllUnnamed ds id dev primary now b.named)

pub add_ip-IsBacked :
    (ds : DataStore) (id ip : String)
    → ip ≢ ""
    → IsBacked ds
    → IsBacked (add_ipv4_address_from_store ds id ip).0
add_ip-IsBacked ds id ip has_name b =
    serves_back ds _ (add_ip-Serves _ _ ds id ip (serves ds b))
      (add_ip-AllUnnamed ds id ip has_name b.named)

pub del_ip-IsBacked :
    (ds : DataStore) (id ip : String)
    → IsBacked ds
    → IsBacked (del_ipv4_address_from_store ds id ip).0
del_ip-IsBacked ds id ip b =
    serves_back ds _ (del_ip-Serves _ _ ds id ip (serves ds b)) (del_ip-AllUnnamed ds id ip b.named)

pub remove_unused-IsBacked :
    (ds : DataStore) (target : ℤ) (now : Instant)
    → IsBacked ds
    → IsBacked (remove_unused_eni_from_store ds target now).0
remove_unused-IsBacked ds target now b =
    serves_back ds _ (remove_unused-Serves _ _ ds target now (serves ds b))
      (remove_unused-AllUnnamed ds target now b.named)

pub remove_eni-IsBacked :
    (ds : DataStore) (id : String) → IsBacked ds → IsBacked (remove_eni_from_data_store ds id).0
remove_eni-IsBacked ds id b =
    serves_back ds _ (remove_eni-Serves _ _ ds id (serves ds b))
      (remove_eni-AllUnnamed ds id b.named)
