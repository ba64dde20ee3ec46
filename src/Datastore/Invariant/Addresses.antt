-- ===== src/Datastore/Invariant/Addresses.antt =====
-- `AddENI`, `AddIPv4AddressFromStore` and `DelIPv4AddressFromStore` of
-- ipamd/datastore/data_store.go, and the counts.
use amazon_vpc_cni_k8s.Prelude.{
  ℕ, ◌+◌, ◌≤◌, pos, ℤ, ◌+ℤ◌, ◌-ℤ◌, pos-+ℤ, pos--ℤ, String, string_discrete, ◌≡◌, refl, ap, inl, inr,
  Bool, false, none, some, Instant, Dict, insert, remove, lookup, Distinct, total_of, arith, ◌∙◌,
  Option-cases, Bool-cases, insert-Distinct, remove-Distinct, Each-insert, Each-remove, Each-lookup,
  total_of-insert_new, total_of-insert_old, total_of-remove, total_of-lookup, length-insert_new,
  length-remove,
}
use amazon_vpc_cni_k8s.Datastore.{
  AddressInfo, EniIpPool, DataStore, pod_key_discrete, add_eni, new_pool, new_address,
  add_ipv4_address_from_store, del_ipv4_address_from_store,
}
use amazon_vpc_cni_k8s.Datastore.Invariant.{in_use, used_count, address_count, PoolIsValid, IsValid}

-- One ENI of the store is replaced, and the totals move by as much as its counts.
pub replace-IsValid :
    (ds ds' : DataStore) (id : String) (e e' : EniIpPool) {t a : ℕ}
    → IsValid ds
    → lookup string_discrete id ds.eni_ip_pools ≡ some e
    → PoolIsValid id e'
    → ds'.eni_ip_pools ≡ insert string_discrete id e' ds.eni_ip_pools
    → Distinct pod_key_discrete ds'.pods_ip
    → ds'.total ≡ pos t
    → t + address_count e ≡ total_of address_count ds.eni_ip_pools + address_count e'
    → ds'.assigned ≡ pos a
    → a + used_count e ≡ total_of used_count ds.eni_ip_pools + used_count e'
    → IsValid ds'
replace-IsValid ds ds' id e e' {t} {a} v found valid q pods ht et ha ea = record {
  distinct = rw q (insert-Distinct string_discrete id e' ds.eni_ip_pools v.distinct);
  pools = rw q (Each-insert string_discrete PoolIsValid id e' ds.eni_ip_pools valid v.pools);
  total_counted =
      rw (q, ht)
        (ap pos (
          omega (
            arith,
            et,
            total_of-insert_old string_discrete address_count id e' e ds.eni_ip_pools found,
          )));
  assigned_counted =
      rw (q, ha)
        (ap pos (
          omega (
            arith,
            ea,
            total_of-insert_old string_discrete used_count id e' e ds.eni_ip_pools found,
          )));
  pods_distinct = pods;
}

uses_added :
    (ip : String) (e : EniIpPool)
    → lookup string_discrete ip e.ipv4_addresses ≡ none
    → total_of in_use (insert string_discrete ip (new_address ip) e.ipv4_addresses) ≡ used_count e
uses_added ip e new =
    omega
      (arith, total_of-insert_new string_discrete in_use ip (new_address ip) e.ipv4_addresses new)

uses_deleted :
    (ip : String) (e : EniIpPool) (a : AddressInfo)
    → lookup string_discrete ip e.ipv4_addresses ≡ some a
    → a.assigned ≡ false
    → total_of in_use (remove string_discrete ip e.ipv4_addresses) ≡ used_count e
uses_deleted ip e a found free =
    ground (arith, total_of-remove string_discrete in_use ip a e.ipv4_addresses found)

one_address :
    (ds : DataStore) (id ip : String) (e : EniIpPool) (a : AddressInfo)
    → lookup string_discrete id ds.eni_ip_pools ≡ some e
    → lookup string_discrete ip e.ipv4_addresses ≡ some a
    → 1 ≤ total_of address_count ds.eni_ip_pools
one_address ds id ip e a found has = omega (
  arith,
  total_of-lookup string_discrete address_count id e ds.eni_ip_pools found,
  length-remove string_discrete ip a e.ipv4_addresses has,
)

-- An ENI without pods is taken out, with its addresses.
pub removed-IsValid :
    (ds ds' : DataStore) (id : String) (e : EniIpPool)
    → IsValid ds
    → lookup string_discrete id ds.eni_ip_pools ≡ some e
    → e.assigned_ipv4_addresses ≡ pos 0
    → ds'.eni_ip_pools ≡ remove string_discrete id ds.eni_ip_pools
    → ds'.pods_ip ≡ ds.pods_ip
    → ds'.total ≡ ds.total -ℤ pos (address_count e)
    → ds'.assigned ≡ ds.assigned
    → IsValid ds'
removed-IsValid ds ds' id e v found unused q pods ht ha =
    let e_valid = Each-lookup string_discrete PoolIsValid id e ds.eni_ip_pools v.pools found in
    let none_used : used_count e ≡ 0 = ground (arith, e_valid.counted, unused) in
    let sizes = total_of-remove string_discrete address_count id e ds.eni_ip_pools found in
    let uses = total_of-remove string_discrete used_count id e ds.eni_ip_pools found in
    record {
      distinct = rw q (remove-Distinct string_discrete id ds.eni_ip_pools v.distinct);
      pools = rw q (Each-remove string_discrete PoolIsValid id ds.eni_ip_pools v.pools);
      total_counted =
          rw (q, ht, v.total_counted)
            (pos--ℤ _ _ (omega (arith, sizes)) ∙ ap pos (omega (arith, sizes)));
      assigned_counted = rw (q, ha, v.assigned_counted) (ap pos (omega (arith, uses, none_used)));
      pods_distinct = rw pods v.pods_distinct;
    }

pub add_eni-IsValid :
    (ds : DataStore) (id : String) (dev : ℤ) (primary : Bool) (now : Instant)
    → IsValid ds
    → IsValid (add_eni ds id dev primary now).0
unfolding add_eni
add_eni-IsValid ds id dev primary now v =
    elim (Option-cases (lookup string_discrete id ds.eni_ip_pools)) [
      | inr (e, found) ↦ rw (found, add_eni) v
      | inl missing ↦
          rw (missing, add_eni)
            (record {
              distinct = insert-Distinct string_discrete id fresh ds.eni_ip_pools v.distinct;
              pools =
                  Each-insert string_discrete PoolIsValid id fresh ds.eni_ip_pools
                    (record { keyed = refl; counted = refl; distinct = tt; addressed = tt })
                    v.pools;
              total_counted = rw v.total_counted (
                  ap pos (
                    omega (
                      arith,
                      total_of-insert_new string_discrete address_count id fresh ds.eni_ip_pools
                          missing,
                    )));
              assigned_counted = rw v.assigned_counted (
                  ap pos (
                    omega (
                      arith,
                      total_of-insert_new string_discrete used_count id fresh ds.eni_ip_pools
                          missing,
                    )));
              pods_distinct = v.pods_distinct;
            })
    ]
  where
    fresh : EniIpPool
    fresh = new_pool id dev primary now

abbrev with_addresses : EniIpPool → Dict String AddressInfo → EniIpPool
with_addresses e addrs = record e { ipv4_addresses = addrs }

PoolIsValid-add :
    (id ip : String) (e : EniIpPool)
    → PoolIsValid id e
    → lookup string_discrete ip e.ipv4_addresses ≡ none
    → PoolIsValid id
        (with_addresses e (insert string_discrete ip (new_address ip) e.ipv4_addresses))
PoolIsValid-add id ip e v new = record {
  keyed = v.keyed;
  counted = rw v.counted (ap pos (omega (arith, uses_added ip e new)));
  distinct = insert-Distinct string_discrete ip _ e.ipv4_addresses v.distinct;
  addressed =
      Each-insert string_discrete (λ k a. a.address ≡ k) ip _ e.ipv4_addresses refl v.addressed;
}

pub add_ipv4_address_from_store-IsValid :
    (ds : DataStore) (id ip : String)
    → IsValid ds
    → IsValid (add_ipv4_address_from_store ds id ip).0
unfolding add_ipv4_address_from_store
add_ipv4_address_from_store-IsValid ds id ip v =
    elim (Option-cases (lookup string_discrete id ds.eni_ip_pools)) [
      | inl missing ↦ rw (missing, add_ipv4_address_from_store) v
      | inr (e, found) ↦ elim (Option-cases (lookup string_discrete ip e.ipv4_addresses)) [
        | inr (a, dup) ↦ rw (found, dup, add_ipv4_address_from_store) v
        | inl new ↦
            rw (found, new, add_ipv4_address_from_store)
              (replace-IsValid ds _ id e _ v found
                (PoolIsValid-add id ip e
                  (Each-lookup string_discrete PoolIsValid id e ds.eni_ip_pools v.pools found) new)
                refl v.pods_distinct (ap (λ z. z +ℤ pos 1) v.total_counted ∙ pos-+ℤ _ _)
                (omega (
                  arith,
                  length-insert_new string_discrete ip (new_address ip) e.ipv4_addresses new,
                ))
                v.assigned_counted (omega (arith, uses_added ip e new)))
      ]
    ]

PoolIsValid-del :
    (id ip : String) (e : EniIpPool) (a : AddressInfo)
    → PoolIsValid id e
    → lookup string_discrete ip e.ipv4_addresses ≡ some a
    → a.assigned ≡ false
    → PoolIsValid id (with_addresses e (remove string_discrete ip e.ipv4_addresses))
PoolIsValid-del id ip e a v found free = record {
  keyed = v.keyed;
  counted = rw v.counted (ap pos (omega (arith, uses_deleted ip e a found free)));
  distinct = remove-Distinct string_discrete ip e.ipv4_addresses v.distinct;
  addressed = Each-remove string_discrete (λ k a. a.address ≡ k) ip e.ipv4_addresses v.addressed;
}

pub del_ipv4_address_from_store-IsValid :
    (ds : DataStore) (id ip : String)
    → IsValid ds
    → IsValid (del_ipv4_address_from_store ds id ip).0
unfolding del_ipv4_address_from_store
del_ipv4_address_from_store-IsValid ds id ip v =
    elim (Option-cases (lookup string_discrete id ds.eni_ip_pools)) [
      | inl missing ↦ rw (missing, del_ipv4_address_from_store) v
      | inr (e, found) ↦ elim (Option-cases (lookup string_discrete ip e.ipv4_addresses)) [
        | inl gone ↦ rw (found, gone, del_ipv4_address_from_store) v
        | inr (a, has) ↦ elim (Bool-cases a.assigned) [
          | inl used ↦ rw (found, has, used, del_ipv4_address_from_store) v
          | inr free ↦
              rw (found, has, free, del_ipv4_address_from_store)
                (replace-IsValid ds _ id e _ v found
                  (PoolIsValid-del id ip e a
                    (Each-lookup string_discrete PoolIsValid id e ds.eni_ip_pools v.pools found) has
                    free)
                  refl v.pods_distinct
                  (ap (λ z. z -ℤ pos 1) v.total_counted
                    ∙ pos--ℤ _ _ (one_address ds id ip e a found has))
                  (omega (
                    arith,
                    length-remove string_discrete ip a e.ipv4_addresses has,
                    one_address ds id ip e a found has,
                  ))
                  v.assigned_counted (omega (arith, uses_deleted ip e a has free)))
        ]
      ]
    ]
