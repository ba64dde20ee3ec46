-- ===== src/Datastore/Tests.antt =====
-- Runs of ipamd/datastore/data_store.go: one ENI with two addresses, one of them given to a pod.
use amazon_vpc_cni_k8s.Prelude.{
  ℤ, pos, String, string_discrete, ◌≡◌, inl, inr, ◌≢◌, refl, ◌⊎◌, ◌↔◌, true, false, none, some,
  List, [], ◌∷◌, Instant, minute, second, ◌*◌, ◌+◌, ◌<◌, ◌≤◌, ◌≤ℤ◌, ◌-ℤ◌, ◌+ℤ◌, lookup, remove,
  length, arith, time_sub,
}
use amazon_vpc_cni_k8s.Datastore.{
  EniIpPool, PodKey, DataStore, K8sPodInfo, Slot, ok, err, no_available_ip, pod_key,
  pod_key_discrete, new_address, same, assign_pod_ipv4_address, unassign_pod_ipv4_address,
  assign_pod_ipv4_address_unsafe, take_slot, occupy, increment_assigned_count, find_slot,
  find_address, remove_unused_eni_from_store, remove_eni_from_data_store, get_deletable_eni,
  deletable_from, is_deletable, is_too_young, has_ip_in_cooling, has_pods,
}
use amazon_vpc_cni_k8s.Datastore.Invariant.{PoolIsValid, IsValid}
use amazon_vpc_cni_k8s.Datastore.Invariant.Slots.{IsIn}
use amazon_vpc_cni_k8s.Datastore.Invariant.Enis.{IsDisposable}
use amazon_vpc_cni_k8s.Datastore.History.{
  Call, adds_ip, assigns, unassigns, removes_unused, run, run-IsValid,
}
use amazon_vpc_cni_k8s.Datastore.History.Gauges.{InSync, remove_eni-stale}
use amazon_vpc_cni_k8s.Datastore.Search.{AllNamed, NoneSuits, assign_fails_iff, assign_cooled}
use amazon_vpc_cni_k8s.Datastore.WarmTarget.{remove_unused_eni_from_store_safe}
use amazon_vpc_cni_k8s.Datastore.Ownership.{pods_with, IsBacked}
use amazon_vpc_cni_k8s.Datastore.Ownership.Plain.{
  listed, run-IsBacked, unassign_total, assign_exclusive,
}

abbrev web : K8sPodInfo
web = record { name = "web"; namespace = "default"; container = "c1"; ip = ""; uid = "" }

abbrev batch : K8sPodInfo
batch = record { name = "batch"; namespace = "default"; container = "c2"; ip = ""; uid = "" }

-- A day after the zero time.
abbrev pub today : Instant
today = 1440 * minute

abbrev eni_a : EniIpPool
eni_a = record {
  create_time = minute;
  last_unassigned_time = 0;
  is_primary = false;
  id = "eni-a";
  device_number = pos 2;
  assigned_ipv4_addresses = pos 1;
  ipv4_addresses =
      ("10.0.0.1", record { address = "10.0.0.1"; assigned = true; unassigned_time = 0 })
      ∷ ("10.0.0.2", new_address "10.0.0.2")
      ∷ [];
}

abbrev eni_b : EniIpPool
eni_b = record {
  create_time = minute;
  last_unassigned_time = 0;
  is_primary = false;
  id = "eni-b";
  device_number = pos 3;
  assigned_ipv4_addresses = pos 0;
  ipv4_addresses = ("10.0.0.3", new_address "10.0.0.3") ∷ [];
}

-- The pod "web" has the first address.
abbrev pub store : DataStore
store = record {
  total = pos 3;
  assigned = pos 1;
  eni_ip_pools = ("eni-a", eni_a) ∷ ("eni-b", eni_b) ∷ [];
  pods_ip = (pod_key web, record { ip = "10.0.0.1"; device_number = pos 2 }) ∷ [];
  gauges = record { enis = pos 2; total_ips = pos 3; assigned_ips = pos 1 };
}

eni_a-IsValid : PoolIsValid "eni-a" eni_a
unfolding lookup string_discrete
eni_a-IsValid = record {
  keyed = refl;
  counted = refl;
  distinct = (refl, (refl, tt));
  addressed = (refl, (refl, tt));
}

eni_b-IsValid : PoolIsValid "eni-b" eni_b
unfolding lookup string_discrete
eni_b-IsValid = record {
  keyed = refl;
  counted = refl;
  distinct = (refl, tt);
  addressed = (refl, tt);
}

store-IsValid : IsValid store
unfolding lookup string_discrete
store-IsValid = record {
  distinct = (refl, (refl, tt));
  pools = (eni_a-IsValid, (eni_b-IsValid, tt));
  total_counted = refl;
  assigned_counted = refl;
  pods_distinct = (refl, tt);
}

pub store-IsBacked : IsBacked store
unfolding lookup string_discrete
store-IsBacked = record {
  valid = store-IsValid;
  named = (refl, (refl, tt));
  backed = λ ip. ground arith;
}

store-InSync : InSync store
store-InSync = record { enis = refl; total_ips = refl; assigned_ips = refl }

program : Unit {0}
unfolding lookup string_discrete pod_key_discrete remove assign_pod_ipv4_address
    unassign_pod_ipv4_address assign_pod_ipv4_address_unsafe take_slot occupy
    increment_assigned_count find_slot find_address remove_unused_eni_from_store
    remove_eni_from_data_store get_deletable_eni deletable_from is_deletable is_too_young
    has_ip_in_cooling has_pods time_sub
program = tt

-- The second address goes to the pod "batch".
store_gives : (assign_pod_ipv4_address store batch today).1 ≡ ok ("10.0.0.2", pos 2)
unfolding program
store_gives = refl

batch_is_new : lookup pod_key_discrete (pod_key batch) store.pods_ip ≡ none
unfolding lookup pod_key_discrete string_discrete
batch_is_new = refl

web_is_known :
    lookup pod_key_discrete (pod_key web) store.pods_ip
    ≡ some (record { ip = "10.0.0.1"; device_number = pos 2 })
unfolding lookup pod_key_discrete string_discrete
web_is_known = refl

abbrev Differ : String → String → Type 0
Differ s t = s ≢ t

same_apart : (s t : String) → same s t ≡ false → Differ s t
same_apart s t h = λ e. ground arith

texts_apart :
    Differ "10.0.0.1" "10.0.0.2"
    × Differ "10.0.0.1" "10.0.0.3"
    × Differ "10.0.0.2" "10.0.0.3"
    × Differ "10.0.0.1" ""
    × Differ "10.0.0.2" ""
    × Differ "10.0.0.3" ""
unfolding string_discrete
texts_apart = (
  same_apart _ _ refl,
  same_apart _ _ refl,
  same_apart _ _ refl,
  same_apart _ _ refl,
  same_apart _ _ refl,
  same_apart _ _ refl,
)

store-listed : (q : String) → listed q store.eni_ip_pools ≤ 1
store-listed q = ground (arith, texts_apart)

store-AllNamed : AllNamed store
unfolding lookup
store-AllNamed j e k a at has = ground (arith, texts_apart)

assign_exclusive_example :
    (pods_with "10.0.0.2" store.pods_ip ≡ 0)
    × (lookup pod_key_discrete (pod_key batch) (assign_pod_ipv4_address store batch today).0.pods_ip
        ≡ some (record { ip = "10.0.0.2"; device_number = pos 2 }))
assign_exclusive_example =
    assign_exclusive store batch today "10.0.0.2" (pos 2) store-IsBacked store-listed refl
      batch_is_new store_gives

unassign_total_example :
    let r = unassign_pod_ipv4_address store web today in
    (dev : ℤ) × (r.1 ≡ ok ("10.0.0.1", dev))
    × (lookup pod_key_discrete (pod_key web) r.0.pods_ip ≡ none)
    × ((other : PodKey)
        → other ≢ pod_key web
        → lookup pod_key_discrete other r.0.pods_ip ≡ lookup pod_key_discrete other store.pods_ip)
unassign_total_example =
    unassign_total store web today (record { ip = "10.0.0.1"; device_number = pos 2 })
      store-IsBacked web_is_known

abbrev calls : List (Instant × Call)
calls =
    (today, assigns batch)
    ∷ (today, adds_ip "eni-b" "10.0.0.4")
    ∷ (today, unassigns web)
    ∷ (today + minute, removes_unused (pos 1))
    ∷ []

-- A pod asks for an address of the store by its name, before the other calls.
abbrev named_calls : List (Instant × Call)
named_calls = (today, assigns (record batch { name = "job"; ip = "10.0.0.2" })) ∷ calls

run-IsBacked_example : IsBacked (run store named_calls)
unfolding string_discrete
run-IsBacked_example =
    run-IsBacked store named_calls (inr refl, (inl refl, (λ e. cc, (tt, (tt, tt))))) store-IsBacked

run-IsValid_example : IsValid (run store calls)
run-IsValid_example = run-IsValid store calls store-IsValid

assign_fails_iff_example :
    ((assign_pod_ipv4_address store batch today).1 ≡ err no_available_ip) ↔ NoneSuits store "" today
assign_fails_iff_example =
    assign_fails_iff store batch today store-IsValid store-AllNamed batch_is_new

assign_cooled_example :
    (slot : Slot) × IsIn store.eni_ip_pools slot
    × (slot.addr.address ≡ "10.0.0.2")
    × (slot.eni.device_number ≡ pos 2)
    × (slot.addr.assigned ≡ false)
    × (slot.addr.unassigned_time + 30 * second < today)
assign_cooled_example =
    assign_cooled store batch today "10.0.0.2" (pos 2) store-IsValid store-AllNamed batch_is_new
      refl store_gives

-- The ENI without pods goes.
store_frees : (remove_unused_eni_from_store store (pos 1) today).1 ≡ ok "eni-b"
unfolding program ◌+ℤ◌ ◌-ℤ◌
store_frees = refl

remove_unused_eni_from_store_safe_example :
    let r = remove_unused_eni_from_store store (pos 1) today in
    (r ≡ (store, ok ""))
    ⊎ ((e : EniIpPool) × (r.1 ≡ ok e.id)
        × (lookup string_discrete e.id store.eni_ip_pools ≡ some e)
        × IsDisposable store (pos 1) today e
        × (r.0.eni_ip_pools ≡ remove string_discrete e.id store.eni_ip_pools)
        × (pos 1 ≢ pos 0 → pos 1 ≤ℤ r.0.total -ℤ r.0.assigned))
remove_unused_eni_from_store_safe_example =
    remove_unused_eni_from_store_safe store (pos 1) today store-IsValid

remove_eni-stale_example :
    let ds = (remove_eni_from_data_store store "eni-b").0 in
    ds.gauges.total_ips ≡ ds.total +ℤ pos (length eni_b.ipv4_addresses)
unfolding lookup string_discrete
remove_eni-stale_example = remove_eni-stale store "eni-b" eni_b store-IsValid store-InSync refl refl
