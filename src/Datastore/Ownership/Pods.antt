-- ===== src/Datastore/Ownership/Pods.antt =====
-- Giving an address to a pod and taking it back, as seen by the map of the pods.
use amazon_vpc_cni_k8s.Prelude.{
  ℕ, ◌+◌, ◌≤◌, ◌⊎◌, total_of-lookup, pos, ◌+ℤ◌, ◌-ℤ◌, String, string_discrete, ◌≡◌, ◌≢◌, refl, ◌∙◌,
  sym, inl, inr, true, false, none, some, Instant, Dict, insert, lookup, Each, arith, Option-cases,
  Each-lookup, Each-insert, total_of-insert_new, total_of-insert_old, total_of-remove,
  lookup-insert, if◌then◌else◌,
}
use amazon_vpc_cni_k8s.Datastore.{
  AddressInfo, EniIpPool, DataStore, K8sPodInfo, PodKey, PodIpInfo, Slot, pod_key, pod_key_discrete,
  same, find_slot, find_assigned, occupy, increment_assigned_count, take_slot, release_slot,
  assign_pod_ipv4_address, assign_pod_ipv4_address_unsafe, unassign_pod_ipv4_address,
}
use amazon_vpc_cni_k8s.Datastore.Invariant.{IsValid, PoolIsValid}
use amazon_vpc_cni_k8s.Datastore.Invariant.Slots.{IsIn, find_slot_lem, find_assigned_lem}
use amazon_vpc_cni_k8s.Datastore.Invariant.Assign.{
  address_kept, assign_pod_ipv4_address-IsValid, unassign_pod_ipv4_address-IsValid,
}
use amazon_vpc_cni_k8s.Datastore.Ownership.{pods_with, holds, held_on, held, IsBacked}
use amazon_vpc_cni_k8s.Datastore.Ownership.Addresses.{Unnamed}

abbrev pub is_for : String → PodIpInfo → ℕ
is_for ip info = if same info.ip ip then 1 else 0

-- The store in which a slot's address is written back.
abbrev written : Slot → EniIpPool → AddressInfo → DataStore → Dict String EniIpPool
written slot e a ds =
    insert string_discrete slot.eni_key
      (record e { ipv4_addresses = insert string_discrete slot.addr_key a slot.eni.ipv4_addresses })
      ds.eni_ip_pools

-- How the marks for an address change.
written-held :
    (ds : DataStore) (slot : Slot) (e : EniIpPool) (a : AddressInfo) (ip : String)
    → IsIn ds.eni_ip_pools slot
    → held ip (written slot e a ds) + holds ip slot.addr ≡ held ip ds.eni_ip_pools + holds ip a
written-held ds slot e a ip at = omega (
  arith,
  total_of-insert_old string_discrete (held_on ip) slot.eni_key
      (record e { ipv4_addresses = insert string_discrete slot.addr_key a slot.eni.ipv4_addresses })
      slot.eni ds.eni_ip_pools at.eni_found,
  total_of-insert_old string_discrete (holds ip) slot.addr_key a slot.addr slot.eni.ipv4_addresses
      at.addr_found,
)

written-named :
    (ds : DataStore) (slot : Slot) (e : EniIpPool) (a : AddressInfo)
    → IsBacked ds
    → IsIn ds.eni_ip_pools slot
    → Each Unnamed (written slot e a ds)
written-named ds slot e a b at =
    Each-insert string_discrete Unnamed slot.eni_key
      (record e { ipv4_addresses = insert string_discrete slot.addr_key a slot.eni.ipv4_addresses })
      ds.eni_ip_pools
      (ground (
        arith,
        lookup-insert string_discrete slot.addr_key "" a slot.eni.ipv4_addresses,
        Each-lookup string_discrete Unnamed slot.eni_key slot.eni ds.eni_ip_pools b.named
            at.eni_found,
      ))
      b.named

-- The key that leads to an address is the address.
pub slot_addressed :
    (ds : DataStore) (slot : Slot)
    → IsValid ds
    → IsIn ds.eni_ip_pools slot
    → slot.addr.address ≡ slot.addr_key
slot_addressed ds slot v at =
    let e_valid =
      Each-lookup string_discrete PoolIsValid slot.eni_key slot.eni ds.eni_ip_pools v.pools
        at.eni_found in
    address_kept slot.eni_key slot.eni slot.addr e_valid slot.addr_key at.addr_found

pub slot_named :
    (ds : DataStore) (slot : Slot)
    → IsBacked ds
    → IsIn ds.eni_ip_pools slot
    → (slot.addr.address ≡ slot.addr_key) × (slot.addr.address ≢ "")
slot_named ds slot b at =
    let unnamed =
      Each-lookup string_discrete Unnamed slot.eni_key slot.eni ds.eni_ip_pools b.named
        at.eni_found in
    let named = slot_addressed ds slot b.valid at in
    (
      named,
      λ empty.
          let key_empty : slot.addr_key ≡ "" = sym named ∙ empty in
          let absent : lookup string_discrete slot.addr_key slot.eni.ipv4_addresses ≡ none =
            rw key_empty unnamed in
          ground (arith, at.addr_found),
    )

-- The request names no address, or one that no pod has.
abbrev pub AsksFree : DataStore → K8sPodInfo → Type 0
AsksFree ds pod = (pod.ip ≡ "") ⊎ (pods_with pod.ip ds.pods_ip ≡ 0)

pub slot_held :
    (ds : DataStore) (slot : Slot) (ip : String)
    → IsIn ds.eni_ip_pools slot
    → holds ip slot.addr ≤ held ip ds.eni_ip_pools
slot_held ds slot ip at = omega (
  arith,
  total_of-lookup string_discrete (held_on ip) slot.eni_key slot.eni ds.eni_ip_pools at.eni_found,
  total_of-lookup string_discrete (holds ip) slot.addr_key slot.addr slot.eni.ipv4_addresses
      at.addr_found,
)

-- Such a request takes a free address.
pub free_slot :
    (ds : DataStore) (pod : K8sPodInfo) (now : Instant) (slot : Slot)
    → IsBacked ds
    → AsksFree ds pod
    → find_slot pod.ip now ds.eni_ip_pools ≡ some slot
    → IsIn ds.eni_ip_pools slot × (slot.addr.assigned ≡ false)
free_slot ds pod now slot b asks found =
    let (at, suits) =
      find_slot_lem pod.ip now ds.eni_ip_pools slot b.valid.distinct b.valid.pools found in
    (
      at,
      elim asks [
        | inl any ↦ ground (arith, slot_named ds slot b at)
        | inr none_has ↦ ground (arith, slot_held ds slot pod.ip at, b.backed pod.ip)
      ],
    )

pub occupy_free :
    (ds : DataStore) (slot : Slot)
    → slot.addr.assigned ≡ false
    → occupy ds slot ≡ increment_assigned_count ds slot
unfolding occupy
occupy_free ds slot free = ground arith

abbrev pub entry : Slot → PodIpInfo
entry slot = record { ip = slot.addr.address; device_number = slot.eni.device_number }

pub taken-backed :
    (ds : DataStore) (key : PodKey) (slot : Slot) (ip : String)
    → pods_with ip ds.pods_ip ≡ held ip ds.eni_ip_pools
    → IsIn ds.eni_ip_pools slot
    → slot.addr.assigned ≡ false
    → lookup pod_key_discrete key ds.pods_ip ≡ none
    → pods_with ip (insert pod_key_discrete key (entry slot) ds.pods_ip)
      ≡ held ip (increment_assigned_count ds slot).eni_ip_pools
unfolding increment_assigned_count
taken-backed ds key slot ip b at free new = ground (
  arith,
  b,
  written-held ds slot
      (record (slot.eni) { assigned_ipv4_addresses = slot.eni.assigned_ipv4_addresses +ℤ pos 1 })
      (record (slot.addr) { assigned = true }) ip at,
  total_of-insert_new pod_key_discrete (is_for ip) key (entry slot) ds.pods_ip new,
)

taken-named :
    (ds : DataStore) (slot : Slot)
    → IsBacked ds
    → IsIn ds.eni_ip_pools slot
    → Each Unnamed (increment_assigned_count ds slot).eni_ip_pools
unfolding increment_assigned_count
taken-named ds slot b at =
    written-named ds slot
      (record (slot.eni) { assigned_ipv4_addresses = slot.eni.assigned_ipv4_addresses +ℤ pos 1 })
      (record (slot.addr) { assigned = true }) b at

pub increment-pods :
    (ds : DataStore) (slot : Slot) → (increment_assigned_count ds slot).pods_ip ≡ ds.pods_ip
unfolding increment_assigned_count
increment-pods ds slot = refl

pub assign-IsBacked :
    (ds : DataStore) (pod : K8sPodInfo) (now : Instant)
    → AsksFree ds pod
    → IsBacked ds
    → IsBacked (assign_pod_ipv4_address ds pod now).0
unfolding assign_pod_ipv4_address assign_pod_ipv4_address_unsafe take_slot
assign-IsBacked ds pod now asks b =
    elim (Option-cases (lookup pod_key_discrete (pod_key pod) ds.pods_ip)) [
      | inr (info, known) ↦ rw (known, assign_pod_ipv4_address) (ground arith)
      | inl new ↦ elim (Option-cases (find_slot pod.ip now ds.eni_ip_pools)) [
        | inl full ↦ rw (new, full, assign_pod_ipv4_address, assign_pod_ipv4_address_unsafe) b
        | inr (slot, found) ↦
            let (at, free) = free_slot ds pod now slot b asks found in
            let v = assign_pod_ipv4_address-IsValid ds pod now b.valid in
            rw (new, found, assign_pod_ipv4_address, assign_pod_ipv4_address_unsafe)
              (record {
                valid =
                    rw (new, found, assign_pod_ipv4_address, assign_pod_ipv4_address_unsafe) at v;
                named = rw (occupy_free ds slot free) (taken-named ds slot b at);
                backed = λ ip.
                    rw (occupy_free ds slot free, increment-pods ds slot)
                      (taken-backed ds (pod_key pod) slot ip (b.backed ip) at free new);
              })
      ]
    ]

released-backed :
    (ds : DataStore) (key : PodKey) (info : PodIpInfo) (slot : Slot) (now : Instant) (ip : String)
    → IsBacked ds
    → IsIn ds.eni_ip_pools slot
    → slot.addr.assigned ≡ true
    → slot.addr_key ≡ info.ip
    → lookup pod_key_discrete key ds.pods_ip ≡ some info
    → pods_with ip (release_slot ds key slot now).pods_ip
      ≡ held ip (release_slot ds key slot now).eni_ip_pools
unfolding release_slot
released-backed ds key info slot now ip b at used same_ip known = ground (
  arith,
  b.backed ip,
  slot_named ds slot b at,
  written-held ds slot
      (record (slot.eni) {
        assigned_ipv4_addresses = slot.eni.assigned_ipv4_addresses -ℤ pos 1;
        last_unassigned_time = now;
      })
      (record (slot.addr) { assigned = false; unassigned_time = now }) ip at,
  total_of-remove pod_key_discrete (is_for ip) key info ds.pods_ip known,
)

released-named :
    (ds : DataStore) (key : PodKey) (slot : Slot) (now : Instant)
    → IsBacked ds
    → IsIn ds.eni_ip_pools slot
    → Each Unnamed (release_slot ds key slot now).eni_ip_pools
unfolding release_slot
released-named ds key slot now b at =
    written-named ds slot
      (record (slot.eni) {
        assigned_ipv4_addresses = slot.eni.assigned_ipv4_addresses -ℤ pos 1;
        last_unassigned_time = now;
      })
      (record (slot.addr) { assigned = false; unassigned_time = now }) b at

pub unassign-IsBacked :
    (ds : DataStore) (pod : K8sPodInfo) (now : Instant)
    → IsBacked ds
    → IsBacked (unassign_pod_ipv4_address ds pod now).0
unfolding unassign_pod_ipv4_address
unassign-IsBacked ds pod now b =
    elim (Option-cases (lookup pod_key_discrete (pod_key pod) ds.pods_ip)) [
      | inl unknown ↦ rw (unknown, unassign_pod_ipv4_address) b
      | inr (info, known) ↦ elim (Option-cases (find_assigned info.ip ds.eni_ip_pools)) [
        | inl lost ↦ rw (known, lost, unassign_pod_ipv4_address) b
        | inr (slot, found) ↦
            let (at, same_ip, used) =
              find_assigned_lem info.ip ds.eni_ip_pools slot b.valid.distinct found in
            let v = unassign_pod_ipv4_address-IsValid ds pod now b.valid in
            rw (known, found, unassign_pod_ipv4_address)
              (record {
                valid = rw (known, found, unassign_pod_ipv4_address) at v;
                named = released-named ds (pod_key pod) slot now b at;
                backed =
                    λ ip. released-backed ds (pod_key pod) info slot now ip b at used same_ip known;
              })
      ]
    ]
