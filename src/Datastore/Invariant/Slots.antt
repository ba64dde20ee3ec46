-- ===== src/Datastore/Invariant/Slots.antt =====
-- What the loops of `assignPodIPv4AddressUnsafe` and `UnassignPodIPv4Address` find.
use amazon_vpc_cni_k8s.Prelude.{
  String, string_discrete, ◌≡◌, ◌⊎◌, true, false, some, [], ◌∷◌, Instant, Dict, lookup, Distinct,
  Each, arith,
}
use amazon_vpc_cni_k8s.Datastore.{
  AddressInfo, EniIpPool, Slot, find_address, find_slot, find_assigned, is_cooled,
}
use amazon_vpc_cni_k8s.Datastore.Invariant.{PoolIsValid}

-- The slot's keys lead to its ENI and to its address.
pub record IsIn (pools : Dict String EniIpPool) (slot : Slot) : Type 0 where
  pub eni_found : lookup string_discrete slot.eni_key pools ≡ some slot.eni
  pub addr_found : lookup string_discrete slot.addr_key slot.eni.ipv4_addresses ≡ some slot.addr

-- Why the loop stops: the address that the caller names, or a free one that has cooled down.
abbrev pub Suits : String → Instant → AddressInfo → Type 0
Suits ip now a = (ip ≡ a.address) ⊎ ((a.assigned ≡ false) × (ip ≡ "") × (is_cooled now a ≡ true))

find_address_lem :
    (ip : String) (now : Instant) (m : Dict String AddressInfo) (k : String) (a : AddressInfo)
    → Distinct string_discrete m
    → find_address ip now m ≡ some (k, a)
    → (lookup string_discrete k m ≡ some a) × Suits ip now a
unfolding find_address lookup
find_address_lem ip now [] k a d h = cc
find_address_lem ip now ((j, b) ∷ m) k a d h = ground (arith, find_address_lem ip now m k a d.1)

pub find_slot_lem :
    (ip : String) (now : Instant) (pools : Dict String EniIpPool) (slot : Slot)
    → Distinct string_discrete pools
    → Each PoolIsValid pools
    → find_slot ip now pools ≡ some slot
    → IsIn pools slot × Suits ip now slot.addr
unfolding find_slot lookup
find_slot_lem ip now [] slot d v h = cc
find_slot_lem ip now ((key, eni) ∷ pools) slot d v h = ground (
  arith,
  find_slot_lem ip now pools slot d.1 v.1,
  find_address_lem ip now eni.ipv4_addresses slot.addr_key slot.addr v.0.distinct,
)

pub find_assigned_lem :
    (ip : String) (pools : Dict String EniIpPool) (slot : Slot)
    → Distinct string_discrete pools
    → find_assigned ip pools ≡ some slot
    → IsIn pools slot × (slot.addr_key ≡ ip) × (slot.addr.assigned ≡ true)
unfolding find_assigned lookup
find_assigned_lem ip [] slot d h = cc
find_assigned_lem ip ((key, eni) ∷ pools) slot d h =
    ground (arith, find_assigned_lem ip pools slot d.1)
