-- ===== src/Datastore/Needs.antt =====
-- The choice of `GetENINeedsIP` in ipamd/datastore/data_store.go.
use amazon_vpc_cni_k8s.Prelude.{
  ℤ, pos, ltb_ℤ, String, string_discrete, Bool, true, false, ◌&&◌, ◌≡◌, none, some, [], ◌∷◌, Dict,
  lookup, length, Distinct, Each, arith,
}
use amazon_vpc_cni_k8s.Datastore.{EniIpPool, DataStore, needs_ip_from, get_eni_needs_ip}
use amazon_vpc_cni_k8s.Datastore.Invariant.{PoolIsValid, IsValid}

-- An ENI that has room for an address, and is not a primary one that is to be skipped.
pub record NeedsIp (limit : ℤ) (skip_primary : Bool) (e : EniIpPool) : Type 0 where
  pub has_room : ltb_ℤ (pos (length e.ipv4_addresses)) limit ≡ true
  pub eligible : (skip_primary && e.is_primary) ≡ false

needs_ip_from_sound :
    (limit : ℤ) (skip : Bool) (pools : Dict String EniIpPool) (e : EniIpPool)
    → Distinct string_discrete pools
    → Each PoolIsValid pools
    → needs_ip_from limit skip pools ≡ some e
    → (lookup string_discrete e.id pools ≡ some e) × NeedsIp limit skip e
unfolding needs_ip_from lookup
needs_ip_from_sound limit skip [] e d v h = cc
needs_ip_from_sound limit skip ((key, eni) ∷ pools) e d v h =
    ground (arith, needs_ip_from_sound limit skip pools e d.1 v.1)

needs_ip_from_complete :
    (limit : ℤ) (skip : Bool) (pools : Dict String EniIpPool) (j : String) (e : EniIpPool)
    → needs_ip_from limit skip pools ≡ none
    → lookup string_discrete j pools ≡ some e
    → ¬ NeedsIp limit skip e
unfolding needs_ip_from lookup
needs_ip_from_complete limit skip [] j e h found = λ n. cc
needs_ip_from_complete limit skip ((key, eni) ∷ pools) j e h found =
    λ n. ground (arith, needs_ip_from_complete limit skip pools j e)

-- On a valid store `GetENINeedsIP` answers an ENI of the store that has room for an address and is
-- not a primary one to be skipped; it answers nil only when the store has no such ENI.
pub get_eni_needs_ip_lem :
    (ds : DataStore) (limit : ℤ) (skip : Bool)
    → IsValid ds
    → ((e : EniIpPool)
        → get_eni_needs_ip ds limit skip ≡ some e
        → (lookup string_discrete e.id ds.eni_ip_pools ≡ some e) × NeedsIp limit skip e)
      × (get_eni_needs_ip ds limit skip ≡ none
          → (j : String) (e : EniIpPool) → lookup string_discrete j ds.eni_ip_pools ≡ some e
          → ¬ NeedsIp limit skip e)
unfolding get_eni_needs_ip
get_eni_needs_ip_lem ds limit skip v = (
  λ e h. needs_ip_from_sound limit skip ds.eni_ip_pools e v.distinct v.pools h,
  λ h j e found. needs_ip_from_complete limit skip ds.eni_ip_pools j e h found,
)
