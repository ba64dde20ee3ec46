-- ===== src/Datastore/Enis.antt =====
-- ipamd/datastore/data_store.go: which ENI can be given back, which needs more addresses, and the
-- removal of an ENI.
use amazon_vpc_cni_k8s.Prelude.{
  pos, ◌+ℤ◌, ◌-ℤ◌, ℤ, ltb_ℤ, eqb_ℤ, String, string_discrete, Bool, false, not, ◌&&◌, if◌then◌else◌,
  Option, none, some, [], ◌∷◌, Dict, remove, lookup, length, Instant, time_sub,
}
use amazon_vpc_cni_k8s.Datastore.Types.{
  EniIpPool, DataStore, Result, ok, err, unknown_eni, eni_in_use, nil_dereference, min_life_time,
  address_eni_cooling_period,
}
use amazon_vpc_cni_k8s.Prelude.{same}

unfoldable pub get_stats : DataStore → ℤ × ℤ
get_stats ds = (ds.total, ds.assigned)

-- The loop's sum of the free addresses on the other ENIs.
unfoldable pub other_warm_ips : String → Dict String EniIpPool → ℤ
other_warm_ips id [] = pos 0
other_warm_ips id ((key, other) ∷ rest) =
    if same other.id id
    then other_warm_ips id rest
    else pos (length other.ipv4_addresses)
      -ℤ other.assigned_ipv4_addresses
      +ℤ other_warm_ips id rest

unfoldable pub is_required_for_warm_ip_target : DataStore → ℤ → EniIpPool → Bool
unfolding other_warm_ips
is_required_for_warm_ip_target ds warm_ip_target eni =
    ltb_ℤ (other_warm_ips eni.id ds.eni_ip_pools) warm_ip_target

unfoldable pub is_too_young : EniIpPool → Instant → Bool
is_too_young e now = ltb_ℤ (time_sub now e.create_time) (pos min_life_time)

unfoldable pub has_ip_in_cooling : EniIpPool → Instant → Bool
has_ip_in_cooling e now =
    ltb_ℤ (time_sub now e.last_unassigned_time) (pos address_eni_cooling_period)

unfoldable pub has_pods : EniIpPool → Bool
has_pods e = not (eqb_ℤ e.assigned_ipv4_addresses (pos 0))

-- One round of the loop: none of the `continue`s is taken.
unfoldable pub is_deletable : DataStore → ℤ → Instant → EniIpPool → Bool
unfolding is_too_young has_ip_in_cooling has_pods is_required_for_warm_ip_target
is_deletable ds warm_ip_target now eni =
    if eni.is_primary
    then false
    else if is_too_young eni now
    then false
    else if has_ip_in_cooling eni now
    then false
    else if has_pods eni
    then false
    else not
        (not (eqb_ℤ warm_ip_target (pos 0)) && is_required_for_warm_ip_target ds warm_ip_target eni)

unfoldable pub deletable_from : DataStore → ℤ → Instant → Dict String EniIpPool → Option EniIpPool
deletable_from ds warm_ip_target now [] = none
deletable_from ds warm_ip_target now ((key, eni) ∷ rest) =
    if is_deletable ds warm_ip_target now eni
    then some eni
    else deletable_from ds warm_ip_target now rest

unfoldable pub get_deletable_eni : DataStore → ℤ → Instant → Option EniIpPool
unfolding deletable_from
get_deletable_eni ds warm_ip_target now = deletable_from ds warm_ip_target now ds.eni_ip_pools

unfoldable pub needs_ip_from : ℤ → Bool → Dict String EniIpPool → Option EniIpPool
needs_ip_from max_ip_per_eni skip_primary [] = none
needs_ip_from max_ip_per_eni skip_primary ((key, eni) ∷ rest) =
    let later = needs_ip_from max_ip_per_eni skip_primary rest in
    if skip_primary && eni.is_primary
    then later
    else if ltb_ℤ (pos (length eni.ipv4_addresses)) max_ip_per_eni
    then some eni
    else later

unfoldable pub get_eni_needs_ip : DataStore → ℤ → Bool → Option EniIpPool
unfolding needs_ip_from
get_eni_needs_ip ds max_ip_per_eni skip_primary =
    needs_ip_from max_ip_per_eni skip_primary ds.eni_ip_pools

-- The empty string means that no ENI could be removed.
unfoldable pub remove_unused_eni_from_store : DataStore → ℤ → Instant → DataStore × Result String
remove_unused_eni_from_store ds warm_ip_target now =
    elim (get_deletable_eni ds warm_ip_target now) [
      | none ↦ (ds, ok "")
      | some deletable ↦ elim (lookup string_discrete deletable.id ds.eni_ip_pools) [
        | none ↦ (ds, err nil_dereference)
        | some pool ↦
            let total = ds.total -ℤ pos (length pool.ipv4_addresses) in
            let pools = remove string_discrete deletable.id ds.eni_ip_pools in
            (
              record ds {
                total = total;
                eni_ip_pools = pools;
                gauges = record (ds.gauges) { enis = pos (length pools); total_ips = total };
              },
              ok deletable.id,
            )
      ]
    ]

unfoldable pub remove_eni_from_data_store : DataStore → String → DataStore × Result (Unit {0})
remove_eni_from_data_store ds eni = elim (lookup string_discrete eni ds.eni_ip_pools) [
  | none ↦ (ds, err unknown_eni)
  | some pool ↦
      if not (eqb_ℤ pool.assigned_ipv4_addresses (pos 0))
      then (ds, err eni_in_use)
      else let pools = remove string_discrete eni ds.eni_ip_pools in
        (
          record ds {
            total = ds.total -ℤ pos (length pool.ipv4_addresses);
            eni_ip_pools = pools;
            gauges = record (ds.gauges) { enis = pos (length pools) };
          },
          ok tt,
        )
]
