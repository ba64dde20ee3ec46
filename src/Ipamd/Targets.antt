-- ===== src/Ipamd/Targets.antt =====
-- ipamd/ipamd.go: how far the pool is from the warm targets.
use amazon_vpc_cni_k8s.Prelude.{
  ℤ, pos, ◌+ℤ◌, ◌-ℤ◌, ◌*ℤ◌, ltb_ℤ, leb_ℤ, eqb_ℤ, Bool, true, false, ◌&&◌, ◌||◌, if◌then◌else◌,
}
use amazon_vpc_cni_k8s.Datastore.{get_stats}
use amazon_vpc_cni_k8s.Ipamd.Context.{IpamContext}

abbrev pub max : ℤ → ℤ → ℤ
max x y = if ltb_ℤ x y then y else x

abbrev pub min : ℤ → ℤ → ℤ
min x y = if ltb_ℤ y x then y else x

abbrev pub no_warm_ip_target : ℤ
no_warm_ip_target = pos 0

pub record TargetState : Type 0 where
  pub short : ℤ
  pub over : ℤ
  pub enabled : Bool

module _ {W : Type 0} where
  -- The addresses that are free: total - used.
  unfoldable pub available : IpamContext W → ℤ
  unfolding get_stats
  available c = (get_stats c.data_store).0 -ℤ (get_stats c.data_store).1

  unfoldable pub ip_target_state : IpamContext W → TargetState
  unfolding available
  ip_target_state c =
      if eqb_ℤ c.warm_ip_target no_warm_ip_target
      then record { short = pos 0; over = pos 0; enabled = false }
      else record {
        short = max (c.warm_ip_target -ℤ available c) (pos 0);
        over = max (available c -ℤ c.warm_ip_target) (pos 0);
        enabled = true;
      }

  unfoldable pub node_ip_pool_too_low : IpamContext W → Bool
  node_ip_pool_too_low c =
      if (ip_target_state c).enabled
      then ltb_ℤ (pos 0) (ip_target_state c).short
      else ltb_ℤ (available c) (c.max_ips_per_eni *ℤ c.warm_eni_target)
        || (eqb_ℤ c.warm_eni_target (pos 0) && eqb_ℤ (available c) (pos 0))

  unfoldable pub node_ip_pool_too_high : IpamContext W → Bool
  node_ip_pool_too_high c =
      if (ip_target_state c).enabled then ltb_ℤ (pos 0) (ip_target_state c).over else false

  unfoldable pub should_remove_extra_enis : IpamContext W → Bool
  should_remove_extra_enis c =
      if (ip_target_state c).enabled
      then true
      else leb_ℤ ((c.warm_eni_target +ℤ pos 1) *ℤ c.max_ips_per_eni) (available c)
