-- ===== src/Ipamd/Release.antt =====
-- ipamd/ipamd.go: what tryFreeENI gives back to EC2.
use amazon_vpc_cni_k8s.Prelude.{
  string_discrete, ◌≡◌, ◌≢◌, refl, ◌⊎◌, inl, inr, Bool-cases, some, lookup, remove, arith,
}
use amazon_vpc_cni_k8s.Datastore.{EniIpPool, same, remove_unused_eni_from_store}
use amazon_vpc_cni_k8s.Datastore.Invariant.{IsValid}
use amazon_vpc_cni_k8s.Datastore.Invariant.Enis.{IsDisposable}
use amazon_vpc_cni_k8s.Datastore.WarmTarget.{remove_unused_eni_from_store_safe}
use amazon_vpc_cni_k8s.Ipamd.{IpamContext, Env, ◌>>=◌, pure, gets, call, on_store, try_free_eni}

module _ {W : Type 0} (env : Env W) where
  -- From a state whose store is valid, `tryFreeENI` either leaves the store as it was and does not
  -- call EC2, or takes exactly one ENI out of the store, which it knew: a secondary one, at least a
  -- minute old, with no address handed back for a minute, with no pods, and with enough free
  -- addresses on the others for the warm target. EC2 is asked to free that ENI, if its name is not
  -- empty, and nothing else.
  pub try_free_eni_safe :
      (c : IpamContext W)
      → IsValid c.data_store
      → let now = env.now c.world in
        let c' = (try_free_eni env c).1 in
        ((c'.data_store ≡ c.data_store) × (c'.world ≡ now.1))
        ⊎ ((e : EniIpPool) × (lookup string_discrete e.id c.data_store.eni_ip_pools ≡ some e)
            × IsDisposable c.data_store c.warm_ip_target now.0 e
            × (c'.data_store.eni_ip_pools ≡ remove string_discrete e.id c.data_store.eni_ip_pools)
            × (e.id ≢ "" → c'.world ≡ (env.free_eni e.id now.1).1))
  unfolding try_free_eni ◌>>=◌ pure gets call on_store string_discrete
  try_free_eni_safe c v =
      let r = remove_unused_eni_from_store c.data_store c.warm_ip_target (env.now c.world).0 in
      elim (remove_unused_eni_from_store_safe c.data_store c.warm_ip_target (env.now c.world).0 v) [
        | inl kept ↦ inl (rw (kept, try_free_eni, ◌>>=◌) (refl, refl))
        | inr (e, named, found, fit, left, spare) ↦ elim (Bool-cases (same e.id "")) [
          | inl empty ↦ inr (
            e,
            found,
            fit,
            rw (named, empty, try_free_eni, ◌>>=◌) left,
            λ ne. absurd (ground arith),
          )
          | inr other ↦ inr (
            e,
            found,
            fit,
            rw (named, other, try_free_eni, ◌>>=◌) left,
            λ ne. rw (named, other, try_free_eni, ◌>>=◌) refl,
          )
        ]
      ]
