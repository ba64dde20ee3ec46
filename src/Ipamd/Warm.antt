-- ===== src/Ipamd/Warm.antt =====
-- ipamd/ipamd.go: shrinking the pool, against the warm target.
use amazon_vpc_cni_k8s.Prelude.{
  ℤ, pos, pos_part, ◌≤ℤ◌, ◌+ℤ◌, ◌-ℤ◌, ltb_ℤ, String, string_discrete, ◌≡◌, refl, inl, inr, ◌&&◌,
  some, List, [], ◌∷◌, Dict, lookup, length, take, length-take-le, +ℤ_parts, arith, Option-cases,
  Bool-cases, ◌∙◌,
}
use amazon_vpc_cni_k8s.Ipamd.Limits.{ip_target_state_lem}
use amazon_vpc_cni_k8s.Datastore.{
  get_pod_infos, DataStore, EniIpPool, del_ipv4_address_from_store, get_eni_infos,
}
use amazon_vpc_cni_k8s.Ipamd.{
  IpamContext, Env, ◌>>=◌, pure, gets, call, on_store, modify, available, ip_target_state, min,
  freeable_ips, delete_ips, unassign_ips_from, unassign_loop, try_unassign_ips_from_all,
  cooldown_add, allocated_ips, used_ips, difference,
}

-- One deletion takes at most one free address away.
del-available :
    (ds : DataStore) (eni ip : String)
    → let ds' = (del_ipv4_address_from_store ds eni ip).0 in
      ds.total -ℤ ds.assigned ≤ℤ ds'.total -ℤ ds'.assigned +ℤ pos 1
unfolding del_ipv4_address_from_store ◌-ℤ◌ ◌+ℤ◌
del-available ds eni ip = ground arith

take_min :
    (over : ℤ) (l : List String)
    → pos 0 ≤ℤ over
    → pos (length (take (pos_part (min over (pos (length l)))) l)) ≤ℤ over
take_min over l h = ground (arith, length-take-le (pos_part (min over (pos (length l)))) l)

module _ {W : Type 0} where
  delete_ips-available :
      (eni : String) (ips : List String) (c : IpamContext W)
      → let c' = (delete_ips eni ips c).1 in
        (c'.warm_ip_target ≡ c.warm_ip_target) × (available c ≤ℤ available c' +ℤ pos (length ips))
  unfolding delete_ips ◌>>=◌ on_store pure available
  delete_ips-available eni [] c = (refl, omega (arith, +ℤ_parts))
  delete_ips-available eni (ip ∷ ips) c =
      let later =
        delete_ips-available eni ips
          (record c { data_store = (del_ipv4_address_from_store c.data_store eni ip).0 }) in
      (later.0, omega (arith, +ℤ_parts, later.1, del-available c.data_store eni ip))

  freeable_ips-over :
      (c : IpamContext W) (eni : String) (ips : List String)
      → freeable_ips c eni ≡ some ips
      → pos (length ips) ≤ℤ (ip_target_state c).over
  unfolding freeable_ips
  freeable_ips-over c eni ips h =
      elim (Option-cases (lookup string_discrete eni (get_eni_infos c.data_store).eni_ip_pools)) [
        | inl missing ↦ absurd (ground arith)
        | inr (pool, found) ↦
            let ips_left =
              difference (allocated_ips pool.ipv4_addresses)
                (used_ips (get_pod_infos c.data_store)) in
            let taken = take_min (ip_target_state c).over ips_left (ip_target_state_lem c).1 in
            let shape : some
                  (take (pos_part (min (ip_target_state c).over (pos (length ips_left)))) ips_left)
                ≡ some ips =
              rw (found, freeable_ips) at h in
            ground (arith, taken, shape)
      ]

  -- The target is kept and the free addresses reach it.
  abbrev pub Reaches : ℤ → IpamContext W → Type 0
  Reaches t c = (c.warm_ip_target ≡ t) × (t ≤ℤ available c)

  over_spare :
      (t : ℤ) (c : IpamContext W) → Reaches t c → t +ℤ (ip_target_state c).over ≤ℤ available c
  unfolding ip_target_state ◌+ℤ◌ ◌-ℤ◌
  over_spare t c r = ground arith

  deleted-Reaches :
      (t : ℤ) (eni : String) (ips : List String) (c : IpamContext W)
      → Reaches t c
      → freeable_ips c eni ≡ some ips
      → Reaches t (delete_ips eni ips c).1
  deleted-Reaches t eni ips c r h =
      let (same_target, lost) = delete_ips-available eni ips c in
      (
        same_target ∙ r.0,
        omega (arith, +ℤ_parts, lost, over_spare t c r, freeable_ips-over c eni ips h),
      )

module _ {W : Type 0} (env : Env W) where
  unassign_ips_from-Reaches :
      (t : ℤ) (eni : String) (c : IpamContext W)
      → Reaches t c
      → Reaches t (unassign_ips_from env eni c).1
  unfolding unassign_ips_from ◌>>=◌ gets pure call modify cooldown_add available
  unassign_ips_from-Reaches t eni c r = elim (Option-cases (freeable_ips c eni)) [
    | inl missing ↦ rw (missing, unassign_ips_from, ◌>>=◌, gets) r
    | inr ([], nothing) ↦ rw (nothing, unassign_ips_from, ◌>>=◌, gets) r
    | inr (ip ∷ ips, some_ips) ↦
        let kept = deleted-Reaches t eni (ip ∷ ips) c r some_ips in
        rw (some_ips, unassign_ips_from, ◌>>=◌, gets) kept
  ]

  unassign_loop-Reaches :
      (t : ℤ) (pools : Dict String EniIpPool) (c : IpamContext W)
      → Reaches t c
      → Reaches t (unassign_loop env pools c).1
  unfolding unassign_loop ◌>>=◌ pure
  unassign_loop-Reaches t [] c r = r
  unassign_loop-Reaches t ((eni, pool) ∷ rest) c r =
      let next = unassign_ips_from-Reaches t eni c r in
      elim (Bool-cases (unassign_ips_from env eni c).0) [
        | inl more ↦
            rw (more, unassign_loop, ◌>>=◌)
              (unassign_loop-Reaches t rest (unassign_ips_from env eni c).1 next)
        | inr stop ↦ rw (stop, unassign_loop, ◌>>=◌) next
      ]

  -- When the free addresses reach the warm target, they still do after `tryUnassignIPsFromAll`,
  -- whatever EC2 answers.
  pub try_unassign-Reaches :
      (t : ℤ) (c : IpamContext W) → Reaches t c → Reaches t (try_unassign_ips_from_all env c).1
  unfolding try_unassign_ips_from_all ◌>>=◌ gets pure
  try_unassign-Reaches t c r =
      elim (Bool-cases ((ip_target_state c).enabled && ltb_ℤ (pos 0) (ip_target_state c).over)) [
        | inl wanted ↦
            rw wanted (unassign_loop-Reaches t (get_eni_infos c.data_store).eni_ip_pools c r)
        | inr idle ↦ rw idle r
      ]
