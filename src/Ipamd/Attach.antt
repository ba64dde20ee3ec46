-- ===== src/Ipamd/Attach.antt =====
-- ipamd/ipamd.go: the wait for an ENI in waitENIAttached.
use amazon_vpc_cni_k8s.Prelude.{
  ℕ, zero, suc, String, ◌≡◌, refl, inl, inr, ◌⊎◌, none, some, List, [], ◌∷◌, Option-cases, arith,
}
use amazon_vpc_cni_k8s.Ipamd.{
  IpamContext, Env, EniMetadata, ◌>>=◌, pure, call, pause, attached_now, find_attached, wait_rounds,
  wait_eni_attached, eni_attach_time,
}

find_attached_lem :
    (eni : String) (enis : List EniMetadata) (m : EniMetadata)
    → find_attached eni enis ≡ some m
    → m.eni_id ≡ eni
unfolding find_attached
find_attached_lem eni [] m h = cc
find_attached_lem eni (a ∷ enis) m h = ground (arith, find_attached_lem eni enis m)

module _ {W : Type 0} (env : Env W) where
  -- The states before each look at the metadata service, when none of the looks finds the ENI.
  unfoldable pub after_looks : ℕ → W → W
  after_looks zero w = (env.get_attached_enis w).1
  after_looks (suc n) w = after_looks n (env.sleep eni_attach_time (env.get_attached_enis w).1)

  attached_now_lem :
      (eni : String) (c : IpamContext W) (m : EniMetadata)
      → (attached_now env eni c).0 ≡ some m
      → m.eni_id ≡ eni
  unfolding attached_now ◌>>=◌ call pure
  attached_now_lem eni c m h = elim (Option-cases (env.get_attached_enis c.world).0) [
    | inl failed ↦ absurd (ground arith)
    | inr (enis, answered) ↦ find_attached_lem eni enis m (rw (answered, attached_now, ◌>>=◌) at h)
  ]

  wait_rounds_lem :
      (n : ℕ) (eni : String) (c : IpamContext W)
      → let r = wait_rounds env n eni c in
        (r.1.data_store ≡ c.data_store)
        × (((m : EniMetadata) × (r.0 ≡ some m) × (m.eni_id ≡ eni))
            ⊎ ((r.0 ≡ none) × (r.1.world ≡ after_looks n c.world)))
  unfolding wait_rounds attached_now ◌>>=◌ call pure pause after_looks
  wait_rounds_lem zero eni c = elim (Option-cases (attached_now env eni c).0) [
    | inl missing ↦ (refl, inr (missing, refl))
    | inr (m, found) ↦ (refl, inl (m, found, attached_now_lem eni c m found))
  ]
  wait_rounds_lem (suc n) eni c = elim (Option-cases (attached_now env eni c).0) [
    | inl missing ↦
        rw (missing, wait_rounds, ◌>>=◌)
          (wait_rounds_lem n eni
            (record c { world = env.sleep eni_attach_time (env.get_attached_enis c.world).1 }))
    | inr (m, found) ↦
        rw (found, wait_rounds, ◌>>=◌) (refl, inl (m, refl, attached_now_lem eni c m found))
  ]

  -- `waitENIAttached` leaves the store as it is, and either answers the metadata of the ENI that
  -- was asked for, or gives up after six looks at the metadata service with a pause of
  -- `eniAttachTime` between one and the next.
  pub wait_eni_attached_lem :
      (eni : String) (c : IpamContext W)
      → let r = wait_eni_attached env eni c in
        (r.1.data_store ≡ c.data_store)
        × (((m : EniMetadata) × (r.0 ≡ some m) × (m.eni_id ≡ eni))
            ⊎ ((r.0 ≡ none) × (r.1.world ≡ after_looks 5 c.world)))
  unfolding wait_eni_attached
  wait_eni_attached_lem eni c = wait_rounds_lem 5 eni c
