-- ===== src/Awsutils/Retries.antt =====
-- pkg/awsutils/awsutils.go: the attempts to delete an ENI, and the clean-up of a new one.
use amazon_vpc_cni_k8s.Prelude.{
  ℕ, zero, suc, ◌<◌, ◌≡◌, refl, ap, ◌∙◌, ◌⊎◌, inl, inr, ◌↔◌, Bool, true, false, List, String, arith,
  Bool-cases,
}
use amazon_vpc_cni_k8s.Prelude.Actions.{>>=-ok, bind_ok, Answer-cases, not_ok, crash_not_ok, ◌>>◌}
use amazon_vpc_cni_k8s.Awsutils.{
  Cache, Ec2, ok, ◌>>=◌, call, rest, pure, fail, attempt, delete_rounds, delete_eni, free_eni,
  free_eni_every, describe_eni, detach_rounds, Ec2Address, eni_not_found, retry_delete_eni_internal,
  failed, other_error, alloc_eni, attach_eni, create_eni, tag_eni, delete_on_termination,
}

module _ {W : Type 0} (ec2 : Ec2 W) where
  -- The state before the attempt after `n` failed ones.
  unfoldable pub after_attempts : ℕ → String → ℕ → W → W
  after_attempts interval eni zero w = w
  after_attempts interval eni (suc n) w =
      after_attempts interval eni n (ec2.sleep interval (ec2.delete_network_interface eni w).1)

  delete_rounds_ok :
      (interval left : ℕ) (eni : String) (w : W)
      → (delete_rounds ec2 interval left eni w).0 ≡ ok tt
      → (n : ℕ) × (n < left)
        × ((ec2.delete_network_interface eni (after_attempts interval eni n w)).0 ≡ true)
  unfolding delete_rounds after_attempts ◌>>=◌ call rest pure fail
  delete_rounds_ok interval zero eni w h = absurd (ground arith)
  delete_rounds_ok interval (suc left) eni w h =
      elim (Bool-cases (ec2.delete_network_interface eni w).0) [
        | inl gone ↦ (0, omega arith, gone)
        | inr kept ↦
            let (n, lt, gone) =
              delete_rounds_ok interval left eni
                (ec2.sleep interval (ec2.delete_network_interface eni w).1)
                (rw (kept, delete_rounds, ◌>>=◌) at h) in
            (suc n, omega arith, gone)
      ]

  delete_rounds_done :
      (interval left n : ℕ) (eni : String) (w : W)
      → n < left
      → (ec2.delete_network_interface eni (after_attempts interval eni n w)).0 ≡ true
      → (delete_rounds ec2 interval left eni w).0 ≡ ok tt
  unfolding delete_rounds after_attempts ◌>>=◌ call rest pure fail
  delete_rounds_done interval zero n eni w lt gone = absurd (omega arith)
  delete_rounds_done interval (suc left) zero eni w lt gone = rw (gone, delete_rounds, ◌>>=◌)
  delete_rounds_done interval (suc left) (suc n) eni w lt gone =
      elim (Bool-cases (ec2.delete_network_interface eni w).0) [
        | inl now ↦ rw (now, delete_rounds, ◌>>=◌)
        | inr kept ↦
            rw (kept, delete_rounds, ◌>>=◌)
              (delete_rounds_done interval left n eni
                (ec2.sleep interval (ec2.delete_network_interface eni w).1) (omega arith) gone)
      ]

  -- `deleteENI` succeeds exactly when EC2 deletes the ENI in one of 20 attempts, each of which comes
  -- a pause after the failure of the one before.
  pub delete_eni_ok_iff :
      (interval : ℕ) (eni : String) (w : W)
      → ((delete_eni ec2 eni interval w).0 ≡ ok tt) ↔ (
          (n : ℕ) × (n < 20)
          × ((ec2.delete_network_interface eni (after_attempts interval eni n w)).0 ≡ true))
  unfolding delete_eni
  delete_eni_ok_iff interval eni w =
      (delete_rounds_ok interval 20 eni w, λ d. delete_rounds_done interval 20 d.0 eni w d.1 d.2)

  -- EC2 does not know the ENI, or it detaches the ENI, and deletes it in one of 20 attempts.
  abbrev pub IsFreed : String → W → Type 0
  IsFreed eni w =
      let d = describe_eni ec2 eni w in
      (d.0 ≡ failed eni_not_found)
      ⊎ ((found : List Ec2Address × String) × (d.0 ≡ ok found)
          × (let detached = detach_rounds ec2 retry_delete_eni_internal 20 found.1 d.1 in
              (detached.0 ≡ ok tt)
              × (n : ℕ) × (n < 20)
              × ((ec2.delete_network_interface eni
                    (after_attempts retry_delete_eni_internal eni n detached.1)).0
                  ≡ true)))

  free_eni-IsFreed : (eni : String) (w : W) → (free_eni ec2 eni w).0 ≡ ok tt → IsFreed eni w
  unfolding free_eni free_eni_every
  free_eni-IsFreed eni w h =
      let d = describe_eni ec2 eni w in
      elim (Answer-cases d.0) [
        | inl (found, known) ↦
            let (u, detached, deleted) =
              >>=-ok (detach_rounds ec2 retry_delete_eni_internal 20 found.1)
                (λ _. delete_eni ec2 eni retry_delete_eni_internal) d.1 tt
                (rw (known, free_eni, free_eni_every, ◌>>◌) at h) in
            let (n, lt, gone) =
              (delete_eni_ok_iff retry_delete_eni_internal eni
                  (detach_rounds ec2 retry_delete_eni_internal 20 found.1 d.1).1).0
                deleted in
            inr (found, known, (detached, n, lt, gone))
        | inr (inl (eni_not_found, unknown)) ↦ inl unknown
        | inr (inl (other_error, e)) ↦ absurd (not_ok _ (rw (e, free_eni, free_eni_every) at h))
        | inr (inr e) ↦ absurd (crash_not_ok (rw (e, free_eni, free_eni_every) at h))
      ]

  IsFreed-free_eni : (eni : String) (w : W) → IsFreed eni w → (free_eni ec2 eni w).0 ≡ ok tt
  unfolding free_eni free_eni_every
  IsFreed-free_eni eni w (inl unknown) = rw (unknown, free_eni, free_eni_every) refl
  IsFreed-free_eni eni w (inr (found, known, (detached, n, lt, gone))) =
      let d = describe_eni ec2 eni w in
      let detach = detach_rounds ec2 retry_delete_eni_internal 20 found.1 in
      rw (known, free_eni, free_eni_every, ◌>>◌)
        (ap (λ r. r.0)
            (bind_ok detach (λ _. delete_eni ec2 eni retry_delete_eni_internal) d.1 tt detached)
          ∙ (delete_eni_ok_iff retry_delete_eni_internal eni (detach d.1).1).1 (n, lt, gone))

  -- EC2 changes the attribute of the new ENI, whose name it is, or it does not, and the name is
  -- empty and the ENI is freed.
  abbrev pub IsNamed : String → String → String → W → Type 0
  IsNamed eni id name w =
      let modified = ec2.modify_network_interface_attribute id eni w in
      ((modified.0 ≡ true) × (name ≡ eni))
      ⊎ ((modified.0 ≡ false) × (name ≡ "") × IsFreed eni modified.1)

  module _ (cache : Cache) where
    delete_on_termination-IsNamed :
        (eni id name : String) (w : W)
        → (delete_on_termination ec2 cache eni id w).0 ≡ ok name
        → IsNamed eni id name w
    unfolding delete_on_termination call ◌>>=◌ ◌>>◌ pure
    delete_on_termination-IsNamed eni id name w h =
        let m = ec2.modify_network_interface_attribute id eni w in
        elim (Bool-cases m.0) [
          | inl changed ↦
              inl (changed, ground (arith, rw (changed, delete_on_termination, ◌>>=◌) at h))
          | inr unchanged ↦
              let (u, freed, named) =
                >>=-ok (free_eni ec2 eni) (λ _. pure "") m.1 name
                  (rw (unchanged, delete_on_termination, ◌>>=◌) at h) in
              inr (unchanged, ground (arith, named), free_eni-IsFreed eni m.1 freed)
        ]

    IsNamed-delete_on_termination :
        (eni id name : String) (w : W)
        → IsNamed eni id name w
        → (delete_on_termination ec2 cache eni id w).0 ≡ ok name
    unfolding delete_on_termination call ◌>>=◌ ◌>>◌ pure
    IsNamed-delete_on_termination eni id name w (inl (changed, q)) =
        rw (changed, q, delete_on_termination, ◌>>=◌) refl
    IsNamed-delete_on_termination eni id name w (inr (unchanged, q, freed)) =
        let m = ec2.modify_network_interface_attribute id eni w in
        let gone = IsFreed-free_eni eni m.1 freed in
        rw (unchanged, q, gone, delete_on_termination, ◌>>=◌) refl

    alloc_eni-IsNamed :
        (cluster : String) (custom : Bool) (sg : List String) (subnet name : String) (w : W)
        → (alloc_eni ec2 cache cluster custom sg subnet w).0 ≡ ok name
        → let created = create_eni ec2 cache custom sg subnet w in
          (eni : String) × (id : String) × (created.0 ≡ ok eni)
          × (let attached = attach_eni ec2 cache eni (tag_eni ec2 cache cluster eni created.1).1 in
              (attached.0 ≡ ok id) × IsNamed eni id name attached.1)
    unfolding alloc_eni ◌>>=◌ attempt pure fail tag_eni call
    alloc_eni-IsNamed cluster custom sg subnet name w h =
        let c = create_eni ec2 cache custom sg subnet w in
        elim (Answer-cases c.0) [
          | inl (eni, created) ↦
              let a = attach_eni ec2 cache eni (tag_eni ec2 cache cluster eni c.1).1 in
              elim (Answer-cases a.0) [
                | inl (id, attached) ↦ (
                  eni,
                  id,
                  created,
                  (
                    attached,
                    delete_on_termination-IsNamed eni id name a.1
                        (rw (created, attached, alloc_eni, ◌>>=◌, attempt) at h),
                  ),
                )
                | inr (inl (x, e)) ↦
                    let (u, deleted, never) =
                      >>=-ok (attempt (delete_eni ec2 eni retry_delete_eni_internal))
                        (λ _. fail other_error) a.1 name
                        (rw (created, e, alloc_eni, ◌>>=◌, attempt) at h) in
                    absurd (not_ok _ never)
                | inr (inr e) ↦
                    absurd (crash_not_ok (rw (created, e, alloc_eni, ◌>>=◌, attempt) at h))
              ]
          | inr (inl (x, e)) ↦ absurd (not_ok x (rw (e, alloc_eni, ◌>>=◌) at h))
          | inr (inr e) ↦ absurd (crash_not_ok (rw (e, alloc_eni, ◌>>=◌) at h))
        ]

  -- `AllocENI` succeeds with a name exactly when EC2 makes and attaches an ENI, and then either
  -- changes its attribute, and the name is that of the ENI, or does not, and the name is empty and
  -- the ENI is gone: EC2 does not know it, or detaches it and deletes it in one of 20 attempts.
  pub alloc_eni_ok_iff :
      (cache : Cache) (cluster : String) (custom : Bool) (sg : List String) (subnet name : String)
      (w : W)
      → let created = create_eni ec2 cache custom sg subnet w in
        ((alloc_eni ec2 cache cluster custom sg subnet w).0 ≡ ok name) ↔ (
          (eni : String) × (id : String) × (created.0 ≡ ok eni)
          × (let attached = attach_eni ec2 cache eni (tag_eni ec2 cache cluster eni created.1).1 in
              (attached.0 ≡ ok id) × IsNamed eni id name attached.1))
  unfolding alloc_eni ◌>>=◌ attempt call pure tag_eni
  alloc_eni_ok_iff cache cluster custom sg subnet name w = (
    alloc_eni-IsNamed cache cluster custom sg subnet name w,
    λ d.
        let (eni, id, created, (attached, named)) = d in
        rw (created, attached, alloc_eni, ◌>>=◌, attempt)
          (IsNamed-delete_on_termination cache eni id name _ named),
  )
