-- ===== src/Awsutils/Release.antt =====
-- pkg/awsutils/awsutils.go: describing an ENI, and giving it back.
use amazon_vpc_cni_k8s.Prelude.{ℕ, zero, suc, String, true, false, none, some, List, [], ◌∷◌}
use amazon_vpc_cni_k8s.Awsutils.Client.{
  Ec2, Ec2Address, NetworkInterface, not_found, describe_failed, interfaces, ok, failed, crashed,
  Action, ◌>>=◌, ◌>>◌, pure, fail, crash, call, rest, eni_not_found, other_error,
  max_eni_delete_retries, retry_delete_eni_internal,
}

-- `result.NetworkInterfaces[0]`, with its attachment.
unfoldable pub first_interface :
    {W : Type 0} → List NetworkInterface → Action W (List Ec2Address × String)
first_interface [] = crash
first_interface (i ∷ _) = elim i.attachment [
  | none ↦ crash
  | some id ↦ pure (i.private_ip_addresses, id)
]

module _ {W : Type 0} (ec2 : Ec2 W) where
  unfoldable pub describe_eni : String → Action W (List Ec2Address × String)
  unfolding first_interface
  describe_eni eni = call (ec2.describe_network_interfaces eni) >>= λ answer. elim answer [
    | not_found ↦ fail eni_not_found
    | describe_failed ↦ fail other_error
    | interfaces l ↦ first_interface l
  ]

  -- The attempts of `deleteENI`, as many as are left; each failure is followed by a pause.
  unfoldable pub delete_rounds : ℕ → ℕ → String → Action W (Unit {0})
  delete_rounds interval zero eni = fail other_error
  delete_rounds interval (suc left) eni = call (ec2.delete_network_interface eni) >>= λ deleted.
      elim deleted [
        | true ↦ pure tt
        | false ↦ rest (ec2.sleep interval) >> delete_rounds interval left eni
      ]

  unfoldable pub delete_eni : String → ℕ → Action W (Unit {0})
  unfolding delete_rounds
  delete_eni eni interval = delete_rounds interval max_eni_delete_retries eni

  -- The attempts to detach, with those that are left after this one.
  unfoldable pub detach_rounds : ℕ → ℕ → String → Action W (Unit {0})
  detach_rounds interval zero attach_id =
      call (ec2.detach_network_interface attach_id) >>= λ detached. elim detached [
        | true ↦ pure tt
        | false ↦ fail other_error
      ]
  detach_rounds interval (suc left) attach_id =
      call (ec2.detach_network_interface attach_id) >>= λ detached. elim detached [
        | true ↦ pure tt
        | false ↦ rest (ec2.sleep interval) >> detach_rounds interval left attach_id
      ]

  -- `freeENI`. An ENI that EC2 does not know is freed already.
  unfoldable pub free_eni_every : String → ℕ → Action W (Unit {0})
  unfolding describe_eni delete_eni detach_rounds
  free_eni_every eni interval w =
      let d = describe_eni eni w in
      elim d.0 [
        | failed eni_not_found ↦ (ok tt, d.1)
        | failed other_error ↦ (failed other_error, d.1)
        | crashed ↦ (crashed, d.1)
        | ok found ↦
            (detach_rounds interval max_eni_delete_retries found.1 >> delete_eni eni interval) d.1
      ]

  unfoldable pub free_eni : String → Action W (Unit {0})
  unfolding free_eni_every
  free_eni eni = free_eni_every eni retry_delete_eni_internal
