-- ===== src/Awsutils/Alloc.antt =====
-- pkg/awsutils/awsutils.go: making an ENI and attaching it, and the addresses of an ENI.
use Prim.Native.String
use amazon_vpc_cni_k8s.Prelude.{
  ℕ, zero, suc, ◌+◌, ◌==◌, ℤ, pos, negsuc, ltb_ℤ, ltb, String, Bool, true, false, Option, none,
  some, List, [], ◌∷◌, if◌then◌else◌, same,
}
use amazon_vpc_cni_k8s.Awsutils.Client.{
  Cache, Ec2, assigned, limit_exceeded, assign_failed, Action, ◌>>=◌, ◌>>◌, pure, fail, crash, call,
  must, done, attempt, other_error, max_enis, retry_delete_eni_internal,
}
use amazon_vpc_cni_k8s.Awsutils.InstanceType.{get_eni_ip_limit}
use amazon_vpc_cni_k8s.Awsutils.Release.{delete_eni, free_eni}

-- The array of the used device numbers, as the list of the indexes that are set; `none` is a panic,
-- a nil attachment or an index out of the array.
unfoldable pub used_devices : List (Option ℤ) → Option (List ℕ)
used_devices [] = some []
used_devices (none ∷ rest) = none
used_devices (some (negsuc n) ∷ rest) = none
used_devices (some (pos n) ∷ rest) =
    let others = used_devices rest in
    if ltb max_enis n
    then others
    else if n == max_enis
    then none
    else elim others [ none ↦ none | some used ↦ some (n ∷ used) ]

unfoldable pub is_used : ℕ → List ℕ → Bool
is_used n [] = false
is_used n (m ∷ ms) = if n == m then true else is_used n ms

-- The loop over the array, from an index on, with the indexes that are left.
unfoldable pub free_device_from : List ℕ → ℕ → ℕ → Option ℕ
unfolding is_used
free_device_from used i zero = none
free_device_from used i (suc left) =
    let later = free_device_from used (i + 1) left in if is_used i used then later else some i

abbrev pub free_device_among : {W : Type 0} → Option (List ℕ) → Action W ℕ
free_device_among none = crash
free_device_among (some used) = elim (free_device_from used 0 max_enis) [
  | none ↦ fail other_error
  | some i ↦ pure i
]

-- `Reservations[0].Instances[0]`, when there is just one reservation.
unfoldable pub the_instance :
    {W : Type 0} → List (List (List (Option ℤ))) → Action W (List (Option ℤ))
the_instance [] = fail other_error
the_instance ([] ∷ []) = crash
the_instance ((inst ∷ _) ∷ []) = pure inst
the_instance (_ ∷ _ ∷ _) = fail other_error

module _ {W : Type 0} (ec2 : Ec2 W) (cache : Cache) where
  unfoldable pub aws_get_free_device_number : Action W ℕ
  unfolding used_devices free_device_from the_instance
  aws_get_free_device_number = do
    reservations ← must (ec2.describe_instances cache.instance_id)
    inst ← the_instance reservations
    free_device_among (used_devices inst)

  unfoldable pub create_eni : Bool → List String → String → Action W String
  create_eni use_custom_cfg sg subnet = must (
      ec2.create_network_interface (String.◌++◌ "aws-K8S-" cache.instance_id)
        (if use_custom_cfg then sg else cache.security_groups)
        (if use_custom_cfg then subnet else cache.subnet_id))

  -- A failure is only logged. The cluster's name is that of the environment, empty if there is none.
  unfoldable pub tag_eni : String → String → Action W (Unit {0})
  tag_eni cluster_name eni =
      call (
        ec2.create_tags eni (
          ("node.k8s.amazonaws.com/instance_id", cache.instance_id)
          ∷ (if same cluster_name ""
              then []
              else ("cluster.k8s.amazonaws.com/name", cluster_name) ∷ [])))
      >>= λ _. pure tt

  unfoldable pub attach_eni : String → Action W String
  unfolding aws_get_free_device_number
  attach_eni eni = do
    free_device ← aws_get_free_device_number
    must (ec2.attach_network_interface (pos free_device) cache.instance_id eni)

  -- When the attribute cannot be changed, the error that is returned is that of `FreeENI`, by
  -- shadowing: none, when the ENI is freed.
  unfoldable pub delete_on_termination : String → String → Action W String
  delete_on_termination eni attachment_id =
      call (ec2.modify_network_interface_attribute attachment_id eni) >>= λ modified.
      elim modified [ true ↦ pure eni | false ↦ free_eni ec2 eni >> pure "" ]

  unfoldable pub alloc_eni : String → Bool → List String → String → Action W String
  unfolding create_eni tag_eni attach_eni delete_on_termination
  alloc_eni cluster_name use_custom_cfg sg subnet = do
    eni ← create_eni use_custom_cfg sg subnet
    _ ← tag_eni cluster_name eni
    attached ← attempt (attach_eni eni)
    elim attached [
      | none ↦ attempt (delete_eni ec2 eni retry_delete_eni_internal) >>= λ _. fail other_error
      | some attachment_id ↦ delete_on_termination eni attachment_id
    ]

  unfoldable pub alloc_ip_address : String → Action W (Unit {0})
  alloc_ip_address eni = call (ec2.assign_private_ip_addresses eni (pos 1)) >>= λ answer.
      elim answer [
        | assigned ↦ pure tt
        | limit_exceeded ↦ fail other_error
        | assign_failed ↦ fail other_error
      ]

  -- EC2's own limit is no error.
  unfoldable pub assign_addresses : String → ℤ → Action W (Unit {0})
  assign_addresses eni need_ips = call (ec2.assign_private_ip_addresses eni need_ips) >>= λ answer.
      elim answer [
        | assigned ↦ pure tt
        | limit_exceeded ↦ pure tt
        | assign_failed ↦ fail other_error
      ]

  unfoldable pub alloc_ip_addresses : String → ℤ → Action W (Unit {0})
  unfolding assign_addresses
  alloc_ip_addresses eni num_ips = elim (get_eni_ip_limit cache.instance_type) [
    | none ↦ fail other_error
    | some ip_limit ↦
        let need_ips = if ltb_ℤ ip_limit num_ips then ip_limit else num_ips in
        if ltb_ℤ need_ips (pos 1) then pure tt else assign_addresses eni need_ips
  ]

  unfoldable pub dealloc_ip_addresses : String → List String → Action W (Unit {0})
  dealloc_ip_addresses eni ips = done (ec2.unassign_private_ip_addresses eni ips)
