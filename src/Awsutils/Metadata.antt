-- ===== src/Awsutils/Metadata.antt =====
-- pkg/awsutils/awsutils.go: what the client reads from the metadata service.
use Prim.Native.String
use amazon_vpc_cni_k8s.Prelude.{
  ◌==◌, ℤ, pos, ◌+ℤ◌, String, true, false, Option, none, some, List, [], ◌∷◌, ◌++◌, if◌then◌else◌,
  fields, split_on, parse_int, same,
}
use amazon_vpc_cni_k8s.Awsutils.Client.{
  Cache, EniMetadata, Ec2, Action, ◌>>=◌, pure, fail, must, other_error,
}

infixr 65 ◌+S◌
abbrev ◌+S◌ : String → String → String
s +S t = String.◌++◌ s t

abbrev pub metadata_mac_path : String
metadata_mac_path = "network/interfaces/macs/"

abbrev first_or_empty : List String → String
first_or_empty [] = ""
first_or_empty (s ∷ _) = s

-- `strings.Split(s, "/")[0]`
unfoldable pub before_slash : String → String
before_slash s = first_or_empty (split_on (λ c. c == b'/') s)

-- An error of the parser ends the method.
unfoldable pub parsed : {W : Type 0} → Option ℤ → Action W ℤ
parsed none = fail other_error
parsed (some n) = pure n

module _ {W : Type 0} (ec2 : Ec2 W) where
  -- A value of one interface.
  abbrev pub of_mac : String → String → Action W String
  of_mac mac item = must (ec2.get_metadata (metadata_mac_path +S mac +S item))

  -- `0` is for the primary ENI; the others' numbers are shifted by one.
  unfoldable pub get_eni_device_number : Cache → String → Action W (String × ℤ)
  unfolding parsed
  get_eni_device_number cache eni_mac = do
    device ← of_mac eni_mac "/device-number/"
    device_num ← parsed (parse_int 32 device)
    eni ← of_mac eni_mac "/interface-id/"
    pure (eni, if same cache.primary_eni eni then pos 0 else device_num +ℤ pos 1)

  unfoldable pub get_ips_and_cidr : String → Action W (List String × String)
  unfolding fields
  get_ips_and_cidr eni_mac = do
    cidr ← of_mac eni_mac "/subnet-ipv4-cidr-block"
    ipv4s ← of_mac eni_mac "/local-ipv4s"
    pure (fields ipv4s, cidr)

  unfoldable pub get_eni_metadata : Cache → String → Action W EniMetadata
  unfolding get_eni_device_number get_ips_and_cidr
  get_eni_metadata cache mac_str = do
    device ← get_eni_device_number cache (before_slash mac_str)
    ips ← get_ips_and_cidr (before_slash mac_str)
    pure (record {
      eni_id = device.0;
      mac = before_slash mac_str;
      device_number = device.1;
      subnet_ipv4_cidr = ips.1;
      local_ipv4s = ips.0;
    })

  -- The loop of `GetAttachedENIs`: one failure ends it.
  unfoldable pub enis_of : Cache → List String → Action W (List EniMetadata)
  enis_of cache [] = pure []
  enis_of cache (mac_str ∷ rest) =
      get_eni_metadata cache mac_str >>= λ m. enis_of cache rest >>= λ ms. pure (m ∷ ms)

  unfoldable pub get_attached_enis : Cache → Action W (List EniMetadata)
  unfolding enis_of
  get_attached_enis cache = do
    macs ← must (ec2.get_metadata metadata_mac_path)
    enis_of cache (fields macs)

  -- The owner is asked for once.
  unfoldable pub account_of : String → String → Action W String
  account_of account eni_mac = if same account "" then of_mac eni_mac "/owner-id" else pure account

  -- The loop of `setPrimaryENI`: the name of the primary ENI and the account.
  unfoldable pub find_primary : String → String → List String → Action W (String × String)
  unfolding account_of
  find_primary primary_mac account [] = fail other_error
  find_primary primary_mac account (eni_mac ∷ rest) = of_mac eni_mac "/device-number/" >>= λ device.
      parsed (parse_int 32 device) >>= λ _. account_of account eni_mac >>= λ owner.
      of_mac eni_mac "/interface-id/" >>= λ eni. elim (same primary_mac (before_slash eni_mac)) [
        | true ↦ pure (eni, owner)
        | false ↦ find_primary primary_mac owner rest
      ]

  unfoldable pub set_primary_eni : Cache → Action W Cache
  unfolding find_primary
  set_primary_eni cache =
      if same cache.primary_eni ""
      then (do
        macs ← must (ec2.get_metadata metadata_mac_path)
        found ← find_primary cache.primary_eni_mac cache.account_id (fields macs)
        pure (record cache { primary_eni = found.0; account_id = found.1 }))
      else pure cache

  unfoldable pub init_with_ec2_metadata : Cache → Action W Cache
  unfolding set_primary_eni
  init_with_ec2_metadata cache = do
    az ← must (ec2.get_metadata "placement/availability-zone/")
    local_ip ← must (ec2.get_metadata "local-ipv4")
    instance_id ← must (ec2.get_metadata "instance-id")
    instance_type ← must (ec2.get_metadata "instance-type")
    mac ← must (ec2.get_metadata "mac")
    c ← set_primary_eni (record cache {
      availability_zone = az;
      local_ipv4 = local_ip;
      instance_id = instance_id;
      instance_type = instance_type;
      primary_eni_mac = mac;
    })
    groups ← of_mac mac "/security-group-ids/"
    subnet ← of_mac mac "/subnet-id/"
    cidr ← of_mac mac "/vpc-ipv4-cidr-block/"
    cidrs ← of_mac mac "/vpc-ipv4-cidr-blocks/"
    pure (record c {
      security_groups = c.security_groups ++ fields groups;
      subnet_id = subnet;
      vpc_ipv4_cidr = cidr;
      vpc_ipv4_cidrs = c.vpc_ipv4_cidrs ++ fields cidrs;
    })
