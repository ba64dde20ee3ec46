-- ===== src/Awsutils/Tests.antt =====
-- Runs of the limits of pkg/awsutils.
use amazon_vpc_cni_k8s.Prelude.{
  ℕ, suc, ltb, ◌<◌, ℤ, pos, ◌-ℤ◌, ◌≤ℤ◌, ◌≡◌, ◌≢◌, ◌⊎◌, ◌↔◌, refl, true, false, Option, none, some,
  string_discrete, lookup, String, List, [], ◌∷◌, same, if◌then◌else◌, map, All, fields, split_on,
  is_space, non_empty, parse_int, parse_codes, unsigned, number_onto,
}
use amazon_vpc_cni_k8s.Awsutils.Devices.{has_device, free_device_number_lem, device_128_crashes}
use amazon_vpc_cni_k8s.Awsutils.Retries.{
  after_attempts, delete_eni_ok_iff, alloc_eni_ok_iff, IsNamed,
}
use amazon_vpc_cni_k8s.Awsutils.Attached.{get_attached_enis_lem}
use amazon_vpc_cni_k8s.Awsutils.Addresses.{alloc_ip_addresses_bounded}
use amazon_vpc_cni_k8s.Awsutils.{
  Cache, Ec2, EniMetadata, not_found, assigned, ok, failed, crashed, other_error, ◌>>=◌, pure, fail,
  ◌>>◌, call, must, attempt, metadata_mac_path, before_slash, parsed, get_eni_device_number,
  get_ips_and_cidr, get_eni_metadata, enis_of, get_attached_enis, used_devices, is_used,
  free_device_from, the_instance, aws_get_free_device_number, create_eni, tag_eni, attach_eni,
  alloc_eni, free_eni, free_eni_every, describe_eni, delete_on_termination, delete_eni,
  alloc_ip_addresses, get_eni_limit, get_eni_ip_limit, instance_enis_available,
  instance_ips_available, instance_enis_to_m3, instance_enis_from_m4, instance_ips_to_m3,
  instance_ips_from_m4,
}

m5_large : (get_eni_limit "m5.large" ≡ some (pos 3)) × (get_eni_ip_limit "m5.large" ≡ some (pos 9))
unfolding get_eni_limit get_eni_ip_limit lookup string_discrete instance_enis_available
    instance_ips_available instance_enis_to_m3 instance_enis_from_m4 instance_ips_to_m3
    instance_ips_from_m4 ◌-ℤ◌
m5_large = (refl, refl)

abbrev cache : Cache
cache = record {
  security_groups = "sg-1" ∷ [];
  subnet_id = "subnet-1";
  local_ipv4 = "10.0.0.5";
  instance_id = "i-1";
  instance_type = "m5.large";
  vpc_ipv4_cidr = "10.0.0.0/16";
  vpc_ipv4_cidrs = "10.0.0.0/16" ∷ [];
  primary_eni = "eni-a";
  primary_eni_mac = "02:00:00:00:00:0a";
  availability_zone = "us-west-2a";
  region = "us-west-2";
  account_id = "1";
}

abbrev answer_metadata : String → Option String
answer_metadata path =
    if same path metadata_mac_path
    then some "02:00:00:00:00:0a/\n"
    else if same path "network/interfaces/macs/02:00:00:00:00:0a/device-number/"
    then some "0"
    else if same path "network/interfaces/macs/02:00:00:00:00:0a/interface-id/"
    then some "eni-a"
    else if same path "network/interfaces/macs/02:00:00:00:00:0a/subnet-ipv4-cidr-block"
    then some "10.0.0.0/24"
    else if same path "network/interfaces/macs/02:00:00:00:00:0a/local-ipv4s"
    then some "10.0.0.5\n10.0.0.6"
    else none

-- EC2 with an instance whose interfaces have the given indexes. An ENI is deleted at the third
-- attempt; its attribute is never changed.
abbrev ec2 : List (Option ℤ) → Ec2 ℕ
ec2 indexes = record {
  get_metadata = λ path w. (answer_metadata path, w);
  describe_instances = λ id w. (some ((indexes ∷ []) ∷ []), w);
  create_network_interface = λ name groups subnet w. (some "eni-b", w);
  create_tags = λ id tags w. (true, w);
  attach_network_interface = λ dev id eni w. (some "attach-1", w);
  modify_network_interface_attribute = λ attachment eni w. (false, w);
  detach_network_interface = λ attachment w. (true, w);
  delete_network_interface = λ eni w. (ltb 1 w, suc w);
  describe_network_interfaces = λ eni w. (not_found, w);
  assign_private_ip_addresses = λ eni n w. (assigned, suc w);
  unassign_private_ip_addresses = λ eni ips w. (true, w);
  sleep = λ d w. w;
}

abbrev attached : List (Option ℤ)
attached = some (pos 0) ∷ some (pos 1) ∷ []

free_device_number_lem_example :
    ((d : ℕ) × ((aws_get_free_device_number (ec2 attached) cache 0).0 ≡ ok d)
      × (d < 128)
      × (has_device (pos d) attached ≡ false)
      × ((j : ℕ) → j < d → has_device (pos j) attached ≡ true))
    ⊎ (((aws_get_free_device_number (ec2 attached) cache 0).0 ≡ failed other_error)
        × ((j : ℕ) → j < 128 → has_device (pos j) attached ≡ true))
unfolding used_devices
free_device_number_lem_example =
    free_device_number_lem (ec2 attached) cache 0 attached [] (0 ∷ 1 ∷ []) refl refl

device_128_crashes_example :
    (aws_get_free_device_number (ec2 (some (pos 128) ∷ [])) cache 0).0 ≡ crashed
unfolding has_device
device_128_crashes_example =
    device_128_crashes (ec2 (some (pos 128) ∷ [])) cache 0 (some (pos 128) ∷ []) [] refl refl

delete_eni_ok_iff_example : ((delete_eni (ec2 attached) "eni-b" 5 0).0 ≡ ok tt) ↔ (
    (n : ℕ) × (n < 20)
    × (((ec2 attached).delete_network_interface "eni-b"
          (after_attempts (ec2 attached) 5 "eni-b" n 0)).0
        ≡ true))
delete_eni_ok_iff_example = delete_eni_ok_iff (ec2 attached) 5 "eni-b" 0

alloc_eni_ok_iff_example :
    let created = create_eni (ec2 attached) cache false [] "subnet-1" 0 in
    ((alloc_eni (ec2 attached) cache "" false [] "subnet-1" 0).0 ≡ ok "") ↔ (
      (eni : String) × (id : String) × (created.0 ≡ ok eni)
      × (let a =
            attach_eni (ec2 attached) cache eni (tag_eni (ec2 attached) cache "" eni created.1).1 in
          (a.0 ≡ ok id) × IsNamed (ec2 attached) eni id "" a.1))
alloc_eni_ok_iff_example = alloc_eni_ok_iff (ec2 attached) cache "" false [] "subnet-1" "" 0

-- The instance of `ec2` does not change the attribute, and does not know the ENI then.
no_name : (alloc_eni (ec2 attached) cache "" false [] "subnet-1" 0).0 ≡ ok ""
unfolding alloc_eni delete_on_termination free_eni free_eni_every describe_eni attach_eni tag_eni
    create_eni aws_get_free_device_number used_devices free_device_from is_used the_instance call
    must pure fail attempt ◌>>=◌ ◌>>◌
no_name = refl

abbrev eni_a : EniMetadata
eni_a = record {
  eni_id = "eni-a";
  mac = "02:00:00:00:00:0a";
  device_number = pos 0;
  subnet_ipv4_cidr = "10.0.0.0/24";
  local_ipv4s = "10.0.0.5" ∷ "10.0.0.6" ∷ [];
}

attached_enis : (get_attached_enis (ec2 attached) cache 0).0 ≡ ok (eni_a ∷ [])
unfolding get_attached_enis enis_of get_eni_metadata get_eni_device_number get_ips_and_cidr parsed
    before_slash must pure ◌>>=◌ fields split_on is_space non_empty parse_int parse_codes unsigned
    number_onto string_discrete
attached_enis = refl

get_attached_enis_lem_example :
    (macs : String) × (answer_metadata metadata_mac_path ≡ some macs)
    × (map (λ m. m.mac) (eni_a ∷ []) ≡ map before_slash (fields macs))
    × All (λ m. All (λ ip. ip ≢ "") m.local_ipv4s) (eni_a ∷ [])
get_attached_enis_lem_example =
    get_attached_enis_lem (ec2 attached) cache 0 (eni_a ∷ []) attached_enis

alloc_ip_addresses_bounded_example :
    let u = alloc_ip_addresses (ec2 attached) cache "eni-b" (pos 14) 0 in
    let listed = lookup string_discrete "m5.large" instance_ips_available in
    ((u.1 ≡ 0) × ((listed ≡ none) ⊎ (pos 14 ≤ℤ pos 0)))
    ⊎ ((ips : ℕ) × (k : ℤ) × (listed ≡ some ips)
        × (u.1 ≡ 1)
        × (pos 1 ≤ℤ k)
        × (((k ≡ pos 14) × (pos 14 ≤ℤ (pos ips -ℤ pos 1)))
            ⊎ ((k ≡ (pos ips -ℤ pos 1)) × ((pos ips -ℤ pos 1) ≤ℤ pos 14))))
alloc_ip_addresses_bounded_example =
    alloc_ip_addresses_bounded (ec2 attached) cache "eni-b" (pos 14) 0
