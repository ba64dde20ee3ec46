-- ===== src/Ipamd/Setup.antt =====
-- ipamd/ipamd.go: bringing an ENI and its addresses into the store.
use amazon_vpc_cni_k8s.Prelude.{
  ℕ, zero, suc, String, string_discrete, true, false, not, Option, none, some, List, [], ◌∷◌,
  insert, if◌then◌else◌,
}
use amazon_vpc_cni_k8s.Datastore.{same, add_eni, add_ipv4_address_from_store}
use amazon_vpc_cni_k8s.Ipamd.Context.{
  Env, M, ◌>>=◌, ◌>>◌, pure, call, on_store, modify, EniMetadata, Ec2Address, SetupError,
  addresses_failed, eni_attach_time, pause, max_retry_check_eni,
}

-- The first primary address of the list.
unfoldable pub primary_of : List Ec2Address → Option String
primary_of [] = none
primary_of (a ∷ rest) = if a.primary then some a.private_ip_address else primary_of rest

unfoldable pub find_attached : String → List EniMetadata → Option EniMetadata
find_attached eni [] = none
find_attached eni (m ∷ rest) = if same eni m.eni_id then some m else find_attached eni rest

module _ {W : Type 0} (env : Env W) where
  -- `none` is an error: EC2 did not answer, or lists no primary address.
  unfoldable pub get_eni_addresses : String → M W (Option (List Ec2Address × String))
  unfolding primary_of
  get_eni_addresses eni = do
    answer ← call (env.describe_eni eni)
    pure (elim answer [
      | none ↦ none
      | some addrs ↦ elim (primary_of addrs) [ none ↦ none | some ip ↦ some (addrs, ip) ]
    ])

  -- The loop of `addENIaddressesToDataStore`: the last primary address, or the one so far. The
  -- store's errors are only counted.
  unfoldable pub add_eni_addresses_from : String → List Ec2Address → String → M W String
  add_eni_addresses_from primary_ip [] eni = pure primary_ip
  add_eni_addresses_from primary_ip (a ∷ rest) eni = elim a.primary [
    | true ↦ add_eni_addresses_from a.private_ip_address rest eni
    | false ↦ on_store (λ ds. add_ipv4_address_from_store ds eni a.private_ip_address) >>= λ _.
        add_eni_addresses_from primary_ip rest eni
  ]

  unfoldable pub add_eni_addresses_to_data_store : List Ec2Address → String → M W String
  unfolding add_eni_addresses_from
  add_eni_addresses_to_data_store addrs eni = add_eni_addresses_from "" addrs eni

  -- Only secondary ENIs get a network of their own.
  unfoldable pub setup_network : String → EniMetadata → String → M W (Option SetupError)
  setup_network eni metadata primary_ip =
      if not (same eni env.get_primary_eni)
      then call (
          env.setup_eni_network primary_ip metadata.mac metadata.device_number
            metadata.subnet_ipv4_cidr)
      else pure none

  unfoldable pub store_addresses : String → List Ec2Address → M W (Option SetupError)
  unfolding add_eni_addresses_to_data_store
  store_addresses eni addrs = do
    primary ← add_eni_addresses_to_data_store addrs eni
    modify λ c. record c { primary_ip = insert string_discrete eni primary c.primary_ip }
    pure none

  -- `none` is success. `AddENI` fails only for an ENI that is there already, which is no error here.
  unfoldable pub setup_eni : String → EniMetadata → M W (Option SetupError)
  unfolding get_eni_addresses setup_network store_addresses
  setup_eni eni metadata = do
    answer ← get_eni_addresses eni
    elim answer [
      | none ↦ pure (some addresses_failed)
      | some (addrs, primary_ip) ↦ do
        now ← call env.now
        _ ←
            on_store
              (λ ds. add_eni ds eni metadata.device_number (same eni env.get_primary_eni) now)
        network ← setup_network eni metadata primary_ip
        elim network [ some e ↦ pure (some e) | none ↦ store_addresses eni addrs ]
    ]

  -- One look at the metadata service.
  unfoldable pub attached_now : String → M W (Option EniMetadata)
  attached_now eni = do
    answer ← call env.get_attached_enis
    pure (elim answer [ none ↦ none | some enis ↦ find_attached eni enis ])

  -- The loop of `waitENIAttached`, with the attempts that are left after this one.
  unfoldable pub wait_rounds : ℕ → String → M W (Option EniMetadata)
  wait_rounds zero eni = attached_now eni
  wait_rounds (suc left) eni = attached_now eni >>= λ found. elim found [
    | some m ↦ pure (some m)
    | none ↦ pause env eni_attach_time >> wait_rounds left eni
  ]

  unfoldable pub wait_eni_attached : String → M W (Option EniMetadata)
  unfolding wait_rounds attached_now
  wait_eni_attached eni = wait_rounds max_retry_check_eni eni
