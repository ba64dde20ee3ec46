-- ===== src/Ipamd/Context.antt =====
-- The daemon's state, and what it calls: the clock, EC2 and its metadata service, the host network
-- and the cluster. These calls are fields of `Env`; they act on a world that the model leaves open.
use amazon_vpc_cni_k8s.Prelude.{
  ℕ, ◌*◌, ℤ, String, Bool, Option, List, [], ◌∷◌, Dict, Instant, second,
}
use amazon_vpc_cni_k8s.Datastore.{DataStore, K8sPodInfo, Result}
pub use amazon_vpc_cni_k8s.Awsutils.{EniMetadata, Ec2Address}

abbrev pub max_retry_check_eni : ℕ
max_retry_check_eni = 5

abbrev pub eni_attach_time : ℕ
eni_attach_time = 10 * second

abbrev pub retry_k8s_interval : ℕ
retry_k8s_interval = 3 * second

abbrev pub max_k8s_retries : ℕ
max_k8s_retries = 5

-- The fields of an `ENIConfig` that the daemon reads.
pub record EniConfigSpec : Type 0 where
  pub security_groups : List String
  pub subnet : String

-- Why an ENI cannot be set up. `link_not_found` is an error whose text says that no link has the
-- MAC address.
pub data SetupError : Type 0 where
  addresses_failed store_failed network_failed link_not_found : SetupError

-- What the daemon calls. An operation that can fail answers `none`, `false`, or an error.
pub record Env (W : Type 0) : Type 0 where
  pub now : W → Instant × W
  pub sleep : ℕ → W → W
  pub get_primary_eni : String
  pub get_eni_limit : W → Option ℤ × W
  pub get_eni_ip_limit : W → Option ℤ × W
  pub get_attached_enis : W → Option (List EniMetadata) × W
  pub describe_eni : String → W → Option (List Ec2Address) × W
  pub alloc_eni : Bool → List String → String → W → Option String × W
  pub free_eni : String → W → Bool × W
  pub alloc_ip_addresses : String → ℤ → W → Bool × W
  pub dealloc_ip_addresses : String → List String → W → Bool × W
  pub my_eni_config : W → Option EniConfigSpec × W
  pub setup_eni_network : String → String → ℤ → String → W → Option SetupError × W
  -- The parsing of the VPC's CIDR and `SetupHostNetwork`.
  pub setup_host_network : W → Bool × W
  pub get_rule_list : W → Bool × W
  pub update_rule_list_by_src : String → W → W
  pub k8s_get_local_pod_ips : W → Option (List K8sPodInfo) × W

pub record IpamContext (W : Type 0) : Type 0 where
  pub data_store : DataStore
  pub use_custom_networking : Bool
  pub max_ips_per_eni : ℤ
  pub max_eni : ℤ
  pub warm_eni_target : ℤ
  pub warm_ip_target : ℤ
  pub primary_ip : Dict String String
  pub last_node_ip_pool_action : Instant
  pub last_decrease_ip_pool : Instant
  pub reconcile_cooldown_cache : Dict String Instant
  pub world : W

-- A method of the daemon: from its state to an answer and the next state.
abbrev pub M : Type 0 → Type 0 → Type 0
M W A = IpamContext W → A × IpamContext W

infixl 5 ◌>>=◌ ◌>>◌
unfoldable pub ◌>>=◌ : {W A B : Type 0} → M W A → (A → M W B) → M W B
◌>>=◌ m f c = f (m c).0 (m c).1

abbrev pub ◌>>◌ : {W B : Type 0} → M W (Unit {0}) → M W B → M W B
m >> k = m >>= λ _. k

module _ {W A : Type 0} where
  unfoldable pub pure : A → M W A
  pure a c = (a, c)

  unfoldable pub gets : (IpamContext W → A) → M W A
  gets f c = (f c, c)

  -- A call of the environment.
  unfoldable pub call : (W → A × W) → M W A
  call f c = let r = f c.world in (r.0, record c { world = r.1 })

  -- A call of the store.
  unfoldable pub on_store : (DataStore → DataStore × Result A) → M W (Result A)
  on_store f c = let r = f c.data_store in (r.1, record c { data_store = r.0 })

module _ {W : Type 0} where
  unfoldable pub modify : (IpamContext W → IpamContext W) → M W (Unit {0})
  modify f c = (tt, f c)

  unfoldable pub for_each : {A : Type 0} → List A → (A → M W (Unit {0})) → M W (Unit {0})
  for_each [] body = pure tt
  for_each (x ∷ xs) body = body x >> for_each xs body

  unfoldable pub pause : Env W → ℕ → M W (Unit {0})
  pause env duration = call (λ w. (tt, env.sleep duration w))
