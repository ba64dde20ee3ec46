-- ===== src/Ipamd/Tests.antt =====
-- Runs of ipamd/ipamd.go and ipamd/rpc_handler.go, in a world that is the clock and in which EC2
-- knows one secondary ENI.
use amazon_vpc_cni_k8s.Prelude.{
  atoi, atoi_codes, digits, digits_onto, insert, remove, ◌≢◌, ℕ, ◌+◌, ℤ, pos, ◌+ℤ◌, ◌-ℤ◌, ◌*ℤ◌,
  string_discrete, ◌≡◌, refl, ◌⊎◌, ◌↔◌, true, false, none, some, List, [], ◌∷◌, second, lookup,
  arith, time_sub,
}
use amazon_vpc_cni_k8s.Datastore.{
  add_ipv4_address_from_store, add_eni, new_data_store, EniIpPool, DataStore, K8sPodInfo, pod_key,
  pod_key_discrete, assign_pod_ipv4_address, assign_pod_ipv4_address_unsafe, find_slot,
  find_address, take_slot, occupy, increment_assigned_count, get_stats,
}
use amazon_vpc_cni_k8s.Datastore.Ownership.{IsBacked}
use amazon_vpc_cni_k8s.Datastore.Tests.{store, store-IsBacked, today}
use amazon_vpc_cni_k8s.Ipamd.{
  try_free_eni, wait_eni_attached, Env, IpamContext, EniMetadata, Ec2Address, NetworkRequest,
  NetworkSettings, Settings, requested_pod, without_container, add_network, del_network, node_init,
  manager_rounds, node_ip_pool_too_low, should_remove_extra_enis, ip_target_state, available,
  get_max_eni, get_warm_ip_target, get_warm_eni_target, cool_all, freed_at, is_member,
  try_unassign_ips_from_all, setup_eni, modify, ◌>>=◌, pure, call, on_store,
}
use amazon_vpc_cni_k8s.Ipamd.Warm.{Reaches, try_unassign-Reaches}
use amazon_vpc_cni_k8s.Ipamd.Network.{del_network-add_network, del_network_fails_iff}
use amazon_vpc_cni_k8s.Ipamd.Attach.{after_looks, wait_eni_attached_lem}
use amazon_vpc_cni_k8s.Ipamd.Release.{try_free_eni_safe}
use amazon_vpc_cni_k8s.Datastore.Invariant.Enis.{IsDisposable}
use amazon_vpc_cni_k8s.Ipamd.Keeps.Pods.{del_network-manager_rounds}

abbrev eni_b : EniMetadata
eni_b = record {
  eni_id = "eni-b";
  mac = "02:00:00:00:00:0b";
  device_number = pos 3;
  subnet_ipv4_cidr = "10.0.0.0/24";
  local_ipv4s = "10.0.0.9" ∷ "10.0.0.3" ∷ [];
}

abbrev addresses_b : List Ec2Address
addresses_b =
    record { primary = true; private_ip_address = "10.0.0.9" }
    ∷ record { primary = false; private_ip_address = "10.0.0.3" }
    ∷ []

-- Every reading of the clock is a second after the one before.
abbrev pub env : Env ℕ
env = record {
  now = λ w. (w + second, w + second);
  sleep = λ d w. w + d;
  get_primary_eni = "eni-a";
  get_eni_limit = λ w. (some (pos 4), w);
  get_eni_ip_limit = λ w. (some (pos 14), w);
  get_attached_enis = λ w. (some (eni_b ∷ []), w);
  describe_eni = λ eni w. (some addresses_b, w);
  alloc_eni = λ custom groups subnet w. (none, w);
  free_eni = λ eni w. (true, w);
  alloc_ip_addresses = λ eni n w. (true, w);
  dealloc_ip_addresses = λ eni ips w. (true, w);
  my_eni_config = λ w. (none, w);
  setup_eni_network = λ primary mac dev cidr w. (none, w);
  setup_host_network = λ w. (true, w);
  get_rule_list = λ w. (true, w);
  update_rule_list_by_src = λ ip w. w;
  k8s_get_local_pod_ips = λ w. (some [], w);
}

abbrev pub daemon : ℤ → IpamContext ℕ
daemon target = record {
  data_store = store;
  use_custom_networking = false;
  max_ips_per_eni = pos 14;
  max_eni = pos 4;
  warm_eni_target = pos 1;
  warm_ip_target = target;
  primary_ip = [];
  last_node_ip_pool_action = 0;
  last_decrease_ip_pool = 0;
  reconcile_cooldown_cache = [];
  world = today;
}

abbrev pub network : NetworkSettings
network = record {
  vpc_ipv4_cidrs = "10.0.0.0/16" ∷ [];
  use_external_snat = false;
  exclude_snat_cidrs = "10.1.0.0/16" ∷ [];
}

abbrev settings : Settings
settings = record { max_eni = some "2"; custom_network_cfg = "" }

abbrev pub request_batch : NetworkRequest
request_batch = record {
  k8s_pod_name = "batch";
  k8s_pod_namespace = "default";
  k8s_pod_infra_container_id = "c2";
}

abbrev request_web : NetworkRequest
request_web = record {
  k8s_pod_name = "web";
  k8s_pod_namespace = "default";
  k8s_pod_infra_container_id = "c1";
}

program : Unit {0}
unfolding lookup string_discrete pod_key_discrete assign_pod_ipv4_address
    assign_pod_ipv4_address_unsafe take_slot occupy increment_assigned_count find_slot find_address
    add_network del_network ◌>>=◌ pure call on_store ip_target_state available get_stats
    node_ip_pool_too_low should_remove_extra_enis get_max_eni get_warm_ip_target get_warm_eni_target
    atoi atoi_codes digits digits_onto cool_all freed_at is_member ◌+ℤ◌ ◌-ℤ◌ ◌*ℤ◌ time_sub
program = tt

pub batch_unknown :
    lookup pod_key_discrete (pod_key (requested_pod request_batch)) store.pods_ip ≡ none
unfolding program
batch_unknown = refl

web_known :
    lookup pod_key_discrete (pod_key (requested_pod request_web)) store.pods_ip
    ≡ some (record { ip = "10.0.0.1"; device_number = pos 2 })
unfolding program
web_known = refl

pub batch_succeeds : (add_network env network request_batch (daemon (pos 1))).0.success ≡ true
unfolding program
batch_succeeds = refl

del_network-add_network_example :
    let added = add_network env network request_batch (daemon (pos 1)) in
    let deleted = del_network env request_batch added.1 in
    (deleted.0.success ≡ true)
    × (deleted.0.ipv4_addr ≡ added.0.ipv4_addr)
    × (lookup pod_key_discrete (pod_key (requested_pod request_batch)) deleted.1.data_store.pods_ip
        ≡ none)
    × IsBacked added.1.data_store
del_network-add_network_example =
    del_network-add_network env network request_batch (daemon (pos 1)) store-IsBacked batch_unknown
      batch_succeeds

del_network_fails_iff_example :
    ((del_network env request_batch (daemon (pos 1))).0.success ≡ false) ↔ (
      (lookup pod_key_discrete (pod_key (requested_pod request_batch)) store.pods_ip ≡ none)
      × (lookup pod_key_discrete
            (pod_key (without_container (requested_pod request_batch)))
            store.pods_ip
          ≡ none))
del_network_fails_iff_example =
    del_network_fails_iff env request_batch (daemon (pos 1)) store-IsBacked

-- Two of the three addresses are free, and the target is one.
daemon-Reaches : Reaches (pos 1) (daemon (pos 1))
unfolding program
daemon-Reaches = (refl, omega arith)

try_unassign-Reaches_example : Reaches (pos 1) (try_unassign_ips_from_all env (daemon (pos 1))).1
try_unassign-Reaches_example = try_unassign-Reaches env (pos 1) (daemon (pos 1)) daemon-Reaches

daemon_low : node_ip_pool_too_low (daemon (pos 5)) ≡ true
unfolding program
daemon_low = refl

default_low : node_ip_pool_too_low (daemon (pos 0)) ≡ true
unfolding program
default_low = refl

max_two : get_max_eni (some "2") (some (pos 4)) ≡ some (pos 2)
unfolding program
max_two = refl

settings_read : (get_warm_ip_target (some "-3") ≡ pos 0) × (get_warm_eni_target (some "+2") ≡ pos 2)
unfolding program
settings_read = (refl, refl)

listed_ip : is_member "10.0.0.2" ("10.0.0.1" ∷ "10.0.0.2" ∷ []) ≡ true
unfolding program
listed_ip = refl

try_free_eni_safe_example :
    let c = daemon (pos 1) in
    let now = env.now c.world in
    let c' = (try_free_eni env c).1 in
    ((c'.data_store ≡ c.data_store) × (c'.world ≡ now.1))
    ⊎ ((e : EniIpPool) × (lookup string_discrete e.id c.data_store.eni_ip_pools ≡ some e)
        × IsDisposable c.data_store c.warm_ip_target now.0 e
        × (c'.data_store.eni_ip_pools ≡ remove string_discrete e.id c.data_store.eni_ip_pools)
        × (e.id ≢ "" → c'.world ≡ (env.free_eni e.id now.1).1))
try_free_eni_safe_example = try_free_eni_safe env (daemon (pos 1)) store-IsBacked.valid

wait_eni_attached_lem_example :
    let r = wait_eni_attached env "eni-z" (daemon (pos 1)) in
    (r.1.data_store ≡ store)
    × (((m : EniMetadata) × (r.0 ≡ some m) × (m.eni_id ≡ "eni-z"))
        ⊎ ((r.0 ≡ none) × (r.1.world ≡ after_looks env 5 today)))
wait_eni_attached_lem_example = wait_eni_attached_lem env "eni-z" (daemon (pos 1))

del_network-manager_rounds_example :
    let deleted = del_network env request_web (manager_rounds env 3 (daemon (pos 1))).1 in
    (deleted.0.success ≡ true)
    × (deleted.0.ipv4_addr ≡ "10.0.0.1")
    × (lookup pod_key_discrete (pod_key (requested_pod request_web)) deleted.1.data_store.pods_ip
        ≡ none)
del_network-manager_rounds_example =
    del_network-manager_rounds env 3 request_web (daemon (pos 1))
      (record { ip = "10.0.0.1"; device_number = pos 2 }) store-IsBacked web_known

-- One pod runs on an address of the ENI, the other on one that no ENI has.
abbrev running : List K8sPodInfo
running =
    record { name = "web"; namespace = "default"; container = "c1"; ip = "10.0.0.3"; uid = "u1" }
    ∷ record { name = "batch"; namespace = "default"; container = "c2"; ip = "9.0.7.7"; uid = "u2" }
    ∷ []

abbrev restarted : Env ℕ
restarted = record env { k8s_get_local_pod_ips = λ w. (some running, w) }

abbrev recovered : DataStore
recovered = (node_init restarted settings (daemon (pos 1))).1.data_store

web_recovered :
    lookup pod_key_discrete (pod_key (requested_pod request_web)) recovered.pods_ip
    ≡ some (record { ip = "10.0.0.3"; device_number = pos 3 })
unfolding program node_init setup_eni modify add_ipv4_address_from_store add_eni new_data_store
    insert
web_recovered = refl
