-- ===== src/Plugin/Tests.antt =====
-- Runs of plugins/routed-eni/cni.go against the daemon, on a host whose network calls fail.
use amazon_vpc_cni_k8s.Prelude.{ℕ, pos, ◌≡◌, refl, ◌↔◌, true, false, none, some, [], ◌∷◌, lookup}
use amazon_vpc_cni_k8s.Datastore.{pod_key, pod_key_discrete}
use amazon_vpc_cni_k8s.Datastore.Tests.{store-IsBacked}
use amazon_vpc_cni_k8s.Ipamd.{IpamContext, AddNetworkReply, requested_pod}
use amazon_vpc_cni_k8s.Ipamd.Tests.{env, daemon, network, batch_unknown, batch_succeeds}
use amazon_vpc_cni_k8s.Plugin.{
  CmdArgs, NetConf, K8sArgs, fails, panics, setup_failed, Host, checked_prefix, request_of,
  setup_pod, request_address, default_veth_prefix,
}
use amazon_vpc_cni_k8s.Plugin.Rollback.{
  network_set_up, served_by, LeavesStore, setup_pod_panics_iff, request_address_rollback,
}

abbrev args : CmdArgs
args = record { netns = "/proc/7/ns/net"; if_name = "eth0"; args = ""; stdin_data = "" }

abbrev conf : NetConf
conf = record { cni_version = "0.3.1"; name = "aws-cni"; type_ = "aws-cni"; veth_prefix = [] }

abbrev batch : K8sArgs
batch = record {
  ip = "";
  k8s_pod_name = "batch";
  k8s_pod_namespace = "default";
  k8s_pod_infra_container_id = "c2";
}

-- No network call succeeds, and nobody answers.
abbrev broken : Host (IpamContext ℕ)
broken = record {
  unmarshal = λ s. some conf;
  load_args = λ s. some batch;
  sha1_hex = λ namespace name.
      b'0' ∷ b'1' ∷ b'2' ∷ b'3' ∷ b'4' ∷ b'5' ∷ b'6' ∷ b'7' ∷ b'8' ∷ b'9' ∷ b'a' ∷ b'b' ∷ [];
  dial = λ c. (true, c);
  add_network = λ r c. (none, c);
  del_network = λ r c. (none, c);
  setup_ns = λ name if_name netns ip dev cidrs snat c. (false, c);
  teardown_ns = λ ip dev c. (true, c);
  print_result = λ ip version c. (true, c);
}

abbrev reply : AddNetworkReply
reply = record {
  success = true;
  ipv4_addr = "10.0.0.2";
  ipv4_subnet = "";
  device_number = pos 2;
  use_external_snat = false;
  vpc_cidrs = [];
}

default_checked : checked_prefix [] ≡ some default_veth_prefix
unfolding checked_prefix
default_checked = refl

setup_pod_panics_iff_example :
    let c = daemon (pos 1) in
    ((setup_pod broken args conf default_veth_prefix batch reply c).0 ≡ panics) ↔ (
      ((network_set_up broken args default_veth_prefix batch reply c).0 ≡ false)
      × ((broken.del_network
            (request_of batch)
            (network_set_up broken args default_veth_prefix batch reply c).1).0
          ≡ none))
setup_pod_panics_iff_example =
    setup_pod_panics_iff broken args conf default_veth_prefix batch reply (daemon (pos 1))

broken-LeavesStore : LeavesStore broken
broken-LeavesStore name if_name netns ip dev cidrs snat c = refl

request_address_rollback_example :
    let r =
      request_address
        (served_by env network broken)
        args
        conf
        default_veth_prefix
        batch
        (daemon (pos 1)) in
    (r.0 ≡ fails setup_failed)
    × (lookup pod_key_discrete (pod_key (requested_pod (request_of batch))) r.1.data_store.pods_ip
        ≡ none)
request_address_rollback_example =
    request_address_rollback env network broken args conf default_veth_prefix batch (daemon (pos 1))
      broken-LeavesStore store-IsBacked batch_unknown batch_succeeds refl
