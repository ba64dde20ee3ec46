-- ===== src/Ipamd/Rpc.antt =====
-- ipamd/rpc_handler.go: the calls of the CNI plugin.
use amazon_vpc_cni_k8s.Prelude.{
  ℕ, ◌^◌, ◌%◌, ◌-◌, ltb, ℤ, pos, negsuc, String, Bool, true, false, not, List, ◌++◌, if◌then◌else◌,
}
use amazon_vpc_cni_k8s.Datastore.{
  K8sPodInfo, Result, ok, err, unknown_pod, assign_pod_ipv4_address, unassign_pod_ipv4_address,
}
use amazon_vpc_cni_k8s.Ipamd.Context.{Env, M, ◌>>=◌, pure, call, on_store}

pub data ServingStatus : Type 0 where
  unknown serving not_serving : ServingStatus

-- `Check`, whatever the daemon's state.
unfoldable pub check : ServingStatus
check = serving

-- The request's fields that the daemon reads.
pub record NetworkRequest : Type 0 where
  pub k8s_pod_name : String
  pub k8s_pod_namespace : String
  pub k8s_pod_infra_container_id : String

pub record AddNetworkReply : Type 0 where
  pub success : Bool
  pub ipv4_addr : String
  pub ipv4_subnet : String
  pub device_number : ℤ
  pub use_external_snat : Bool
  pub vpc_cidrs : List String

pub record DelNetworkReply : Type 0 where
  pub success : Bool
  pub ipv4_addr : String
  pub device_number : ℤ

-- What the handlers read of the VPC and of the host's network settings.
pub record NetworkSettings : Type 0 where
  pub vpc_ipv4_cidrs : List String
  pub use_external_snat : Bool
  pub exclude_snat_cidrs : List String

abbrev pub signed32 : ℕ → ℤ
signed32 n = if ltb n (2 ^ 31) then pos n else negsuc (2 ^ 32 - n - 1)

-- `int32(n)`, which keeps the low 32 bits.
unfoldable pub to_int32 : ℤ → ℤ
to_int32 (pos n) = signed32 (n % 2 ^ 32)
to_int32 (negsuc n) = signed32 (2 ^ 32 - 1 - n % 2 ^ 32)

abbrev pub requested_pod : NetworkRequest → K8sPodInfo
requested_pod r = record {
  name = r.k8s_pod_name;
  namespace = r.k8s_pod_namespace;
  container = r.k8s_pod_infra_container_id;
  ip = "";
  uid = "";
}

-- The pod as a restarted daemon knew it, without its container.
abbrev pub without_container : K8sPodInfo → K8sPodInfo
without_container pod = record pod { container = "" }

abbrev pub answer_ip : Result (String × ℤ) → String
answer_ip (ok a) = a.0
answer_ip (err e) = ""

abbrev pub answer_device : Result (String × ℤ) → ℤ
answer_device (ok a) = a.1
answer_device (err e) = pos 0

abbrev pub succeeded : Result (String × ℤ) → Bool
succeeded (ok a) = true
succeeded (err e) = false

module _ {W : Type 0} (env : Env W) where
  unfoldable pub add_network : NetworkSettings → NetworkRequest → M W AddNetworkReply
  unfolding to_int32
  add_network net request = do
    now ← call env.now
    answer ← on_store (λ ds. assign_pod_ipv4_address ds (requested_pod request) now)
    pure (record {
      success = succeeded answer;
      ipv4_addr = answer_ip answer;
      ipv4_subnet = "";
      device_number = to_int32 (answer_device answer);
      use_external_snat = net.use_external_snat;
      vpc_cidrs =
          if not net.use_external_snat
          then net.vpc_ipv4_cidrs ++ net.exclude_snat_cidrs
          else net.vpc_ipv4_cidrs;
    })

  unfoldable pub unassign : K8sPodInfo → M W (Result (String × ℤ))
  unassign pod = do now ← call env.now; on_store (λ ds. unassign_pod_ipv4_address ds pod now)

  -- A pod that is unknown under its container is looked for without it.
  unfoldable pub unassign_any : K8sPodInfo → M W (Result (String × ℤ))
  unfolding unassign
  unassign_any pod = unassign pod >>= λ answer. elim answer [
    | err unknown_pod ↦ unassign (without_container pod)
    | other ↦ pure other
  ]

  unfoldable pub del_network : NetworkRequest → M W DelNetworkReply
  unfolding unassign_any to_int32
  del_network request = do
    answer ← unassign_any (requested_pod request)
    pure (record {
      success = succeeded answer;
      ipv4_addr = answer_ip answer;
      device_number = to_int32 (answer_device answer);
    })
