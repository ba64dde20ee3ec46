-- ===== src/Plugin.antt =====
-- plugins/routed-eni/cni.go: the CNI plugin, which asks the daemon for an address and sets up the
-- pod's network.
pub mod Rollback
mod Tests
use amazon_vpc_cni_k8s.Prelude.{
  ℕ, ◌+◌, ltb, ℤ, String, Bool, true, false, not, Option, none, some, List, [], ◌∷◌, ◌++◌, length,
  take, if◌then◌else◌,
}
use amazon_vpc_cni_k8s.Ipamd.{NetworkRequest, AddNetworkReply, DelNetworkReply}

-- The fields of `skel.CmdArgs` that the plugin uses.
pub record CmdArgs : Type 0 where
  pub netns : String
  pub if_name : String
  pub args : String
  pub stdin_data : String

-- `NetConf`; the prefix is kept as its bytes.
pub record NetConf : Type 0 where
  pub cni_version : String
  pub name : String
  pub type_ : String
  pub veth_prefix : List ℕ

pub record K8sArgs : Type 0 where
  pub ip : String
  pub k8s_pod_name : String
  pub k8s_pod_namespace : String
  pub k8s_pod_infra_container_id : String

pub data PluginError : Type 0 where
  config_failed args_failed prefix_too_long dial_failed rpc_failed : PluginError
  no_address setup_failed print_failed delete_refused teardown_failed : PluginError

-- `panics` is a nil pointer dereference.
pub data Outcome : Type 0 where
  succeeds : Outcome
  fails : PluginError → Outcome
  panics : Outcome

-- What the plugin calls: the parsers, the host's network, and the daemon. `none` and `false` are
-- errors; the generated client answers a nil reply with an error.
pub record Host (W : Type 0) : Type 0 where
  pub unmarshal : String → Option NetConf
  pub load_args : String → Option K8sArgs
  pub sha1_hex : String → String → List ℕ
  pub dial : W → Bool × W
  pub add_network : NetworkRequest → W → Option AddNetworkReply × W
  pub del_network : NetworkRequest → W → Option DelNetworkReply × W
  pub setup_ns : List ℕ → String → String → String → ℤ → List String → Bool → W → Bool × W
  pub teardown_ns : String → ℤ → W → Bool × W
  pub print_result : String → String → W → Bool × W

abbrev pub default_veth_prefix : List ℕ
default_veth_prefix = b'e' ∷ b'n' ∷ b'i' ∷ []

-- The prefix to use; `none` is the error of one that is too long.
unfoldable pub checked_prefix : List ℕ → Option (List ℕ)
checked_prefix [] = some default_veth_prefix
checked_prefix (b ∷ bs) = if ltb 4 (length (b ∷ bs)) then none else some (b ∷ bs)

abbrev pub request_of : K8sArgs → NetworkRequest
request_of k = record {
  k8s_pod_name = k.k8s_pod_name;
  k8s_pod_namespace = k.k8s_pod_namespace;
  k8s_pod_infra_container_id = k.k8s_pod_infra_container_id;
}

module _ {W : Type 0} (host : Host W) where
  -- `sha1_hex` is the digest of "namespace.name" in hexadecimal.
  unfoldable pub generate_host_veth_name : List ℕ → String → String → List ℕ
  generate_host_veth_name prefix namespace podname =
      prefix ++ take 11 (host.sha1_hex namespace podname)

  -- The address goes back to the daemon. The reply is read also where the call failed and there is
  -- none.
  unfoldable pub return_address : K8sArgs → W → Outcome × W
  return_address k w =
      let r = host.del_network (request_of k) w in
      (elim r.0 [ none ↦ panics | some reply ↦ fails setup_failed ], r.1)

  unfoldable pub finish_add : NetConf → AddNetworkReply → W → Outcome × W
  finish_add conf reply w =
      let p = host.print_result reply.ipv4_addr conf.cni_version w in
      (if p.0 then succeeds else fails print_failed, p.1)

  unfoldable pub setup_pod :
      CmdArgs → NetConf → List ℕ → K8sArgs → AddNetworkReply → W → Outcome × W
  setup_pod args conf prefix k reply w =
      let s =
        host.setup_ns (generate_host_veth_name prefix k.k8s_pod_namespace k.k8s_pod_name)
          args.if_name args.netns reply.ipv4_addr reply.device_number reply.vpc_cidrs
          reply.use_external_snat w in
      if s.0 then finish_add conf reply s.1 else return_address k s.1

  unfoldable pub request_address : CmdArgs → NetConf → List ℕ → K8sArgs → W → Outcome × W
  request_address args conf prefix k w =
      let r = host.add_network (request_of k) w in
      elim r.0 [
        | none ↦ (fails rpc_failed, r.1)
        | some reply ↦
            if not reply.success
            then (fails no_address, r.1)
            else setup_pod args conf prefix k reply r.1
      ]

  unfoldable pub add : CmdArgs → W → Outcome × W
  add args w = elim (host.unmarshal args.stdin_data) [
    | none ↦ (fails config_failed, w)
    | some conf ↦ elim (host.load_args args.args) [
      | none ↦ (fails args_failed, w)
      | some k ↦ elim (checked_prefix conf.veth_prefix) [
        | none ↦ (fails prefix_too_long, w)
        | some prefix ↦
            let d = host.dial w in
            if d.0 then request_address args conf prefix k d.1 else (fails dial_failed, d.1)
      ]
    ]
  ]

  unfoldable pub teardown_pod : DelNetworkReply → W → Outcome × W
  teardown_pod reply w =
      if not reply.success
      then (fails delete_refused, w)
      else let t = host.teardown_ns reply.ipv4_addr reply.device_number w in
        (if t.0 then succeeds else fails teardown_failed, t.1)

  unfoldable pub request_release : K8sArgs → W → Outcome × W
  request_release k w =
      let r = host.del_network (request_of k) w in
      elim r.0 [ none ↦ (fails rpc_failed, r.1) | some reply ↦ teardown_pod reply r.1 ]

  unfoldable pub del : CmdArgs → W → Outcome × W
  del args w = elim (host.unmarshal args.stdin_data) [
    | none ↦ (fails config_failed, w)
    | some conf ↦ elim (host.load_args args.args) [
      | none ↦ (fails args_failed, w)
      | some k ↦
          let d = host.dial w in if d.0 then request_release k d.1 else (fails dial_failed, d.1)
    ]
  ]
