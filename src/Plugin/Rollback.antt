-- ===== src/Plugin/Rollback.antt =====
-- plugins/routed-eni/cni.go against the daemon: an ADD whose network cannot be set up.
use amazon_vpc_cni_k8s.Prelude.{
  ℕ, ◌≤◌, ℤ, String, ◌≡◌, ◌≢◌, ◌↔◌, refl, Bool, true, false, none, some, List, [], ◌∷◌, lookup,
  length, take, length-append, length-take-le, arith,
}
use amazon_vpc_cni_k8s.Datastore.{pod_key, pod_key_discrete}
use amazon_vpc_cni_k8s.Datastore.Ownership.{IsBacked}
use amazon_vpc_cni_k8s.Ipamd
use amazon_vpc_cni_k8s.Ipamd.Network.{released_from}
use amazon_vpc_cni_k8s.Ipamd.{
  IpamContext, Env, NetworkRequest, NetworkSettings, AddNetworkReply, requested_pod,
}
use amazon_vpc_cni_k8s.Plugin.{
  CmdArgs, NetConf, K8sArgs, fails, panics, Host, checked_prefix, request_of,
  generate_host_veth_name, return_address, finish_add, setup_pod, request_address, setup_failed,
}

module _ {W : Type 0} (host : Host W) where
  -- A prefix that the check lets through is not empty and gives a name of at most 15 bytes, the
  -- limit of Linux, whatever the digest is.
  pub veth_name_fits :
      (given prefix : List ℕ) (namespace name : String)
      → checked_prefix given ≡ some prefix
      → (length (generate_host_veth_name host prefix namespace name) ≤ 15) × (prefix ≢ [])
  unfolding checked_prefix generate_host_veth_name
  veth_name_fits [] prefix namespace name h = ground (
    arith,
    length-append prefix (take 11 (host.sha1_hex namespace name)),
    length-take-le 11 (host.sha1_hex namespace name),
  )
  veth_name_fits (b ∷ bs) prefix namespace name h = ground (
    arith,
    length-append prefix (take 11 (host.sha1_hex namespace name)),
    length-take-le 11 (host.sha1_hex namespace name),
  )

  -- The call of `SetupNS` that an ADD makes for a reply of the daemon.
  abbrev pub network_set_up : CmdArgs → List ℕ → K8sArgs → AddNetworkReply → W → Bool × W
  network_set_up args prefix k reply =
      host.setup_ns (generate_host_veth_name host prefix k.k8s_pod_namespace k.k8s_pod_name)
        args.if_name args.netns reply.ipv4_addr reply.device_number reply.vpc_cidrs
        reply.use_external_snat

  -- Once the daemon has given an address, the plugin panics exactly when the network cannot be set
  -- up and the call that returns the address fails: it then reads a reply that is nil.
  pub setup_pod_panics_iff :
      (args : CmdArgs) (conf : NetConf) (prefix : List ℕ) (k : K8sArgs) (reply : AddNetworkReply)
      (w : W)
      → ((setup_pod host args conf prefix k reply w).0 ≡ panics) ↔ (
          ((network_set_up args prefix k reply w).0 ≡ false)
          × ((host.del_network (request_of k) (network_set_up args prefix k reply w).1).0 ≡ none))
  unfolding setup_pod finish_add return_address
  setup_pod_panics_iff args conf prefix k reply w = (λ h. ground arith, λ h. ground arith)

-- The daemon as the plugin reaches it, while no other call comes between.
abbrev pub served_by :
    {W : Type 0} → Env W → NetworkSettings → Host (IpamContext W) → Host (IpamContext W)
served_by env net host = record host {
  add_network = λ r c. let a = Ipamd.add_network env net r c in (some a.0, a.1);
  del_network = λ r c. let d = Ipamd.del_network env r c in (some d.0, d.1);
}

-- The host's network calls leave the daemon's store alone.
abbrev pub LeavesStore : {W : Type 0} → Host (IpamContext W) → Type 0
LeavesStore {W} host =
    (name : List ℕ) (if_name netns ip : String) (dev : ℤ) (cidrs : List String) (snat : Bool)
    (c : IpamContext W)
    → (host.setup_ns name if_name netns ip dev cidrs snat c).1.data_store ≡ c.data_store

module _ {W : Type 0} (env : Env W) (net : NetworkSettings) (host : Host (IpamContext W)) where
  -- On a backed store that does not know the pod, with a host whose network calls leave the store
  -- alone and no other call in between: when `AddNetwork` succeeds and the network cannot be set up,
  -- the plugin reports the failed setup and the store has no entry for the pod.
  pub request_address_rollback :
      (args : CmdArgs) (conf : NetConf) (prefix : List ℕ) (k : K8sArgs) (c : IpamContext W)
      → LeavesStore host
      → IsBacked c.data_store
      → lookup pod_key_discrete (pod_key (requested_pod (request_of k))) c.data_store.pods_ip ≡ none
      → let added = Ipamd.add_network env net (request_of k) c in
        added.0.success ≡ true
        → (network_set_up host args prefix k added.0 added.1).0 ≡ false
        → let r = request_address (served_by env net host) args conf prefix k c in
          (r.0 ≡ fails setup_failed)
          × (lookup pod_key_discrete (pod_key (requested_pod (request_of k))) r.1.data_store.pods_ip
              ≡ none)
  unfolding request_address setup_pod return_address generate_host_veth_name
  request_address_rollback args conf prefix k c leaves b new given failed =
      let added = Ipamd.add_network env net (request_of k) c in
      let up = network_set_up host args prefix k added.0 added.1 in
      let gone = released_from env net (request_of k) c up.1 b new given (leaves _ _ _ _ _ _ _ _) in
      rw (given, failed) (refl, gone)
