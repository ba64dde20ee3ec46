-- ===== src/Ipamd/Init.antt =====
-- ipamd/ipamd.go: the start of the daemon, which finds the ENIs and gives the running pods back
-- their addresses; and its loop.
use amazon_vpc_cni_k8s.Prelude.{
  ℕ, zero, suc, ◌/◌, ◌*◌, ℤ, String, Bool, true, false, ◌&&◌, not, Option, none, some, List, [],
  ◌∷◌, if◌then◌else◌, second, ◌||◌,
}
use amazon_vpc_cni_k8s.Datastore.{K8sPodInfo, same, new_data_store, assign_pod_ipv4_address}
use amazon_vpc_cni_k8s.Ipamd.Context.{
  Env, M, EniMetadata, link_not_found, ◌>>=◌, ◌>>◌, pure, call, on_store, modify, pause,
  eni_attach_time, max_retry_check_eni, max_k8s_retries, retry_k8s_interval,
}
use amazon_vpc_cni_k8s.Ipamd.Setup.{setup_eni}
use amazon_vpc_cni_k8s.Ipamd.Grow.{update_ip_pool_if_required}
use amazon_vpc_cni_k8s.Ipamd.Reconcile.{node_ip_pool_reconcile, node_ip_pool_reconcile_interval}
use amazon_vpc_cni_k8s.Ipamd.Config.{get_max_eni, use_custom_network_cfg}

-- The environment variables that the start reads.
pub record Settings : Type 0 where
  pub max_eni : Option String
  pub custom_network_cfg : String

pub data InitError : Type 0 where
  eni_limit_failed ip_limit_failed attached_enis_failed host_network_failed pods_failed : InitError

abbrev pub ip_pool_monitor_interval : ℕ
ip_pool_monitor_interval = 5 * second

unfoldable pub all_have_an_ip : List K8sPodInfo → Bool
all_have_an_ip [] = true
all_have_an_ip (pod ∷ rest) = not (same pod.ip "") && all_have_an_ip rest

module _ {W : Type 0} (env : Env W) where
  -- The attempts of `nodeInit` to set an ENI up, with those that are left after this one. Another
  -- attempt is made but for a success and for an ENI without a link.
  unfoldable pub setup_rounds : ℕ → EniMetadata → M W (Unit {0})
  setup_rounds zero eni = setup_eni env eni.eni_id eni >>= λ _. pure tt
  setup_rounds (suc left) eni = setup_eni env eni.eni_id eni >>= λ answer. elim answer [
    | none ↦ pure tt
    | some link_not_found ↦ pure tt
    | some _ ↦ pause env eni_attach_time >> setup_rounds left eni
  ]

  unfoldable pub setup_all : List EniMetadata → M W (Unit {0})
  unfolding setup_rounds
  setup_all [] = pure tt
  setup_all (eni ∷ rest) = setup_rounds max_retry_check_eni eni >> setup_all rest

  -- The pods of the last attempt are the answer; else there is another one.
  unfoldable pub last_or :
      ℕ → List K8sPodInfo → M W (Option (List K8sPodInfo)) → M W (Option (List K8sPodInfo))
  last_or zero pods again = pure (some pods)
  last_or (suc n) pods again = again

  -- The attempts of `getLocalPodsWithRetry`, `n` of them. Not all pods may have an address in what
  -- the last one brings.
  unfoldable pub local_pods_rounds : ℕ → M W (Option (List K8sPodInfo))
  unfolding all_have_an_ip last_or
  local_pods_rounds zero = pure none
  local_pods_rounds (suc left) =
      let again = local_pods_rounds left in
      call env.k8s_get_local_pod_ips >>= λ answer. elim answer [
        | none ↦ pause env retry_k8s_interval >> again
        | some pods ↦
            if all_have_an_ip pods
            then pure (some pods)
            else (pause env retry_k8s_interval >> last_or left pods again)
      ]

  unfoldable pub get_local_pods_with_retry : M W (Option (List K8sPodInfo))
  unfolding local_pods_rounds
  get_local_pods_with_retry = local_pods_rounds max_k8s_retries

  -- The pods without a container or an address are skipped; the store's errors are only logged.
  unfoldable pub recover_pods : List K8sPodInfo → M W (Unit {0})
  recover_pods [] = pure tt
  recover_pods (pod ∷ rest) =
      (if same pod.container "" || same pod.ip "" then pure tt else (do
        now ← call env.now
        _ ← on_store (λ ds. assign_pod_ipv4_address ds pod now)
        call (λ w. (tt, env.update_rule_list_by_src pod.ip w))))
      >> recover_pods rest

  -- Without the rule list no pod gets its address back, and the start succeeds all the same.
  unfoldable pub recover : M W (Option InitError)
  unfolding get_local_pods_with_retry recover_pods
  recover = do
    pods ← get_local_pods_with_retry
    elim pods [
      | none ↦ pure (some pods_failed)
      | some used ↦ do
        rules ← call env.get_rule_list
        elim rules [ false ↦ pure none | true ↦ recover_pods used >> pure none ]
    ]

  -- From the attached ENIs on.
  unfoldable pub discover : M W (Option InitError)
  unfolding setup_all recover
  discover = call env.get_attached_enis >>= λ answer. elim answer [
    | none ↦ pure (some attached_enis_failed)
    | some enis ↦ call env.setup_host_network >>= λ done. elim done [
      | false ↦ pure (some host_network_failed)
      | true ↦ do
        modify λ c. record c { data_store = new_data_store c.data_store.gauges }
        setup_all enis
        recover
    ]
  ]

  unfoldable pub init_with_limit : Settings → Option ℤ → M W (Option InitError)
  unfolding discover
  init_with_limit settings none = pure (some ip_limit_failed)
  init_with_limit settings (some limit) =
      modify (λ c. record c {
        max_ips_per_eni = limit;
        use_custom_networking = use_custom_network_cfg settings.custom_network_cfg;
        primary_ip = [];
        reconcile_cooldown_cache = [];
      })
      >> discover

  unfoldable pub init_with_max : Settings → Option ℤ → M W (Option InitError)
  unfolding init_with_limit
  init_with_max settings none = pure (some eni_limit_failed)
  init_with_max settings (some max_eni) = do
    modify λ c. record c { max_eni = max_eni }
    limit ← call env.get_eni_ip_limit
    init_with_limit settings limit

  -- `none` is success.
  unfoldable pub node_init : Settings → M W (Option InitError)
  unfolding init_with_max
  node_init settings = do
    instance_max ← call env.get_eni_limit
    init_with_max settings (get_max_eni settings.max_eni instance_max)

  -- Rounds of the endless loop of `StartNodeIPPoolManager`.
  unfoldable pub manager_rounds : ℕ → M W (Unit {0})
  manager_rounds zero = pure tt
  manager_rounds (suc n) = do
    pause env (ip_pool_monitor_interval / 2)
    update_ip_pool_if_required env
    pause env (ip_pool_monitor_interval / 2)
    node_ip_pool_reconcile env node_ip_pool_reconcile_interval
    manager_rounds n
