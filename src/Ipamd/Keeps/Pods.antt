-- ===== src/Ipamd/Keeps/Pods.antt =====
-- ipamd/ipamd.go: the loop of the daemon, as seen by the pods.
use amazon_vpc_cni_k8s.Prelude.{ℕ, String, ◌≡◌, Dict, ◌∙◌, sym, ap, some, none, true, lookup}
use amazon_vpc_cni_k8s.Datastore.{PodKey, PodIpInfo, pod_key, pod_key_discrete}
use amazon_vpc_cni_k8s.Datastore.History.{
  step, adds_eni, adds_ip, dels_ip, assigns, unassigns, removes_unused, removes_eni,
}
use amazon_vpc_cni_k8s.Datastore.Ownership.{pods_with, IsBacked}
use amazon_vpc_cni_k8s.Datastore.Ownership.Serves.{
  Serves, add_eni-Serves, add_ip-Serves, del_ip-Serves, remove_unused-Serves, remove_eni-Serves,
}
use amazon_vpc_cni_k8s.Datastore.Ownership.Addresses.{serves}
use amazon_vpc_cni_k8s.Ipamd.{
  IpamContext, Env, manager_rounds, NetworkRequest, requested_pod, del_network,
}
use amazon_vpc_cni_k8s.Ipamd.Network.{del_network_known}
use amazon_vpc_cni_k8s.Ipamd.Keeps.{PoolStable}
use amazon_vpc_cni_k8s.Ipamd.Keeps.Reconcile

pub step-Serves : (pods : Dict PodKey PodIpInfo) (n : String → ℕ) → PoolStable (Serves pods n)
unfolding step
step-Serves pods n ds (now, adds_eni id dev primary) q s =
    add_eni-Serves pods n ds id dev primary now s
step-Serves pods n ds (now, adds_ip id ip) q s = add_ip-Serves pods n ds id ip s
step-Serves pods n ds (now, dels_ip id ip) q s = del_ip-Serves pods n ds id ip s
step-Serves pods n ds (now, assigns pod) q s = absurd q
step-Serves pods n ds (now, unassigns pod) q s = absurd q
step-Serves pods n ds (now, removes_unused target) q s = remove_unused-Serves pods n ds target now s
step-Serves pods n ds (now, removes_eni id) q s = remove_eni-Serves pods n ds id s

-- From a backed store, any number of rounds of the loop that keeps the pool, whatever EC2, the
-- metadata service and the clock answer, leave a valid store with the same map of the pods, in which
-- each address is marked as assigned on as many ENIs as there are pods that have it.
pub manager_rounds_serve :
    {W : Type 0} (env : Env W) (n : ℕ) (c : IpamContext W)
    → IsBacked c.data_store
    → Serves c.data_store.pods_ip
        (λ ip. pods_with ip c.data_store.pods_ip)
        (manager_rounds env n c).1.data_store
manager_rounds_serve env n c b =
    Reconcile.manager_rounds-Keeps env _ (step-Serves _ _) n c (serves c.data_store b)

-- A pod that a backed store knows is released after any number of rounds of the loop that keeps the
-- pool, whatever EC2, the metadata service and the clock answer: `DelNetwork` then succeeds with the
-- address that the store had for the pod before the rounds, and the store forgets the pod.
pub del_network-manager_rounds :
    {W : Type 0} (env : Env W) (n : ℕ) (r : NetworkRequest) (c : IpamContext W) (info : PodIpInfo)
    → IsBacked c.data_store
    → lookup pod_key_discrete (pod_key (requested_pod r)) c.data_store.pods_ip ≡ some info
    → let deleted = del_network env r (manager_rounds env n c).1 in
      (deleted.0.success ≡ true)
      × (deleted.0.ipv4_addr ≡ info.ip)
      × (lookup pod_key_discrete (pod_key (requested_pod r)) deleted.1.data_store.pods_ip ≡ none)
del_network-manager_rounds env n r c info b known =
    let c' = (manager_rounds env n c).1 in
    let s = manager_rounds_serve env n c b in
    del_network_known env r c' info s.valid
      (ap (pods_with info.ip) s.kept ∙ sym (s.held_as info.ip))
      (ap (lookup pod_key_discrete (pod_key (requested_pod r))) s.kept ∙ known)
