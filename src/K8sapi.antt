-- ===== src/K8sapi.antt =====
-- pkg/k8sapi/discovery.go: the controller that keeps the pods of the node, fed by a work queue.
pub mod History
pub mod Stale
pub mod Requeue
mod Tests
use amazon_vpc_cni_k8s.Prelude.{
  ℕ, ltb, String, codes, is_prefix, same, string_discrete, Bool, true, false, not, ◌&&◌, Option,
  none, some, List, [], ◌∷◌, map, if◌then◌else◌, Dict, insert, remove,
}
use amazon_vpc_cni_k8s.Datastore.{K8sPodInfo}

-- The fields of a `v1.Pod` that the controller reads; `container_statuses` are the containers' ids.
pub record Pod : Type 0 where
  pub name : String
  pub namespace : String
  pub uid : String
  pub node_name : String
  pub host_network : Bool
  pub container_statuses : List String
  pub pod_ip : String

-- What the informer's index answers for a key: an error, nothing, an object that is no pod, a pod.
pub data Found : Type 0 where
  get_failed missing other_object : Found
  found : Pod → Found

pub data PodError : Type 0 where
  get_by_key_failed not_a_pod : PodError

pub record Controller : Type 0 where
  pub worker_pods : Dict String K8sPodInfo
  pub cni_pods : Dict String String
  pub my_node_name : String
  pub synced : Bool

-- `metav1.NamespaceSystem + "/" + cniPodName`
abbrev pub cni_pod_key : String
cni_pod_key = "kube-system/aws-node"

unfoldable pub is_cni_key : String → Bool
is_cni_key key = is_prefix (codes cni_pod_key) (codes key)

-- `NewController`, for the value of MY_NODE_NAME.
unfoldable pub new_controller : String → Controller
new_controller node = record {
  worker_pods = [];
  cni_pods = [];
  my_node_name = node;
  synced = false;
}

abbrev pub first_container : List String → String
first_container [] = ""
first_container (id ∷ ids) = id

unfoldable pub pod_info : Pod → K8sPodInfo
pod_info pod = record {
  container = first_container pod.container_statuses;
  name = pod.name;
  namespace = pod.namespace;
  uid = pod.uid;
  ip = pod.pod_ip;
}

-- A pod of this node that has an address of its own.
abbrev pub is_local : String → Pod → Bool
is_local node pod = same node pod.node_name && not pod.host_network

unfoldable pub forget_pod : String → Controller → Controller
forget_pod key d = record d {
  worker_pods = remove string_discrete key d.worker_pods;
  cni_pods = if is_cni_key key then remove string_discrete key d.cni_pods else d.cni_pods;
}

unfoldable pub keep_pod : String → Pod → Controller → Controller
keep_pod key pod d =
    if is_local d.my_node_name pod
    then record d { worker_pods = insert string_discrete key (pod_info pod) d.worker_pods }
    else if is_cni_key key
    then record d { cni_pods = insert string_discrete pod.name pod.name d.cni_pods }
    else d

unfoldable pub take_in : Found → String → Controller → Option PodError × Controller
take_in get_failed key d = (some get_by_key_failed, d)
take_in missing key d = (none, forget_pod key d)
take_in other_object key d = (some not_a_pod, d)
take_in (found pod) key d = (none, keep_pod key pod d)

-- `handlePodUpdate`, for the index at that time.
unfoldable pub handle_pod_update :
    (String → Found) → String → Controller → Option PodError × Controller
handle_pod_update index key d = take_in (index key) key d

-- `workqueue.RateLimitingInterface`; `get` answers `none` once the queue is shut down.
pub record WorkQueue (Q : Type 0) : Type 0 where
  pub add : String → Q → Q
  pub get : Q → Option String × Q
  pub done : String → Q → Q
  pub forget : String → Q → Q
  pub num_requeues : String → Q → ℕ
  pub add_rate_limited : String → Q → Q

module _ {Q : Type 0} (queue : WorkQueue Q) where
  -- The handlers of the informer's events: the object's key, unless it has none.
  unfoldable pub on_event : Option String → Q → Q
  on_event none q = q
  on_event (some key) q = queue.add key q

  -- `handleErr`
  unfoldable pub handle_err : Option PodError → String → Q → Q
  handle_err none key q = queue.forget key q
  handle_err (some e) key q =
      if ltb (queue.num_requeues key q) 5 then queue.add_rate_limited key q else queue.forget key q

  -- `processNextItem`: whether the worker goes on.
  unfoldable pub process_next_item : (String → Found) → Controller × Q → Bool × (Controller × Q)
  process_next_item index (d, q) =
      let next = queue.get q in
      elim next.0 [
        | none ↦ (false, (d, next.1))
        | some key ↦
            let r = handle_pod_update index key d in
            (true, (r.1, queue.done key (handle_err r.0 key next.1)))
      ]

-- `run`, once the caches are synced, or not.
unfoldable pub run : Bool → Controller → Controller
run caches_synced d = if caches_synced then record d { synced = true } else d

unfoldable pub values : {K V : Type 0} → Dict K V → List V
values [] = []
values ((k, v) ∷ m) = v ∷ values m

unfoldable pub keys : {K V : Type 0} → Dict K V → List K
keys [] = []
keys ((k, v) ∷ m) = k ∷ keys m

-- `K8SGetLocalPodIPs`; `none` is `ErrInformerNotSynced`.
unfoldable pub k8s_get_local_pod_ips : Controller → Option (List K8sPodInfo)
k8s_get_local_pod_ips d = if d.synced then some (values d.worker_pods) else none

-- `GetCNIPods`
unfoldable pub get_cni_pods : Controller → List String
get_cni_pods d = keys d.cni_pods
