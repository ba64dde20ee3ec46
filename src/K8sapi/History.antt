-- ===== src/K8sapi/History.antt =====
-- What the controller of pkg/k8sapi/discovery.go knows after any updates.
use amazon_vpc_cni_k8s.Prelude.{
  String, ◌≡◌, refl, sym, ◌∙◌, true, false, Bool-cases, inl, inr, same, ite, string_discrete,
  Option, none, some, List, [], ◌∷◌, if◌then◌else◌, lookup, insert, remove, Distinct, lookup-insert,
  lookup-remove_ne, lookup-remove_self, insert-Distinct, remove-Distinct, arith,
}
use amazon_vpc_cni_k8s.Datastore.{K8sPodInfo}
use amazon_vpc_cni_k8s.K8sapi.{
  Pod, Found, get_failed, missing, other_object, found, Controller, new_controller, pod_info,
  is_local, forget_pod, keep_pod, take_in, handle_pod_update,
}

-- The keys that were handled, the latest first, each with the index at that time.
abbrev pub History : Type 0
History = List (String × (String → Found))

unfoldable pub after : History → Controller → Controller
after [] d = d
after ((key, index) ∷ older) d = (handle_pod_update index key (after older d)).1

-- The last word of the index on a key, if it had one: no pod, or a pod of the node.
abbrev last_word : String → Found → Option K8sPodInfo → Option K8sPodInfo
last_word node get_failed before = before
last_word node missing before = none
last_word node other_object before = before
last_word node (found pod) before = if is_local node pod then some (pod_info pod) else before

-- The last word of the index on a key, if it had one: no pod, or a pod of the node.
unfoldable pub latest : String → String → History → Option K8sPodInfo
latest node k [] = none
latest node k ((key, index) ∷ older) =
    let before = latest node k older in
    if same key k then last_word node (index key) before else before

module _ (key : String) (d : Controller) where
  keep_pod-my_node_name : (pod : Pod) → (keep_pod key pod d).my_node_name ≡ d.my_node_name
  unfolding keep_pod
  keep_pod-my_node_name pod = ground arith

  take_in-my_node_name : (f : Found) → (take_in f key d).1.my_node_name ≡ d.my_node_name
  unfolding take_in forget_pod
  take_in-my_node_name get_failed = refl
  take_in-my_node_name missing = refl
  take_in-my_node_name other_object = refl
  take_in-my_node_name (found pod) = keep_pod-my_node_name pod

  keep_pod-worker_pods :
      (pod : Pod)
      → (keep_pod key pod d).worker_pods ≡ (
          if is_local d.my_node_name pod
          then insert string_discrete key (pod_info pod) d.worker_pods
          else d.worker_pods)
  unfolding keep_pod
  keep_pod-worker_pods pod = ground arith

  take_in-Distinct :
      (f : Found)
      → Distinct string_discrete d.worker_pods
      → Distinct string_discrete (take_in f key d).1.worker_pods
  unfolding take_in forget_pod
  take_in-Distinct get_failed h = h
  take_in-Distinct missing h = remove-Distinct string_discrete key d.worker_pods h
  take_in-Distinct other_object h = h
  take_in-Distinct (found pod) h = elim (Bool-cases (is_local d.my_node_name pod)) [
    | inl e ↦
        rw (keep_pod-worker_pods pod, e)
          (insert-Distinct string_discrete key (pod_info pod) d.worker_pods h)
    | inr e ↦ rw (keep_pod-worker_pods pod, e) h
  ]

  take_in-worker_pods :
      (k : String) (f : Found)
      → Distinct string_discrete d.worker_pods
      → lookup string_discrete k (take_in f key d).1.worker_pods ≡ (
          if same key k
          then last_word d.my_node_name f (lookup string_discrete k d.worker_pods)
          else lookup string_discrete k d.worker_pods)
  unfolding take_in forget_pod
  take_in-worker_pods k get_failed h = ground arith
  take_in-worker_pods k missing h =
      elim (string_discrete key k)
        as (λ c.
          lookup string_discrete k (remove string_discrete key d.worker_pods)
          ≡ (if ite c true false then none else lookup string_discrete k d.worker_pods)) [
            | yes e ↦ rw e (lookup-remove_self string_discrete k d.worker_pods h)
            | no n ↦ lookup-remove_ne string_discrete key k d.worker_pods (λ e. n (sym e))
          ]
  take_in-worker_pods k other_object h = ground arith
  take_in-worker_pods k (found pod) h = elim (Bool-cases (is_local d.my_node_name pod)) [
    | inl e ↦
        rw
          (
            keep_pod-worker_pods pod,
            e,
            lookup-insert string_discrete key k (pod_info pod) d.worker_pods,
          )
          (ground arith)
    | inr e ↦ rw (keep_pod-worker_pods pod, e) (ground arith)
  ]

after-Distinct :
    (h : History) (node : String)
    → Distinct string_discrete (after h (new_controller node)).worker_pods
unfolding after handle_pod_update new_controller
after-Distinct [] node = tt
after-Distinct ((key, index) ∷ older) node =
    take_in-Distinct key (after older (new_controller node)) (index key) (after-Distinct older node)

after-my_node_name :
    (h : History) (node : String) → (after h (new_controller node)).my_node_name ≡ node
unfolding after handle_pod_update new_controller
after-my_node_name [] node = refl
after-my_node_name ((key, index) ∷ older) node =
    take_in-my_node_name key (after older (new_controller node)) (index key)
    ∙ after-my_node_name older node

-- After any updates, the controller's entry for a key is the last word that the index had on it
-- when the key was handled: the pod's data if it was last found on this node with an address of
-- its own, and none if it was last missing or never found so; errors, objects that are no pods and
-- pods of other nodes leave the entry as it was.
pub after-latest :
    (h : History) (node k : String)
    → lookup string_discrete k (after h (new_controller node)).worker_pods ≡ latest node k h
unfolding after latest handle_pod_update new_controller lookup
after-latest [] node k = refl
after-latest ((key, index) ∷ older) node k =
    let d = after older (new_controller node) in
    rw
      (
        take_in-worker_pods key d k (index key) (after-Distinct older node),
        after-my_node_name older node,
        after-latest older node k,
      )
      refl
