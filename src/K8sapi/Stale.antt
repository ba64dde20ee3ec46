-- ===== src/K8sapi/Stale.antt =====
-- The names that `GetCNIPods` lists, in pkg/k8sapi/discovery.go: they are kept by pod name and
-- deleted by key.
use amazon_vpc_cni_k8s.Prelude.{
  String, ◌≡◌, ◌≢◌, refl, ◌∙◌, true, false, Bool-cases, inl, inr, string_discrete, some, [], ◌∷◌,
  lookup, lookup-insert, lookup-remove_ne, arith,
}
use amazon_vpc_cni_k8s.K8sapi.{
  Pod, Found, get_failed, missing, other_object, found, Controller, is_cni_key, forget_pod,
  keep_pod, take_in, handle_pod_update,
}
use amazon_vpc_cni_k8s.K8sapi.History.{History, after}

module _ (name : String) (not_key : is_cni_key name ≡ false) where
  not_cni_key : (key : String) → is_cni_key key ≡ true → name ≢ key
  not_cni_key key h e = cc

  forget_pod-keeps :
      (key : String) (d : Controller)
      → lookup string_discrete name (forget_pod key d).cni_pods
        ≡ lookup string_discrete name d.cni_pods
  unfolding forget_pod
  forget_pod-keeps key d = elim (Bool-cases (is_cni_key key)) [
    | inl e ↦ rw e (lookup-remove_ne string_discrete key name d.cni_pods (not_cni_key key e))
    | inr e ↦ rw e refl
  ]

  keep_pod-keeps :
      (key : String) (pod : Pod) (d : Controller)
      → lookup string_discrete name d.cni_pods ≡ some name
      → lookup string_discrete name (keep_pod key pod d).cni_pods ≡ some name
  unfolding keep_pod
  keep_pod-keeps key pod d h =
      ground (arith, lookup-insert string_discrete pod.name name pod.name d.cni_pods)

  take_in-keeps :
      (f : Found) (key : String) (d : Controller)
      → lookup string_discrete name d.cni_pods ≡ some name
      → lookup string_discrete name (take_in f key d).1.cni_pods ≡ some name
  unfolding take_in
  take_in-keeps get_failed key d h = h
  take_in-keeps missing key d h = forget_pod-keeps key d ∙ h
  take_in-keeps other_object key d h = h
  take_in-keeps (found pod) key d h = keep_pod-keeps key pod d h

  -- A CNI pod that is listed stays listed, whatever the index says of any key afterwards: also when
  -- the pod is deleted. (Its name does not start like the keys of the CNI's pods, "kube-system/…".)
  pub after-still_listed :
      (h : History) (d : Controller)
      → lookup string_discrete name d.cni_pods ≡ some name
      → lookup string_discrete name (after h d).cni_pods ≡ some name
  unfolding after handle_pod_update
  after-still_listed [] d l = l
  after-still_listed ((key, index) ∷ older) d l =
      take_in-keeps (index key) key (after older d) (after-still_listed older d l)
