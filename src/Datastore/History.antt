-- ===== src/Datastore/History.antt =====
-- The store of ipamd/datastore/data_store.go under any sequence of calls of its methods. The lock
-- makes each of them one step.
pub mod Gauges
use amazon_vpc_cni_k8s.Prelude.{ℤ, String, Bool, List, [], ◌∷◌, Instant, Dict}
use amazon_vpc_cni_k8s.Datastore.{
  DataStore, K8sPodInfo, new_data_store, add_eni, add_ipv4_address_from_store,
  del_ipv4_address_from_store, assign_pod_ipv4_address, unassign_pod_ipv4_address,
  remove_unused_eni_from_store, remove_eni_from_data_store,
}
use amazon_vpc_cni_k8s.Datastore.Invariant.{IsValid, new_data_store-IsValid}
use amazon_vpc_cni_k8s.Datastore.Invariant.Addresses.{
  add_eni-IsValid, add_ipv4_address_from_store-IsValid, del_ipv4_address_from_store-IsValid,
}
use amazon_vpc_cni_k8s.Datastore.Invariant.Assign.{
  assign_pod_ipv4_address-IsValid, unassign_pod_ipv4_address-IsValid,
}
use amazon_vpc_cni_k8s.Datastore.Invariant.Enis.{
  remove_unused_eni_from_store-IsValid, remove_eni_from_data_store-IsValid,
}

pub data Call : Type 0 where
  adds_eni : String → ℤ → Bool → Call
  adds_ip dels_ip : String → String → Call
  assigns unassigns : K8sPodInfo → Call
  removes_unused : ℤ → Call
  removes_eni : String → Call

-- A call at a reading of the clock.
unfoldable pub step : DataStore → Instant × Call → DataStore
step ds (now, adds_eni id dev primary) = (add_eni ds id dev primary now).0
step ds (now, adds_ip id ip) = (add_ipv4_address_from_store ds id ip).0
step ds (now, dels_ip id ip) = (del_ipv4_address_from_store ds id ip).0
step ds (now, assigns pod) = (assign_pod_ipv4_address ds pod now).0
step ds (now, unassigns pod) = (unassign_pod_ipv4_address ds pod now).0
step ds (now, removes_unused target) = (remove_unused_eni_from_store ds target now).0
step ds (now, removes_eni id) = (remove_eni_from_data_store ds id).0

unfoldable pub run : DataStore → List (Instant × Call) → DataStore
run ds [] = ds
run ds (c ∷ cs) = run (step ds c) cs

pub step-IsValid : (ds : DataStore) (c : Instant × Call) → IsValid ds → IsValid (step ds c)
unfolding step
step-IsValid ds (now, adds_eni id dev primary) v = add_eni-IsValid ds id dev primary now v
step-IsValid ds (now, adds_ip id ip) v = add_ipv4_address_from_store-IsValid ds id ip v
step-IsValid ds (now, dels_ip id ip) v = del_ipv4_address_from_store-IsValid ds id ip v
step-IsValid ds (now, assigns pod) v = assign_pod_ipv4_address-IsValid ds pod now v
step-IsValid ds (now, unassigns pod) v = unassign_pod_ipv4_address-IsValid ds pod now v
step-IsValid ds (now, removes_unused target) v =
    remove_unused_eni_from_store-IsValid ds target now v
step-IsValid ds (now, removes_eni id) v = remove_eni_from_data_store-IsValid ds id v

-- From any valid store, after any sequence of calls of the store's methods at any readings of the
-- clock, the maps have no key twice, every ENI's counter is the number of its assigned addresses,
-- the store's total is the number of all addresses and its counter of assigned ones is the number
-- of all assigned addresses.
pub run-IsValid : (ds : DataStore) (cs : List (Instant × Call)) → IsValid ds → IsValid (run ds cs)
unfolding run
run-IsValid ds [] v = v
run-IsValid ds (c ∷ cs) v = run-IsValid (step ds c) cs (step-IsValid ds c v)
