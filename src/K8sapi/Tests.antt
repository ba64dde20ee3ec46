-- ===== src/K8sapi/Tests.antt =====
-- Runs of pkg/k8sapi/discovery.go on a node with one worker pod and one CNI pod.
use amazon_vpc_cni_k8s.Prelude.{
  ℕ, suc, ◌%◌, if◌then◌else◌, String, same, string_discrete, ◌≡◌, refl, true, false, none, some, [],
  ◌∷◌, lookup, same_refl,
}
use amazon_vpc_cni_k8s.K8sapi.{
  Pod, missing, found, Controller, WorkQueue, get_by_key_failed, new_controller, pod_info,
  is_cni_key,
}
use amazon_vpc_cni_k8s.K8sapi.History.{History, after, latest, after-latest}
use amazon_vpc_cni_k8s.K8sapi.Stale.{after-still_listed}
use amazon_vpc_cni_k8s.K8sapi.Requeue.{Counts, failures, failures-num_requeues}

abbrev worker : Pod
worker = record {
  name = "web";
  namespace = "default";
  uid = "u1";
  node_name = "n1";
  host_network = false;
  container_statuses = "c1" ∷ [];
  pod_ip = "10.0.0.2";
}

abbrev agent : Pod
agent = record {
  name = "aws-node-x";
  namespace = "kube-system";
  uid = "u2";
  node_name = "n1";
  host_network = true;
  container_statuses = [];
  pod_ip = "10.0.0.9";
}

-- The CNI pod appears and is deleted.
abbrev agent_deleted : History
agent_deleted =
    ("kube-system/aws-node-x", λ key. missing) ∷ ("kube-system/aws-node-x", λ key. found agent) ∷ []

abbrev worker_added : History
worker_added = ("default/web", λ key. found worker) ∷ agent_deleted

worker_seen : latest "n1" "default/web" worker_added ≡ some (pod_info worker)
unfolding latest string_discrete
worker_seen = refl

after-latest_example :
    lookup string_discrete "default/web" (after worker_added (new_controller "n1")).worker_pods
    ≡ latest "n1" "default/web" worker_added
after-latest_example = after-latest worker_added "n1" "default/web"

-- A controller that has seen the CNI pod.
abbrev listing : Controller
listing = record {
  worker_pods = [];
  cni_pods = ("aws-node-x", "aws-node-x") ∷ [];
  my_node_name = "n1";
  synced = true;
}

agent_no_key : is_cni_key "aws-node-x" ≡ false
unfolding is_cni_key
agent_no_key = refl

agent_listed : lookup string_discrete "aws-node-x" listing.cni_pods ≡ some "aws-node-x"
unfolding lookup string_discrete
agent_listed = refl

after-still_listed_example :
    lookup string_discrete "aws-node-x" (after agent_deleted listing).cni_pods ≡ some "aws-node-x"
after-still_listed_example =
    after-still_listed "aws-node-x" agent_no_key agent_deleted listing agent_listed

-- A queue that only counts.
abbrev counter : WorkQueue (String → ℕ)
counter = record {
  add = λ k q. q;
  get = λ q. (none, q);
  done = λ k q. q;
  forget = λ k q j. if same j k then 0 else q j;
  num_requeues = λ k q. q k;
  add_rate_limited = λ k q j. if same j k then suc (q j) else q j;
}

counter-Counts : Counts counter
counter-Counts = record {
  forgets = λ k q. rw (same_refl k) refl;
  counts = λ k q. rw (same_refl k) refl;
}

failures-num_requeues_example :
    counter.num_requeues "default/web" (failures counter get_by_key_failed "default/web" 8 (λ k. 0))
    ≡ 8 % 6
failures-num_requeues_example =
    failures-num_requeues counter counter-Counts get_by_key_failed "default/web" 8 (λ k. 0) refl
