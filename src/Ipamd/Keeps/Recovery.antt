-- ===== src/Ipamd/Keeps/Recovery.antt =====
-- ipamd/ipamd.go: the running pods that get their addresses back when the daemon starts.
use amazon_vpc_cni_k8s.Prelude.{
  ◌||◌, ◌≤◌, ◌≡◌, ◌≢◌, refl, sym, ◌∙◌, ℕ, none, List, [], ◌∷◌, All, String, string_discrete, inl,
  inr, Bool-cases, arith, lookup,
}
use mathlib.Core.Path.{subst}
use amazon_vpc_cni_k8s.Datastore.{
  DataStore, K8sPodInfo, PodKey, pod_key, pod_key_discrete, same, assign_pod_ipv4_address,
}
use amazon_vpc_cni_k8s.Datastore.Invariant.{IsValid}
use amazon_vpc_cni_k8s.Datastore.Invariant.Assign.{assign_pod_ipv4_address-IsValid}
use amazon_vpc_cni_k8s.Datastore.Ownership.{pods_with}
use amazon_vpc_cni_k8s.Datastore.Ownership.Plain.{listed}
use amazon_vpc_cni_k8s.Datastore.Ownership.Named.{Agrees, GivesOnly, assign_named-Agrees}
use amazon_vpc_cni_k8s.Datastore.Ownership.Settled.{IsSettled, LeavesOthers, assign_named-IsSettled}
use amazon_vpc_cni_k8s.Datastore.Ownership.Serves.{Serves}
use amazon_vpc_cni_k8s.Ipamd.{IpamContext, Env, pure, call, ◌>>=◌, on_store, recover_pods}

-- No two of the pods have the same name, namespace and container, nor the same address, but for pods
-- without one.
abbrev pub AreApart : List K8sPodInfo → Type 0
AreApart [] = Unit {0}
AreApart (p ∷ pods) =
    All (λ q. (pod_key q ≢ pod_key p) × (q.ip ≡ p.ip → q.ip ≡ "")) pods × AreApart pods

-- The store knows none of these pods, and no pod of it has their addresses.
abbrev pub AreFree : DataStore → List K8sPodInfo → Type 0
AreFree ds = All λ p.
    (lookup pod_key_discrete (pod_key p) ds.pods_ip ≡ none)
    × (p.ip ≢ "" → pods_with p.ip ds.pods_ip ≡ 0)

-- Each of the pods with a container and an address has its address in the store, or no ENI lists it.
abbrev pub AreSettled : DataStore → List K8sPodInfo → Type 0
AreSettled ds = All λ p. p.container ≢ "" → p.ip ≢ "" → IsSettled ds p

-- The store is valid, each address is marked as assigned on as many ENIs as there are pods that
-- have it, and no two pods have the same.
abbrev pub IsRecovered : DataStore → Type 0
IsRecovered ds = IsValid ds × Agrees ds × ((ip : String) → pods_with ip ds.pods_ip ≤ 1)

LeavesOthers-AreFree :
    (pods : List K8sPodInfo) (p : K8sPodInfo) (ds ds' : DataStore)
    → All (λ q. (pod_key q ≢ pod_key p) × (q.ip ≡ p.ip → q.ip ≡ "")) pods
    → GivesOnly p.ip ds ds'
    → LeavesOthers (pod_key p) ds ds'
    → AreFree ds pods
    → AreFree ds' pods
LeavesOthers-AreFree [] p ds ds' apart gives leaves free = tt
LeavesOthers-AreFree (q ∷ pods) p ds ds' apart gives leaves free = (
  (
    leaves.1 (pod_key q) apart.0.0 ∙ free.0.0,
    λ named. gives.0 q.ip (λ e. named (apart.0.1 e)) ∙ free.0.1 named,
  ),
  LeavesOthers-AreFree pods p ds ds' apart.1 gives leaves free.1,
)

assign-IsRecovered :
    (ds : DataStore) (pod : K8sPodInfo) (now : ℕ)
    → pod.ip ≢ ""
    → pods_with pod.ip ds.pods_ip ≡ 0
    → IsRecovered ds
    → let ds' = (assign_pod_ipv4_address ds pod now).0 in IsRecovered ds' × GivesOnly pod.ip ds ds'
assign-IsRecovered ds pod now named free (v, agrees, one) =
    let (agrees', gives) = assign_named-Agrees ds pod now v agrees named free in
    (
      (
        assign_pod_ipv4_address-IsValid ds pod now v,
        agrees',
        λ q. elim (string_discrete q pod.ip) [
          | yes e ↦ rw e (omega (arith, gives.1, free))
          | no ne ↦ omega (arith, gives.0 q ne, one q)
        ],
      ),
      gives,
    )

-- The pods lose nothing but to these.
abbrev LeavesBut : List K8sPodInfo → DataStore → DataStore → Type 0
LeavesBut pods ds ds' =
    ((q : String) → listed q ds'.eni_ip_pools ≡ listed q ds.eni_ip_pools)
    × ((k : PodKey)
        → All (λ q. pod_key q ≢ k) pods
        → lookup pod_key_discrete k ds'.pods_ip ≡ lookup pod_key_discrete k ds.pods_ip)

LeavesBut-IsSettled :
    (p : K8sPodInfo) (pods : List K8sPodInfo) (ds ds' : DataStore)
    → All (λ q. pod_key q ≢ pod_key p) pods
    → LeavesBut pods ds ds'
    → IsSettled ds p
    → IsSettled ds' p
LeavesBut-IsSettled p pods ds ds' others leaves (inl (info, known, its)) =
    inl (info, leaves.1 (pod_key p) others ∙ known, its)
LeavesBut-IsSettled p pods ds ds' others leaves (inr unlisted) = inr (leaves.0 p.ip ∙ unlisted)

other_keys :
    (p : K8sPodInfo) (pods : List K8sPodInfo)
    → All (λ q. (pod_key q ≢ pod_key p) × (q.ip ≡ p.ip → q.ip ≡ "")) pods
    → All (λ q. pod_key q ≢ pod_key p) pods
other_keys p [] apart = tt
other_keys p (q ∷ pods) apart = (apart.0.0, other_keys p pods apart.1)

-- What the recovery of these pods makes of a store.
abbrev pub Settles : List K8sPodInfo → DataStore → DataStore → Type 0
Settles pods ds ds' = IsRecovered ds' × AreSettled ds' pods × LeavesBut pods ds ds'

module _ {W : Type 0} (env : Env W) where
  pub recover_pods-AreSettled :
      (pods : List K8sPodInfo) (c : IpamContext W)
      → AreApart pods
      → AreFree c.data_store pods
      → IsRecovered c.data_store
      → Settles pods c.data_store (recover_pods env pods c).1.data_store
  unfolding recover_pods ◌>>=◌ pure call on_store
  recover_pods-AreSettled [] c apart free r = (r, tt, ((λ q. refl), λ k others. refl))
  recover_pods-AreSettled (pod ∷ pods) c apart free r =
      elim (Bool-cases (same pod.container "" || same pod.ip "")) [
        | inl skipped ↦
            let (r', settled, leaves) = recover_pods-AreSettled pods c apart.1 free.1 r in
            let done : (recover_pods env pods c).1.data_store
                ≡ (recover_pods env (pod ∷ pods) c).1.data_store =
              rw (skipped, recover_pods, ◌>>=◌) refl in
            subst (Settles (pod ∷ pods) c.data_store) done (
              r',
              ((λ contained named. absurd (ground (arith, skipped, contained, named))), settled),
              (leaves.0, λ k others. leaves.1 k others.1),
            )
        | inr named ↦
            let now = (env.now c.world).0 in
            let ds1 = (assign_pod_ipv4_address c.data_store pod now).0 in
            let ne : pod.ip ≢ "" = λ e. ground (arith, named, e) in
            let (r1, gives) = assign-IsRecovered c.data_store pod now ne (free.0.1 ne) r in
            let (settled1, leaves1) =
              assign_named-IsSettled c.data_store pod now r.0 r.1 ne (free.0.1 ne) free.0.0 in
            let c1 = record c {
              data_store = ds1;
              world = env.update_rule_list_by_src pod.ip (env.now c.world).1;
            } in
            let (r', settled, leaves) =
              recover_pods-AreSettled pods c1 apart.1
                (LeavesOthers-AreFree pods pod c.data_store ds1 apart.0 gives leaves1 free.1) r1 in
            let done : (recover_pods env pods c1).1.data_store
                ≡ (recover_pods env (pod ∷ pods) c).1.data_store =
              rw (named, recover_pods, ◌>>=◌) refl in
            subst (Settles (pod ∷ pods) c.data_store) done (
              r',
              (
                (λ contained named'.
                    LeavesBut-IsSettled pod pods ds1 (recover_pods env pods c1).1.data_store
                      (other_keys pod pods apart.0) leaves settled1),
                settled,
              ),
              (
                (λ q. leaves.0 q ∙ leaves1.0 q),
                λ k others. leaves.1 k others.1 ∙ leaves1.1 k (λ e. others.0 (sym e)),
              ),
            )
      ]

-- The daemon's store before the recovery: no pod has an address.
abbrev pub IsUnused : DataStore → Type 0
IsUnused = Serves [] (λ ip. 0)

pub IsUnused-AreFree : (pods : List K8sPodInfo) (ds : DataStore) → IsUnused ds → AreFree ds pods
unfolding lookup
IsUnused-AreFree [] ds u = tt
IsUnused-AreFree (p ∷ pods) ds u =
    ((rw (u.kept) refl, λ named. rw (u.kept) refl), IsUnused-AreFree pods ds u)

pub IsUnused-IsRecovered : (ds : DataStore) → IsUnused ds → IsRecovered ds
IsUnused-IsRecovered ds u =
    (u.valid, (λ ip. rw (u.kept, u.held_as ip) refl), λ ip. rw (u.kept) (omega arith))
