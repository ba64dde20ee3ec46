-- ===== src/Ipamd/Network.antt =====
-- ipamd/rpc_handler.go on a store in which the pods and the marks agree.
use amazon_vpc_cni_k8s.Prelude.{
  ℤ, String, ◌≡◌, refl, inl, inr, ◌↔◌, true, false, none, some, Instant, lookup, arith,
  Option-cases, lookup-insert, ap, sym, ◌∙◌,
}
use mathlib.Core.Path.{subst}
use amazon_vpc_cni_k8s.Datastore.{
  DataStore, K8sPodInfo, PodIpInfo, pod_key, pod_key_discrete, Result, ok, err, unknown_pod, occupy,
  take_slot, find_slot, assign_pod_ipv4_address, assign_pod_ipv4_address_unsafe,
  unassign_pod_ipv4_address,
}
use amazon_vpc_cni_k8s.Datastore.Ownership.{IsBacked, pods_with, held}
use amazon_vpc_cni_k8s.Datastore.Invariant.{IsValid}
use amazon_vpc_cni_k8s.Datastore.Ownership.Pods.{assign-IsBacked}
use amazon_vpc_cni_k8s.Datastore.Ownership.Plain.{unassign_total, unassign_served}
use amazon_vpc_cni_k8s.Ipamd.{
  IpamContext, Env, ◌>>=◌, pure, call, on_store, NetworkRequest, NetworkSettings, requested_pod,
  without_container, answer_ip, succeeded, add_network, unassign, unassign_any, del_network,
}

-- What a successful assignment leaves in the map of the pods.
assigned_entry :
    (ds : DataStore) (pod : K8sPodInfo) (now : Instant) (ip : String) (dev : ℤ)
    → lookup pod_key_discrete (pod_key pod) ds.pods_ip ≡ none
    → (assign_pod_ipv4_address ds pod now).1 ≡ ok (ip, dev)
    → lookup pod_key_discrete (pod_key pod) (assign_pod_ipv4_address ds pod now).0.pods_ip
      ≡ some (record { ip = ip; device_number = dev })
unfolding assign_pod_ipv4_address assign_pod_ipv4_address_unsafe take_slot
assigned_entry ds pod now ip dev new given =
    elim (Option-cases (find_slot pod.ip now ds.eni_ip_pools)) [
      | inl full ↦ absurd (ground arith)
      | inr (slot, found) ↦ ground (
        arith,
        lookup-insert pod_key_discrete (pod_key pod) (pod_key pod)
            (record { ip = slot.addr.address; device_number = slot.eni.device_number })
            (occupy ds slot).pods_ip,
      )
    ]

succeeded_lem :
    (a : Result (String × ℤ)) → succeeded a ≡ true → (dev : ℤ) × (a ≡ ok (answer_ip a, dev))
succeeded_lem (ok (ip, dev)) h = (dev, refl)
succeeded_lem (err e) h = cc

succeeded_not : (a : Result (String × ℤ)) (p : String × ℤ) → a ≡ ok p → ¬ (succeeded a ≡ false)
succeeded_not (ok q) p e = λ h. cc
succeeded_not (err q) p e = λ h. cc

none_not_some : {A : Type 0} {a : A} → ¬ (none ≡ some a)
none_not_some e = cc

unassign_unknown :
    (ds : DataStore) (pod : K8sPodInfo) (now : Instant)
    → lookup pod_key_discrete (pod_key pod) ds.pods_ip ≡ none
    → unassign_pod_ipv4_address ds pod now ≡ (ds, err unknown_pod)
unfolding unassign_pod_ipv4_address
unassign_unknown ds pod now unknown = rw (unknown, unassign_pod_ipv4_address)

module _ {W : Type 0} (env : Env W) where
  -- A known pod is released by one call.
  unassign_known :
      (pod : K8sPodInfo) (c : IpamContext W) (info : PodIpInfo)
      → IsValid c.data_store
      → pods_with info.ip c.data_store.pods_ip ≡ held info.ip c.data_store.eni_ip_pools
      → lookup pod_key_discrete (pod_key pod) c.data_store.pods_ip ≡ some info
      → let r = unassign_any env pod c in
        (dev : ℤ) × (r.0 ≡ ok (info.ip, dev))
        × (lookup pod_key_discrete (pod_key pod) r.1.data_store.pods_ip ≡ none)
  unfolding unassign_any unassign ◌>>=◌ call on_store pure
  unassign_known pod c info v backed known =
      let (dev, answer, gone, others) =
        unassign_served c.data_store pod (env.now c.world).0 info v backed known in
      (dev, rw (answer, unassign_any, ◌>>=◌), rw (answer, unassign_any, ◌>>=◌) gone)

  -- On a backed store that does not know the pod: when `AddNetwork` succeeds, the store is backed
  -- again, and a `DelNetwork` of the same request right after it succeeds with the same address
  -- and leaves a store that does not know the pod.
  pub del_network-add_network :
      (net : NetworkSettings) (r : NetworkRequest) (c : IpamContext W)
      → IsBacked c.data_store
      → lookup pod_key_discrete (pod_key (requested_pod r)) c.data_store.pods_ip ≡ none
      → (add_network env net r c).0.success ≡ true
      → let added = add_network env net r c in
        let deleted = del_network env r added.1 in
        (deleted.0.success ≡ true)
        × (deleted.0.ipv4_addr ≡ added.0.ipv4_addr)
        × (lookup pod_key_discrete (pod_key (requested_pod r)) deleted.1.data_store.pods_ip ≡ none)
        × IsBacked added.1.data_store
  unfolding add_network del_network ◌>>=◌ call on_store pure
  del_network-add_network net r c b new success =
      let pod = requested_pod r in
      let now = (env.now c.world).0 in
      let answer = (assign_pod_ipv4_address c.data_store pod now).1 in
      let (dev, given) = succeeded_lem answer success in
      let b' = assign-IsBacked c.data_store pod now (inl refl) b in
      let entry = assigned_entry c.data_store pod now (answer_ip answer) dev new given in
      let (dev', released, gone) =
        unassign_known pod (add_network env net r c).1 _ b'.valid (b'.backed _) entry in
      (ap succeeded released, ap answer_ip released, gone, b')

  -- A request to release a pod that the store knows, on a valid store with its address backed.
  pub del_network_known :
      (r : NetworkRequest) (c : IpamContext W) (info : PodIpInfo)
      → IsValid c.data_store
      → pods_with info.ip c.data_store.pods_ip ≡ held info.ip c.data_store.eni_ip_pools
      → lookup pod_key_discrete (pod_key (requested_pod r)) c.data_store.pods_ip ≡ some info
      → let deleted = del_network env r c in
        (deleted.0.success ≡ true)
        × (deleted.0.ipv4_addr ≡ info.ip)
        × (lookup pod_key_discrete (pod_key (requested_pod r)) deleted.1.data_store.pods_ip ≡ none)
  unfolding del_network ◌>>=◌ pure
  del_network_known r c info v backed known =
      let (dev, released, gone) = unassign_known (requested_pod r) c info v backed known in
      (ap succeeded released, ap answer_ip released, gone)

  -- The same, when only the store is known to be that of the successful `AddNetwork`.
  pub released_from :
      (net : NetworkSettings) (r : NetworkRequest) (c c' : IpamContext W)
      → IsBacked c.data_store
      → lookup pod_key_discrete (pod_key (requested_pod r)) c.data_store.pods_ip ≡ none
      → (add_network env net r c).0.success ≡ true
      → c'.data_store ≡ (add_network env net r c).1.data_store
      → lookup pod_key_discrete
          (pod_key (requested_pod r))
          (del_network env r c').1.data_store.pods_ip
        ≡ none
  unfolding add_network del_network ◌>>=◌ call on_store pure
  released_from net r c c' b new success kept =
      let pod = requested_pod r in
      let now = (env.now c.world).0 in
      let answer = (assign_pod_ipv4_address c.data_store pod now).1 in
      let (dev, given) = succeeded_lem answer success in
      let b' = assign-IsBacked c.data_store pod now (inl refl) b in
      let entry = assigned_entry c.data_store pod now (answer_ip answer) dev new given in
      let info : PodIpInfo = record { ip = answer_ip answer; device_number = dev } in
      let backed = subst IsBacked (sym kept) b' in
      (unassign_known pod c' info backed.valid (backed.backed info.ip) (
        subst (λ ds. lookup pod_key_discrete (pod_key pod) ds.pods_ip ≡ some info) (sym kept)
          entry)).2

  -- An `AddNetwork` for a pod that already has an address is refused: the reply is a failure
  -- without an address, and the store stays as it was.
  pub add_network_known :
      (net : NetworkSettings) (r : NetworkRequest) (c : IpamContext W) (info : PodIpInfo)
      → lookup pod_key_discrete (pod_key (requested_pod r)) c.data_store.pods_ip ≡ some info
      → ((add_network env net r c).0.success ≡ false)
        × ((add_network env net r c).0.ipv4_addr ≡ "")
        × ((add_network env net r c).1.data_store ≡ c.data_store)
  unfolding add_network ◌>>=◌ call on_store pure assign_pod_ipv4_address
  add_network_known net r c info known = ground arith

  -- A pod that is known only without its container is released by the second call.
  released_without :
      (pod : K8sPodInfo) (c : IpamContext W) (info : PodIpInfo)
      → IsBacked c.data_store
      → lookup pod_key_discrete (pod_key pod) c.data_store.pods_ip ≡ none
      → lookup pod_key_discrete (pod_key (without_container pod)) c.data_store.pods_ip ≡ some info
      → (dev : ℤ) × ((unassign_any env pod c).0 ≡ ok (info.ip, dev))
  unfolding unassign_any unassign ◌>>=◌ call on_store pure
  released_without pod c info b unknown known =
      let again = (env.now (env.now c.world).1).0 in
      let first = unassign_unknown c.data_store pod (env.now c.world).0 unknown in
      let (dev, answer, gone, others) =
        unassign_total c.data_store (without_container pod) again info b known in
      (dev, rw (first, unassign_any, ◌>>=◌) answer)

  unknown_twice :
      (pod : K8sPodInfo) (c : IpamContext W)
      → lookup pod_key_discrete (pod_key pod) c.data_store.pods_ip ≡ none
      → lookup pod_key_discrete (pod_key (without_container pod)) c.data_store.pods_ip ≡ none
      → (unassign_any env pod c).0 ≡ err unknown_pod
  unfolding unassign_any unassign ◌>>=◌ call on_store pure
  unknown_twice pod c unknown neither =
      let again = (env.now (env.now c.world).1).0 in
      rw (unassign_unknown c.data_store pod (env.now c.world).0 unknown, unassign_any, ◌>>=◌)
        (ap (λ r. r.1) (unassign_unknown c.data_store (without_container pod) again neither))

  -- On a backed store `DelNetwork` fails exactly when the store knows the pod neither with its
  -- container nor without.
  pub del_network_fails_iff :
      (r : NetworkRequest) (c : IpamContext W)
      → IsBacked c.data_store
      → ((del_network env r c).0.success ≡ false) ↔ (
          (lookup pod_key_discrete (pod_key (requested_pod r)) c.data_store.pods_ip ≡ none)
          × (lookup pod_key_discrete
                (pod_key (without_container (requested_pod r)))
                c.data_store.pods_ip
              ≡ none))
  unfolding del_network ◌>>=◌ pure
  del_network_fails_iff r c b =
      let pod = requested_pod r in
      elim (Option-cases (lookup pod_key_discrete (pod_key pod) c.data_store.pods_ip)) [
        | inr (info, known) ↦
            let (dev, released, gone) =
              unassign_known pod c info b.valid (b.backed info.ip) known in
            (
              λ failed. absurd (succeeded_not _ _ released failed),
              λ p. absurd (none_not_some (sym p.0 ∙ known)),
            )
        | inl unknown ↦
            elim (Option-cases
              (lookup pod_key_discrete (pod_key (without_container pod)) c.data_store.pods_ip)) [
                | inr (info, known) ↦
                    let (dev, released) = released_without pod c info b unknown known in
                    (
                      λ failed. absurd (succeeded_not _ _ released failed),
                      λ p. absurd (none_not_some (sym p.1 ∙ known)),
                    )
                | inl neither ↦ (
                  λ _. (unknown, neither),
                  λ _. ap succeeded (unknown_twice pod c unknown neither),
                )
              ]
      ]
