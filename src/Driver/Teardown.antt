-- ===== src/Driver/Teardown.antt =====
-- plugins/routed-eni/driver/driver.go: what is left of a pod's rules after its teardown.
use amazon_vpc_cni_k8s.Prelude.{
  ◌≡◌, refl, sym, ap, ◌∙◌, inl, inr, ℤ, pos, Bool, true, Option, none, some, List, [],
  if◌then◌else◌, Bool-cases,
}
use amazon_vpc_cni_k8s.Prelude.Actions.{◌>>=◌, pure, attempt, Answer-cases, bind_ok}
use mathlib.Core.Path.{subst}
use amazon_vpc_cni_k8s.Netlink.{ok, IpNet, Route, Rule, NetLink, wrapped}
use amazon_vpc_cni_k8s.Netlink.Kernel.{KeepsRules, has, remove_first}
use amazon_vpc_cni_k8s.Networkutils.{get_rule_list_by_src, delete_rule_list_by_src}
use amazon_vpc_cni_k8s.Networkutils.Sources.{rules_not_from, delete_rule_list_by_src_lem}
use amazon_vpc_cni_k8s.Networkutils.Updates.{none_left}
use amazon_vpc_cni_k8s.Driver.{
  tear_down_ns, is_positive, to_container_rule_priority, route_to, host_addr,
}

-- The rule that the teardown of a pod deletes by itself.
abbrev pub to_container_rule : {W : Type 0} → NetLink W → IpNet → Rule
to_container_rule nl addr = record (nl.new_rule) {
  dst = some addr;
  priority = to_container_rule_priority;
}

module _ {W : Type 0} (nl : NetLink W) (rules_of : W → List Rule) (covers : Rule → Rule → Bool)
    (keeps : KeepsRules nl rules_of covers) (addr : IpNet) (table : ℤ) where
  -- Deleting a rule, whatever the answer, does not end the method.
  attempt-rule_del :
      (r : Rule) (w : W)
      → (o : Option (Unit {0})) × ((attempt (nl.rule_del r) w).0 ≡ ok o)
        × (rules_of (attempt (nl.rule_del r) w).1 ≡ remove_first (covers r) (rules_of w))
  unfolding attempt
  attempt-rule_del r w = elim (Bool-cases (has (covers r) (rules_of w))) [
    | inl found ↦ (some tt, rw (keeps.deletes r w found) refl, keeps.deleted r w)
    | inr gone ↦ (none, rw (keeps.missing r w gone) refl, keeps.deleted r w)
  ]

  attempt-route_del :
      (r : Route) (w : W)
      → (o : Option (Unit {0})) × ((attempt (nl.route_del r) w).0 ≡ ok o)
        × (rules_of (attempt (nl.route_del r) w).1 ≡ rules_of w)
  unfolding attempt
  attempt-route_del r w = elim (Answer-cases (nl.route_del r w).0) [
    | inl (u, e) ↦ (some u, rw e refl, keeps.route_deleted r w)
    | inr (inl (x, e)) ↦ (none, rw e refl, keeps.route_deleted r w)
    | inr (inr e) ↦ absurd (keeps.no_crash r w e)
  ]

  -- On a table of rules that is kept as documented, the teardown of a pod on a secondary ENI succeeds,
  -- whether the rule to the pod and its route are there or not; what is left of the rules is what the
  -- deletion of the rule to the pod leaves, without the rules from the pod's address.
  pub tear_down_ns_lem :
      (w : W)
      → is_positive table ≡ true
      → let t = tear_down_ns nl addr table w in
        (t.0 ≡ ok tt)
        × (get_rule_list_by_src (rules_of t.1) addr ≡ [])
        × (rules_of t.1
            ≡ rules_not_from addr (remove_first (covers (to_container_rule nl addr)) (rules_of w)))
  unfolding tear_down_ns wrapped pure
  tear_down_ns_lem w secondary =
      let removing = attempt (nl.rule_del (to_container_rule nl addr)) in
      let sources = delete_rule_list_by_src nl addr in
      let unrouting = attempt (nl.route_del (route_to (pos 0) (host_addr addr))) in
      let (o, first, taken) = attempt-rule_del (to_container_rule nl addr) w in
      let w' = (removing w).1 in
      let (gone, left) = delete_rule_list_by_src_lem nl rules_of covers keeps addr w' in
      let w'' = (sources w').1 in
      let (q, last, kept) = attempt-route_del (route_to (pos 0) (host_addr addr)) w'' in
      let rules = kept ∙ left ∙ ap (rules_not_from addr) taken in
      let then_unroute = λ (_ : Unit {0}). unrouting >>= λ _. pure tt in
      let run : tear_down_ns nl addr table w ≡ (ok tt, (unrouting w'').1) =
        bind_ok removing _ w o first
        ∙ ap (λ b. ((if b then wrapped sources else pure tt) >>= then_unroute) w') secondary
        ∙ bind_ok (wrapped sources) then_unroute w' tt (rw (gone, wrapped) refl)
        ∙ bind_ok unrouting (λ _. pure tt) w'' q last in
      subst
        (λ t.
          (t.0 ≡ ok tt)
          × (get_rule_list_by_src (rules_of t.1) addr ≡ [])
          × (rules_of t.1
              ≡ rules_not_from addr
                  (remove_first (covers (to_container_rule nl addr)) (rules_of w))))
        (sym run) (refl, ap (λ rs. get_rule_list_by_src rs addr) rules ∙ none_left addr _, rules)
