-- ===== src/Driver/RoundTrip.antt =====
-- plugins/routed-eni/driver/driver.go: the rules that setupNS makes for a pod, and their teardown.
use amazon_vpc_cni_k8s.Prelude.{
  ◌≡◌, refl, sym, ap, ◌∙◌, inl, inr, ℤ, String, Bool, true, false, List, [], ◌∷◌, ◌++◌, All,
  Bool-cases, arith,
}
use amazon_vpc_cni_k8s.Netlink.{ok, Net, IpNet, Rule, NetLink, main_routing_table}
use amazon_vpc_cni_k8s.Netlink.Kernel.{KeepsRules, from_source, remove_first, remove_first-skip}
use amazon_vpc_cni_k8s.Driver.{
  container_rule, container_rules, tear_down_ns, is_positive, to_container_rule_priority,
  from_container_rule_priority,
}
use amazon_vpc_cni_k8s.Driver.Teardown.{to_container_rule, tear_down_ns_lem}
use amazon_vpc_cni_k8s.Driver.RuleLists.{
  OurRules, rules_not_from-remove_other, rules_not_from-others, All-split, All-before,
  priorities_differ, remove_first_none, Renewed,
}
use amazon_vpc_cni_k8s.Driver.SetupRules.{NamesRules, container_rule-from_source, setup_rules-left}

module _ {W : Type 0} (nl : NetLink W) (rules_of : W → List Rule) (covers : Rule → Rule → Bool)
    (keeps : KeepsRules nl rules_of covers) (names : NamesRules nl rules_of covers)
    (addr : IpNet) where
  to_rule : Rule
  to_rule = container_rule nl true addr to_container_rule_priority main_routing_table

  -- What the teardown's deletion takes.
  takes : Rule → Bool
  takes = covers (to_container_rule nl addr)

  takes-to_rule : (s : Rule) → covers to_rule s ≡ true → takes s ≡ true
  unfolding takes to_rule container_rule
  takes-to_rule s c = names.any_table (to_container_rule nl addr) s main_routing_table refl c

  not_taken :
      (rs : List Rule) → All (λ s. takes s ≡ false) rs → All (λ s. covers to_rule s ≡ false) rs
  not_taken [] h = tt
  not_taken (r ∷ rs) (h, hs) = (ground (arith, h, takes-to_rule r), not_taken rs hs)

  other_priority : (s : Rule) → s.priority ≡ from_container_rule_priority → takes s ≡ false
  unfolding takes
  other_priority s p = elim (Bool-cases (takes s)) [
    | inr e ↦ e
    | inl e ↦
        let q = names.same_priority (to_container_rule nl addr) s e (λ n. cc) in
        absurd (priorities_differ (q ∙ p))
  ]

  ours-not_taken :
      (rs : List Rule)
      → OurRules addr rs
      → All (λ s. from_source addr s ≡ true → takes s ≡ false) rs
  ours-not_taken [] h = tt
  ours-not_taken (r ∷ rs) (h, hs) = (λ from. other_priority r (h from), ours-not_taken rs hs)

  none_ours : (rs : List Rule) → All (λ s. from_source addr s ≡ false) rs → OurRules addr rs
  none_ours [] h = tt
  none_ours (r ∷ rs) (h, hs) = (λ from. absurd (ground (arith, h, from)), none_ours rs hs)

  -- The table with the rule to the pod.
  with_to_rule :
      (rs rs' : List Rule)
      → All (λ s. from_source addr s ≡ false) rs
      → All (λ s. takes s ≡ false) rs
      → Renewed covers to_rule rs rs'
      → All (λ s. from_source addr s ≡ false) rs' × (remove_first takes rs' ≡ rs)
  unfolding to_rule
  with_to_rule rs rs' no_from no_to (before, after, was, is_now) =
      let split : rs ≡ before ++ after =
        sym (remove_first_none (covers to_rule) rs (not_taken rs no_to)) ∙ was in
      let other =
        (container_rule-from_source nl rules_of covers keeps names addr to_container_rule_priority
          main_routing_table).1 in
      rw is_now (
        All-split (λ s. from_source addr s ≡ false) before after to_rule (rw split at no_from)
            other,
        remove_first-skip takes before after to_rule
              (All-before (λ s. takes s ≡ false) before after (rw split at no_to))
              (takes-to_rule to_rule (keeps.itself to_rule))
            ∙ sym split,
      )

  -- Where the table of rules is kept as documented and has no rule from the pod's address and none
  -- that the teardown would take for the rule to the pod, the teardown of a pod on a secondary ENI,
  -- right after the rules of its setup were made without an error, succeeds and restores the table,
  -- in its order, with SNAT external or not and for any CIDRs.
  pub tear_down_ns-container_rules :
      (net : Net) (table : ℤ) (cidrs : List String) (external : Bool) (w : W)
      → is_positive table ≡ true
      → All (λ s. from_source addr s ≡ false) (rules_of w)
      → All (λ s. covers (to_container_rule nl addr) s ≡ false) (rules_of w)
      → (container_rules nl net addr table cidrs external w).0 ≡ ok tt
      → let t = tear_down_ns nl addr table (container_rules nl net addr table cidrs external w).1 in
        (t.0 ≡ ok tt) × (rules_of t.1 ≡ rules_of w)
  unfolding takes to_rule
  tear_down_ns-container_rules net table cidrs external w secondary no_from no_to h =
      let u = (container_rules nl net addr table cidrs external w).1 in
      let (rs, made, (same, ours)) =
        setup_rules-left nl rules_of covers keeps names addr net table cidrs external w secondary
          h in
      let (others, restored) = with_to_rule (rules_of w) rs no_from no_to made in
      let (done, gone, left) = tear_down_ns_lem nl rules_of covers keeps addr table u secondary in
      (
        done,
        left
            ∙ rules_not_from-remove_other addr takes (rules_of u)
                (ours-not_taken (rules_of u) (ours (none_ours rs others)))
            ∙ ap (remove_first takes) (same ∙ rules_not_from-others addr rs others)
            ∙ restored,
      )
