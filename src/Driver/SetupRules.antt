-- ===== src/Driver/SetupRules.antt =====
-- plugins/routed-eni/driver/driver.go: the rules that setupNS makes for a pod.
use amazon_vpc_cni_k8s.Prelude.{
  ◌≡◌, ◌≢◌, refl, sym, ap, ◌∙◌, inl, inr, ℤ, negsuc, String, Bool, true, false, none, List, [], ◌∷◌,
  ◌++◌, if◌then◌else◌, Bool-cases, arith,
}
use amazon_vpc_cni_k8s.Prelude.Actions.{◌>>=◌, pure, for_each, >>=-ok, Answer-cases}
use amazon_vpc_cni_k8s.Netlink.{
  ok, Net, IpNet, Rule, NetLink, wrapped, unless, ip_equal, main_routing_table,
  contains_no_such_rule, is_route_exists_error,
}
use amazon_vpc_cni_k8s.Netlink.Kernel.{
  KeepsRules, from_source, has, remove_first, wrapped_ok, same_bytes_refl,
}
use amazon_vpc_cni_k8s.Networkutils.Sources.{rules_not_from}
use amazon_vpc_cni_k8s.Networkutils.Updates.{rules_not_from-insert}
use amazon_vpc_cni_k8s.Driver.{
  container_rule, add_container_rule, pod_rule_to, from_container_rules, container_rules,
  is_positive, to_container_rule_priority, from_container_rule_priority,
}
use amazon_vpc_cni_k8s.Driver.RuleLists.{
  insert-OurRules, remove_first-OurRules, rules_not_from-remove_own, Renewed, Ours,
}

-- What the kernel documents besides: a deletion takes rules of the priority that it names, and a
-- rule that names no table asks for less; a new rule names no priority and no source; and a rule that
-- is refused is not added.
pub record NamesRules {W : Type 0} (nl : NetLink W) (rules_of : W → List Rule)
    (covers : Rule → Rule → Bool) : Type 0 where
  pub no_priority : nl.new_rule.priority ≡ negsuc 0
  pub no_source : nl.new_rule.src ≡ none
  pub same_priority :
      (r s : Rule) → covers r s ≡ true → r.priority ≢ negsuc 0 → r.priority ≡ s.priority
  pub any_table :
      (r s : Rule) (t : ℤ)
      → r.table ≡ nl.new_rule.table
      → covers (record r { table = t }) s ≡ true
      → covers r s ≡ true
  pub refused :
      (r : Rule) (w : W) → (nl.rule_add r w).0 ≢ ok tt → rules_of (nl.rule_add r w).1 ≡ rules_of w

module _ {W : Type 0} (nl : NetLink W) (rules_of : W → List Rule) (covers : Rule → Rule → Bool)
    (keeps : KeepsRules nl rules_of covers) (names : NamesRules nl rules_of covers)
    (addr : IpNet) where
  unless-rule_del :
      (r : Rule) (w : W)
      → let d = unless contains_no_such_rule (nl.rule_del r) w in
        (d.0 ≡ ok tt) × (rules_of d.1 ≡ remove_first (covers r) (rules_of w))
  unfolding unless
  unless-rule_del r w = elim (Bool-cases (has (covers r) (rules_of w))) [
    | inl found ↦ (rw (keeps.deletes r w found) refl, keeps.deleted r w)
    | inr gone ↦ (rw (keeps.missing r w gone) refl, keeps.deleted r w)
  ]

  add_container_rule-Renewed :
      (to : Bool) (priority table : ℤ) (w : W)
      → (add_container_rule nl to addr priority table w).0 ≡ ok tt
      → Renewed covers
          (container_rule nl to addr priority table)
          (rules_of w)
          (rules_of (add_container_rule nl to addr priority table w).1)
  unfolding add_container_rule ◌>>=◌ wrapped
  add_container_rule-Renewed to priority table w h =
      let r = container_rule nl to addr priority table in
      let (first, taken) = unless-rule_del r w in
      let u = (unless contains_no_such_rule (nl.rule_del r) w).1 in
      let added : (wrapped (nl.rule_add r) u).0 ≡ ok tt = rw (first, ◌>>=◌) at h in
      let (before, after, was, is_now) = keeps.added r u (wrapped_ok (nl.rule_add r) u tt added) in
      (before, after, sym taken ∙ was, rw (first, ◌>>=◌) is_now)

  insert-Ours :
      (r : Rule) (before after : List Rule)
      → from_source addr r ≡ true
      → r.priority ≡ from_container_rule_priority
      → Ours addr (before ++ after) (before ++ r ∷ after)
  insert-Ours r before after from p =
      (rules_not_from-insert addr before after r from, insert-OurRules addr before after r p)

  rule_add-Ours :
      (r : Rule) (w : W)
      → from_source addr r ≡ true
      → r.priority ≡ from_container_rule_priority
      → Ours addr (rules_of w) (rules_of (nl.rule_add r w).1)
  rule_add-Ours r w from p = elim (Answer-cases (nl.rule_add r w).0) [
    | inl (tt, e) ↦
        let (before, after, was, is_now) = keeps.added r w e in
        rw (was, is_now) (insert-Ours r before after from p)
    | inr (inl (x, e)) ↦ rw (names.refused r w (λ h. cc)) (refl, λ h. h)
    | inr (inr e) ↦ rw (names.refused r w (λ h. cc)) (refl, λ h. h)
  ]

  itself_from : ip_equal addr.ip addr.ip ≡ true
  unfolding ip_equal
  itself_from = ground (arith, same_bytes_refl addr.ip)

  pod_rule_to-from_source :
      (net : Net) (table : ℤ) (cidr : String)
      → from_source addr (pod_rule_to nl net addr table cidr) ≡ true
  unfolding from_source pod_rule_to
  pod_rule_to-from_source net table cidr = itself_from

  pub container_rule-from_source :
      (priority table : ℤ)
      → (from_source addr (container_rule nl false addr priority table) ≡ true)
        × (from_source addr (container_rule nl true addr priority table) ≡ false)
  unfolding from_source container_rule
  container_rule-from_source priority table = (itself_from, rw names.no_source refl)

  pod_rules-Ours :
      (net : Net) (table : ℤ) (cidrs : List String) (w : W)
      → let add = λ (cidr : String).
        unless is_route_exists_error (nl.rule_add (pod_rule_to nl net addr table cidr)) in
        (for_each add cidrs w).0 ≡ ok tt
        → Ours addr (rules_of w) (rules_of (for_each add cidrs w).1)
  unfolding for_each ◌>>=◌ pure unless pod_rule_to
  pod_rules-Ours net table [] w h = (refl, λ h. h)
  pod_rules-Ours net table (c ∷ cs) w h =
      let add = λ (cidr : String).
        unless is_route_exists_error (nl.rule_add (pod_rule_to nl net addr table cidr)) in
      let (u, first, later) = >>=-ok (add c) (λ _. for_each add cs) w tt h in
      let one =
        rule_add-Ours (pod_rule_to nl net addr table c) w (pod_rule_to-from_source net table c)
          refl in
      let more =
        pod_rules-Ours net table cs (nl.rule_add (pod_rule_to nl net addr table c) w).1 later in
      rw (first, ◌>>=◌) (more.0 ∙ one.0, λ ours. more.1 (one.1 ours))

  from_container_rules-Ours :
      (net : Net) (table : ℤ) (cidrs : List String) (external : Bool) (w : W)
      → (from_container_rules nl net addr table cidrs external w).0 ≡ ok tt
      → Ours addr
          (rules_of w)
          (rules_of (from_container_rules nl net addr table cidrs external w).1)
  unfolding from_container_rules wrapped container_rule
  from_container_rules-Ours net table cidrs false w h = pod_rules-Ours net table cidrs w h
  from_container_rules-Ours net table cidrs true w h =
      let r = container_rule nl false addr from_container_rule_priority table in
      let from = (container_rule-from_source from_container_rule_priority table).0 in
      let (before, after, was, is_now) =
        add_container_rule-Renewed false from_container_rule_priority table w (
          wrapped_ok (add_container_rule nl false addr from_container_rule_priority table) w tt
            h) in
      let (same, ours) = insert-Ours r before after from refl in
      (
        ap (rules_not_from addr) is_now
            ∙ same
            ∙ sym (ap (rules_not_from addr) was)
            ∙ rules_not_from-remove_own addr (covers r) (rules_of w)
                (λ s c. keeps.same_source addr r s c from),
        λ o. rw is_now (ours (rw was at (remove_first-OurRules addr (covers r) (rules_of w) o))),
      )

  pub setup_rules-left :
      (net : Net) (table : ℤ) (cidrs : List String) (external : Bool) (w : W)
      → is_positive table ≡ true
      → (container_rules nl net addr table cidrs external w).0 ≡ ok tt
      → (rs : List Rule) × Renewed covers
          (container_rule nl true addr to_container_rule_priority main_routing_table)
          (rules_of w)
          rs
        × Ours addr rs (rules_of (container_rules nl net addr table cidrs external w).1)
  unfolding container_rules ◌>>=◌ wrapped
  setup_rules-left net table cidrs external w secondary h =
      let m =
        wrapped (add_container_rule nl true addr to_container_rule_priority main_routing_table) in
      let next = λ (_ : Unit {0}).
        if is_positive table
        then from_container_rules nl net addr table cidrs external
        else pure tt in
      let (u, first, later) = >>=-ok m next w tt h in
      let later' : (from_container_rules nl net addr table cidrs external (m w).1).0 ≡ ok tt =
        rw secondary at later in
      (
        rules_of (m w).1,
        add_container_rule-Renewed true to_container_rule_priority main_routing_table w (
            wrapped_ok
              (add_container_rule nl true addr to_container_rule_priority main_routing_table) w tt
              first),
        rw (first, ◌>>=◌, secondary)
            (from_container_rules-Ours net table cidrs external (m w).1 later'),
      )
