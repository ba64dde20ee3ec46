-- ===== src/Networkutils/Present.antt =====
-- pkg/networkutils/network.go: the SNAT rules in the tables of iptables after SetupHostNetwork.
use amazon_vpc_cni_k8s.Prelude.{
  ℕ, ◌+◌, ◌≤◌, ◌≡◌, refl, sym, ◌∙◌, String, same, string_discrete, Bool, true, false, not, List, [],
  ◌∷◌, arith, All,
}
use mathlib.Core.Path.{subst}
use amazon_vpc_cni_k8s.Prelude.Actions.{◌>>=◌, for_each, >>=-ok}
use amazon_vpc_cni_k8s.Netlink.{ok, wrapped, IpNet}
use amazon_vpc_cni_k8s.Networkutils.{
  NodeHost, all_cidrs, setup_iptables, with_iptables, correct_tables, make_chain, apply_rule,
  chains_from, list_current_snat_rules, LinuxNetwork, IptablesRule, Iptables, SnatCidr, stale_rules,
  snat_rules, rules_from, first_rule, cidr_rule, last_rule, connmark_rules, old_snat_rule,
  iptable_rules,
}
use amazon_vpc_cni_k8s.Networkutils.Tables.{
  KeepsTables, same_rule, Agree, is_among, for_each-apply_rule, settle-true,
}
use amazon_vpc_cni_k8s.Networkutils.Snat.{other_way}
use amazon_vpc_cni_k8s.Networkutils.SameRules.{
  same_rule→eq, same_rule-same, among-is_wanted, stale_agrees, Agree-append, among-append,
  found_among,
}

-- In the table nat, and not the rule of releases before 1.3.
abbrev IsNew : IptablesRule → IptablesRule → Type 0
IsNew old r = (r.table ≡ "nat") × (same_rule r old ≡ false)

not_mangle : {s : String} → s ≡ "nat" → same s "mangle" ≡ false
unfolding string_discrete
not_mangle e = rw e refl

module _ (n : LinuxNetwork) (fully : Bool) (addr : String) (k : IptablesRule) where
  -- The SNAT rules should exist exactly where SNAT is not external.
  rules_from-Agree :
      (i : ℕ) (cs : List SnatCidr)
      → Agree (not n.use_external_snat) k (rules_from n fully addr i cs)
  unfolding rules_from last_rule cidr_rule
  rules_from-Agree i [] = ((λ e. refl), tt)
  rules_from-Agree i (c ∷ cs) = ((λ e. refl), rules_from-Agree (i + 1) cs)

  snat_rules-Agree :
      (cs : List SnatCidr) → Agree (not n.use_external_snat) k (snat_rules n fully addr cs)
  unfolding snat_rules first_rule
  snat_rules-Agree cs = ((λ e. refl), rules_from-Agree 0 cs)

  rules_from-IsNew :
      (vpc : String) (i : ℕ) (cs : List SnatCidr)
      → All (IsNew (old_snat_rule vpc addr)) (rules_from n fully addr i cs)
  unfolding rules_from last_rule cidr_rule old_snat_rule
  rules_from-IsNew vpc i [] = ((refl, ground (arith, other_way i)), tt)
  rules_from-IsNew vpc i (c ∷ cs) =
      ((refl, ground (arith, other_way i)), rules_from-IsNew vpc (i + 1) cs)

  snat_rules-IsNew :
      (vpc : String) (cs : List SnatCidr)
      → All (IsNew (old_snat_rule vpc addr)) (snat_rules n fully addr cs)
  unfolding snat_rules first_rule old_snat_rule string_discrete
  snat_rules-IsNew vpc cs = ((refl, refl), rules_from-IsNew vpc 0 cs)

  connmark-Agree :
      (wanted : Bool) (intf : String) → k.table ≡ "nat" → Agree wanted k (connmark_rules n intf)
  unfolding connmark_rules
  connmark-Agree wanted intf nat = (
    (λ e. absurd (ground (arith, not_mangle nat))),
    ((λ e. absurd (ground (arith, not_mangle nat))), tt),
  )

  -- A SNAT rule agrees with every rule that SetupHostNetwork applies.
  iptable_rules-Agree :
      (vpc intf : String) (cs : List SnatCidr) (current : List IptablesRule)
      → is_among k (snat_rules n fully addr cs) ≡ true
      → Agree (not n.use_external_snat) k (iptable_rules n fully addr vpc intf cs current)
  unfolding iptable_rules
  iptable_rules-Agree vpc intf cs current here =
      let news = snat_rules n fully addr cs in
      let old = old_snat_rule vpc addr in
      let w = not n.use_external_snat in
      let (r, (nat, is_new), e) = found_among k news (snat_rules-IsNew vpc cs) here in
      let (t, c, words) = same_rule→eq k r e in
      let not_old : same_rule k old ≡ false = same_rule-same k r old e ∙ is_new in
      let old_agrees : Agree w k (old ∷ []) = ((λ is_old. absurd (ground arith)), tt) in
      Agree-append w k news _ (snat_rules-Agree cs) (
        Agree-append w k (stale_rules news current) _
          (stale_agrees w k news current (among-is_wanted k news here))
          (Agree-append w k (connmark_rules n intf) (old ∷ []) (connmark-Agree w intf (t ∙ nat))
            old_agrees))

module _ {W : Type 0} (host : NodeHost W) (n : LinuxNetwork) (ipt : Iptables W)
    (count : IptablesRule → W → ℕ) (keeps : KeepsTables ipt count) (vpc_cidr : IpNet)
    (vpc_cidrs : List String) (primary_addr primary_intf : String) (k : IptablesRule)
    (internal : n.use_external_snat ≡ false)
    (among : is_among k
        (snat_rules n ipt.has_random_fully primary_addr (all_cidrs vpc_cidrs n.exclude_snat_cidrs))
      ≡ true) where
  correct_tables_present :
      (current : List IptablesRule) (w : W)
      → (correct_tables host n vpc_cidr vpc_cidrs primary_addr primary_intf ipt current w).0 ≡ ok tt
      → 1
        ≤ count k
            (correct_tables host n vpc_cidr vpc_cidrs primary_addr primary_intf ipt current w).1
  unfolding correct_tables ◌>>=◌
  correct_tables_present current w h =
      let cidrs = all_cidrs vpc_cidrs n.exclude_snat_cidrs in
      let vpc = host.net.ip_net_string vpc_cidr in
      let rules =
        iptable_rules n ipt.has_random_fully primary_addr vpc primary_intf cidrs current in
      let chains = for_each (make_chain ipt) (chains_from 0 cidrs) in
      let (u, first, second) = >>=-ok chains (λ _. for_each (apply_rule ipt) rules) w tt h in
      let agrees =
        subst (λ b. Agree (not b) k rules) internal
          (iptable_rules-Agree n ipt.has_random_fully primary_addr k vpc primary_intf cidrs current
            among) in
      let there = among-append k (snat_rules n ipt.has_random_fully primary_addr cidrs) _ among in
      rw (first, ◌>>=◌)
        (subst (λ c. 1 ≤ c) (sym (for_each-apply_rule ipt count keeps k rules (chains w).1 second))
          (settle-true k rules (count k (chains w).1) agrees there))

  with_iptables_present :
      (w : W)
      → (with_iptables host n vpc_cidr vpc_cidrs primary_addr primary_intf ipt w).0 ≡ ok tt
      → 1 ≤ count k (with_iptables host n vpc_cidr vpc_cidrs primary_addr primary_intf ipt w).1
  unfolding with_iptables ◌>>=◌
  with_iptables_present w h =
      let listing = wrapped (list_current_snat_rules host ipt) in
      let (current, first, second) =
        >>=-ok listing (correct_tables host n vpc_cidr vpc_cidrs primary_addr primary_intf ipt) w tt
          h in
      rw (first, ◌>>=◌) (correct_tables_present current (listing w).1 second)

  -- On tables that iptables keeps as documented, when the iptables part of `SetupHostNetwork`
  -- succeeds and SNAT is not external, each of the SNAT rules stands in the tables.
  pub setup_iptables_present :
      (w : W)
      → (host.new_iptables w).0 ≡ ok ipt
      → (setup_iptables host n vpc_cidr vpc_cidrs primary_addr primary_intf w).0 ≡ ok tt
      → 1 ≤ count k (setup_iptables host n vpc_cidr vpc_cidrs primary_addr primary_intf w).1
  unfolding setup_iptables ◌>>=◌ wrapped
  setup_iptables_present w made h =
      rw (made, setup_iptables, ◌>>=◌, wrapped)
        (with_iptables_present (host.new_iptables w).1
          (rw (made, setup_iptables, ◌>>=◌, wrapped) at h))
