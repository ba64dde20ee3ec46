-- ===== src/Networkutils/Updates.antt =====
-- pkg/networkutils/network.go: the new rules of one source address, on the kernel's table of rules.
use amazon_vpc_cni_k8s.Prelude.{
  ◌≡◌, refl, sym, ap, ◌∙◌, String, Bool, true, false, Option, List, [], ◌∷◌, ◌++◌, map, Bool-cases,
  inl, inr, some, pos, if◌then◌else◌, arith, ℤ,
}
use mathlib.Core.Path.{subst}
use mathlib.Core.List.Perm
use mathlib.Core.List.{append-nil, Perm, perm_middle}
use amazon_vpc_cni_k8s.Prelude.Actions.{◌>>=◌, for_each, pure, >>=-ok}
use amazon_vpc_cni_k8s.Netlink.{ok, Net, IpNet, Rule, NetLink, wrapped, ip_equal}
use amazon_vpc_cni_k8s.Netlink.Kernel.{KeepsRules, from_source, wrapped_ok, same_bytes_refl}
use amazon_vpc_cni_k8s.Networkutils.{
  is_from, last_table, get_rule_list_by_src, pod_rule, update_rule_list_by_src, add_pod_rules,
  renew_rules,
}
use amazon_vpc_cni_k8s.Networkutils.Sources.{is_from-from_source, rules_not_from, delete_sources}

module _ (src : IpNet) where
  pub rules_not_from-insert :
      (before after : List Rule) (r : Rule)
      → from_source src r ≡ true
      → rules_not_from src (before ++ r ∷ after) ≡ rules_not_from src (before ++ after)
  rules_not_from-insert [] after r from = ground arith
  rules_not_from-insert (s ∷ before) after r from =
      ground (arith, rules_not_from-insert before after r from)

  get_rule_list_by_src-from :
      (r : Rule) (rs : List Rule)
      → from_source src r ≡ true
      → get_rule_list_by_src (r ∷ rs) src ≡ r ∷ get_rule_list_by_src rs src
  unfolding get_rule_list_by_src
  get_rule_list_by_src-from r rs from = ground (arith, is_from-from_source src r)

  get_rule_list_by_src-insert :
      (before after : List Rule) (r : Rule)
      → from_source src r ≡ true
      → Perm
          (get_rule_list_by_src (before ++ r ∷ after) src)
          (r ∷ get_rule_list_by_src (before ++ after) src)
  unfolding get_rule_list_by_src
  get_rule_list_by_src-insert [] after r from =
      subst (λ rs. Perm rs (r ∷ get_rule_list_by_src after src))
        (sym (get_rule_list_by_src-from r after from)) (Perm.refl _)
  get_rule_list_by_src-insert (s ∷ before) after r from = elim (Bool-cases (is_from src s)) [
    | inl same_source ↦
        rw (same_source, get_rule_list_by_src)
          (Perm.trans (Perm.cons s (get_rule_list_by_src-insert before after r from))
            (Perm.swap r s _))
    | inr other ↦ rw (other, get_rule_list_by_src) (get_rule_list_by_src-insert before after r from)
  ]

  pub none_left : (rs : List Rule) → get_rule_list_by_src (rules_not_from src rs) src ≡ []
  unfolding get_rule_list_by_src
  none_left [] = refl
  none_left (r ∷ rs) = ground (arith, none_left rs, is_from-from_source src r)

  rules_not_from_twice :
      (rs : List Rule) → rules_not_from src (rules_not_from src rs) ≡ rules_not_from src rs
  rules_not_from_twice [] = refl
  rules_not_from_twice (r ∷ rs) = ground (arith, rules_not_from_twice rs)

module _ {W : Type 0} (nl : NetLink W) (rules_of : W → List Rule) (covers : Rule → Rule → Bool)
    (keeps : KeepsRules nl rules_of covers) (src : IpNet) where
  -- The table `rs'` has the rules `new` of the source besides those of `rs`, in some order, and the
  -- same others.
  abbrev GainsRules : List Rule → List Rule → List Rule → Type 0
  GainsRules new rs rs' =
      (rules_not_from src rs' ≡ rules_not_from src rs)
      × Perm (get_rule_list_by_src rs' src) (new ++ get_rule_list_by_src rs src)

  add_one :
      (r : Rule) (w : W)
      → from_source src r ≡ true
      → (wrapped (nl.rule_add r) w).0 ≡ ok tt
      → GainsRules (r ∷ []) (rules_of w) (rules_of (wrapped (nl.rule_add r) w).1)
  unfolding wrapped
  add_one r w from h =
      let (before, after, was, is_now) = keeps.added r w (wrapped_ok (nl.rule_add r) w tt h) in
      (
        ap (rules_not_from src) is_now
            ∙ rules_not_from-insert src before after r from
            ∙ sym (ap (rules_not_from src) was),
        rw (is_now, was) (get_rule_list_by_src-insert src before after r from),
      )

  gains_more :
      (r : Rule) (new rs rs' rs'' : List Rule)
      → GainsRules (r ∷ []) rs rs'
      → GainsRules new rs' rs''
      → GainsRules (r ∷ new) rs rs''
  gains_more r new rs rs' rs'' one more = (
    more.0 ∙ one.0,
    Perm.trans more.1
        (Perm.trans (Perm.append_left new one.1) (perm_middle new (get_rule_list_by_src rs src))),
  )

  add_all :
      {A : Type 0} (f : A → Rule) (xs : List A) (w : W)
      → ((x : A) → from_source src (f x) ≡ true)
      → (for_each (λ x. wrapped (nl.rule_add (f x))) xs w).0 ≡ ok tt
      → GainsRules
          (map f xs)
          (rules_of w)
          (rules_of (for_each (λ x. wrapped (nl.rule_add (f x))) xs w).1)
  unfolding for_each ◌>>=◌ pure
  add_all f [] w from h = (refl, Perm.refl _)
  add_all f (x ∷ xs) w from h =
      let (u, first, later) =
        >>=-ok (wrapped (nl.rule_add (f x))) (λ _. for_each (λ y. wrapped (nl.rule_add (f y))) xs) w
          tt h in
      let one = add_one (f x) w (from x) first in
      let more = add_all f xs (wrapped (nl.rule_add (f x)) w).1 from later in
      rw (first, ◌>>=◌) (gains_more (f x) (map f xs) _ _ _ one more)

  pod_rule-from_source :
      (table : ℤ) (dst : Option IpNet) → from_source src (pod_rule nl src table dst) ≡ true
  unfolding from_source pod_rule ip_equal
  pod_rule-from_source table dst = ground (arith, same_bytes_refl src.ip)

  -- The rules of a pod on a table: to each CIDR where SNAT is required, else to the destination that
  -- `NewRule` sets.
  abbrev wanted : Net → List String → ℤ → Bool → List Rule
  wanted net cidrs table requires_snat =
      if requires_snat
      then map (λ cidr. pod_rule nl src table (net.parse_cidr cidr)) cidrs
      else pod_rule nl src table nl.new_rule.dst ∷ []

  after_delete :
      (new rs rs' rs'' : List Rule)
      → rs' ≡ rules_not_from src rs
      → GainsRules new rs' rs''
      → (rules_not_from src rs'' ≡ rules_not_from src rs) × Perm (get_rule_list_by_src rs'' src) new
  after_delete new rs rs' rs'' left gains = (
    gains.0 ∙ ap (rules_not_from src) left ∙ rules_not_from_twice src rs,
    subst (λ more. Perm (get_rule_list_by_src rs'' src) more)
        (ap (λ xs. new ++ get_rule_list_by_src xs src) left
          ∙ ap (λ xs. new ++ xs) (none_left src rs)
          ∙ append-nil new)
        gains.1,
  )

  add_pod_rules_lem :
      (net : Net) (ex : List String) (table : ℤ) (to_cidrs : List String) (requires_snat : Bool)
      (w : W)
      → (add_pod_rules nl net ex src table to_cidrs requires_snat w).0 ≡ ok tt
      → GainsRules
          (wanted net (to_cidrs ++ ex) table requires_snat)
          (rules_of w)
          (rules_of (add_pod_rules nl net ex src table to_cidrs requires_snat w).1)
  unfolding add_pod_rules
  add_pod_rules_lem net ex table to_cidrs true w h =
      add_all (λ cidr. pod_rule nl src table (net.parse_cidr cidr)) (to_cidrs ++ ex) w
        (λ cidr. pod_rule-from_source table (net.parse_cidr cidr)) h
  add_pod_rules_lem net ex table to_cidrs false w h =
      add_one (pod_rule nl src table nl.new_rule.dst) w (pod_rule-from_source table nl.new_rule.dst)
        h

  last_table-last :
      (table : ℤ) (olds : List Rule) (last : Rule)
      → last_table table (olds ++ last ∷ []) ≡ last.table
  unfolding last_table
  last_table-last table [] last = refl
  last_table-last table (r ∷ olds) last = last_table-last r.table olds last

  -- After the deletion.
  renew_rules_lem :
      (net : Net) (ex to_cidrs : List String) (requires_snat : Bool) (u : W)
      (rules olds : List Rule) (last : Rule)
      → rules_of u ≡ rules_not_from src rules
      → (renew_rules nl net ex (olds ++ last ∷ []) src to_cidrs requires_snat u).0 ≡ ok tt
      → let rs =
          rules_of (renew_rules nl net ex (olds ++ last ∷ []) src to_cidrs requires_snat u).1 in
        (rules_not_from src rs ≡ rules_not_from src rules)
        × Perm (get_rule_list_by_src rs src) (wanted net (to_cidrs ++ ex) last.table requires_snat)
  unfolding renew_rules last_table
  renew_rules_lem net ex to_cidrs requires_snat u rules [] last left h =
      after_delete _ _ _ _ left (add_pod_rules_lem net ex _ to_cidrs requires_snat u h)
  renew_rules_lem net ex to_cidrs requires_snat u rules (r ∷ olds) last left h =
      let t = last_table-last r.table olds last in
      rw t (
        after_delete _ _ _ _ left
          (add_pod_rules_lem net ex last.table to_cidrs requires_snat u (rw t at h)))

  renew_after :
      (net : Net) (ex to_cidrs : List String) (requires_snat : Bool) (u : W)
      (rules of_source olds : List Rule) (last : Rule)
      → of_source ≡ olds ++ last ∷ []
      → rules_of u ≡ rules_not_from src rules
      → (renew_rules nl net ex of_source src to_cidrs requires_snat u).0 ≡ ok tt
      → let rs = rules_of (renew_rules nl net ex of_source src to_cidrs requires_snat u).1 in
        (rules_not_from src rs ≡ rules_not_from src rules)
        × Perm (get_rule_list_by_src rs src) (wanted net (to_cidrs ++ ex) last.table requires_snat)
  renew_after net ex to_cidrs requires_snat u rules of_source olds last q left h =
      rw q (renew_rules_lem net ex to_cidrs requires_snat u rules olds last left (rw q at h))

  -- On a table of rules that is kept as documented, in which `last` is the last of the rules of the
  -- source, when `UpdateRuleListBySrc` is given this table and succeeds, the rules of other sources
  -- are the same and in the same order, and the rules of the source are, in some order, these and no
  -- other: where SNAT is required, one for each CIDR of the two lists, to its network, and where it
  -- is not, one to the destination that `NewRule` sets. Each is from the source, has the table of
  -- `last` and the priority 1536, and is otherwise as `NewRule` makes it.
  pub update_rule_list_by_src_lem :
      (net : Net) (exclude_snat_cidrs to_cidrs : List String) (requires_snat : Bool) (w : W)
      (olds : List Rule) (last : Rule)
      → get_rule_list_by_src (rules_of w) src ≡ olds ++ last ∷ []
      → let u =
          update_rule_list_by_src nl net exclude_snat_cidrs
            (rules_of w)
            src
            to_cidrs
            requires_snat
            w in
        u.0 ≡ ok tt
        → (rules_not_from src (rules_of u.1) ≡ rules_not_from src (rules_of w))
          × Perm (get_rule_list_by_src (rules_of u.1) src) (
              if requires_snat
              then map
                  (λ cidr. record (nl.new_rule) {
                    src = some src;
                    dst = net.parse_cidr cidr;
                    table = last.table;
                    priority = pos 1536;
                  })
                  (to_cidrs ++ exclude_snat_cidrs)
              else record (nl.new_rule) { src = some src; table = last.table; priority = pos 1536 }
                ∷ [])
  unfolding update_rule_list_by_src ◌>>=◌ pod_rule
  update_rule_list_by_src_lem net ex to_cidrs requires_snat w olds last q h =
      let (gone, left) = delete_sources nl rules_of covers keeps src [] (rules_of w) w tt refl in
      rw (gone, ◌>>=◌)
        (renew_after net ex to_cidrs requires_snat _ (rules_of w) _ olds last q left
          (rw (gone, ◌>>=◌) at h))
