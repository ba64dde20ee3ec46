-- ===== src/Networkutils/Sources.antt =====
-- pkg/networkutils/network.go: the rules of one source address, on the kernel's table of rules.
use amazon_vpc_cni_k8s.Prelude.{
  ◌≡◌, refl, sym, ap, ◌∙◌, Bool, true, false, List, [], ◌∷◌, ◌++◌, if◌then◌else◌, arith, Bool-cases,
  inl, inr, All,
}
use mathlib.Core.List.{append_assoc}
use amazon_vpc_cni_k8s.Prelude.Actions.{◌>>=◌, for_each, pure}
use amazon_vpc_cni_k8s.Netlink.{ok, IpNet, Rule, NetLink, unless}
use amazon_vpc_cni_k8s.Netlink.Kernel.{
  KeepsRules, from_source, has, remove_first, has_after, remove_first-skip,
}
use amazon_vpc_cni_k8s.Networkutils.{
  is_from, get_rule_list_by_src, delete_rule, delete_rule_list_by_src,
}

-- The rules of other sources.
abbrev pub rules_not_from : IpNet → List Rule → List Rule
rules_not_from src [] = []
rules_not_from src (r ∷ rs) =
    if from_source src r then rules_not_from src rs else r ∷ rules_not_from src rs

-- The code's test is that of the source.
pub is_from-from_source : (src : IpNet) (r : Rule) → is_from src r ≡ from_source src r
unfolding is_from from_source
is_from-from_source src r = refl

module _ {W : Type 0} (nl : NetLink W) (rules_of : W → List Rule) (covers : Rule → Rule → Bool)
    (keeps : KeepsRules nl rules_of covers) (src : IpNet) where
  not_covered :
      (r : Rule) (kept : List Rule)
      → from_source src r ≡ true
      → All (λ s. from_source src s ≡ false) kept
      → All (λ s. covers r s ≡ false) kept
  not_covered r [] from others = tt
  not_covered r (s ∷ kept) from others = (
    elim (Bool-cases (covers r s)) [
      | inl yes_covers ↦
          absurd (ground (arith, keeps.same_source src r s yes_covers from, others.0))
      | inr no_covers ↦ no_covers
    ],
    not_covered r kept from others.1,
  )

  delete_one :
      (r : Rule) (kept rest : List Rule) (w : W)
      → from_source src r ≡ true
      → All (λ s. from_source src s ≡ false) kept
      → rules_of w ≡ kept ++ r ∷ rest
      → ((delete_rule nl r w).0 ≡ ok tt) × (rules_of (delete_rule nl r w).1 ≡ kept ++ rest)
  unfolding delete_rule unless
  delete_one r kept rest w from others q =
      let found : has (covers r) (rules_of w) ≡ true =
        rw q (has_after (covers r) kept rest r (keeps.itself r)) in
      (
        rw (keeps.deletes r w found) refl,
        keeps.deleted r w
            ∙ ap (remove_first (covers r)) q
            ∙ remove_first-skip (covers r) kept rest r (not_covered r kept from others)
                (keeps.itself r),
      )

  one_more :
      (kept : List Rule) (r : Rule)
      → from_source src r ≡ false
      → All (λ s. from_source src s ≡ false) kept
      → All (λ s. from_source src s ≡ false) (kept ++ r ∷ [])
  one_more [] r other others = (other, tt)
  one_more (s ∷ kept) r other others = (others.0, one_more kept r other others.1)

  pub delete_sources :
      (kept rest : List Rule) (w : W)
      → All (λ s. from_source src s ≡ false) kept
      → rules_of w ≡ kept ++ rest
      → let d = for_each (delete_rule nl) (get_rule_list_by_src rest src) w in
        (d.0 ≡ ok tt) × (rules_of d.1 ≡ kept ++ rules_not_from src rest)
  unfolding for_each ◌>>=◌ pure get_rule_list_by_src
  delete_sources kept [] w others q = (refl, q)
  delete_sources kept (r ∷ rest) w others q = elim (Bool-cases (from_source src r)) [
    | inl from ↦
        let (gone, left) = delete_one r kept rest w from others q in
        let later = delete_sources kept rest (delete_rule nl r w).1 others left in
        rw (from, is_from-from_source src r ∙ from, gone, for_each, ◌>>=◌) later
    | inr other ↦
        rw
          (
            other,
            is_from-from_source src r ∙ other,
            sym (append_assoc kept (r ∷ []) (rules_not_from src rest)),
          )
          (delete_sources (kept ++ r ∷ []) rest w (one_more kept r other others)
            (q ∙ sym (append_assoc kept (r ∷ []) rest)))
  ]

  -- On a table of rules that is kept as documented, `DeleteRuleListBySrc` succeeds and leaves exactly
  -- the rules of other sources, in their order.
  pub delete_rule_list_by_src_lem :
      (w : W)
      → let d = delete_rule_list_by_src nl src w in
        (d.0 ≡ ok tt) × (rules_of d.1 ≡ rules_not_from src (rules_of w))
  unfolding delete_rule_list_by_src ◌>>=◌
  delete_rule_list_by_src_lem w =
      rw (keeps.listed w, ◌>>=◌)
        (delete_sources [] (rules_of w) (nl.rule_list w).1 tt (keeps.listing w))
