-- ===== src/Driver/RuleLists.antt =====
-- Lists of rules: those that plugins/routed-eni/driver makes for a pod, and the others.
use amazon_vpc_cni_k8s.Prelude.{
  ◌≡◌, ◌≢◌, refl, inl, inr, Bool, true, false, List, [], ◌∷◌, ◌++◌, All, Bool-cases, arith,
}
use amazon_vpc_cni_k8s.Netlink.{IpNet, Rule}
use amazon_vpc_cni_k8s.Netlink.Kernel.{from_source, remove_first}
use amazon_vpc_cni_k8s.Networkutils.Sources.{rules_not_from}
use amazon_vpc_cni_k8s.Driver.{to_container_rule_priority, from_container_rule_priority}

module _ (addr : IpNet) where
  -- The rules from the address are those of the driver.
  abbrev pub OurRules : List Rule → Type 0
  OurRules = All (λ s. from_source addr s ≡ true → s.priority ≡ from_container_rule_priority)

  pub insert-OurRules :
      (before after : List Rule) (r : Rule)
      → r.priority ≡ from_container_rule_priority
      → OurRules (before ++ after)
      → OurRules (before ++ r ∷ after)
  insert-OurRules [] after r p h = (λ _. p, h)
  insert-OurRules (s ∷ before) after r p (h, hs) = (h, insert-OurRules before after r p hs)

  pub remove_first-OurRules :
      (f : Rule → Bool) (rs : List Rule) → OurRules rs → OurRules (remove_first f rs)
  remove_first-OurRules f [] h = h
  remove_first-OurRules f (r ∷ rs) (h, hs) = elim (Bool-cases (f r)) [
    | inl e ↦ rw e hs
    | inr e ↦ rw e (h, remove_first-OurRules f rs hs)
  ]

  -- Removing a rule of the address.
  pub rules_not_from-remove_own :
      (f : Rule → Bool) (rs : List Rule)
      → ((s : Rule) → f s ≡ true → from_source addr s ≡ true)
      → rules_not_from addr (remove_first f rs) ≡ rules_not_from addr rs
  rules_not_from-remove_own f [] own = refl
  rules_not_from-remove_own f (r ∷ rs) own =
      ground (arith, own r, rules_not_from-remove_own f rs own)

  -- Removing a rule of another source.
  pub rules_not_from-remove_other :
      (f : Rule → Bool) (rs : List Rule)
      → All (λ s. from_source addr s ≡ true → f s ≡ false) rs
      → rules_not_from addr (remove_first f rs) ≡ remove_first f (rules_not_from addr rs)
  rules_not_from-remove_other f [] h = refl
  rules_not_from-remove_other f (r ∷ rs) (h, hs) =
      ground (arith, h, rules_not_from-remove_other f rs hs)

  pub rules_not_from-others :
      (rs : List Rule) → All (λ s. from_source addr s ≡ false) rs → rules_not_from addr rs ≡ rs
  rules_not_from-others [] h = refl
  rules_not_from-others (r ∷ rs) (h, hs) = ground (arith, h, rules_not_from-others rs hs)

module _ {A : Type 0} (P : A → Type 0) where
  pub All-split :
      (before after : List A) (x : A) → All P (before ++ after) → P x → All P (before ++ x ∷ after)
  All-split [] after x h p = (p, h)
  All-split (y ∷ before) after x (h, hs) p = (h, All-split before after x hs p)

  pub All-before : (before after : List A) → All P (before ++ after) → All P before
  All-before [] after h = tt
  All-before (y ∷ before) after (h, hs) = (h, All-before before after hs)

pub priorities_differ : to_container_rule_priority ≢ from_container_rule_priority
priorities_differ h = ground arith

pub remove_first_none :
    (f : Rule → Bool) (rs : List Rule) → All (λ s. f s ≡ false) rs → remove_first f rs ≡ rs
remove_first_none f [] h = refl
remove_first_none f (r ∷ rs) (h, hs) = ground (arith, h, remove_first_none f rs hs)

-- A rule that `addContainerRule` has made: any that it covers is deleted first.
abbrev pub Renewed : (Rule → Rule → Bool) → Rule → List Rule → List Rule → Type 0
Renewed covers r rs rs' =
    (before : List Rule) × (after : List Rule) × (remove_first (covers r) rs ≡ before ++ after)
    × (rs' ≡ before ++ r ∷ after)

-- Nothing but the driver's rules from the address has come or gone.
abbrev pub Ours : IpNet → List Rule → List Rule → Type 0
Ours addr rs rs' =
    (rules_not_from addr rs' ≡ rules_not_from addr rs) × (OurRules addr rs → OurRules addr rs')
