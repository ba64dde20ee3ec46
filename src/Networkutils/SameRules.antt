-- ===== src/Networkutils/SameRules.antt =====
-- pkg/networkutils/network.go: rules of iptables that are the same, and lists of them.
use amazon_vpc_cni_k8s.Prelude.{
  ◌≡◌, refl, ap, ◌∙◌, String, same, same_refl, same→eq, Bool, true, ◌&&◌, List, [], ◌∷◌, ◌++◌,
  if◌then◌else◌, arith, Bool-cases, inl, inr, All,
}
use amazon_vpc_cni_k8s.Networkutils.{IptablesRule, same_words, is_wanted, stale_rules}
use amazon_vpc_cni_k8s.Networkutils.Tables.{same_rule, Agree, is_among}

pub same_words→eq : (xs ys : List String) → same_words xs ys ≡ true → xs ≡ ys
same_words→eq [] [] h = refl
same_words→eq [] (y ∷ ys) h = absurd (ground arith)
same_words→eq (x ∷ xs) [] h = absurd (ground arith)
same_words→eq (x ∷ xs) (y ∷ ys) h = ground (arith, same→eq x y, same_words→eq xs ys)

pub same_words_refl : (xs : List String) → same_words xs xs ≡ true
same_words_refl [] = refl
same_words_refl (x ∷ xs) = ground (arith, same_refl x, same_words_refl xs)

pub same_rule→eq :
    (k r : IptablesRule)
    → same_rule k r ≡ true
    → (k.table ≡ r.table) × (k.chain ≡ r.chain) × (k.rule ≡ r.rule)
same_rule→eq k r h = (
  same→eq k.table r.table (ground arith),
  same→eq k.chain r.chain (ground arith),
  same_words→eq k.rule r.rule (ground arith),
)

pub same_rule-same : (k r o : IptablesRule) → same_rule k r ≡ true → same_rule k o ≡ same_rule r o
same_rule-same k r o h =
    let (t, c, w) = same_rule→eq k r h in
    ap (λ s. same s o.table && same k.chain o.chain && same_words k.rule o.rule) t
    ∙ ap (λ s. same r.table o.table && same s o.chain && same_words k.rule o.rule) c
    ∙ ap (λ s. same r.table o.table && same r.chain o.chain && same_words s o.rule) w

-- A rule that is among the new ones is wanted.
pub among-is_wanted :
    (k : IptablesRule) (news : List IptablesRule) → is_among k news ≡ true → is_wanted news k ≡ true
unfolding is_wanted
among-is_wanted k [] h = absurd (ground arith)
among-is_wanted k (r ∷ news) h = elim (Bool-cases (same_rule k r)) [
  | inl here ↦
      let (t, c, w) = same_rule→eq k r here in
      rw (c, w) (ground (arith, same_refl r.chain, same_words_refl r.rule))
  | inr other ↦ ground (arith, among-is_wanted k news (rw other at h))
]

pub is_wanted-same :
    (k r : IptablesRule) (news : List IptablesRule)
    → same_rule k r ≡ true
    → is_wanted news k ≡ is_wanted news r
unfolding is_wanted
is_wanted-same k r [] h = refl
is_wanted-same k r (n ∷ news) h =
    let (t, c, w) = same_rule→eq k r h in
    ap (λ b. if same k.chain n.chain && same_words n.rule k.rule then true else b)
      (is_wanted-same k r news h)
    ∙ ap (λ s. if same s n.chain && same_words n.rule k.rule then true else is_wanted news r) c
    ∙ ap (λ s. if same r.chain n.chain && same_words n.rule s then true else is_wanted news r) w

pub stale_agrees :
    (wanted : Bool) (k : IptablesRule) (news olds : List IptablesRule)
    → is_wanted news k ≡ true
    → Agree wanted k (stale_rules news olds)
unfolding stale_rules
stale_agrees wanted k news [] h = tt
stale_agrees wanted k news (old ∷ olds) h = elim (Bool-cases (is_wanted news old)) [
  | inl kept ↦ rw kept (stale_agrees wanted k news olds h)
  | inr stale ↦ rw stale (
    (λ e. absurd (ground (arith, is_wanted-same k old news e))),
    stale_agrees wanted k news olds h,
  )
]

pub Agree-append :
    (wanted : Bool) (k : IptablesRule) (xs ys : List IptablesRule)
    → Agree wanted k xs
    → Agree wanted k ys
    → Agree wanted k (xs ++ ys)
Agree-append wanted k [] ys a b = b
Agree-append wanted k (x ∷ xs) ys a b = (a.0, Agree-append wanted k xs ys a.1 b)

pub among-append :
    (k : IptablesRule) (xs ys : List IptablesRule)
    → is_among k xs ≡ true
    → is_among k (xs ++ ys) ≡ true
among-append k [] ys h = absurd (ground arith)
among-append k (x ∷ xs) ys h = ground (arith, among-append k xs ys)

-- A rule among others is the same as one of them.
pub found_among :
    {P : IptablesRule → Type 0} (k : IptablesRule) (rs : List IptablesRule)
    → All P rs
    → is_among k rs ≡ true
    → (r : IptablesRule) × P r × (same_rule k r ≡ true)
found_among k [] all h = absurd (ground arith)
found_among k (r ∷ rs) all h = elim (Bool-cases (same_rule k r)) [
  | inl here ↦ (r, all.0, here)
  | inr other ↦ found_among k rs all.1 (rw other at h)
]
