-- ===== src/Networkutils/Tables.antt =====
-- pkg/networkutils/network.go: the iptables rules that SetupHostNetwork adds and deletes, on tables
-- that iptables keeps.
use amazon_vpc_cni_k8s.Prelude.{
  ℕ, ◌+◌, ◌-◌, ◌≤◌, ◌≡◌, refl, sym, ap, ◌∙◌, same, Bool, true, false, ◌&&◌, ◌||◌, List, [], ◌∷◌,
  ltb, ◌==◌, if◌then◌else◌, arith, Bool-cases, inl, inr, All,
}
use amazon_vpc_cni_k8s.Prelude.Actions.{◌>>=◌, for_each, pure, >>=-ok}
use amazon_vpc_cni_k8s.Netlink.{ok, wrapped}
use amazon_vpc_cni_k8s.Netlink.Kernel.{wrapped_ok}
use amazon_vpc_cni_k8s.Networkutils.{IptablesRule, Iptables, same_words, apply_rule, correct_rule}

-- The same rule of the same chain of the same table.
abbrev pub same_rule : IptablesRule → IptablesRule → Bool
same_rule k r = same k.table r.table && same k.chain r.chain && same_words k.rule r.rule

-- `count k w` is how often the rule of `k` stands in the tables: a test finds it where that is not 0,
-- appending adds one, and deleting takes one away.
pub record KeepsTables {W : Type 0} (ipt : Iptables W) (count : IptablesRule → W → ℕ) : Type 0 where
  pub by_rule : (k r : IptablesRule) (w : W) → same_rule k r ≡ true → count k w ≡ count r w
  pub checked :
      (r : IptablesRule) (w : W) (b : Bool)
      → (ipt.exists r.table r.chain r.rule w).0 ≡ ok b
      → b ≡ ltb 0 (count r w)
  pub checking :
      (k r : IptablesRule) (w : W) → count k (ipt.exists r.table r.chain r.rule w).1 ≡ count k w
  pub appended :
      (k r : IptablesRule) (w : W)
      → (ipt.append r.table r.chain r.rule w).0 ≡ ok tt
      → count k (ipt.append r.table r.chain r.rule w).1
        ≡ count k w + (if same_rule k r then 1 else 0)
  pub deleted :
      (k r : IptablesRule) (w : W)
      → (ipt.delete r.table r.chain r.rule w).0 ≡ ok tt
      → count k (ipt.delete r.table r.chain r.rule w).1 + (if same_rule k r then 1 else 0)
        ≡ count k w

-- How often a rule stands after one that should exist, or should not.
abbrev pub settled : Bool → ℕ → ℕ
settled true c = if c == 0 then 1 else c
settled false c = c - 1

abbrev pub settle : IptablesRule → List IptablesRule → ℕ → ℕ
settle k [] c = c
settle k (r ∷ rs) c = settle k rs (if same_rule k r then settled r.should_exist c else c)

module _ {W : Type 0} (ipt : Iptables W) (count : IptablesRule → W → ℕ)
    (keeps : KeepsTables ipt count) (k : IptablesRule) where
  correct_rule_lem :
      (r : IptablesRule) (there : Bool) (w : W)
      → there ≡ ltb 0 (count r w)
      → (correct_rule ipt r there w).0 ≡ ok tt
      → count k (correct_rule ipt r there w).1
        ≡ (if same_rule k r then settled r.should_exist (count k w) else count k w)
  unfolding correct_rule pure wrapped
  correct_rule_lem r true w e h = elim (Bool-cases r.should_exist) [
    | inl wanted ↦
        rw (wanted, correct_rule)
          (elim (Bool-cases (same_rule k r)) [
            | inl here ↦ rw here (ground (arith, keeps.by_rule k r w here))
            | inr other ↦ rw other refl
          ])
    | inr unwanted ↦
        let gone = keeps.deleted k r w (
          wrapped_ok (ipt.delete r.table r.chain r.rule) w tt (rw (unwanted, correct_rule) at h)) in
        rw (unwanted, correct_rule)
          (elim (Bool-cases (same_rule k r)) [
            | inl here ↦ let gone' = rw here at gone in rw here (omega (arith, gone'))
            | inr other ↦ let gone' = rw other at gone in rw other (omega (arith, gone'))
          ])
  ]
  correct_rule_lem r false w e h = elim (Bool-cases r.should_exist) [
    | inl wanted ↦
        let come =
          keeps.appended k r w (
            wrapped_ok (ipt.append r.table r.chain r.rule) w tt (rw (wanted, correct_rule) at h)) in
        rw (wanted, correct_rule)
          (elim (Bool-cases (same_rule k r)) [
            | inl here ↦
                let come' = rw here at come in
                rw here (ground (arith, come', keeps.by_rule k r w here))
            | inr other ↦ let come' = rw other at come in rw other (omega (arith, come'))
          ])
    | inr unwanted ↦
        rw (unwanted, correct_rule)
          (elim (Bool-cases (same_rule k r)) [
            | inl here ↦ rw here (ground (arith, keeps.by_rule k r w here))
            | inr other ↦ rw other refl
          ])
  ]

  apply_rule_lem :
      (r : IptablesRule) (w : W)
      → (apply_rule ipt r w).0 ≡ ok tt
      → count k (apply_rule ipt r w).1
        ≡ (if same_rule k r then settled r.should_exist (count k w) else count k w)
  unfolding apply_rule ◌>>=◌ wrapped
  apply_rule_lem r w h =
      let test = ipt.exists r.table r.chain r.rule in
      let (b, first, later) = >>=-ok (wrapped test) (correct_rule ipt r) w tt h in
      let found = keeps.checked r w b (wrapped_ok test w b first) in
      rw (first, apply_rule, ◌>>=◌)
        (correct_rule_lem r b (test w).1 (found ∙ ap (ltb 0) (sym (keeps.checking r r w))) later
          ∙ ap (λ c. if same_rule k r then settled r.should_exist c else c) (keeps.checking k r w))

  -- Every rule of a list is settled in its turn.
  pub for_each-apply_rule :
      (rs : List IptablesRule) (w : W)
      → (for_each (apply_rule ipt) rs w).0 ≡ ok tt
      → count k (for_each (apply_rule ipt) rs w).1 ≡ settle k rs (count k w)
  unfolding for_each ◌>>=◌ pure
  for_each-apply_rule [] w h = refl
  for_each-apply_rule (r ∷ rs) w h =
      let (u, first, later) =
        >>=-ok (apply_rule ipt r) (λ _. for_each (apply_rule ipt) rs) w tt h in
      rw (first, ◌>>=◌)
        (for_each-apply_rule rs (apply_rule ipt r w).1 later
          ∙ ap (settle k rs) (apply_rule_lem r w first))

-- The rules of a list that are the rule of `k` all should exist, or none should.
abbrev pub Agree : Bool → IptablesRule → List IptablesRule → Type 0
Agree wanted k rs = All (λ r. same_rule k r ≡ true → r.should_exist ≡ wanted) rs

abbrev pub is_among : IptablesRule → List IptablesRule → Bool
is_among k [] = false
is_among k (r ∷ rs) = same_rule k r || is_among k rs

settle_keeps :
    (k : IptablesRule) (rs : List IptablesRule) (c : ℕ) → Agree true k rs → c ≤ settle k rs c
settle_keeps k [] c agree = omega arith
settle_keeps k (r ∷ rs) c agree = elim (Bool-cases (same_rule k r)) [
  | inl here ↦
      rw (here, agree.0 here) (ground (arith, settle_keeps k rs (if c == 0 then 1 else c) agree.1))
  | inr other ↦ rw other (settle_keeps k rs c agree.1)
]

pub settle-true :
    (k : IptablesRule) (rs : List IptablesRule) (c : ℕ)
    → Agree true k rs
    → is_among k rs ≡ true
    → 1 ≤ settle k rs c
settle-true k [] c agree there = absurd (ground arith)
settle-true k (r ∷ rs) c agree there = elim (Bool-cases (same_rule k r)) [
  | inl here ↦
      rw (here, agree.0 here) (ground (arith, settle_keeps k rs (if c == 0 then 1 else c) agree.1))
  | inr other ↦ rw other (settle-true k rs c agree.1 (rw other at there))
]

pub settle_lowers :
    (k : IptablesRule) (rs : List IptablesRule) (c : ℕ) → Agree false k rs → settle k rs c ≤ c
settle_lowers k [] c agree = omega arith
settle_lowers k (r ∷ rs) c agree = elim (Bool-cases (same_rule k r)) [
  | inl here ↦ rw (here, agree.0 here) (omega (arith, settle_lowers k rs (c - 1) agree.1))
  | inr other ↦ rw other (settle_lowers k rs c agree.1)
]

pub settle-false :
    (k : IptablesRule) (rs : List IptablesRule) (c : ℕ)
    → Agree false k rs
    → is_among k rs ≡ true
    → settle k rs c ≤ c - 1
settle-false k [] c agree there = absurd (ground arith)
settle-false k (r ∷ rs) c agree there = elim (Bool-cases (same_rule k r)) [
  | inl here ↦ rw (here, agree.0 here) (omega (arith, settle_lowers k rs (c - 1) agree.1))
  | inr other ↦ rw other (settle-false k rs c agree.1 (rw other at there))
]
