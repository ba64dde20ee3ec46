-- ===== src/Networkutils/TableTests.antt =====
-- Tables of rules that iptables keeps as documented.
use amazon_vpc_cni_k8s.Prelude.{
  ℕ, ◌+◌, ◌≡◌, refl, sym, ap, ◌∙◌, inl, inr, String, same, true, ◌&&◌, List, [], ◌∷◌, ltb,
  if◌then◌else◌, arith, Bool-cases,
}
use amazon_vpc_cni_k8s.Netlink.{Error, ok, failed, other_error, Answer}
use amazon_vpc_cni_k8s.Networkutils.{IptablesRule, Iptables, same_words}
use amazon_vpc_cni_k8s.Networkutils.Tables.{KeepsTables, same_rule}
use amazon_vpc_cni_k8s.Networkutils.SameRules.{same_rule-same, same_rule→eq}

abbrev named : String → String → List String → IptablesRule
named table chain words = record {
  name = "";
  should_exist = true;
  table = table;
  chain = chain;
  rule = words;
}

abbrev times : String → String → List String → List IptablesRule → ℕ
times table chain words [] = 0
times table chain words (r ∷ rs) =
    (if same_rule (named table chain words) r then 1 else 0) + times table chain words rs

abbrev pub count : IptablesRule → List IptablesRule → ℕ
count k w = times k.table k.chain k.rule w

abbrev without : IptablesRule → List IptablesRule → List IptablesRule
without k [] = []
without k (r ∷ rs) = if same_rule k r then rs else r ∷ without k rs

abbrev pub tables : Iptables (List IptablesRule)
tables = record {
  exists = λ t c r w. (ok (ltb 0 (times t c r w)), w);
  append = λ t c r w. (ok tt, named t c r ∷ w);
  delete = λ t c r w.
      (if ltb 0 (times t c r w) then ok tt else failed other_error, without (named t c r) w);
  list = λ t c w. (ok [], w);
  new_chain = λ t c w. (ok tt, w);
  list_chains = λ t w. (ok [], w);
  has_random_fully = true;
}

same_count :
    (k r : IptablesRule) (w : List IptablesRule) → same_rule k r ≡ true → count k w ≡ count r w
same_count k r [] h = refl
same_count k r (o ∷ w) h =
    ap (λ b. (if b then 1 else 0) + count k w) (same_rule-same k r o h)
    ∙ ap (λ n. (if same_rule r o then 1 else 0) + n) (same_count k r w h)

ok_value : {A : Type 0} {a b : A} → ◌≡◌ {A = Answer Error A} (ok a) (ok b) → a ≡ b
ok_value e = cc

failed_not_ok : ¬ (◌≡◌ {A = Answer Error (Unit {0})} (failed other_error) (ok tt))
failed_not_ok e = cc

same_right : (k r o : IptablesRule) → same_rule r o ≡ true → same_rule k r ≡ same_rule k o
same_right k r o h =
    let (t, c, w) = same_rule→eq r o h in
    ap (λ s. same k.table s && same k.chain r.chain && same_words k.rule r.rule) t
    ∙ ap (λ s. same k.table o.table && same k.chain s && same_words k.rule r.rule) c
    ∙ ap (λ s. same k.table o.table && same k.chain o.chain && same_words k.rule s) w

one_less :
    (k r : IptablesRule) (w : List IptablesRule)
    → ltb 0 (count r w) ≡ true
    → count k (without r w) + (if same_rule k r then 1 else 0) ≡ count k w
one_less k r [] h = absurd (ground arith)
one_less k r (o ∷ w) h = elim (Bool-cases (same_rule r o)) [
  | inl here ↦
      rw here (ap (λ b. count k w + (if b then 1 else 0)) (same_right k r o here) ∙ omega arith)
  | inr other ↦ let later = one_less k r w (ground arith) in rw other (omega (arith, later))
]

pub tables_keep : KeepsTables tables count
tables_keep = record {
  by_rule = same_count;
  checked = λ r w b h. sym (ok_value h);
  checking = λ k r w. refl;
  appended = λ k r w h. omega arith;
  deleted = λ k r w h. elim (Bool-cases (ltb 0 (count r w))) [
    | inl there ↦ one_less k r w there
    | inr gone ↦ absurd (failed_not_ok (rw gone at h))
  ];
}
