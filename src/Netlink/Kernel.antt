-- ===== src/Netlink/Kernel.antt =====
-- The table of rules as the kernel keeps it, behind pkg/netlinkwrapper/netlink.go.
use amazon_vpc_cni_k8s.Prelude.{
  none, some, ◌≡◌, ◌≢◌, refl, ◌∙◌, Bool, true, false, List, [], ◌∷◌, ◌++◌, if◌then◌else◌, arith,
  ◌||◌, inl, inr, All,
}
use amazon_vpc_cni_k8s.Prelude.Actions.{Answer-cases, not_ok, crash_not_ok}
use amazon_vpc_cni_k8s.Netlink.{
  ip_equal, Ip, same_bytes, Action, wrapped, Error, ok, failed, crashed, enoent, IpNet, Route, Rule,
  NetLink,
}

pub same_bytes_refl : (x : Ip) → same_bytes x x ≡ true
same_bytes_refl [] = refl
same_bytes_refl (a ∷ x) = ground (arith, same_bytes_refl x)

-- A call whose error is wrapped, when it succeeds.
pub wrapped_ok :
    {W A : Type 0} (m : Action W Error A) (w : W) (a : A) → (wrapped m w).0 ≡ ok a → (m w).0 ≡ ok a
unfolding wrapped
wrapped_ok m w a h = elim (Answer-cases (m w).0) [
  | inl (b, e) ↦ e ∙ (rw (e, wrapped) at h)
  | inr (inl (x, e)) ↦ absurd (not_ok _ (rw (e, wrapped) at h))
  | inr (inr e) ↦ absurd (crash_not_ok (rw (e, wrapped) at h))
]

module _ {A : Type 0} where
  abbrev pub has : (A → Bool) → List A → Bool
  has f [] = false
  has f (x ∷ xs) = f x || has f xs

  abbrev pub remove_first : (A → Bool) → List A → List A
  remove_first f [] = []
  remove_first f (x ∷ xs) = if f x then xs else x ∷ remove_first f xs

  pub has_after : (f : A → Bool) (xs ys : List A) (x : A) → f x ≡ true → has f (xs ++ x ∷ ys) ≡ true
  has_after f [] ys x h = ground arith
  has_after f (z ∷ xs) ys x h = ground (arith, has_after f xs ys x h)

  pub remove_first-skip :
      (f : A → Bool) (xs ys : List A) (x : A)
      → All (λ z. f z ≡ false) xs
      → f x ≡ true
      → remove_first f (xs ++ x ∷ ys) ≡ xs ++ ys
  remove_first-skip f [] ys x none_of h = ground arith
  remove_first-skip f (z ∷ xs) ys x none_of h =
      ground (arith, none_of.0, remove_first-skip f xs ys x none_of.1 h)

-- The rule has a source, and its address is that of `n`.
unfoldable pub from_source : IpNet → Rule → Bool
from_source n rule = elim rule.src [ none ↦ false | some m ↦ ip_equal m.ip n.ip ]

-- `covers r s`: deleting `r` may delete `s`, which has all that `r` asks for. Deleting takes away the
-- first rule that is covered, and is ENOENT where there is none; adding puts the rule somewhere; what
-- is done to routes leaves the rules alone.
pub record KeepsRules {W : Type 0} (nl : NetLink W) (rules_of : W → List Rule)
    (covers : Rule → Rule → Bool) : Type 0 where
  pub listed : (w : W) → (nl.rule_list w).0 ≡ ok (rules_of w)
  pub listing : (w : W) → rules_of (nl.rule_list w).1 ≡ rules_of w
  pub itself : (r : Rule) → covers r r ≡ true
  pub same_source :
      (n : IpNet) (r s : Rule) → covers r s ≡ true → from_source n r ≡ true → from_source n s ≡ true
  pub deletes :
      (r : Rule) (w : W) → has (covers r) (rules_of w) ≡ true → (nl.rule_del r w).0 ≡ ok tt
  pub deleted :
      (r : Rule) (w : W) → rules_of (nl.rule_del r w).1 ≡ remove_first (covers r) (rules_of w)
  pub missing :
      (r : Rule) (w : W) → has (covers r) (rules_of w) ≡ false → (nl.rule_del r w).0 ≡ failed enoent
  pub added :
      (r : Rule) (w : W)
      → (nl.rule_add r w).0 ≡ ok tt
      → (before : List Rule) × (after : List Rule) × (rules_of w ≡ before ++ after)
        × (rules_of (nl.rule_add r w).1 ≡ before ++ r ∷ after)
  pub route_deleted : (r : Route) (w : W) → rules_of (nl.route_del r w).1 ≡ rules_of w
  pub no_crash : (r : Route) (w : W) → (nl.route_del r w).0 ≢ crashed
