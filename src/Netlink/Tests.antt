-- ===== src/Netlink/Tests.antt =====
-- A table of rules that is kept as documented.
use amazon_vpc_cni_k8s.Prelude.{
  ◌≡◌, refl, ap, sym, ◌∙◌, Bool, true, false, ◌&&◌, Option, none, some, List, [], ◌∷◌,
  if◌then◌else◌, arith, pos, negsuc, ℤ, zero, suc, ◌==◌, ◌≢◌,
}
use amazon_vpc_cni_k8s.Netlink.{
  Ip, IpNet, Rule, NetLink, same_bytes, ip_equal, ok, failed, crashed, enoent, other_error, Answer,
  Error,
}
use amazon_vpc_cni_k8s.Netlink.Kernel.{KeepsRules, from_source, has, remove_first, same_bytes_refl}

abbrev covers_net : Option IpNet → Option IpNet → Bool
covers_net none s = true
covers_net (some a) none = false
covers_net (some a) (some b) = same_bytes a.ip b.ip

-- A priority of -1 asks for none.
abbrev covers_priority : ℤ → ℤ → Bool
covers_priority (negsuc zero) q = true
covers_priority (negsuc (suc n)) (negsuc m) = suc n == m
covers_priority (negsuc (suc n)) (pos m) = false
covers_priority (pos n) (pos m) = n == m
covers_priority (pos n) (negsuc m) = false

-- The source, the destination and the priority that a rule asks for.
abbrev pub covers : Rule → Rule → Bool
covers r s =
    covers_net r.src s.src && covers_net r.dst s.dst && covers_priority r.priority s.priority

abbrev pub kernel : NetLink (List Rule)
kernel = record {
  link_by_name = λ name w. (failed other_error, w);
  link_list = λ w. (ok [], w);
  link_add = λ v w. (ok tt, w);
  link_del = λ l w. (ok tt, w);
  link_set_up = λ l w. (ok tt, w);
  link_set_mtu = λ l m w. (ok tt, w);
  link_set_ns_fd = λ l d w. (ok tt, w);
  addr_list = λ l w. (ok [], w);
  addr_add = λ l a w. (ok tt, w);
  addr_del = λ l a w. (ok tt, w);
  route_add = λ r w. (ok tt, w);
  route_replace = λ r w. (ok tt, w);
  route_del = λ r w. (failed other_error, w);
  neigh_add = λ n w. (ok tt, w);
  new_rule = record {
    src = none;
    dst = none;
    table = pos 0;
    priority = negsuc 0;
    mark = negsuc 0;
    mask = negsuc 0;
    invert = false;
  };
  rule_add = λ r w. (ok tt, r ∷ w);
  rule_del = λ r w. (if has (covers r) w then ok tt else failed enoent, remove_first (covers r) w);
  rule_list = λ w. (ok w, w);
  sleep = λ d w. w;
}

covers_net_refl : (o : Option IpNet) → covers_net o o ≡ true
covers_net_refl none = refl
covers_net_refl (some a) = same_bytes_refl a.ip

covers_priority_refl : (p : ℤ) → covers_priority p p ≡ true
covers_priority_refl (negsuc zero) = refl
covers_priority_refl (negsuc (suc n)) = ground arith
covers_priority_refl (pos n) = ground arith

pub covers_priority→eq : (p q : ℤ) → covers_priority p q ≡ true → p ≢ negsuc 0 → p ≡ q
covers_priority→eq (negsuc zero) q h n = absurd (n refl)
covers_priority→eq (negsuc (suc n)) (negsuc m) h k = ground arith
covers_priority→eq (negsuc (suc n)) (pos m) h k = absurd (ground arith)
covers_priority→eq (pos n) (pos m) h k = ground arith
covers_priority→eq (pos n) (negsuc m) h k = absurd (ground arith)

same_bytes→eq : (x y : Ip) → same_bytes x y ≡ true → x ≡ y
same_bytes→eq [] [] h = refl
same_bytes→eq [] (b ∷ y) h = absurd (ground arith)
same_bytes→eq (a ∷ x) [] h = absurd (ground arith)
same_bytes→eq (a ∷ x) (b ∷ y) h = ground (arith, same_bytes→eq x y)

from_covered :
    (n : IpNet) (r s : Option IpNet)
    → covers_net r s ≡ true
    → elim r [ none ↦ false | some m ↦ ip_equal m.ip n.ip ] ≡ true
    → elim s [ none ↦ false | some m ↦ ip_equal m.ip n.ip ] ≡ true
from_covered n none s c h = absurd (ground arith)
from_covered n (some a) none c h = absurd (ground arith)
from_covered n (some a) (some b) c h =
    ap (λ x. ip_equal x n.ip) (sym (same_bytes→eq a.ip b.ip c)) ∙ h

not_crashed : ¬ (◌≡◌ {A = Answer Error (Unit {0})} (failed other_error) crashed)
not_crashed e = cc

pub kernel_keeps : KeepsRules kernel (λ w. w) covers
unfolding from_source
kernel_keeps = record {
  listed = λ w. refl;
  listing = λ w. refl;
  itself = λ r.
      ground (arith, covers_net_refl r.src, covers_net_refl r.dst, covers_priority_refl r.priority);
  same_source = λ n r s c h. from_covered n r.src s.src (ground arith) h;
  deletes = λ r w h. rw h refl;
  deleted = λ r w. refl;
  missing = λ r w h. rw h refl;
  added = λ r w h. ([], w, refl, refl);
  route_deleted = λ r w. refl;
  no_crash = λ r w e. not_crashed e;
}
