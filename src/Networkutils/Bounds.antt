-- ===== src/Networkutils/Bounds.antt =====
-- pkg/networkutils/network.go: the range of the connection mark, the gateway's address, and the
-- attempts to find a link.
use amazon_vpc_cni_k8s.Prelude.{
  ℕ, ◌+◌, ◌/◌, ◌%◌, ◌^◌, ◌≤◌, ◌<◌, ◌≡◌, refl, ◌⊎◌, inl, inr, ℤ, pos, negsuc, String, same, Option,
  none, some, [], ◌∷◌, ◌==◌, parse_int, arith, Bool-cases,
}
use amazon_vpc_cni_k8s.Netlink.{to4}
use amazon_vpc_cni_k8s.Networkutils.{
  mark_of, get_connmark, uint32, increment_uint32, increment_ipv4_addr,
}

mark_of_bounds : (o : Option ℤ) → (1 ≤ mark_of o) × (mark_of o ≤ 4294967295)
unfolding mark_of
mark_of_bounds none = (omega arith, omega arith)
mark_of_bounds (some (negsuc n)) = (omega arith, omega arith)
mark_of_bounds (some (pos n)) = ground arith

-- Whatever the environment has for AWS_VPC_K8S_CNI_CONNMARK, the mark is not 0 and fits 32 bits.
pub get_connmark_bounds :
    (getenv : String → String) → (1 ≤ get_connmark getenv) × (get_connmark getenv ≤ 4294967295)
unfolding get_connmark
get_connmark_bounds getenv = elim (Bool-cases (same (getenv "AWS_VPC_K8S_CNI_CONNMARK") "")) [
  | inl unset ↦ rw unset (omega arith, omega arith)
  | inr set ↦ rw set (mark_of_bounds (parse_int 64 (getenv "AWS_VPC_K8S_CNI_CONNMARK")))
]

-- For the four bytes of an IPv4 address, `incrementIPv4Addr` is an error exactly for
-- 255.255.255.255, and otherwise gives four bytes that stand for the next number.
pub increment_ipv4_addr_lem :
    (a b c d : ℕ)
    → a < 256
    → b < 256
    → c < 256
    → d < 256
    → ((increment_ipv4_addr (a ∷ b ∷ c ∷ d ∷ []) ≡ none) × (uint32 a b c d ≡ 4294967295))
      ⊎ ((e : ℕ) × (f : ℕ) × (g : ℕ) × (h : ℕ) × (increment_ipv4_addr (a ∷ b ∷ c ∷ d ∷ [])
            ≡ some (e ∷ f ∷ g ∷ h ∷ []))
          × (e < 256)
          × (f < 256)
          × (g < 256)
          × (h < 256)
          × (uint32 e f g h ≡ uint32 a b c d + 1))
unfolding increment_ipv4_addr increment_uint32 to4
increment_ipv4_addr_lem a b c d la lb lc ld = elim (Bool-cases (uint32 a b c d == 4294967295)) [
  | inl last ↦ inl (rw last refl, ground arith)
  | inr more ↦
      let n = (uint32 a b c d + 1) % 2 ^ 32 in
      let small : uint32 a b c d < 4294967295 = ground arith in
      inr (
        n / 16777216 % 256,
        n / 65536 % 256,
        n / 256 % 256,
        n % 256,
        rw more refl,
        omega arith,
        omega arith,
        omega arith,
        omega arith,
        omega arith,
      )
]
