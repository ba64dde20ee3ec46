-- ===== src/Networkutils/Snat.antt =====
-- pkg/networkutils/network.go: what the SNAT chains do to a packet.
use Prim.Native.Char.{char, code}
use text.Mathlib.TextLemmas.{cons-append, append_cancel_left}
use mathlib.Core.List.{append_assoc}
use amazon_vpc_cni_k8s.Prelude.{
  ℕ, zero, suc, ◌+◌, ◌<◌, ◌≡◌, ◌≢◌, refl, sym, ap, ◌∙◌, String, same, same-ne, same_refl,
  string_discrete, Bool, false, not, ◌&&◌, ◌||◌, none, some, List, [], ◌∷◌, ◌++◌, length,
  length-append, if◌then◌else◌, decimal, decimal-injective, arith,
}
use amazon_vpc_cni_k8s.Networkutils.{
  LinuxNetwork, SnatCidr, all_cidrs, chain_name, first_rule, cidr_rule, last_rule, snat_words,
  rules_from, snat_rules,
}
use amazon_vpc_cni_k8s.Networkutils.Packets.{
  Packet, changes_source, holds_not, in_chain, is_within_one, target,
}

abbrev first_code : String → ℕ
first_code String.[] = 0
first_code (String.◌∷◌ c s) = code c

chain_name_first : (i : ℕ) → first_code (chain_name i) ≡ 65
unfolding chain_name
chain_name_first i = ap first_code (cons-append (char b'A' tt) "WS-SNAT-CHAIN-" (decimal i))

not_snat : (i : ℕ) → same (chain_name i) "SNAT" ≡ false
unfolding chain_name
not_snat i = same-ne _ _ λ e. absurd (ground (arith, ap first_code e, chain_name_first i))

not_postrouting : (i : ℕ) → same "POSTROUTING" (chain_name i) ≡ false
not_postrouting i = same-ne _ _ λ e. absurd (ground (arith, ap first_code e, chain_name_first i))

pub other_way : (i : ℕ) → same (chain_name i) "POSTROUTING" ≡ false
other_way i = same-ne _ _ λ e. absurd (ground (arith, ap first_code e, chain_name_first i))

chain_name-injective : (i j : ℕ) → chain_name i ≡ chain_name j → i ≡ j
unfolding chain_name
chain_name-injective i j e = decimal-injective i j (append_cancel_left _ _ _ e)

other_chain : (i j : ℕ) → i ≢ j → same (chain_name j) (chain_name i) ≡ false
other_chain i j ne = same-ne _ _ λ e. ne (sym (chain_name-injective j i e))

cidr_target :
    (p : Packet) (n : LinuxNetwork) (i : ℕ) (c : SnatCidr)
    → target p (cidr_rule n i c).rule
      ≡ (if p.is_within c.0 then none else some (chain_name (i + 1)))
unfolding cidr_rule target holds_not string_discrete
cidr_target p n i c = ground arith

snat_target :
    (p : Packet) (n : LinuxNetwork) (fully : Bool) (addr : String)
    → target p (snat_words n fully addr) ≡ (if p.is_local then none else some "SNAT")
unfolding snat_words target holds_not string_discrete
snat_target p n fully addr = ground arith

module _ (p : Packet) (n : LinuxNetwork) (fully : Bool) (addr : String) (jump : String → Bool) where
  -- No rule of a later chain counts.
  later_chains :
      (i j : ℕ) (cs : List SnatCidr)
      → i < j
      → in_chain p jump (chain_name i) (rules_from n fully addr j cs) ≡ false
  unfolding in_chain rules_from cidr_rule last_rule
  later_chains i j [] lt = ground (arith, other_chain i j (omega arith))
  later_chains i j (c ∷ cs) lt =
      ground (arith, other_chain i j (omega arith), later_chains i (j + 1) cs (omega arith))

  -- No rule of an earlier chain counts.
  earlier_chains :
      (i j : ℕ) (pre cs : List SnatCidr)
      → i ≡ j + length pre
      → in_chain p jump (chain_name i) (rules_from n fully addr j (pre ++ cs))
        ≡ in_chain p jump (chain_name i) (rules_from n fully addr i cs)
  unfolding in_chain rules_from cidr_rule
  earlier_chains i j [] cs e =
      ap (λ k. in_chain p jump (chain_name i) (rules_from n fully addr k cs)) (omega arith)
  earlier_chains i j (c ∷ pre) cs e =
      ground (arith, other_chain i j (omega arith), earlier_chains i (j + 1) pre cs (omega arith))

  -- The one rule of a chain that asks for a CIDR.
  cidr_chain :
      (i : ℕ) (c : SnatCidr) (cs : List SnatCidr)
      → in_chain p jump (chain_name i) (rules_from n fully addr i (c ∷ cs))
        ≡ (not n.use_external_snat && not (p.is_within c.0) && jump (chain_name (i + 1)))
  unfolding in_chain rules_from cidr_rule
  cidr_chain i c cs = ground (
    arith,
    cidr_target p n i c,
    same_refl (chain_name i),
    not_snat (i + 1),
    later_chains i (i + 1) cs (omega arith),
  )

  last_chain :
      (i : ℕ)
      → in_chain p jump (chain_name i) (rules_from n fully addr i [])
        ≡ (not n.use_external_snat && not p.is_local)
  unfolding in_chain rules_from last_rule
  last_chain i = ground (arith, snat_target p n fully addr, same_refl (chain_name i))

  no_postrouting :
      (j : ℕ) (cs : List SnatCidr)
      → in_chain p jump "POSTROUTING" (rules_from n fully addr j cs) ≡ false
  unfolding in_chain rules_from cidr_rule last_rule
  no_postrouting j [] = ground (arith, other_way j)
  no_postrouting j (c ∷ cs) = ground (arith, other_way j, no_postrouting (j + 1) cs)

  -- The first rule counts in its own chain only.
  skips_first :
      (i : ℕ) (cs : List SnatCidr)
      → in_chain p jump (chain_name i) (snat_rules n fully addr cs)
        ≡ in_chain p jump (chain_name i) (rules_from n fully addr 0 cs)
  unfolding in_chain snat_rules first_rule
  skips_first i cs = ground (arith, not_postrouting i)

  from_postrouting :
      (cs : List SnatCidr)
      → in_chain p jump "POSTROUTING" (snat_rules n fully addr cs)
        ≡ (not n.use_external_snat && jump (chain_name 0))
  unfolding in_chain snat_rules first_rule target holds_not string_discrete
  from_postrouting cs = ground (arith, no_postrouting 0 cs)

abbrev is_within_any : Packet → List SnatCidr → Bool
is_within_any p [] = false
is_within_any p (c ∷ cs) = p.is_within c.0 || is_within_any p cs

module _ (p : Packet) (n : LinuxNetwork) (fully : Bool) (addr : String) where
  from_chain :
      (depth : ℕ) (pre cs : List SnatCidr)
      → length cs < depth
      → changes_source p (snat_rules n fully addr (pre ++ cs)) depth (chain_name (length pre))
        ≡ (not n.use_external_snat && not p.is_local && not (is_within_any p cs))
  unfolding changes_source
  from_chain zero pre cs lt = absurd (omega arith)
  from_chain (suc depth) pre [] lt =
      let jump = changes_source p (snat_rules n fully addr (pre ++ [])) depth in
      ground (
        arith,
        skips_first p n fully addr jump (length pre) (pre ++ []),
        earlier_chains p n fully addr jump (length pre) 0 pre [] (omega arith),
        last_chain p n fully addr jump (length pre),
      )
  from_chain (suc depth) pre (c ∷ cs) lt =
      let jump = changes_source p (snat_rules n fully addr (pre ++ c ∷ cs)) depth in
      let split : pre ++ (c ∷ cs) ≡ (pre ++ (c ∷ [])) ++ cs = sym (append_assoc pre (c ∷ []) cs) in
      let next : jump (chain_name (length pre + 1))
          ≡ (not n.use_external_snat && not p.is_local && not (is_within_any p cs)) =
        rw split (
          ap
            (λ k.
              changes_source p (snat_rules n fully addr ((pre ++ (c ∷ [])) ++ cs)) depth
                (chain_name k))
            (sym (length-append pre (c ∷ [])))
          ∙ from_chain depth (pre ++ (c ∷ [])) cs (omega arith)) in
      ground (
        arith,
        skips_first p n fully addr jump (length pre) (pre ++ c ∷ cs),
        earlier_chains p n fully addr jump (length pre) 0 pre (c ∷ cs) (omega arith),
        cidr_chain p n fully addr jump (length pre) c cs,
        next,
      )

  is_within_any-all_cidrs :
      (vpc_cidrs exclude_snat_cidrs : List String)
      → is_within_any p (all_cidrs vpc_cidrs exclude_snat_cidrs)
        ≡ is_within_one p (vpc_cidrs ++ exclude_snat_cidrs)
  unfolding all_cidrs
  is_within_any-all_cidrs [] [] = refl
  is_within_any-all_cidrs [] (c ∷ cs) = ground (arith, is_within_any-all_cidrs [] cs)
  is_within_any-all_cidrs (c ∷ cs) ex = ground (arith, is_within_any-all_cidrs cs ex)

  -- The SNAT rules, read as iptables reads them from POSTROUTING on, change the source of exactly
  -- the packets that do not go to the node itself, to a CIDR of the VPC or to an excluded one, and of
  -- no packet where SNAT is external.
  pub snat_rules_lem :
      (vpc_cidrs exclude_snat_cidrs : List String)
      → let cidrs = all_cidrs vpc_cidrs exclude_snat_cidrs in
        changes_source p (snat_rules n fully addr cidrs) (length cidrs + 2) "POSTROUTING" ≡ (
          not n.use_external_snat
          && not p.is_local
          && not (is_within_one p (vpc_cidrs ++ exclude_snat_cidrs)))
  unfolding changes_source
  snat_rules_lem vpc_cidrs exclude_snat_cidrs =
      let cidrs = all_cidrs vpc_cidrs exclude_snat_cidrs in
      let jump = changes_source p (snat_rules n fully addr cidrs) (length cidrs + 1) in
      ground (
        arith,
        from_postrouting p n fully addr jump cidrs,
        from_chain (length cidrs + 1) [] cidrs (omega arith),
        is_within_any-all_cidrs vpc_cidrs exclude_snat_cidrs,
      )
