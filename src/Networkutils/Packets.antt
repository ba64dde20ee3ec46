-- ===== src/Networkutils/Packets.antt =====
-- What iptables makes of a packet, for the rules of pkg/networkutils/network.go.
use amazon_vpc_cni_k8s.Prelude.{
  ℕ, zero, suc, String, same, string_discrete, Bool, true, false, not, ◌&&◌, ◌||◌, Option, none,
  some, List, [], ◌∷◌, if◌then◌else◌,
}
use amazon_vpc_cni_k8s.Networkutils.{IptablesRule}

-- A packet: the CIDRs that contain its destination, and whether the destination is the node's own.
pub record Packet : Type 0 where
  pub is_within : String → Bool
  pub is_local : Bool

-- A condition after "!".
unfoldable pub holds_not : Packet → String → String → Bool
unfolding string_discrete
holds_not p option value =
    if same option "-d"
    then not (p.is_within value)
    else if same option "--dst-type"
    then not p.is_local
    else false

-- The target of a rule, if the packet matches it: the words of iptables-extensions(8), as far as the
-- rules of the chains use them.
unfoldable pub target : Packet → List String → Option String
unfolding holds_not string_discrete
target p [] = none
target p (w ∷ []) = none
target p (w ∷ v ∷ []) = if same w "-j" then some v else none
target p (w ∷ v ∷ x ∷ ws) =
    let after_pair = target p (x ∷ ws) in
    let after_three = target p ws in
    if same w "-j"
    then some v
    else if same w "!"
    then if holds_not p v x then after_three else none
    else after_pair

-- Whether the rules of a chain, in order, change the source; `jump` says it of the other chains.
unfoldable pub in_chain : Packet → (String → Bool) → String → List IptablesRule → Bool
unfolding target string_discrete
in_chain p jump chain [] = false
in_chain p jump chain (r ∷ rs) =
    let later = in_chain p jump chain rs in
    if r.should_exist && same r.table "nat" && same r.chain chain
    then elim (target p r.rule) [
      | none ↦ later
      | some t ↦ if same t "SNAT" then true else jump t || later
    ]
    else later

-- The chains of the rules that should exist, to a depth of jumps.
unfoldable pub changes_source : Packet → List IptablesRule → ℕ → String → Bool
unfolding in_chain
changes_source p rules zero chain = false
changes_source p rules (suc depth) chain = in_chain p (changes_source p rules depth) chain rules

abbrev pub is_within_one : Packet → List String → Bool
is_within_one p [] = false
is_within_one p (c ∷ cs) = p.is_within c || is_within_one p cs
