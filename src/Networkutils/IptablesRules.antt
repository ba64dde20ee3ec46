-- ===== src/Networkutils/IptablesRules.antt =====
-- pkg/networkutils/network.go: the iptables rules that SetupHostNetwork wants.
use amazon_vpc_cni_k8s.Prelude.{
  ℕ, ◌+◌, String, same, Bool, true, false, not, ◌&&◌, List, [], ◌∷◌, ◌++◌, map, if◌then◌else◌,
  decimal, hexadecimal,
}
use Prim.Native.String
use amazon_vpc_cni_k8s.Netlink.{Action, Error}
use amazon_vpc_cni_k8s.Networkutils.Settings.{
  SnatType, sequential_snat, random_hash_snat, random_prng_snat, LinuxNetwork,
}

pub record IptablesRule : Type 0 where
  pub name : String
  pub should_exist : Bool
  pub table : String
  pub chain : String
  pub rule : List String

-- `iptablesIface`: a rule is named by its table, its chain and its words.
pub record Iptables (W : Type 0) : Type 0 where
  pub exists : String → String → List String → Action W Error Bool
  pub append : String → String → List String → Action W Error (Unit {0})
  pub delete : String → String → List String → Action W Error (Unit {0})
  pub list : String → String → Action W Error (List String)
  pub new_chain : String → String → Action W Error (Unit {0})
  pub list_chains : String → Action W Error (List String)
  pub has_random_fully : Bool

-- `SnatCidr` has the CIDR and whether it is an exclusion.
abbrev pub SnatCidr : Type 0
SnatCidr = String × Bool

unfoldable pub all_cidrs : List String → List String → List SnatCidr
all_cidrs vpc_cidrs exclude_snat_cidrs =
    map (λ c. (c, false)) vpc_cidrs ++ map (λ c. (c, true)) exclude_snat_cidrs

unfoldable pub chain_name : ℕ → String
unfolding decimal
chain_name i = String.◌++◌ "AWS-SNAT-CHAIN-" (decimal i)

-- The names from `i` on, one more than there are CIDRs.
unfoldable pub chains_from : ℕ → List SnatCidr → List String
unfolding chain_name
chains_from i [] = chain_name i ∷ []
chains_from i (_ ∷ cidrs) = chain_name i ∷ chains_from (i + 1) cidrs

unfoldable pub first_rule : LinuxNetwork → IptablesRule
first_rule n = record {
  name = "first SNAT rules for non-VPC outbound traffic";
  should_exist = not n.use_external_snat;
  table = "nat";
  chain = "POSTROUTING";
  rule = "-m" ∷ "comment" ∷ "--comment" ∷ "AWS SNAT CHAIN" ∷ "-j" ∷ "AWS-SNAT-CHAIN-0" ∷ [];
}

unfoldable pub cidr_rule : LinuxNetwork → ℕ → SnatCidr → IptablesRule
unfolding chain_name
cidr_rule n i (cidr, is_exclusion) = record {
  name = String.◌++◌ "[" (String.◌++◌ (decimal i) "] AWS-SNAT-CHAIN");
  should_exist = not n.use_external_snat;
  table = "nat";
  chain = chain_name i;
  rule =
      "!"
      ∷ "-d"
      ∷ cidr
      ∷ "-m"
      ∷ "comment"
      ∷ "--comment"
      ∷ (if is_exclusion then "AWS SNAT CHAIN EXCLUSION" else "AWS SNAT CHAIN")
      ∷ "-j"
      ∷ chain_name (i + 1)
      ∷ [];
}

unfoldable pub random_flag : SnatType → Bool → List String
random_flag sequential_snat fully = []
random_flag random_hash_snat fully = "--random" ∷ []
random_flag random_prng_snat fully = (if fully then "--random-fully" else "--random") ∷ []

unfoldable pub snat_words : LinuxNetwork → Bool → String → List String
unfolding random_flag
snat_words n fully primary_addr =
    ("-m" ∷ "comment" ∷ "--comment" ∷ "AWS, SNAT" ∷ "-m" ∷ "addrtype" ∷ "!" ∷ "--dst-type" ∷ "LOCAL"
      ∷ "-j" ∷ "SNAT" ∷ "--to-source" ∷ primary_addr ∷ [])
    ++ random_flag n.type_of_snat fully

unfoldable pub last_rule : LinuxNetwork → Bool → String → String → IptablesRule
unfolding snat_words
last_rule n fully primary_addr last_chain = record {
  name = "last SNAT rule for non-VPC outbound traffic";
  should_exist = not n.use_external_snat;
  table = "nat";
  chain = last_chain;
  rule = snat_words n fully primary_addr;
}

-- The rules of the chains from `i` on.
unfoldable pub rules_from : LinuxNetwork → Bool → String → ℕ → List SnatCidr → List IptablesRule
unfolding last_rule cidr_rule chain_name
rules_from n fully primary_addr i [] = last_rule n fully primary_addr (chain_name i) ∷ []
rules_from n fully primary_addr i (c ∷ cs) =
    cidr_rule n i c ∷ rules_from n fully primary_addr (i + 1) cs

unfoldable pub snat_rules : LinuxNetwork → Bool → String → List SnatCidr → List IptablesRule
unfolding first_rule rules_from
snat_rules n fully primary_addr cidrs = first_rule n ∷ rules_from n fully primary_addr 0 cidrs

abbrev pub same_words : List String → List String → Bool
same_words [] [] = true
same_words [] (_ ∷ _) = false
same_words (_ ∷ _) [] = false
same_words (x ∷ xs) (y ∷ ys) = same x y && same_words xs ys

unfoldable pub is_wanted : List IptablesRule → IptablesRule → Bool
is_wanted [] stale = false
is_wanted (new ∷ news) stale =
    let later = is_wanted news stale in
    if same stale.chain new.chain && same_words new.rule stale.rule then true else later

unfoldable pub stale_rules : List IptablesRule → List IptablesRule → List IptablesRule
unfolding is_wanted
stale_rules news [] = []
stale_rules news (old ∷ olds) =
    let rest = stale_rules news olds in if is_wanted news old then rest else old ∷ rest

-- The marks of the connections of the primary ENI.
unfoldable pub connmark_rules : LinuxNetwork → String → List IptablesRule
unfolding hexadecimal
connmark_rules n primary_intf =
    let mark = hexadecimal n.main_eni_mark in
    record {
      name = "connmark for primary ENI";
      should_exist = n.node_port_support_enabled;
      table = "mangle";
      chain = "PREROUTING";
      rule =
          "-m"
          ∷ "comment"
          ∷ "--comment"
          ∷ "AWS, primary ENI"
          ∷ "-i"
          ∷ primary_intf
          ∷ "-m"
          ∷ "addrtype"
          ∷ "--dst-type"
          ∷ "LOCAL"
          ∷ "--limit-iface-in"
          ∷ "-j"
          ∷ "CONNMARK"
          ∷ "--set-mark"
          ∷ String.◌++◌ mark (String.◌++◌ "/" mark)
          ∷ [];
    }
    ∷ record {
      name = "connmark restore for primary ENI";
      should_exist = n.node_port_support_enabled;
      table = "mangle";
      chain = "PREROUTING";
      rule =
          "-m" ∷ "comment" ∷ "--comment" ∷ "AWS, primary ENI" ∷ "-i" ∷ "eni+" ∷ "-j" ∷ "CONNMARK"
          ∷ "--restore-mark" ∷ "--mask" ∷ mark ∷ [];
    }
    ∷ []

-- The rule of releases before 1.3, to be removed.
unfoldable pub old_snat_rule : String → String → IptablesRule
old_snat_rule vpc_cidr primary_addr = record {
  name = String.◌++◌ "rule for primary address " primary_addr;
  should_exist = false;
  table = "nat";
  chain = "POSTROUTING";
  rule =
      "!" ∷ "-d" ∷ vpc_cidr ∷ "-m" ∷ "comment" ∷ "--comment" ∷ "AWS, SNAT" ∷ "-m" ∷ "addrtype" ∷ "!"
      ∷ "--dst-type" ∷ "LOCAL" ∷ "-j" ∷ "SNAT" ∷ "--to-source" ∷ primary_addr ∷ [];
}

unfoldable pub iptable_rules :
    LinuxNetwork
    → Bool
    → String
    → String
    → String
    → List SnatCidr
    → List IptablesRule
    → List IptablesRule
unfolding snat_rules stale_rules connmark_rules old_snat_rule
iptable_rules n fully primary_addr vpc_cidr primary_intf cidrs current =
    let news = snat_rules n fully primary_addr cidrs in
    news
    ++ (stale_rules news current
        ++ (connmark_rules n primary_intf ++ (old_snat_rule vpc_cidr primary_addr ∷ [])))
