-- ===== src/Netlink.antt =====
-- pkg/netlinkwrapper/netlink.go and Go's `net`: the kernel's network configuration, as
-- pkg/networkutils and plugins/routed-eni/driver call it.
pub mod Kernel
pub mod Tests
use amazon_vpc_cni_k8s.Prelude.{
  ℕ, ℤ, pos, ◌==◌, ◌&&◌, ◌||◌, if◌then◌else◌, String, Bool, true, false, Option, none, some, List,
  [], ◌∷◌,
}
pub use amazon_vpc_cni_k8s.Prelude.Actions.{Answer, Action, ok, failed, crashed}

-- `net.IP`: its bytes.
abbrev pub Ip : Type 0
Ip = List ℕ

-- `net.IPNet`
pub record IpNet : Type 0 where
  pub ip : Ip
  pub mask : Ip

abbrev pub same_bytes : Ip → Ip → Bool
same_bytes [] [] = true
same_bytes [] (_ ∷ _) = false
same_bytes (_ ∷ _) [] = false
same_bytes (x ∷ xs) (y ∷ ys) = x == y && same_bytes xs ys

abbrev v4_in_v6_prefix : Ip
v4_in_v6_prefix = 0 ∷ 0 ∷ 0 ∷ 0 ∷ 0 ∷ 0 ∷ 0 ∷ 0 ∷ 0 ∷ 0 ∷ 255 ∷ 255 ∷ []

-- `net.IP.To4`; `none` is nil.
unfoldable pub to4 : Ip → Option Ip
to4 (a ∷ b ∷ c ∷ d ∷ []) = some (a ∷ b ∷ c ∷ d ∷ [])
to4 (x0 ∷ x1 ∷ x2 ∷ x3 ∷ x4 ∷ x5 ∷ x6 ∷ x7 ∷ x8 ∷ x9 ∷ x10 ∷ x11 ∷ a ∷ b ∷ c ∷ d ∷ []) =
    if same_bytes (x0 ∷ x1 ∷ x2 ∷ x3 ∷ x4 ∷ x5 ∷ x6 ∷ x7 ∷ x8 ∷ x9 ∷ x10 ∷ x11 ∷ []) v4_in_v6_prefix
    then some (a ∷ b ∷ c ∷ d ∷ [])
    else none
to4 _ = none

-- `net.IP.Equal`: an IPv4 address and its IPv6 form are equal.
unfoldable pub ip_equal : Ip → Ip → Bool
unfolding to4
ip_equal x y = same_bytes x y || elim (to4 x) [
  | none ↦ false
  | some a ↦ elim (to4 y) [ none ↦ false | some b ↦ same_bytes a b ]
]

-- `net.ParseCIDR` (the network; `none` is its error), `net.ParseIP` and the texts of `net`.
pub record Net : Type 0 where
  pub parse_cidr : String → Option IpNet
  pub parse_ip : String → Ip
  pub ip_string : Ip → String
  pub ip_net_string : IpNet → String

-- An error is a number of the kernel's, or any other, which a wrapped one is too.
pub data Error : Type 0 where
  enoent eexist esrch enetunreach chain_exists other_error : Error

-- The attributes of a link that the code reads.
pub record Link : Type 0 where
  pub name : String
  pub index : ℤ
  pub hardware_addr : String

pub record Veth : Type 0 where
  pub name : String
  pub mtu : ℕ
  pub peer_name : String

pub data Scope : Type 0 where
  scope_universe scope_link : Scope

pub record Route : Type 0 where
  pub link_index : ℤ
  pub scope : Scope
  pub dst : Option IpNet
  pub src : Option Ip
  pub gw : Option Ip
  pub table : ℤ

-- A permanent neighbour.
pub record Neigh : Type 0 where
  pub link_index : ℤ
  pub ip : Ip
  pub hardware_addr : String

pub record Rule : Type 0 where
  pub src : Option IpNet
  pub dst : Option IpNet
  pub table : ℤ
  pub priority : ℤ
  pub mark : ℤ
  pub mask : ℤ
  pub invert : Bool

-- An address of a link is its `IPNet`. Every call answers or is an error.
pub record NetLink (W : Type 0) : Type 0 where
  pub link_by_name : String → Action W Error Link
  pub link_list : Action W Error (List Link)
  pub link_add : Veth → Action W Error (Unit {0})
  pub link_del : Link → Action W Error (Unit {0})
  pub link_set_up : Link → Action W Error (Unit {0})
  pub link_set_mtu : Link → ℕ → Action W Error (Unit {0})
  pub link_set_ns_fd : Link → ℤ → Action W Error (Unit {0})
  pub addr_list : Link → Action W Error (List IpNet)
  pub addr_add : Link → IpNet → Action W Error (Unit {0})
  pub addr_del : Link → IpNet → Action W Error (Unit {0})
  pub route_add : Route → Action W Error (Unit {0})
  pub route_replace : Route → Action W Error (Unit {0})
  pub route_del : Route → Action W Error (Unit {0})
  pub neigh_add : Neigh → Action W Error (Unit {0})
  pub new_rule : Rule
  pub rule_add : Rule → Action W Error (Unit {0})
  pub rule_del : Rule → Action W Error (Unit {0})
  pub rule_list : Action W Error (List Rule)
  pub sleep : ℕ → W → W

abbrev pub main_routing_table : ℤ
main_routing_table = pos 254

abbrev pub ethernet_mtu : ℕ
ethernet_mtu = 9001

abbrev pub contains_no_such_rule : Error → Bool
contains_no_such_rule enoent = true
contains_no_such_rule _ = false

abbrev pub is_not_exists_error : Error → Bool
is_not_exists_error esrch = true
is_not_exists_error _ = false

-- The driver's `isRuleExistsError` too.
abbrev pub is_route_exists_error : Error → Bool
is_route_exists_error eexist = true
is_route_exists_error _ = false

abbrev pub is_network_unreachable_error : Error → Bool
is_network_unreachable_error enetunreach = true
is_network_unreachable_error _ = false

abbrev pub contain_chain_exist_err : Error → Bool
contain_chain_exist_err chain_exists = true
contain_chain_exist_err _ = false

-- `errors.Wrap`
unfoldable pub wrapped : {W A : Type 0} → Action W Error A → Action W Error A
wrapped m w =
    (elim (m w).0 [ ok a ↦ ok a | failed e ↦ failed other_error | crashed ↦ crashed ], (m w).1)

-- An error that passes the test is no error; another is wrapped.
unfoldable pub unless :
    {W : Type 0} → (Error → Bool) → Action W Error (Unit {0}) → Action W Error (Unit {0})
unless excused m w = (
  elim (m w).0 [
    | ok a ↦ ok tt
    | failed e ↦ if excused e then ok tt else failed other_error
    | crashed ↦ crashed
  ],
  (m w).1,
)
