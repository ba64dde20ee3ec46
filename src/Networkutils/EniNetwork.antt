-- ===== src/Networkutils/EniNetwork.antt =====
-- pkg/networkutils/network.go: the network of one ENI.
use amazon_vpc_cni_k8s.Prelude.{
  ℕ, zero, suc, ◌+◌, ◌*◌, ◌/◌, ◌%◌, ◌^◌, ltb, ◌==◌, if◌then◌else◌, ℤ, pos, String, same, Option,
  none, some, List, [], ◌∷◌,
}
use amazon_vpc_cni_k8s.Prelude.Actions.{◌>>=◌, ◌>>◌, pure, fail, attempt, error_of, rest, for_each}
use amazon_vpc_cni_k8s.Netlink.{
  Action, Error, other_error, Net, Ip, IpNet, to4, Link, Route, scope_universe, scope_link, NetLink,
  main_routing_table, ethernet_mtu, is_not_exists_error, is_route_exists_error,
  is_network_unreachable_error, wrapped, unless,
}

abbrev pub max_retry_route_add : ℕ
max_retry_route_add = 5

abbrev pub max_attempts_link_by_mac : ℕ
max_attempts_link_by_mac = 5

-- `binary.BigEndian.Uint32` and `PutUint32`
abbrev pub uint32 : ℕ → ℕ → ℕ → ℕ → ℕ
uint32 a b c d = ((a * 256 + b) * 256 + c) * 256 + d

abbrev pub put_uint32 : ℕ → Ip
put_uint32 n = n / 16777216 % 256 ∷ n / 65536 % 256 ∷ n / 256 % 256 ∷ n % 256 ∷ []

unfoldable pub increment_uint32 : Ip → Option Ip
increment_uint32 (a ∷ b ∷ c ∷ d ∷ []) =
    if uint32 a b c d == 4294967295 then none else some (put_uint32 ((uint32 a b c d + 1) % 2 ^ 32))
increment_uint32 _ = none

-- `none` is an error.
unfoldable pub increment_ipv4_addr : Ip → Option Ip
unfolding increment_uint32 to4
increment_ipv4_addr ip = elim (to4 ip) [ none ↦ none | some ip4 ↦ increment_uint32 ip4 ]

unfoldable pub find_mac : String → List Link → Option Link
find_mac mac [] = none
find_mac mac (l ∷ ls) =
    let later = find_mac mac ls in if same mac l.hardware_addr then some l else later

module _ {W : Type 0} (nl : NetLink W) where
  -- The attempts that are left; there is a pause before each but the first.
  unfoldable pub link_rounds : ℕ → ℕ → String → Action W Error Link
  unfolding find_mac
  link_rounds interval zero mac = fail other_error
  link_rounds interval (suc left) mac =
      let later = link_rounds interval left mac in
      (if ltb (suc left) max_attempts_link_by_mac then rest (nl.sleep interval) else pure tt) >> do
        links ← attempt nl.link_list
        elim links [
          | none ↦ later
          | some ls ↦ elim (find_mac mac ls) [ none ↦ later | some l ↦ pure l ]
        ]

  unfoldable pub link_by_mac : ℕ → String → Action W Error Link
  unfolding link_rounds
  link_by_mac interval mac = link_rounds interval max_attempts_link_by_mac mac

  -- One attempt; what comes after it when the network is unreachable.
  unfoldable pub add_route : Route → Action W Error (Unit {0}) → Action W Error (Unit {0})
  add_route r again = error_of (nl.route_add r) >>= elim [
    | none ↦ pure tt
    | some e ↦
        if is_network_unreachable_error e
        then again
        else if is_route_exists_error e
        then wrapped (nl.route_replace r)
        else fail other_error
  ]

  -- The retries that are left.
  unfoldable pub route_rounds : ℕ → ℕ → Route → Action W Error (Unit {0})
  unfolding add_route
  route_rounds interval zero r = add_route r (fail other_error)
  route_rounds interval (suc left) r =
      add_route r (rest (nl.sleep interval) >> route_rounds interval left r)

  unfoldable pub set_route : ℕ → Route → Action W Error (Unit {0})
  unfolding route_rounds
  set_route interval r =
      unless is_not_exists_error (nl.route_del r) >> route_rounds interval max_retry_route_add r

  -- The gateway itself, and all else through it.
  unfoldable pub eni_routes : ℤ → Ip → ℤ → List Route
  eni_routes device_number gw eni_table =
      record {
        link_index = device_number;
        scope = scope_link;
        dst = some (record { ip = gw; mask = 255 ∷ 255 ∷ 255 ∷ 255 ∷ [] });
        src = none;
        gw = none;
        table = eni_table;
      }
      ∷ record {
        link_index = device_number;
        scope = scope_universe;
        dst = some (record { ip = 0 ∷ 0 ∷ 0 ∷ 0 ∷ []; mask = 0 ∷ 0 ∷ 0 ∷ 0 ∷ [] });
        src = none;
        gw = some gw;
        table = eni_table;
      }
      ∷ []

  -- An error where there is nothing.
  abbrev pub required : {A : Type 0} → Option A → Action W Error A
  required none = fail other_error
  required (some a) = pure a

  unfoldable pub set_address : Link → IpNet → Action W Error (Unit {0})
  set_address link addr = do
    addrs ← wrapped (nl.addr_list link)
    removed ← for_each (λ a. wrapped (nl.addr_del link a)) addrs
    wrapped (nl.addr_add link addr)

  unfoldable pub setup_eni_network :
      Net → ℕ → ℕ → String → String → ℤ → String → Action W Error (Unit {0})
  unfolding link_by_mac set_route eni_routes set_address increment_ipv4_addr
  setup_eni_network net link_interval route_interval eni_ip eni_mac (pos zero) eni_subnet_cidr =
      pure tt
  setup_eni_network net link_interval route_interval eni_ip eni_mac eni_table eni_subnet_cidr = do
    link ← wrapped (link_by_mac link_interval eni_mac)
    mtu ← wrapped (nl.link_set_mtu link ethernet_mtu)
    up ← wrapped (nl.link_set_up link)
    ip_net ← required (net.parse_cidr eni_subnet_cidr)
    gw ← required (increment_ipv4_addr ip_net.ip)
    addressed ← set_address link (record { ip = net.parse_ip eni_ip; mask = ip_net.mask })
    routed ← for_each (set_route route_interval) (eni_routes link.index gw eni_table)
    cidr ← required (net.parse_cidr eni_subnet_cidr)
    unless is_not_exists_error (
        nl.route_del (record {
          link_index = pos 0;
          scope = scope_link;
          dst = some cidr;
          src = some (net.parse_ip eni_ip);
          gw = none;
          table = main_routing_table;
        }))
