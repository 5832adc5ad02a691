-- ===== src/Rhel/Networks.antt =====
-- rhel/rhel.go: the part of writeOut that is about the network of an interface.
use netwrangler.Base.{
  ℕ, suc, String, Bool, true, false, not, ◌||◌, Option, none, some, List, [], ◌∷◌, ◌++◌, map,
  is_empty, if◌then◌else◌,
}
use netwrangler.Text.{concat, join, digits}
use netwrangler.Text.Int.{pos}
use netwrangler.Net.{IpNet, Gnet, is_ip4, to4, ip_string, Ip}
use netwrangler.Layout.{Interface, Network, NsInfo, Route, RoutePolicy}
use netwrangler.Layout.Routes.{if_set, words_if, route_ip_string, policy_ip_string}
use netwrangler.Rhel.{write_key, print_line}

-- The addresses of one family, in their order: v4addrs and v6addrs.
unfoldable pub of_family : Bool → List IpNet → List IpNet
of_family ip4 [] = []
of_family ip4 (a ∷ as') =
    let rest = of_family ip4 as' in
    if is_ip4 a.ip then (if ip4 then a ∷ rest else rest) else (if ip4 then rest else a ∷ rest)

-- `ip.To4().String()`
abbrev pub ip4_text : Ip → String
ip4_text ip = elim (to4 ip) [ none ↦ ip_string [] | some ip4 ↦ ip_string ip4 ]

abbrev pub numbered : String → ℕ → String
numbered key n = concat (key ∷ digits 10 n ∷ [])

unfoldable pub ip4_lines : ℕ → List IpNet → List String
ip4_lines n [] = []
ip4_lines n (a ∷ as') =
    write_key (numbered "IPADDR" n) (ip4_text a.ip)
    ++ (write_key (numbered "NETMASK" n) (ip4_text a.mask) ++ ip4_lines (suc n) as')

module _ (g : Gnet) where
  -- The first two name servers.
  unfoldable pub dns_lines : Option NsInfo → List String
  dns_lines none = []
  dns_lines (some ns) = elim ns.addresses [
    | [] ↦ []
    | a ∷ rest ↦
        write_key "DNS1" (g.net_string a)
        ++ (elim rest [ [] ↦ [] | b ∷ _ ↦ write_key "DNS2" (g.net_string b) ])
  ]

  unfoldable pub ip6_lines : List IpNet → List String
  ip6_lines [] = []
  ip6_lines (a ∷ rest) =
      write_key "IPV6ADDR" (g.net_string a)
      ++ words_if (not (is_empty rest))
          (write_key "IPV6ADDR_SECONDARIES" (join "," (map g.net_string rest)))

  -- What is printed of a network that is to be configured.
  unfoldable pub network_lines : Network → List String
  network_lines n =
      let v6addrs = of_family false n.addresses in
      write_key "BOOTPROTO" (if n.dhcp4 then "dhcp" else "none")
      ++ (dns_lines n.nameservers
          ++ (ip4_lines 0 (of_family true n.addresses)
              ++ (if_set n.gateway4 (λ gw. write_key "GATEWAY0" (ip_string gw.ip))
                  ++ (words_if (not (is_empty v6addrs) || (n.dhcp6 || n.accept_ra))
                        (write_key "IPV6INIT" "yes")
                      ++ (words_if n.accept_ra (write_key "IPV6_AUTOCONF" "yes")
                          ++ (words_if n.dhcp6 (write_key "DHCPV6C" "yes")
                              ++ ip6_lines v6addrs))))))

  unfoldable pub route_lines : Interface → List Route → List String
  route_lines i [] = []
  route_lines i (r ∷ rs) = print_line (route_ip_string g r i) ++ route_lines i rs

  unfoldable pub rule_lines : List RoutePolicy → List String
  rule_lines [] = []
  rule_lines (r ∷ rs) = print_line (policy_ip_string g r) ++ rule_lines rs

abbrev pub ip6_zero : List ℕ
ip6_zero = 0 ∷ 0 ∷ 0 ∷ 0 ∷ 0 ∷ 0 ∷ 0 ∷ 0 ∷ 0 ∷ 0 ∷ 0 ∷ 0 ∷ 0 ∷ 0 ∷ 0 ∷ 0 ∷ []

-- The route over an IPv6 gateway.
abbrev pub gateway6_route : IpNet → Route
gateway6_route gw = record {
  from = none;
  to = some (record { ip = ip6_zero; mask = ip6_zero });
  via = some gw;
  on_link = false;
  metric = pos 0;
  type = "";
  scope = "";
  table = pos 0;
}

-- The network with that route appended to its routes.
unfoldable pub with_gateway6 : Network → Network
with_gateway6 n = elim n.gateway6 [
  | none ↦ n
  | some gw ↦ record n { routes = n.routes ++ gateway6_route gw ∷ [] }
]

-- Whether the end that a policy has is an IPv4 address: from, or else to.
unfoldable pub rule_family : RoutePolicy → Option Bool
rule_family r = elim r.from [
  | some from ↦ some (is_ip4 from.ip)
  | none ↦ elim r.to [ some to ↦ some (is_ip4 to.ip) | none ↦ none ]
]

abbrev pub take_if : Option Bool → Bool → RoutePolicy → List RoutePolicy → List RoutePolicy
take_if none ip4 r rest = rest
take_if (some true) ip4 r rest = if ip4 then r ∷ rest else rest
take_if (some false) ip4 r rest = if ip4 then rest else r ∷ rest

-- rules4 and rules6
unfoldable pub rules_of : Bool → List RoutePolicy → List RoutePolicy
rules_of ip4 [] = []
rules_of ip4 (r ∷ rs) = let rest = rules_of ip4 rs in take_if (rule_family r) ip4 r rest
