-- ===== src/Layout/Networks.antt =====
-- util/layout.go: the methods of NSInfo and Network.
pub mod Laws
use netwrangler.Base.{
  Bool, true, false, not, ◌&&◌, ◌||◌, Option, none, some, List, [], ◌∷◌, is_empty, if◌then◌else◌,
}
use netwrangler.Net.{IpNet, Gnet, is_ip4}
use netwrangler.Err.{Err, GoError, new_err, errorf, merge, or_nil}
use netwrangler.Checks.{validate_str_in, validate_ip_list}
use netwrangler.Layout.{Route, RoutePolicy, NsInfo, Network}
use netwrangler.Layout.Routes.{route_validate, policy_validate}

-- `n.configure()`: the pointer is not nil
configure : Option Network → Bool
configure none = false
configure (some n) = true

abbrev pub has_addresses : Network → Bool
has_addresses n = not (is_empty n.addresses)

-- Network.SetupStaticOnly
unfoldable pub setup_static_only : Option Network → Bool
unfolding configure
setup_static_only none = configure none
setup_static_only (some n) = configure (some n) && (not (n.dhcp4 || n.dhcp6) && has_addresses n)

-- Network.Configure
unfoldable pub configure_network : Option Network → Bool
unfolding configure
configure_network none = false
configure_network (some n) =
    configure (some n) && (n.accept_ra || (n.dhcp4 || (n.dhcp6 || has_addresses n)))

-- Network.SetupDHCPOnly
unfoldable pub setup_dhcp_only : Option Network → Bool
unfolding configure
setup_dhcp_only none = configure none
setup_dhcp_only (some n) = configure (some n) && ((n.dhcp4 || n.dhcp6) && is_empty n.addresses)

module _ (g : Gnet) where
  -- NSInfo.validate
  unfoldable pub ns_validate : NsInfo → Option GoError
  ns_validate n =
      or_nil (validate_ip_list g (new_err "nameservers") "addresses" n.addresses false).0

  unfoldable pub gateway4_check : Err → Option IpNet → Err
  gateway4_check e none = e
  gateway4_check e (some gw) =
      if is_ip4 gw.ip
      then e
      else errorf e ("Gateway4 " ∷ g.net_string gw ∷ " is not an IPv4 address" ∷ [])

  unfoldable pub gateway6_check : Err → Option IpNet → Err
  gateway6_check e none = e
  gateway6_check e (some gw) =
      if is_ip4 gw.ip
      then errorf e ("Gateway6 " ∷ g.net_string gw ∷ " is not an IPv6 address" ∷ [])
      else e

  unfoldable pub nameservers_check : Err → Option NsInfo → Err
  nameservers_check e none = e
  nameservers_check e (some ns) = merge e (ns_validate ns)

  unfoldable pub routes_check : Err → List Route → Err
  routes_check e [] = e
  routes_check e (r ∷ rs) = routes_check (merge e (route_validate g r)) rs

  unfoldable pub policies_check : Err → List RoutePolicy → Err
  policies_check e [] = e
  policies_check e (r ∷ rs) = policies_check (merge e (policy_validate r)) rs

  -- Network.validate
  unfoldable pub network_validate : Network → Option GoError
  network_validate n =
      let e =
        (validate_str_in (new_err "network") "dhcp-identifier" n.dhcp_identifier
          ("mac" ∷ "" ∷ [])).0 in
      let e = (validate_ip_list g e "addresses" n.addresses true).0 in
      let e = gateway4_check e n.gateway4 in
      let e = gateway6_check e n.gateway6 in
      let e = nameservers_check e n.nameservers in
      let e = routes_check e n.routes in or_nil (policies_check e n.routing_policy)
