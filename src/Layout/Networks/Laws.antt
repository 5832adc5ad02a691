-- ===== src/Layout/Networks/Laws.antt =====
-- Which networks the validation in util/layout.go accepts, and when a network is configured.
use netwrangler.Base.{
  ◌&&◌, ◌||◌, not, String, true, false, ◌≡◌, refl, ◌⊎◌, ◌↔◌, Option, none, some, List, [], ◌∷◌,
  Memᴰ-cons, All, arith,
}
use mathlib.Core.List.Memᴰ
use netwrangler.Net.{IpNet, Gnet, is_ip4}
use netwrangler.Err.{Err, new_err, empty, merge, or_nil}
use netwrangler.Err.Laws.{empty-merge, empty-new_err, empty-errorf, or_nil-eq-none_iff}
use netwrangler.Checks.{validate_str_in, validate_ip_list}
use netwrangler.Checks.Laws.{validate_str_in_iff, validate_ip_list_iff}
use netwrangler.Layout.{Route, RoutePolicy, NsInfo, Network}
use netwrangler.Layout.Routes.{is_set, route_validate, policy_validate}
use netwrangler.Layout.Routes.Laws.{
  IfSet, IsValidRoute, route_validate_iff, route_validate-or_nil, policy_validate_iff,
  policy_validate-or_nil,
}
use netwrangler.Layout.Networks.{
  setup_static_only, configure_network, setup_dhcp_only, ns_validate, gateway4_check,
  gateway6_check, nameservers_check, routes_check, policies_check, network_validate,
}

-- Exactly one of the two ends is set.
abbrev pub IsValidPolicy : RoutePolicy → Type 0
IsValidPolicy r =
    (is_set r.from ≡ true) × (is_set r.to ≡ false) ⊎ (is_set r.from ≡ false) × (is_set r.to ≡ true)

module _ (g : Gnet) where
  abbrev pub IsValidNs : Option NsInfo → Type 0
  IsValidNs none = Unit
  IsValidNs (some ns) = All (λ addr. g.is_cidr addr ≡ false) ns.addresses

  pub record IsValidNetwork (n : Network) : Type 0 where
    pub identifier : (n.dhcp_identifier ≡ "mac") ⊎ (n.dhcp_identifier ≡ "")
    pub cidr : All (λ addr. g.is_cidr addr ≡ true) n.addresses
    pub gateway4 : IfSet (λ gw. is_ip4 gw.ip ≡ true) n.gateway4
    pub gateway6 : IfSet (λ gw. is_ip4 gw.ip ≡ false) n.gateway6
    pub nameservers : IsValidNs n.nameservers
    pub routes : All (IsValidRoute g) n.routes
    pub policies : All IsValidPolicy n.routing_policy

  gateway4_check_iff :
      (e : Err) (gw : Option IpNet)
      → (empty (gateway4_check g e gw) ≡ true)
        ↔ ((empty e ≡ true) × IfSet (λ gw. is_ip4 gw.ip ≡ true) gw)
  unfolding gateway4_check
  gateway4_check_iff e none = ground arith
  gateway4_check_iff e (some gw) =
      ground
        (arith, empty-errorf e ("Gateway4 " ∷ g.net_string gw ∷ " is not an IPv4 address" ∷ []))

  gateway6_check_iff :
      (e : Err) (gw : Option IpNet)
      → (empty (gateway6_check g e gw) ≡ true)
        ↔ ((empty e ≡ true) × IfSet (λ gw. is_ip4 gw.ip ≡ false) gw)
  unfolding gateway6_check
  gateway6_check_iff e none = ground arith
  gateway6_check_iff e (some gw) =
      ground
        (arith, empty-errorf e ("Gateway6 " ∷ g.net_string gw ∷ " is not an IPv6 address" ∷ []))

  nameservers_check_iff :
      (e : Err) (ns : Option NsInfo)
      → (empty (nameservers_check g e ns) ≡ true) ↔ ((empty e ≡ true) × IsValidNs ns)
  unfolding nameservers_check ns_validate
  nameservers_check_iff e none = ground arith
  nameservers_check_iff e (some ns) =
      let inner : Err =
        (validate_ip_list g (new_err "nameservers") "addresses" ns.addresses false).0 in
      ground (
        arith,
        empty-merge e (or_nil inner) inner refl,
        or_nil-eq-none_iff inner,
        validate_ip_list_iff g (new_err "nameservers") "addresses" ns.addresses false,
        empty-new_err "nameservers",
      )

  routes_check_iff :
      (e : Err) (rs : List Route)
      → (empty (routes_check g e rs) ≡ true) ↔ ((empty e ≡ true) × All (IsValidRoute g) rs)
  unfolding routes_check
  routes_check_iff e [] = ground arith
  routes_check_iff e (r ∷ rs) =
      let (o, returned) = route_validate-or_nil g r in
      ground (
        arith,
        routes_check_iff (merge e (route_validate g r)) rs,
        empty-merge e (route_validate g r) o returned,
        route_validate_iff g r,
      )

  policies_check_iff :
      (e : Err) (rs : List RoutePolicy)
      → (empty (policies_check g e rs) ≡ true) ↔ ((empty e ≡ true) × All IsValidPolicy rs)
  unfolding policies_check
  policies_check_iff e [] = ground arith
  policies_check_iff e (r ∷ rs) =
      let (o, returned) = policy_validate-or_nil r in
      ground (
        arith,
        policies_check_iff (merge e (policy_validate r)) rs,
        empty-merge e (policy_validate r) o returned,
        policy_validate_iff r,
      )

  -- Network.validate accepts a network exactly if its identifier is mac or absent, its
  -- addresses are all ranges, its gateways are of their families, its name servers single
  -- addresses, and its routes and policies valid.
  pub network_validate_iff : (n : Network) → (network_validate g n ≡ none) ↔ IsValidNetwork n
  unfolding network_validate
  network_validate_iff n =
      let ids : List String = "mac" ∷ "" ∷ [] in
      let e1 : Err =
        (validate_str_in (new_err "network") "dhcp-identifier" n.dhcp_identifier ids).0 in
      let e2 : Err = (validate_ip_list g e1 "addresses" n.addresses true).0 in
      let e3 : Err = gateway4_check g e2 n.gateway4 in
      let e4 : Err = gateway6_check g e3 n.gateway6 in
      let e5 : Err = nameservers_check g e4 n.nameservers in
      let e6 : Err = routes_check g e5 n.routes in
      ground (
        arith,
        empty-new_err "network",
        validate_str_in_iff (new_err "network") "dhcp-identifier" n.dhcp_identifier ids,
        Memᴰ-cons n.dhcp_identifier "mac" ("" ∷ []),
        Memᴰ-cons n.dhcp_identifier "" [],
        Memᴰ.not-nil {a = n.dhcp_identifier},
        validate_ip_list_iff g e1 "addresses" n.addresses true,
        gateway4_check_iff e2 n.gateway4,
        gateway6_check_iff e3 n.gateway6,
        nameservers_check_iff e4 n.nameservers,
        routes_check_iff e5 n.routes,
        policies_check_iff e6 n.routing_policy,
        or_nil-eq-none_iff (policies_check g e6 n.routing_policy),
      )

-- No network is set up both statically only and by DHCP only, and one that is set up in either
-- way is to be configured.
pub setup_exclusive :
    (n : Option Network)
    → ((setup_static_only n && setup_dhcp_only n) ≡ false)
      × (((setup_static_only n || setup_dhcp_only n) && not (configure_network n)) ≡ false)
unfolding setup_static_only setup_dhcp_only configure_network
setup_exclusive none = ground arith
setup_exclusive (some n) = ground arith

pub network_validate-or_nil :
    (g : Gnet) (n : Network) → (o : Err) × (network_validate g n ≡ or_nil o)
unfolding network_validate
network_validate-or_nil g n = (_, refl)
