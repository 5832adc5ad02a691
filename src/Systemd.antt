-- ===== src/Systemd.antt =====
-- systemd/networkd.go: the [Network] part of a .network file. What is printed to an io.Writer is the
-- list of the texts printed. The parameter `e` of functions that never use it is left out.
pub mod Laws
pub mod Devices
pub mod Writer
pub mod Write
pub mod Tests
use netwrangler.Base.{
  String, Bool, true, false, not, ◌&&◌, ◌||◌, ◌==◌, Option, none, some, List, [], ◌∷◌, ◌++◌, map,
  is_empty, if◌then◌else◌,
}
use netwrangler.Text.{concat, join, decimal, bool_text}
use netwrangler.Text.Int.{ℤ}
use netwrangler.GoMap.{GoMap, get, get_or}
use netwrangler.Value.{Value, str}
use netwrangler.Net.{IpNet, Gnet}
use netwrangler.Outcome.{Outcome, ok, panic, ◌>>=◌, each}
use netwrangler.Err.{Err, errorf}
use netwrangler.Layout.{
  Route, RoutePolicy, Overrides, NsInfo, Network, NetworkRef, Interface, new_interface, Layout,
}
use netwrangler.Layout.Members.{Parents}
use netwrangler.Layout.Routes.{words_if, if_set, is_zero}

-- `fmt.Fprintf(w, "key=%s\\n", value)`
abbrev pub setting : String → String → List String
setting key value = concat (key ∷ "=" ∷ value ∷ "\n" ∷ []) ∷ []

abbrev pub header : String → List String
header section = concat ("\n[" ∷ section ∷ "]\n" ∷ []) ∷ []

abbrev pub number_if : String → ℤ → List String
number_if key n = words_if (not (is_zero n)) (setting key (decimal n))

abbrev pub text_if : String → String → List String
text_if key s = words_if (not (s == "")) (setting key s)

-- What has been printed, and the collected errors.
pub record Output : Type 0 where
  pub err : Err
  pub printed : List String

abbrev pub print : Output → List String → Output
print o texts = record o { printed = o.printed ++ texts }

-- `pv, pok := parent.Parameters["primary"]; pok && pv.(string) == i.Name`
unfoldable pub is_primary : Interface → Interface → Outcome Bool
is_primary i parent = elim (get "primary" parent.parameters) [
  | none ↦ ok false
  | some v ↦ elim v [ str s ↦ ok (s == i.name) | _ ↦ panic "interface conversion" ]
]

module _ (interfaces : GoMap Interface) (i : Interface) where
  -- The body of the loop of writeParents.
  unfoldable pub write_parent : String → Output → Outcome Output
  write_parent name o =
      let parent = get_or interfaces name new_interface in
      if parent.type == "bridge"
      then ok (print o (setting "Bridge" parent.name))
      else if parent.type == "bond"
      then (is_primary i parent >>= λ primary. ok (
          print o (setting "Bond" parent.name ++ words_if primary (setting "PrimarySlave" i.name))))
      else if parent.type == "vlan"
      then ok (print o (setting "VLAN" parent.name))
      else ok (record o {
        err = errorf o.err (
            i.type ∷ ":" ∷ i.name ∷ ": No idea how to handle parent reference for " ∷ parent.type
            ∷ ":" ∷ parent.name ∷ []);
      })

  -- writeParents
  unfoldable pub write_parents : Parents → Output → Outcome Output
  write_parents parents o = elim (get i.name parents) [
    | none ↦ ok o
    | some names ↦ each write_parent names o
  ]

module _ (g : Gnet) where
  abbrev pub address_if : String → Option IpNet → List String
  address_if key a = if_set a (λ a. setting key (g.net_string a))

  -- writeRoute
  unfoldable pub write_route : Route → List String
  write_route r =
      header "Route"
      ++ (address_if "Source" r.from
          ++ (address_if "Destination" r.to
              ++ (address_if "Gateway" r.via
                  ++ (words_if r.on_link (setting "GatewayOnLink" (bool_text r.on_link))
                      ++ (number_if "Metric" r.metric
                          ++ (text_if "Type" r.type
                              ++ (text_if "Scope" r.scope ++ number_if "Table" r.table)))))))

  -- writeRoutePolicy
  unfoldable pub write_route_policy : RoutePolicy → List String
  write_route_policy r =
      header "RoutingPolicyRule"
      ++ (address_if "From" r.from
          ++ (address_if "To" r.to
              ++ (number_if "Table" r.table
                  ++ (number_if "Priority" r.priority
                      ++ (number_if "FirewallMark" r.fw_mark ++ number_if "TypeOfService" r.tos)))))

  unfoldable pub write_routes : List Route → List String
  write_routes [] = []
  write_routes (r ∷ rs) = write_route r ++ write_routes rs

  unfoldable pub write_policies : List RoutePolicy → List String
  write_policies [] = []
  write_policies (r ∷ rs) = write_route_policy r ++ write_policies rs

  -- The keys that wr() gathers for the section Network, in order.
  unfoldable pub dhcp_lines : Network → List String
  dhcp_lines n =
      if n.dhcp4 && n.dhcp6
      then setting "DHCP" "yes"
      else if n.dhcp6
      then setting "DHCP" "ipv6"
      else if n.dhcp4
      then setting "DHCP" "ipv4"
      else []

  unfoldable pub address_lines : String → List IpNet → List String
  address_lines key [] = []
  address_lines key (a ∷ as') = setting key (g.net_string a) ++ address_lines key as'

  unfoldable pub nameserver_lines : Option NsInfo → List String
  nameserver_lines none = []
  nameserver_lines (some ns) =
      address_lines "DNS" ns.addresses
      ++ words_if (not (is_empty ns.search)) (setting "Domains" (join "," ns.search))

  -- The sections for the overrides of DHCPv4 and of DHCPv6, which have the same name.
  unfoldable pub override4_lines : Option Overrides → List String
  override4_lines none = []
  override4_lines (some o) =
      header "DHCPv4"
      ++ (setting "SendHostname" (bool_text o.send_hostname)
          ++ (setting "Hostname" o.hostname
              ++ (setting "UseDNS" (bool_text o.use_dns)
                  ++ (setting "UseNTP" (bool_text o.use_ntp)
                      ++ (setting "UseMTU" (bool_text o.use_mtu)
                          ++ setting "UseRoutes" (bool_text o.use_routes))))))

  unfoldable pub override6_lines : Option Overrides → List String
  override6_lines none = []
  override6_lines (some o) =
      header "DHCPv4"
      ++ (setting "SendHostname" (bool_text o.send_hostname)
          ++ (setting "Hostname" o.hostname
              ++ (setting "UseDNS" (bool_text o.use_dns)
                  ++ (setting "UseNTP" (bool_text o.use_ntp)
                      ++ (setting "UseMTU" (bool_text o.use_mtu)
                          ++ setting "UseRoutes" (bool_text o.use_routes))))))

  -- writeNetwork
  unfoldable pub write_network : Option Network → List String
  write_network none = []
  write_network (some n) =
      dhcp_lines n
      ++ (setting "IPv6AcceptRA" (bool_text n.accept_ra)
          ++ (address_lines "Address" n.addresses
              ++ (address_if "Gateway4" n.gateway4
                  ++ (address_if "Gateway6" n.gateway6
                      ++ (nameserver_lines n.nameservers
                          ++ (words_if (not (n.dhcp_identifier == ""))
                                (header "DHCP" ++ setting "ClientIdentifier" n.dhcp_identifier)
                              ++ (write_routes n.routes
                                  ++ (write_policies n.routing_policy
                                      ++ (override4_lines n.dhcp4_overrides
                                          ++ override6_lines n.dhcp6_overrides)))))))))
