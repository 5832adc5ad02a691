-- ===== src/Netplan/Blank.antt =====
-- The zero values of the structs that netplan/netplan.go decodes into.
use netwrangler.Base.{false, none, []}
use netwrangler.Text.Int.{pos}
use netwrangler.Layout.{Route, RoutePolicy, NsInfo, Network, Overrides}
use netwrangler.Phys.{Match}

abbrev pub blank_route : Route
blank_route = record {
  from = none;
  to = none;
  via = none;
  on_link = false;
  metric = pos 0;
  type = "";
  scope = "";
  table = pos 0;
}

abbrev pub blank_policy : RoutePolicy
blank_policy = record {
  from = none;
  to = none;
  table = pos 0;
  priority = pos 0;
  fw_mark = pos 0;
  tos = pos 0;
}

abbrev pub blank_ns : NsInfo
blank_ns = record { search = []; addresses = [] }

abbrev pub blank_network : Network
blank_network = record {
  accept_ra = false;
  dhcp4 = false;
  dhcp4_overrides = none;
  dhcp6 = false;
  dhcp6_overrides = none;
  dhcp_identifier = "";
  addresses = [];
  gateway4 = none;
  gateway6 = none;
  nameservers = none;
  routes = [];
  routing_policy = [];
}

abbrev pub blank_overrides : Overrides
blank_overrides = record {
  use_dns = false;
  use_ntp = false;
  send_hostname = false;
  use_mtu = false;
  hostname = "";
  use_routes = false;
  route_metric = pos 0;
  use_domains = "";
}

abbrev pub blank_match : Match
blank_match = record { name = ""; mac_address = []; driver = "" }
