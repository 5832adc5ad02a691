-- ===== src/Layout.antt =====
-- util/layout.go: the data of the intermediate format. `Gnet`'s methods are not needed here.
--
-- A *gnet.IPNet is an `Option IpNet`, but in the lists of addresses, which hold no nil here, an `IpNet`:
-- the program panics at a nil there. A *Network keeps its address beside its value, since several
-- interfaces may share one. A nil slice and an empty one differ nowhere in what is modelled.
pub mod Files
pub mod Routes
pub mod Networks
pub mod Members
pub mod Cycles
pub mod Validation
pub mod Tests
use netwrangler.Base.{ℕ, String, Bool, false, Option, none, List, []}
use netwrangler.GoMap.{GoMap}
use netwrangler.Text.Int.{ℤ}
use netwrangler.Value.{Value}
use netwrangler.Net.{IpNet, HardwareAddr}

pub record Route : Type 0 where
  pub from : Option IpNet
  pub to : Option IpNet
  pub via : Option IpNet
  pub on_link : Bool
  pub metric : ℤ
  pub type : String
  pub scope : String
  pub table : ℤ

pub record RoutePolicy : Type 0 where
  pub from : Option IpNet
  pub to : Option IpNet
  pub table : ℤ
  pub priority : ℤ
  pub fw_mark : ℤ
  pub tos : ℤ

pub record Overrides : Type 0 where
  pub use_dns : Bool
  pub use_ntp : Bool
  pub send_hostname : Bool
  pub use_mtu : Bool
  pub hostname : String
  pub use_routes : Bool
  pub route_metric : ℤ
  pub use_domains : String

pub record NsInfo : Type 0 where
  pub search : List String
  pub addresses : List IpNet

pub record Network : Type 0 where
  pub accept_ra : Bool
  pub dhcp4 : Bool
  pub dhcp4_overrides : Option Overrides
  pub dhcp6 : Bool
  pub dhcp6_overrides : Option Overrides
  pub dhcp_identifier : String
  pub addresses : List IpNet
  pub gateway4 : Option IpNet
  pub gateway6 : Option IpNet
  pub nameservers : Option NsInfo
  pub routes : List Route
  pub routing_policy : List RoutePolicy

-- A non-nil *Network.
pub record NetworkRef : Type 0 where
  pub address : ℕ
  pub value : Network

pub record Interface : Type 0 where
  pub type : String
  pub match_id : String
  pub name : String
  pub current_hw_addr : HardwareAddr
  pub mac_address : HardwareAddr
  pub optional : Bool
  pub interfaces : List String
  pub parameters : GoMap Value
  pub network : Option NetworkRef
  pub bind_mac : Bool

-- `NewInterface()`, and the zero value of the struct.
abbrev pub new_interface : Interface
new_interface = record {
  type = "";
  match_id = "";
  name = "";
  current_hw_addr = [];
  mac_address = [];
  optional = false;
  interfaces = [];
  parameters = [];
  network = none;
  bind_mac = false;
}

pub record Layout : Type 0 where
  pub interfaces : GoMap Interface
  pub child2parent : GoMap (List String)
  pub roots : List String
