-- ===== src/Netplan.antt =====
-- netplan/netplan.go: the struct Netplan, and what encoding/json makes of its parts. A map of checks
-- is the list of its entries in the order of the source, which is the order of the messages here.
pub mod Blank
pub mod Networks
pub mod Devices
pub mod Compile
pub mod New
pub mod Kinds
pub mod Params
pub mod Files
use netwrangler.Base.{String, Bool, Option, List}
use netwrangler.Text.Int.{ℤ}
use netwrangler.GoMap.{GoMap}
use netwrangler.Value.{Value}
use netwrangler.Validators.{Printer, Json, Decoded}
use netwrangler.Net.{Gnet}
use netwrangler.Layout.{Route, RoutePolicy, NsInfo, Network, Overrides, Interface}
use netwrangler.Phys.{Match}

-- The struct phy, and the struct li of vlan().
pub record PhyDef : Type 0 where
  pub intf : Interface
  pub match : Match
  pub wol : Bool
  pub optional : Bool

pub record LinkDef : Type 0 where
  pub link : String
  pub id : ℤ

-- What Remarshal decodes into each struct, into an Interface from what that held before, and the interface{} that holds a struct.
pub record Structs : Type 0 where
  pub as_ns : GoMap Value → Decoded NsInfo
  pub as_route : GoMap Value → Decoded Route
  pub as_policy : GoMap Value → Decoded RoutePolicy
  pub as_network : GoMap Value → Decoded Network
  pub as_overrides : GoMap Value → Decoded Overrides
  pub as_match : GoMap Value → Decoded Match
  pub as_phy : GoMap Value → Decoded PhyDef
  pub as_interface : Interface → GoMap Value → Decoded Interface
  pub as_link : GoMap Value → Decoded LinkDef
  pub as_params : GoMap Value → Decoded (GoMap Value)
  pub of_ns : NsInfo → Value
  pub of_routes : List Route → Value
  pub of_policies : List RoutePolicy → Value
  pub of_overrides : Overrides → Value
  pub of_match : Match → Value
  pub of_params : GoMap Value → Value

-- The packages that the reader goes through.
pub record Packages : Type 0 where
  pub printer : Printer
  pub json : Json
  pub gnet : Gnet
  pub structs : Structs

-- Netplan, without the nesting of its field Network. `wifis` is none for a nil map.
pub record Netplan : Type 0 where
  pub version : ℤ
  pub renderer : String
  pub ethernets : GoMap Value
  pub bridges : GoMap Value
  pub bonds : GoMap Value
  pub vlans : GoMap Value
  pub wifis : Option (GoMap Value)
  pub bind_mac : Bool
