-- ===== src/Netplan/New.antt =====
-- netplan/netplan.go: New, which makes a netplan of a layout. The structs that the maps of a netplan
-- then hold are data here.
pub mod Laws
mod Tests
use netwrangler.Base.{String, Bool, false, Option, none, some, List, [], ◌∷◌, ◌==◌, if◌then◌else◌}
use netwrangler.Text.{concat}
use netwrangler.Text.Int.{ℤ}
use netwrangler.GoMap.{GoMap, get, put}
use netwrangler.Value.{Value, bool, int}
use netwrangler.Outcome.{Outcome, ok, panic, ◌>>=◌, each}
use netwrangler.Net.{Gnet, HardwareAddr}
use netwrangler.Layout.{NetworkRef, Interface, Layout}

pub record Common : Type 0 where
  pub network : Option NetworkRef
  pub mac_address : HardwareAddr
  pub renderer : String
  pub optional : Bool

pub record Ether : Type 0 where
  pub common : Common
  pub match : GoMap String
  pub wake_on_lan : Bool

-- The structs Bond and Bridge, whose fields are the same.
pub record Stacked : Type 0 where
  pub common : Common
  pub interfaces : List String
  pub parameters : GoMap Value

pub record Vlan : Type 0 where
  pub common : Common
  pub id : ℤ
  pub link : String

-- The netplan that New makes, without the version and the renderer, which are constants.
pub record Written : Type 0 where
  pub ethernets : GoMap Ether
  pub bonds : GoMap Stacked
  pub bridges : GoMap Stacked
  pub vlans : GoMap Vlan

abbrev pub as_common : Interface → Common
as_common i = record {
  network = i.network;
  mac_address = i.mac_address;
  renderer = "";
  optional = i.optional;
}

-- `v, ok := i.Parameters["wakeonlan"]; ok && v.(bool)`
unfoldable pub wakes : GoMap Value → Outcome Bool
wakes parameters = elim (get "wakeonlan" parameters) [
  | none ↦ ok false
  | some v ↦ elim v [ bool b ↦ ok b | _ ↦ panic "interface conversion" ]
]

unfoldable pub as_ether : Gnet → Interface → Outcome Ether
as_ether g i = wakes i.parameters >>= λ wake. ok (record {
  common = record (as_common i) { mac_address = [] };
  match = ("macaddress", g.hw_string i.current_hw_addr) ∷ [];
  wake_on_lan = wake;
})

-- asBond and asBridge
abbrev pub as_stacked : Interface → Stacked
as_stacked i = record { common = as_common i; interfaces = i.interfaces; parameters = i.parameters }

-- `i.Parameters["id"].(int)`
unfoldable pub vlan_id : GoMap Value → Outcome ℤ
vlan_id parameters = elim (get "id" parameters) [
  | none ↦ panic "interface conversion"
  | some v ↦ elim v [ int n ↦ ok n | _ ↦ panic "interface conversion" ]
]

-- `i.Interfaces[0]`
unfoldable pub vlan_link : List String → Outcome String
vlan_link [] = panic "index out of range"
vlan_link (link ∷ _) = ok link

unfoldable pub as_vlan : Interface → Outcome Vlan
as_vlan i = vlan_id i.parameters >>= λ id.
    vlan_link i.interfaces >>= λ link. ok (record { common = as_common i; id = id; link = link })

abbrev pub blank_written : Written
blank_written = record { ethernets = []; bonds = []; bridges = []; vlans = [] }

-- The body of the loop of New.
unfoldable pub write_one : Gnet → Interface → Written → Outcome Written
write_one g i w =
    if i.type == "physical"
    then (as_ether g i >>= λ e. ok (record w { ethernets = put i.name e w.ethernets }))
    else if i.type == "bond"
    then ok (record w { bonds = put i.name (as_stacked i) w.bonds })
    else if i.type == "bridge"
    then ok (record w { bridges = put i.name (as_stacked i) w.bridges })
    else if i.type == "vlan"
    then (as_vlan i >>= λ v. ok (record w { vlans = put i.name v w.vlans }))
    else panic (concat ("Unknown interface type " ∷ i.type ∷ []))

unfoldable pub values : GoMap Interface → List Interface
values [] = []
values ((k, i) ∷ m) = i ∷ values m

-- New
unfoldable pub new_netplan : Gnet → Layout → Outcome Written
unfolding values
new_netplan g l = each (write_one g) (values l.interfaces) blank_written
