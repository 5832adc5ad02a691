-- ===== src/Rhel/Devices.antt =====
-- rhel/rhel.go: the part of writeOut that is about an interface and not its network.
use Prim.Native.Char.{code}
use Prim.Native.String
use netwrangler.Base.{
  String, Bool, true, false, ◌==◌, ◌||◌, none, some, List, [], ◌∷◌, ◌++◌, map, nat_eq,
  if◌then◌else◌,
}
use netwrangler.Sort.{sort}
use netwrangler.Text.{concat, join, decimal}
use netwrangler.GoMap.{GoMap, get, get_or}
use netwrangler.Value.{Value, nil, bool, int, net_ips}
use netwrangler.Net.{Gnet, ip_string}
use netwrangler.Outcome.{Outcome, ok, panic, ◌>>=◌}
use netwrangler.Validators.{Printer}
use netwrangler.Layout.{Interface, new_interface}
use netwrangler.Layout.Routes.{words_if}
use netwrangler.Layout.Members.{Parents}
use netwrangler.Rhel.{write_key}

-- `v.(bool)` and `v.(int)`
abbrev pub assert_bool : Value → Outcome Bool
assert_bool (bool b) = ok b
assert_bool _ = panic "interface conversion"

abbrev pub delay_lines : Value → Outcome (List String)
delay_lines (int n) = ok (write_key "DELAY" (decimal n))
delay_lines _ = panic "interface conversion"

-- The line for the forward delay, if there is one.
unfoldable pub forward_delay : GoMap Value → Outcome (List String)
forward_delay parameters = elim (get "forward-delay" parameters) [
  | none ↦ ok []
  | some v ↦ delay_lines v
]

abbrev pub stp_lines : GoMap Value → Bool → Outcome (List String)
stp_lines parameters true =
    forward_delay parameters >>= λ delay. ok (write_key "STP" "yes" ++ delay)
stp_lines parameters false = ok (write_key "STP" "no")

unfoldable pub bridge_lines : Interface → Outcome (List String)
bridge_lines i = elim (get "stp" i.parameters) [
  | none ↦ ok (write_key "TYPE" "Bridge")
  | some v ↦ assert_bool v >>= λ stp.
      stp_lines i.parameters stp >>= λ lines. ok (write_key "TYPE" "Bridge" ++ lines)
]

-- strings.Replace(k, "-", "_", -1)
unfoldable pub underscored : String → String
underscored String.[] = ""
underscored (String.◌∷◌ c s) =
    let rest = underscored s in
    if nat_eq (code c) b'-' then String.◌++◌ "_" rest else String.◌∷◌ c rest

abbrev pub flag_text : Bool → String
flag_text true = "1"
flag_text false = "0"

-- The names that the switch gives to some of the keys.
unfoldable pub bond_key : String → String
bond_key key =
    if key == "down_delay"
    then "downdelay"
    else if key == "fail_over_mac_policy"
    then "fail_over_mac"
    else if key == "gratuitous_arp"
    then "num_grat_arp"
    else if key == "mii_monitor_interval"
    then "miimon"
    else if key == "primary_reselect_policy"
    then "primary_reselect"
    else if key == "transmit_hash_policy"
    then "xmit_hash_policy"
    else if key == "up_delay"
    then "updelay"
    else key

abbrev pub option_text : String → String → String
option_text key text = concat (key ∷ "=" ∷ text ∷ [])

-- `v.([]net.IP)`, and the addresses joined by commas.
abbrev pub target_text : Value → Outcome String
target_text (net_ips ips) = ok (join "," (map ip_string ips))
target_text _ = panic "interface conversion"

abbrev pub device_of : List String → Outcome (List String)
device_of [] = panic "index out of range"
device_of (name ∷ names) = ok (write_key "PHYSDEV" name)

unfoldable pub physical_lines : Gnet → Bool → Interface → List String
physical_lines g bind_macs i =
    write_key "TYPE" "Ethernet"
    ++ words_if bind_macs (write_key "HWADDR" (g.hw_string i.current_hw_addr))

module _ (t : Printer) where
  -- The body of the loop over the parameters of a bond.
  unfoldable pub bond_option : String → Value → Outcome String
  bond_option key v =
      if key == "all_slaves_active" || key == "arp_all_targets"
      then (assert_bool v >>= λ flag. ok (option_text key (flag_text flag)))
      else if key == "arp_ip_targets"
      then (target_text v >>= λ text. ok (option_text "arp_ip_target" text))
      else ok (option_text (bond_key key) (t.value_text v))

  unfoldable pub bond_options : GoMap Value → Outcome (List String)
  bond_options [] = ok []
  bond_options ((k, v) ∷ m) =
      bond_option (underscored k) v >>= λ text. bond_options m >>= λ texts. ok (text ∷ texts)

  -- The options are sorted, so that the order in which the map is ranged over does not matter.
  unfoldable pub bond_lines : Interface → Outcome (List String)
  bond_lines i = bond_options i.parameters >>= λ options.
      ok (write_key "BONDING_OPTS" (join " " (sort options)))

  unfoldable pub vlan_lines : Interface → Outcome (List String)
  vlan_lines i = device_of i.interfaces >>= λ device. ok (
      write_key "VLAN" "yes"
      ++ (write_key "VID" (t.value_text (get_or i.parameters "id" nil)) ++ device))

  -- The switch on the type.
  unfoldable pub type_lines : Gnet → Bool → Interface → Outcome (List String)
  type_lines g bind_macs i =
      if i.type == "bridge"
      then bridge_lines i
      else if i.type == "bond"
      then bond_lines i
      else if i.type == "vlan"
      then vlan_lines i
      else if i.type == "physical"
      then ok (physical_lines g bind_macs i)
      else ok []

-- The loop over the parents.
unfoldable pub parent_lines : GoMap Interface → List String → List String
parent_lines interfaces [] = []
parent_lines interfaces (name ∷ names) =
    let parent = get_or interfaces name new_interface in
    (if parent.type == "bridge"
      then write_key "BRIDGE" name
      else if parent.type == "bond"
      then write_key "MASTER" name ++ write_key "SLAVE" "yes"
      else [])
    ++ parent_lines interfaces names

-- What is printed up to ONBOOT.
unfoldable pub device_lines :
    Gnet → Printer → Bool → GoMap Interface → Parents → Interface → Outcome (List String)
device_lines g t bind_macs interfaces parents i = type_lines t g bind_macs i >>= λ lines. ok (
    "# Created by netwrangler\n" ∷ write_key "DEVICE" i.name
    ++ (lines
        ++ (parent_lines interfaces (get_or parents i.name [])
            ++ write_key "ONBOOT" (if i.optional then "no" else "yes"))))
