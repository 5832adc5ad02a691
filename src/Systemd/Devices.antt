-- ===== src/Systemd/Devices.antt =====
-- systemd/networkd.go: what is printed to a .link or .netdev file. The check of arp-ip-targets has a
-- translator, s2s, which is left out: writeParams calls Validate and Key of a check alone.
pub mod Laws
use netwrangler.Base.{
  String, Bool, true, false, ◌==◌, Option, none, some, List, [], ◌∷◌, ◌++◌, if◌then◌else◌,
}
use netwrangler.Text.{concat}
use netwrangler.Text.Int.{pos}
use netwrangler.GoMap.{GoMap, get, get_or}
use netwrangler.Value.{Value, nil, bool, int, str}
use netwrangler.Net.{Gnet}
use netwrangler.Outcome.{Outcome, ok, panic, ◌>>=◌, each}
use netwrangler.Err.{errorf}
use netwrangler.Validators.{Printer}
use netwrangler.Validators.Checking.{Check, blank_check, check_validate, check_key}
use netwrangler.Layout.{Interface}
use netwrangler.Layout.Routes.{words_if}
use netwrangler.Systemd.{Output, print, setting}

-- `v, ok := i.Parameters["wakeonlan"]; ok && v.(bool)`
unfoldable pub is_woken : Interface → Outcome Bool
is_woken i = elim (get "wakeonlan" i.parameters) [
  | none ↦ ok false
  | some v ↦ elim v [ bool b ↦ ok b | _ ↦ panic "interface conversion" ]
]

abbrev pub wake_lines : Gnet → Interface → List String
wake_lines g i =
    concat (
      "[Match]\nMACAddress="
      ∷ g.hw_string i.current_hw_addr
      ∷ "\n\n[Link]\nMACAddressPolicy=persistent\nWakeOnLan=magic\n"
      ∷ [])
    ∷ []

-- writePhy
unfoldable pub write_phy : Gnet → Interface → Output → Outcome Output
unfolding is_woken
write_phy g i o = is_woken i >>= λ woken. ok (print o (words_if woken (wake_lines g i)))

abbrev pub keyed : String → Check
keyed key = record blank_check { new_key = key }

abbrev pub preset : Value → String → Check
preset d key = record (keyed key) { default = some d }

-- What a verdict of Check.Validate has printed.
abbrev pub print_valid : Printer → String → Output → Value → Bool → Output
print_valid t key o v valid = print o (words_if valid (setting key (t.value_text v)))

module _ (t : Printer) (checks : GoMap Check) (values : GoMap Value) where
  -- The body of the loop of writeParams.
  unfoldable pub write_param : String → Output → Outcome Output
  write_param k o = elim (get k values) [
    | none ↦ ok o
    | some v ↦ elim (get k checks) [
      | none ↦ panic "nil pointer dereference"
      | some c ↦ check_validate c o.err k v >>= λ (e, nv, valid).
          ok (print_valid t (check_key c k) (record o { err = e }) nv valid)
    ]
  ]

  -- writeParams
  unfoldable pub write_params : List String → Output → Outcome Output
  write_params params o = each write_param params o

abbrev pub bond_params : List String
bond_params =
    "mode" ∷ "transmit-hash-policy" ∷ "lacp-rate" ∷ "mii-monitor-interval" ∷ "min-links"
    ∷ "ad-select" ∷ "all-slaves-active" ∷ "arp-interval" ∷ "arp-ip-targets" ∷ "arp-validate"
    ∷ "arp-all-targets" ∷ "up-delay" ∷ "down-delay" ∷ "fail-over-mac-policy" ∷ "gratuitous-arp"
    ∷ "packets-per-slave" ∷ "primary-reselect-policy" ∷ "resend-igmp" ∷ "learn-packet-interval" ∷ []

abbrev pub bond_checks : GoMap Check
bond_checks =
    ("mode", preset (str "balance-rr") "Mode")
    ∷ ("transmit-hash-policy", preset (str "layer2") "TransmitHashPolicy")
    ∷ ("lacp-rate", preset (str "slow") "LacpTransmitRate")
    ∷ ("mii-monitor-interval", preset (int (pos 0)) "MiiMonitorSec")
    ∷ ("min-links", keyed "MinLinks")
    ∷ ("ad-select", keyed "AdSelect")
    ∷ ("all-slaves-active", keyed "AllSlavesActive")
    ∷ ("arp-interval", keyed "ARPIntervalSec")
    ∷ ("arp-ip-targets", keyed "ARPIPTargets")
    ∷ ("arp-validate", keyed "ARPValidate")
    ∷ ("arp-all-targets", keyed "ARPAllTargets")
    ∷ ("up-delay", keyed "UpDelaySec")
    ∷ ("down-delay", keyed "DownDelaySec")
    ∷ ("fail-over-mac-policy", keyed "FailOverMACPolicy")
    ∷ ("gratuitous-arp", keyed "GratuitousARP")
    ∷ ("packets-per-slave", keyed "PacketsPerSlave")
    ∷ ("primary-reselect-policy", keyed "PrimaryReselectPolicy")
    ∷ ("resend-igmp", keyed "ResendIGMP")
    ∷ ("learn-packet-interval", keyed "LearnPacketIntervalSec")
    ∷ []

abbrev pub bridge_params : List String
bridge_params = "stp" ∷ "max-age" ∷ "hello-time" ∷ "forward-delay" ∷ "ageing-time" ∷ "priority" ∷ []

abbrev pub bridge_checks : GoMap Check
bridge_checks =
    ("stp", keyed "STP")
    ∷ ("max-age", keyed "MaxAgeSec")
    ∷ ("hello-time", keyed "HelloTimeSec")
    ∷ ("forward-delay", keyed "ForwardDelaySec")
    ∷ ("ageing-time", keyed "AgeingTimeSec")
    ∷ ("priority", keyed "Priority")
    ∷ []

abbrev pub device_header : String → String → String → List String
device_header name kind section =
    concat ("[NetDev]\nName=" ∷ name ∷ "\nKind=" ∷ kind ∷ "\n\n[" ∷ section ∷ "]\n" ∷ []) ∷ []

module _ (g : Gnet) (t : Printer) (i : Interface) where
  -- writeBond
  unfoldable pub write_bond : Output → Outcome Output
  write_bond o =
      write_params t bond_checks i.parameters bond_params
        (print o (device_header i.name "bond" "Bond"))

  -- writeBridge
  unfoldable pub write_bridge : Output → Outcome Output
  write_bridge o =
      write_params t bridge_checks i.parameters bridge_params
        (print o (device_header i.name "bridge" "Bridge"))

  -- writeVlan
  unfoldable pub write_vlan : Output → Output
  write_vlan o = print o (
      device_header i.name "vlan" "VLAN"
      ++ setting "Id" (t.value_text (get_or i.parameters "id" nil)))

  -- The switch of writeOut.
  unfoldable pub write_device : Output → Outcome Output
  write_device o =
      if i.type == "physical"
      then write_phy g i o
      else if i.type == "bond"
      then write_bond o
      else if i.type == "bridge"
      then write_bridge o
      else if i.type == "vlan"
      then ok (write_vlan o)
      else ok
          (record o { err = errorf o.err ("Cannot write interface " ∷ i.type ∷ ":" ∷ i.name ∷ []) })
