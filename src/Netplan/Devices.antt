-- ===== src/Netplan/Devices.antt =====
-- netplan/netplan.go: the validators of the interfaces. Each call of network() makes a new
-- *util.Network, whose address is `address`.
use netwrangler.Base.{
  ℕ, ◌-◌, ◌^◌, String, Bool, true, false, ◌&&◌, Option, some, List, [], ◌∷◌, if◌then◌else◌,
}
use netwrangler.Text.Int.{pos}
use netwrangler.GoMap.{GoMap, put}
use netwrangler.Value.{Value, bool, int}
use netwrangler.Outcome.{Outcome, ok, ◌>>=◌}
use netwrangler.Err.{Err, errorf}
use netwrangler.Validators.{Validator, validate_unsupp, vb, vi, vs}
use netwrangler.Validators.Decoding.{vips, vmac, vss}
use netwrangler.Validators.Checking.{Check, checked_by, defaulted, validate_and_marshal}
use netwrangler.Layout.{Interface, new_interface, Network, NetworkRef}
use netwrangler.Layout.Networks.{configure_network}
use netwrangler.Netplan.{Packages, PhyDef, LinkDef}
use netwrangler.Netplan.Blank.{blank_match}
use netwrangler.Netplan.Networks.{boxed, network, phymatch, max_int8, max_int16}

abbrev pub blank_phy : PhyDef
blank_phy = record { intf = new_interface; match = blank_match; wol = false; optional = false }

abbrev pub blank_link : LinkDef
blank_link = record { link = ""; id = pos 0 }

abbrev pub blank_vlan : Interface
blank_vlan = record new_interface { type = "vlan" }

abbrev pub ref_to : ℕ → Network → Option NetworkRef
ref_to address n = some (record { address = address; value = n })

module _ (p : Packages) where
  unfoldable pub ethernet_checks : List (String × Check)
  ethernet_checks =
      ("match", checked_by (phymatch p))
      ∷ ("wakeonlan", checked_by (vb p.printer))
      ∷ ("set-name", checked_by validate_unsupp)
      ∷ ("macaddress", checked_by validate_unsupp)
      ∷ ("optional", checked_by (vb p.printer))
      ∷ []

  abbrev pub woken : Bool → GoMap Value → GoMap Value
  woken true parameters = put "wakeonlan" (bool true) parameters
  woken false parameters = parameters

  abbrev pub with_network : ℕ → PhyDef → Network → PhyDef
  with_network address res nw = record res {
    intf = record (res.intf) {
      type = "physical";
      parameters = woken res.wol res.intf.parameters;
      optional = res.optional;
      network = ref_to address nw;
    };
  }

  -- What ethernet() does once the definition is decoded.
  abbrev pub with_network_of : ℕ → Value → Err → PhyDef → Outcome (Err × PhyDef × Bool)
  with_network_of address v e res = network p e v >>= λ (e', nw, valid).
      ok (e', if valid then with_network address res nw else res, valid)

  -- ethernet()
  unfoldable pub ethernet : ℕ → Err → Value → Outcome (Err × PhyDef × Bool)
  ethernet address e v =
      validate_and_marshal p.printer "*netplan.phy" p.structs.as_phy e v ethernet_checks blank_phy
      >>= λ (e', res, valid). elim valid [
        | false ↦ ok (
          errorf e' (p.printer.type_text v ∷ " not castable to an ethernet interface" ∷ []),
          res,
          false,
        )
        | true ↦ with_network_of address v e' res
      ]

  -- pValidate
  unfoldable pub p_validate : List (String × Check) → Validator
  p_validate checks e k v =
      boxed p.structs.of_params (
        validate_and_marshal p.printer "*map[string]interface {}" p.structs.as_params e v checks [])

  abbrev pub bb_checks : List (String × Check) → List (String × Check)
  bb_checks pchecks =
      ("macaddress", checked_by (vmac p.printer p.json))
      ∷ ("interfaces", checked_by (vss p.printer p.json []))
      ∷ ("parameters", checked_by (p_validate pchecks))
      ∷ ("optional", checked_by (vb p.printer))
      ∷ []

  abbrev pub with_kind : String → ℕ → Interface → Network → Interface
  with_kind kind address res nw = record res { type = kind; network = ref_to address nw }

  -- bb
  unfoldable pub bb :
      String → List (String × Check) → ℕ → Err → Value → Outcome (Err × Interface × Bool)
  bb kind pchecks address e v =
      validate_and_marshal p.printer "*util.Interface" (p.structs.as_interface new_interface) e v
        (bb_checks pchecks) new_interface
      >>= λ (e', res, valid). elim valid [
        | false ↦ ok (
          errorf e' (p.printer.type_text v ∷ " not castable to a " ∷ kind ∷ " interface" ∷ []),
          res,
          false,
        )
        | true ↦ network p e' v >>= λ (e'', nw, valid').
            ok (e'', if valid' then with_kind kind address res nw else res, valid')
      ]

  unfoldable pub bridge_params : List (String × Check)
  bridge_params =
      ("stp", defaulted (bool true) (vb p.printer))
      ∷ ("max-age", checked_by (vi p.printer (pos 0) max_int8))
      ∷ ("hello-time", checked_by (vi p.printer (pos 0) max_int8))
      ∷ ("forward-delay", checked_by (vi p.printer (pos 0) max_int8))
      ∷ ("ageing-time", checked_by (vi p.printer (pos 0) max_int8))
      ∷ ("priority", defaulted (int (pos 32768)) (vi p.printer (pos 0) max_int16))
      ∷ []

  -- bridge()
  unfoldable pub bridge : ℕ → Err → Value → Outcome (Err × Interface × Bool)
  bridge = bb "bridge" bridge_params

  unfoldable pub bond_params : List (String × Check)
  bond_params =
      ("ad-select", checked_by (vs p.printer ("stable" ∷ "bandwidth" ∷ "count" ∷ [])))
      ∷ ("all-slaves-active", checked_by (vb p.printer))
      ∷ ("arp-all-targets", checked_by (vs p.printer ("any" ∷ "all" ∷ [])))
      ∷ ("arp-interval", checked_by (vi p.printer (pos 0) max_int8))
      ∷ ("arp-ip-targets", checked_by (vips p.printer p.json p.gnet false))
      ∷ ("arp-validate", checked_by (vs p.printer ("none" ∷ "active" ∷ "backup" ∷ "all" ∷ [])))
      ∷ ("down-delay", checked_by (vi p.printer (pos 0) max_int8))
      ∷ ("fail-over-mac-policy", checked_by (vs p.printer ("none" ∷ "active" ∷ "follow" ∷ [])))
      ∷ ("gratuitous-arp", checked_by (vi p.printer (pos 1) (pos 127)))
      ∷ ("lacp-rate", checked_by (vs p.printer ("fast" ∷ "slow" ∷ [])))
      ∷ ("learn-packet-interval", checked_by (vi p.printer (pos 1) (pos (2 ^ 31 - 1))))
      ∷ ("mii-monitor-interval", checked_by (vi p.printer (pos 0) max_int8))
      ∷ ("min-links", checked_by (vi p.printer (pos 1) max_int8))
      ∷ (
        "mode",
        checked_by (
            vs p.printer (
              "balance-rr" ∷ "active-backup" ∷ "balance-xor" ∷ "broadcast" ∷ "802.3ad"
              ∷ "balance-tlb" ∷ "balance-alb" ∷ [])),
      )
      ∷ ("packets-per-slave", checked_by (vi p.printer (pos 0) (pos 65535)))
      ∷ ("primary", checked_by (vs p.printer []))
      ∷ (
        "primary-reselect-policy",
        checked_by (vs p.printer ("always" ∷ "better" ∷ "failure" ∷ [])),
      )
      ∷ ("resend-igmp", checked_by (vi p.printer (pos 0) (pos 255)))
      ∷ (
        "transmit-hash-policy",
        checked_by
            (vs p.printer ("layer2" ∷ "layer3+4" ∷ "layer2+3" ∷ "encap2+3" ∷ "encap3+4" ∷ [])),
      )
      ∷ ("up-delay", checked_by (vi p.printer (pos 0) max_int8))
      ∷ []

  -- bond()
  unfoldable pub bond : ℕ → Err → Value → Outcome (Err × Interface × Bool)
  bond = bb "bond" bond_params

  abbrev pub vlan_of : LinkDef → Interface → Interface
  vlan_of l res = record res {
    interfaces = l.link ∷ [];
    parameters = put "id" (int l.id) res.parameters;
  }

  -- The network of a vlan, if it is to be configured.
  abbrev pub configured : ℕ → Network → Interface → Interface
  configured address nw res =
      if configure_network (some nw) then record res { network = ref_to address nw } else res

  abbrev pub mac_checks : List (String × Check)
  mac_checks = ("macaddress", checked_by (vmac p.printer p.json)) ∷ []

  -- vlan()
  unfoldable pub vlan : ℕ → Err → Value → Outcome (Err × Interface × Bool)
  vlan address e v =
      validate_and_marshal p.printer "*netplan.li" p.structs.as_link e v
        (("link", checked_by (vs p.printer []))
          ∷ ("id", checked_by (vi p.printer (pos 0) (pos 4094)))
          ∷ [])
        blank_link
      >>= λ (e1, l, l_valid).
          validate_and_marshal p.printer "*util.Interface" (p.structs.as_interface blank_vlan) e1 v
            mac_checks blank_vlan
          >>= λ (e2, res, valid). network p e2 v >>= λ (e3, nw, nw_valid). ok (
            e3,
            if nw_valid then configured address nw (vlan_of l res) else vlan_of l res,
            nw_valid && (valid && l_valid),
          )
