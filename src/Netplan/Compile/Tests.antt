-- ===== src/Netplan/Compile/Tests.antt =====
-- Compile at an example: a bond of two cards, and a vlan on it.
use netwrangler.Base.{String, true, false, ◌≡◌, refl, Option, none, some, List, [], ◌∷◌, ◌==◌}
use netwrangler.Text.Int.{pos}
use netwrangler.GoMap.{GoMap, get, keys}
use netwrangler.Value.{
  Entries, entries, Value, Values, nil, str, int, list, dict, strings, last, item, end, entry,
}
use netwrangler.Outcome.{ok, each}
use netwrangler.Sort.{sort, insert}
use netwrangler.Err.{GoError}
use netwrangler.Validators.{Json, Decoded, decoded}
use netwrangler.Globs.{Compiler, matcher, glob2re}
use netwrangler.Phys.{Phy}
use netwrangler.Layout.{Interface, Network, Layout, new_interface}
use netwrangler.Layout.Tests.{plain_net, program, entries_of}
use netwrangler.Base.{ap, sym, subst, ◌∙◌}
use netwrangler.Netplan.Kinds.{KeepsType}
use netwrangler.Netplan.Params.{Stays, KeepsTexts}
use netwrangler.Netplan.Compile.Accepted.{IsReadAs, compile_netplan-IsReadAs}
use netwrangler.Systemd.Tests.{plain_printer}
use netwrangler.Netplan.{Structs, Packages, Netplan, LinkDef}
use netwrangler.Netplan.Blank.{
  blank_ns, blank_route, blank_policy, blank_network, blank_overrides, blank_match,
}
use netwrangler.Netplan.Networks.{network, network_checks}
use netwrangler.Netplan.Devices.{
  p_validate, bond_params, ethernet, ethernet_checks, ref_to, bond, bb, bridge, vlan, blank_phy,
}
use netwrangler.Netplan.Compile.{
  compile_netplan, read_all, get_names, read_virtual, read_ethernet, match_of, add_real, add_other,
  add_subs, add_found, resolve, real_subs, real_names, opening,
}
use netwrangler.Validators.Checking.{
  validate_and_marshal, check_step, check_validate, store, check_key,
}
use netwrangler.Validators.Decoding.{vss, strs_from}
use netwrangler.Validators.{validate_int, as_int, validate_str}
use netwrangler.Layout.Networks.{configure_network}
use netwrangler.Phys.{match_phys, match_each, compiled}

unfoldable pub strings_of : Value → List String
strings_of (strings ss) = ss
strings_of (list vs) = held vs
  where
    held : Values → List String
    held last = []
    held (item (str s) vs) = s ∷ held vs
    held (item _ vs) = held vs
strings_of _ = []

-- The values are as they have to be.
abbrev pub plain_json : Json
plain_json = record {
  as_hardware_addr = λ v. decoded [];
  as_ip = λ v. decoded none;
  as_ips = λ v. decoded [];
  as_strings = λ v. decoded (strings_of v);
}

unfoldable pub members_in : GoMap Value → List String
members_in m = elim (get "interfaces" m) [ none ↦ [] | some v ↦ strings_of v ]

unfoldable pub entries_of_map : GoMap Value → Entries
entries_of_map [] = end
entries_of_map ((k, v) ∷ m) = entry k v (entries_of_map m)

entries-entries_of_map : (m : GoMap Value) → entries (entries_of_map m) ≡ m
unfolding entries_of_map
entries-entries_of_map [] = refl
entries-entries_of_map ((k, v) ∷ m) = ap (λ x. (k, v) ∷ x) (entries-entries_of_map m)

unfoldable pub dict_in : Value → GoMap Value
dict_in (dict es) = entries es
dict_in _ = []

unfoldable pub parameters_in : GoMap Value → GoMap Value → GoMap Value
parameters_in old m = elim (get "parameters" m) [ none ↦ old | some v ↦ dict_in v ]

unfoldable pub link_in : GoMap Value → LinkDef
link_in m = elim (get "link" m) [
  | some (str s) ↦ record { link = s; id = pos 7 }
  | _ ↦ record { link = ""; id = pos 7 }
]

abbrev pub plain_structs : Structs
plain_structs = record {
  as_ns = λ m. decoded blank_ns;
  as_route = λ m. decoded blank_route;
  as_policy = λ m. decoded blank_policy;
  as_network = λ m. decoded (record blank_network { accept_ra = true });
  as_overrides = λ m. decoded blank_overrides;
  as_match = λ m. decoded blank_match;
  as_phy = λ m. decoded blank_phy;
  as_interface = λ old m.
      decoded
        (record old { interfaces = members_in m; parameters = parameters_in old.parameters m });
  as_link = λ m. decoded (link_in m);
  as_params = λ m. decoded m;
  of_ns = λ x. nil;
  of_routes = λ x. nil;
  of_policies = λ x. nil;
  of_overrides = λ x. nil;
  of_match = λ x. nil;
  of_params = λ x. dict (entries_of_map x);
}

abbrev pub plain_packages : Packages
plain_packages = record {
  printer = plain_printer;
  json = plain_json;
  gnet = plain_net;
  structs = plain_structs;
}

abbrev pub card : String → Phy
card name = record {
  name = name;
  stable_name = name;
  ordinal_name = name;
  driver = "";
  hardware_addr = [];
  boot_if = false;
}

-- Every pattern matches just e1.
abbrev pub exact : Compiler
exact pattern = matcher (λ s. s == "e1")

abbrev pub bonded : Netplan
bonded = record {
  version = pos 2;
  renderer = "networkd";
  ethernets = ("e1", dict end) ∷ [];
  bridges = [];
  bonds =
      (
        "bo",
        dict (
            entry "interfaces" (list (item (str "e1") last))
              (entry "parameters" (dict (entry "primary" (str "e1") end)) end)),
      )
      ∷ [];
  vlans = ("v7", dict (entry "link" (str "bo") (entry "id" (int (pos 7)) end))) ∷ [];
  wifis = none;
  bind_mac = false;
}

abbrev pub same_order : List String → List String
same_order ks = ks

abbrev pub connected : Network
connected = record blank_network { accept_ra = true }

abbrev pub bonded_interfaces : List Interface
bonded_interfaces =
    record new_interface { type = "physical"; match_id = "e1"; name = "e1" }
    ∷ record new_interface {
      type = "bond";
      match_id = "bo";
      name = "bo";
      interfaces = "e1" ∷ [];
      parameters = ("primary", str "e1") ∷ [];
      network = ref_to 1 connected;
    }
    ∷ record new_interface {
      type = "vlan";
      match_id = "v7";
      name = "v7";
      interfaces = "bo" ∷ [];
      parameters = ("id", int (pos 7)) ∷ [];
      network = ref_to 2 connected;
    }
    ∷ []

abbrev pub bonded_layout : Layout
bonded_layout = record {
  interfaces = entries_of bonded_interfaces;
  child2parent = ("e1", "bo" ∷ []) ∷ ("bo", "v7" ∷ []) ∷ [];
  roots = "v7" ∷ [];
}

pub bonded_compiles :
    compile_netplan exact (card "e1" ∷ []) plain_packages same_order bonded
    ≡ ok (bonded_layout, none)
unfolding program compile_netplan read_all each get_names sort keys insert read_virtual bond bb
    bridge vlan add_other add_subs add_found resolve real_subs real_names opening network
    network_checks vss strs_from check_key match_phys match_each compiled strings_of members_in
    link_in validate_and_marshal get check_step check_validate store glob2re validate_int as_int
    validate_str configure_network read_ethernet ethernet match_of add_real ethernet_checks
    p_validate bond_params parameters_in dict_in entries_of_map
bonded_compiles = refl

decoded_injective {ℓ} : {A : Type ℓ} {a b : A} → Decoded.decoded a ≡ decoded b → a ≡ b
decoded_injective h = cc

pub structs-KeepsType : KeepsType plain_packages
structs-KeepsType i m just h = ap (λ x. x.type) (sym (decoded_injective h))

pub structs-KeepsTexts : KeepsTexts plain_packages
unfolding parameters_in dict_in
structs-KeepsTexts = record {
  params = λ checks m m' known just h. subst (Stays m) (decoded_injective h) (stays_same m);
  set = λ i m q just h here.
      subst (Stays q)
        (sym (entries-entries_of_map q)
          ∙ sym (rw (here, parameters_in) refl)
          ∙ ap (λ x. x.parameters) (decoded_injective h))
        (stays_same q);
  unset = λ i m just h missing.
      sym (ap (λ x. x.parameters) (decoded_injective h)) ∙ rw (missing, parameters_in) refl;
  vlan = λ i m just h.
      sym (ap (λ x. x.parameters) (decoded_injective h))
      ∙ rw (just "parameters" (refl, tt), parameters_in) refl;
  phy = λ m def just h. ap (λ x. x.intf.parameters) (sym (decoded_injective h));
}
  where
    stays_same : (m : GoMap Value) → Stays m m
    stays_same m name = (λ h. h, λ s h. (s, h))

abbrev silent : Option GoError
silent = none

compile_netplan-IsReadAs_example :
    (invalid : Option GoError) × IsReadAs plain_net same_order bonded_layout invalid
    × (silent ≡ none → invalid ≡ none)
compile_netplan-IsReadAs_example =
    compile_netplan-IsReadAs exact (card "e1" ∷ []) plain_packages same_order bonded bonded_layout
      none structs-KeepsType bonded_compiles
