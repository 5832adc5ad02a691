-- ===== src/Layout/Tests.antt =====
-- Small layouts, and what Layout.Validate makes of them.
pub mod Accepted
mod Refused
mod Pieces
use netwrangler.Layout.Networks.{
  network_validate, gateway4_check, gateway6_check, nameservers_check, routes_check, policies_check,
}
use netwrangler.Checks.{validate_str_in, validate_ip_list, ip_list_from}
use netwrangler.Net.{is_ip4, to4}
use netwrangler.Layout.{Network}
use netwrangler.Layout.Members.{verdict, network_merge}
use netwrangler.Layout.Validation.{strip_member, finish, stripped}
use netwrangler.Layout.Members.Ownership.Exclusive.{IsNamed}
use netwrangler.Layout.Members.Total.{IsKind}
use netwrangler.Layout.Validation.Total.{IsTyped}
use netwrangler.Text.{list_text, concat, join}
use netwrangler.Base.{
  All, Bool-cases, inl, inr, subst, some_cancel, ◌==◌, if◌then◌else◌, some, ◌≡◌, arith, eq_iff,
  contains, String, true, false, ◌≡◌, refl, none, List, [], ◌∷◌,
}
use netwrangler.Sort.{sort, insert, str_leb}
use netwrangler.GoMap.{GoMap, get, put, keys}
use netwrangler.Net.{Gnet}
use netwrangler.Outcome.{ok, each}
use netwrangler.Err.{errorf, merge, or_nil, empty}
use netwrangler.Layout.{Interface, new_interface, Layout}
use netwrangler.Layout.Members.{kind_check, claim, add_parent, sub_step, interface_validate}
use netwrangler.Layout.Cycles.{cyclic}
use netwrangler.Layout.Validation.{
  sorted_entry, validate_member, strip_child, strip_members, sweep_step, validate_rest,
  layout_validate,
}

-- Stands for the methods of package gohai: every address is a range unless its mask is empty.
abbrev pub plain_net : Gnet
plain_net = record {
  net_string = λ a. "ip";
  is_cidr = λ a. elim a.mask [ [] ↦ false | _ ∷ _ ↦ true ];
  hw_string = λ a. "mac";
}

abbrev pub member : String → String → List String → Interface
member type name subs = record new_interface {
  type = type;
  match_id = name;
  name = name;
  interfaces = subs;
}

abbrev pub entries_of : List Interface → GoMap Interface
entries_of [] = []
entries_of (i ∷ rest) = (i.name, i) ∷ entries_of rest

abbrev pub layout_of : List Interface → Layout
layout_of is = record { interfaces = entries_of is; child2parent = []; roots = [] }

pub entries_of-IsNamed : (is : List Interface) → IsNamed (entries_of is)
unfolding get
entries_of-IsNamed [] k v h = cc
entries_of-IsNamed (i ∷ rest) k v h = ground (arith, eq_iff i.name k, entries_of-IsNamed rest k v)

pub entries_of-IsTyped :
    (is : List Interface) → All (λ i. IsKind i.type) is → IsTyped (entries_of is)
unfolding get
entries_of-IsTyped [] h k v e = cc
entries_of-IsTyped (i ∷ rest) (kind, h) k v e = elim (Bool-cases (i.name == k)) [
  | inl here ↦ subst (λ x. IsKind x.type) (some_cancel (rw here at e)) kind
  | inr other ↦ entries_of-IsTyped rest h k v (rw other at e)
]

unfoldable pub program : Unit {0}
unfolding contains layout_validate validate_rest sweep_step strip_members strip_member strip_child
    validate_member sorted_entry cyclic interface_validate sub_step add_parent claim kind_check
    verdict network_merge merge or_nil errorf empty each sort insert str_leb get put keys finish
    stripped network_validate validate_str_in validate_ip_list ip_list_from is_ip4 to4
    gateway4_check gateway6_check nameservers_check routes_check policies_check list_text concat
    join
program = tt

abbrev pub static_net : Network
static_net = record {
  accept_ra = false;
  dhcp4 = false;
  dhcp4_overrides = none;
  dhcp6 = false;
  dhcp6_overrides = none;
  dhcp_identifier = "mac";
  addresses = record { ip = 10 ∷ 0 ∷ 0 ∷ 2 ∷ []; mask = 255 ∷ 255 ∷ 255 ∷ 0 ∷ [] } ∷ [];
  gateway4 = some (record { ip = 10 ∷ 0 ∷ 0 ∷ 1 ∷ []; mask = [] });
  gateway6 = none;
  nameservers = none;
  routes = [];
  routing_policy = [];
}

abbrev pub with_net : Network → Interface → Interface
with_net n i = record i { network = some (record { address = 1; value = n }) }

-- Two links in a bond, the bond in a bridge, and three vlans on the bridge.
abbrev pub stack_members : List Interface
stack_members =
    with_net static_net (member "bridge" "br" ("bo" ∷ []))
    ∷ member "vlan" "v2" ("br" ∷ [])
    ∷ with_net static_net (member "bond" "bo" ("e2" ∷ "e1" ∷ []))
    ∷ member "physical" "e1" []
    ∷ member "vlan" "v1" ("br" ∷ [])
    ∷ member "physical" "e2" []
    ∷ []

abbrev pub stack : Layout
stack = layout_of stack_members

abbrev pub stack_order : List String
stack_order = "br" ∷ "v2" ∷ "bo" ∷ "e1" ∷ "v1" ∷ "e2" ∷ []
