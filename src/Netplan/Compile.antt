-- ===== src/Netplan/Compile.antt =====
-- netplan/netplan.go: Compile. The order in which Go ranges over the map of interfaces in the last
-- loop of Layout.Validate is a parameter, a list for each list of keys.
pub mod Proper
pub mod Named
pub mod Accepted
pub mod Installed
pub mod Tests
use netwrangler.Base.{
  ℕ, suc, String, Bool, true, false, not, Option, none, some, List, [], ◌∷◌, ◌++◌, map, is_empty,
  ◌==◌, ◌&&◌, if◌then◌else◌,
}
use netwrangler.Sort.{sort}
use netwrangler.Text.Int.{ℤ, pos}
use netwrangler.GoMap.{GoMap, get, get_or, put, keys, has}
use netwrangler.Value.{Value, nil, int}
use netwrangler.Outcome.{Outcome, ok, ◌>>=◌, each}
use netwrangler.Err.{Err, GoError, new_err, errorf, merge, or_nil}
use netwrangler.Validators.{validate_int}
use netwrangler.Globs.{Compiler}
use netwrangler.Phys.{Match, Phy, match_phys}
use netwrangler.Layout.{Interface, new_interface, Layout}
use netwrangler.Layout.Validation.{layout_validate}
use netwrangler.Netplan.{Packages, Netplan, PhyDef}
use netwrangler.Netplan.Blank.{blank_match}
use netwrangler.Netplan.Devices.{ethernet, bond, bridge, vlan}

-- The interfaces of the layout, the errors, matchChildren, and the address of the next network.
pub record Reading : Type 0 where
  pub interfaces : GoMap Interface
  pub err : Err
  pub match_children : GoMap (List String)
  pub next : ℕ

abbrev pub report : Reading → List String → Reading
report s pieces = record s { err = errorf s.err pieces }

-- getNames
unfoldable pub get_names : GoMap Value → List String
get_names m = sort (keys m)

abbrev pub match_message : String → List String
match_message reason = "Invalid interface match: " ∷ reason ∷ []

-- phy.matchPhys, at what it hands to util.MatchPhys.
unfoldable pub match_of : PhyDef → Match
match_of def =
    if def.match.name == "" && (def.match.driver == "" && is_empty def.match.mac_address)
    then record (def.match) { name = def.intf.match_id }
    else def.match

-- realSubs
abbrev pub real_sub : GoMap (List String) → String → List String
real_sub children v = elim (get v children) [ some ss ↦ ss | none ↦ v ∷ [] ]

unfoldable pub real_names : GoMap (List String) → List String → List String
real_names children [] = []
real_names children (v ∷ vs) = real_sub children v ++ real_names children vs

unfoldable pub real_subs : GoMap (List String) → List String → List String
real_subs children s = sort (real_names children s)

-- The last loop of Compile over the interfaces.
unfoldable pub resolve : GoMap (List String) → GoMap Interface → GoMap Interface
resolve children [] = []
resolve children ((k, v) ∷ m) =
    (k, record v { interfaces = real_subs children v.interfaces }) ∷ resolve children m

-- The innermost loop of addOther.
unfoldable pub add_found : List Interface → GoMap Interface → GoMap Interface
add_found [] m = m
add_found (i ∷ is) m =
    add_found is (if has i.name m then m else put i.name (record i { match_id = i.name }) m)

-- What Compile reports before it reads the interfaces.
unfoldable pub opening : Packages → Netplan → Reading
opening p n =
    let (e, _, _) =
      validate_int p.printer (new_err "netplan") "version" (int n.version) (pos 2) (pos 2) in
    record {
      interfaces = [];
      err = elim n.wifis [ none ↦ e | some _ ↦ errorf e ("Wifi interfaces not supported" ∷ []) ];
      match_children = [];
      next = 0;
    }

abbrev pub layout_of : Reading → Layout
layout_of s = record {
  interfaces = resolve s.match_children s.interfaces;
  child2parent = [];
  roots = [];
}

names_of : List Interface → List String
names_of [] = []
names_of (i ∷ is) = i.name ∷ names_of is

module _ (compile : Compiler) (phys : List Phy) where
  -- The loop of addOther over the sub interfaces.
  unfoldable pub add_subs : List String → Reading → Outcome Reading
  add_subs [] s = ok s
  add_subs (k ∷ ks) s =
      match_phys compile (record blank_match { name = k }) new_interface phys >>= λ (subs, failed).
      elim failed [
        | some reason ↦ ok (report s (match_message reason))
        | none ↦ add_subs ks (record s { interfaces = add_found subs s.interfaces })
      ]

  -- addOther
  unfoldable pub add_other : String → String → Interface → Reading → Outcome Reading
  add_other name match_id intf s =
      let intf' = record intf { name = name; match_id = match_id } in
      add_subs intf.interfaces (elim (get name s.interfaces) [
        | some other ↦
            report s
              ("Duplicate network definition! " ∷ name ∷ " also defined in " ∷ other.type ∷ [])
        | none ↦ record s { interfaces = put name intf' s.interfaces }
      ])

  -- What follows the match of an ethernet definition.
  unfoldable pub add_real : String → List Interface → Option String → Reading → Outcome Reading
  unfolding names_of
  add_real k ints (some reason) s = ok (report s (match_message reason))
  add_real k [] none s =
      ok (report s ("Ethernet interface " ∷ k ∷ " does not resolve to any interfaces" ∷ []))
  add_real k (i ∷ is) none s = each (λ i. add_other i.name k i) (i ∷ is) s >>= λ s'.
      ok (record s' { match_children = put k (names_of (i ∷ is)) s'.match_children })

  module _ (p : Packages) where
    abbrev pub with_match_id : String → PhyDef → PhyDef
    with_match_id k def = record def { intf = record (def.intf) { match_id = k } }

    -- The body of the loop over the ethernets.
    unfoldable pub read_ethernet : GoMap Value → String → Reading → Outcome Reading
    read_ethernet defs k s = ethernet p s.next s.err (get_or defs k nil) >>= λ (e, def, valid).
        elim valid [
          | false ↦ ok (record s { err = e; next = suc s.next })
          | true ↦
              let def' = with_match_id k def in
              match_phys compile (match_of def') def'.intf phys >>= λ (ints, failed).
              add_real k ints failed (record s { err = e; next = suc s.next })
        ]

    -- The body of the loops over the bonds, the bridges and the vlans.
    unfoldable pub read_virtual :
        (ℕ → Err → Value → Outcome (Err × Interface × Bool))
        → GoMap Value
        → String
        → Reading
        → Outcome Reading
    read_virtual validator defs k s =
        validator s.next s.err (get_or defs k nil) >>= λ (e, i, valid). elim valid [
          | false ↦ ok (record s { err = e; next = suc s.next })
          | true ↦ add_other k k i (record s { err = e; next = suc s.next })
        ]

    -- The four loops.
    unfoldable pub read_all : Netplan → Outcome Reading
    read_all n = each (read_ethernet n.ethernets) (get_names n.ethernets) (opening p n) >>= λ s1.
        each (read_virtual (bond p) n.bonds) (get_names n.bonds) s1 >>= λ s2.
        each (read_virtual (bridge p) n.bridges) (get_names n.bridges) s2 >>= λ s3.
        each (read_virtual (vlan p) n.vlans) (get_names n.vlans) s3

    -- Compile
    unfoldable pub compile_netplan :
        (List String → List String) → Netplan → Outcome (Layout × Option GoError)
    compile_netplan order n = read_all n >>= λ s.
        layout_validate p.gnet (order (keys (layout_of s).interfaces)) (layout_of s)
        >>= λ (l, invalid). ok (l, or_nil (merge s.err invalid))
