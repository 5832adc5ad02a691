-- ===== src/Layout/Validation.antt =====
-- util/layout.go: Layout.Validate. The order in which Go ranges over the map of interfaces in the
-- last loop is a parameter, any list of its keys. Sorting in place reaches the array that the
-- copied interface shares with the map's entry, so `sorted_entry` writes it back.
pub mod Phases
pub mod Entries
pub mod Members
pub mod Ownership
pub mod Roots
pub mod Acyclic
pub mod Stripping
pub mod Total
use netwrangler.Base.{
  String, not, ◌&&◌, ◌||◌, ◌==◌, Option, none, some, List, [], ◌∷◌, ◌++◌, suc, length, is_empty,
  if◌then◌else◌,
}
use netwrangler.Sort.{sort}
use netwrangler.GoMap.{GoMap, put, keys, has, get_or}
use netwrangler.Net.{Gnet}
use netwrangler.Outcome.{Outcome, ok, ◌>>=◌, each}
use netwrangler.Err.{Err, GoError, new_err, empty, merge, or_nil, collected}
use netwrangler.Layout.{Interface, new_interface, Layout}
use netwrangler.Layout.Members.{Parents, interface_validate}
use netwrangler.Layout.Cycles.{Search, cyclic}

unfoldable pub sorted_entry : Interface → Interface
sorted_entry v = if v.type == "physical" then v else record v { interfaces = sort v.interfaces }

abbrev pub Checked : Type 0
Checked = Layout × Err

module _ (g : Gnet) where
  -- The body of the first loop over the members.
  unfoldable pub validate_member : String → Checked → Outcome Checked
  validate_member k (l, e) =
      let v = get_or l.interfaces k new_interface in
      interface_validate g l.interfaces v l.child2parent >>= λ (other, parents). ok (
        record l { interfaces = put k (sorted_entry v) l.interfaces; child2parent = parents },
        merge e other,
      )

-- `child.Network = nil; l.Interfaces[child.Name] = child`
unfoldable pub strip_child : GoMap Interface → String → GoMap Interface
strip_child interfaces name =
    let child = get_or interfaces name new_interface in
    put child.name (record child { network = none }) interfaces

strip_children : List String → GoMap Interface → GoMap Interface
unfolding strip_child
strip_children [] interfaces = interfaces
strip_children (name ∷ names) interfaces = strip_children names (strip_child interfaces name)

-- The body of the second loop: the members of a bridge or a bond lose their networks.
unfoldable pub strip_member : String → GoMap Interface → GoMap Interface
unfolding strip_children
strip_member k interfaces =
    let v = get_or interfaces k new_interface in
    if (v.type == "bridge" || v.type == "bond") && not (is_empty v.interfaces)
    then strip_children v.interfaces interfaces
    else interfaces

unfoldable pub strip_members : List String → GoMap Interface → GoMap Interface
unfolding strip_member
strip_members [] interfaces = interfaces
strip_members (k ∷ ks) interfaces = strip_members ks (strip_member k interfaces)

pub record Sweep : Type 0 where
  pub roots : List String
  pub search : Search

-- The body of the last loop.
unfoldable pub sweep_step : Parents → String → Sweep → Outcome Sweep
sweep_step parents k s =
    let roots = if has k parents then s.roots else s.roots ++ k ∷ [] in
    cyclic parents (suc (length (keys parents))) [] k s.search >>= λ search.
    ok (record { roots = roots; search = search })

unfoldable pub finish : Layout → Sweep → Layout × Option GoError
finish l s = (record l { roots = sort s.roots }, or_nil s.search.err)

-- The layout once its bridges and bonds own their members.
unfoldable pub stripped : List String → Layout → Layout
stripped members l = record l { interfaces = strip_members members l.interfaces }

-- What follows the first loop.
unfoldable pub validate_rest :
    List String → List String → Checked → Outcome (Layout × Option GoError)
validate_rest members order (l, e) =
    if not (empty e)
    then ok (l, some (collected e))
    else each (sweep_step l.child2parent) order
        (record { roots = l.roots; search = record { clean = []; err = e } })
      >>= λ s. ok (finish (stripped members l) s)

-- Layout.Validate
unfoldable pub layout_validate : Gnet → List String → Layout → Outcome (Layout × Option GoError)
layout_validate g order l =
    let members = sort (keys l.interfaces) in
    each (validate_member g) members (record l { child2parent = [] }, new_err "layout")
    >>= validate_rest members order
