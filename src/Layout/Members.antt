-- ===== src/Layout/Members.antt =====
-- util/layout.go: Interface.validate. Its receiver is a copy of the map's entry, and so is each
-- `child`, whose network the code clears to no effect; what it changes is Child2Parent, which
-- stands here beside the collected errors.
pub mod Steps
pub mod Whole
pub mod Filled
pub mod Ownership
pub mod Total
pub mod Doubling
use netwrangler.Base.{
  String, not, ◌||◌, ◌==◌, Option, none, some, List, [], ◌∷◌, ◌++◌, is_empty, if◌then◌else◌,
}
use netwrangler.Sort.{sort}
use netwrangler.GoMap.{GoMap, get, put, get_or}
use netwrangler.Text.{concat, list_text}
use netwrangler.Net.{Gnet}
use netwrangler.Outcome.{Outcome, ok, panic, ◌>>=◌, each}
use netwrangler.Err.{Err, GoError, new_err, errorf, merge, or_nil}
use netwrangler.Layout.{NetworkRef, Interface, new_interface}
use netwrangler.Layout.Networks.{network_validate}

abbrev pub Parents : Type 0
Parents = GoMap (List String)

pub record Progress : Type 0 where
  pub err : Err
  pub parents : Parents

abbrev pub report : Progress → List String → Progress
report p pieces = record p { err = errorf p.err pieces }

-- `%s:%s` at an interface's type and name
abbrev pub label : Interface → List String → List String
label i rest = i.type ∷ ":" ∷ i.name ∷ rest

-- The first switch: the message if `i` cannot be built on `child`.
unfoldable pub kind_check : Interface → Interface → Outcome (Option (List String))
kind_check i child =
    if i.type == "bond"
    then (if child.type == "physical"
        then ok none
        else ok (
            some (
              label i (" refers to " ∷ label child (", which is not a physical interface." ∷ [])))))
    else if i.type == "bridge"
    then (if child.type == "bridge"
        then ok (some (label i (" cannot be built on " ∷ label child [])))
        else ok none)
    else if i.type == "vlan"
    then (if child.type == "vlan"
        then ok (some (label i (" cannot be built on " ∷ label child [])))
        else ok none)
    else panic (concat ("Cannot happen handling " ∷ label child (" -> " ∷ label i [])))

abbrev pub owned_message : Interface → Interface → Interface → List String
owned_message i child other =
    label child (" is already owned by " ∷ label other (", it canot be a member of " ∷ label i []))

module _ (interfaces : GoMap Interface) (i : Interface) where
  -- The body of the loop over the names that own the child already.
  unfoldable pub claim : Interface → String → Progress → Outcome Progress
  claim child other_name p =
      let other = get_or interfaces other_name new_interface in
      if i.type == "bridge" || i.type == "bond"
      then ok (report p (owned_message i child other))
      else if i.type == "vlan"
      then (if not (other.type == "vlan")
          then ok (report p (owned_message i child other))
          else ok (record p {
            parents =
                put child.name (sort (get_or p.parents child.name [] ++ i.name ∷ [])) p.parents;
          }))
      else panic (concat ("Cannot happen handling " ∷ label child (" <-> " ∷ label other [])))

  unfoldable pub add_parent : Interface → String → Progress → Outcome Progress
  add_parent child name p = elim (get name p.parents) [
    | none ↦ ok (record p { parents = put name (i.name ∷ []) p.parents })
    | some others ↦ each (claim child) others p
  ]

  unfoldable pub verdict : Interface → String → Progress → Option (List String) → Outcome Progress
  verdict child name p none = add_parent child name p
  verdict child name p (some pieces) = ok (report p pieces)

  -- The body of the loop over the sub interfaces.
  unfoldable pub sub_step : String → Progress → Outcome Progress
  sub_step name p = elim (get name interfaces) [
    | none ↦ ok (report p (label i (" refers to undefined sub interface " ∷ name ∷ [])))
    | some child ↦ kind_check i child >>= verdict child name p
  ]

module _ (g : Gnet) where
  unfoldable pub network_merge : Err → Option NetworkRef → Err
  network_merge e none = e
  network_merge e (some n) = merge e (network_validate g n.value)

  -- Interface.validate
  unfoldable pub interface_validate :
      GoMap Interface → Interface → Parents → Outcome (Option GoError × Parents)
  interface_validate interfaces i parents =
      let e = new_err (concat (i.type ∷ ":" ∷ i.match_id ∷ [])) in
      if i.type == "physical"
      then (if not (is_empty i.interfaces)
          then ok (
            or_nil (
                errorf e
                  (label i (" must not refer to sub interfaces " ∷ list_text i.interfaces ∷ []))),
            parents,
          )
          else ok (or_nil e, parents))
      else each (sub_step interfaces i) (sort i.interfaces)
          (record { err = network_merge e i.network; parents = parents })
        >>= λ p. ok (or_nil p.err, p.parents)
