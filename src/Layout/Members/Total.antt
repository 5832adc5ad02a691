-- ===== src/Layout/Members/Total.antt =====
-- Whether Interface.validate returns.
use netwrangler.Base.{
  ◌==◌, String, false, ◌≡◌, refl, Option, none, some, List, ◌⊎◌, inl, inr, Option-cases, Bool-cases,
  is_empty,
}
use netwrangler.Sort.{sort}
use netwrangler.GoMap.{GoMap, get, get_or}
use netwrangler.Net.{Gnet}
use netwrangler.Outcome.{ok, each_returns}
use netwrangler.Err.{GoError}
use netwrangler.Layout.{Interface, new_interface}
use netwrangler.Layout.Members.{
  Parents, Progress, kind_check, claim, add_parent, verdict, sub_step, interface_validate,
}
use netwrangler.Layout.Members.Whole.{first_progress}

-- The kinds that are built on other interfaces, and all kinds.
abbrev pub IsVirtualKind : String → Type 0
IsVirtualKind type = (type ≡ "bond") ⊎ (type ≡ "bridge") ⊎ (type ≡ "vlan")

abbrev pub IsKind : String → Type 0
IsKind type = (type ≡ "physical") ⊎ IsVirtualKind type

kind_check_returns :
    (i child : Interface)
    → IsVirtualKind i.type
    → (r : Option (List String)) × (kind_check i child ≡ ok r)
unfolding kind_check
kind_check_returns i child (inl bond) = elim (Bool-cases (child.type == "physical")) [
  | inl k ↦ rw (bond, k) (_, refl)
  | inr k ↦ rw (bond, k) (_, refl)
]
kind_check_returns i child (inr (inl bridge)) = elim (Bool-cases (child.type == "bridge")) [
  | inl k ↦ rw (bridge, k) (_, refl)
  | inr k ↦ rw (bridge, k) (_, refl)
]
kind_check_returns i child (inr (inr vlan)) = elim (Bool-cases (child.type == "vlan")) [
  | inl k ↦ rw (vlan, k) (_, refl)
  | inr k ↦ rw (vlan, k) (_, refl)
]

module _ (interfaces : GoMap Interface) (i : Interface) (kind : IsVirtualKind i.type) where
  claim_returns :
      (child : Interface) (other_name : String) (p : Progress)
      → (p' : Progress) × (claim interfaces i child other_name p ≡ ok p')
  unfolding claim
  claim_returns child other_name p = go kind
    where
      go : IsVirtualKind i.type → (p' : Progress) × (claim interfaces i child other_name p ≡ ok p')
      go (inl bond) = rw bond (_, refl)
      go (inr (inl bridge)) = rw bridge (_, refl)
      go (inr (inr vlan)) =
          elim (Bool-cases ((get_or interfaces other_name new_interface).type == "vlan")) [
            | inl k ↦ rw (vlan, k) (_, refl)
            | inr k ↦ rw (vlan, k) (_, refl)
          ]

  verdict_returns :
      (child : Interface) (name : String) (p : Progress) (r : Option (List String))
      → (p' : Progress) × (verdict interfaces i child name p r ≡ ok p')
  unfolding verdict add_parent
  verdict_returns child name p (some pieces) = (_, refl)
  verdict_returns child name p none = elim (Option-cases (get name p.parents)) [
    | inl fresh ↦ rw (fresh, verdict, add_parent) (_, refl)
    | inr (others, owned) ↦
        let (p', e) = each_returns (claim interfaces i child) (claim_returns child) others p in
        rw (owned, verdict, add_parent) (p', e)
  ]

  sub_step_returns :
      (name : String) (p : Progress) → (p' : Progress) × (sub_step interfaces i name p ≡ ok p')
  unfolding sub_step
  sub_step_returns name p = elim (Option-cases (get name interfaces)) [
    | inl undefined ↦ rw (undefined, sub_step) (_, refl)
    | inr (child, defined) ↦
        let (r, checked) = kind_check_returns i child kind in
        let (p', e) = verdict_returns child name p r in rw (defined, checked, sub_step) (p', e)
  ]

-- Interface.validate returns for an interface of one of the four kinds, whatever it lists.
pub interface_validate-returns :
    (g : Gnet) (interfaces : GoMap Interface) (i : Interface) (parents : Parents)
    → IsKind i.type
    → (r : Option GoError × Parents) × (interface_validate g interfaces i parents ≡ ok r)
unfolding interface_validate
interface_validate-returns g interfaces i parents (inl physical) =
    elim (Bool-cases (is_empty i.interfaces)) [
      | inl bare ↦ rw (physical, bare) (_, refl)
      | inr full ↦ rw (physical, full) (_, refl)
    ]
interface_validate-returns g interfaces i parents (inr kind) =
    let (p, loop) =
      each_returns (sub_step interfaces i) (sub_step_returns interfaces i kind) (sort i.interfaces)
        (first_progress g interfaces i parents) in
    rw (not_physical kind, loop) (_, refl)
  where
    not_physical : IsVirtualKind i.type → (i.type == "physical") ≡ false
    not_physical (inl bond) = rw bond refl
    not_physical (inr (inl bridge)) = rw bridge refl
    not_physical (inr (inr vlan)) = rw vlan refl
