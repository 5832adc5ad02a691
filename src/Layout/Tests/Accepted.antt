-- ===== src/Layout/Tests/Accepted.antt =====
-- A layout that Layout.Validate accepts, and its theorems there.
use mathlib.Core.List.{Perm}
use netwrangler.Base.{
  String, refl, none, some, List, [], ◌∷◌, ◌≡◌, ◌↔◌, ◌⊎◌, Memᴰ, inl, inr, Option,
}
use netwrangler.Sort.Laws.{IsSorted}
use netwrangler.GoMap.{get, keys}
use netwrangler.Outcome.{ok}
use netwrangler.Err.{GoError}
use netwrangler.Layout.{Layout, Interface}
use netwrangler.Layout.Members.Ownership.{IsParent}
use mathlib.Core.List.Perm
use netwrangler.Layout.Members.Ownership.Exclusive.{IsNamed}
use netwrangler.Layout.Cycles.Graph.{IsTrapped}
use netwrangler.Layout.Validation.{layout_validate}
use netwrangler.Layout.Validation.Members.{Owns, IsSound}
use netwrangler.Layout.Validation.Ownership.{
  layout_validate-parents_iff, layout_validate-one_owner, layout_validate-IsSound,
}
use netwrangler.Layout.Validation.Stripping.Accepted.{Takes, layout_validate-networks}
use netwrangler.Layout.Validation.Roots.Found.{layout_validate-roots_iff}
use netwrangler.Layout.Validation.Roots.Order.{layout_validate-order_irrelevant}
use netwrangler.Layout.Validation.Total.{IsTyped, layout_validate-returns}
use netwrangler.Layout.Validation.Acyclic.{layout_validate-not-IsTrapped}
use netwrangler.Layout.Tests.{
  stack_members, entries_of-IsTyped, plain_net, stack, stack_order, member, entries_of,
  entries_of-IsNamed, program, with_net, static_net,
}

abbrev pub after : Layout
after = record {
  interfaces = entries_of (
      with_net static_net (member "bridge" "br" ("bo" ∷ []))
      ∷ member "vlan" "v2" ("br" ∷ [])
      ∷ member "bond" "bo" ("e1" ∷ "e2" ∷ [])
      ∷ member "physical" "e1" []
      ∷ member "vlan" "v1" ("br" ∷ [])
      ∷ member "physical" "e2" []
      ∷ []);
  child2parent =
      ("e1", "bo" ∷ []) ∷ ("e2", "bo" ∷ []) ∷ ("bo", "br" ∷ []) ∷ ("br", "v1" ∷ "v2" ∷ []) ∷ [];
  roots = "v1" ∷ "v2" ∷ [];
}

pub stack_accepted : layout_validate plain_net stack_order stack ≡ ok (after, none)
unfolding program
stack_accepted = refl

pub stack-IsNamed : IsNamed stack.interfaces
stack-IsNamed = entries_of-IsNamed stack_members

pub stack-IsTyped : IsTyped stack.interfaces
stack-IsTyped = entries_of-IsTyped stack_members (
  inr (inr (inl refl)),
  (inr (inr (inr refl)), (inr (inl refl), (inl refl, (inr (inr (inr refl)), (inl refl, tt))))),
)

-- The bond of the layout, and that it is there.
abbrev stack_bond : Interface
stack_bond = with_net static_net (member "bond" "bo" ("e2" ∷ "e1" ∷ []))

bond_found : get "bo" stack.interfaces ≡ some stack_bond
unfolding get
bond_found = refl

br-Owns : Owns stack.interfaces "br" "bo"
unfolding get
br-Owns = record {
  owner = with_net static_net (member "bridge" "br" ("bo" ∷ []));
  defined = refl;
  virtual = λ e. cc;
  lists = Memᴰ.head refl;
}

abbrev other_order : List String
other_order = "v2" ∷ "br" ∷ "bo" ∷ "e1" ∷ "v1" ∷ "e2" ∷ []

other_order-Perm : Perm stack_order other_order
other_order-Perm = Perm.swap "v2" "br" ("bo" ∷ "e1" ∷ "v1" ∷ "e2" ∷ [])

other_accepted : layout_validate plain_net other_order stack ≡ ok (after, none)
unfolding program
other_accepted = refl

pub ranged : (k : String) → Memᴰ k stack_order ↔ Memᴰ k (keys stack.interfaces)
unfolding keys
ranged k = (λ m. m, λ m. m)

e1_ranged : Memᴰ "e1" stack_order
e1_ranged = Memᴰ.tail (Memᴰ.tail (Memᴰ.tail (Memᴰ.head refl)))

layout_validate-one_owner_example : ◌≡◌ {A = String} "br" "br"
unfolding get
layout_validate-one_owner_example =
    layout_validate-one_owner plain_net stack_order stack after "bo" "br" "br" stack-IsNamed
      stack_accepted br-Owns br-Owns (λ e. cc)

layout_validate-parents_iff_example :
    IsParent after.child2parent "e1" "bo" ↔ Owns stack.interfaces "bo" "e1"
layout_validate-parents_iff_example =
    layout_validate-parents_iff plain_net stack_order stack after "e1" "bo" stack-IsNamed
      stack_accepted

layout_validate-IsSound_example : IsSound plain_net stack.interfaces stack_bond
layout_validate-IsSound_example =
    layout_validate-IsSound plain_net stack_order stack after "bo" stack_bond stack-IsNamed
      stack_accepted bond_found

layout_validate-networks_example :
    (v' : Interface) × (get "bo" after.interfaces ≡ some v')
    × (v'.name ≡ "bo")
    × (v'.type ≡ "bond")
    × (Takes stack.interfaces "bo" × (v'.network ≡ none)
        ⊎ ¬ Takes stack.interfaces "bo" × (v'.network ≡ stack_bond.network))
layout_validate-networks_example =
    layout_validate-networks plain_net stack_order stack after "bo" stack_bond stack-IsNamed
      stack_accepted bond_found

layout_validate-roots_iff_example :
    IsSorted after.roots
    × ((k : String)
        → Memᴰ k after.roots
          ↔ (Memᴰ k (keys stack.interfaces) × ((q : String) → ¬ Owns stack.interfaces q k)))
layout_validate-roots_iff_example =
    layout_validate-roots_iff plain_net stack_order stack after stack-IsNamed refl ranged
      stack_accepted

layout_validate-order_irrelevant_example : after ≡ after
layout_validate-order_irrelevant_example =
    layout_validate-order_irrelevant plain_net stack_order other_order stack after after none none
      other_order-Perm stack_accepted other_accepted

layout_validate-returns_example :
    (r : Layout × Option GoError) × (layout_validate plain_net stack_order stack ≡ ok r)
layout_validate-returns_example = layout_validate-returns plain_net stack_order stack stack-IsTyped

layout_validate-not-IsTrapped_example : ¬ IsTrapped after.child2parent "e1"
layout_validate-not-IsTrapped_example =
    layout_validate-not-IsTrapped plain_net stack_order stack after "e1" stack-IsNamed
      stack_accepted e1_ranged
