-- ===== src/Layout/Validation/Ownership.antt =====
-- What an accepted layout looks like, and what Child2Parent records of it.
use mathlib.Core.List.Memᴰ
use netwrangler.Base.{
  String, true, ◌≡◌, ◌≢◌, ap, none, some, List, [], ◌↔◌, Memᴰ, arith, inl, inr, ⊎_elim,
  Option-cases,
}
use netwrangler.Sort.{sort}
use netwrangler.Sort.Laws.{sort_iff}
use netwrangler.GoMap.{get, keys}
use netwrangler.GoMap.Laws.{mem-keys_iff}
use netwrangler.Net.{Gnet}
use netwrangler.Outcome.{ok, each}
use netwrangler.Err.{empty}
use netwrangler.Layout.{Interface, Layout}
use netwrangler.Layout.Members.Ownership.{IsParent}
use netwrangler.Layout.Members.Ownership.Exclusive.{IsNamed, IsExclusive, type_of}
use netwrangler.Layout.Validation.{Checked, validate_member, layout_validate, finish, stripped}
use netwrangler.Layout.Validation.Phases.{start, members, IsSwept, layout_validate_phases}
use netwrangler.Layout.Validation.Entries.{SameMap-refl}
use netwrangler.Layout.Validation.Members.{Owns, IsSound}
use netwrangler.Layout.Validation.Members.Loop.{IsLooped, loop-IsLooped}

pub mem-members :
    (l : Layout) (k : String) (v : Interface)
    → get k l.interfaces ≡ some v
    → Memᴰ k (sort (keys l.interfaces))
mem-members l k v h = ground (arith, sort_iff k (keys l.interfaces), mem-keys_iff k l.interfaces)

pub members-defined :
    (l : Layout) (k : String)
    → Memᴰ k (sort (keys l.interfaces))
    → (v : Interface) × (get k l.interfaces ≡ some v)
members-defined l k m = elim (Option-cases (get k l.interfaces)) [
  | inl gone ↦ absurd (ground (arith, sort_iff k (keys l.interfaces), mem-keys_iff k l.interfaces))
  | inr found ↦ found
]

module _ (g : Gnet) (order : List String) (l : Layout) (named : IsNamed l.interfaces) where
  first_loop-IsLooped :
      (c : Checked)
      → each (validate_member g) (members g order l) (start l) ≡ ok c
      → empty c.1 ≡ true
      → IsLooped g l.interfaces named (members g order l) (start l) c
  unfolding get
  first_loop-IsLooped c e silent =
      loop-IsLooped g l.interfaces named (members g order l) (start l) c (members-defined l) silent
        (record { same = SameMap-refl l.interfaces; filled = λ a h. cc }) e

  module _ (l' : Layout) (accepted : layout_validate g order l ≡ ok (l', none)) where
    pub swept : IsSwept g order l l' none
    swept = elim (layout_validate_phases g order l l' none accepted) [
      | inl r ↦ absurd (cc r.error)
      | inr s ↦ s
    ]

    pub looped : IsLooped g l.interfaces named (members g order l) (start l) swept.checked
    looped = first_loop-IsLooped swept.checked swept.loop swept.passed

    pub parents-same : l'.child2parent ≡ swept.checked.0.child2parent
    unfolding finish swept stripped
    parents-same = ap (λ x. x.child2parent) swept.layout

    -- Child2Parent gives for a child exactly the bonds, bridges and vlans that list it.
    pub parents_iff : (ch q : String) → IsParent l'.child2parent ch q ↔ Owns l.interfaces q ch
    unfolding get
    parents_iff ch q = rw parents-same (
      λ h. ⊎_elim (λ old. absurd (Memᴰ.not-nil old)) (λ new. new.1) ((looped.parents ch q).0 h),
      λ o. (looped.parents ch q).1 (inr (mem-members l q o.owner o.defined, o)),
    )

    no_parents-IsExclusive : IsExclusive l.interfaces []
    unfolding get
    no_parents-IsExclusive c = inl (λ q r h k. absurd (Memᴰ.not-nil h))

    exclusive : IsExclusive l.interfaces l'.child2parent
    exclusive = rw parents-same (looped.exclusive no_parents-IsExclusive)

    one_owner :
        (c q r : String)
        → Owns l.interfaces q c
        → Owns l.interfaces r c
        → type_of l.interfaces q ≢ "vlan"
        → r ≡ q
    one_owner c q r h k other = elim (exclusive c) [
      | inl one ↦ one r q ((parents_iff c r).1 k) ((parents_iff c q).1 h)
      | inr vlans ↦ absurd (other (vlans q ((parents_iff c q).1 h)))
    ]

    pub sound :
        (k : String) (v : Interface) → get k l.interfaces ≡ some v → IsSound g l.interfaces v
    sound k v h = looped.sound k v (mem-members l k v h) h

-- In an accepted layout whose entries carry their keys as names, Child2Parent gives for every
-- child exactly the bonds, bridges and vlans that list it.
pub layout_validate-parents_iff :
    (g : Gnet) (order : List String) (l l' : Layout) (ch q : String)
    → IsNamed l.interfaces
    → layout_validate g order l ≡ ok (l', none)
    → IsParent l'.child2parent ch q ↔ Owns l.interfaces q ch
layout_validate-parents_iff g order l l' ch q named accepted =
    parents_iff g order l named l' accepted ch q

-- In an accepted layout whose entries carry their keys as names, a member of a bond or a bridge
-- has no second owner.
pub layout_validate-one_owner :
    (g : Gnet) (order : List String) (l l' : Layout) (c q r : String)
    → IsNamed l.interfaces
    → layout_validate g order l ≡ ok (l', none)
    → Owns l.interfaces q c
    → Owns l.interfaces r c
    → type_of l.interfaces q ≢ "vlan"
    → r ≡ q
layout_validate-one_owner g order l l' c q r named accepted =
    one_owner g order l named l' accepted c q r

-- In an accepted layout whose entries carry their keys as names, a physical interface lists
-- nothing, and any other has a valid network and lists only defined interfaces of a kind it may
-- be built on: physical ones under a bond, no bridge under a bridge, no vlan under a vlan.
pub layout_validate-IsSound :
    (g : Gnet) (order : List String) (l l' : Layout) (k : String) (v : Interface)
    → IsNamed l.interfaces
    → layout_validate g order l ≡ ok (l', none)
    → get k l.interfaces ≡ some v
    → IsSound g l.interfaces v
layout_validate-IsSound g order l l' k v named accepted = sound g order l named l' accepted k v
