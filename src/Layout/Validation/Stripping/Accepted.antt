-- ===== src/Layout/Validation/Stripping/Accepted.antt =====
-- The networks in an accepted layout.
use mathlib.Core.List.Memᴰ
use netwrangler.Base.{
  ◌||◌, Bool, String, true, false, ◌≡◌, refl, sym, ap, ◌∙◌, none, some, List, [], ◌∷◌, ◌⊎◌, Memᴰ,
  inl, inr, Bool-cases, arith, eq_iff, contains_iff, subst,
}
use mathlib.Core.Bool.{false≢true}
use netwrangler.GoMap.{GoMap, get, get_or, is_some}
use netwrangler.Net.{Gnet}
use netwrangler.Outcome.{ok}
use netwrangler.Layout.{Interface, new_interface, Layout}
use netwrangler.Layout.Members.Ownership.Exclusive.{IsNamed}
use netwrangler.Layout.Validation.{finish, stripped, layout_validate}
use netwrangler.Layout.Validation.Phases.{members}
use netwrangler.Layout.Validation.Entries.{SameMap, SameMap-IsNamed}
use netwrangler.Layout.Validation.Ownership.{swept, looped, members-defined, mem-members, sound}
use netwrangler.Layout.Validation.Stripping.{bare, IsCleared, IsDefined}
use netwrangler.Layout.Validation.Stripping.Loop.{
  strips, strips_at, stripped_by, strip_members-IsCleared,
}

-- A bridge or a bond lists `k`.
pub record Takes (m : GoMap Interface) (k : String) : Type 0 where
  pub owner : String
  pub value : Interface
  pub defined : get owner m ≡ some value
  pub kind : (value.type ≡ "bridge") ⊎ (value.type ≡ "bond")
  pub lists : Memᴰ k value.interfaces

stripped_by-Takes :
    (m m0 : GoMap Interface) (js : List String) (k : String)
    → SameMap m m0
    → ((j : String) → Memᴰ j js → (v : Interface) × (get j m0 ≡ some v))
    → stripped_by m js k ≡ true
    → Takes m0 k
unfolding stripped_by
stripped_by-Takes m m0 [] k same here h = absurd (false≢true h)
stripped_by-Takes m m0 (j ∷ js) k same here h = elim (Bool-cases (strips_at m j k)) [
  | inr other ↦ stripped_by-Takes m m0 js k same (λ i at. here i (Memᴰ.tail at)) (rw other at h)
  | inl takes ↦
      let (v0, there) = here j (Memᴰ.head refl) in
      let (v, now, s) = same.found j v0 there in
      let taken : strips v k ≡ true = rw (now, get_or) at takes in
      record {
        owner = j;
        value = v0;
        defined = there;
        kind = ground (arith, taken, s.type, eq_iff v.type "bridge", eq_iff v.type "bond");
        lists = (s.subs k).0 (ground (arith, taken, contains_iff k v.interfaces));
      }
]

or_true : (b : Bool) → (b || true) ≡ true
or_true true = refl
or_true false = refl

Takes-stripped_by :
    (m m0 : GoMap Interface) (js : List String) (k : String)
    → SameMap m m0
    → (t : Takes m0 k) → Memᴰ t.owner js
    → stripped_by m js k ≡ true
unfolding stripped_by
Takes-stripped_by m m0 [] k same t at = absurd (Memᴰ.not-nil at)
Takes-stripped_by m m0 (j ∷ js) k same t at = elim (Memᴰ.cases_cons at) [
  | inl here ↦
      let (v, now, s) = same.found t.owner t.value t.defined in
      let takes : strips v k ≡ true = ground (
        arith,
        t.kind,
        s.type,
        eq_iff v.type "bridge",
        eq_iff v.type "bond",
        contains_iff k v.interfaces,
        (s.subs k).1 t.lists,
      ) in
      rw (subst (λ i. get i m ≡ some v) here now, get_or, takes) refl
  | inr later ↦ rw (Takes-stripped_by m m0 js k same t later) (or_true (strips_at m j k))
]

module _ (g : Gnet) (order : List String) (l l' : Layout) (named : IsNamed l.interfaces)
    (accepted : layout_validate g order l ≡ ok (l', none)) where
  abbrev pub final : GoMap Interface
  final = (swept g order l named l' accepted).checked.0.interfaces

  pub same : SameMap final l.interfaces
  same = (looped g order l named l' accepted).ready.same

  subs-IsDefined :
      (j : String)
      → Memᴰ j (members g order l)
      → IsDefined (get_or final j new_interface).interfaces final
  subs-IsDefined j at x listed =
      let (v0, here) = members-defined l j at in
      let (v, now, s) = same.found j v0 here in
      let (child, there, allowed) =
        (sound g order l named l' accepted j v0 here).members x
          ((s.subs x).0 (rw (now, get_or) at listed)) in
      let (w, found, _) = same.found x child there in ap is_some found

  pub cleared : IsCleared l'.interfaces final (stripped_by final (members g order l))
  unfolding finish stripped
  cleared =
      subst (λ m. IsCleared m final (stripped_by final (members g order l)))
        (ap (λ x. x.interfaces) (sym (swept g order l named l' accepted).layout))
        (strip_members-IsCleared (members g order l) final (SameMap-IsNamed same named)
          subs-IsDefined)

  pub taken_or_not :
      (k : String)
      → (Takes l.interfaces k × (stripped_by final (members g order l) k ≡ true))
        ⊎ (¬ Takes l.interfaces k × (stripped_by final (members g order l) k ≡ false))
  taken_or_not k = elim (Bool-cases (stripped_by final (members g order l) k)) [
    | inl h ↦
        inl
          (stripped_by-Takes final l.interfaces (members g order l) k same (members-defined l) h, h)
    | inr h ↦ inr (
      λ t. false≢true (
          sym h
          ∙ Takes-stripped_by final l.interfaces (members g order l) k same t
              (mem-members l t.owner t.value t.defined)),
      h,
    )
  ]

  networks :
      (k : String) (v : Interface)
      → get k l.interfaces ≡ some v
      → (v' : Interface) × (get k l'.interfaces ≡ some v')
        × (v'.name ≡ v.name)
        × (v'.type ≡ v.type)
        × (Takes l.interfaces k × (v'.network ≡ none)
            ⊎ ¬ Takes l.interfaces k × (v'.network ≡ v.network))
  networks k v here =
      let (w, now, s) = same.found k v here in
      let after = cleared k in
      elim (taken_or_not k) [
        | inl (t, h) ↦ (bare w, cc (after, h, now), s.name, s.type, inl (t, refl))
        | inr (free, h) ↦ (w, cc (after, h, now), s.name, s.type, inr (free, s.network))
      ]

-- In an accepted layout whose entries carry their keys as names, every interface is still there
-- with its name and type; it has lost its network if a bridge or a bond lists it, and has kept
-- it if none does.
pub layout_validate-networks :
    (g : Gnet) (order : List String) (l l' : Layout) (k : String) (v : Interface)
    → IsNamed l.interfaces
    → layout_validate g order l ≡ ok (l', none)
    → get k l.interfaces ≡ some v
    → (v' : Interface) × (get k l'.interfaces ≡ some v')
      × (v'.name ≡ v.name)
      × (v'.type ≡ v.type)
      × (Takes l.interfaces k × (v'.network ≡ none)
          ⊎ ¬ Takes l.interfaces k × (v'.network ≡ v.network))
layout_validate-networks g order l l' k v named accepted = networks g order l l' named accepted k v
