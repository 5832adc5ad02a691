-- ===== src/Layout/Validation/Entries.antt =====
-- How the map of interfaces changes in the first loop of Layout.Validate: lists get sorted.
use netwrangler.Base.{
  Option-cases, some_cancel, String, ◌≡◌, refl, sym, ◌∙◌, none, some, ◌↔◌, Memᴰ, arith, inl, inr,
  Bool-cases, eq_iff, ◌==◌, subst,
}
use netwrangler.Sort.Laws.{sort_iff}
use netwrangler.GoMap.{GoMap, get, put, get_or}
use netwrangler.GoMap.Laws.{get-put}
use netwrangler.Layout.{Interface}
use netwrangler.Layout.Members.Ownership.Exclusive.{IsNamed, type_of}
use netwrangler.Layout.Validation.{sorted_entry}

some≢none : {v : Interface} → some v ≡ none → ⊥
some≢none h = cc

-- The same interface, up to the order of its sub interfaces.
pub record SameEntry (v v0 : Interface) : Type 0 where
  pub type : v.type ≡ v0.type
  pub name : v.name ≡ v0.name
  pub network : v.network ≡ v0.network
  pub parameters : v.parameters ≡ v0.parameters
  pub subs : (x : String) → Memᴰ x v.interfaces ↔ Memᴰ x v0.interfaces

pub record SameMap (m m0 : GoMap Interface) : Type 0 where
  pub found :
      (k : String) (v0 : Interface)
      → get k m0 ≡ some v0
      → (v : Interface) × (get k m ≡ some v) × SameEntry v v0
  pub missing : (k : String) → get k m0 ≡ none → get k m ≡ none

SameEntry-refl : (v : Interface) → SameEntry v v
SameEntry-refl v = record {
  type = refl;
  name = refl;
  network = refl;
  parameters = refl;
  subs = λ x. (λ h. h, λ h. h);
}

pub SameMap-refl : (m : GoMap Interface) → SameMap m m
SameMap-refl m = record { found = λ k v0 h. (v0, h, SameEntry-refl v0); missing = λ k h. h }

sorted_entry-SameEntry : (v v0 : Interface) → SameEntry v v0 → SameEntry (sorted_entry v) v0
unfolding sorted_entry
sorted_entry-SameEntry v v0 s = elim (Bool-cases (v.type == "physical")) [
  | inl physical ↦ rw physical s
  | inr virtual ↦ rw virtual (record {
    type = s.type;
    name = s.name;
    network = s.network;
    parameters = s.parameters;
    subs = λ x. ground (arith, sort_iff x v.interfaces, s.subs x);
  })
]

-- What stands in the changed map stood in the first one.
pub SameMap-back :
    {m m0 : GoMap Interface} (k : String) (v : Interface)
    → SameMap m m0
    → get k m ≡ some v
    → (v0 : Interface) × (get k m0 ≡ some v0) × SameEntry v v0
SameMap-back {m} {m0} k v same h = elim (Option-cases (get k m0)) [
  | inl gone ↦ absurd (some≢none (sym h ∙ same.missing k gone))
  | inr (v0, here) ↦
      let (w, there, s) = same.found k v0 here in
      (v0, here, subst (λ x. SameEntry x v0) (some_cancel (sym there ∙ h)) s)
]

pub type_of-SameMap :
    {m m0 : GoMap Interface} (k : String) → SameMap m m0 → type_of m k ≡ type_of m0 k
type_of-SameMap {m} {m0} k same = elim (Option-cases (get k m0)) [
  | inl gone ↦ rw (type_of, get_or, gone, same.missing k gone)
  | inr (v0, here) ↦
      let (v, there, s) = same.found k v0 here in rw (type_of, get_or, here, there) s.type
]

pub SameMap-IsNamed : {m m0 : GoMap Interface} → SameMap m m0 → IsNamed m0 → IsNamed m
SameMap-IsNamed same named k v h =
    let (v0, here, s) = SameMap-back k v same h in s.name ∙ named k v0 here

-- One round writes back one entry, sorted.
pub SameMap-put :
    {m m0 : GoMap Interface} (k : String) (v v0 : Interface)
    → SameMap m m0
    → get k m0 ≡ some v0
    → SameEntry v v0
    → SameMap (put k (sorted_entry v) m) m0
SameMap-put {m} {m0} k v v0 same here s = record {
  found = λ j w0 h. elim (Bool-cases (k == j)) [
    | inl e ↦ (
      sorted_entry v,
      rw (get-put k j (sorted_entry v) m, e),
      subst (SameEntry (sorted_entry v))
          (some_cancel (sym here ∙ subst (λ x. get x m0 ≡ some w0) (sym ((eq_iff k j).0 e)) h))
          (sorted_entry-SameEntry v v0 s),
    )
    | inr d ↦
        let (w, there, t) = same.found j w0 h in
        (w, rw (get-put k j (sorted_entry v) m, d) there, t)
  ];
  missing = λ j h. ground (arith, get-put k j (sorted_entry v) m, eq_iff k j, same.missing j h);
}
