-- ===== src/Layout/Members/Ownership/Exclusive.antt =====
-- One round of Interface.validate's loop over the sub interfaces, and the whole loop.
use mathlib.Core.Bool.{false≢true}
use mathlib.Core.List.Memᴰ
use netwrangler.Base.{
  String, true, ◌≡◌, ◌≢◌, sym, ap, ◌∙◌, some, List, [], ◌∷◌, eq_iff, ◌⊎◌, Memᴰ-cons, arith,
  str_cases, inl, inr, subst, ⊎_elim,
}
use netwrangler.GoMap.{GoMap, get, get_or}
use netwrangler.GoMap.Laws.{get_or-put}
use netwrangler.Outcome.{ok, each}
use netwrangler.Err.{empty}
use netwrangler.Layout.{Interface, new_interface}
use netwrangler.Layout.Members.{Parents, Progress, claim, sub_step}
use netwrangler.Layout.Members.Steps.{IsFirst, IsAllowed, sub_step_cases}
use netwrangler.Layout.Members.Filled.{IsFilled}
use netwrangler.Layout.Members.Ownership.{IsParent, Gains, AreVlans, claims-Gains}

-- Every entry of the map carries its key as its name.
abbrev pub IsNamed : GoMap Interface → Type 0
IsNamed m = (k : String) (v : Interface) → get k m ≡ some v → v.name ≡ k

abbrev pub type_of : GoMap Interface → String → String
type_of m k = (get_or m k new_interface).type

-- A child has one parent at most, or its parents are vlans.
abbrev pub IsExclusive : GoMap Interface → Parents → Type 0
IsExclusive m parents =
    (c : String)
    → ((q r : String) → IsParent parents c q → IsParent parents c r → q ≡ r)
      ⊎ ((q : String) → IsParent parents c q → type_of m q ≡ "vlan")

module _ (m : GoMap Interface) (i : Interface) (named : IsNamed m)
    (entry : get i.name m ≡ some i) where
  first-Gains :
      (name : String) (p p' : Progress)
      → empty p'.err ≡ true
      → IsFirst m i name p p'
      → Gains i p p' (λ c. c ≡ name)
  first-Gains name p p' silent f = record {
    silent = rw f.err at silent;
    gains = λ c q. rw f.parents (
        ground (
          arith,
          get_or-put name c (i.name ∷ []) [] p.parents,
          eq_iff name c,
          f.fresh,
          Memᴰ-cons q i.name [],
          Memᴰ.not-nil {a = q},
        ));
  }

  -- A child other than `name` keeps its parents.
  elsewhere :
      (name c : String) (p p' : Progress)
      → Gains i p p' (λ c. c ≡ name)
      → c ≢ name
      → (q : String) → IsParent p'.parents c q
      → IsParent p.parents c q
  elsewhere name c p p' g other q h =
      ⊎_elim (λ old. old) (λ new. absurd (other new.1)) ((g.gains c q).0 h)

  elsewhere-Exclusive :
      (name c : String) (p p' : Progress)
      → Gains i p p' (λ c. c ≡ name)
      → c ≢ name
      → IsExclusive m p.parents
      → ((q r : String) → IsParent p'.parents c q → IsParent p'.parents c r → q ≡ r)
        ⊎ ((q : String) → IsParent p'.parents c q → type_of m q ≡ "vlan")
  elsewhere-Exclusive name c p p' g other ex = elim (ex c) [
    | inl one ↦ inl (λ q r hq hr. one q r (back q hq) (back r hr))
    | inr vlans ↦ inr (λ q hq. vlans q (back q hq))
  ]
    where
      back : (q : String) → IsParent p'.parents c q → IsParent p.parents c q
      back = elsewhere name c p p' g other

  first-Exclusive :
      (name : String) (p p' : Progress)
      → Gains i p p' (λ c. c ≡ name)
      → IsFirst m i name p p'
      → IsExclusive m p.parents
      → IsExclusive m p'.parents
  first-Exclusive name p p' g f ex c = elim (str_cases c name) [
    | inl same ↦ inl (λ q r hq hr.
        only q (subst (λ x. IsParent p'.parents x q) same hq)
        ∙ sym (only r (subst (λ x. IsParent p'.parents x r) same hr)))
    | inr other ↦ elsewhere-Exclusive name c p p' g other ex
  ]
    where
      only : (q : String) → IsParent p'.parents name q → q ≡ i.name
      only q h =
          ⊎_elim (λ old. absurd (Memᴰ.not-nil (rw (f.fresh, get_or) at old))) (λ new. new.0)
            ((g.gains name q).0 h)

  claimed-Exclusive :
      (name : String) (others : List String) (p p' : Progress)
      → Gains i p p' (λ c. c ≡ name)
      → get name p.parents ≡ some others
      → AreVlans m i others
      → IsExclusive m p.parents
      → IsExclusive m p'.parents
  claimed-Exclusive name others p p' g owned vlans ex c = elim (str_cases c name) [
    | inl same ↦ inr (λ q hq. all_vlans q (subst (λ x. IsParent p'.parents x q) same hq))
    | inr other ↦ elsewhere-Exclusive name c p p' g other ex
  ]
    where
      all_vlans : (q : String) → IsParent p'.parents name q → type_of m q ≡ "vlan"
      all_vlans q h =
          ⊎_elim (λ old. vlans.other_vlans q (rw (owned, get_or) at old))
            (λ new. ap (type_of m) new.0 ∙ (rw (entry, get_or, type_of) vlans.vlan))
            ((g.gains name q).0 h)

  -- A round that reports nothing: the child is there and may be built on, it has `i` for a parent
  -- now, and ownership stays exclusive.
  pub record IsKept (name : String) (p p' : Progress) : Type 0 where
    pub gains : Gains i p p' (λ c. c ≡ name)
    pub child : Interface
    pub defined : get name m ≡ some child
    pub allowed : IsAllowed i child
    pub exclusive : IsExclusive m p.parents → IsExclusive m p'.parents

  claimed-IsKept :
      (name : String) (p p' : Progress) (child : Interface)
      → empty p'.err ≡ true
      → IsFilled p.parents
      → get name m ≡ some child
      → IsAllowed i child
      → (others : List String) → get name p.parents ≡ some others
      → each (claim m i child) others p ≡ ok p'
      → IsKept name p p'
  claimed-IsKept name p p' child silent filled defined allowed [] owned claims =
      absurd (filled name owned)
  claimed-IsKept name p p' child silent filled defined allowed (o ∷ os) owned claims =
      let (g, vlans) = claims-Gains m i child o os p p' silent claims in
      let g' : Gains i p p' (λ c. c ≡ name) =
        subst (λ x. Gains i p p' (λ c. c ≡ x)) (named name child defined) g in
      record {
        gains = g';
        child = child;
        defined = defined;
        allowed = allowed;
        exclusive = claimed-Exclusive name (o ∷ os) p p' g' owned vlans;
      }

  pub sub_step-IsKept :
      (name : String) (p p' : Progress)
      → empty p'.err ≡ true
      → IsFilled p.parents
      → sub_step m i name p ≡ ok p'
      → IsKept name p p'
  sub_step-IsKept name p p' silent filled e = elim (sub_step_cases m i name p p' e) [
    | inl r ↦ absurd (false≢true (sym r.nonempty ∙ silent))
    | inr a ↦ elim a.added [
      | inl f ↦
          let g = first-Gains name p p' silent f in
          record {
            gains = g;
            child = a.child;
            defined = a.defined;
            allowed = a.allowed;
            exclusive = first-Exclusive name p p' g f;
          }
      | inr c ↦
          claimed-IsKept name p p' a.child silent filled a.defined a.allowed c.others c.owned
            c.claims
    ]
  ]
