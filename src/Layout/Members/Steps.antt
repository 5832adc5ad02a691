-- ===== src/Layout/Members/Steps.antt =====
-- What one round of the loops of Interface.validate has done, by cases.
use netwrangler.Base.{
  String, false, ◌≡◌, ◌≢◌, sym, ap, ◌∙◌, Option, none, some, List, [], ◌∷◌, ◌++◌, eq_iff, ◌⊎◌,
  arith, Option-cases, inl, inr,
}
use netwrangler.Sort.{sort}
use netwrangler.GoMap.{GoMap, get, put, get_or}
use netwrangler.Outcome.{ok, each, >>=-eq-ok, ok-injective}
use netwrangler.Err.{empty}
use netwrangler.Err.Laws.{empty-errorf}
use netwrangler.Layout.{Interface, new_interface}
use netwrangler.Layout.Members.{
  Progress, owned_message, kind_check, claim, add_parent, verdict, sub_step,
}

-- An error was added, and nothing else changed.
pub record IsReported (p p' : Progress) : Type 0 where
  pub nonempty : empty p'.err ≡ false
  pub same : p'.parents ≡ p.parents

-- Which interfaces may be built on which.
abbrev pub IsAllowed : Interface → Interface → Type 0
IsAllowed i child =
    (i.type ≡ "bond") × (child.type ≡ "physical")
    ⊎ (i.type ≡ "bridge") × (child.type ≢ "bridge")
    ⊎ (i.type ≡ "vlan") × (child.type ≢ "vlan")

kind_check_cases :
    (i child : Interface) (r : Option (List String))
    → kind_check i child ≡ ok r
    → ((pieces : List String) × (r ≡ some pieces)) ⊎ (r ≡ none) × IsAllowed i child
unfolding kind_check
kind_check_cases i child r h = ground (
  arith,
  eq_iff i.type "bond",
  eq_iff i.type "bridge",
  eq_iff i.type "vlan",
  eq_iff child.type "physical",
  eq_iff child.type "bridge",
  eq_iff child.type "vlan",
)

module _ (interfaces : GoMap Interface) (i : Interface) where
  -- `i` joins the vlans on a child that another vlan owns.
  pub record IsShared (child : Interface) (other_name : String) (p p' : Progress) : Type 0 where
    pub vlan : i.type ≡ "vlan"
    pub other_vlan : (get_or interfaces other_name new_interface).type ≡ "vlan"
    pub err : p'.err ≡ p.err
    pub parents :
        p'.parents ≡ put child.name (sort (get_or p.parents child.name [] ++ i.name ∷ [])) p.parents

  pub claim_cases :
      (child : Interface) (other_name : String) (p p' : Progress)
      → claim interfaces i child other_name p ≡ ok p'
      → IsReported p p' ⊎ IsShared child other_name p p'
  unfolding claim
  claim_cases child other_name p p' h =
      let other = get_or interfaces other_name new_interface in
      ground (
        arith,
        eq_iff i.type "vlan",
        eq_iff other.type "vlan",
        empty-errorf p.err (owned_message i child other),
      )

  -- `name` gets its first parent.
  pub record IsFirst (name : String) (p p' : Progress) : Type 0 where
    pub fresh : get name p.parents ≡ none
    pub err : p'.err ≡ p.err
    pub parents : p'.parents ≡ put name (i.name ∷ []) p.parents

  pub record IsClaimed (child : Interface) (name : String) (p p' : Progress) : Type 0 where
    pub others : List String
    pub owned : get name p.parents ≡ some others
    pub claims : each (claim interfaces i child) others p ≡ ok p'

  add_parent_cases :
      (child : Interface) (name : String) (p p' : Progress)
      → add_parent interfaces i child name p ≡ ok p'
      → IsFirst name p p' ⊎ IsClaimed child name p p'
  unfolding add_parent
  add_parent_cases child name p p' h = elim (Option-cases (get name p.parents)) [
    | inl fresh ↦
        let first = ok-injective (rw (fresh, add_parent) at h) in
        inl (record {
          fresh = fresh;
          err = ap (λ q. q.err) (sym first);
          parents = ap (λ q. q.parents) (sym first);
        })
    | inr (others, owned) ↦
        inr (record { others = others; owned = owned; claims = rw (owned, add_parent) at h })
  ]

  -- A sub interface that is there, may be built on, and has been given its parent.
  pub record IsAdded (name : String) (p p' : Progress) : Type 0 where
    pub child : Interface
    pub defined : get name interfaces ≡ some child
    pub allowed : IsAllowed i child
    pub added : IsFirst name p p' ⊎ IsClaimed child name p p'

  pub sub_step_cases :
      (name : String) (p p' : Progress)
      → sub_step interfaces i name p ≡ ok p'
      → IsReported p p' ⊎ IsAdded name p p'
  unfolding sub_step verdict
  sub_step_cases name p p' h = elim (Option-cases (get name interfaces)) [
    | inl undefined ↦
        let text = i.type ∷ ":" ∷ i.name ∷ " refers to undefined sub interface " ∷ name ∷ [] in
        let done = ok-injective (rw (undefined, sub_step) at h) in
        inl (record {
          nonempty = ap (λ q. empty q.err) (sym done) ∙ empty-errorf p.err text;
          same = ap (λ q. q.parents) (sym done);
        })
    | inr (child, defined) ↦
        let (r, checked, rest) =
          >>=-eq-ok (kind_check i child) (verdict interfaces i child name p)
            (rw (defined, sub_step) at h) in
        elim (kind_check_cases i child r checked) [
          | inl (pieces, refused) ↦
              let done = ok-injective (rw (refused, verdict) at rest) in
              inl (record {
                nonempty = ap (λ q. empty q.err) (sym done) ∙ empty-errorf p.err pieces;
                same = ap (λ q. q.parents) (sym done);
              })
          | inr (passed, allowed) ↦ inr (record {
            child = child;
            defined = defined;
            allowed = allowed;
            added = add_parent_cases child name p p' (rw (passed, verdict) at rest);
          })
        ]
  ]
