-- ===== src/Layout/Members/Filled.antt =====
-- Child2Parent never holds an empty list.
use mathlib.Core.List.Memᴰ
use netwrangler.Base.{
  String, ◌≡◌, ◌≢◌, refl, Option, some, List, [], ◌∷◌, ◌++◌, Memᴰ, arith, inl, inr, subst,
}
use netwrangler.Sort.{sort}
use netwrangler.Sort.Laws.{sort_iff}
use netwrangler.GoMap.{GoMap, get, put, get_or}
use netwrangler.GoMap.Laws.{get-put}
use netwrangler.Outcome.{ok, each_inv}
use netwrangler.Layout.{Interface}
use netwrangler.Layout.Members.{Parents, Progress, claim, sub_step, interface_validate}
use netwrangler.Layout.Members.Steps.{claim_cases, sub_step_cases}
use netwrangler.Layout.Members.Whole.{first_progress, interface_validate_cases}
use netwrangler.Err.{GoError}
use netwrangler.Net.{Gnet}

abbrev pub IsFilled : Parents → Type 0
IsFilled parents = (a : String) → get a parents ≢ some []

sort_snoc-ne-nil : (xs : List String) (x : String) → sort (xs ++ x ∷ []) ≢ []
sort_snoc-ne-nil xs x e =
    Memᴰ.not-nil
      (subst (Memᴰ x) e ((sort_iff x (xs ++ x ∷ [])).1 (Memᴰ.append_right xs (Memᴰ.head refl))))

put-IsFilled :
    (parents : Parents) (k : String) (v : List String)
    → IsFilled parents
    → v ≢ []
    → IsFilled (put k v parents)
put-IsFilled parents k v filled some_v a e = ground (arith, get-put k a v parents, filled a)

module _ (interfaces : GoMap Interface) (i : Interface) where
  claim-IsFilled :
      (child : Interface) (other_name : String) (p p' : Progress)
      → IsFilled p.parents
      → claim interfaces i child other_name p ≡ ok p'
      → IsFilled p'.parents
  claim-IsFilled child other_name p p' filled e =
      elim (claim_cases interfaces i child other_name p p' e) [
        | inl r ↦ rw r.same filled
        | inr s ↦ rw s.parents (
            put-IsFilled p.parents child.name _ filled
              (sort_snoc-ne-nil (get_or p.parents child.name []) i.name))
      ]

  pub sub_step-IsFilled :
      (name : String) (p p' : Progress)
      → IsFilled p.parents
      → sub_step interfaces i name p ≡ ok p'
      → IsFilled p'.parents
  sub_step-IsFilled name p p' filled e = elim (sub_step_cases interfaces i name p p' e) [
    | inl r ↦ rw r.same filled
    | inr a ↦ elim a.added [
      | inl f ↦ rw f.parents (put-IsFilled p.parents name (i.name ∷ []) filled (λ e. cc))
      | inr c ↦
          each_inv (claim interfaces i a.child) (λ q. IsFilled q.parents) c.others
            (λ o m q q'. claim-IsFilled a.child o q q') p p' filled c.claims
    ]
  ]

-- Interface.validate keeps every list of parents non-empty.
pub interface_validate-IsFilled :
    (g : Gnet) (interfaces : GoMap Interface) (i : Interface) (parents : Parents)
    (r : Option GoError × Parents)
    → IsFilled parents
    → interface_validate g interfaces i parents ≡ ok r
    → IsFilled r.1
interface_validate-IsFilled g interfaces i parents r filled e =
    elim (interface_validate_cases g interfaces i parents r e) [
      | inl physical ↦ rw physical.same filled
      | inr v ↦ rw v.after (
          each_inv (sub_step interfaces i) (λ q. IsFilled q.parents) (sort i.interfaces)
            (λ name m q q'. sub_step-IsFilled interfaces i name q q')
            (first_progress g interfaces i parents) v.final filled v.loop)
    ]
