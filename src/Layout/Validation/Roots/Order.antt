-- ===== src/Layout/Validation/Roots/Order.antt =====
-- The order in which Go ranges over the map of interfaces.
use mathlib.Core.List.Perm
use mathlib.Core.List.{Perm}
use mathlib.Core.Bool.{false≢true}
use netwrangler.Base.{String, ◌≡◌, sym, ap, ◌∙◌, Option, List, ◌++◌, inl, inr, subst}
use netwrangler.Sort.{sort}
use netwrangler.Sort.Laws.{sort-perm}
use netwrangler.Net.{Gnet}
use netwrangler.Outcome.{ok, each, ok-injective}
use netwrangler.Err.{GoError}
use netwrangler.Layout.{Layout}
use netwrangler.Layout.Members.{Parents}
use netwrangler.Layout.Validation.Phases.{members, swept_from, IsSwept, layout_validate_phases}
use netwrangler.Err.{empty}
use netwrangler.Layout.Validation.{Checked}
use netwrangler.Layout.Validation.{Sweep, sweep_step, layout_validate, finish, stripped}
use netwrangler.Layout.Validation.Roots.{roots_of, roots_of-perm, sweep-roots}

abbrev IsSweptFrom : Gnet → List String → Layout → Checked → Layout → Type 0
IsSweptFrom g order l c l' =
    (sweep : Sweep) × (each (sweep_step c.0.child2parent) order (swept_from c) ≡ ok sweep)
    × (l' ≡ (finish (stripped (members g order l) c.0) sweep).0)

swept-order :
    (g : Gnet) (order order' : List String) (l l1 l2 : Layout) (err err' : Option GoError)
    → Perm order order'
    → IsSwept g order l l1 err
    → IsSwept g order' l l2 err'
    → l1 ≡ l2
unfolding finish stripped
swept-order g order order' l l1 l2 err err' p s t =
    let rest =
      subst (λ c. IsSweptFrom g order' l c l2) (ok-injective (sym t.loop ∙ s.loop))
        (t.sweep, t.sweeping, t.layout) in
    s.layout
    ∙ ap (λ r. record (stripped (members g order l) s.checked.0) { roots = r })
        (same_roots s.checked.0.child2parent s.checked.0.roots
          (sweep-roots s.checked.0.child2parent order (swept_from s.checked) s.sweep s.sweeping)
          (sweep-roots s.checked.0.child2parent order' (swept_from s.checked) rest.0 rest.1))
    ∙ sym rest.2
  where
    same_roots :
        (parents : Parents) (first : List String) {rs rs' : List String}
        → rs ≡ first ++ roots_of parents order
        → rs' ≡ first ++ roots_of parents order'
        → sort rs ≡ sort rs'
    same_roots parents first e e' =
        ap sort e ∙ sort-perm (Perm.append_left first (roots_of-perm parents p)) ∙ sym (ap sort e')

-- Two runs of Layout.Validate over the same layout that return, accepting it or not, leave the
-- same layout, if the orders in which they range over the map of interfaces are permutations of
-- each other.
pub layout_validate-order_irrelevant :
    (g : Gnet) (order order' : List String) (l l1 l2 : Layout) (err err' : Option GoError)
    → Perm order order'
    → layout_validate g order l ≡ ok (l1, err)
    → layout_validate g order' l ≡ ok (l2, err')
    → l1 ≡ l2
layout_validate-order_irrelevant g order order' l l1 l2 err err' p h k =
    elim (layout_validate_phases g order l l1 err h) [
      | inl r ↦ elim (layout_validate_phases g order' l l2 err' k) [
        | inl t ↦ r.layout ∙ ap (λ c. c.0) (ok-injective (sym r.loop ∙ t.loop)) ∙ sym t.layout
        | inr t ↦ absurd (
            false≢true
              (sym r.failed ∙ ap (λ c. empty c.1) (ok-injective (sym r.loop ∙ t.loop)) ∙ t.passed))
      ]
      | inr s ↦ elim (layout_validate_phases g order' l l2 err' k) [
        | inl t ↦ absurd (
            false≢true
              (sym t.failed ∙ ap (λ c. empty c.1) (ok-injective (sym t.loop ∙ s.loop)) ∙ s.passed))
        | inr t ↦ swept-order g order order' l l1 l2 err err' p s t
      ]
    ]
