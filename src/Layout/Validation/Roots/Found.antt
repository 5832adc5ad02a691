-- ===== src/Layout/Validation/Roots/Found.antt =====
-- Which interfaces Layout.Validate records as roots.
use mathlib.Core.List.Memᴰ
use netwrangler.Base.{
  String, false, ◌≡◌, refl, sym, ap, ◌∙◌, Option, none, some, List, [], ◌∷◌, ◌++◌, ◌↔◌, Memᴰ, inl,
  inr, subst, Option-cases,
}
use netwrangler.Sort.{sort}
use netwrangler.Sort.Laws.{sort_iff, IsSorted, sort-IsSorted}
use netwrangler.GoMap.{get, get_or, keys, has}
use netwrangler.Net.{Gnet}
use netwrangler.Outcome.{ok, each, >>=-eq-ok, ok-injective}
use netwrangler.Err.{GoError}
use netwrangler.Layout.{Layout}
use netwrangler.Layout.Members.{Parents}
use netwrangler.Layout.Validation.Phases.{start, members, swept_from, IsSwept}
use netwrangler.Layout.Members.Filled.{IsFilled}
use netwrangler.Layout.Members.{interface_validate}
use netwrangler.Layout.Members.Ownership.{IsParent}
use netwrangler.Layout.Members.Ownership.Exclusive.{IsNamed}
use netwrangler.Layout.Validation.Members.{Owns}
use netwrangler.Layout.Validation.Ownership.{swept, looped, parents_iff, parents-same}
use netwrangler.Layout.{new_interface}
use netwrangler.GoMap.{put}
use netwrangler.Err.{merge}
use netwrangler.Outcome.{each_inv}
use netwrangler.Layout.Validation.{Checked, validate_member, sorted_entry}
use netwrangler.Layout.Validation.{layout_validate, finish, stripped}
use netwrangler.Layout.Validation.Roots.{roots_of, roots_of_iff, sweep-roots}

module _ (g : Gnet) (order : List String) (l l' : Layout) where
  swept-roots :
      (err : Option GoError) (s : IsSwept g order l l' err)
      → l'.roots ≡ sort (s.checked.0.roots ++ roots_of s.checked.0.child2parent order)
  unfolding finish stripped
  swept-roots err s =
      ap (λ x. x.roots) s.layout
      ∙ ap sort
          (sweep-roots s.checked.0.child2parent order (swept_from s.checked) s.sweep s.sweeping)

first_loop-roots :
    (g : Gnet) (order : List String) (l : Layout) (c : Checked)
    → each (validate_member g) (members g order l) (start l) ≡ ok c
    → c.0.roots ≡ l.roots
unfolding validate_member
first_loop-roots g order l c e =
    each_inv (validate_member g) (λ d. d.0.roots ≡ l.roots) (members g order l)
      (λ k m d d' p step.
        let (r, validated, done) =
          >>=-eq-ok
            (interface_validate g d.0.interfaces (get_or d.0.interfaces k new_interface)
              d.0.child2parent)
            (λ r. ok (
              record d.0 {
                interfaces =
                    put k (sorted_entry (get_or d.0.interfaces k new_interface)) d.0.interfaces;
                child2parent = r.1;
              },
              merge d.1 r.0,
            ))
            step in
        ap (λ x. x.0.roots) (sym (ok-injective done)) ∙ p)
      (start l) c refl e

bare_iff :
    (parents : Parents) (k : String)
    → IsFilled parents
    → (has k parents ≡ false) ↔ ((q : String) → ¬ IsParent parents k q)
bare_iff parents k filled = elim (Option-cases (get k parents)) [
  | inl bare ↦ rw (bare, get_or) (λ e q m. Memᴰ.not-nil m, λ h. refl)
  | inr (ps, found) ↦ rw (found, get_or) (λ e. cc, λ h. absurd (some_parent ps found h))
]
  where
    some_parent : (ps : List String) → get k parents ≡ some ps → ((q : String) → ¬ Memᴰ q ps) → ⊥
    some_parent [] found h = filled k found
    some_parent (q ∷ ps) found h = h q (Memᴰ.head refl)

-- In an accepted layout whose entries carry their keys as names and that starts without roots,
-- the roots are, sorted, exactly the interfaces that no bond, bridge or vlan lists, if the last
-- loop ranges over just the keys.
pub layout_validate-roots_iff :
    (g : Gnet) (order : List String) (l l' : Layout)
    → IsNamed l.interfaces
    → l.roots ≡ []
    → ((k : String) → Memᴰ k order ↔ Memᴰ k (keys l.interfaces))
    → layout_validate g order l ≡ ok (l', none)
    → IsSorted l'.roots
      × ((k : String)
          → Memᴰ k l'.roots
            ↔ (Memᴰ k (keys l.interfaces) × ((q : String) → ¬ Owns l.interfaces q k)))
layout_validate-roots_iff g order l l' named blank ranged accepted =
    let s = swept g order l named l' accepted in
    let parents = s.checked.0.child2parent in
    let filled = (looped g order l named l' accepted).ready.filled in
    let found : l'.roots ≡ sort (roots_of parents order) =
      swept-roots g order l l' none s
      ∙ ap (λ x. sort (x ++ roots_of parents order))
          (first_loop-roots g order l s.checked s.loop ∙ blank) in
    rw found (
      sort-IsSorted (roots_of parents order),
      λ k. (
        λ m.
            let (here, bare) =
              (roots_of_iff parents k order).0 ((sort_iff k (roots_of parents order)).0 m) in
            ((ranged k).0 here, λ q o. (bare_iff parents k filled).0 bare q (to k q o)),
        λ (here, free). (sort_iff k (roots_of parents order)).1 (
            (roots_of_iff parents k order).1
              ((ranged k).1 here, (bare_iff parents k filled).1 (λ q p. free q (from k q p)))),
      ),
    )
  where
    same : l'.child2parent ≡ (swept g order l named l' accepted).checked.0.child2parent
    same = parents-same g order l named l' accepted

    to :
        (k q : String)
        → Owns l.interfaces q k
        → IsParent (swept g order l named l' accepted).checked.0.child2parent k q
    to k q o =
        subst (λ ps. IsParent ps k q) same ((parents_iff g order l named l' accepted k q).1 o)

    from :
        (k q : String)
        → IsParent (swept g order l named l' accepted).checked.0.child2parent k q
        → Owns l.interfaces q k
    from k q p =
        (parents_iff g order l named l' accepted k q).0 (subst (λ ps. IsParent ps k q) (sym same) p)
