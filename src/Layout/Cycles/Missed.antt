-- ===== src/Layout/Cycles/Missed.antt =====
-- The search for cycles at a name with several parents. Where a branch ends, every name that is
-- being worked on becomes clean, before its other parents are searched.
use mathlib.Core.List.Memᴰ
use netwrangler.Base.{
  ℕ, suc, String, true, false, ◌≡◌, refl, ◌∙◌, none, some, List, [], ◌∷◌, Memᴰ, Memᴰ-cons, All,
  contains, contains_iff, arith, Bool-cases, inl, inr, ◌≢◌, eq_iff,
}
use netwrangler.GoMap.{get}
use netwrangler.Outcome.{ok, each}
use netwrangler.Layout.Members.{Parents}
use netwrangler.Layout.Cycles.{Search, cyclic}
use netwrangler.Layout.Cycles.Graph.{edge, last, step}
use netwrangler.Layout.Cycles.Reports.{HasCycle}
use netwrangler.Layout.Cycles.Steps.{cyclic_known, cyclic_root, cyclic_deeper}

module _ (parents : Parents) (x : String) where
  -- A parent of `x` that leads back to `x` alone adds nothing once `x` is clean.
  back_step :
      (fuel : ℕ) (y : String) (s : Search)
      → get y parents ≡ some (x ∷ [])
      → y ≢ x
      → contains x s.clean ≡ true
      → cyclic parents (suc (suc fuel)) (x ∷ []) y s ≡ ok s
  unfolding each
  back_step fuel y s found other clean = elim (Bool-cases (contains y s.clean)) [
    | inl k ↦ cyclic_known parents (suc fuel) (x ∷ []) y s k
    | inr u ↦
        cyclic_deeper parents (suc fuel) (x ∷ []) y s u found
          (ground (arith, contains_iff y (x ∷ []), Memᴰ-cons y x [], Memᴰ.not-nil {a = y}))
        ∙ rw (cyclic_known parents fuel (x ∷ y ∷ []) x s clean)
  ]

  back_steps :
      (fuel : ℕ) (ys : List String) (s : Search)
      → All (λ y. (get y parents ≡ some (x ∷ [])) × (y ≢ x)) ys
      → contains x s.clean ≡ true
      → each (cyclic parents (suc (suc fuel)) (x ∷ [])) ys s ≡ ok s
  unfolding each
  back_steps fuel [] s h clean = refl
  back_steps fuel (y ∷ ys) s ((found, other), h) clean =
      rw (back_step fuel y s found other clean) (back_steps fuel ys s h clean)

  -- If the first parent of a name has no parents, each further one has that name for its only
  -- parent, and neither the name nor its first parent is clean, then the search from the name
  -- reports nothing and marks it clean, although it is its own ancestor.
  pub cyclic_misses :
      (fuel : ℕ) (a y : String) (ys : List String) (s : Search)
      → get x parents ≡ some (a ∷ y ∷ ys)
      → get a parents ≡ none
      → All (λ z. (get z parents ≡ some (x ∷ [])) × (z ≢ x)) (y ∷ ys)
      → contains x s.clean ≡ false
      → contains a s.clean ≡ false
      → (cyclic parents (suc (suc (suc fuel))) [] x s ≡ ok (record s { clean = x ∷ s.clean }))
        × HasCycle parents
  unfolding each contains
  cyclic_misses fuel a y ys s found root h fresh_x fresh_a = (
    cyclic_deeper parents (suc (suc fuel)) [] x s fresh_x found refl
        ∙ rw (cyclic_root parents (suc fuel) (x ∷ []) a s fresh_a root) (
            back_steps fuel (y ∷ ys) (record s { clean = x ∷ s.clean }) h
              (ground (arith, eq_iff x x))),
    record {
      node = x;
      walk =
          step (last (edge (a ∷ y ∷ ys) found (Memᴰ.tail (Memᴰ.head refl))))
            (edge (x ∷ []) h.0.0 (Memᴰ.head refl));
    },
  )
