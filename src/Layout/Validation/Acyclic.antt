-- ===== src/Layout/Validation/Acyclic.antt =====
-- What Layout.Validate says of cycles among the interfaces.
use netwrangler.Base.{
  String, true, ◌≡◌, refl, ap, ◌∙◌, none, some, List, [], ◌∷◌, ◌⊎◌, Memᴰ, arith, inl, inr, suc, ◌<◌,
  length, subst, ⊎_elim, is_empty_iff,
}
use mathlib.Core.List.Memᴰ
use netwrangler.GoMap.{keys}
use netwrangler.Net.{Gnet}
use netwrangler.Outcome.{ok, each, each_inv, >>=-eq-ok, ok-injective}
use netwrangler.Err.{Err, GoError, empty, or_nil}
use netwrangler.Err.Laws.{or_nil-eq-none_iff}
use netwrangler.Layout.{Layout}
use netwrangler.Layout.Members.{Parents}
use netwrangler.Layout.Members.Filled.{IsFilled}
use netwrangler.Layout.Members.Ownership.Exclusive.{IsNamed}
use netwrangler.Layout.Cycles.{cyclic}
use netwrangler.Layout.Cycles.Graph.{IsTrapped}
use netwrangler.Layout.Cycles.Reports.{
  HasCycle, cyclic_sound, IsGood, messages, Grows, Called, cyclic-Called,
}
use netwrangler.Layout.Validation.{Sweep, sweep_step, layout_validate, finish, stripped}
use netwrangler.Layout.Validation.Phases.{swept_from, IsRefused, layout_validate_phases}
use netwrangler.Layout.Validation.Ownership.{swept, looped, parents-same}

module _ (parents : Parents) where
  -- One round searches from one name.
  sweep_step-search :
      (k : String) (s s' : Sweep)
      → sweep_step parents k s ≡ ok s'
      → cyclic parents (suc (length (keys parents))) [] k s.search ≡ ok s'.search
  unfolding sweep_step
  sweep_step-search k s s' e =
      let (t, searched, done) =
        >>=-eq-ok (cyclic parents (suc (length (keys parents))) [] k s.search) _ e in
      searched ∙ ap (λ x. ok x.search) (ok-injective done)

  sweep_sound :
      (order : List String) (s s' : Sweep)
      → each (sweep_step parents) order s ≡ ok s'
      → (s'.search.err ≡ s.search.err) ⊎ HasCycle parents
  sweep_sound order s s' e =
      each_inv (sweep_step parents) (λ t. (t.search.err ≡ s.search.err) ⊎ HasCycle parents) order
        (λ k m t t' p step. elim p [
          | inr found ↦ inr found
          | inl same ↦
              elim (cyclic_sound parents (suc (length (keys parents))) [] k t.search t'.search tt
                (sweep_step-search k t t' step)) [
                  | inl same' ↦ inl (same' ∙ same)
                  | inr found ↦ inr found
                ]
        ])
        s s' (inl refl) e

  module _ (filled : IsFilled parents) where
    step-Called :
        (k : String) (s s' : Sweep)
        → IsGood parents s.search
        → sweep_step parents k s ≡ ok s'
        → Called parents k s.search s'.search
    step-Called k s s' good e =
        cyclic-Called parents filled (suc (length (keys parents))) [] k s.search s'.search tt good
          (sweep_step-search k s s' e)

    sweep-Grows :
        (order : List String) (s s' : Sweep)
        → IsGood parents s.search
        → each (sweep_step parents) order s ≡ ok s'
        → Grows parents s.search s'.search
    sweep-Grows order s s' good e =
        each_inv (sweep_step parents) (λ t. Grows parents s.search t.search) order
          (λ k m t t' p step.
            let c = step-Called k t t' p.0 step in (c.grows.0, omega (arith, p.1, c.grows.1)))
          s s' (good, omega arith) e

    sweep_strict :
        (order : List String) (k : String) (s s' : Sweep)
        → Memᴰ k order
        → IsTrapped parents k
        → IsGood parents s.search
        → each (sweep_step parents) order s ≡ ok s'
        → messages parents s.search < messages parents s'.search
    unfolding each
    sweep_strict [] k s s' m trapped good e = absurd (Memᴰ.not-nil m)
    sweep_strict (j ∷ js) k s s' m trapped good e =
        let (t, first, rest) =
          >>=-eq-ok (sweep_step parents j s) (each (sweep_step parents) js) e in
        let c = step-Called j s t good first in
        ⊎_elim
          (λ here.
            let grown = sweep-Grows js t s' c.grows.0 rest in
            omega (arith, c.strict (subst (IsTrapped parents) here trapped), grown.1))
          (λ later.
            let less = sweep_strict js k t s' later trapped c.grows.0 rest in
            omega (arith, less, c.grows.1))
          (Memᴰ.cases_cons m)

loud_error : (e e' : Err) {r : GoError} → empty e ≡ true → e' ≡ e → some r ≡ or_nil e' → ⊥
loud_error e e' quiet same error = ground (arith, or_nil-eq-none_iff e', ap empty same)

length_of_quiet : (e : Err) → none ≡ or_nil e → length e.msgs ≡ 0
unfolding empty
length_of_quiet e error = ground (arith, or_nil-eq-none_iff e, is_empty_iff e.msgs)

-- If Layout.Validate returns an error, then its first loop reported one, or some interface is
-- its own ancestor.
pub layout_validate-HasCycle :
    (g : Gnet) (order : List String) (l l' : Layout) (e : GoError)
    → layout_validate g order l ≡ ok (l', some e)
    → IsRefused g order l l' (some e) ⊎ HasCycle l'.child2parent
unfolding finish stripped
layout_validate-HasCycle g order l l' e h = elim (layout_validate_phases g order l l' (some e) h) [
  | inl r ↦ inl r
  | inr s ↦
      elim (sweep_sound s.checked.0.child2parent order (swept_from s.checked) s.sweep s.sweeping) [
        | inr found ↦ inr (rw s.layout found)
        | inl same ↦ absurd (loud_error (s.checked.1) s.sweep.search.err s.passed same s.error)
      ]
]

-- In an accepted layout whose entries carry their keys as names, no interface that the last
-- loop visits is trapped: it is not so that it and all its ancestors have parents.
pub layout_validate-not-IsTrapped :
    (g : Gnet) (order : List String) (l l' : Layout) (k : String)
    → IsNamed l.interfaces
    → layout_validate g order l ≡ ok (l', none)
    → Memᴰ k order
    → ¬ IsTrapped l'.child2parent k
layout_validate-not-IsTrapped g order l l' k named accepted m trapped =
    let s = swept g order l named l' accepted in
    let filled = (looped g order l named l' accepted).ready.filled in
    let less =
      sweep_strict s.checked.0.child2parent filled order k (swept_from s.checked) s.sweep m
        (subst (λ ps. IsTrapped ps k) (parents-same g order l named l' accepted) trapped) tt
        s.sweeping in
    omega (arith, less, length_of_quiet s.sweep.search.err s.error)
