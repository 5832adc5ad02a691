-- ===== src/Layout/Members/Ownership.antt =====
-- What Interface.validate adds to Child2Parent when it reports nothing, and that no child gets two
-- owners unless all of them are vlans.
use mathlib.Core.List.Memᴰ
pub mod Exclusive
pub mod Loop
use mathlib.Core.Bool.{false≢true}
use netwrangler.Base.{
  ⊎_elim, String, true, false, ◌≡◌, ◌≢◌, refl, sym, ap, ◌∙◌, Option, none, some, List, [], ◌∷◌,
  ◌++◌, ◌==◌, eq_iff, ◌⊎◌, ◌↔◌, Memᴰ, Memᴰ-cons, Memᴰ-append, arith, Option-cases, Bool-cases, inl,
  inr, if◌then◌else◌, subst,
}
use netwrangler.Sort.{sort}
use netwrangler.Sort.Laws.{sort_iff}
use netwrangler.GoMap.{GoMap, get, put, get_or}
use netwrangler.GoMap.Laws.{get_or-put}
use netwrangler.Outcome.{ok, each, >>=-eq-ok, ok-injective}
use netwrangler.Err.{empty}
use netwrangler.Layout.{Interface, new_interface}
use netwrangler.Layout.Members.{Parents, Progress, claim, sub_step}
use netwrangler.Layout.Members.Steps.{
  IsReported, IsShared, IsFirst, IsClaimed, IsAdded, IsAllowed, claim_cases, sub_step_cases,
}
use netwrangler.Layout.Members.Filled.{IsFilled, sub_step-IsFilled}

-- `q` is recorded as a parent of `c`.
abbrev pub IsParent : Parents → String → String → Type 0
IsParent parents c q = Memᴰ q (get_or parents c [])

-- Nothing was reported, and `i` became a parent of `c` (if `new` holds) and of nothing else.
pub record Gains (i : Interface) (p p' : Progress) (new : String → Type 0) : Type 0 where
  pub silent : empty p.err ≡ true
  pub gains :
      (c q : String) → IsParent p'.parents c q ↔ (IsParent p.parents c q ⊎ (q ≡ i.name) × new c)

Gains-trans :
    {i : Interface} {p t u : Progress} {a b : String → Type 0}
    → Gains i p t a
    → Gains i t u b
    → Gains i p u (λ c. a c ⊎ b c)
Gains-trans h k = record {
  silent = h.silent;
  gains = λ c q. ground (arith, h.gains c q, k.gains c q);
}

Gains-map :
    {i : Interface} {p t : Progress} (a b : String → Type 0)
    → ((c : String) → a c ↔ b c)
    → Gains i p t a
    → Gains i p t b
Gains-map a b same h = record {
  silent = h.silent;
  gains = λ c q. ground (arith, h.gains c q, same c);
}

module _ (m : GoMap Interface) (i : Interface) where
  shared-Gains :
      (child : Interface) (o : String) (p p' : Progress)
      → empty p'.err ≡ true
      → IsShared m i child o p p'
      → Gains i p p' (λ c. c ≡ child.name)
  shared-Gains child o p p' silent s = record {
    silent = rw s.err at silent;
    gains = λ c q. rw s.parents (
        let old : List String = get_or p.parents child.name [] in
        ground (
          arith,
          get_or-put child.name c (sort (old ++ i.name ∷ [])) [] p.parents,
          eq_iff child.name c,
          sort_iff q (old ++ i.name ∷ []),
          Memᴰ-append q old (i.name ∷ []),
          Memᴰ-cons q i.name [],
          Memᴰ.not-nil {a = q},
        ));
  }

  claim-Gains :
      (child : Interface) (o : String) (p p' : Progress)
      → empty p'.err ≡ true
      → claim m i child o p ≡ ok p'
      → Gains i p p' (λ c. c ≡ child.name) × IsShared m i child o p p'
  claim-Gains child o p p' silent e = elim (claim_cases m i child o p p' e) [
    | inl r ↦ absurd (false≢true (sym r.nonempty ∙ silent))
    | inr s ↦ (shared-Gains child o p p' silent s, s)
  ]

  -- Where a child has owners already, every one of them and `i` is a vlan.
  pub record AreVlans (others : List String) : Type 0 where
    pub vlan : i.type ≡ "vlan"
    pub other_vlans : (o : String) → Memᴰ o others → (get_or m o new_interface).type ≡ "vlan"

  claims-Gains :
      (child : Interface) (o : String) (os : List String) (p p' : Progress)
      → empty p'.err ≡ true
      → each (claim m i child) (o ∷ os) p ≡ ok p'
      → Gains i p p' (λ c. c ≡ child.name) × AreVlans (o ∷ os)
  unfolding each
  claims-Gains child o [] p p' silent e =
      let (t, first, rest) = >>=-eq-ok (claim m i child o p) (each (claim m i child) []) e in
      let (gains, shared) = claim-Gains child o p p' silent (first ∙ rest) in
      (
        gains,
        record {
          vlan = shared.vlan;
          other_vlans = λ x mem. rw (Memᴰ.eq_of_singleton mem) shared.other_vlan;
        },
      )
  claims-Gains child o (o' ∷ os) p p' silent e =
      let (t, first, rest) = >>=-eq-ok (claim m i child o p) (each (claim m i child) (o' ∷ os)) e in
      let (later, vlans) = claims-Gains child o' os t p' silent rest in
      let (now, shared) = claim-Gains child o p t later.silent first in
      (
        Gains-map (λ c. (c ≡ child.name) ⊎ (c ≡ child.name)) (λ c. c ≡ child.name)
            (λ c. ground arith) (Gains-trans now later),
        record {
          vlan = shared.vlan;
          other_vlans = λ x mem.
              ⊎_elim (λ e. rw e shared.other_vlan) (vlans.other_vlans x) (Memᴰ.cases_cons mem);
        },
      )
