-- ===== src/Layout/Cycles/Reports.antt =====
-- What a reported cycle means, and which names are always reported.
use netwrangler.Base.{
  ℕ, zero, suc, ◌≤◌, ◌<◌, String, ◌≡◌, refl, ap, sym, ◌∙◌, ◌⊎◌, inl, inr, ◌≢◌, none, some, subst,
  List, [], ◌∷◌, ◌++◌, Memᴰ, All, All-Memᴰ, All-append, All-map, contains_iff, length, arith,
}
use netwrangler.GoMap.{get}
use netwrangler.Outcome.{Outcome, ok, each, each_inv, ok-injective, >>=-eq-ok}
use netwrangler.Err.Laws.{length-errorf}
use netwrangler.Layout.Members.{Parents}
use netwrangler.Layout.Cycles.{Search, cycle_message, cyclic}
use netwrangler.Layout.Cycles.Graph.{Edge, edge, Walk, last, step, IsTrapped, IsTrapped-Edge}
use netwrangler.Layout.Cycles.Steps.{
  cleaned, known, root, cycle, deeper, cyclic_case, cyclic_known, cyclic_root, cyclic_cycle,
  cyclic_deeper,
}

-- Some name is its own ancestor.
pub record HasCycle (parents : Parents) : Type 0 where
  pub node : String
  pub walk : Walk parents node node

module _ (parents : Parents) where
  -- Everything that is being worked on leads to `intf`.
  abbrev pub Leads : List String → String → Type 0
  Leads working intf = All (λ w. Walk parents w intf) working

  Leads-snoc :
      (working : List String) (intf n : String)
      → Leads working intf
      → Edge parents intf n
      → Leads (working ++ intf ∷ []) n
  Leads-snoc working intf n h e =
      All-append (λ w. Walk parents w n) working (intf ∷ [])
        (All-map (λ w. Walk parents w intf) (λ w. Walk parents w n) working (λ w walk. step walk e)
          h)
        (last e, tt)

  -- A call of cyclic that returns, and whose working names all lead to its name, leaves the
  -- errors as they are, or some interface is its own ancestor.
  pub cyclic_sound :
      (fuel : ℕ) (working : List String) (intf : String) (s s' : Search)
      → Leads working intf
      → cyclic parents fuel working intf s ≡ ok s'
      → (s'.err ≡ s.err) ⊎ HasCycle parents
  unfolding cyclic
  cyclic_sound zero working intf s s' h e = cc
  cyclic_sound (suc fuel) working intf s s' h e = elim (cyclic_case parents fuel working intf s) [
    | known k ↦ inl (cc (cyclic_known parents fuel working intf s k, e))
    | root u r ↦
        inl (ap (λ t. t.err) (ok-injective (sym e ∙ cyclic_root parents fuel working intf s u r)))
    | cycle next u found c ↦ inr (record {
      node = intf;
      walk = All-Memᴰ (λ w. Walk parents w intf) working h ((contains_iff intf working).0 c);
    })
    | deeper next u found new ↦
        each_inv (cyclic parents fuel (working ++ intf ∷ []))
          (λ t. (t.err ≡ s.err) ⊎ HasCycle parents) next
          (λ n m t t' p round. elim p [
            | inr found ↦ inr found
            | inl same ↦
                elim (cyclic_sound fuel (working ++ intf ∷ []) n t t'
                  (Leads-snoc working intf n h (edge next found m)) round) [
                    | inl same' ↦ inl (same' ∙ same)
                    | inr found ↦ inr found
                  ]
          ])
          s s' (inl refl) (sym (cyclic_deeper parents fuel working intf s u found new) ∙ e)
  ]

  -- No name that is taken to be clean is trapped.
  abbrev pub IsGood : Search → Type 0
  IsGood s = All (λ c. ¬ IsTrapped parents c) s.clean

  abbrev pub messages : Search → ℕ
  messages s = length s.err.msgs

  -- From `s` to `t` the messages only grow, and the clean names stay free of trapped ones.
  abbrev pub Grows : Search → Search → Type 0
  Grows s t = IsGood t × (messages s ≤ messages t)

  IsGood-cleaned :
      (fuel : ℕ) (working : List String) (intf : String) (s : Search)
      → Leads working intf
      → get intf parents ≡ none
      → IsGood s
      → IsGood (cleaned parents fuel working intf s)
  IsGood-cleaned fuel working intf s h r good =
      All-append (λ c. ¬ IsTrapped parents c) working s.clean
        (All-map (λ w. Walk parents w intf) (λ c. ¬ IsTrapped parents c) working
          (λ w walk trapped. trapped.beyond intf walk r) h)
        good

  -- What one call does to the state, and that it reports a name that is trapped.
  pub record Called (intf : String) (s t : Search) : Type 0 where
    pub grows : Grows s t
    pub strict : IsTrapped parents intf → messages s < messages t

  module _ (filled : (a : String) → get a parents ≢ some []) where
    -- The loop over parents that are each called as `Called` says.
    each-Grows :
        (f : String → Search → Outcome Search) (next : List String) (s t : Search)
        → ((n : String) → Memᴰ n next → (u v : Search) → IsGood u → f n u ≡ ok v → Called n u v)
        → IsGood s
        → each f next s ≡ ok t
        → Grows s t
    each-Grows f next s t call good e =
        each_inv f (Grows s) next
          (λ n m u v grown round.
            let c = call n m u v grown.0 round in (c.grows.0, omega (arith, c.grows.1)))
          s t (good, omega arith) e

    each_strict :
        (f : String → Search → Outcome Search) (n : String) (next : List String) (s t : Search)
        → ((m : String)
            → Memᴰ m (n ∷ next)
            → (u v : Search) → IsGood u
            → f m u ≡ ok v
            → Called m u v)
        → IsGood s
        → IsTrapped parents n
        → each f (n ∷ next) s ≡ ok t
        → messages s < messages t
    unfolding each
    each_strict f n next s t call good trapped e =
        let (u, first, rest) = >>=-eq-ok (f n s) (each f next) e in
        let c = call n (Memᴰ.head refl) s u good first in
        let grown = each-Grows f next u t (λ m i. call m (Memᴰ.tail i)) c.grows.0 rest in
        omega (arith, c.strict trapped, grown.1)

    each-Called :
        (f : String → Search → Outcome Search) (intf : String) (next : List String) (s t : Search)
        → get intf parents ≡ some next
        → ((n : String) → Memᴰ n next → (u v : Search) → IsGood u → f n u ≡ ok v → Called n u v)
        → IsGood s
        → each f next s ≡ ok t
        → Called intf s t
    each-Called f intf [] s t found call good e = absurd (filled intf found)
    each-Called f intf (n ∷ next) s t found call good e = record {
      grows = each-Grows f (n ∷ next) s t call good e;
      strict = λ trapped.
          each_strict f n next s t call good
            (IsTrapped-Edge trapped (edge (n ∷ next) found (Memᴰ.head refl))) e;
    }

    -- A call of cyclic over parents that are never an empty list loses no message, adds one for
    -- a name from which no root can be reached, and takes no such name to be clean, if it took
    -- none before and what it is working on leads to its name.
    pub cyclic-Called :
        (fuel : ℕ) (working : List String) (intf : String) (s t : Search)
        → Leads working intf
        → IsGood s
        → cyclic parents fuel working intf s ≡ ok t
        → Called intf s t
    unfolding cyclic
    cyclic-Called zero working intf s t h good e = cc
    cyclic-Called (suc fuel) working intf s t h good e =
        elim (cyclic_case parents fuel working intf s) [
          | known k ↦
              subst (Called intf s) (same (cyclic_known parents fuel working intf s k)) (record {
                grows = (good, omega arith);
                strict = λ trapped. absurd (
                    All-Memᴰ (λ c. ¬ IsTrapped parents c) s.clean good
                      ((contains_iff intf s.clean).0 k) trapped);
              })
          | root u r ↦
              subst (Called intf s) (same (cyclic_root parents fuel working intf s u r)) (record {
                grows = (IsGood-cleaned fuel working intf s h r good, omega arith);
                strict = λ trapped. absurd (trapped.inner r);
              })
          | cycle next u found c ↦
              subst (Called intf s) (same (cyclic_cycle parents fuel working intf s u found c))
                (record {
                  grows = (good, omega (arith, length-errorf s.err (cycle_message intf working)));
                  strict =
                      λ trapped. omega (arith, length-errorf s.err (cycle_message intf working));
                })
          | deeper next u found new ↦
              each-Called (cyclic parents fuel (working ++ intf ∷ [])) intf next s t found
                (λ n m v w.
                  cyclic-Called fuel (working ++ intf ∷ []) n v w
                    (Leads-snoc working intf n h (edge next found m)))
                good (sym (cyclic_deeper parents fuel working intf s u found new) ∙ e)
        ]
      where
        same : {u : Search} → cyclic parents (suc fuel) working intf s ≡ ok u → u ≡ t
        same direct = ok-injective (sym direct ∙ e)
