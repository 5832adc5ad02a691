-- ===== src/Layout/Validation/Phases.antt =====
-- Layout.Validate taken apart into its loops.
use netwrangler.Base.{
  String, true, false, ◌≡◌, sym, ap, ◌⊎◌, inl, inr, Option, some, List, [], Bool-cases,
}
use netwrangler.Sort.{sort}
use netwrangler.GoMap.{keys}
use netwrangler.Net.{Gnet}
use netwrangler.Outcome.{Outcome, ok, ◌>>=◌, each, >>=-eq-ok, ok-injective}
use netwrangler.Err.{GoError, new_err, empty, or_nil, collected}
use netwrangler.Layout.{Layout}
use netwrangler.Layout.Validation.{
  Checked, Sweep, validate_member, sweep_step, finish, stripped, validate_rest, layout_validate,
}

-- The state in which the first loop starts.
abbrev pub start : Layout → Checked
start l = (record l { child2parent = [] }, new_err "layout")

abbrev pub swept_from : Checked → Sweep
swept_from (l, e) = record { roots = l.roots; search = record { clean = []; err = e } }

module _ (g : Gnet) (order : List String) (l : Layout) where
  abbrev pub members : List String
  members = sort (keys l.interfaces)

  abbrev validate_tail : Checked → Outcome (Layout × Option GoError)
  validate_tail c = each (sweep_step c.0.child2parent) order (swept_from c) >>= λ s.
      ok (finish (stripped members c.0) s)

  -- Validation stopped behind the first loop.
  pub record IsRefused (l' : Layout) (err : Option GoError) : Type 0 where
    pub checked : Checked
    pub loop : each (validate_member g) members (start l) ≡ ok checked
    pub failed : empty checked.1 ≡ false
    pub layout : l' ≡ checked.0
    pub error : err ≡ some (collected checked.1)

  -- Validation went through its last loop.
  pub record IsSwept (l' : Layout) (err : Option GoError) : Type 0 where
    pub checked : Checked
    pub loop : each (validate_member g) members (start l) ≡ ok checked
    pub passed : empty checked.1 ≡ true
    pub sweep : Sweep
    pub sweeping : each (sweep_step checked.0.child2parent) order (swept_from checked) ≡ ok sweep
    pub layout : l' ≡ (finish (stripped members checked.0) sweep).0
    pub error : err ≡ or_nil sweep.search.err

  pub layout_validate_phases :
      (l' : Layout) (err : Option GoError)
      → layout_validate g order l ≡ ok (l', err)
      → IsRefused l' err ⊎ IsSwept l' err
  unfolding layout_validate validate_rest finish
  layout_validate_phases l' err h =
      let (c, loop, rest) =
        >>=-eq-ok (each (validate_member g) members (start l)) (validate_rest members order) h in
      elim (Bool-cases (empty c.1)) [
        | inl passed ↦
            let tail : (validate_tail c) ≡ ok (l', err) = rw (passed, validate_rest) at rest in
            let (s, sweeping, done) =
              >>=-eq-ok (each (sweep_step c.0.child2parent) order (swept_from c))
                (λ s. ok (finish (stripped members c.0) s)) tail in
            inr (record {
              checked = c;
              loop = loop;
              passed = passed;
              sweep = s;
              sweeping = sweeping;
              layout = sym (ap (λ r. r.0) (ok-injective done));
              error = sym (ap (λ r. r.1) (ok-injective done));
            })
        | inr failed ↦
            let stopped : ok (c.0, some (collected c.1)) ≡ ok (l', err) =
              rw (failed, validate_rest) at rest in
            inl (record {
              checked = c;
              loop = loop;
              failed = failed;
              layout = sym (ap (λ r. r.0) (ok-injective stopped));
              error = sym (ap (λ r. r.1) (ok-injective stopped));
            })
      ]
