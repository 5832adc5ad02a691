-- ===== src/Layout/Members/Whole.antt =====
-- A whole call of Interface.validate, by cases.
use netwrangler.Base.{
  String, true, not, ◌≡◌, ◌≢◌, sym, ap, Option, none, List, [], ◌∷◌, ◌==◌, eq_iff, ◌⊎◌, ◌↔◌, arith,
  Bool-cases, is_empty, is_empty_iff, inl, inr, if◌then◌else◌,
}
use netwrangler.Sort.{sort}
use netwrangler.GoMap.{GoMap}
use netwrangler.Outcome.{Outcome, ok, each, >>=-eq-ok, ok-injective}
use netwrangler.Err.{Err, GoError, new_err, errorf, or_nil}
use netwrangler.Text.{concat, list_text}
use netwrangler.Net.{Gnet}
use netwrangler.Err.Laws.{empty-errorf, empty-new_err, or_nil-eq-none_iff}
use netwrangler.Layout.{Interface}
use netwrangler.Layout.Members.{
  Parents, Progress, label, sub_step, network_merge, interface_validate,
}

module _ (g : Gnet) (interfaces : GoMap Interface) (i : Interface) (parents : Parents) where
  -- A physical interface passes exactly if it has no sub interfaces.
  pub record IsPhysical (r : Option GoError × Parents) : Type 0 where
    pub physical : i.type ≡ "physical"
    pub same : r.1 ≡ parents
    pub error : (r.0 ≡ none) ↔ (i.interfaces ≡ [])
    pub collector : Err
    pub returned : r.0 ≡ or_nil collector

  abbrev pub blank_err : Err
  blank_err = new_err (concat (i.type ∷ ":" ∷ i.match_id ∷ []))

  abbrev pub sub_message : List String
  sub_message = label i (" must not refer to sub interfaces " ∷ list_text i.interfaces ∷ [])

  abbrev pub first_err : Err
  first_err = network_merge g blank_err i.network

  abbrev pub first_progress : Progress
  first_progress = record { err = first_err; parents = parents }

  -- Any other interface goes through its sub interfaces, in sorted order.
  pub record IsVirtual (r : Option GoError × Parents) : Type 0 where
    pub virtual : i.type ≢ "physical"
    pub final : Progress
    pub loop : each (sub_step interfaces i) (sort i.interfaces) first_progress ≡ ok final
    pub after : r.1 ≡ final.parents
    pub returned : r.0 ≡ or_nil final.err

  abbrev physical_result : Outcome (Option GoError × Parents)
  physical_result =
      if not (is_empty i.interfaces)
      then ok (or_nil (errorf blank_err sub_message), parents)
      else ok (or_nil blank_err, parents)

  IsPhysical-case :
      (r : Option GoError × Parents)
      → (i.type == "physical") ≡ true
      → physical_result ≡ ok r
      → IsPhysical r
  IsPhysical-case r physical h = elim (Bool-cases (is_empty i.interfaces)) [
    | inl bare ↦
        let done = ok-injective (rw bare at h) in
        record {
          physical = (eq_iff _ _).0 physical;
          same = ap (λ q. q.1) (sym done);
          error = ground (
            arith,
            ap (λ q. q.0) done,
            is_empty_iff i.interfaces,
            or_nil-eq-none_iff blank_err,
            empty-new_err (concat (i.type ∷ ":" ∷ i.match_id ∷ [])),
          );
          collector = blank_err;
          returned = ap (λ q. q.0) (sym done);
        }
    | inr some_subs ↦
        let done = ok-injective (rw some_subs at h) in
        record {
          physical = (eq_iff _ _).0 physical;
          same = ap (λ q. q.1) (sym done);
          error = ground (
            arith,
            ap (λ q. q.0) done,
            is_empty_iff i.interfaces,
            or_nil-eq-none_iff (errorf blank_err sub_message),
            empty-errorf blank_err sub_message,
          );
          collector = errorf blank_err sub_message;
          returned = ap (λ q. q.0) (sym done);
        }
  ]

  pub interface_validate_cases :
      (r : Option GoError × Parents)
      → interface_validate g interfaces i parents ≡ ok r
      → IsPhysical r ⊎ IsVirtual r
  unfolding interface_validate
  interface_validate_cases r h = elim (Bool-cases (i.type == "physical")) [
    | inl physical ↦ inl (IsPhysical-case r physical (rw (physical, interface_validate) at h))
    | inr virtual ↦
        let (p, loop, done) =
          >>=-eq-ok (each (sub_step interfaces i) (sort i.interfaces) first_progress)
            (λ p. ok (or_nil p.err, p.parents)) (rw (virtual, interface_validate) at h) in
        inr (record {
          virtual = ground (arith, eq_iff i.type "physical");
          final = p;
          loop = loop;
          after = ap (λ q. q.1) (sym (ok-injective done));
          returned = ap (λ q. q.0) (sym (ok-injective done));
        })
  ]
