-- ===== src/Netplan/Params/Stacked.antt =====
-- The parameters of the bonds and bridges that their validators accept.
use mathlib.Core.Bool.{false≢true}
use netwrangler.Base.{
  ℕ, String, true, ◌≡◌, refl, sym, ap, ◌∙◌, inl, inr, ◌⊎◌, some, List, [], Bool-cases, All, subst,
}
use netwrangler.GoMap.{GoMap, get, keys}
use netwrangler.Value.{Value}
use netwrangler.Outcome.{ok, >>=-eq-ok, ok-injective}
use netwrangler.Err.{Err}
use netwrangler.Validators.{decoded, vs}
use netwrangler.Validators.Checking.{Check, checked_by, check_validate, validate_and_marshal}
use netwrangler.Validators.Checking.Stored.{
  HasJust, NoValue, all_own, checks-HasJust, Holds, IsDirect, checks-Holds,
  validate_and_marshal_decodes,
}
use netwrangler.Layout.{Interface, new_interface}
use netwrangler.Netplan.{Packages}
use netwrangler.Netplan.Networks.{network}
use netwrangler.Netplan.Devices.{
  p_validate, bb_checks, bb, bond_params, bond, bridge_params, bridge,
}
use netwrangler.Netplan.Params.{
  all_aside, all_aside-IsDirect, KeepsTexts, HasTypes, IsText, vs-IsText, aside, bb_keys, IsStable,
  primary-IsStable, absent-IsStable,
}

module _ (p : Packages) where
  bond-primary : All (λ kc. IsDirect "primary" IsText kc.0 kc.1) (bond_params p)
  unfolding bond_params
  bond-primary = (
    aside _ _ refl refl,
    (
      aside _ _ refl refl,
      (
        aside _ _ refl refl,
        (
          aside _ _ refl refl,
          (
            aside _ _ refl refl,
            (
              aside _ _ refl refl,
              (
                aside _ _ refl refl,
                (
                  aside _ _ refl refl,
                  (
                    aside _ _ refl refl,
                    (
                      aside _ _ refl refl,
                      (
                        aside _ _ refl refl,
                        (
                          aside _ _ refl refl,
                          (
                            aside _ _ refl refl,
                            (
                              aside _ _ refl refl,
                              (
                                aside _ _ refl refl,
                                (
                                  text_primary,
                                  (
                                    aside _ _ refl refl,
                                    (
                                      aside _ _ refl refl,
                                      (aside _ _ refl refl, (aside _ _ refl refl, tt)),
                                    ),
                                  ),
                                ),
                              ),
                            ),
                          ),
                        ),
                      ),
                    ),
                  ),
                ),
              ),
            ),
          ),
        ),
      ),
    ),
  )
    where
      text_primary : IsDirect "primary" IsText "primary" (checked_by (vs p.printer []))
      text_primary = record {
        new_key = refl;
        accepts = inr (refl, refl, vs-IsText p.printer [] "primary");
      }

  bond-unwoken : All (λ kc. IsDirect "wakeonlan" NoValue kc.0 kc.1) (bond_params p)
  unfolding bond_params all_aside
  bond-unwoken = all_aside-IsDirect "wakeonlan" NoValue (bond_params p) refl

  bridge-unprimary : All (λ kc. IsDirect "primary" NoValue kc.0 kc.1) (bridge_params p)
  unfolding bridge_params all_aside
  bridge-unprimary = all_aside-IsDirect "primary" NoValue (bridge_params p) refl

  bridge-unwoken : All (λ kc. IsDirect "wakeonlan" NoValue kc.0 kc.1) (bridge_params p)
  unfolding bridge_params all_aside
  bridge-unwoken = all_aside-IsDirect "wakeonlan" NoValue (bridge_params p) refl

  module _ (name : String) (R : Value → Type 0) (S : GoMap Value → Type 0)
      (stable : IsStable name R S) (pchecks : List (String × Check))
      (direct : All (λ kc. IsDirect name R kc.0 kc.1) pchecks) (own : all_own pchecks ≡ true)
      (known : (pchecks ≡ bond_params p) ⊎ (pchecks ≡ bridge_params p)) (keeps : KeepsTexts p) where
    -- What pValidate returns holds a map with the property.
    abbrev IsParams : Value → Type 0
    IsParams w = (q : GoMap Value) × (w ≡ p.structs.of_params q) × S q

    p_validate-IsParams :
        (e e' : Err) (k : String) (v w : Value)
        → p_validate p pchecks e k v ≡ ok (e', w, true)
        → IsParams w
    unfolding p_validate get
    p_validate-IsParams e e' k v w h =
        let ((e1, q, valid), decodes, done) =
          >>=-eq-ok
            (validate_and_marshal p.printer "*map[string]interface {}" p.structs.as_params e v
              pchecks [])
            _ h in
        let good : valid ≡ true = ap (λ x. x.2) (ok-injective done) in
        let (m, s, loop, made) =
          validate_and_marshal_decodes p.printer "*map[string]interface {}" p.structs.as_params e e1
            v pchecks [] q (decodes ∙ ap (λ b. ok (e1, q, b)) good) in
        (
          q,
          sym (ap (λ x. x.1) (ok-injective done)),
          stable.stays s.res q
              (keeps.params pchecks s.res q known (checks-HasJust m pchecks e s own loop) made)
              (stable.of_loop s.res (checks-Holds name R m pchecks _ s direct loop (inl refl))),
        )

    bb_checks-IsDirect : All (λ kc. IsDirect "parameters" IsParams kc.0 kc.1) (bb_checks p pchecks)
    unfolding p_validate check_validate
    bb_checks-IsDirect = (
      aside _ _ refl refl,
      (
        aside _ _ refl refl,
        (
          record {
            new_key = refl;
            accepts = inr (refl, refl, λ e e' v w h. p_validate-IsParams e e' "parameters" v w h);
          },
          (aside _ _ refl refl, tt),
        ),
      ),
    )

    bb-keeps :
        (kind : String) (address : ℕ) (e e' : Err) (v : Value) (i : Interface)
        → bb p kind pchecks address e v ≡ ok (e', i, true)
        → S i.parameters
    unfolding bb get all_own keys
    bb-keeps kind address e e' v i h =
        let ((e1, res, valid), decodes, rest) =
          >>=-eq-ok
            (validate_and_marshal p.printer "*util.Interface" (p.structs.as_interface new_interface)
              e v (bb_checks p pchecks) new_interface)
            _ h in
        elim (Bool-cases valid) [
          | inr bad ↦ absurd (false≢true (ap (λ x. x.2) (ok-injective (rw bad at rest))))
          | inl good ↦
              let ((e2, nw, valid'), networks, done) =
                >>=-eq-ok (network p e1 v) _ (rw good at rest) in
              let good' : valid' ≡ true = ap (λ x. x.2) (ok-injective done) in
              let (m, s, loop, made) =
                validate_and_marshal_decodes p.printer "*util.Interface"
                  (p.structs.as_interface new_interface) e e1 v (bb_checks p pchecks) new_interface
                  res (decodes ∙ ap (λ b. ok (e1, res, b)) good) in
              subst (λ x. S x.parameters) (ap (λ x. x.1) (ok-injective done))
                (rw good' (
                  from_res res s.res (checks-HasJust m (bb_checks p pchecks) e s refl loop) made (
                    checks-Holds "parameters" IsParams m (bb_checks p pchecks) _ s
                      bb_checks-IsDirect loop (inl refl))))
        ]
      where
        from_res :
            (res : Interface) (m : GoMap Value)
            → HasJust bb_keys m
            → p.structs.as_interface new_interface m ≡ decoded res
            → Holds "parameters" IsParams m
            → S res.parameters
        from_res res m just made (inl missing) =
            subst S (sym (keeps.unset res m just made missing)) stable.blank
        from_res res m just made (inr (w, here, (q, e, t))) =
            stable.stays q res.parameters (keeps.set res m q just made (here ∙ ap some e)) t

  pub bond-types :
      (address : ℕ) (e e' : Err) (v : Value) (i : Interface)
      → KeepsTexts p
      → bond p address e v ≡ ok (e', i, true)
      → HasTypes i.parameters
  unfolding bond bond_params all_own
  bond-types address e e' v i keeps h = (
    bb-keeps "primary" IsText _ primary-IsStable (bond_params p) bond-primary refl (inl refl) keeps
        "bond" address e e' v i h,
    inl (
        bb-keeps "wakeonlan" NoValue _ (absent-IsStable "wakeonlan") (bond_params p) bond-unwoken
          refl (inl refl) keeps "bond" address e e' v i h),
  )

  pub bridge-types :
      (address : ℕ) (e e' : Err) (v : Value) (i : Interface)
      → KeepsTexts p
      → bridge p address e v ≡ ok (e', i, true)
      → HasTypes i.parameters
  unfolding bridge bridge_params all_own
  bridge-types address e e' v i keeps h = (
    inl (
        bb-keeps "primary" NoValue _ (absent-IsStable "primary") (bridge_params p) bridge-unprimary
          refl (inr refl) keeps "bridge" address e e' v i h),
    inl (
        bb-keeps "wakeonlan" NoValue _ (absent-IsStable "wakeonlan") (bridge_params p)
          bridge-unwoken refl (inr refl) keeps "bridge" address e e' v i h),
  )
