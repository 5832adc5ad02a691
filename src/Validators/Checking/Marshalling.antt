-- ===== src/Validators/Checking/Marshalling.antt =====
-- What ValidateAndMarshal reports, and what it has checked if it reports nothing.
use mathlib.Core.Bool.{false≢true}
use netwrangler.Base.{
  String, Bool, true, false, ◌≡◌, refl, ap, inl, inr, some, List, [], ◌∷◌, Memᴰ, Option-cases,
  Bool-cases, subst,
}
use netwrangler.GoMap.{GoMap, get}
use netwrangler.Value.{Value}
use netwrangler.Outcome.{ok, ok-injective, >>=-eq-ok, each}
use netwrangler.Err.{Err, errorf}
use netwrangler.Validators.{Printer, Decoded, decoded, refused}
use netwrangler.Validators.Checking.{
  Check, Collected, check_step, as_dict, marshal, validate_and_marshal,
}
use netwrangler.Validators.Laws.{Reports, errorf-Reports, Reports-after}
use netwrangler.Validators.Checking.Laws.{AreHonest, checks-Reports, IsAccepted, checks-IsAccepted}

module _ {ℓ} {T : Type ℓ} (t : Printer) (target : String) (decode : GoMap Value → Decoded T) where
  abbrev first_state : Err → Collected
  first_state e = record { err = e; res = []; valid = true }

  marshal-Reports :
      (e : Err) (old : T) (s : Collected)
      → Reports e s.err s.valid
      → Reports e (marshal t target decode old s).0 (marshal t target decode old s).2
  marshal-Reports e old s h = elim (Bool-cases s.valid) [
    | inr invalid ↦ rw invalid (subst (Reports e s.err) invalid h)
    | inl valid ↦ rw valid (by_decoding (decode s.res) (subst (Reports e s.err) valid h))
  ]
    where
      decoded_as : Decoded T → Err × T × Bool
      decoded_as (decoded val) = (s.err, val, true)
      decoded_as (refused val error) =
          (errorf s.err ("Error converting to " ∷ target ∷ ": " ∷ error ∷ []), val, false)

      by_decoding :
          (d : Decoded T) → Reports e s.err true → Reports e (decoded_as d).0 (decoded_as d).2
      by_decoding (decoded val) r = r
      by_decoding (refused val error) r =
          Reports-after e s.err _ true false r
            (errorf-Reports s.err ("Error converting to " ∷ target ∷ ": " ∷ error ∷ []))

  marshal-valid :
      (old : T) (s : Collected) → (marshal t target decode old s).2 ≡ true → s.valid ≡ true
  marshal-valid old s h = elim (Bool-cases s.valid) [
    | inl valid ↦ valid
    | inr invalid ↦ absurd (false≢true (rw invalid at h))
  ]

  -- If all checks report what they refuse, then ValidateAndMarshal, where it returns, is either
  -- valid and leaves the collector as it was, or invalid with messages added.
  pub validate_and_marshal-Reports :
      (e : Err) (vals : Value) (checks : List (String × Check)) (old : T) (e' : Err) (val : T)
      (valid : Bool)
      → AreHonest checks
      → validate_and_marshal t target decode e vals checks old ≡ ok (e', val, valid)
      → Reports e e' valid
  unfolding validate_and_marshal
  validate_and_marshal-Reports e vals checks old e' val valid honest h =
      elim (Option-cases (as_dict vals)) [
        | inl other ↦
            subst (λ x. Reports e x.0 x.2) (ok-injective (rw (other, validate_and_marshal) at h))
              (errorf-Reports e ("cannot validate format " ∷ t.type_text vals ∷ []))
        | inr (m, found) ↦
            let (s, loop, done) =
              >>=-eq-ok (each (check_step m) checks (first_state e))
                (λ s. ok (marshal t target decode old s)) (rw (found, validate_and_marshal) at h) in
            subst (λ x. Reports e x.0 x.2) (ok-injective done)
              (marshal-Reports e old s
                (checks-Reports m checks e (first_state e) s honest (inl (refl, refl)) loop))
      ]

  -- If ValidateAndMarshal is valid on a map, then every value in the map that has a check was
  -- accepted by that check.
  pub validate_and_marshal-IsAccepted :
      (e : Err) (m : GoMap Value) (vals : Value) (checks : List (String × Check)) (old : T)
      (e' : Err) (val : T) (key : String) (c : Check) (v : Value)
      → validate_and_marshal t target decode e vals checks old ≡ ok (e', val, true)
      → Memᴰ (key, c) checks
      → as_dict vals ≡ some m
      → get key m ≡ some v
      → IsAccepted key c v
  unfolding validate_and_marshal
  validate_and_marshal-IsAccepted e m vals checks old e' val key c v h i found there =
      let (s, loop, done) =
        >>=-eq-ok (each (check_step m) checks (first_state e))
          (λ s. ok (marshal t target decode old s)) (rw (found, validate_and_marshal) at h) in
      (checks-IsAccepted m checks (first_state e) s loop
          (marshal-valid old s (ap (λ x. x.2) (ok-injective done)))).1
        key c v i there
