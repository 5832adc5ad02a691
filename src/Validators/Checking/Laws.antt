-- ===== src/Validators/Checking/Laws.antt =====
-- What the loop of ValidateAndMarshal makes of a map, given checks that report what they refuse.
use mathlib.Core.List.Memᴰ
use netwrangler.Base.{
  String, Bool, true, false, ◌&&◌, ◌≡◌, refl, sym, ap, ◌∙◌, ◌⊎◌, inl, inr, Option, none, some, List,
  [], ◌∷◌, Memᴰ, Option-cases, All, subst, ⊎_elim, some_cancel,
}
use netwrangler.GoMap.{GoMap, get}
use netwrangler.Value.{Value}
use netwrangler.Outcome.{ok, ok-injective, >>=-eq-ok, each}
use netwrangler.Err.{Err}
use netwrangler.Validators.Checking.{Check, check_validate, Collected, store, fill, check_step}
use netwrangler.Validators.Laws.{Reports, Reports-after, IsHonest}

-- What one round has done with a value that is there.
pub record IsChecked (m : GoMap Value) (key : String) (c : Check) (v : Value) (s s' : Collected)
    : Type 0 where
  pub result : Err × Value × Bool
  pub checked : check_validate c s.err key v ≡ ok result
  pub stored : s' ≡ store c key s.res s.valid result

pub check_step_cases :
    (m : GoMap Value) (key : String) (c : Check) (s s' : Collected)
    → check_step m (key, c) s ≡ ok s'
    → (get key m ≡ none) × (s' ≡ fill c key s)
      ⊎ ((v : Value) × (get key m ≡ some v) × IsChecked m key c v s s')
unfolding check_step
check_step_cases m key c s s' h = elim (Option-cases (get key m)) [
  | inl missing ↦ inl (missing, sym (ok-injective (rw (missing, check_step) at h)))
  | inr (v, found) ↦
      let (r, checked, done) =
        >>=-eq-ok (check_validate c s.err key v) (λ r. ok (store c key s.res s.valid r))
          (rw (found, check_step) at h) in
      inr (v, found, record { result = r; checked = checked; stored = sym (ok-injective done) })
]

store-err :
    (c : Check) (key : String) (res : GoMap Value) (valid : Bool) (r : Err × Value × Bool)
    → (store c key res valid r).err ≡ r.0
unfolding store
store-err c key res valid (e, nv, true) = refl
store-err c key res valid (e, nv, false) = refl

store-valid :
    (c : Check) (key : String) (res : GoMap Value) (valid : Bool) (r : Err × Value × Bool)
    → (store c key res valid r).valid ≡ (valid && r.2)
unfolding store
store-valid c key res true (e, nv, true) = refl
store-valid c key res false (e, nv, true) = refl
store-valid c key res true (e, nv, false) = refl
store-valid c key res false (e, nv, false) = refl

fill-same :
    (c : Check) (key : String) (s : Collected)
    → ((fill c key s).err ≡ s.err) × ((fill c key s).valid ≡ s.valid)
fill-same c key s = by_default c.default refl
  where
    by_default :
        (d : Option Value)
        → c.default ≡ d
        → ((fill c key s).err ≡ s.err) × ((fill c key s).valid ≡ s.valid)
    by_default none h = rw h (refl, refl)
    by_default (some d) h = rw h (refl, refl)

-- Every check reports what it refuses.
abbrev pub AreHonest : List (String × Check) → Type 0
AreHonest checks = All (λ kc. IsHonest (check_validate kc.1)) checks

check_step-Reports :
    (m : GoMap Value) (key : String) (c : Check) (e : Err) (s s' : Collected)
    → IsHonest (check_validate c)
    → Reports e s.err s.valid
    → check_step m (key, c) s ≡ ok s'
    → Reports e s'.err s'.valid
check_step-Reports m key c e s s' honest before h = elim (check_step_cases m key c s s' h) [
  | inl (missing, same) ↦ rw (same, (fill-same c key s).0, (fill-same c key s).1) before
  | inr (v, found, k) ↦
      rw
        (k.stored, store-err c key s.res s.valid k.result, store-valid c key s.res s.valid k.result)
        (Reports-after e s.err k.result.0 s.valid k.result.2 before
          (honest.reports s.err key v k.result.0 k.result.1 k.result.2 k.checked))
]

pub checks-Reports :
    (m : GoMap Value) (checks : List (String × Check)) (e : Err) (s s' : Collected)
    → AreHonest checks
    → Reports e s.err s.valid
    → each (check_step m) checks s ≡ ok s'
    → Reports e s'.err s'.valid
unfolding each
checks-Reports m [] e s s' honest before h =
    subst (λ x. Reports e x.err x.valid) (ok-injective h) before
checks-Reports m ((key, c) ∷ checks) e s s' (honest, others) before h =
    let (t, first, rest) = >>=-eq-ok (check_step m (key, c) s) (each (check_step m) checks) h in
    checks-Reports m checks e t s' others (check_step-Reports m key c e s t honest before first)
      rest

-- The check of a key accepted a value, whatever was reported before.
pub record IsAccepted (key : String) (c : Check) (v : Value) : Type 0 where
  pub before : Err
  pub after : Err
  pub value : Value
  pub accepted : check_validate c before key v ≡ ok (after, value, true)

both_true : (a b : Bool) → (a && b) ≡ true → (a ≡ true) × (b ≡ true)
both_true true b h = (refl, h)
both_true false b h = cc

check_step-IsAccepted :
    (m : GoMap Value) (key : String) (c : Check) (s t : Collected)
    → check_step m (key, c) s ≡ ok t
    → t.valid ≡ true
    → (s.valid ≡ true) × ((v : Value) → get key m ≡ some v → IsAccepted key c v)
check_step-IsAccepted m key c s t h valid = elim (check_step_cases m key c s t h) [
  | inl (missing, same) ↦ (
    sym (fill-same c key s).1 ∙ ap (λ x. x.valid) (sym same) ∙ valid,
    λ v found. absurd (none≢some (sym missing ∙ found)),
  )
  | inr (w, there, k) ↦
      let (valid_s, valid_r) = both_true s.valid k.result.2 (
        sym (store-valid c key s.res s.valid k.result)
        ∙ ap (λ x. x.valid) (sym k.stored)
        ∙ valid) in
      (
        valid_s,
        λ v found. subst (IsAccepted key c) (some_cancel (sym there ∙ found)) (record {
          before = s.err;
          after = k.result.0;
          value = k.result.1;
          accepted = rw (← valid_r) k.checked;
        }),
      )
]
  where
    none≢some : {v : Value} → none ≡ some v → ⊥
    none≢some e = cc

-- A valid end has a valid start, and every value that was there was accepted.
pub checks-IsAccepted :
    (m : GoMap Value) (checks : List (String × Check)) (s s' : Collected)
    → each (check_step m) checks s ≡ ok s'
    → s'.valid ≡ true
    → (s.valid ≡ true)
      × ((key : String) (c : Check) (v : Value)
          → Memᴰ (key, c) checks
          → get key m ≡ some v
          → IsAccepted key c v)
unfolding each
checks-IsAccepted m [] s s' h valid =
    (ap (λ x. x.valid) (ok-injective h) ∙ valid, λ key c v i found. absurd (Memᴰ.not-nil i))
checks-IsAccepted m ((key, c) ∷ checks) s s' h valid =
    let (t, first, rest) = >>=-eq-ok (check_step m (key, c) s) (each (check_step m) checks) h in
    let (valid_t, later) = checks-IsAccepted m checks t s' rest valid in
    let (valid_s, here) = check_step-IsAccepted m key c s t first valid_t in
    (
      valid_s,
      λ key' c' v i found.
          ⊎_elim
            (λ same.
              subst (λ kc. get kc.0 m ≡ some v → IsAccepted kc.0 kc.1 v) (sym same) (here v) found)
            (λ i'. later key' c' v i' found) (Memᴰ.cases_cons i),
    )
