-- ===== src/Validators/Checking/Stored.antt =====
-- What the loop of ValidateAndMarshal stores under a key.
use mathlib.Core.Bool.{false≢true}
use netwrangler.Base.{
  String, Bool, true, false, ◌≡◌, Bool-cases, ◌==◌, refl, sym, ap, ◌∙◌, ◌⊎◌, inl, inr, none, some,
  List, [], Option-cases, All, All-Memᴰ, ◌∷◌, ◌&&◌, arith, eq_iff, subst, ⊎_elim, differ_by,
  str_cases,
}
use netwrangler.GoMap.{GoMap, get, put, keys}
use netwrangler.GoMap.Laws.{get-put_self, get-put_other}
use netwrangler.Value.{Value}
use netwrangler.Outcome.{ok, ok-injective, >>=-eq-ok, each, each_inv}
use netwrangler.Err.{Err}
use netwrangler.Validators.{Printer, Decoded, decoded, refused}
use netwrangler.Validators.Checking.{
  Check, check_validate, check_key, Collected, store, fill, check_step, as_dict, marshal,
  validate_and_marshal,
}
use netwrangler.Validators.Checking.Laws.{check_step_cases}

-- Nothing is stored under the key, or a value with the property.
abbrev pub Holds {ℓ} : String → (Value → Type ℓ) → GoMap Value → Type ℓ
Holds name R m = (get name m ≡ none) ⊎ ((w : Value) × (get name m ≡ some w) × R w)

-- A check that stores under its own key, which is another key, or has neither a default nor a translator
-- and accepts just values with the property.
pub record IsDirect {ℓ} (name : String) (R : Value → Type ℓ) (key : String) (c : Check)
    : Type ℓ where
  pub new_key : c.new_key ≡ ""
  pub accepts :
      ((key == name) ≡ false)
      ⊎ (c.default ≡ none)
        × (c.translate ≡ none)
        × ((e e' : Err) (v w : Value) → check_validate c e key v ≡ ok (e', w, true) → R w)

module _ {ℓ} (name : String) (R : Value → Type ℓ) where
  put_other :
      (key : String) (w : Value) (res : GoMap Value)
      → (key == name) ≡ false
      → Holds name R res
      → Holds name R (put key w res)
  put_other key w res differ before = rw (get-put_other key name w res (differ_by differ)) before

  store-Holds :
      (key : String) (c : Check) (e : Err) (v : Value) (res : GoMap Value) (valid : Bool)
      (r : Err × Value × Bool)
      → IsDirect name R key c
      → check_validate c e key v ≡ ok r
      → Holds name R res
      → Holds name R (store c key res valid r).res
  unfolding store check_key
  store-Holds key c e v res valid (e', w, false) d h before = before
  store-Holds key c e v res valid (e', w, true) d h before =
      rw (d.new_key, store)
        (⊎_elim (λ differ. put_other key _ res differ before)
          (λ (default, translate, accepts). rw translate (same accepts)) d.accepts)
    where
      same :
          ((e e' : Err) (v w : Value) → check_validate c e key v ≡ ok (e', w, true) → R w)
          → Holds name R (put key w res)
      same accepts = elim (str_cases key name) [
        | inl here ↦ inr (
          w,
          subst (λ x. get x (put key w res) ≡ some w) here (get-put_self key w res),
          accepts e e' v w h,
        )
        | inr differ ↦ rw (get-put_other key name w res differ) before
      ]

  fill-Holds :
      (key : String) (c : Check) (s : Collected)
      → IsDirect name R key c
      → Holds name R s.res
      → Holds name R (fill c key s).res
  unfolding check_key
  fill-Holds key c s d before = elim (Option-cases c.default) [
    | inl absent ↦ rw absent before
    | inr (v, default) ↦
        rw (default, d.new_key)
          (⊎_elim (λ differ. put_other key v s.res differ before)
            (λ (absent, translate, accepts). absurd (cc (sym absent ∙ default))) d.accepts)
  ]

  pub checks-Holds :
      (m : GoMap Value) (checks : List (String × Check)) (s s' : Collected)
      → All (λ kc. IsDirect name R kc.0 kc.1) checks
      → each (check_step m) checks s ≡ ok s'
      → Holds name R s.res
      → Holds name R s'.res
  checks-Holds m checks s s' direct h before =
      each_inv (check_step m) (λ x. Holds name R x.res) checks
        (λ kc mem x x' q step.
          round kc.0 kc.1 x x' (All-Memᴰ (λ kc. IsDirect name R kc.0 kc.1) checks direct mem) q
            step)
        s s' before h
    where
      round :
          (key : String) (c : Check) (x x' : Collected)
          → IsDirect name R key c
          → Holds name R x.res
          → check_step m (key, c) x ≡ ok x'
          → Holds name R x'.res
      round key c x x' d q step = elim (check_step_cases m key c x x' step) [
        | inl (missing, unchanged) ↦ rw unchanged (fill-Holds key c x d q)
        | inr (v, found, k) ↦
            rw k.stored (store-Holds key c x.err v x.res x.valid k.result d k.checked q)
      ]

abbrev pub NoValue : Value → Type 0
NoValue w = ⊥

-- No key but those of the list has a value.
abbrev pub HasJust : List String → GoMap Value → Type 0
HasJust ks m = (name : String) → All (λ k. (k == name) ≡ false) ks → get name m ≡ none

-- All checks store under their own keys.
unfoldable pub all_own : List (String × Check) → Bool
all_own [] = true
all_own ((key, c) ∷ checks) = (c.new_key == "") && all_own checks

own-IsDirect :
    (name : String) (checks : List (String × Check))
    → all_own checks ≡ true
    → All (λ k. (k == name) ≡ false) (keys checks)
    → All (λ kc. IsDirect name NoValue kc.0 kc.1) checks
unfolding all_own keys
own-IsDirect name [] h others = tt
own-IsDirect name ((key, c) ∷ checks) h (differ, others) = (
  record { new_key = ground (arith, eq_iff c.new_key "", h); accepts = inl differ },
  own-IsDirect name checks (ground (arith, h)) others,
)

-- The loop stores under no other keys than those of the checks.
pub checks-HasJust :
    (m : GoMap Value) (checks : List (String × Check)) (e : Err) (s : Collected)
    → all_own checks ≡ true
    → each (check_step m) checks (record { err = e; res = []; valid = true }) ≡ ok s
    → HasJust (keys checks) s.res
unfolding get
checks-HasJust m checks e s own h name others =
    ⊎_elim (λ missing. missing) (λ (w, here, never). absurd never)
      (checks-Holds name NoValue m checks _ s (own-IsDirect name checks own others) h (inl refl))

Decoded_cases {ℓ} :
    {A : Type ℓ} (d : Decoded A)
    → ((a : A) × (d ≡ decoded a)) ⊎ ((a : A) × (error : String) × (d ≡ refused a error))
Decoded_cases (decoded a) = inl (a, refl)
Decoded_cases (refused a error) = inr (a, error, refl)

-- What is valid was decoded.
marshal_decoded {ℓ} :
    {T : Type ℓ} (t : Printer) (target : String) (decode : GoMap Value → Decoded T) (old res : T)
    (s : Collected) (e : Err)
    → marshal t target decode old s ≡ (e, res, true)
    → decode s.res ≡ decoded res
marshal_decoded t target decode old res s e h = elim (Bool-cases s.valid) [
  | inr invalid ↦ absurd (false≢true (ap (λ x. x.2) (rw invalid at h)))
  | inl valid ↦ elim (Decoded_cases (decode s.res)) [
    | inl (a, here) ↦ here ∙ ap decoded (ap (λ x. x.1) (rw (valid, here) at h))
    | inr (a, error, bad) ↦ absurd (false≢true (ap (λ x. x.2) (rw (valid, bad) at h)))
  ]
]

-- If ValidateAndMarshal is valid, its loop has returned, and what that stored was decoded.
pub validate_and_marshal_decodes {ℓ} :
    {T : Type ℓ} (t : Printer) (target : String) (decode : GoMap Value → Decoded T) (e e' : Err)
    (v : Value) (checks : List (String × Check)) (old res : T)
    → validate_and_marshal t target decode e v checks old ≡ ok (e', res, true)
    → (m : GoMap Value) × (s : Collected) × (each
          (check_step m)
          checks
          (record { err = e; res = []; valid = true })
        ≡ ok s)
      × (decode s.res ≡ decoded res)
unfolding validate_and_marshal
validate_and_marshal_decodes t target decode e e' v checks old res h =
    elim (Option-cases (as_dict v)) [
      | inl other ↦
          absurd (false≢true (ap (λ x. x.2) (ok-injective (rw (other, validate_and_marshal) at h))))
      | inr (m, found) ↦
          let (s, loop, done) =
            >>=-eq-ok (each (check_step m) checks (record { err = e; res = []; valid = true })) _
              (rw (found, validate_and_marshal) at h) in
          (m, s, loop, marshal_decoded t target decode old res s e' (ok-injective done))
    ]
