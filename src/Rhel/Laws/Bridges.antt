-- ===== src/Rhel/Laws/Bridges.antt =====
-- For which bridges the Red Hat writer returns.
use netwrangler.Base.{
  Bool, true, false, ◌≡◌, refl, ap, ◌↔◌, ◌⊎◌, inl, inr, none, some, ◌++◌, ⊎_elim, some_cancel,
  Option-cases,
}
use netwrangler.Text.Int.{ℤ}
use netwrangler.GoMap.{GoMap, get}
use netwrangler.Value.{Value, bool, int}
use netwrangler.Outcome.{ok, ◌>>=◌, >>=-eq-ok}
use netwrangler.Outcome.Returns.{Returns}
use netwrangler.Layout.{Interface}
use netwrangler.Rhel.{write_key}
use netwrangler.Rhel.Devices.{assert_bool, delay_lines, forward_delay, stp_lines, bridge_lines}

pub assert_bool-Returns : (v : Value) → Returns (assert_bool v) ↔ ((b : Bool) × (v ≡ bool b))
assert_bool-Returns (bool b) = (λ h. (b, refl), λ h. (b, refl))
assert_bool-Returns _ = (λ (b, e). cc, λ (b, e). cc)

-- What the writer asserts of the parameters of a bridge: a flag for stp and, if it is set, an int for
-- the forward delay.
abbrev pub IsPlainBridge : GoMap Value → Type 0
IsPlainBridge m =
    (get "stp" m ≡ none)
    ⊎ (get "stp" m ≡ some (bool false))
    ⊎ (get "stp" m ≡ some (bool true))
      × ((get "forward-delay" m ≡ none) ⊎ ((n : ℤ) × (get "forward-delay" m ≡ some (int n))))

delay-Returns : (v : Value) → Returns (delay_lines v) ↔ ((n : ℤ) × (v ≡ int n))
delay-Returns (int n) = (λ h. (n, refl), λ h. (_, refl))
delay-Returns _ = (λ (b, e). cc, λ (b, e). cc)

forward_delay-Returns :
    (m : GoMap Value)
    → Returns (forward_delay m)
      ↔ ((get "forward-delay" m ≡ none) ⊎ ((n : ℤ) × (get "forward-delay" m ≡ some (int n))))
unfolding forward_delay
forward_delay-Returns m = elim (Option-cases (get "forward-delay" m)) [
  | inl missing ↦ (λ h. inl missing, λ h. rw (missing, forward_delay) (_, refl))
  | inr (v, here) ↦ rw (here, forward_delay) (found v)
]
  where
    found :
        (v : Value)
        → Returns (delay_lines v) ↔ ((some v ≡ none) ⊎ ((n : ℤ) × (some v ≡ some (int n))))
    found v =
        let (to, from) = delay-Returns v in
        (
          λ h. inr (let (n, e) = to h in (n, ap some e)),
          λ h. ⊎_elim (λ e. absurd (cc e)) (λ (n, e). from (n, some_cancel e)) h,
        )

pub bridge_lines-Returns : (i : Interface) → Returns (bridge_lines i) ↔ IsPlainBridge i.parameters
unfolding bridge_lines
bridge_lines-Returns i = elim (Option-cases (get "stp" i.parameters)) [
  | inl missing ↦ (λ h. inl missing, λ h. rw (missing, bridge_lines) (_, refl))
  | inr (v, here) ↦ rw (here, bridge_lines) (found i.parameters v)
]
  where
    found :
        (m : GoMap Value) (v : Value)
        → Returns (
            assert_bool v >>= λ stp.
            stp_lines m stp >>= λ lines. ok (write_key "TYPE" "Bridge" ++ lines))
          ↔ ((some v ≡ none)
              ⊎ (some v ≡ some (bool false))
              ⊎ (some v ≡ some (bool true))
                × ((get "forward-delay" m ≡ none)
                    ⊎ ((n : ℤ) × (get "forward-delay" m ≡ some (int n)))))
    found m (bool false) = (λ h. inr (inl refl), λ h. (_, refl))
    found m (bool true) =
        let (to, from) = forward_delay-Returns m in
        (
          λ (lines, e).
              (let (lines', e', done) =
                  >>=-eq-ok (stp_lines m true) (λ lines. ok (write_key "TYPE" "Bridge" ++ lines))
                    e in
                let (delay, here, done') =
                  >>=-eq-ok (forward_delay m) (λ delay. ok (write_key "STP" "yes" ++ delay)) e' in
                inr (inr (refl, to (delay, here)))),
          λ h.
              ⊎_elim (λ e. absurd (cc e))
                (λ h'.
                  ⊎_elim (λ e. absurd (cc e))
                    (λ (e, plain). let (delay, here) = from plain in rw here (_, refl)) h')
                h,
        )
    found m _ = (
      λ (b, e). cc,
      λ h.
          ⊎_elim (λ e. absurd (cc e))
            (λ h'. ⊎_elim (λ e. absurd (cc e)) (λ (e, plain). absurd (cc e)) h') h,
    )
