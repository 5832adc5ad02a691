-- ===== src/Validators/Honest.antt =====
-- What the validators report, and which numbers ValidateInt accepts.
use mathlib.Core.Bool.{false≢true}
use netwrangler.Base.{
  ◌↔◌, String, Bool, true, false, not, ◌≡◌, refl, ap, inl, inr, none, some, List, [], ◌∷◌, arith,
  Option-cases, Bool-cases, ⊎_elim, some_cancel, length, sym, ◌∙◌, Option, if◌then◌else◌, subst,
}
use netwrangler.Text.Int.{ℤ, ◌≤ℤ◌}
use netwrangler.Net.{IpNet, Gnet, is_ip4}
use netwrangler.Value.{Value}
use netwrangler.Outcome.{ok, ok-injective}
use netwrangler.Err.{Err}
use netwrangler.Validators.{
  Printer, Json, Decoded, decoded, refused, as_int, validate_int, vb, vi, vs,
}
use netwrangler.Validators.Decoding.{validate_ip, vip, vip_of, vips, vmac, vss}
use netwrangler.Validators.Laws.{
  Reports, errorf-Reports, IsHonest, validate_bool-Reports, validate_int-Reports,
  validate_str-Reports, validate_mac-Reports, validate_ip-Reports, validate_ips-Reports,
  strs_from-Reports,
}

returned-Reports :
    (e : Err) (made : Err × Value × Bool) (e' : Err) (r : Value) (valid : Bool)
    → Reports e made.0 made.2
    → ok made ≡ ok (e', r, valid)
    → Reports e e' valid
returned-Reports e made e' r valid h same = subst (λ x. Reports e x.0 x.2) (ok-injective same) h

vss-IsHonest : (t : Printer) (j : Json) (vals : List String) → IsHonest (vss t j vals)
unfolding vss
vss-IsHonest t j vals = record {
  reports = λ e k v e' r valid h. by_decoding e k v e' r valid (j.as_strings v) refl h;
}
  where
    by_decoding :
        (e : Err) (k : String) (v : Value) (e' : Err) (r : Value) (valid : Bool)
        (d : Decoded (List String))
        → j.as_strings v ≡ d
        → vss t j vals e k v ≡ ok (e', r, valid)
        → Reports e e' valid
    by_decoding e k v e' r valid (decoded ss) found h =
        returned-Reports e _ e' r valid (strs_from-Reports e k ss vals) (rw (found, vss) at h)
    by_decoding e k v e' r valid (refused ss error) found h =
        returned-Reports e _ e' r valid
          (errorf-Reports e
            (k ∷ ": Failed to translate " ∷ t.value_text v ∷ " into a string slice: " ∷ error ∷ []))
          (rw (found, vss) at h)

-- VB, VI, VS, VSS, VIP, VIPS and VMAC add a message if they refuse a value, and change nothing
-- if they accept it.
pub validators-IsHonest :
    (t : Printer) (j : Json) (g : Gnet) (min max : ℤ) (vals : List String) (cidr : Bool)
    → IsHonest (vb t)
      × IsHonest (vi t min max)
      × IsHonest (vs t vals)
      × IsHonest (vss t j vals)
      × IsHonest (vip t j)
      × IsHonest (vips t j g cidr)
      × IsHonest (vmac t j)
validators-IsHonest t j g min max vals cidr = (
  record {
    reports = λ e k v e' r valid. returned-Reports e _ e' r valid (validate_bool-Reports t e k v);
  },
  record {
    reports =
        λ e k v e' r valid. returned-Reports e _ e' r valid (validate_int-Reports t e k v min max);
  },
  record {
    reports =
        λ e k v e' r valid. returned-Reports e _ e' r valid (validate_str-Reports t e k v vals);
  },
  vss-IsHonest t j vals,
  record {
    reports =
        λ e k v e' r valid. returned-Reports e _ e' r valid (validate_ip-Reports t j e k v _ refl);
  },
  record {
    reports = λ e k v e' r valid.
        returned-Reports e _ e' r valid (validate_ips-Reports t j g e k v cidr _ refl);
  },
  record {
    reports =
        λ e k v e' r valid. returned-Reports e _ e' r valid (validate_mac-Reports t j e k v _ refl);
  },
)

verdict_of :
    (four test valid : Bool)
    → valid ≡ (if four then test else not test)
    → (valid ≡ true → test ≡ four) × (valid ≡ false → test ≡ not four)
verdict_of true test valid h = ground (arith, h)
verdict_of false test valid h = ground (arith, h)

not_both : (four test : Bool) → test ≡ four → test ≡ not four → ⊥
not_both true test h k = false≢true (sym k ∙ h)
not_both false test h k = false≢true (sym h ∙ k)

quiet_refusal : {e e' : Err} {valid : Bool} → Reports e e' valid → e' ≡ e → valid ≡ false → ⊥
quiet_refusal {e} {e'} (inl (good, s)) same bad = false≢true (sym bad ∙ good)
quiet_refusal {e} {e'} (inr (b, more)) same bad = omega (arith, more, ap (λ x. length x.msgs) same)

-- ValidateIP accepts the value as an address that is not of the family.
abbrev pub IsOther : Printer → Json → Bool → Err → String → Value → Type 0
IsOther t j v4 e k v =
    (a : IpNet) × (validate_ip t j e k v ≡ (e, some a, true)) × (is_ip4 a.ip ≡ not v4)

-- If VIP4 or VIP6 returns, it adds a message if it refuses the value and changes nothing if it
-- accepts it, exactly unless ValidateIP accepts the value as an address of the other family.
pub vip_of-Reports_iff :
    (t : Printer) (j : Json) (v4 : Bool) (e : Err) (k : String) (v : Value) (e' : Err) (r : Value)
    (valid : Bool)
    → vip_of t j v4 e k v ≡ ok (e', r, valid)
    → Reports e e' valid ↔ ¬ IsOther t j v4 e k v
unfolding vip_of
vip_of-Reports_iff t j v4 e k v e' r valid h =
    by_result (validate_ip t j e k v).0 (validate_ip t j e k v).1 (validate_ip t j e k v).2 refl
  where
    by_family :
        (four : Bool) (a : IpNet)
        → v4 ≡ four
        → validate_ip t j e k v ≡ (e, some a, true)
        → (e' ≡ e) × (valid ≡ (if four then is_ip4 a.ip else not (is_ip4 a.ip)))
    by_family true a kind found =
        let done = ok-injective (rw (found, vip_of, kind) at h) in
        (sym (ap (λ x. x.0) done), sym (ap (λ x. x.2) done))
    by_family false a kind found =
        let done = ok-injective (rw (found, vip_of, kind) at h) in
        (sym (ap (λ x. x.0) done), sym (ap (λ x. x.2) done))

    by_result :
        (e1 : Err) (a : Option IpNet) (b : Bool)
        → validate_ip t j e k v ≡ (e1, a, b)
        → Reports e e' valid ↔ ¬ IsOther t j v4 e k v
    by_result e1 a false found =
        let done = ok-injective (rw (found, vip_of) at h) in
        let reported : Reports e e1 false =
          subst (λ x. Reports e x.0 x.2) found (validate_ip-Reports t j e k v _ refl) in
        (
          λ reports (a', accepted, other). false≢true (ap (λ x. x.2) (sym found ∙ accepted)),
          λ other. subst (λ x. Reports e x.0 x.2) done reported,
        )
    by_result e1 none true found = absurd (cc (rw (found, vip_of) at h))
    by_result e1 (some a) true found =
        let reported : Reports e e1 true =
          subst (λ x. Reports e x.0 x.2) found (validate_ip-Reports t j e k v _ refl) in
        let same : e1 ≡ e = ⊎_elim (λ (b, s). s) (λ (b, s). absurd (false≢true (sym b))) reported in
        let accepted : validate_ip t j e k v ≡ (e, some a, true) =
          found ∙ ap (λ x. (x, some a, true)) same in
        let (kept, verdict) = by_family v4 a refl accepted in
        elim (Bool-cases valid) [
          | inl good ↦ (
            λ reports (a', again, other).
                not_both v4 (is_ip4 a.ip) ((verdict_of v4 (is_ip4 a.ip) valid verdict).0 good) (
                  ap (λ x. is_ip4 x.ip) (some_cancel (ap (λ x. x.1) (sym accepted ∙ again)))
                  ∙ other),
            λ n. inl (good, kept),
          )
          | inr bad ↦ (
            λ reports other. quiet_refusal reports kept bad,
            λ n. absurd (n (a, accepted, (verdict_of v4 (is_ip4 a.ip) valid verdict).1 bad)),
          )
        ]

-- A number that ValidateInt accepts lies between the bounds, and is what its switch made of the
-- value.
pub validate_int-range :
    (t : Printer) (e : Err) (k : String) (v : Value) (min max : ℤ) (e' : Err) (res : ℤ)
    → validate_int t e k v min max ≡ (e', res, true)
    → (min ≤ℤ res) × (res ≤ℤ max) × (as_int t k v ≡ (res, none))
unfolding validate_int
validate_int-range t e k v min max e' res h = elim (Option-cases (as_int t k v).1) [
  | inr (pieces, wrong) ↦ absurd (false≢true (ap (λ x. x.2) (rw (wrong, validate_int) at h)))
  | inl number ↦
      let inside = rw (number, validate_int) at h in
      let bounds : (min ≤ℤ res) × (res ≤ℤ max) × ((as_int t k v).0 ≡ res) =
        ground (arith, inside) in
      (bounds.0, bounds.1, cc (bounds.2, number))
]
