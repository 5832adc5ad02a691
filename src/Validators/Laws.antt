-- ===== src/Validators/Laws.antt =====
-- What the checkers of util/validate.go report.
use netwrangler.Base.{
  subst, ◌≤◌, ◌<◌, String, Bool, true, false, ◌&&◌, ◌≡◌, refl, ◌⊎◌, inl, inr, Option, List, [], ◌∷◌,
  length, arith, Option-cases,
}
use netwrangler.Text.{bool_text, decimal}
use netwrangler.Text.Int.{ℤ}
use netwrangler.Net.{HardwareAddr, IpNet, Gnet}
use netwrangler.Value.{Value}
use netwrangler.Outcome.{ok}
use netwrangler.Err.{Err, errorf}
use netwrangler.Err.Laws.{length-errorf}
use netwrangler.Checks.{validate_str_in, ip_list_from, validate_ip_list}
use netwrangler.Validators.{
  Printer, Json, Decoded, decoded, refused, Validator, as_bool, held_str, validate_bool, as_int,
  validate_int, validate_str,
}
use netwrangler.Validators.Decoding.{
  recast, held_hardware_addr, held_ip, held_ips, validate_mac, validate_ip, validate_ips, strs_from,
}

-- Valid and nothing reported, or invalid and something reported.
abbrev pub Reports : Err → Err → Bool → Type 0
Reports e e' valid = (valid ≡ true) × (e' ≡ e) ⊎ (valid ≡ false) × (length e.msgs < length e'.msgs)

pub record IsHonest (c : Validator) : Type 0 where
  pub reports :
      (e : Err) (k : String) (v : Value) (e' : Err) (r : Value) (valid : Bool)
      → c e k v ≡ ok (e', r, valid)
      → Reports e e' valid

pub errorf-Reports : (e : Err) (pieces : List String) → Reports e (errorf e pieces) false
errorf-Reports e pieces = inr (refl, ground (arith, length-errorf e pieces))

validate_str_in-Reports :
    (e : Err) (k s : String) (vals : List String)
    → Reports e (validate_str_in e k s vals).0 (validate_str_in e k s vals).1
unfolding validate_str_in
validate_str_in-Reports e k s vals =
    ground (arith, length-errorf e (k ∷ ": " ∷ s ∷ ": Not in valid set: " ∷ bool_text false ∷ []))

pub validate_bool-Reports :
    (t : Printer) (e : Err) (k : String) (v : Value)
    → Reports e (validate_bool t e k v).0 (validate_bool t e k v).2
unfolding validate_bool
validate_bool-Reports t e k v = elim (Option-cases (as_bool v)) [
  | inl not_bool ↦
      rw (not_bool, validate_bool)
        (errorf-Reports e (k ∷ ": Cannot cast " ∷ t.value_text v ∷ " to a boolean" ∷ []))
  | inr (b, found) ↦ rw (found, validate_bool) (inl (refl, refl))
]

pub validate_int-Reports :
    (t : Printer) (e : Err) (k : String) (v : Value) (min max : ℤ)
    → Reports e (validate_int t e k v min max).0 (validate_int t e k v min max).2
unfolding validate_int
validate_int-Reports t e k v min max = elim (Option-cases (as_int t k v).1) [
  | inr (pieces, wrong) ↦ rw (wrong, validate_int) (errorf-Reports e pieces)
  | inl number ↦
      rw (number, validate_int)
        (ground (
          arith,
          length-errorf e (
              k
              ∷ ": "
              ∷ decimal (as_int t k v).0
              ∷ " out of range "
              ∷ decimal min
              ∷ ":"
              ∷ decimal max
              ∷ []),
        ))
]

pub validate_str-Reports :
    (t : Printer) (e : Err) (k : String) (v : Value) (vals : List String)
    → Reports e (validate_str t e k v vals).0 (validate_str t e k v vals).2
unfolding validate_str
validate_str-Reports t e k v vals = elim (Option-cases (held_str v)) [
  | inr (s, text) ↦ rw (text, validate_str) (validate_str_in-Reports e k s vals)
  | inl not_text ↦
      rw (not_text, validate_str)
        (errorf-Reports e (k ∷ ": " ∷ t.value_text v ∷ " is not a string" ∷ []))
]

-- A check behind one that failed, and behind one that passed.
pub Reports-after :
    (e t e' : Err) (first second : Bool)
    → Reports e t first
    → Reports t e' second
    → Reports e e' (first && second)
Reports-after e t e' true second (inl (_, same)) after = subst (λ x. Reports x e' second) same after
Reports-after e t e' false second (inr (_, more)) (inl (_, same)) =
    inr (refl, ground (arith, more, same))
Reports-after e t e' false second (inr (_, more)) (inr (_, more')) =
    inr (refl, omega (arith, more, more'))
Reports-after e t e' true second (inr (wrong, _)) after = cc
Reports-after e t e' false second (inl (wrong, _)) after = cc

pub strs_from-Reports :
    (e : Err) (k : String) (ss vals : List String)
    → Reports e (strs_from e k ss vals).0 (strs_from e k ss vals).1
unfolding strs_from
strs_from-Reports e k [] vals = inl (refl, refl)
strs_from-Reports e k (s ∷ ss) vals =
    let one = validate_str_in e k s vals in
    let others = strs_from one.0 k ss vals in
    Reports-after e one.0 others.0 one.1 others.1 (validate_str_in-Reports e k s vals)
      (strs_from-Reports one.0 k ss vals)

ip_list_failed :
    (g : Gnet) (e : Err) (k : String) (addrs : List IpNet) (cidr : Bool)
    → ((ip_list_from g e k addrs cidr false).1 ≡ false)
      × (length e.msgs ≤ length (ip_list_from g e k addrs cidr false).0.msgs)
unfolding ip_list_from
ip_list_failed g e k [] cidr = ground arith
ip_list_failed g e k (addr ∷ addrs) cidr =
    let message = k ∷ ": " ∷ g.net_string addr ∷ " is not in the expected format" ∷ [] in
    ground (
      arith,
      length-errorf e message,
      ip_list_failed g e k addrs cidr,
      ip_list_failed g (errorf e message) k addrs cidr,
    )

ip_list_from-Reports :
    (g : Gnet) (e : Err) (k : String) (addrs : List IpNet) (cidr : Bool)
    → Reports e (ip_list_from g e k addrs cidr true).0 (ip_list_from g e k addrs cidr true).1
unfolding ip_list_from
ip_list_from-Reports g e k [] cidr = inl (refl, refl)
ip_list_from-Reports g e k (addr ∷ addrs) cidr =
    let message = k ∷ ": " ∷ g.net_string addr ∷ " is not in the expected format" ∷ [] in
    ground (
      arith,
      length-errorf e message,
      ip_list_from-Reports g e k addrs cidr,
      ip_list_failed g (errorf e message) k addrs cidr,
    )

validate_ip_list-Reports :
    (g : Gnet) (e : Err) (k : String) (addrs : List IpNet) (cidr : Bool)
    → Reports e (validate_ip_list g e k addrs cidr).0 (validate_ip_list g e k addrs cidr).1
unfolding validate_ip_list
validate_ip_list-Reports g e k addrs cidr = ip_list_from-Reports g e k addrs cidr

module _ (t : Printer) (j : Json) where
  pub validate_mac-Reports :
      (e : Err) (k : String) (v : Value) (a : Decoded HardwareAddr)
      → recast (held_hardware_addr v) (j.as_hardware_addr v) ≡ a
      → Reports e (validate_mac t j e k v).0 (validate_mac t j e k v).2
  unfolding validate_mac
  validate_mac-Reports e k v (decoded a) h = rw (h, validate_mac) (inl (refl, refl))
  validate_mac-Reports e k v (refused a error) h = rw (h, validate_mac) (errorf-Reports e _)

  pub validate_ip-Reports :
      (e : Err) (k : String) (v : Value) (a : Decoded (Option IpNet))
      → recast (held_ip v) (j.as_ip v) ≡ a
      → Reports e (validate_ip t j e k v).0 (validate_ip t j e k v).2
  unfolding validate_ip
  validate_ip-Reports e k v (decoded a) h = rw (h, validate_ip) (inl (refl, refl))
  validate_ip-Reports e k v (refused a error) h = rw (h, validate_ip) (errorf-Reports e _)

  pub validate_ips-Reports :
      (g : Gnet) (e : Err) (k : String) (v : Value) (cidr : Bool) (a : Decoded (List IpNet))
      → recast (held_ips v) (j.as_ips v) ≡ a
      → Reports e (validate_ips t j g e k v cidr).0 (validate_ips t j g e k v cidr).2
  unfolding validate_ips
  validate_ips-Reports g e k v cidr (decoded a) h =
      rw (h, validate_ips) (validate_ip_list-Reports g e k a cidr)
  validate_ips-Reports g e k v cidr (refused a error) h = rw (h, validate_ips) (errorf-Reports e _)
