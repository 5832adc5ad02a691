-- ===== src/Validators/Decoding.antt =====
-- util/validate.go: the checkers that decode a value through Remarshal.
use netwrangler.Base.{String, Bool, true, false, not, ◌&&◌, Option, none, some, List, [], ◌∷◌}
use netwrangler.Net.{HardwareAddr, IpNet, Gnet, is_ip4}
use netwrangler.Value.{Value, nil, strings, hardware_addr, ip, ip_list}
use netwrangler.Outcome.{Outcome, ok, panic, ◌>>=◌}
use netwrangler.Err.{Err, errorf}
use netwrangler.Checks.{validate_str_in, validate_ip_list}
use netwrangler.Validators.{Printer, Json, Decoded, decoded, refused, Validator}

-- A value that has the type already, or what Remarshal makes of it.
abbrev pub recast {ℓ} : {A : Type ℓ} → Option A → Decoded A → Decoded A
recast (some a) d = decoded a
recast none d = d

abbrev pub held_hardware_addr : Value → Option HardwareAddr
held_hardware_addr (hardware_addr a) = some a
held_hardware_addr _ = none

abbrev pub held_ip : Value → Option (Option IpNet)
held_ip (ip a) = some a
held_ip _ = none

abbrev pub held_ips : Value → Option (List IpNet)
held_ips (ip_list as') = some as'
held_ips _ = none

-- The loop of VSS.
unfoldable pub strs_from : Err → String → List String → List String → Err × Bool
strs_from e k [] vals = (e, true)
strs_from e k (s ∷ ss) vals =
    let (e', one) = validate_str_in e k s vals in
    let (e'', others) = strs_from e' k ss vals in (e'', one && others)

module _ (t : Printer) (j : Json) where
  abbrev cast_message : String → Value → String → String → List String
  cast_message k v kind error = k ∷ ": Cannot cast " ∷ t.value_text v ∷ kind ∷ error ∷ []

  -- ValidateMac
  unfoldable pub validate_mac : Err → String → Value → Err × HardwareAddr × Bool
  validate_mac e k v = elim (recast (held_hardware_addr v) (j.as_hardware_addr v)) [
    | decoded a ↦ (e, a, true)
    | refused a error ↦ (errorf e (cast_message k v " to a HardwareAddr:" error), a, false)
  ]

  -- ValidateIP; the pointer is nil for a null.
  unfoldable pub validate_ip : Err → String → Value → Err × Option IpNet × Bool
  validate_ip e k v = elim (recast (held_ip v) (j.as_ip v)) [
    | decoded a ↦ (e, a, true)
    | refused a error ↦ (errorf e (cast_message k v " to an IP: " error), a, false)
  ]

  -- ValidateIPList at any value
  unfoldable pub validate_ips : Gnet → Err → String → Value → Bool → Err × List IpNet × Bool
  validate_ips g e k v cidr = elim (recast (held_ips v) (j.as_ips v)) [
    | decoded as' ↦ let (e', valid) = validate_ip_list g e k as' cidr in (e', as', valid)
    | refused as' error ↦ (errorf e (cast_message k v " to a list of IPs: " error), as', false)
  ]

  -- `valid && test(res.IP)`, which panics at a nil pointer
  abbrev family : Bool → Option IpNet → Bool → Outcome Bool
  family v4 a false = ok false
  family v4 none true = panic "nil pointer dereference"
  family true (some a) true = ok (is_ip4 a.ip)
  family false (some a) true = ok (not (is_ip4 a.ip))

  -- VIP, and VIP4 or VIP6
  abbrev pub vip : Validator
  vip e k v = let (e', a, valid) = validate_ip e k v in ok (e', ip a, valid)

  unfoldable pub vip_of : Bool → Validator
  vip_of v4 e k v =
      let (e', a, valid) = validate_ip e k v in
      family v4 a valid >>= λ valid'. ok (e', ip a, valid')

  -- VIPS and VMAC
  abbrev pub vips : Gnet → Bool → Validator
  vips g cidr e k v =
      let (e', as', valid) = validate_ips g e k v cidr in ok (e', ip_list as', valid)

  abbrev pub vmac : Validator
  vmac e k v = let (e', a, valid) = validate_mac e k v in ok (e', hardware_addr a, valid)

  -- VSS
  unfoldable pub vss : List String → Validator
  vss vals e k v = elim (j.as_strings v) [
    | decoded ss ↦ let (e', valid) = strs_from e k ss vals in ok (e', strings ss, valid)
    | refused ss error ↦ ok (
      errorf e
          (k ∷ ": Failed to translate " ∷ t.value_text v ∷ " into a string slice: " ∷ error ∷ []),
      nil,
      false,
    )
  ]
