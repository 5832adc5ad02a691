-- ===== src/Validators.antt =====
-- util/validate.go: the checkers at any value, the validators made of them, and the checks of a
-- whole map. What %v and %T print of a value, the text of a number's syntax error, and what
-- Remarshal decodes (through encoding/json and the methods of package gohai) are parameters.
pub mod Decoding
pub mod Checking
pub mod Laws
pub mod Honest
mod Tests
use netwrangler.Base.{
  ℕ, zero, suc, ◌+◌, ◌*◌, ◌/◌, ◌^◌, ◌-◌, ◌%◌, String, Bool, true, false, not, ◌&&◌, ◌||◌, Option,
  none, some, List, [], ◌∷◌, ltb, contains, is_empty, if◌then◌else◌,
}
use netwrangler.GoMap.{GoMap, get, put}
use netwrangler.Text.{decimal}
use netwrangler.Text.Int.{ℤ, pos, negsuc, leb_ℤ}
use netwrangler.Text.Parse.{parse_int}
use netwrangler.Net.{HardwareAddr, IpNet, Gnet, is_ip4}
use netwrangler.Value.{
  Value, Float64, nil, bool, int, int64, uint, uint64, float, str, list, dict, strings,
  hardware_addr, ip, ip_list, entries,
}
use netwrangler.Outcome.{Outcome, ok, panic, ◌>>=◌}
use netwrangler.Err.{Err, errorf}
use netwrangler.Checks.{validate_str_in, validate_ip_list}

pub record Printer : Type 0 where
  pub value_text : Value → String
  pub type_text : Value → String
  pub syntax_error : String → String

-- What json.Unmarshal leaves in its destination, and the text of its error.
pub data Decoded {ℓ} (A : Type ℓ) : Type ℓ where
  decoded : A → Decoded A
  refused : A → String → Decoded A

-- Remarshal, by the type of its destination.
pub record Json : Type 0 where
  pub as_hardware_addr : Value → Decoded HardwareAddr
  pub as_ip : Value → Decoded (Option IpNet)
  pub as_ips : Value → Decoded (List IpNet)
  pub as_strings : Value → Decoded (List String)

-- The collector, the value, and whether it is valid.
abbrev pub Checked : Type 0
Checked = Err × Value × Bool

abbrev pub Validator : Type 0
Validator = Err → String → Value → Outcome Checked

-- ValidateUnsupp
unfoldable pub validate_unsupp : Validator
validate_unsupp e k v = ok (errorf e ("Key " ∷ k ∷ " is not supported" ∷ []), v, false)

abbrev pub falses : List String
falses = "0" ∷ "f" ∷ "false" ∷ "off" ∷ "no" ∷ []

abbrev pub trues : List String
trues = "1" ∷ "t" ∷ "true" ∷ "on" ∷ "yes" ∷ []

-- The switch of ValidateBool, if it finds a boolean.
unfoldable pub as_bool : Value → Option Bool
as_bool (bool b) = some b
as_bool (str s) =
    if contains s falses then some false else if contains s trues then some true else none
as_bool _ = none

abbrev pub held_str : Value → Option String
held_str (str s) = some s
held_str _ = none

-- `int64(x)` of a uint64: the upper half stands for the negative numbers.
unfoldable pub wrapped : ℕ → ℤ
wrapped n = let m = n % 2 ^ 64 in if ltb m (2 ^ 63) then pos m else negsuc (2 ^ 64 - 1 - m)

-- The whole part of mantissa * 2 ^ exponent.
abbrev pub whole : ℕ → ℤ → ℕ
whole m (pos n) = m * 2 ^ n
whole m (negsuc n) = m / 2 ^ suc n

abbrev negated : ℕ → ℤ
negated zero = pos 0
negated (suc n) = negsuc n

-- `int64(x)` of a float64: its whole part. Go leaves open what is converted out of range; as on
-- amd64, it is the least number.
unfoldable pub truncated : Float64 → ℤ
truncated f =
    let n = whole f.mantissa f.exponent in
    if f.negative
    then (if ltb (2 ^ 63) n then negsuc (2 ^ 63 - 1) else negated n)
    else if ltb n (2 ^ 63)
    then pos n
    else negsuc (2 ^ 63 - 1)

module _ (t : Printer) where
  -- ValidateBool
  unfoldable pub validate_bool : Err → String → Value → Err × Bool × Bool
  validate_bool e k v = elim (as_bool v) [
    | some b ↦ (e, b, true)
    | none ↦ (errorf e (k ∷ ": Cannot cast " ∷ t.value_text v ∷ " to a boolean" ∷ []), false, false)
  ]

  abbrev cast_message : String → Value → String → List String
  cast_message k v error = k ∷ ": Cannot cast " ∷ t.value_text v ∷ " to an int: " ∷ error ∷ []

  -- The switch of ValidateInt: the number, or the message.
  unfoldable pub as_int : String → Value → ℤ × Option (List String)
  unfolding wrapped truncated
  as_int k (int64 n) = (n, none)
  as_int k (uint64 n) = (wrapped n, none)
  as_int k (int n) = (n, none)
  as_int k (uint n) = (wrapped n, none)
  as_int k (float f) = (truncated f, none)
  as_int k (str s) = elim (parse_int s) [
    | some n ↦ (n, none)
    | none ↦ (pos 0, some (cast_message k (str s) (t.syntax_error s)))
  ]
  as_int k v = (
    pos 0,
    some (
        k
        ∷ ": Cannot cast "
        ∷ t.type_text v
        ∷ "("
        ∷ t.value_text v
        ∷ ") to an "
        ∷ t.type_text v
        ∷ "("
        ∷ t.value_text v
        ∷ ")"
        ∷ []),
  )

  abbrev in_range : Err → String → ℤ → ℤ → ℤ → Err × ℤ × Bool
  in_range e k res min max = if leb_ℤ min res && leb_ℤ res max then (e, res, true) else (
    errorf e (k ∷ ": " ∷ decimal res ∷ " out of range " ∷ decimal min ∷ ":" ∷ decimal max ∷ []),
    res,
    false,
  )

  -- ValidateInt
  unfoldable pub validate_int : Err → String → Value → ℤ → ℤ → Err × ℤ × Bool
  validate_int e k v min max =
      let (res, message) = as_int k v in
      elim message [ some pieces ↦ (errorf e pieces, res, false) | none ↦ in_range e k res min max ]

  -- ValidateStrIn
  unfoldable pub validate_str : Err → String → Value → List String → Err × String × Bool
  validate_str e k v vals = elim (held_str v) [
    | some s ↦ let (e', valid) = validate_str_in e k s vals in (e', s, valid)
    | none ↦ (errorf e (k ∷ ": " ∷ t.value_text v ∷ " is not a string" ∷ []), "", false)
  ]

  -- VB, VI and VS
  abbrev pub vb : Validator
  vb e k v = let (e', b, valid) = validate_bool e k v in ok (e', bool b, valid)

  abbrev pub vi : ℤ → ℤ → Validator
  vi min max e k v = let (e', n, valid) = validate_int e k v min max in ok (e', int64 n, valid)

  abbrev pub vs : List String → Validator
  vs vals e k v = let (e', s, valid) = validate_str e k v vals in ok (e', str s, valid)
