-- ===== src/Validators/Checking.antt =====
-- util/validate.go: Check, and ValidateAndMarshal. The order in which Go ranges over the map of
-- checks is that of the list here.
pub mod Laws
pub mod Marshalling
pub mod Stored
use netwrangler.Base.{
  String, Bool, true, false, ◌==◌, Option, none, some, List, [], ◌∷◌, if◌then◌else◌,
}
use netwrangler.GoMap.{GoMap, get, put}
use netwrangler.Value.{Value, dict, entries}
use netwrangler.Outcome.{Outcome, ok, ◌>>=◌, each}
use netwrangler.Err.{Err, errorf}
use netwrangler.Validators.{Printer, Decoded, decoded, refused, Validator}

pub record Check : Type 0 where
  pub default : Option Value
  pub checker : Option Validator
  pub new_key : String
  pub translate : Option (Value → Value)

-- The functions D, C and X, and the methods D, C, K and V.
abbrev pub blank_check : Check
blank_check = record { default = none; checker = none; new_key = ""; translate = none }

abbrev pub checked_by : Validator → Check
checked_by c = record blank_check { checker = some c }

abbrev pub defaulted : Value → Validator → Check
defaulted d c = record (checked_by c) { default = some d }

-- Check.Validate
unfoldable pub check_validate : Check → Validator
check_validate c e k v = elim c.checker [ none ↦ ok (e, v, true) | some f ↦ f e k v ]

-- Check.Key
unfoldable pub check_key : Check → String → String
check_key c n = if c.new_key == "" then n else c.new_key

abbrev translated : Option (Value → Value) → Value → Value
translated none v = v
translated (some f) v = f v

pub record Collected : Type 0 where
  pub err : Err
  pub res : GoMap Value
  pub valid : Bool

-- What follows the check of a value that is there.
unfoldable pub store : Check → String → GoMap Value → Bool → Err × Value × Bool → Collected
unfolding check_key
store c key res valid (e, nv, true) = record {
  err = e;
  res = put (check_key c key) (translated c.translate nv) res;
  valid = valid;
}
store c key res valid (e, nv, false) = record { err = e; res = res; valid = false }

abbrev pub fill : Check → String → Collected → Collected
fill c key s = elim c.default [
  | none ↦ s
  | some d ↦ record s { res = put (check_key c key) d s.res }
]

-- The body of the loop over the checks.
unfoldable pub check_step : GoMap Value → String × Check → Collected → Outcome Collected
check_step m (key, c) s = elim (get key m) [
  | none ↦ ok (fill c key s)
  | some v ↦ check_validate c s.err key v >>= λ r. ok (store c key s.res s.valid r)
]

abbrev pub as_dict : Value → Option (GoMap Value)
as_dict (dict es) = some (entries es)
as_dict _ = none

-- ValidateAndMarshal: the collector, what was decoded, and whether all is valid. `decode` is the
-- Remarshal into the destination, and `old` what the destination held.
module _ {ℓ} {T : Type ℓ} (t : Printer) (target : String) (decode : GoMap Value → Decoded T) where
  abbrev pub marshal : T → Collected → Err × T × Bool
  marshal old s =
      if s.valid
      then elim (decode s.res) [
        | decoded val ↦ (s.err, val, true)
        | refused val error ↦
            (errorf s.err ("Error converting to " ∷ target ∷ ": " ∷ error ∷ []), val, false)
      ]
      else (s.err, old, false)

  unfoldable pub validate_and_marshal :
      Err → Value → List (String × Check) → T → Outcome (Err × T × Bool)
  validate_and_marshal e vals checks old = elim (as_dict vals) [
    | none ↦ ok (errorf e ("cannot validate format " ∷ t.type_text vals ∷ []), old, false)
    | some m ↦ each (check_step m) checks (record { err = e; res = []; valid = true }) >>= λ s.
        ok (marshal old s)
  ]
