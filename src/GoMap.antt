-- ===== src/GoMap.antt =====
-- Go's map[string]V as an association list. `get` is `v, ok := m[k]`, and `put` is `m[k] = v`.
-- Where the program ranges over a map, the order of the keys is a parameter of the model.
pub mod Laws
use netwrangler.Base.{
  String, Bool, true, false, ◌==◌, Option, none, some, List, [], ◌∷◌, if◌then◌else◌,
}

abbrev pub GoMap {ℓ} : Type ℓ → Type ℓ
GoMap V = List (String × V)

module _ {ℓ} {V : Type ℓ} where
  unfoldable pub get : String → GoMap V → Option V
  get k [] = none
  get k ((j, v) ∷ m) = if j == k then some v else get k m

  unfoldable pub put : String → V → GoMap V → GoMap V
  put k v [] = (k, v) ∷ []
  put k v ((j, w) ∷ m) = if j == k then (k, v) ∷ m else (j, w) ∷ put k v m

  unfoldable pub keys : GoMap V → List String
  keys [] = []
  keys ((k, _) ∷ m) = k ∷ keys m

  abbrev pub is_some : Option V → Bool
  is_some none = false
  is_some (some _) = true

  -- `_, ok := m[k]`
  abbrev pub has : String → GoMap V → Bool
  has k m = is_some (get k m)

  -- `m[k]` where a missing key gives the zero value
  abbrev pub get_or : GoMap V → String → V → V
  get_or m k zero_value = elim (get k m) [ none ↦ zero_value | some v ↦ v ]
