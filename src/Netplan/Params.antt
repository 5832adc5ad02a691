-- ===== src/Netplan/Params.antt =====
-- What decoding keeps of the parameters of interfaces, and what the systemd writer asserts of them.
pub mod Stacked
pub mod Plain
use mathlib.Core.Bool.{false≢true}
use netwrangler.Base.{
  not, eq_iff, ℕ, String, Bool, true, false, ◌==◌, ◌≡◌, refl, sym, ap, ◌∙◌, ◌⊎◌, inl, inr, none,
  some, List, [], ◌∷◌, Bool-cases, arith, ◌&&◌, if◌then◌else◌, All, ⊎_elim, subst,
}
use netwrangler.GoMap.{GoMap, get, put, keys}
use netwrangler.Value.{Value, str, int, bool}
use netwrangler.Outcome.{ok, >>=-eq-ok, ok-injective}
use netwrangler.Err.{Err}
use netwrangler.Validators.{Printer, Validator, decoded, validate_str, vs}
use netwrangler.Validators.Checking.{Check, checked_by, check_validate, validate_and_marshal}
use netwrangler.Validators.Checking.Stored.{
  HasJust, NoValue, Holds, IsDirect, checks-Holds, validate_and_marshal_decodes,
}
use netwrangler.Layout.{Interface, Network, new_interface}
use netwrangler.Layout.Networks.{configure_network}
use netwrangler.Systemd.Laws.{HasTextPrimary}
use netwrangler.Netplan.{Packages, PhyDef, LinkDef}
use netwrangler.Systemd.Devices.Laws.{HasBoolWake}
use netwrangler.Netplan.Networks.{network}
use netwrangler.Netplan.Devices.{
  p_validate, bb_checks, bb, bond_params, bond, bridge_params, bridge, vlan, ethernet, mac_checks,
  blank_vlan, blank_phy, woken, ethernet_checks, vlan_of, configured,
}

abbrev pub bb_keys : List String
bb_keys = "macaddress" ∷ "interfaces" ∷ "parameters" ∷ "optional" ∷ []

-- What decoding does to a map of parameters: no keys are added, and a text stays a text.
abbrev pub Stays : GoMap Value → GoMap Value → Type 0
Stays m m' =
    (name : String)
    → (get name m ≡ none → get name m' ≡ none)
      × ((s : String) → get name m ≡ some (str s) → (s' : String) × (get name m' ≡ some (str s')))

-- What is known of decoding at the calls that the validators make: their loops have stored under no
-- other keys than those of their checks, and what they decode into is blank. Into an empty map,
-- the parameters of a bond or a bridge are decoded key by key; into a new interface, a map under the key
-- parameters is decoded into its empty parameters, which stay so if that key is not there; and the
-- key of a vlan and those of an ethernet belong to other fields than the parameters.
pub record KeepsTexts (p : Packages) : Type 0 where
  pub params :
      (checks : List (String × Check)) (m m' : GoMap Value)
      → (checks ≡ bond_params p) ⊎ (checks ≡ bridge_params p)
      → HasJust (keys checks) m
      → p.structs.as_params m ≡ decoded m'
      → Stays m m'
  pub set :
      (i : Interface) (m q : GoMap Value)
      → HasJust bb_keys m
      → p.structs.as_interface new_interface m ≡ decoded i
      → get "parameters" m ≡ some (p.structs.of_params q)
      → Stays q i.parameters
  pub unset :
      (i : Interface) (m : GoMap Value)
      → HasJust bb_keys m
      → p.structs.as_interface new_interface m ≡ decoded i
      → get "parameters" m ≡ none
      → i.parameters ≡ []
  pub vlan :
      (i : Interface) (m : GoMap Value)
      → HasJust ("macaddress" ∷ []) m
      → p.structs.as_interface blank_vlan m ≡ decoded i
      → i.parameters ≡ []
  pub phy :
      (m : GoMap Value) (def : PhyDef)
      → HasJust ("match" ∷ "wakeonlan" ∷ "set-name" ∷ "macaddress" ∷ "optional" ∷ []) m
      → p.structs.as_phy m ≡ decoded def
      → def.intf.parameters ≡ []

abbrev pub IsText : Value → Type 0
IsText w = (s : String) × (w ≡ str s)

pub vs-IsText :
    (t : Printer) (vals : List String) (key : String) (e e' : Err) (v w : Value)
    → check_validate (checked_by (vs t vals)) e key v ≡ ok (e', w, true)
    → IsText w
unfolding check_validate
vs-IsText t vals key e e' v w h =
    ((validate_str t e key v vals).1, sym (ap (λ x. x.1) (ok-injective h)))

-- A check of another key.
pub aside {ℓ} :
    {name : String} {R : Value → Type ℓ} (key : String) (c : Check)
    → c.new_key ≡ ""
    → (key == name) ≡ false
    → IsDirect name R key c
aside key c own differ = record { new_key = own; accepts = inl differ }

-- All checks store under their own keys, which are not the name.
unfoldable pub all_aside : String → List (String × Check) → Bool
all_aside name [] = true
all_aside name ((key, c) ∷ checks) =
    (c.new_key == "") && (not (key == name) && all_aside name checks)

pub all_aside-IsDirect {ℓ} :
    (name : String) (R : Value → Type ℓ) (checks : List (String × Check))
    → all_aside name checks ≡ true
    → All (λ kc. IsDirect name R kc.0 kc.1) checks
unfolding all_aside
all_aside-IsDirect name R [] h = tt
all_aside-IsDirect name R ((key, c) ∷ checks) h = (
  aside key c (ground (arith, eq_iff c.new_key "", h)) (ground (arith, h)),
  all_aside-IsDirect name R checks (ground (arith, h)),
)

-- A property of the value under a name that decoding keeps.
pub record IsStable (name : String) (R : Value → Type 0) (S : GoMap Value → Type 0) : Type 0 where
  pub of_loop : (m : GoMap Value) → Holds name R m → S m
  pub stays : (m m' : GoMap Value) → Stays m m' → S m → S m'
  pub blank : S []

pub primary-IsStable :
    IsStable "primary" IsText
      (λ m. (get "primary" m ≡ none) ⊎ ((s : String) × (get "primary" m ≡ some (str s))))
unfolding get
primary-IsStable = record {
  of_loop = λ m. ⊎_elim inl (λ (w, here, (s, e)). inr (s, here ∙ ap some e));
  stays = λ m m' st. ⊎_elim (λ h. inl ((st "primary").0 h)) (λ (s, h). inr ((st "primary").1 s h));
  blank = inl refl;
}

pub absent-IsStable : (name : String) → IsStable name NoValue (λ m. get name m ≡ none)
unfolding get
absent-IsStable name = record {
  of_loop = λ m. ⊎_elim (λ h. h) (λ (w, here, never). absurd never);
  stays = λ m m' st h. (st name).0 h;
  blank = refl;
}

-- What the systemd writer asserts of the parameters of an interface.
abbrev pub HasTypes : GoMap Value → Type 0
HasTypes m =
    ((get "primary" m ≡ none) ⊎ ((s : String) × (get "primary" m ≡ some (str s))))
    × ((get "wakeonlan" m ≡ none) ⊎ ((b : Bool) × (get "wakeonlan" m ≡ some (bool b))))
