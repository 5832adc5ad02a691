-- ===== src/Systemd/Devices/Laws.antt =====
-- What the systemd writer prints to a .link or .netdev file, without the collector of errors.
use mathlib.Core.List.{append_assoc, append-nil}
use mathlib.Core.Bool.{false≢true}
use netwrangler.Base.{
  String, Bool, true, false, ◌==◌, ◌≡◌, refl, sym, ap, ◌∙◌, ◌⊎◌, inl, inr, none, some, List, [],
  ◌∷◌, ◌++◌, Option-cases, Bool-cases, ◌&&◌, if◌then◌else◌,
}
use netwrangler.GoMap.{GoMap, get, get_or}
use netwrangler.Value.{Value, nil, bool}
use netwrangler.Net.{Gnet}
use netwrangler.Outcome.{ok, each}
use netwrangler.Validators.{Printer}
use netwrangler.Validators.Checking.{Check, check_validate, check_key}
use netwrangler.Layout.{Interface}
use netwrangler.Layout.Routes.{words_if}
use netwrangler.Layout.Members.Total.{IsKind}
use netwrangler.Systemd.{Output, print, setting}
use netwrangler.Systemd.Devices.{
  is_woken, wake_lines, write_phy, write_param, write_params, bond_params, bond_checks,
  bridge_params, bridge_checks, device_header, write_bond, write_bridge, write_vlan, write_device,
}

-- If an interface says whether the network may wake it, it says so by a boolean.
abbrev pub HasBoolWake : Interface → Type 0
HasBoolWake i =
    (get "wakeonlan" i.parameters ≡ none)
    ⊎ ((b : Bool) × (get "wakeonlan" i.parameters ≡ some (bool b)))

unfoldable pub wakes : Interface → Bool
wakes i = elim (get "wakeonlan" i.parameters) [
  | none ↦ false
  | some v ↦ elim v [ bool b ↦ b | _ ↦ false ]
]

is_woken-wakes : (i : Interface) → HasBoolWake i → is_woken i ≡ ok (wakes i)
unfolding is_woken wakes
is_woken-wakes i (inl h) = rw (h, is_woken, wakes) refl
is_woken-wakes i (inr (b, h)) = rw (h, is_woken, wakes) refl

pub print-print : (o : Output) (xs ys : List String) → print (print o xs) ys ≡ print o (xs ++ ys)
print-print o xs ys = ap (λ texts. record o { printed = texts }) (append_assoc o.printed xs ys)

module _ (t : Printer) (checks : GoMap Check) (values : GoMap Value) where
  -- The line of a parameter that has a value, under the key of its check.
  unfoldable pub param_line : String → List String
  param_line k = elim (get k values) [
    | none ↦ []
    | some v ↦ elim (get k checks) [ none ↦ [] | some c ↦ setting (check_key c k) (t.value_text v) ]
  ]

  unfoldable pub param_lines : List String → List String
  param_lines [] = []
  param_lines (k ∷ ks) = param_line k ++ param_lines ks

  -- A parameter whose check asks for nothing.
  pub record IsBlank (k : String) : Type 0 where
    pub check : Check
    pub found : get k checks ≡ some check
    pub blank : check.checker ≡ none

  has_blank : String → Bool
  has_blank k = elim (get k checks) [
    | none ↦ false
    | some c ↦ elim c.checker [ none ↦ true | some _ ↦ false ]
  ]

  unfoldable pub all_blank : List String → Bool
  unfolding has_blank
  all_blank [] = true
  all_blank (k ∷ ks) = has_blank k && all_blank ks

  has_blank-IsBlank : (k : String) → has_blank k ≡ true → IsBlank k
  unfolding has_blank
  has_blank-IsBlank k h = elim (Option-cases (get k checks)) [
    | inl gone ↦ absurd (false≢true (rw (gone, has_blank) at h))
    | inr (c, here) ↦ elim (Option-cases c.checker) [
      | inl blank ↦ record { check = c; found = here; blank = blank }
      | inr (f, set) ↦ absurd (false≢true (rw (here, set, has_blank) at h))
    ]
  ]

  all_blank_split :
      (k : String) (ks : List String)
      → all_blank (k ∷ ks) ≡ true
      → IsBlank k × (all_blank ks ≡ true)
  unfolding all_blank
  all_blank_split k ks h = elim (Bool-cases (has_blank k)) [
    | inl here ↦ (has_blank-IsBlank k here, rw here at h)
    | inr missing ↦ absurd (false≢true (rw missing at h))
  ]

  write_param_prints :
      (k : String) (o : Output)
      → IsBlank k
      → write_param t checks values k o ≡ ok (print o (param_line k))
  unfolding write_param param_line check_validate
  write_param_prints k o b = elim (Option-cases (get k values)) [
    | inl missing ↦
        rw (missing, write_param, param_line)
          (ap (λ texts. ok (record o { printed = texts })) (sym (append-nil o.printed)))
    | inr (v, there) ↦ rw (there, b.found, b.blank, check_validate, write_param, param_line) refl
  ]

  pub write_params_prints :
      (ks : List String) (o : Output)
      → all_blank ks ≡ true
      → write_params t checks values ks o ≡ ok (print o (param_lines ks))
  unfolding write_params each param_lines
  write_params_prints [] o h =
      ap (λ texts. ok (record o { printed = texts })) (sym (append-nil o.printed))
  write_params_prints (k ∷ ks) o h =
      let (here, later) = all_blank_split k ks h in
      rw (write_param_prints k o here) (
        write_params_prints ks (print o (param_line k)) later
        ∙ ap ok (print-print o (param_line k) (param_lines ks)))

-- The lines of a bond's and of a bridge's parameters, in the order in which they are printed.
abbrev pub bond_lines : Printer → Interface → List String
bond_lines t i =
    device_header i.name "bond" "Bond" ++ param_lines t bond_checks i.parameters bond_params

abbrev pub bridge_lines : Printer → Interface → List String
bridge_lines t i =
    device_header i.name "bridge" "Bridge" ++ param_lines t bridge_checks i.parameters bridge_params

abbrev pub vlan_lines : Printer → Interface → List String
vlan_lines t i =
    device_header i.name "vlan" "VLAN" ++ setting "Id" (t.value_text (get_or i.parameters "id" nil))

module _ (g : Gnet) (t : Printer) (i : Interface) where
  -- What is printed of an interface of one of the four kinds.
  unfoldable pub device_lines : List String
  device_lines =
      if i.type == "physical"
      then words_if (wakes i) (wake_lines g i)
      else if i.type == "bond"
      then bond_lines t i
      else if i.type == "bridge"
      then bridge_lines t i
      else vlan_lines t i

  write_phy_prints :
      (o : Output)
      → HasBoolWake i
      → write_phy g i o ≡ ok (print o (words_if (wakes i) (wake_lines g i)))
  unfolding write_phy
  write_phy_prints o wake = rw (is_woken-wakes i wake, write_phy) refl

  pub write_bond_prints : (o : Output) → write_bond g t i o ≡ ok (print o (bond_lines t i))
  unfolding write_bond all_blank has_blank get
  write_bond_prints o =
      let heading = device_header i.name "bond" "Bond" in
      write_params_prints t bond_checks i.parameters bond_params (print o heading) refl
      ∙ ap ok (print-print o heading (param_lines t bond_checks i.parameters bond_params))

  pub write_bridge_prints : (o : Output) → write_bridge g t i o ≡ ok (print o (bridge_lines t i))
  unfolding write_bridge all_blank has_blank get
  write_bridge_prints o =
      let heading = device_header i.name "bridge" "Bridge" in
      write_params_prints t bridge_checks i.parameters bridge_params (print o heading) refl
      ∙ ap ok (print-print o heading (param_lines t bridge_checks i.parameters bridge_params))

  kind_test : (type k : String) → i.type ≡ type → (i.type == k) ≡ (type == k)
  kind_test type k e = ap (λ x. x == k) e

  pub write_device_prints :
      (o : Output)
      → IsKind i.type
      → HasBoolWake i
      → write_device g t i o ≡ ok (print o device_lines)
  unfolding write_vlan write_device device_lines
  write_device_prints o (inl phy) wake =
      rw (kind_test "physical" "physical" phy) (write_phy_prints o wake)
  write_device_prints o (inr (inl bond)) wake =
      rw (kind_test "bond" "physical" bond, kind_test "bond" "bond" bond) (write_bond_prints o)
  write_device_prints o (inr (inr (inl bridge))) wake =
      rw
        (
          kind_test "bridge" "physical" bridge,
          kind_test "bridge" "bond" bridge,
          kind_test "bridge" "bridge" bridge,
        )
        (write_bridge_prints o)
  write_device_prints o (inr (inr (inr vlan))) wake =
      rw
        (
          kind_test "vlan" "physical" vlan,
          kind_test "vlan" "bond" vlan,
          kind_test "vlan" "bridge" vlan,
          kind_test "vlan" "vlan" vlan,
        )
        refl
