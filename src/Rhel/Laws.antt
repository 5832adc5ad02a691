-- ===== src/Rhel/Laws.antt =====
-- When the Red Hat writer (rhel/rhel.go, writeOut) panics and when it returns.
pub mod Bridges
use mathlib.Core.Bool.{false≢true}
use netwrangler.Base.{
  apart, differ_by, String, Bool, true, false, ◌||◌, ◌==◌, ◌≡◌, ◌≢◌, refl, sym, ap, ◌∙◌, ◌↔◌, ◌⊎◌,
  inl, inr, none, some, List, [], ◌∷◌, ◌++◌, ⊎_elim, some_cancel, All, arith, eq_iff, Bool-cases,
  Option-cases,
}
use netwrangler.Sort.{sort}
use netwrangler.Text.{join}
use netwrangler.Text.Int.{ℤ}
use netwrangler.GoMap.{GoMap, get}
use netwrangler.Value.{Value, bool, int, net_ips}
use netwrangler.Net.{Gnet, Ip}
use netwrangler.Outcome.{ok, ◌>>=◌, >>=-eq-ok}
use netwrangler.Outcome.Returns.{Returns, bind-Returns}
use netwrangler.Validators.{Printer}
use netwrangler.Layout.{Interface}
use netwrangler.Rhel.{write_key}
use netwrangler.Rhel.Devices.{
  assert_bool, delay_lines, forward_delay, stp_lines, bridge_lines, underscored, bond_option,
  bond_options, bond_lines, device_of, target_text, option_text, flag_text, vlan_lines, type_lines,
  device_lines,
}
use netwrangler.Copy.{Disk}
use netwrangler.Rhel.Laws.Bridges.{IsPlainBridge, assert_bool-Returns, bridge_lines-Returns}
use netwrangler.Rhel.Writer.{Rhel, Run, write_out}

abbrev IsFlag : String → Type 0
IsFlag key = (key ≡ "all_slaves_active") ⊎ (key ≡ "arp_all_targets")

-- What it asserts of a parameter of a bond: a flag for two of them, and a []net.IP for one.
pub record IsPlainOption (k : String) (v : Value) : Type 0 where
  pub flag : IsFlag (underscored k) → (b : Bool) × (v ≡ bool b)
  pub targets : underscored k ≡ "arp_ip_targets" → (ips : List Ip) × (v ≡ net_ips ips)

abbrev pub ArePlain : GoMap Value → Type 0
ArePlain m = All (λ p. IsPlainOption p.0 p.1) m

-- What writeOut asserts of an interface.
pub record IsPlain (i : Interface) : Type 0 where
  pub bridge : i.type ≡ "bridge" → IsPlainBridge i.parameters
  pub bond : i.type ≡ "bond" → ArePlain i.parameters
  pub vlan : i.type ≡ "vlan" → i.interfaces ≢ []

device_of-Returns : (names : List String) → Returns (device_of names) ↔ (names ≢ [])
device_of-Returns [] = (λ (b, e). cc, λ h. absurd (h refl))
device_of-Returns (name ∷ names) = (λ h e. cc, λ h. (_, refl))

target_text-Returns : (v : Value) → Returns (target_text v) ↔ ((ips : List Ip) × (v ≡ net_ips ips))
target_text-Returns (net_ips ips) = (λ h. (ips, refl), λ h. (_, refl))
target_text-Returns _ = (λ (b, e). cc, λ (b, e). cc)

module _ (t : Printer) where
  bond_option-Returns :
      (k : String) (v : Value) → Returns (bond_option t (underscored k) v) ↔ IsPlainOption k v
  unfolding bond_option
  bond_option-Returns k v =
      elim (Bool-cases
        (underscored k == "all_slaves_active" || underscored k == "arp_all_targets")) [
          | inl flag ↦ rw flag (
            λ (text, e).
                (let (b, here, done) =
                    >>=-eq-ok (assert_bool v) (λ b. ok (option_text (underscored k) (flag_text b)))
                      e in
                  record {
                    flag = λ h. (assert_bool-Returns v).0 (b, here);
                    targets = λ same. absurd (
                        false≢true (
                          sym (ap (λ x. x == "all_slaves_active" || x == "arp_all_targets") same)
                          ∙ flag));
                  }),
            λ plain.
                (let (b, here) =
                    (assert_bool-Returns v).1 (plain.flag (flag_cases (underscored k) flag)) in
                  rw here (_, refl)),
          )
          | inr text ↦ elim (Bool-cases (underscored k == "arp_ip_targets")) [
            | inl targets ↦
                rw (text, targets)
                  (
                    λ h. record {
                      flag =
                          λ flag. absurd (false≢true (sym text ∙ cases_flag (underscored k) flag));
                      targets =
                          λ same. (target_text-Returns v).0 ((bind-Returns (target_text v) _).0 h);
                    },
                    λ plain. (bind-Returns (target_text v) _).1 (
                        (target_text-Returns v).1
                          (plain.targets ((eq_iff (underscored k) "arp_ip_targets").0 targets))),
                  )
            | inr other ↦
                rw (text, other)
                  (
                    λ h. record {
                      flag =
                          λ flag. absurd (false≢true (sym text ∙ cases_flag (underscored k) flag));
                      targets = λ same. absurd (
                          false≢true
                            (sym other ∙ (eq_iff (underscored k) "arp_ip_targets").1 same));
                    },
                    λ h. (_, refl),
                  )
          ]
        ]
    where
      flag_cases :
          (key : String)
          → (key == "all_slaves_active" || key == "arp_all_targets") ≡ true
          → IsFlag key
      flag_cases key h =
          ground (arith, eq_iff key "all_slaves_active", eq_iff key "arp_all_targets")

      cases_flag :
          (key : String)
          → IsFlag key
          → (key == "all_slaves_active" || key == "arp_all_targets") ≡ true
      cases_flag key h =
          ground (arith, eq_iff key "all_slaves_active", eq_iff key "arp_all_targets")

  bond_options-Returns : (m : GoMap Value) → Returns (bond_options t m) ↔ ArePlain m
  unfolding bond_options
  bond_options-Returns [] = (λ h. tt, λ h. ([], refl))
  bond_options-Returns ((k, v) ∷ m) = (
    λ (texts, e).
        (let (text, first, rest) =
            >>=-eq-ok (bond_option t (underscored k) v)
              (λ text. bond_options t m >>= λ texts. ok (text ∷ texts)) e in
          let (texts', others, done) =
            >>=-eq-ok (bond_options t m) (λ texts. ok (text ∷ texts)) rest in
          ((bond_option-Returns k v).0 (text, first), (bond_options-Returns m).0 (texts', others))),
    λ (plain, others).
        (let (text, first) = (bond_option-Returns k v).1 plain in
          let (texts, rest) = (bond_options-Returns m).1 others in rw (first, rest) (_, refl)),
  )

  type_lines-Returns :
      (g : Gnet) (b : Bool) (i : Interface) → Returns (type_lines t g b i) ↔ IsPlain i
  unfolding type_lines bond_lines vlan_lines
  type_lines-Returns g b i = elim (Bool-cases (i.type == "bridge")) [
    | inl bridge ↦
        let (to, from) = bridge_lines-Returns i in
        let type = (eq_iff i.type "bridge").0 bridge in
        rw bridge (
          λ h. record {
            bridge = λ e. to h;
            bond = λ e. absurd (apart type e refl);
            vlan = λ e. absurd (apart type e refl);
          },
          λ plain. from (plain.bridge type),
        )
    | inr no_bridge ↦ elim (Bool-cases (i.type == "bond")) [
      | inl bond ↦
          let type = (eq_iff i.type "bond").0 bond in
          let (to, from) =
            bind-Returns (bond_options t i.parameters)
              (λ options. write_key "BONDING_OPTS" (join " " (sort options))) in
          rw (no_bridge, bond)
            (
              λ h. record {
                bridge = λ e. absurd (apart type e refl);
                bond = λ e. (bond_options-Returns i.parameters).0 (to h);
                vlan = λ e. absurd (apart type e refl);
              },
              λ plain. from ((bond_options-Returns i.parameters).1 (plain.bond type)),
            )
      | inr no_bond ↦ elim (Bool-cases (i.type == "vlan")) [
        | inl vlan ↦
            let type = (eq_iff i.type "vlan").0 vlan in
            let (to, from) = bind-Returns (device_of i.interfaces) _ in
            rw (no_bridge, no_bond, vlan)
              (
                λ h. record {
                  bridge = λ e. absurd (apart type e refl);
                  bond = λ e. absurd (apart type e refl);
                  vlan = λ e. (device_of-Returns i.interfaces).0 (to h);
                },
                λ plain. from ((device_of-Returns i.interfaces).1 (plain.vlan type)),
              )
        | inr no_vlan ↦
            let plain : IsPlain i = record {
              bridge = λ e. absurd (differ_by no_bridge e);
              bond = λ e. absurd (differ_by no_bond e);
              vlan = λ e. absurd (differ_by no_vlan e);
            } in
            elim (Bool-cases (i.type == "physical")) [
              | inl phy ↦ rw (no_bridge, no_bond, no_vlan, phy) (λ h. plain, λ h. (_, refl))
              | inr other ↦ rw (no_bridge, no_bond, no_vlan, other) (λ h. plain, λ h. (_, refl))
            ]
      ]
    ]
  ]

-- writeOut of an interface whose lists of addresses hold no nil pointers, as those of the model
-- do, returns, whatever the disk and what is written already, exactly if the interface meets
-- what the code asserts: a bridge has a boolean for stp, if it has one, and, where that is set,
-- an int for its forward delay, if it has one; a bond has booleans under the two keys for flags
-- and a []net.IP under the key for arp targets, as far as it has them; and a vlan lists an
-- interface.
pub write_out-Returns_iff :
    (d : Disk) (g : Gnet) (t : Printer) (r : Rhel) (i : Interface) (s : Run)
    → Returns (write_out d g t r i s) ↔ IsPlain i
unfolding write_out device_lines
write_out-Returns_iff d g t r i s =
    let (to, from) = type_lines-Returns t g r.bind_macs i in
    let (to', from') = bind-Returns (type_lines t g r.bind_macs i) _ in
    let (to'', from'') =
      bind-Returns (device_lines g t r.bind_macs r.layout.interfaces r.layout.child2parent i) _ in
    (λ h. to (to' (to'' h)), λ plain. from'' (from' (from plain)))
