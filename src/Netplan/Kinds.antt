-- ===== src/Netplan/Kinds.antt =====
-- The kinds of the interfaces that the validators of bonds, bridges and vlans accept.
use netwrangler.Base.{
  ℕ, String, Bool, true, false, ◌&&◌, ◌≡◌, refl, ap, ◌∙◌, inl, inr, some, List, [], ◌∷◌, Bool-cases,
  subst, arith, if◌then◌else◌,
}
use mathlib.Core.Bool.{false≢true}
use netwrangler.GoMap.{GoMap, keys}
use netwrangler.Value.{Value}
use netwrangler.Outcome.{ok, >>=-eq-ok, ok-injective}
use netwrangler.Err.{Err}
use netwrangler.Validators.{decoded}
use netwrangler.Validators.Checking.{Check, validate_and_marshal}
use netwrangler.Validators.Checking.Stored.{
  HasJust, all_own, checks-HasJust, validate_and_marshal_decodes,
}
use netwrangler.Layout.{Interface, new_interface, Network}
use netwrangler.Layout.Networks.{configure_network}
use netwrangler.Netplan.{Packages, LinkDef}
use netwrangler.Netplan.Networks.{network}
use netwrangler.Netplan.Devices.{bb, vlan, blank_vlan, mac_checks, vlan_of, configured}

-- What a vlan's object is decoded from has at most the key macaddress, which belongs to another field
-- than the type, and so decoding it into a blank vlan leaves the type alone.
abbrev pub KeepsType : Packages → Type 0
KeepsType p =
    (i : Interface) (m : GoMap Value)
    → HasJust ("macaddress" ∷ []) m
    → p.structs.as_interface blank_vlan m ≡ decoded i
    → i.type ≡ "vlan"

module _ (p : Packages) where
  vlan_decoded :
      (e e' : Err) (v : Value) (res : Interface)
      → KeepsType p
      → validate_and_marshal p.printer "*util.Interface"
          (p.structs.as_interface blank_vlan)
          e
          v
          (mac_checks p)
          blank_vlan
        ≡ ok (e', res, true)
      → res.type ≡ "vlan"
  unfolding all_own keys
  vlan_decoded e e' v res keeps h =
      let (m, s, loop, decodes) =
        validate_and_marshal_decodes p.printer "*util.Interface" (p.structs.as_interface blank_vlan)
          e e' v (mac_checks p) blank_vlan res h in
      keeps res s.res (checks-HasJust m (mac_checks p) e s refl loop) decodes

  configured-type :
      (address : ℕ) (nw : Network) (i : Interface) → (configured p address nw i).type ≡ i.type
  configured-type address nw i = elim (Bool-cases (configure_network (some nw))) [
    | inl has ↦ rw has refl
    | inr bare ↦ rw bare refl
  ]

  finished-type :
      (b : Bool) (address : ℕ) (nw : Network) (l : LinkDef) (i : Interface)
      → (if b then configured p address nw (vlan_of p l i) else vlan_of p l i).type ≡ i.type
  finished-type true address nw l i = configured-type address nw (vlan_of p l i)
  finished-type false address nw l i = refl

  pub vlan-type :
      (address : ℕ) (e e' : Err) (v : Value) (i : Interface)
      → KeepsType p
      → vlan p address e v ≡ ok (e', i, true)
      → i.type ≡ "vlan"
  unfolding vlan
  vlan-type address e e' v i keeps h =
      let ((e1, l, l_valid), linked, rest) =
        >>=-eq-ok (validate_and_marshal p.printer "*netplan.li" p.structs.as_link e v _ _) _ h in
      let ((e2, res, valid), decodes, rest') =
        >>=-eq-ok
          (validate_and_marshal p.printer "*util.Interface" (p.structs.as_interface blank_vlan) e1 v
            (mac_checks p) blank_vlan)
          _ rest in
      let ((e3, nw, nw_valid), networks, done) = >>=-eq-ok (network p e2 v) _ rest' in
      let all : (nw_valid && (valid && l_valid)) ≡ true = ap (λ x. x.2) (ok-injective done) in
      let good : valid ≡ true = ground (arith, all) in
      let type : res.type ≡ "vlan" =
        vlan_decoded e1 e2 v res keeps (decodes ∙ ap (λ b. ok (e2, res, b)) good) in
      subst (λ x. x.type ≡ "vlan") (ap (λ x. x.1) (ok-injective done))
        (finished-type nw_valid address nw l res ∙ type)

  pub bb-type :
      (kind : String) (checks : List (String × Check)) (address : ℕ) (e e' : Err) (v : Value)
      (i : Interface)
      → bb p kind checks address e v ≡ ok (e', i, true)
      → i.type ≡ kind
  unfolding bb
  bb-type kind checks address e e' v i h =
      let ((e1, res, valid), decodes, rest) =
        >>=-eq-ok
          (validate_and_marshal p.printer "*util.Interface" (p.structs.as_interface new_interface) e
            v _ new_interface)
          _ h in
      elim (Bool-cases valid) [
        | inr bad ↦ absurd (false≢true (ap (λ x. x.2) (ok-injective (rw bad at rest))))
        | inl good ↦
            let ((e2, nw, valid'), networks, done) =
              >>=-eq-ok (network p e1 v) _ (rw good at rest) in
            let good' : valid' ≡ true = ap (λ x. x.2) (ok-injective done) in
            subst (λ x. x.type ≡ kind) (ap (λ x. x.1) (ok-injective done)) (rw good' refl)
      ]
