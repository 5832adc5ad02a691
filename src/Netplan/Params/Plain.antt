-- ===== src/Netplan/Params/Plain.antt =====
-- The parameters of the vlans and ethernets that their validators accept.
use mathlib.Core.Bool.{false≢true}
use netwrangler.Base.{
  ℕ, Bool, true, false, ◌≡◌, refl, sym, ap, ◌∙◌, inl, inr, some, [], Bool-cases, arith, ◌&&◌,
  if◌then◌else◌, subst,
}
use netwrangler.GoMap.{get, put, keys}
use netwrangler.Value.{Value, int}
use netwrangler.Outcome.{ok, >>=-eq-ok, ok-injective}
use netwrangler.Err.{Err}
use netwrangler.Validators.Checking.{validate_and_marshal}
use netwrangler.Validators.Checking.Stored.{all_own, checks-HasJust, validate_and_marshal_decodes}
use netwrangler.Layout.{Interface, Network}
use netwrangler.Layout.Networks.{configure_network}
use netwrangler.Netplan.{Packages, PhyDef, LinkDef}
use netwrangler.Netplan.Networks.{network}
use netwrangler.Netplan.Devices.{
  vlan, ethernet, mac_checks, blank_vlan, blank_phy, woken, ethernet_checks, vlan_of, configured,
}
use netwrangler.Netplan.Params.{KeepsTexts, HasTypes}

module _ (p : Packages) where
  -- The parameters of a vlan before its id is put to them.
  vlan_decoded-blank :
      (e e' : Err) (v : Value) (res : Interface)
      → KeepsTexts p
      → validate_and_marshal p.printer "*util.Interface"
          (p.structs.as_interface blank_vlan)
          e
          v
          (mac_checks p)
          blank_vlan
        ≡ ok (e', res, true)
      → res.parameters ≡ []
  unfolding all_own keys
  vlan_decoded-blank e e' v res keeps h =
      let (m, s, loop, made) =
        validate_and_marshal_decodes p.printer "*util.Interface" (p.structs.as_interface blank_vlan)
          e e' v (mac_checks p) blank_vlan res h in
      keeps.vlan res s.res (checks-HasJust m (mac_checks p) e s refl loop) made

  finished-parameters :
      (b : Bool) (address : ℕ) (nw : Network) (l : LinkDef) (i : Interface)
      → (if b then configured p address nw (vlan_of p l i) else vlan_of p l i).parameters
        ≡ put "id" (int l.id) i.parameters
  finished-parameters false address nw l i = refl
  finished-parameters true address nw l i = elim (Bool-cases (configure_network (some nw))) [
    | inl has ↦ rw has refl
    | inr bare ↦ rw bare refl
  ]

  pub vlan-types :
      (address : ℕ) (e e' : Err) (v : Value) (i : Interface)
      → KeepsTexts p
      → vlan p address e v ≡ ok (e', i, true)
      → HasTypes i.parameters
  unfolding vlan get put
  vlan-types address e e' v i keeps h =
      let ((e1, l, l_valid), linked, rest) =
        >>=-eq-ok (validate_and_marshal p.printer "*netplan.li" p.structs.as_link e v _ _) _ h in
      let ((e2, res, valid), decodes, rest') =
        >>=-eq-ok
          (validate_and_marshal p.printer "*util.Interface" (p.structs.as_interface blank_vlan) e1 v
            (mac_checks p) blank_vlan)
          _ rest in
      let ((e3, nw, nw_valid), networks, done) = >>=-eq-ok (network p e2 v) _ rest' in
      let all : (nw_valid && (valid && l_valid)) ≡ true = ap (λ x. x.2) (ok-injective done) in
      let good : valid ≡ true = ground (arith, all) in
      let blank = vlan_decoded-blank e1 e2 v res keeps (decodes ∙ ap (λ b. ok (e2, res, b)) good) in
      subst HasTypes
        (sym (finished-parameters nw_valid address nw l res ∙ ap (put "id" (int l.id)) blank)
          ∙ ap (λ x. x.1.parameters) (ok-injective done))
        (inl refl, inl refl)

  woken-types : (b : Bool) → HasTypes (woken p b [])
  unfolding get put
  woken-types true = (inl refl, inr (true, refl))
  woken-types false = (inl refl, inl refl)

  pub ethernet-types :
      (address : ℕ) (e e' : Err) (v : Value) (def : PhyDef)
      → KeepsTexts p
      → ethernet p address e v ≡ ok (e', def, true)
      → HasTypes def.intf.parameters
  unfolding ethernet ethernet_checks all_own keys
  ethernet-types address e e' v def keeps h =
      let ((e1, res, valid), decodes, rest) =
        >>=-eq-ok
          (validate_and_marshal p.printer "*netplan.phy" p.structs.as_phy e v (ethernet_checks p)
            blank_phy)
          _ h in
      elim (Bool-cases valid) [
        | inr bad ↦ absurd (false≢true (ap (λ x. x.2) (ok-injective (rw bad at rest))))
        | inl good ↦
            let ((e2, nw, valid'), networks, done) =
              >>=-eq-ok (network p e1 v) _ (rw good at rest) in
            let good' : valid' ≡ true = ap (λ x. x.2) (ok-injective done) in
            let (m, s, loop, made) =
              validate_and_marshal_decodes p.printer "*netplan.phy" p.structs.as_phy e e1 v
                (ethernet_checks p) blank_phy res (decodes ∙ ap (λ b. ok (e1, res, b)) good) in
            let blank : res.intf.parameters ≡ [] =
              keeps.phy s.res res (checks-HasJust m (ethernet_checks p) e s refl loop) made in
            subst (λ x. HasTypes x.intf.parameters) (ap (λ x. x.1) (ok-injective done))
              (rw (good', blank) (woken-types res.wol))
      ]
