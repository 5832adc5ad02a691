-- ===== src/Netplan/Compile/Named.antt =====
-- What Compile hands to Layout.Validate: its entries carry their keys as names, and have every property
-- that what the validators accept has.
use netwrangler.Base.{
  ℕ, String, Bool, true, ◌≡◌, refl, ap, ◌∙◌, inl, inr, Option, none, some, List, [], ◌∷◌, All-Memᴰ,
  Bool-cases, Option-cases, subst,
}
use netwrangler.GoMap.{GoMap, get, get_or}
use netwrangler.Value.{Value, nil}
use netwrangler.Outcome.{Outcome, ok, each, each_inv, >>=-eq-ok, ok-injective}
use netwrangler.Err.{Err}
use netwrangler.Globs.{Compiler}
use netwrangler.Phys.Kinds.{match_phys-AreInstances}
use netwrangler.Phys.{Phy, match_phys}
use netwrangler.Layout.{Interface, new_interface}
use netwrangler.Netplan.{Packages, Netplan, PhyDef}
use netwrangler.Netplan.Devices.{bond_params, bridge_params, ethernet, bond, bridge, vlan}
use netwrangler.Netplan.Compile.{
  Reading, add_found, add_subs, add_other, add_real, read_ethernet, read_virtual, opening, read_all,
  get_names, with_match_id,
}
use netwrangler.Netplan.Compile.Proper.{
  IsProper, AreFit, put-IsProper, instances-AreFit, add_found-IsProper,
}

-- A property of the type and the parameters of the interfaces that a validator accepts.
abbrev pub Accepts :
    (String → GoMap Value → Type 0) → (ℕ → Err → Value → Outcome (Err × Interface × Bool)) → Type 0
Accepts Q validator =
    (address : ℕ) (e e' : Err) (v : Value) (i : Interface)
    → validator address e v ≡ ok (e', i, true)
    → Q i.type i.parameters

-- A property of what the four validators accept, and of a card that just a list of sub interfaces names.
pub record IsPassed (p : Packages) (Q : String → GoMap Value → Type 0) : Type 0 where
  pub ethernet :
      (address : ℕ) (e e' : Err) (v : Value) (def : PhyDef)
      → netwrangler.Netplan.Devices.ethernet p address e v ≡ ok (e', def, true)
      → Q "physical" def.intf.parameters
  pub sub : Q "physical" []
  pub bond : Accepts Q (netwrangler.Netplan.Devices.bond p)
  pub bridge : Accepts Q (netwrangler.Netplan.Devices.bridge p)
  pub vlan : Accepts Q (netwrangler.Netplan.Devices.vlan p)

module _ (Q : String → GoMap Value → Type 0) where
  module _ (p : Packages) (passed : IsPassed p Q) (compile : Compiler) (phys : List Phy) where
    add_subs-IsProper :
        (ks : List String) (s s' : Reading)
        → add_subs compile phys ks s ≡ ok s'
        → IsProper Q s.interfaces
        → IsProper Q s'.interfaces
    unfolding add_subs
    add_subs-IsProper [] s s' h p = subst (λ x. IsProper Q x.interfaces) (ok-injective h) p
    add_subs-IsProper (k ∷ ks) s s' h p =
        let ((subs, failed), matched, rest) =
          >>=-eq-ok (match_phys compile _ new_interface phys) _ h in
        elim (Option-cases failed) [
          | inr (reason, bad) ↦
              subst (λ x. IsProper Q x.interfaces) (ok-injective (rw bad at rest)) p
          | inl good ↦
              add_subs-IsProper ks (record s { interfaces = add_found subs s.interfaces }) s'
                (rw good at rest)
                (add_found-IsProper Q subs s.interfaces
                  (instances-AreFit Q new_interface subs passed.sub
                    (match_phys-AreInstances compile _ new_interface phys subs failed matched))
                  p)
        ]

    add_other-IsProper :
        (name match_id : String) (i : Interface) (s s' : Reading)
        → Q i.type i.parameters
        → add_other compile phys name match_id i s ≡ ok s'
        → IsProper Q s.interfaces
        → IsProper Q s'.interfaces
    unfolding add_other
    add_other-IsProper name match_id i s s' kind h p = elim (Option-cases (get name s.interfaces)) [
      | inr (other, here) ↦ add_subs-IsProper i.interfaces _ s' (rw (here, add_other) at h) p
      | inl free ↦ add_subs-IsProper i.interfaces _ s' (rw (free, add_other) at h) (
          put-IsProper Q s.interfaces name (record i { name = name; match_id = match_id }) refl kind
            p)
    ]

    add_real-IsProper :
        (k : String) (is : List Interface) (failed : Option String) (s s' : Reading)
        → AreFit Q is
        → add_real compile phys k is failed s ≡ ok s'
        → IsProper Q s.interfaces
        → IsProper Q s'.interfaces
    unfolding add_real
    add_real-IsProper k is (some reason) s s' types h p =
        subst (λ x. IsProper Q x.interfaces) (ok-injective h) p
    add_real-IsProper k [] none s s' types h p =
        subst (λ x. IsProper Q x.interfaces) (ok-injective h) p
    add_real-IsProper k (i ∷ is) none s s' types h p =
        let (s'', loop, done) =
          >>=-eq-ok (each (λ i. add_other compile phys i.name k i) (i ∷ is) s) _ h in
        subst (λ x. IsProper Q x.interfaces) (ok-injective done)
          (each_inv (λ i. add_other compile phys i.name k i) (λ x. IsProper Q x.interfaces) (i ∷ is)
            (λ j m x x' q step.
              add_other-IsProper j.name k j x x'
                (All-Memᴰ (λ i. Q i.type i.parameters) (i ∷ is) types m) step q)
            s s'' p loop)

    read_ethernet-IsProper :
        (defs : GoMap Value) (k : String) (s s' : Reading)
        → read_ethernet compile phys p defs k s ≡ ok s'
        → IsProper Q s.interfaces
        → IsProper Q s'.interfaces
    unfolding read_ethernet
    read_ethernet-IsProper defs k s s' h q =
        let ((e, def, valid), checked, rest) =
          >>=-eq-ok (ethernet p s.next s.err (get_or defs k nil)) _ h in
        elim (Bool-cases valid) [
          | inr refused ↦ subst (λ x. IsProper Q x.interfaces) (ok-injective (rw refused at rest)) q
          | inl good ↦
              let ((ints, failed), matched, rest') =
                >>=-eq-ok (match_phys compile _ _ phys) _ (rw good at rest) in
              add_real-IsProper k ints failed _ s'
                (instances-AreFit Q (with_match_id compile phys p k def).intf ints
                  (passed.ethernet s.next s.err e (get_or defs k nil) def
                    (checked ∙ ap (λ b. ok (e, def, b)) good))
                  (match_phys-AreInstances compile _ (with_match_id compile phys p k def).intf phys
                    ints failed matched))
                rest' q
        ]

    read_virtual-IsProper :
        (validator : ℕ → Err → Value → Outcome (Err × Interface × Bool)) (defs : GoMap Value)
        (k : String) (s s' : Reading)
        → Accepts Q validator
        → read_virtual compile phys p validator defs k s ≡ ok s'
        → IsProper Q s.interfaces
        → IsProper Q s'.interfaces
    unfolding read_virtual
    read_virtual-IsProper validator defs k s s' kind h q =
        let ((e, i, valid), checked, rest) =
          >>=-eq-ok (validator s.next s.err (get_or defs k nil)) _ h in
        elim (Bool-cases valid) [
          | inr refused ↦ subst (λ x. IsProper Q x.interfaces) (ok-injective (rw refused at rest)) q
          | inl good ↦
              add_other-IsProper k k i _ s'
                (kind s.next s.err e (get_or defs k nil) i (checked ∙ ap (λ b. ok (e, i, b)) good))
                (rw good at rest) q
        ]

    virtuals-IsProper :
        (validator : ℕ → Err → Value → Outcome (Err × Interface × Bool)) (defs : GoMap Value)
        (ks : List String) (s s' : Reading)
        → Accepts Q validator
        → each (read_virtual compile phys p validator defs) ks s ≡ ok s'
        → IsProper Q s.interfaces
        → IsProper Q s'.interfaces
    virtuals-IsProper validator defs ks s s' kind h q =
        each_inv (read_virtual compile phys p validator defs) (λ x. IsProper Q x.interfaces) ks
          (λ k m x x' r step. read_virtual-IsProper validator defs k x x' kind step r) s s' q h

    pub read_all-IsProper :
        (n : Netplan) (s : Reading) → read_all compile phys p n ≡ ok s → IsProper Q s.interfaces
    unfolding read_all opening get
    read_all-IsProper n s h =
        let (s1, ethers, h1) =
          >>=-eq-ok
            (each (read_ethernet compile phys p n.ethernets) (get_names n.ethernets) (opening p n))
            _ h in
        let (s2, bonds, h2) =
          >>=-eq-ok (each (read_virtual compile phys p (bond p) n.bonds) (get_names n.bonds) s1) _
            h1 in
        let (s3, bridges, vlans) =
          >>=-eq-ok
            (each (read_virtual compile phys p (bridge p) n.bridges) (get_names n.bridges) s2) _
            h2 in
        let q1 =
          each_inv (read_ethernet compile phys p n.ethernets) (λ x. IsProper Q x.interfaces)
            (get_names n.ethernets)
            (λ k m x x' r step. read_ethernet-IsProper n.ethernets k x x' step r) (opening p n) s1
            (λ k v here. cc) ethers in
        let q2 =
          virtuals-IsProper (bond p) n.bonds (get_names n.bonds) s1 s2 passed.bond bonds q1 in
        let q3 =
          virtuals-IsProper (bridge p) n.bridges (get_names n.bridges) s2 s3 passed.bridge bridges
            q2 in
        virtuals-IsProper (vlan p) n.vlans (get_names n.vlans) s3 s passed.vlan vlans q3
