-- ===== src/Netplan/Compile/Accepted.antt =====
-- What Compile returns, and what the systemd writer makes of it.
use netwrangler.Base.{String, ◌≡◌, refl, sym, ap, ◌∙◌, inl, inr, Option, none, List, []}
use netwrangler.GoMap.{GoMap, keys}
use netwrangler.Net.{Gnet}
use netwrangler.Outcome.{ok, >>=-eq-ok, ok-injective}
use netwrangler.Err.{Err, GoError, or_nil, merge}
use netwrangler.Err.Laws.{empty-merge, or_nil-eq-none_iff}
use netwrangler.Globs.{Compiler}
use netwrangler.Phys.{Phy}
use netwrangler.Layout.{Layout}
use netwrangler.Layout.Members.Ownership.Exclusive.{IsNamed}
use netwrangler.Layout.Validation.{layout_validate}
use netwrangler.Layout.Validation.Phases.{layout_validate_phases}
use netwrangler.Layout.Validation.Total.{IsTyped}
use netwrangler.Netplan.{Packages, Netplan}
use netwrangler.Netplan.Kinds.{KeepsType, bb-type, vlan-type}
use netwrangler.Netplan.Devices.{bond, bridge, bond_params, bridge_params}
use netwrangler.Value.{Value}
use netwrangler.Layout.Members.Total.{IsKind}
use netwrangler.Netplan.Compile.{layout_of, read_all, compile_netplan}
use netwrangler.Netplan.Compile.Proper.{IsProper, resolve-IsProper}
use netwrangler.Netplan.Compile.Named.{IsPassed, read_all-IsProper}

-- `l` is validated to `l'` with the result `error`. It starts without roots, and its entries carry
-- their keys as names and are of the four kinds.
pub record IsReadAs (g : Gnet) (order : List String → List String) (l' : Layout)
    (error : Option GoError) : Type 0 where
  pub layout : Layout
  pub named : IsNamed layout.interfaces
  pub typed : IsTyped layout.interfaces
  pub blank : layout.roots ≡ []
  pub validated : layout_validate g (order (keys layout.interfaces)) layout ≡ ok (l', error)

-- What Layout.Validate returns is the result of a collector.
collector_of :
    (g : Gnet) (order : List String) (l l' : Layout) (error : Option GoError)
    → layout_validate g order l ≡ ok (l', error)
    → (o : Err) × (error ≡ or_nil o)
unfolding or_nil
collector_of g order l l' error h = elim (layout_validate_phases g order l l' error h) [
  | inl r ↦ (r.checked.1, r.error ∙ sym (rw (r.failed, or_nil) refl))
  | inr s ↦ (s.sweep.search.err, s.error)
]

-- The same, with a property of the types and the parameters of the entries.
pub record IsPassedOn (g : Gnet) (order : List String → List String)
    (Q : String → GoMap Value → Type 0) (l' : Layout) (error : Option GoError) : Type 0 where
  pub layout : Layout
  pub proper : IsProper Q layout.interfaces
  pub blank : layout.roots ≡ []
  pub validated : layout_validate g (order (keys layout.interfaces)) layout ≡ ok (l', error)

pub compile_netplan-IsPassedOn :
    (compile : Compiler) (phys : List Phy) (p : Packages) (order : List String → List String)
    (n : Netplan) (l : Layout) (error : Option GoError) (Q : String → GoMap Value → Type 0)
    → IsPassed p Q
    → compile_netplan compile phys p order n ≡ ok (l, error)
    → (invalid : Option GoError) × IsPassedOn p.gnet order Q l invalid
      × (error ≡ none → invalid ≡ none)
unfolding compile_netplan
compile_netplan-IsPassedOn compile phys p order n l error Q passed h =
    let (s, reads, rest) = >>=-eq-ok (read_all compile phys p n) _ h in
    let ((l', invalid), validates, done) =
      >>=-eq-ok (layout_validate p.gnet (order (keys (layout_of s).interfaces)) (layout_of s)) _
        rest in
    let proper =
      resolve-IsProper Q s.match_children s.interfaces
        (read_all-IsProper Q p passed compile phys n s reads) in
    let (o, collected') = collector_of p.gnet _ (layout_of s) l' invalid validates in
    (
      invalid,
      record {
        layout = layout_of s;
        proper = proper;
        blank = refl;
        validated = validates ∙ ap (λ x. ok (x, invalid)) (ap (λ x. x.0) (ok-injective done));
      },
      λ silent.
          ((empty-merge s.err invalid o collected').0 (
            (or_nil-eq-none_iff (merge s.err invalid)).0
              (ap (λ x. x.1) (ok-injective done) ∙ silent))).1,
    )

pub kinds-IsPassed : (p : Packages) → KeepsType p → IsPassed p (λ type parameters. IsKind type)
unfolding bond bridge
kinds-IsPassed p keeps = record {
  ethernet = λ address e e' v def h. inl refl;
  sub = inl refl;
  bond = λ address e e' v i h. inr (inl (bb-type p "bond" (bond_params p) address e e' v i h));
  bridge = λ address e e' v i h.
      inr (inr (inl (bb-type p "bridge" (bridge_params p) address e e' v i h)));
  vlan = λ address e e' v i h. inr (inr (inr (vlan-type p address e e' v i keeps h)));
}

-- If Compile returns, then what it returns is what Layout.Validate makes of a layout that
-- starts without roots and whose entries carry their keys as names and are physical interfaces,
-- bonds, bridges and vlans, provided that decoding an object with at most the key macaddress
-- into a blank vlan leaves its type alone; and if Compile reports nothing, then neither does
-- Layout.Validate.
pub compile_netplan-IsReadAs :
    (compile : Compiler) (phys : List Phy) (p : Packages) (order : List String → List String)
    (n : Netplan) (l : Layout) (error : Option GoError)
    → KeepsType p
    → compile_netplan compile phys p order n ≡ ok (l, error)
    → (invalid : Option GoError) × IsReadAs p.gnet order l invalid × (error ≡ none → invalid ≡ none)
compile_netplan-IsReadAs compile phys p order n l error keeps h =
    let (invalid, r, silent) =
      compile_netplan-IsPassedOn compile phys p order n l error (λ type parameters. IsKind type)
        (kinds-IsPassed p keeps) h in
    (
      invalid,
      record {
        layout = r.layout;
        named = λ k v here. (r.proper k v here).0;
        typed = λ k v here. (r.proper k v here).1;
        blank = r.blank;
        validated = r.validated;
      },
      silent,
    )
