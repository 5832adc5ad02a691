-- ===== src/Layout/Validation/Total.antt =====
-- Whether Layout.Validate returns.
use netwrangler.Base.{String, ◌≡◌, refl, sym, Option, some, List, inl, inr, Bool-cases, subst}
use netwrangler.GoMap.{GoMap, get, get_or}
use netwrangler.Net.{Gnet}
use netwrangler.Outcome.{ok, each, each_returns, each_keeps}
use netwrangler.Err.{GoError, empty}
use netwrangler.Layout.{Interface, Layout}
use netwrangler.Layout.Members.{Parents}
use netwrangler.Layout.Members.Total.{IsKind, interface_validate-returns}
use netwrangler.Layout.Cycles.Ends.{cyclic_returns}
use netwrangler.Layout.Validation.{
  Checked, Sweep, validate_member, sweep_step, validate_rest, layout_validate,
}
use netwrangler.Layout.Validation.Phases.{start, members, swept_from}
use netwrangler.Layout.Validation.Entries.{SameMap, SameMap-refl, SameMap-put}
use netwrangler.Layout.Validation.Ownership.{members-defined}

-- Every entry is of one of the four kinds.
abbrev pub IsTyped : GoMap Interface → Type 0
IsTyped m = (k : String) (v : Interface) → get k m ≡ some v → IsKind v.type

module _ (g : Gnet) where
  member_returns :
      (m0 : GoMap Interface) (k : String) (v0 : Interface) (c : Checked)
      → get k m0 ≡ some v0
      → IsKind v0.type
      → SameMap c.0.interfaces m0
      → (c' : Checked) × (validate_member g k c ≡ ok c') × SameMap c'.0.interfaces m0
  unfolding validate_member
  member_returns m0 k v0 c here kind same =
      let (v, now, s) = same.found k v0 here in
      let (r, e) =
        interface_validate-returns g c.0.interfaces v c.0.child2parent
          (subst IsKind (sym s.type) kind) in
      rw (now, get_or, validate_member, e) (_, refl, SameMap-put k v v0 same here s)

  members_return :
      (order : List String) (l : Layout)
      → IsTyped l.interfaces
      → (c : Checked) × (each (validate_member g) (members g order l) (start l) ≡ ok c)
        × SameMap c.0.interfaces l.interfaces
  members_return order l typed =
      each_keeps (validate_member g) (λ c. SameMap c.0.interfaces l.interfaces) (members g order l)
        (λ k m c same.
          let (v0, here) = members-defined l k m in
          member_returns l.interfaces k v0 c here (typed k v0 here) same)
        (start l) (SameMap-refl l.interfaces)

sweep_step_returns :
    (parents : Parents) (k : String) (s : Sweep) → (s' : Sweep) × (sweep_step parents k s ≡ ok s')
unfolding sweep_step
sweep_step_returns parents k s = let (t, e) = cyclic_returns parents k s.search in rw e (_, refl)

-- On a layout of physical interfaces, bonds, bridges and vlans Layout.Validate returns: it does
-- not panic, and its search for cycles ends.
pub layout_validate-returns :
    (g : Gnet) (order : List String) (l : Layout)
    → IsTyped l.interfaces
    → (r : Layout × Option GoError) × (layout_validate g order l ≡ ok r)
unfolding layout_validate validate_rest
layout_validate-returns g order l typed =
    let (c, loop, _) = members_return g order l typed in
    rw loop (elim (Bool-cases (empty c.1)) [
      | inr failed ↦ rw (failed, validate_rest) (_, refl)
      | inl passed ↦
          let (s, e) =
            each_returns (sweep_step c.0.child2parent) (sweep_step_returns c.0.child2parent) order
              (swept_from c) in
          rw (passed, validate_rest, e) (_, refl)
    ])
