-- ===== src/Layout/Validation/Members.antt =====
-- What holds of a layout whose first loop in Layout.Validate reports nothing.
pub mod Round
pub mod Loop
use mathlib.Core.List.Memᴰ
use netwrangler.Base.{
  String, true, false, ◌≡◌, ◌≢◌, refl, sym, ap, ◌∙◌, Option, none, some, List, [], ◌∷◌, ◌⊎◌, ◌↔◌,
  Memᴰ, Memᴰ-cons, arith, inl, inr, Bool-cases, subst, ⊎_elim, some_cancel,
}
use netwrangler.Sort.{sort}
use netwrangler.Sort.Laws.{sort_iff}
use netwrangler.GoMap.{GoMap, get, put, get_or}
use netwrangler.Net.{Gnet}
use netwrangler.Outcome.{ok, each, >>=-eq-ok, ok-injective}
use netwrangler.Err.{GoError, empty, merge, or_nil, new_err}
use netwrangler.Err.Laws.{empty-merge, or_nil-eq-none_iff, empty-new_err}
use netwrangler.Text.{concat}
use netwrangler.Layout.{NetworkRef, Interface, new_interface, Layout}
use netwrangler.Layout.Networks.{network_validate}
use netwrangler.Layout.Networks.Laws.{IsValidNetwork, network_validate_iff}
use netwrangler.Layout.Members.{Parents, network_merge, interface_validate}
use netwrangler.Layout.Members.Steps.{IsAllowed}
use netwrangler.Layout.Members.Whole.{
  IsPhysical, IsVirtual, first_progress, blank_err, interface_validate_cases,
}
use netwrangler.Layout.Members.Filled.{IsFilled, interface_validate-IsFilled}
use netwrangler.Layout.Members.Ownership.{IsParent}
use netwrangler.Layout.Members.Ownership.Exclusive.{IsNamed, IsExclusive, type_of}
use netwrangler.Layout.Members.Ownership.Loop.{subs-IsBuilt}
use netwrangler.Layout.Validation.{Checked, sorted_entry, validate_member}
use netwrangler.Layout.Validation.Entries.{
  SameEntry, SameMap, SameMap-back, SameMap-IsNamed, SameMap-put, type_of-SameMap,
}

-- What validate_member has done with a member that is there.
pub record IsTaken (g : Gnet) (k : String) (v : Interface) (c c' : Checked) : Type 0 where
  pub result : Option GoError × Parents
  pub validated : interface_validate g c.0.interfaces v c.0.child2parent ≡ ok result
  pub interfaces : c'.0.interfaces ≡ put k (sorted_entry v) c.0.interfaces
  pub parents : c'.0.child2parent ≡ result.1
  pub roots : c'.0.roots ≡ c.0.roots
  pub err : c'.1 ≡ merge c.1 result.0

pub validate_member-IsTaken :
    (g : Gnet) (k : String) (v : Interface) (c c' : Checked)
    → get k c.0.interfaces ≡ some v
    → validate_member g k c ≡ ok c'
    → IsTaken g k v c c'
unfolding validate_member
validate_member-IsTaken g k v c c' here e =
    let (r, validated, done) =
      >>=-eq-ok (interface_validate g c.0.interfaces v c.0.child2parent)
        (λ r. ok (
          record c.0 { interfaces = put k (sorted_entry v) c.0.interfaces; child2parent = r.1 },
          merge c.1 r.0,
        ))
        (rw (here, get_or, validate_member) at e) in
    let same = ok-injective done in
    record {
      result = r;
      validated = validated;
      interfaces = ap (λ d. d.0.interfaces) (sym same);
      parents = ap (λ d. d.0.child2parent) (sym same);
      roots = ap (λ d. d.0.roots) (sym same);
      err = ap (λ d. d.1) (sym same);
    }

-- The interface named `q` lists `c`, and is of a kind that is built on others.
pub record Owns (m : GoMap Interface) (q c : String) : Type 0 where
  pub owner : Interface
  pub defined : get q m ≡ some owner
  pub virtual : owner.type ≢ "physical"
  pub lists : Memᴰ c owner.interfaces

abbrev pub IsNetworkValid : Gnet → Option NetworkRef → Type 0
IsNetworkValid g none = Unit
IsNetworkValid g (some n) = IsValidNetwork g n.value

-- What validation makes sure of for one entry of the map.
pub record IsSound (g : Gnet) (m : GoMap Interface) (v : Interface) : Type 0 where
  pub bare : v.type ≡ "physical" → (c : String) → ¬ Memᴰ c v.interfaces
  pub network : v.type ≢ "physical" → IsNetworkValid g v.network
  pub members :
      (c : String)
      → Memᴰ c v.interfaces
      → (child : Interface) × (get c m ≡ some child) × IsAllowed v child
