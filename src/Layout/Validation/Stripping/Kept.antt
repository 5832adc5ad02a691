-- ===== src/Layout/Validation/Stripping/Kept.antt =====
-- What every entry of an accepted layout keeps: its name, its type, its parameters, and what it lists.
use netwrangler.Base.{
  String, ◌≡◌, none, some, List, ◌↔◌, Memᴰ, inl, inr, Option-cases, Bool-cases, subst, some_cancel,
  sym, ◌∙◌,
}
use netwrangler.GoMap.{get}
use netwrangler.Net.{Gnet}
use netwrangler.Outcome.{ok}
use netwrangler.Layout.{Interface, Layout}
use netwrangler.Layout.Members.Ownership.Exclusive.{IsNamed}
use netwrangler.Layout.Validation.{layout_validate}
use netwrangler.Layout.Validation.Phases.{members}
use netwrangler.Layout.Validation.Stripping.{bare}
use netwrangler.Layout.Validation.Stripping.Loop.{stripped_by}
use netwrangler.Layout.Validation.Stripping.Accepted.{final, cleared, same}

pub record IsKept (v' v : Interface) : Type 0 where
  pub name : v'.name ≡ v.name
  pub type : v'.type ≡ v.type
  pub parameters : v'.parameters ≡ v.parameters
  pub subs : (x : String) → Memᴰ x v'.interfaces ↔ Memᴰ x v.interfaces

module _ (g : Gnet) (order : List String) (l l' : Layout) (named : IsNamed l.interfaces)
    (accepted : layout_validate g order l ≡ ok (l', none)) where
  pub kept :
      (k : String) (v : Interface)
      → get k l.interfaces ≡ some v
      → (v' : Interface) × (get k l'.interfaces ≡ some v') × IsKept v' v
  kept k v here =
      let (w, now, s) = (same g order l l' named accepted).found k v here in
      let after = cleared g order l l' named accepted k in
      let k' : IsKept w v = record {
        name = s.name;
        type = s.type;
        parameters = s.parameters;
        subs = s.subs;
      } in
      elim (Bool-cases (stripped_by (final g order l l' named accepted) (members g order l) k)) [
        | inl h ↦ (
          bare w,
          cc (after, h, now),
          record { name = s.name; type = s.type; parameters = s.parameters; subs = s.subs },
        )
        | inr h ↦ (w, cc (after, h, now), k')
      ]

  pub entry_before :
      (k : String) (v' : Interface)
      → get k l'.interfaces ≡ some v'
      → (v : Interface) × (get k l.interfaces ≡ some v) × IsKept v' v
  entry_before k v' there = elim (Option-cases (get k l.interfaces)) [
    | inr (v, here) ↦
        let (w, now, same) = kept k v here in
        (v, here, subst (λ x. IsKept x v) (some_cancel (sym now ∙ there)) same)
    | inl gone ↦
        let missing = (same g order l l' named accepted).missing k gone in
        let after = cleared g order l l' named accepted k in
        absurd
          (elim (Bool-cases
            (stripped_by (final g order l l' named accepted) (members g order l) k)) [
              | inl h ↦ cc (after, h, missing, there)
              | inr h ↦ cc (after, h, missing, there)
            ])
  ]
