-- ===== src/Layout/Validation/Members/Round.antt =====
-- One round of the first loop of Layout.Validate that reports nothing.
use mathlib.Core.List.Memᴰ
use netwrangler.Base.{
  String, true, ◌≡◌, ◌≢◌, sym, ◌∙◌, Option, none, some, [], ◌⊎◌, ◌↔◌, Memᴰ, arith, inl, inr, subst,
  ⊎_elim, some_cancel,
}
use netwrangler.Sort.{sort}
use netwrangler.Sort.Laws.{sort_iff}
use netwrangler.GoMap.{GoMap, get}
use netwrangler.Net.{Gnet}
use netwrangler.Outcome.{ok}
use netwrangler.Err.{Err, empty}
use netwrangler.Err.Laws.{empty-merge, or_nil-eq-none_iff, empty-new_err}
use netwrangler.Layout.{NetworkRef, Interface}
use netwrangler.Layout.Networks.{network_validate}
use netwrangler.Layout.Networks.Laws.{network_validate_iff, network_validate-or_nil}
use netwrangler.Layout.Members.{Parents, network_merge}
use netwrangler.Layout.Members.Steps.{IsAllowed}
use netwrangler.Layout.Members.Whole.{
  IsPhysical, IsVirtual, first_progress, blank_err, interface_validate_cases,
}
use netwrangler.Layout.Members.Filled.{IsFilled, interface_validate-IsFilled}
use netwrangler.Layout.Members.Ownership.{IsParent}
use netwrangler.Layout.Members.Ownership.Exclusive.{IsNamed, IsExclusive}
use netwrangler.Layout.Members.Ownership.Loop.{subs-IsBuilt}
use netwrangler.Layout.Validation.{Checked, validate_member}
use netwrangler.Layout.Validation.Entries.{
  SameEntry, SameMap, SameMap-back, SameMap-IsNamed, SameMap-put, type_of-SameMap,
}
use netwrangler.Layout.Validation.Members.{
  IsTaken, validate_member-IsTaken, Owns, IsNetworkValid, IsSound,
}

network_merge_iff :
    (g : Gnet) (e : Err) (n : Option NetworkRef)
    → empty e ≡ true
    → (empty (network_merge g e n) ≡ true) ↔ IsNetworkValid g n
unfolding network_merge
network_merge_iff g e none h = ground arith
network_merge_iff g e (some n) h =
    let (o, returned) = network_validate-or_nil g n.value in
    ground
      (arith, empty-merge e (network_validate g n.value) o returned, network_validate_iff g n.value)

IsAllowed-same :
    {v v0 c c0 : Interface} → SameEntry v v0 → SameEntry c c0 → IsAllowed v c → IsAllowed v0 c0
IsAllowed-same s t a = ground (arith, s.type, t.type)

IsExclusive-same :
    {m m0 : GoMap Interface} (parents : Parents)
    → SameMap m m0
    → IsExclusive m parents
    → IsExclusive m0 parents
IsExclusive-same parents same ex c = elim (ex c) [
  | inl one ↦ inl one
  | inr vlans ↦ inr (λ q h. sym (type_of-SameMap q same) ∙ vlans q h)
]

IsExclusive-back :
    {m m0 : GoMap Interface} (parents : Parents)
    → SameMap m m0
    → IsExclusive m0 parents
    → IsExclusive m parents
IsExclusive-back parents same ex c = elim (ex c) [
  | inl one ↦ inl one
  | inr vlans ↦ inr (λ q h. type_of-SameMap q same ∙ vlans q h)
]

Owns-iff :
    (m : GoMap Interface) (k ch : String) (v : Interface)
    → get k m ≡ some v
    → Owns m k ch ↔ ((v.type ≢ "physical") × Memᴰ ch v.interfaces)
Owns-iff m k ch v h = (
  λ o.
      let same : o.owner ≡ v = some_cancel (sym o.defined ∙ h) in
      (
        subst (λ w. w.type ≢ "physical") same o.virtual,
        subst (λ w. Memᴰ ch w.interfaces) same o.lists,
      ),
  λ (virtual, lists). record { owner = v; defined = h; virtual = virtual; lists = lists },
)

-- The state before a round, against the map that validation started from.
pub record IsReady (m0 : GoMap Interface) (c : Checked) : Type 0 where
  pub same : SameMap c.0.interfaces m0
  pub filled : IsFilled c.0.child2parent

pub record IsRound (g : Gnet) (m0 : GoMap Interface) (k : String) (v0 : Interface) (c c' : Checked)
    : Type 0 where
  pub silent : empty c.1 ≡ true
  pub ready : IsReady m0 c'
  pub parents :
      (ch q : String)
      → IsParent c'.0.child2parent ch q ↔ (IsParent c.0.child2parent ch q ⊎ (q ≡ k) × Owns m0 k ch)
  pub exclusive : IsExclusive m0 c.0.child2parent → IsExclusive m0 c'.0.child2parent
  pub sound : IsSound g m0 v0

module _ (g : Gnet) (m0 : GoMap Interface) (k : String) (v0 : Interface) (here : get k m0 ≡ some v0)
    (c c' : Checked) (ready : IsReady m0 c) where
  IsReady-after : (v : Interface) → SameEntry v v0 → IsTaken g k v c c' → IsReady m0 c'
  IsReady-after v s t = record {
    same = rw t.interfaces (SameMap-put k v v0 ready.same here s);
    filled = rw t.parents (
        interface_validate-IsFilled g c.0.interfaces v c.0.child2parent t.result ready.filled
          t.validated);
  }

  pub validate_member-IsReady : validate_member g k c ≡ ok c' → IsReady m0 c'
  validate_member-IsReady e =
      let (v, there, s) = ready.same.found k v0 here in
      IsReady-after v s (validate_member-IsTaken g k v c c' there e)

module _ (g : Gnet) (m0 : GoMap Interface) (named : IsNamed m0) (k : String) (v0 : Interface)
    (here : get k m0 ≡ some v0) (c c' : Checked) (silent : empty c'.1 ≡ true)
    (ready : IsReady m0 c) where
  abbrev IsThisRound : Type 0
  IsThisRound = IsRound g m0 k v0 c c'

  physical-IsRound :
      (v : Interface)
      → SameEntry v v0
      → (t : IsTaken g k v c c') → IsPhysical g c.0.interfaces v c.0.child2parent t.result
      → IsThisRound
  physical-IsRound v s t p =
      let merged = empty-merge c.1 t.result.0 p.collector p.returned in
      let both = merged.0 (rw t.err at silent) in
      let bare : v.interfaces ≡ [] = p.error.0 both.1 in
      record {
        silent = both.0;
        ready = IsReady-after g m0 k v0 here c c' ready v s t;
        parents = λ ch q.
            rw (t.parents, p.same)
              (
                inl,
                ⊎_elim (λ old. old)
                    (λ new.
                      absurd (((Owns-iff m0 k ch v0 here).0 new.1).0 (sym s.type ∙ p.physical))),
              );
        exclusive = λ ex. rw (t.parents, p.same) ex;
        sound = record {
          bare = λ _ ch m. Memᴰ.not-nil (subst (Memᴰ ch) bare ((s.subs ch).1 m));
          network = λ virtual. absurd (virtual (sym s.type ∙ p.physical));
          members = λ ch m. absurd (Memᴰ.not-nil (subst (Memᴰ ch) bare ((s.subs ch).1 m)));
        };
      }

  virtual-IsRound :
      (v : Interface)
      → get k c.0.interfaces ≡ some v
      → SameEntry v v0
      → (t : IsTaken g k v c c') → IsVirtual g c.0.interfaces v c.0.child2parent t.result
      → IsThisRound
  virtual-IsRound v there s t p =
      let merged = empty-merge c.1 t.result.0 p.final.err p.returned in
      let both = merged.0 (rw t.err at silent) in
      let name : v.name ≡ k = s.name ∙ named k v0 here in
      let entry : get v.name c.0.interfaces ≡ some v =
        subst (λ x. get x c.0.interfaces ≡ some v) (sym name) there in
      let b =
        subs-IsBuilt c.0.interfaces v (SameMap-IsNamed ready.same named) entry (sort v.interfaces)
          (first_progress g c.0.interfaces v c.0.child2parent) p.final
          ((or_nil-eq-none_iff p.final.err).0 (sym p.returned ∙ both.1)) ready.filled p.loop in
      record {
        silent = both.0;
        ready = IsReady-after g m0 k v0 here c c' ready v s t;
        parents = λ ch q.
            rw (t.parents, p.after)
              (ground (
                arith,
                b.gains.gains ch q,
                name,
                Owns-iff m0 k ch v0 here,
                sort_iff ch v.interfaces,
                s.subs ch,
                s.type,
                p.virtual,
              ));
        exclusive = λ ex.
            rw (t.parents, p.after)
              (IsExclusive-same p.final.parents ready.same
                (b.exclusive (IsExclusive-back c.0.child2parent ready.same ex)));
        sound = record {
          bare = λ physical. absurd (p.virtual (s.type ∙ physical));
          network = λ _. subst (IsNetworkValid g) s.network (
              (network_merge_iff g (blank_err g c.0.interfaces v c.0.child2parent) v.network
                  (empty-new_err _)).0
                b.gains.silent);
          members = λ ch mem.
              let (child, defined, allowed) =
                b.members ch ((sort_iff ch v.interfaces).1 ((s.subs ch).1 mem)) in
              let (child0, defined0, s') = SameMap-back ch child ready.same defined in
              (child0, defined0, IsAllowed-same s s' allowed);
        };
      }

  -- A round that reports nothing.
  pub validate_member-IsRound : validate_member g k c ≡ ok c' → IsThisRound
  validate_member-IsRound e =
      let (v, there, s) = ready.same.found k v0 here in
      let t = validate_member-IsTaken g k v c c' there e in
      elim (interface_validate_cases g c.0.interfaces v c.0.child2parent t.result t.validated) [
        | inl p ↦ physical-IsRound v s t p
        | inr p ↦ virtual-IsRound v there s t p
      ]
