-- ===== src/Layout/Validation/Roots.antt =====
-- The roots that the last loop of Layout.Validate appends.
pub mod Found
pub mod Order
use mathlib.Core.List.Memᴰ
use mathlib.Core.List.Perm
use mathlib.Core.List.{Perm, Permᴰ, append_assoc, append-nil}
use mathlib.Core.Logic.{∥∥₁_elim, ∥∥₁_prop}
use mathlib.Core.Bool.{false≢true}
use netwrangler.Base.{
  suc, length, String, Bool, true, false, ◌≡◌, ◌≢◌, refl, sym, ap, ◌∙◌, Option, none, some, List,
  [], ◌∷◌, ◌++◌, ◌⊎◌, ◌↔◌, Memᴰ, Memᴰ-cons, arith, inl, inr, subst, ⊎_elim, Option-cases,
  Bool-cases, some_cancel, if◌then◌else◌,
}
use netwrangler.Sort.{sort}
use netwrangler.Sort.Laws.{sort_iff, sort-perm, IsSorted, sort-IsSorted}
use netwrangler.GoMap.{GoMap, get, get_or, keys, has}
use netwrangler.GoMap.Laws.{mem-keys_iff}
use netwrangler.Net.{Gnet}
use netwrangler.Outcome.{ok, each, >>=-eq-ok, ok-injective}
use netwrangler.Err.{GoError}
use netwrangler.Layout.{Interface, Layout}
use netwrangler.Layout.Members.{Parents}
use netwrangler.Layout.Cycles.{Search, cyclic}
use netwrangler.Layout.Validation.Phases.{
  start, members, swept_from, IsRefused, IsSwept, layout_validate_phases,
}
use netwrangler.Layout.Members.Filled.{IsFilled}
use netwrangler.Layout.Members.{interface_validate}
use netwrangler.Layout.Members.Ownership.{IsParent}
use netwrangler.Layout.Members.Ownership.Exclusive.{IsNamed}
use netwrangler.Layout.Validation.Members.{Owns}
use netwrangler.Layout.Validation.Ownership.{swept, looped, parents_iff, parents-same}
use netwrangler.Layout.{new_interface}
use netwrangler.GoMap.{put}
use netwrangler.Err.{merge, empty}
use netwrangler.Outcome.{each_inv}
use netwrangler.Layout.Validation.{Checked, validate_member, sorted_entry}
use netwrangler.Layout.Validation.{Sweep, sweep_step, layout_validate, finish, stripped}

-- The names that have no parents, in the order of the sweep.
unfoldable pub roots_of : Parents → List String → List String
roots_of parents [] = []
roots_of parents (k ∷ ks) = if has k parents then roots_of parents ks else k ∷ roots_of parents ks

pub roots_of_iff :
    (parents : Parents) (k : String) (ks : List String)
    → Memᴰ k (roots_of parents ks) ↔ (Memᴰ k ks × (has k parents ≡ false))
unfolding roots_of
roots_of_iff parents k [] = (λ m. absurd (Memᴰ.not-nil m), λ h. h.0)
roots_of_iff parents k (j ∷ ks) = elim (Bool-cases (has j parents)) [
  | inl owned ↦ rw owned (
    λ m. let (later, bare) = (roots_of_iff parents k ks).0 m in (Memᴰ.tail later, bare),
    λ (m, bare).
        ⊎_elim
          (λ e. absurd (false≢true (sym bare ∙ subst (λ x. has x parents ≡ true) (sym e) owned)))
          (λ later. (roots_of_iff parents k ks).1 (later, bare)) (Memᴰ.cases_cons m),
  )
  | inr root ↦ rw root (
    λ m.
        ⊎_elim (λ e. (Memᴰ.head e, subst (λ x. has x parents ≡ false) (sym e) root))
          (λ later. let (old, bare) = (roots_of_iff parents k ks).0 later in (Memᴰ.tail old, bare))
          (Memᴰ.cases_cons m),
    λ (m, bare).
        ⊎_elim Memᴰ.head (λ later. Memᴰ.tail ((roots_of_iff parents k ks).1 (later, bare)))
          (Memᴰ.cases_cons m),
  )
]

roots_of_cons :
    (parents : Parents) (a : String) (ks js : List String)
    → Perm (roots_of parents ks) (roots_of parents js)
    → Perm (roots_of parents (a ∷ ks)) (roots_of parents (a ∷ js))
unfolding roots_of
roots_of_cons parents a ks js p = elim (Bool-cases (has a parents)) [
  | inl owned ↦ rw owned p
  | inr root ↦ rw root (Perm.cons a p)
]

roots_of_swap :
    (parents : Parents) (a b : String) (ks : List String)
    → Perm (roots_of parents (a ∷ b ∷ ks)) (roots_of parents (b ∷ a ∷ ks))
unfolding roots_of
roots_of_swap parents a b ks = elim (Bool-cases (has a parents)) [
  | inl h ↦ rw h Perm.rfl
  | inr h ↦ elim (Bool-cases (has b parents)) [
    | inl k ↦ rw (h, k) Perm.rfl
    | inr k ↦ rw (h, k) (Perm.swap b a (roots_of parents ks))
  ]
]

roots_of-Permᴰ :
    (parents : Parents) {ks js : List String}
    → Permᴰ ks js
    → Perm (roots_of parents ks) (roots_of parents js)
roots_of-Permᴰ parents Permᴰ.nil = Perm.rfl
roots_of-Permᴰ parents (Permᴰ.cons {a} {b} {l₁} {l₂} e p) =
    subst (λ x. Perm (roots_of parents (a ∷ l₁)) (roots_of parents (x ∷ l₂))) e
      (roots_of_cons parents a l₁ l₂ (roots_of-Permᴰ parents p))
roots_of-Permᴰ parents (Permᴰ.swap {a} {b} {a'} {b'} {l} e f) =
    subst (λ x. Perm (roots_of parents (a ∷ b ∷ l)) (roots_of parents (a' ∷ x ∷ l))) e
      (subst (λ y. Perm (roots_of parents (a ∷ b ∷ l)) (roots_of parents (y ∷ a ∷ l))) f
        (roots_of_swap parents a b l))
roots_of-Permᴰ parents (Permᴰ.trans p q) =
    Perm.trans (roots_of-Permᴰ parents p) (roots_of-Permᴰ parents q)

pub roots_of-perm :
    (parents : Parents) {ks js : List String}
    → Perm ks js
    → Perm (roots_of parents ks) (roots_of parents js)
roots_of-perm parents p = ∥∥₁_elim p ∥∥₁_prop (roots_of-Permᴰ parents)

sweep_step-roots :
    (parents : Parents) (k : String) (s s' : Sweep)
    → sweep_step parents k s ≡ ok s'
    → s'.roots ≡ s.roots ++ roots_of parents (k ∷ [])
unfolding sweep_step roots_of
sweep_step-roots parents k s s' e =
    let (t, searched, done) =
      >>=-eq-ok (cyclic parents (suc (length (keys parents))) [] k s.search)
        (λ search. ok (record {
          roots = (if has k parents then s.roots else s.roots ++ k ∷ []);
          search = search;
        }))
        e in
    sym (ap (λ x. x.roots) (ok-injective done)) ∙ one (Bool-cases (has k parents))
  where
    one :
        ((has k parents ≡ true) ⊎ (has k parents ≡ false))
        → (if has k parents then s.roots else s.roots ++ k ∷ [])
          ≡ s.roots ++ roots_of parents (k ∷ [])
    one (inl owned) = rw owned (sym (append-nil s.roots))
    one (inr root) = rw root refl

roots_of-append :
    (parents : Parents) (k : String) (ks : List String)
    → roots_of parents (k ∷ ks) ≡ roots_of parents (k ∷ []) ++ roots_of parents ks
unfolding roots_of
roots_of-append parents k ks = elim (Bool-cases (has k parents)) [
  | inl owned ↦ rw owned refl
  | inr root ↦ rw root refl
]

-- The last loop appends the names without parents to the roots.
pub sweep-roots :
    (parents : Parents) (order : List String) (s s' : Sweep)
    → each (sweep_step parents) order s ≡ ok s'
    → s'.roots ≡ s.roots ++ roots_of parents order
unfolding each roots_of
sweep-roots parents [] s s' e = ap (λ x. x.roots) (sym (ok-injective e)) ∙ sym (append-nil s.roots)
sweep-roots parents (k ∷ ks) s s' e =
    let (t, first, rest) = >>=-eq-ok (sweep_step parents k s) (each (sweep_step parents) ks) e in
    sweep-roots parents ks t s' rest
    ∙ ap (λ x. x ++ roots_of parents ks) (sweep_step-roots parents k s t first)
    ∙ append_assoc s.roots (roots_of parents (k ∷ [])) (roots_of parents ks)
    ∙ ap (λ x. s.roots ++ x) (sym (roots_of-append parents k ks))
