-- ===== src/Layout/Validation/Stripping.antt =====
-- Maps of interfaces that differ in networks that were cleared.
pub mod Loop
pub mod Accepted
pub mod Kept
use netwrangler.Base.{
  is_empty_iff, ◌⊎◌, not, ◌&&◌, ◌||◌, ◌==◌, Bool, String, true, false, ◌≡◌, refl, sym, ap, ◌∙◌,
  Option, none, some, List, [], ◌∷◌, Memᴰ, inl, inr, Bool-cases, if◌then◌else◌, subst, arith,
  eq_iff, contains, Option-cases, is_empty, contains_iff, Memᴰ-cons, some_cancel,
}
use mathlib.Core.List.Memᴰ
use mathlib.Core.Bool.{false≢true}
use netwrangler.GoMap.{GoMap, get, put, get_or, has, is_some}
use netwrangler.GoMap.Laws.{get-put}
use netwrangler.Layout.{Interface, new_interface}
use netwrangler.Layout.Members.Ownership.Exclusive.{IsNamed}
use netwrangler.Layout.Validation.{strip_child, strip_children, strip_member, strip_members}

abbrev pub bare : Interface → Interface
bare v = record v { network = none }

-- The entry as it is, or without its network.
abbrev pub bare_if : Bool → Option Interface → Option Interface
bare_if b none = none
bare_if true (some v) = some (bare v)
bare_if false (some v) = some v

bare_if_twice : (a b : Bool) (v : Option Interface) → bare_if a (bare_if b v) ≡ bare_if (b || a) v
bare_if_twice a b none = refl
bare_if_twice true true (some v) = refl
bare_if_twice true false (some v) = refl
bare_if_twice false true (some v) = refl
bare_if_twice false false (some v) = refl

-- `m` is `m0` with the networks cleared that `cleared` names.
abbrev pub IsCleared : GoMap Interface → GoMap Interface → (String → Bool) → Type 0
IsCleared m m0 cleared = (k : String) → get k m ≡ bare_if (cleared k) (get k m0)

-- A cleared entry differs in its network alone.
pub bare_if-some :
    (b : Bool) (o : Option Interface) (v : Interface)
    → bare_if b o ≡ some v
    → (v0 : Interface) × (o ≡ some v0) × (v ≡ (if b then bare v0 else v0))
bare_if-some b none v e = cc
bare_if-some true (some v0) v e = (v0, refl, sym (some_cancel e))
bare_if-some false (some v0) v e = (v0, refl, sym (some_cancel e))

pub bare_if-false : (o : Option Interface) → o ≡ bare_if false o
bare_if-false none = refl
bare_if-false (some v) = refl

is_some-bare_if : (b : Bool) (o : Option Interface) → is_some (bare_if b o) ≡ is_some o
is_some-bare_if b none = refl
is_some-bare_if true (some v) = refl
is_some-bare_if false (some v) = refl

name-bare : (b : Bool) (v : Interface) → (if b then bare v else v).name ≡ v.name
name-bare true v = refl
name-bare false v = refl

pub IsCleared-trans :
    (m t m0 : GoMap Interface) (a b : String → Bool)
    → IsCleared t m0 b
    → IsCleared m t a
    → IsCleared m m0 (λ k. b k || a k)
IsCleared-trans m t m0 a b h h' k =
    h' k ∙ ap (bare_if (a k)) (h k) ∙ bare_if_twice (a k) (b k) (get k m0)

pub IsCleared-IsNamed :
    (m m0 : GoMap Interface) (cleared : String → Bool)
    → IsCleared m m0 cleared
    → IsNamed m0
    → IsNamed m
IsCleared-IsNamed m m0 cleared h named k v e =
    let (v0, here, same) = bare_if-some (cleared k) (get k m0) v (sym (h k) ∙ e) in
    ap (λ x. x.name) same ∙ name-bare (cleared k) v0 ∙ named k v0 here

abbrev pub IsDefined : List String → GoMap Interface → Type 0
IsDefined names m = (x : String) → Memᴰ x names → has x m ≡ true

pub IsCleared-IsDefined :
    (m m0 : GoMap Interface) (cleared : String → Bool) (names : List String)
    → IsCleared m m0 cleared
    → IsDefined names m0
    → IsDefined names m
IsCleared-IsDefined m m0 cleared names h defined x i =
    ap is_some (h x) ∙ is_some-bare_if (cleared x) (get x m0) ∙ defined x i

-- What does not look at the network is not changed.
pub view-IsCleared {ℓ} :
    {B : Type ℓ} (f : Interface → B) (m m0 : GoMap Interface) (cleared : String → Bool)
    → ((v : Interface) → f (bare v) ≡ f v)
    → IsCleared m m0 cleared
    → (j : String) → f (get_or m j new_interface) ≡ f (get_or m0 j new_interface)
view-IsCleared f m m0 cleared blind h j =
    ap (λ o. f (value_or o)) (h j) ∙ same (cleared j) (get j m0)
  where
    value_or : Option Interface → Interface
    value_or none = new_interface
    value_or (some v) = v

    same : (b : Bool) (o : Option Interface) → f (value_or (bare_if b o)) ≡ f (value_or o)
    same b none = refl
    same true (some v) = blind v
    same false (some v) = refl
