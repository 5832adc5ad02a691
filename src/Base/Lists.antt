-- ===== src/Base/Lists.antt =====
-- Lists measured by native numbers, predicates on all their members, and membership tests.
use Prim.Native.Nat.{ℕ, suc, ◌+◌}
use Prim.Native.String.{String}
use mathlib.Core.Path.{◌≡◌, sym, ◌∙◌}
use mathlib.Core.Logic.{◌≢◌, ◌⊎◌, inl, inr, ◌↔◌, ⊎_elim}
use mathlib.Core.Bool.{false≢true, Bool, true, false, ◌||◌}
use mathlib.Core.List.Memᴰ
use mathlib.Core.List.{List, [], ◌∷◌, ◌++◌, Memᴰ}
use native.Mathlib.Omega.{arith}
use text.Mathlib.TextEquality.{eq_iff}
use netwrangler.Base.Tests.{◌==◌, Bool-cases}

module _ {ℓ} {A : Type ℓ} where
  abbrev pub length : List A → ℕ
  length [] = 0
  length (_ ∷ xs) = suc (length xs)

  abbrev pub is_empty : List A → Bool
  is_empty [] = true
  is_empty (_ ∷ _) = false

  pub is_empty_iff : (xs : List A) → (is_empty xs ≡ true) ↔ (xs ≡ [])
  is_empty_iff [] = ground arith
  is_empty_iff (x ∷ xs) = ground arith

  -- Every member satisfies `P`; tactics read it as a tuple.
  abbrev pub All {κ} : (A → Type κ) → List A → Type κ
  All P [] = Unit
  All P (x ∷ xs) = P x × All P xs

  pub length-append : (xs ys : List A) → length (xs ++ ys) ≡ length xs + length ys
  length-append [] ys = omega arith
  length-append (x ∷ xs) ys = omega (arith, length-append xs ys)

  pub Memᴰ-cons : (a x : A) (xs : List A) → Memᴰ a (x ∷ xs) ↔ ((a ≡ x) ⊎ Memᴰ a xs)
  Memᴰ-cons a x xs = (Memᴰ.cases_cons, ⊎_elim Memᴰ.head Memᴰ.tail)

  pub Memᴰ-append : (a : A) (xs ys : List A) → Memᴰ a (xs ++ ys) ↔ (Memᴰ a xs ⊎ Memᴰ a ys)
  Memᴰ-append a xs ys = (Memᴰ.append_cases xs, ⊎_elim (Memᴰ.append_left ys) (Memᴰ.append_right xs))

  pub All-Memᴰ {κ} : (P : A → Type κ) (xs : List A) {a : A} → All P xs → Memᴰ a xs → P a
  All-Memᴰ P [] h m = absurd (Memᴰ.not-nil m)
  All-Memᴰ P (x ∷ xs) h m = ⊎_elim (λ e. rw e h.0) (All-Memᴰ P xs h.1) (Memᴰ.cases_cons m)

  pub All-append {κ} : (P : A → Type κ) (xs ys : List A) → All P xs → All P ys → All P (xs ++ ys)
  All-append P [] ys h k = k
  All-append P (x ∷ xs) ys h k = (h.0, All-append P xs ys h.1 k)

  pub All-map {κ μ} :
      (P : A → Type κ) (Q : A → Type μ) (xs : List A) → ((a : A) → P a → Q a) → All P xs → All Q xs
  All-map P Q [] f h = tt
  All-map P Q (x ∷ xs) f h = (f x h.0, All-map P Q xs f h.1)

-- `for _, t := range list { if t == s … }`
unfoldable pub contains : String → List String → Bool
contains s [] = false
contains s (t ∷ ts) = t == s || contains s ts

pub contains_iff : (s : String) (ts : List String) → (contains s ts ≡ true) ↔ Memᴰ s ts
unfolding contains
contains_iff s [] = (λ e. cc, λ m. absurd (Memᴰ.not-nil m))
contains_iff s (t ∷ ts) = ground (arith, eq_iff t s, contains_iff s ts, Memᴰ-cons s t ts)

pub str_cases : (a b : String) → (a ≡ b) ⊎ (a ≢ b)
str_cases a b = elim (Bool-cases (a == b)) [
  | inl e ↦ inl ((eq_iff a b).0 e)
  | inr differs ↦ inr (λ e. false≢true (sym differs ∙ (eq_iff a b).1 e))
]

pub apart : {s a b : String} → s ≡ a → s ≡ b → (a == b) ≡ false → ⊥
apart {s} {a} {b} h k differ = false≢true (sym differ ∙ (eq_iff a b).1 (sym h ∙ k))

pub differ_by : {s a : String} → (s == a) ≡ false → s ≡ a → ⊥
differ_by {s} {a} differ e = false≢true (sym differ ∙ (eq_iff s a).1 e)
