-- ===== src/Sort/Laws.antt =====
-- Sorting keeps the members, orders them, and does not depend on the order of its input.
use mathlib.Core.List.{Perm, Permᴰ}
use mathlib.Core.Logic.{∥∥₁_elim}
use text.Mathlib.TextEquality.{IsScalar-prop}
use netwrangler.Base.{
  String, true, ◌≡◌, refl, ◌∙◌, ◌↔◌, ◌⊎◌, inl, inr, List, [], ◌∷◌, Memᴰ, All, Memᴰ-cons, Bool-cases,
  arith,
}
use netwrangler.Sort.{str_leb, insert, sort}
use netwrangler.Sort.Order.{str_leb_total, str_leb_trans, str_leb_antisymm}

-- Every member is below all that stand behind it.
abbrev pub IsSorted : List String → Type 0
IsSorted [] = Unit
IsSorted (a ∷ as') = All (λ b. str_leb a b ≡ true) as' × IsSorted as'

pub insert_iff : (x a : String) (bs : List String) → Memᴰ x (insert a bs) ↔ ((x ≡ a) ⊎ Memᴰ x bs)
unfolding insert
insert_iff x a [] = Memᴰ-cons x a []
insert_iff x a (b ∷ bs) = ground (
  arith,
  Memᴰ-cons x a (b ∷ bs),
  Memᴰ-cons x b bs,
  Memᴰ-cons x b (insert a bs),
  insert_iff x a bs,
)

pub sort_iff : (x : String) (xs : List String) → Memᴰ x (sort xs) ↔ Memᴰ x xs
unfolding sort
sort_iff x [] = (λ m. m, λ m. m)
sort_iff x (a ∷ as') = ground (arith, insert_iff x a (sort as'), Memᴰ-cons x a as', sort_iff x as')

All-below_trans :
    (a b : String) (bs : List String)
    → str_leb a b ≡ true
    → All (λ c. str_leb b c ≡ true) bs
    → All (λ c. str_leb a c ≡ true) bs
All-below_trans a b [] h all = tt
All-below_trans a b (c ∷ cs) h (k, all) = (str_leb_trans a b c h k, All-below_trans a b cs h all)

All-below-insert :
    (x a : String) (bs : List String)
    → str_leb x a ≡ true
    → All (λ c. str_leb x c ≡ true) bs
    → All (λ c. str_leb x c ≡ true) (insert a bs)
unfolding insert
All-below-insert x a [] h all = (h, tt)
All-below-insert x a (b ∷ bs) h (k, all) = elim (Bool-cases (str_leb a b)) [
  | inl below ↦ rw below (h, (k, all))
  | inr above ↦ rw above (k, All-below-insert x a bs h all)
]

insert-IsSorted : (a : String) (bs : List String) → IsSorted bs → IsSorted (insert a bs)
unfolding insert
insert-IsSorted a [] h = (tt, tt)
insert-IsSorted a (b ∷ bs) (below, h) = elim (Bool-cases (str_leb a b)) [
  | inl le ↦ rw le ((le, All-below_trans a b bs le below), (below, h))
  | inr gt ↦
      rw gt
        (All-below-insert b a bs (ground (arith, str_leb_total a b)) below, insert-IsSorted a bs h)
]

pub sort-IsSorted : (xs : List String) → IsSorted (sort xs)
unfolding sort
sort-IsSorted [] = tt
sort-IsSorted (a ∷ as') = insert-IsSorted a (sort as') (sort-IsSorted as')

insert_comm : (a b : String) (l : List String) → insert a (insert b l) ≡ insert b (insert a l)
unfolding insert
insert_comm a b [] = ground (arith, str_leb_total a b, str_leb_antisymm a b)
insert_comm a b (c ∷ cs) = ground (
  arith,
  str_leb_total a b,
  str_leb_antisymm a b,
  str_leb_trans a b c,
  str_leb_trans b a c,
  str_leb_total a c,
  str_leb_total b c,
  insert_comm a b cs,
)

sort-Permᴰ : {xs ys : List String} → Permᴰ xs ys → sort xs ≡ sort ys
unfolding sort
sort-Permᴰ Permᴰ.nil = refl
sort-Permᴰ (Permᴰ.cons e p) = cc (e, sort-Permᴰ p)
sort-Permᴰ (Permᴰ.swap {a} {b} {l} e f) = rw (← e, ← f) (insert_comm a b (sort l))
sort-Permᴰ (Permᴰ.trans p q) = sort-Permᴰ p ∙ sort-Permᴰ q

-- Two lists with the same members, as often, are sorted to the same list.
pub sort-perm : {xs ys : List String} → Perm xs ys → sort xs ≡ sort ys
sort-perm p = ∥∥₁_elim p (hlevel IsScalar-prop) sort-Permᴰ
