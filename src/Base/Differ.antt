-- ===== src/Base/Differ.antt =====
-- Lists without repetitions, as a test.
use Prim.Native.String.{String}
use mathlib.Core.Path.{◌≡◌, sym, ap, ◌∙◌, subst}
use mathlib.Core.Logic.{inl, inr, ⊎_elim}
use mathlib.Core.Bool.{false≢true, Bool, true, not, ◌&&◌}
use mathlib.Core.List.Memᴰ
use mathlib.Core.List.{List, [], ◌∷◌, map, Memᴰ}
use netwrangler.Base.Tests.{Bool-cases}
use netwrangler.Base.Lists.{contains, contains_iff}

-- No text stands twice in a list.
unfoldable pub all_differ : List String → Bool
all_differ [] = true
all_differ (x ∷ xs) = not (contains x xs) && all_differ xs

pub all_differ-cons :
    (x : String) (xs : List String)
    → all_differ (x ∷ xs) ≡ true
    → ¬ Memᴰ x xs × (all_differ xs ≡ true)
unfolding all_differ
all_differ-cons x xs h = elim (Bool-cases (contains x xs)) [
  | inl there ↦ absurd (false≢true (rw there at h))
  | inr new ↦ (λ m. false≢true (sym new ∙ (contains_iff x xs).1 m), rw new at h)
]

pub all_differ-map :
    (f : String → String) (xs : List String) (p q : String)
    → all_differ (map f xs) ≡ true
    → Memᴰ p xs
    → Memᴰ q xs
    → f p ≡ f q
    → p ≡ q
all_differ-map f [] p q h mp mq e = absurd (Memᴰ.not-nil mp)
all_differ-map f (x ∷ xs) p q h mp mq e =
    let (first, rest) = all_differ-cons (f x) (map f xs) h in
    ⊎_elim
      (λ a.
        ⊎_elim (λ b. a ∙ sym b)
          (λ b. absurd (first (subst (λ y. Memᴰ y (map f xs)) (sym e ∙ ap f a) (mem-map f xs q b))))
          (Memᴰ.cases_cons mq))
      (λ a.
        ⊎_elim
          (λ b. absurd (first (subst (λ y. Memᴰ y (map f xs)) (e ∙ ap f b) (mem-map f xs p a))))
          (λ b. all_differ-map f xs p q rest a b e) (Memᴰ.cases_cons mq))
      (Memᴰ.cases_cons mp)
  where
    mem-map :
        (f : String → String) (xs : List String) (p : String) → Memᴰ p xs → Memᴰ (f p) (map f xs)
    mem-map f [] p m = absurd (Memᴰ.not-nil m)
    mem-map f (x ∷ xs) p m =
        ⊎_elim (λ e. Memᴰ.head (ap f e)) (λ later. Memᴰ.tail (mem-map f xs p later))
          (Memᴰ.cases_cons m)
