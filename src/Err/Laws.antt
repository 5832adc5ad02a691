-- ===== src/Err/Laws.antt =====
-- What collecting errors keeps: nothing is lost, the order stays, and only errors make it non-empty.
use mathlib.Core.List.{append-nil, append_assoc}
use netwrangler.Base.{
  suc, length, length-append, String, true, false, ◌≡◌, refl, sym, ◌∙◌, ◌↔◌, Option, none, some,
  List, [], ◌∷◌, ◌++◌, map, arith, is_empty,
}
use netwrangler.Text.{concat}
use netwrangler.Err.{
  Err, GoError, collected, plain, new_err, errorf, empty, merge_msgs, merge, or_nil,
}

-- How another error reads once it is merged.
abbrev pub rendered : Option GoError → List String
rendered none = []
rendered (some (collected o)) = map (λ msg. concat (o.prefix ∷ ": " ∷ msg ∷ [])) o.msgs
rendered (some (plain text)) = text ∷ []

merge_msgs-msgs :
    (prefix : String) (msgs : List String) (e : Err)
    → (merge_msgs prefix msgs e).msgs
      ≡ e.msgs ++ map (λ msg. concat (prefix ∷ ": " ∷ msg ∷ [])) msgs
unfolding merge_msgs errorf
merge_msgs-msgs prefix [] e = sym (append-nil e.msgs)
merge_msgs-msgs prefix (msg ∷ msgs) e =
    merge_msgs-msgs prefix msgs (errorf e (prefix ∷ ": " ∷ msg ∷ []))
    ∙ append_assoc e.msgs (concat (prefix ∷ ": " ∷ msg ∷ []) ∷ []) _

-- Merging an error appends its messages, each under its prefix, or the text of an error of
-- another type, or nothing.
pub merge-msgs :
    (e : Err) (other : Option GoError) → (merge e other).msgs ≡ e.msgs ++ rendered other
unfolding merge
merge-msgs e none = sym (append-nil e.msgs)
merge-msgs e (some (collected o)) = merge_msgs-msgs o.prefix o.msgs e
merge-msgs e (some (plain text)) = refl

pub empty-new_err : (prefix : String) → empty (new_err prefix) ≡ true
unfolding empty
empty-new_err prefix = refl

pub or_nil-eq-none_iff : (e : Err) → (or_nil e ≡ none) ↔ (empty e ≡ true)
unfolding or_nil
or_nil-eq-none_iff e = ground arith

pub empty-errorf : (e : Err) (pieces : List String) → empty (errorf e pieces) ≡ false
unfolding empty errorf
empty-errorf e pieces = go e.msgs
  where
    go : (msgs : List String) → is_empty (msgs ++ concat pieces ∷ []) ≡ false
    go [] = refl
    go (_ ∷ _) = refl

pub length-errorf :
    (e : Err) (pieces : List String) → length (errorf e pieces).msgs ≡ suc (length e.msgs)
unfolding errorf
length-errorf e pieces = omega (arith, length-append e.msgs (concat pieces ∷ []))

is_empty-append :
    (xs ys : List String)
    → (is_empty (xs ++ ys) ≡ true) ↔ ((is_empty xs ≡ true) × (is_empty ys ≡ true))
is_empty-append [] ys = ground arith
is_empty-append (x ∷ xs) ys = ground arith

is_empty-map : (f : String → String) (xs : List String) → is_empty (map f xs) ≡ is_empty xs
is_empty-map f [] = refl
is_empty-map f (x ∷ xs) = refl

-- A collector into which the result of another was merged is empty exactly if both were.
pub empty-merge-or_nil :
    (e o : Err) → (empty (merge e (or_nil o)) ≡ true) ↔ ((empty e ≡ true) × (empty o ≡ true))
unfolding empty or_nil
empty-merge-or_nil e o = go o.msgs refl
  where
    go :
        (msgs : List String)
        → o.msgs ≡ msgs
        → (empty (merge e (or_nil o)) ≡ true) ↔ ((empty e ≡ true) × (empty o ≡ true))
    go [] h = ground (arith, merge-msgs e none)
    go (m ∷ ms) h = ground (
      arith,
      merge-msgs e (some (collected o)),
      is_empty-append e.msgs (rendered (some (collected o))),
      is_empty-map (λ msg. concat (o.prefix ∷ ": " ∷ msg ∷ [])) o.msgs,
    )

-- The same where only the error is at hand, not the collector that it came from.
pub empty-merge :
    (e : Err) (other : Option GoError) (o : Err)
    → other ≡ or_nil o
    → (empty (merge e other) ≡ true) ↔ ((empty e ≡ true) × (other ≡ none))
empty-merge e other o h = ground (arith, empty-merge-or_nil e o, or_nil-eq-none_iff o)
