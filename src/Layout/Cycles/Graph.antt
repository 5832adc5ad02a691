-- ===== src/Layout/Cycles/Graph.antt =====
-- The graph in which cyclic() searches: from a child to its parents.
use netwrangler.Base.{String, ◌≡◌, none, some, List, Memᴰ}
use netwrangler.GoMap.{get}
use netwrangler.Layout.Members.{Parents}

-- `b` is among the parents of `a`.
pub data Edge (parents : Parents) (a b : String) : Type 0 where
  edge : (next : List String) → get a parents ≡ some next → Memᴰ b next → Edge parents a b

-- A walk of one step or more.
pub data Walk (parents : Parents) (a : String) : String → Type 0 where
  last : {b : String} → Edge parents a b → Walk parents a b
  step : {b c : String} → Walk parents a b → Edge parents b c → Walk parents a c

-- `a` has no parents.
abbrev pub IsRoot : Parents → String → Type 0
IsRoot parents a = get a parents ≡ none

-- No root can be reached from `a`, and every node on the way has a parent.
pub record IsTrapped (parents : Parents) (a : String) : Type 0 where
  pub inner : ¬ IsRoot parents a
  pub beyond : (b : String) → Walk parents a b → ¬ IsRoot parents b

pub Walk-cons :
    {parents : Parents} {a b c : String} → Edge parents a b → Walk parents b c → Walk parents a c
Walk-cons e (last e') = step (last e) e'
Walk-cons e (step w e') = step (Walk-cons e w) e'

pub IsTrapped-Edge :
    {parents : Parents} {a b : String}
    → IsTrapped parents a
    → Edge parents a b
    → IsTrapped parents b
IsTrapped-Edge {b} t e = record {
  inner = t.beyond b (last e);
  beyond = λ c w. t.beyond c (Walk-cons e w);
}
