-- ===== src/Layout/Cycles/Ends.antt =====
-- How deep the recursion of cyclic() goes: each call deeper works on one more name that has
-- parents.
use netwrangler.Base.{
  ℕ, zero, suc, ◌≤◌, ◌<◌, String, true, false, ◌≡◌, ◌∙◌, some, List, [], ◌∷◌, ◌++◌, Memᴰ-cons,
  Memᴰ-append, contains, contains_iff, length, if◌then◌else◌, arith, eq_iff,
}
use netwrangler.GoMap.{get, keys}
use netwrangler.GoMap.Laws.{mem-keys_iff}
use netwrangler.Outcome.{ok, each_returns}
use netwrangler.Layout.Members.{Parents}
use netwrangler.Layout.Cycles.{Search, cyclic}
use netwrangler.Layout.Cycles.Steps.{
  known, root, cycle, deeper, cyclic_case, cyclic_known, cyclic_root, cyclic_cycle, cyclic_deeper,
}

-- The keys that are not being worked on.
unvisited : List String → List String → ℕ
unvisited [] working = 0
unvisited (k ∷ ks) working =
    if contains k working then unvisited ks working else suc (unvisited ks working)

unvisited-le-length : (ks working : List String) → unvisited ks working ≤ length ks
unfolding unvisited
unvisited-le-length [] working = ground arith
unvisited-le-length (k ∷ ks) working = ground (arith, unvisited-le-length ks working)

contains-snoc :
    (k x : String) (working : List String)
    → contains k working ≡ true
    → contains k (working ++ x ∷ []) ≡ true
contains-snoc k x working h = ground (
  arith,
  contains_iff k working,
  contains_iff k (working ++ x ∷ []),
  Memᴰ-append k working (x ∷ []),
)

contains-snoc_self : (x : String) (working : List String) → contains x (working ++ x ∷ []) ≡ true
contains-snoc_self x working =
    ground
      (arith, contains_iff x (working ++ x ∷ []), Memᴰ-append x working (x ∷ []), Memᴰ-cons x x [])

unvisited-snoc_le :
    (ks : List String) (x : String) (working : List String)
    → unvisited ks (working ++ x ∷ []) ≤ unvisited ks working
unfolding unvisited
unvisited-snoc_le [] x working = ground arith
unvisited-snoc_le (k ∷ ks) x working =
    ground (arith, contains-snoc k x working, unvisited-snoc_le ks x working)

unvisited-snoc_lt :
    (ks : List String) (x : String) (working : List String)
    → contains x ks ≡ true
    → contains x working ≡ false
    → unvisited ks (working ++ x ∷ []) < unvisited ks working
unfolding unvisited contains
unvisited-snoc_lt [] x working h k = cc
unvisited-snoc_lt (k ∷ ks) x working h new = ground (
  arith,
  eq_iff k x,
  contains-snoc k x working,
  contains-snoc_self x working,
  unvisited-snoc_le ks x working,
  unvisited-snoc_lt ks x working,
)

contains-keys :
    (parents : Parents) (x : String) {next : List String}
    → get x parents ≡ some next
    → contains x (keys parents) ≡ true
contains-keys parents x h = ground (arith, contains_iff x (keys parents), mem-keys_iff x parents)

module _ (parents : Parents) where
  cyclic_ends :
      (fuel : ℕ) (working : List String) (intf : String) (s : Search)
      → unvisited (keys parents) working < fuel
      → (s' : Search) × (cyclic parents fuel working intf s ≡ ok s')
  cyclic_ends zero working intf s h = absurd (omega arith)
  cyclic_ends (suc fuel) working intf s h = elim (cyclic_case parents fuel working intf s) [
    | known k ↦ (s, cyclic_known parents fuel working intf s k)
    | root u r ↦ (_, cyclic_root parents fuel working intf s u r)
    | cycle next u found c ↦ (_, cyclic_cycle parents fuel working intf s u found c)
    | deeper next u found new ↦
        let less =
          unvisited-snoc_lt (keys parents) intf working (contains-keys parents intf found) new in
        let (s', e) =
          each_returns (cyclic parents fuel (working ++ intf ∷ []))
            (λ n t. cyclic_ends fuel (working ++ intf ∷ []) n t (omega arith)) next s in
        (s', cyclic_deeper parents fuel working intf s u found new ∙ e)
  ]

  -- With one round more than Child2Parent has keys the search for cycles returns, from any name
  -- and any state.
  pub cyclic_returns :
      (intf : String) (s : Search)
      → (s' : Search) × (cyclic parents (suc (length (keys parents))) [] intf s ≡ ok s')
  cyclic_returns intf s =
      cyclic_ends (suc (length (keys parents))) [] intf s
        (omega (arith, unvisited-le-length (keys parents) []))
