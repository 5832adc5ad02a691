-- ===== src/Layout/Cycles.antt =====
-- util/layout.go: the search for cycles among the parents. The set `clean` is a list, since only
-- membership is asked of it. The recursion is on fuel, for which `Cycles.Ends` has a bound.
pub mod Graph
mod Steps
pub mod Ends
pub mod Reports
pub mod Missed
use netwrangler.Base.{
  true, false, ℕ, zero, suc, String, none, some, List, [], ◌∷◌, ◌++◌, contains, if◌then◌else◌,
}
use netwrangler.GoMap.{get}
use netwrangler.Text.{list_text}
use netwrangler.Outcome.{Outcome, ok, out_of_fuel, each}
use netwrangler.Err.{Err, errorf}
use netwrangler.Layout.Members.{Parents}

pub record Search : Type 0 where
  pub clean : List String
  pub err : Err

abbrev pub cycle_message : String → List String → List String
cycle_message intf working = intf ∷ ": Cycle detected: " ∷ list_text working ∷ []

-- Layout.cyclic
unfoldable pub cyclic : Parents → ℕ → List String → String → Search → Outcome Search
cyclic parents zero working intf s = out_of_fuel
cyclic parents (suc fuel) working intf s = elim (contains intf s.clean) [
  | true ↦ ok s
  | false ↦ elim (get intf parents) [
    | none ↦ ok (record s { clean = working ++ s.clean })
    | some next ↦ elim (contains intf working) [
      | true ↦ ok (record s { err = errorf s.err (cycle_message intf working) })
      | false ↦ each (cyclic parents fuel (working ++ intf ∷ [])) next s
    ]
  ]
]
