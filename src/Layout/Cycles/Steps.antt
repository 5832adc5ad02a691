-- ===== src/Layout/Cycles/Steps.antt =====
-- One call of cyclic(), by the four ways in which it goes.
use netwrangler.Base.{
  ℕ, suc, String, true, false, ◌≡◌, inl, inr, none, some, List, [], ◌∷◌, ◌++◌, contains, Bool-cases,
  Option-cases,
}
use netwrangler.GoMap.{get}
use netwrangler.Outcome.{ok, each}
use netwrangler.Err.{errorf}
use netwrangler.Layout.Members.{Parents}
use netwrangler.Layout.Cycles.{Search, cycle_message, cyclic}

module _ (parents : Parents) (fuel : ℕ) (working : List String) (intf : String) (s : Search) where
  -- The state after a cycle was found, and after a branch ended.
  abbrev pub reported : Search
  reported = record s { err = errorf s.err (cycle_message intf working) }

  abbrev pub cleaned : Search
  cleaned = record s { clean = working ++ s.clean }

  pub cyclic_known : contains intf s.clean ≡ true → cyclic parents (suc fuel) working intf s ≡ ok s
  unfolding cyclic
  cyclic_known known = rw (known, cyclic)

  pub cyclic_root :
      contains intf s.clean ≡ false
      → get intf parents ≡ none
      → cyclic parents (suc fuel) working intf s ≡ ok cleaned
  unfolding cyclic
  cyclic_root unknown root = rw (unknown, root, cyclic)

  pub cyclic_cycle :
      {next : List String}
      → contains intf s.clean ≡ false
      → get intf parents ≡ some next
      → contains intf working ≡ true
      → cyclic parents (suc fuel) working intf s ≡ ok reported
  unfolding cyclic
  cyclic_cycle unknown found cycle = rw (unknown, found, cycle, cyclic)

  pub cyclic_deeper :
      {next : List String}
      → contains intf s.clean ≡ false
      → get intf parents ≡ some next
      → contains intf working ≡ false
      → cyclic parents (suc fuel) working intf s
        ≡ each (cyclic parents fuel (working ++ intf ∷ [])) next s
  unfolding cyclic
  cyclic_deeper unknown found new = rw (unknown, found, new, cyclic)

  -- The case that a call is in.
  pub data Case : Type 0 where
    known : contains intf s.clean ≡ true → Case
    root : contains intf s.clean ≡ false → get intf parents ≡ none → Case
    cycle :
        (next : List String)
        → contains intf s.clean ≡ false
        → get intf parents ≡ some next
        → contains intf working ≡ true
        → Case
    deeper :
        (next : List String)
        → contains intf s.clean ≡ false
        → get intf parents ≡ some next
        → contains intf working ≡ false
        → Case

  pub cyclic_case : Case
  cyclic_case = elim (Bool-cases (contains intf s.clean)) [
    | inl k ↦ known k
    | inr u ↦ elim (Option-cases (get intf parents)) [
      | inl r ↦ root u r
      | inr (next, found) ↦ elim (Bool-cases (contains intf working)) [
        | inl c ↦ cycle next u found c
        | inr new ↦ deeper next u found new
      ]
    ]
  ]
