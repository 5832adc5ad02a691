-- ===== src/Rhel/Write.antt =====
-- rhel/rhel.go: Write. The folder that ioutil.TempDir makes, or its error, is a parameter, as is what
-- stands in the destination. filepath.Glob finds the files there whose names begin as the pattern
-- does, and os.Remove removes them.
use netwrangler.Base.{
  ℕ, String, Bool, true, false, not, ◌||◌, ◌&&◌, ◌⊎◌, inl, inr, Option, none, some, List, [], ◌∷◌,
  nat_eq, if◌then◌else◌,
}
use netwrangler.Text.{concat}
use netwrangler.Text.Parse.{codes}
use netwrangler.Net.{Gnet}
use netwrangler.Outcome.{Outcome, ok, ◌>>=◌}
use netwrangler.Err.{GoError, new_err, empty, merge, or_nil, collected, plain}
use netwrangler.Validators.{Printer}
use netwrangler.Copy.{Disk, Folder, copy}
use netwrangler.Rhel.Writer.{Rhel, Run, write_all}

unfoldable pub starts_with : List ℕ → List ℕ → Bool
starts_with [] text = true
starts_with (a ∷ as') [] = false
starts_with (a ∷ as') (b ∷ bs) = nat_eq a b && starts_with as' bs

-- strings.HasSuffix(base, "-lo")
unfoldable pub is_loopback : List ℕ → Bool
is_loopback [] = false
is_loopback (a ∷ as') =
    let rest = is_loopback as' in
    elim as' [ b ∷ c ∷ [] ↦ nat_eq a b'-' && (nat_eq b b'l' && nat_eq c b'o') | _ ↦ rest ]

abbrev pub prefixes : List String
prefixes = "ifcfg-" ∷ "route-" ∷ "rule-" ∷ "rule6-" ∷ []

unfoldable pub has_prefix : List String → List ℕ → Bool
has_prefix [] base = false
has_prefix (p ∷ ps) base = starts_with (codes p) base || has_prefix ps base

-- Whether the two loops remove a file of this name.
unfoldable pub is_removed : List ℕ → Bool
is_removed base = has_prefix prefixes base && not (is_loopback base)

module _ (d : Disk) (final : String) where
  -- What is left of the destination.
  unfoldable pub remaining : Folder → Folder
  remaining [] = []
  remaining ((path, texts) ∷ target) =
      let rest = remaining target in
      if is_removed (codes (d.base path)) then rest else (path, texts) ∷ rest

  -- The error of the first pattern that has one.
  unfoldable pub pattern_error : List String → Option String
  pattern_error [] = none
  pattern_error (p ∷ ps) = elim (d.glob_error (d.join final (concat (p ∷ "*" ∷ [])))) [
    | some reason ↦ some reason
    | none ↦ pattern_error ps
  ]

  -- What follows the loop over the interfaces: the destination's files, and the error.
  unfoldable pub install : String → Run → Folder → Folder × Option GoError
  install dir s target =
      if not (empty s.err)
      then (target, some (collected s.err))
      else elim (pattern_error prefixes) [
        | some reason ↦ (target, some (collected (merge s.err (some (plain reason)))))
        | none ↦
            let c = copy d dir s.files final (record { err = s.err; files = remaining target }) in
            (c.files, or_nil c.err)
      ]

abbrev pub start_run : Run
start_run = record { err = new_err "rhel"; files = []; heap = [] }

-- Write
unfoldable pub write :
    Disk
    → String
    → Gnet
    → Printer
    → Rhel
    → List String
    → String ⊎ String
    → Folder
    → Outcome (Folder × Option GoError)
write d final g t r order (inr reason) target = ok (target, some (plain reason))
write d final g t r order (inl dir) target =
    write_all d g t (record r { dest = dir }) order start_run >>= λ s.
    ok (install d final dir s target)
