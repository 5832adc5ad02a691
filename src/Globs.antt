-- ===== src/Globs.antt =====
-- util/models.go: Glob2RE, over the characters of its texts. regexp.Compile is a parameter: it gives
-- what MatchString answers, or an error.
pub mod Laws
use netwrangler.Base.{
  ℕ, String, Bool, true, false, ◌&&◌, ◌||◌, List, [], ◌∷◌, ◌++◌, Option, none, some, nat_eq,
  if◌then◌else◌,
}
use netwrangler.Outcome.{Outcome, ok, panic}

-- The text of a regular expression, as characters.
abbrev pub Pattern : Type 0
Pattern = List ℕ

pub data Compiled : Type 0 where
  matcher : (String → Bool) → Compiled
  bad_pattern : String → Compiled

abbrev pub Compiler : Type 0
Compiler = Pattern → Compiled

one_of : ℕ → List ℕ → Bool
one_of c [] = false
one_of c (d ∷ ds) = nat_eq d c || one_of c ds

-- The characters that regexp.QuoteMeta escapes: \\.+*?()|[]{}^$
unfoldable pub is_special : ℕ → Bool
unfolding one_of
is_special c = one_of c (
    b'\\' ∷ b'.' ∷ b'+' ∷ b'*' ∷ b'?' ∷ b'(' ∷ b')' ∷ b'|' ∷ b'[' ∷ b']' ∷ b'{' ∷ b'}' ∷ b'^' ∷ b'$'
    ∷ [])

-- regexp.QuoteMeta
unfoldable pub quote_meta : Pattern → Pattern
quote_meta [] = []
quote_meta (c ∷ cs) =
    let rest = quote_meta cs in if is_special c then b'\\' ∷ c ∷ rest else c ∷ rest

-- strings.Replace(s, old, new, -1) for an old text of two characters
unfoldable pub replace2 : ℕ → ℕ → Pattern → Pattern → Pattern
replace2 a b new [] = []
replace2 a b new (c ∷ []) = c ∷ []
replace2 a b new (c ∷ d ∷ cs) =
    let next = replace2 a b new (d ∷ cs) in
    let behind = replace2 a b new cs in if nat_eq c a && nat_eq d b then new ++ behind else c ∷ next

-- The two replacements.
unfoldable pub glob_text : Pattern → Pattern
glob_text s =
    replace2 b'\\' b'?' (b'.' ∷ []) (replace2 b'\\' b'*' (b'.' ∷ b'*' ∷ []) (quote_meta s))

-- Glob2RE
unfoldable pub glob2re : Compiler → Pattern → Outcome Compiled
glob2re compile [] = panic "index out of range"
glob2re compile (c ∷ cs) =
    if nat_eq c b'^'
    then ok (compile (c ∷ cs))
    else ok (compile (b'^' ∷ glob_text (c ∷ cs) ++ b'$' ∷ []))
