-- ===== src/Err.antt =====
-- util/err.go: the collector of error messages that validation piles up in. A nil slice of
-- messages and an empty one cannot be told apart through its methods, so both are `[]`.
pub mod Laws
use netwrangler.Base.{
  String, Bool, Option, none, some, List, [], ◌∷◌, ◌++◌, map, is_empty, if◌then◌else◌,
}
use netwrangler.Text.{concat, join}

pub record Err : Type 0 where
  pub prefix : String
  pub msgs : List String

-- A non-nil value of Go's interface `error`: an *Err, or another error with its Error() text.
pub data GoError : Type 0 where
  collected : Err → GoError
  plain : String → GoError

-- `&Err{Prefix: prefix}`
abbrev pub new_err : String → Err
new_err prefix = record { prefix = prefix; msgs = [] }

unfoldable pub errorf : Err → List String → Err
errorf e pieces = record e { msgs = e.msgs ++ concat pieces ∷ [] }

unfoldable pub error_text : Err → String
unfolding concat join
error_text e = join "\n" (concat (e.prefix ∷ ":" ∷ []) ∷ e.msgs ++ "\n" ∷ [])

unfoldable pub empty : Err → Bool
empty e = is_empty e.msgs

-- The loop of Merge over the messages of another *Err.
merge_msgs : String → List String → Err → Err
unfolding errorf
merge_msgs prefix [] e = e
merge_msgs prefix (msg ∷ msgs) e = merge_msgs prefix msgs (errorf e (prefix ∷ ": " ∷ msg ∷ []))

unfoldable pub merge : Err → Option GoError → Err
unfolding merge_msgs
merge e none = e
merge e (some (collected o)) = merge_msgs o.prefix o.msgs e
merge e (some (plain text)) = record e { msgs = e.msgs ++ text ∷ [] }

unfoldable pub or_nil : Err → Option GoError
unfolding empty
or_nil e = if empty e then none else some (collected e)
