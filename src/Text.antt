-- ===== src/Text.antt =====
-- The parts of fmt, strconv and strings that the program formats with, over native texts.
use Prim.Native.String
use netwrangler.Base.{
  ℕ, zero, suc, ◌+◌, ◌/◌, ◌%◌, String, Bool, true, false, List, [], ◌∷◌, ltb, if◌then◌else◌,
}
use netwrangler.Text.Int.{ℤ, pos, negsuc}
pub mod Int
pub mod Parse

-- The pieces of a format and its arguments, in order: fmt.Sprintf and fmt.Fprintf.
unfoldable pub concat : List String → String
concat [] = ""
concat (s ∷ ss) = String.◌++◌ s (concat ss)

-- strings.Join(ss, sep)
unfoldable pub join : String → List String → String
unfolding concat
join sep [] = ""
join sep (s ∷ []) = s
join sep (s ∷ t ∷ ss) = concat (s ∷ sep ∷ join sep (t ∷ ss) ∷ [])

-- The verb %v at a []string.
unfoldable pub list_text : List String → String
unfolding concat join
list_text ss = concat ("[" ∷ join " " ss ∷ "]" ∷ [])

abbrev digit_texts : List String
digit_texts =
    "0" ∷ "1" ∷ "2" ∷ "3" ∷ "4" ∷ "5" ∷ "6" ∷ "7" ∷ "8" ∷ "9" ∷ "a" ∷ "b" ∷ "c" ∷ "d" ∷ "e" ∷ "f"
    ∷ []

nth : List String → ℕ → String
nth [] i = ""
nth (s ∷ ss) zero = s
nth (s ∷ ss) (suc i) = nth ss i

-- The digits of a number in a base; the number itself is fuel enough, since it falls each round.
digits_from : ℕ → ℕ → ℕ → String
unfolding nth concat
digits_from zero base n = nth digit_texts n
digits_from (suc fuel) base n =
    let rest = concat (digits_from fuel base (n / base) ∷ nth digit_texts (n % base) ∷ []) in
    if ltb n base then nth digit_texts n else rest

-- strconv.FormatUint(n, base), for a base up to 16
unfoldable pub digits : ℕ → ℕ → String
unfolding digits_from
digits base n = digits_from n base n

-- The verb %d.
unfoldable pub decimal : ℤ → String
unfolding digits concat
decimal (pos n) = digits 10 n
decimal (negsuc n) = concat ("-" ∷ digits 10 (suc n) ∷ [])

-- The verbs %t and %v at a bool.
unfoldable pub bool_text : Bool → String
bool_text true = "true"
bool_text false = "false"
