-- ===== src/Text/Parse.antt =====
-- strconv.ParseInt(s, 0, 64), over the characters of a native text.
use Prim.Native.Char.{code}
use netwrangler.Base.{
  ◌≡◌, refl, ℕ, zero, suc, ◌+◌, ◌-◌, ◌*◌, ◌^◌, String, Bool, true, false, ◌&&◌, ◌||◌, Option, none,
  some, List, [], ◌∷◌, ltb, leb, nat_eq, if◌then◌else◌,
}
use netwrangler.Text.Int.{ℤ, pos, negsuc}

abbrev pub codes : String → List ℕ
codes String.[] = []
codes (String.◌∷◌ c s) = code c ∷ codes s

-- A letter's small form, as strconv's lower(): `c | 0x20`, of the letters alone.
abbrev small : ℕ → ℕ
small c = if leb b'A' c && leb c b'Z' then c + 32 else c

-- The value of a digit or a letter.
abbrev digit_of : ℕ → Option ℕ
digit_of c =
    if leb b'0' c && leb c b'9'
    then some (c - b'0')
    else if leb b'a' (small c) && leb (small c) b'z'
    then some (small c - b'a' + 10)
    else none

abbrev max_uint64 : ℕ
max_uint64 = 2 ^ 64 - 1

-- One digit more, if there is one below the base and the number stays in range.
abbrev next_digit : ℕ → ℕ → Option ℕ → Option ℕ
next_digit base n none = none
next_digit base n (some d) =
    if ltb d base && leb (n * base + d) max_uint64 then some (n * base + d) else none

-- The loop of ParseUint; underscores are skipped here.
digits_value : ℕ → List ℕ → ℕ → Option ℕ
digits_value base [] n = some n
digits_value base (c ∷ cs) n =
    let skipped = digits_value base cs n in
    if nat_eq c b'_'
    then skipped
    else elim (next_digit base n (digit_of c)) [ none ↦ none | some m ↦ digits_value base cs m ]

abbrev base_of : ℕ → Option ℕ
base_of c =
    if nat_eq c b'b'
    then some 2
    else if nat_eq c b'o'
    then some 8
    else if nat_eq c b'x'
    then some 16
    else none

-- The number after a sign: the base comes from the prefix.
parse_uint : List ℕ → Option ℕ
unfolding digits_value
parse_uint [] = none
parse_uint (z ∷ b ∷ c ∷ cs) =
    if nat_eq z b'0'
    then elim (base_of (small b)) [
      | some base ↦ digits_value base (c ∷ cs) 0
      | none ↦ digits_value 8 (b ∷ c ∷ cs) 0
    ]
    else digits_value 10 (z ∷ b ∷ c ∷ cs) 0
parse_uint (z ∷ cs) = if nat_eq z b'0' then digits_value 8 cs 0 else digits_value 10 (z ∷ cs) 0

-- What stood last: nothing or another character, a digit, or an underscore.
pub data Seen : Type 0 where
  other digit underscore : Seen

abbrev is_digit : Bool → ℕ → Bool
is_digit hex c = (leb b'0' c && leb c b'9') || (hex && (leb b'a' (small c) && leb (small c) b'f'))

separated : Bool → Seen → List ℕ → Bool
separated hex underscore [] = false
separated hex _ [] = true
separated hex seen (c ∷ cs) =
    let after_digit = separated hex digit cs in
    let after_underscore = separated hex underscore cs in
    let after_other = separated hex other cs in
    if is_digit hex c
    then after_digit
    else if nat_eq c b'_'
    then elim seen [ digit ↦ after_underscore | _ ↦ false ]
    else elim seen [ underscore ↦ false | _ ↦ after_other ]

-- underscoreOK: underscores stand between digits, or behind the prefix of a base.
underscores_separate : List ℕ → Bool
unfolding separated
underscores_separate (z ∷ b ∷ cs) =
    if nat_eq z b'0'
    then elim (base_of (small b)) [
      | some base ↦ separated (nat_eq base 16) digit cs
      | none ↦ separated false other (z ∷ b ∷ cs)
    ]
    else separated false other (z ∷ b ∷ cs)
underscores_separate cs = separated false other cs

abbrev signed : Bool → ℕ → Option ℤ
signed false n = if ltb n (2 ^ 63) then some (pos n) else none
signed true zero = some (pos 0)
signed true (suc n) = if ltb n (2 ^ 63) then some (negsuc n) else none

abbrev checked_sign : Bool → List ℕ → Option ℕ → Option ℤ
unfolding underscores_separate
checked_sign negative cs none = none
checked_sign negative cs (some n) = if underscores_separate cs then signed negative n else none

parse_codes : List ℕ → Option ℤ
unfolding parse_uint checked_sign
parse_codes [] = none
parse_codes (c ∷ cs) =
    if nat_eq c b'-'
    then checked_sign true cs (parse_uint cs)
    else if nat_eq c b'+'
    then checked_sign false cs (parse_uint cs)
    else checked_sign false (c ∷ cs) (parse_uint (c ∷ cs))

-- The parsed number, or none for an error.
unfoldable pub parse_int : String → Option ℤ
unfolding parse_codes
parse_int s = parse_codes (codes s)

parsed :
    (parse_int "0x1F" ≡ some (pos 31))
    × (parse_int "-10" ≡ some (negsuc 9))
    × (parse_int "1_000" ≡ some (pos 1000))
    × (parse_int "08" ≡ none)
    × (parse_int "0" ≡ some (pos 0))
    × (parse_int "_1" ≡ none)
    × (parse_int "0x" ≡ none)
    × (parse_int "-9223372036854775808" ≡ some (negsuc 9223372036854775807))
    × (parse_int "9223372036854775808" ≡ none)
unfolding parse_int
parsed = (refl, refl, refl, refl, refl, refl, refl, refl, refl)
