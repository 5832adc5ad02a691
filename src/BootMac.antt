-- ===== src/BootMac.antt =====
-- run.go: BootMac, over the characters of its text. ParseMAC is that of Go's package net.
pub mod Laws
mod Tests
use netwrangler.Base.{
  ℕ, zero, suc, ◌+◌, ◌-◌, ◌*◌, ◌/◌, ◌%◌, Bool, true, false, not, ◌&&◌, ◌||◌, Option, none, some,
  List, [], ◌∷◌, length, ltb, leb, nat_eq, if◌then◌else◌,
}
use netwrangler.Net.{HardwareAddr}

abbrev pub Text : Type 0
Text = List ℕ

-- A hexadecimal digit.
unfoldable pub hex_digit : ℕ → Option ℕ
hex_digit c =
    if leb b'0' c && leb c b'9'
    then some (c - b'0')
    else if leb b'a' c && leb c b'f'
    then some (c - b'a' + 10)
    else if leb b'A' c && leb c b'F'
    then some (c - b'A' + 10)
    else none

-- xtoi2 at two characters
unfoldable pub hex_byte : ℕ → ℕ → Option ℕ
hex_byte a b = elim (hex_digit a) [
  | none ↦ none
  | some h ↦ elim (hex_digit b) [ none ↦ none | some l ↦ some (h * 16 + l) ]
]

abbrev pub with_byte : Option ℕ → Option HardwareAddr → Option HardwareAddr
with_byte none rest = none
with_byte (some b) none = none
with_byte (some b) (some bs) = some (b ∷ bs)

-- The loop of ParseMAC over pairs behind each of which a separator stands.
unfoldable pub pairs : ℕ → Text → Option HardwareAddr
pairs sep (a ∷ b ∷ []) = with_byte (hex_byte a b) (some [])
pairs sep (a ∷ b ∷ c ∷ rest) =
    let others = pairs sep rest in if nat_eq c sep then with_byte (hex_byte a b) others else none
pairs sep _ = none

-- The loop over groups of four.
unfoldable pub quads : ℕ → Text → Option HardwareAddr
quads sep (a ∷ b ∷ c ∷ d ∷ []) = with_byte (hex_byte a b) (with_byte (hex_byte c d) (some []))
quads sep (a ∷ b ∷ c ∷ d ∷ e ∷ rest) =
    let others = quads sep rest in
    if nat_eq e sep then with_byte (hex_byte a b) (with_byte (hex_byte c d) others) else none
quads sep _ = none

abbrev pub is_size : ℕ → Bool
is_size n = nat_eq n 6 || nat_eq n 8 || nat_eq n 20

-- net.ParseMAC; none is its error.
unfoldable pub parse_mac : Text → Option HardwareAddr
parse_mac (a ∷ b ∷ c ∷ d ∷ e ∷ rest) =
    let s = a ∷ b ∷ c ∷ d ∷ e ∷ rest in
    let n = length s + 1 in
    if ltb (length s) 14
    then none
    else if nat_eq c b':' || nat_eq c b'-'
    then (if nat_eq (n % 3) 0 && is_size (n / 3) then pairs c s else none)
    else if nat_eq e b'.'
    then (if nat_eq (n % 5) 0 && is_size (2 * n / 5) then quads e s else none)
    else none
parse_mac _ = none

-- strings.ReplaceAll(mac, "-", ":")
unfoldable pub colons : Text → Text
colons [] = []
colons (c ∷ cs) = let rest = colons cs in if nat_eq c b'-' then b':' ∷ rest else c ∷ rest

-- strings.Count(mac, ":")
unfoldable pub count_colons : Text → ℕ
count_colons [] = 0
count_colons (c ∷ cs) = let n = count_colons cs in if nat_eq c b':' then suc n else n

-- `mac[3:]`
unfoldable pub behind3 : Text → Text
behind3 (a ∷ b ∷ c ∷ rest) = rest
behind3 _ = []

-- Without the kind of hardware in front, if there is one.
unfoldable pub trimmed : Text → Text
trimmed mac = if is_size (count_colons mac) then behind3 mac else mac

-- BootMac: the new value of bootMac, and whether there is no error.
unfoldable pub boot_mac : Text → Option HardwareAddr → Option HardwareAddr × Bool
boot_mac [] old = (old, true)
boot_mac (c ∷ cs) old = elim (parse_mac (trimmed (colons (c ∷ cs)))) [
  | none ↦ (none, false)
  | some addr ↦ (some addr, true)
]
