-- ===== src/BootMac/Laws.antt =====
-- What BootMac makes of the addresses that boot loaders write.
use netwrangler.Base.{
  ℕ, ◌+◌, ◌-◌, ◌*◌, ◌/◌, ◌%◌, ◌<◌, true, false, ◌≡◌, refl, ap, Option, some, List, [], ◌∷◌, All,
  length, ltb, nat_eq, if◌then◌else◌, arith,
}
use netwrangler.Net.{HardwareAddr}
use netwrangler.BootMac.{
  Text, hex_digit, hex_byte, pairs, parse_mac, colons, count_colons, behind3, is_size, trimmed,
  boot_mac,
}

-- The character of a digit below 16.
abbrev pub hex_char : ℕ → ℕ
hex_char d = if ltb d 10 then b'0' + d else b'a' + (d - 10)

-- Bytes in pairs of digits, each pair behind the separator.
pub tail_text : ℕ → List ℕ → Text
tail_text sep [] = []
tail_text sep (b ∷ bs) = sep ∷ hex_char (b / 16) ∷ hex_char (b % 16) ∷ tail_text sep bs

-- Bytes in pairs of digits, with separators between them.
pub mac_text : ℕ → List ℕ → Text
unfolding tail_text
mac_text sep [] = []
mac_text sep (b ∷ bs) = hex_char (b / 16) ∷ hex_char (b % 16) ∷ tail_text sep bs

hex_digit-hex_char : (d : ℕ) → d < 16 → hex_digit (hex_char d) ≡ some d
unfolding hex_digit
hex_digit-hex_char d h = ground (arith, h)

hex_char-dash : (d : ℕ) → nat_eq (hex_char d) b'-' ≡ false
hex_char-dash d = ground arith

hex_char-colon : (d : ℕ) → d < 16 → nat_eq (hex_char d) b':' ≡ false
hex_char-colon d h = ground (arith, h)

hex_byte-text : (b : ℕ) → b < 256 → hex_byte (hex_char (b / 16)) (hex_char (b % 16)) ≡ some b
unfolding hex_byte
hex_byte-text b h =
    rw
      (
        hex_byte,
        hex_digit-hex_char (b / 16) (omega arith),
        hex_digit-hex_char (b % 16) (omega arith),
      )
      (ap (λ n. some n) (omega arith))

abbrev pub AreBytes : List ℕ → Type 0
AreBytes bs = All (λ b. b < 256) bs

colons-tail_text : (bs : List ℕ) → colons (tail_text b'-' bs) ≡ tail_text b':' bs
unfolding tail_text colons
colons-tail_text [] = refl
colons-tail_text (b ∷ bs) =
    rw (hex_char-dash (b / 16), hex_char-dash (b % 16), colons-tail_text bs) refl

count-tail_text : (bs : List ℕ) → AreBytes bs → count_colons (tail_text b':' bs) ≡ length bs
unfolding tail_text count_colons
count-tail_text [] h = refl
count-tail_text (b ∷ bs) (byte, h) =
    rw
      (
        hex_char-colon (b / 16) (omega arith),
        hex_char-colon (b % 16) (omega arith),
        count-tail_text bs h,
      )
      refl

colons-mac_text : (b : ℕ) (bs : List ℕ) → colons (mac_text b'-' (b ∷ bs)) ≡ mac_text b':' (b ∷ bs)
unfolding mac_text colons
colons-mac_text b bs = rw (hex_char-dash (b / 16), hex_char-dash (b % 16), colons-tail_text bs) refl

count-mac_text :
    (b : ℕ) (bs : List ℕ)
    → b < 256
    → AreBytes bs
    → count_colons (mac_text b':' (b ∷ bs)) ≡ length bs
unfolding mac_text count_colons
count-mac_text b bs byte h =
    rw
      (
        hex_char-colon (b / 16) (omega arith),
        hex_char-colon (b % 16) (omega arith),
        count-tail_text bs h,
      )
      refl

behind3-mac_text :
    (kind b : ℕ) (bs : List ℕ) → behind3 (mac_text b':' (kind ∷ b ∷ bs)) ≡ mac_text b':' (b ∷ bs)
unfolding mac_text tail_text behind3
behind3-mac_text kind b bs = refl

length-tail_text : (sep : ℕ) (bs : List ℕ) → length (tail_text sep bs) ≡ 3 * length bs
unfolding tail_text
length-tail_text sep [] = refl
length-tail_text sep (b ∷ bs) = omega (arith, length-tail_text sep bs)

nat_eq-same : (n : ℕ) → nat_eq n n ≡ true
nat_eq-same n = ground arith

pairs-mac_text :
    (sep b : ℕ) (bs : List ℕ)
    → b < 256
    → AreBytes bs
    → pairs sep (mac_text sep (b ∷ bs)) ≡ some (b ∷ bs)
unfolding pairs mac_text tail_text
pairs-mac_text sep b [] byte h = rw (hex_byte-text b byte) refl
pairs-mac_text sep b (c ∷ bs) byte (byte', h) =
    rw (nat_eq-same sep, hex_byte-text b byte, pairs-mac_text sep c bs byte' h) refl

parse_mac-mac_text :
    (b c : ℕ) (bs : List ℕ)
    → b < 256
    → AreBytes (c ∷ bs)
    → is_size (length (b ∷ c ∷ bs)) ≡ true
    → parse_mac (mac_text b':' (b ∷ c ∷ bs)) ≡ some (b ∷ c ∷ bs)
unfolding parse_mac mac_text tail_text
parse_mac-mac_text b c bs byte h size =
    rw (long, three, third, size) (pairs-mac_text b':' b (c ∷ bs) byte h)
  where
    total : length (mac_text b':' (b ∷ c ∷ bs)) ≡ 3 * length bs + 5
    total = omega (arith, length-tail_text b':' bs)

    long : ltb (length (mac_text b':' (b ∷ c ∷ bs))) 14 ≡ false
    long = ground (arith, total, size)

    three : nat_eq ((length (mac_text b':' (b ∷ c ∷ bs)) + 1) % 3) 0 ≡ true
    three = ground (arith, total)

    third : (length (mac_text b':' (b ∷ c ∷ bs)) + 1) / 3 ≡ length (b ∷ c ∷ bs)
    third = omega (arith, total)

trimmed-mac_text :
    (kind b : ℕ) (bs : List ℕ)
    → kind < 256
    → AreBytes (b ∷ bs)
    → is_size (length (b ∷ bs)) ≡ true
    → trimmed (colons (mac_text b'-' (kind ∷ b ∷ bs))) ≡ mac_text b':' (b ∷ bs)
unfolding trimmed
trimmed-mac_text kind b bs byte h size =
    rw (colons-mac_text kind (b ∷ bs), trimmed, count-mac_text kind (b ∷ bs) byte h, size)
      (behind3-mac_text kind b bs)

trimmed-plain :
    (b c : ℕ) (bs : List ℕ)
    → b < 256
    → AreBytes (c ∷ bs)
    → is_size (length (b ∷ c ∷ bs)) ≡ true
    → trimmed (colons (mac_text b'-' (b ∷ c ∷ bs))) ≡ mac_text b':' (b ∷ c ∷ bs)
unfolding trimmed
trimmed-plain b c bs byte h size =
    rw (colons-mac_text b (c ∷ bs), trimmed, count-mac_text b (c ∷ bs) byte h, other) refl
  where
    other : is_size (length (c ∷ bs)) ≡ false
    other = ground (arith, size)

-- For 6, 8 or 20 bytes written as pairs of hexadecimal digits with dashes between them BootMac
-- sets the address to those bytes, and so it does if one more pair, for a kind of hardware,
-- stands in front.
pub boot_mac-mac_text :
    (kind : ℕ) (bs : List ℕ) (old : Option HardwareAddr)
    → kind < 256
    → AreBytes bs
    → is_size (length bs) ≡ true
    → (boot_mac (mac_text b'-' (kind ∷ bs)) old ≡ (some bs, true))
      × (boot_mac (mac_text b'-' bs) old ≡ (some bs, true))
unfolding boot_mac mac_text
boot_mac-mac_text kind [] old byte h size = cc
boot_mac-mac_text kind (b ∷ []) old byte h size = cc
boot_mac-mac_text kind (b ∷ c ∷ bs) old byte (byte', h) size = (
  rw
      (
        boot_mac,
        trimmed-mac_text kind b (c ∷ bs) byte (byte', h) size,
        parse_mac-mac_text b c bs byte' h size,
      )
      refl,
  rw (boot_mac, trimmed-plain b c bs byte' h size, parse_mac-mac_text b c bs byte' h size) refl,
)
