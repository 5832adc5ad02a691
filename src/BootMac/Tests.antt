-- ===== src/BootMac/Tests.antt =====
-- BootMac at examples.
use netwrangler.Base.{ℕ, true, false, ◌≡◌, refl, none, some, List, [], ◌∷◌, arith}
use netwrangler.Text.Parse.{codes}
use netwrangler.BootMac.{
  boot_mac, colons, count_colons, trimmed, behind3, parse_mac, pairs, quads, hex_byte, hex_digit,
}
use netwrangler.BootMac.Laws.{mac_text, boot_mac-mac_text}

abbrev mac0 : List ℕ
mac0 = 82 ∷ 84 ∷ 0 ∷ 171 ∷ 0 ∷ 1 ∷ []

boot_mac-mac_text_example :
    (boot_mac (mac_text b'-' (1 ∷ mac0)) none ≡ (some mac0, true))
    × (boot_mac (mac_text b'-' mac0) none ≡ (some mac0, true))
boot_mac-mac_text_example =
    boot_mac-mac_text 1 mac0 none (omega arith)
      (omega arith, (omega arith, (omega arith, (omega arith, (omega arith, (omega arith, tt))))))
      refl

texts :
    (boot_mac (codes "01-52-54-00-AB-00-01") none ≡ (some mac0, true))
    × (boot_mac (codes "5254.00ab.0001") none ≡ (some mac0, true))
    × (boot_mac (codes "01-52-54") (some mac0) ≡ (none, false))
    × (boot_mac [] (some mac0) ≡ (some mac0, true))
unfolding boot_mac colons count_colons trimmed behind3 parse_mac pairs quads hex_byte hex_digit
texts = (refl, refl, refl, refl)
