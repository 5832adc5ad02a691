-- ===== src/Phys/Tests.antt =====
-- Globs and the matching of physical interfaces at examples.
use netwrangler.Base.{false, ◌==◌, ◌≡◌, ◌↔◌, refl, none, some, List, [], ◌∷◌, ◌++◌, Memᴰ}
use netwrangler.Net.{HardwareAddr}
use netwrangler.Outcome.{ok}
use netwrangler.Globs.{Compiler, matcher, is_special, glob2re}
use netwrangler.Globs.Laws.{pieces, glob2re-pieces}
use netwrangler.Text.Parse.{codes}
use netwrangler.Layout.{Interface, new_interface}
use netwrangler.Phys.{Match, Phy, compiled, instance_of, match_phys, fill_boot_if}
use netwrangler.Phys.Laws.{IsMatch, match_phys_iff, match_phys-fill_boot_if}

-- A compiler whose patterns match eth0 alone.
abbrev eth0_only : Compiler
eth0_only pattern = matcher (λ s. s == "eth0")

glob2re-pieces_example :
    glob2re eth0_only (b'e' ∷ b'?' ∷ b'.' ∷ b'*' ∷ [])
    ≡ ok (eth0_only (b'^' ∷ pieces (b'e' ∷ b'?' ∷ b'.' ∷ b'*' ∷ []) ++ b'$' ∷ []))
glob2re-pieces_example = glob2re-pieces eth0_only b'e' (b'?' ∷ b'.' ∷ b'*' ∷ []) refl

piece_text : pieces (codes "e?.*") ≡ codes "e.\\..*"
unfolding pieces is_special
piece_text = refl

abbrev mac0 : HardwareAddr
mac0 = 82 ∷ 84 ∷ 0 ∷ 0 ∷ 0 ∷ 1 ∷ []

abbrev eth0 : Phy
eth0 = record {
  name = "eth0";
  stable_name = "enp1s0";
  ordinal_name = "onboard:0";
  driver = "virtio_net";
  hardware_addr = mac0;
  boot_if = false;
}

abbrev any_eth : Match
any_eth = record { name = "eth*"; mac_address = []; driver = "" }

match_phys_iff_example :
    (res : List Interface) × (match_phys eth0_only any_eth new_interface (eth0 ∷ [])
      ≡ ok (res, none))
    × ((i : Interface)
        → Memᴰ i res ↔ (
            (phy : Phy) × Memᴰ phy (eth0 ∷ [])
            × IsMatch any_eth (some (λ s. s == "eth0")) none phy
            × (i ≡ instance_of new_interface phy)))
unfolding compiled glob2re
match_phys_iff_example =
    match_phys_iff eth0_only any_eth (some (λ s. s == "eth0")) none new_interface (eth0 ∷ []) refl
      refl

match_phys-fill_boot_if_example :
    (res : List Interface) × (match_phys eth0_only
        (record { name = "bootif"; mac_address = []; driver = "" })
        new_interface
        (fill_boot_if (some mac0) (eth0 ∷ []))
      ≡ ok (res, none))
    × ((i : Interface)
        → Memᴰ i res ↔ (
            (phy : Phy) × Memᴰ phy (eth0 ∷ [])
            × (phy.hardware_addr ≡ mac0)
            × (i ≡ instance_of new_interface phy)))
unfolding compiled glob2re
match_phys-fill_boot_if_example =
    match_phys-fill_boot_if eth0_only (some (λ s. s == "eth0")) new_interface (eth0 ∷ []) mac0 refl
