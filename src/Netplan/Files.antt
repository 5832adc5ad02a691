-- ===== src/Netplan/Files.antt =====
-- netplan/netplan.go: Read and Write. What the package yaml makes of texts and structs is the
-- parameter `Yaml`. Write is that of a netplan that New has made, whose ethernets are of type Ether.
use netwrangler.Base.{
  String, Bool, true, false, ◌==◌, ◌⊎◌, inl, inr, Option, none, some, List, [], ◌∷◌, if◌then◌else◌,
}
use netwrangler.GoMap.{GoMap}
use netwrangler.Outcome.{Outcome, ok, ◌>>=◌}
use netwrangler.Err.{GoError, plain}
use netwrangler.Globs.{Compiler}
use netwrangler.Phys.{Phy}
use netwrangler.Layout.{Layout}
use netwrangler.Copy.{Folder}
use netwrangler.Streams.{Streams, read_text, write_text}
use netwrangler.Netplan.{Packages, Netplan}
use netwrangler.Netplan.Compile.{compile_netplan}
use netwrangler.Netplan.New.{Ether, Written}

-- The value or the text, or the text of an error.
pub record Yaml : Type 0 where
  pub netplan_of : String → Netplan ⊎ String
  pub ether_text : Ether → String ⊎ String
  pub netplan_text : Written → String ⊎ String

unfoldable pub without_mac : GoMap String → GoMap String
without_mac [] = []
without_mac ((k, v) ∷ m) =
    let rest = without_mac m in if k == "macaddress" then rest else (k, v) ∷ rest

abbrev pub shown : Bool → Ether → Ether
shown true e = e
shown false e = record e { match = without_mac e.match }

-- `err == nil && string(buf) == "{}\n"`
abbrev pub is_elided : String ⊎ String → Bool
is_elided (inl text) = text == "{}\n"
is_elided (inr reason) = false

-- The ethernets after the two loops of Write.
unfoldable pub kept_ethernets : Yaml → Bool → GoMap Ether → GoMap Ether
kept_ethernets y bind [] = []
kept_ethernets y bind ((k, e) ∷ m) =
    let rest = kept_ethernets y bind m in
    if is_elided (y.ether_text (shown bind e)) then rest else (k, shown bind e) ∷ rest

-- Write
unfoldable pub netplan_write :
    Yaml → Streams → Bool → Written → String → Folder → Folder × Option GoError
netplan_write y o bind w dest files =
    write_text o dest (y.netplan_text (record w { ethernets = kept_ethernets y bind w.ethernets }))
      files

-- Read, which returns a nil layout with the errors of its own.
unfoldable pub netplan_read :
    Yaml
    → Streams
    → Compiler
    → Packages
    → (List String → List String)
    → String
    → List Phy
    → Outcome (Option Layout × Option GoError)
netplan_read y o compile p order src phys = elim (read_text o src) [
  | inr reason ↦ ok (none, some (plain reason))
  | inl text ↦ elim (y.netplan_of text) [
    | inr reason ↦ ok (none, some (plain reason))
    | inl n ↦ compile_netplan compile phys p order n >>= λ (l, error). ok (some l, error)
  ]
]
