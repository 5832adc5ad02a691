-- ===== src/Rhel.antt =====
-- rhel/rhel.go: what writeOut prints to ifcfg-* of an interface and, of its network, to the other
-- files. The parameter `e` of functions that never use it is left out.
pub mod Devices
pub mod Networks
pub mod Writer
pub mod Write
pub mod Laws
pub mod Rules
mod Tests
use netwrangler.Base.{String, List, [], ◌∷◌}
use netwrangler.Text.{concat}

-- writeKey, at a value's text
abbrev pub write_key : String → String → List String
write_key k v = concat (k ∷ "=\"" ∷ v ∷ "\"\n" ∷ []) ∷ []

-- fmt.Fprintln
abbrev pub print_line : String → List String
print_line s = concat (s ∷ "\n" ∷ []) ∷ []
