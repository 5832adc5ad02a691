-- ===== src/Phys.antt =====
-- util/phy.go, and fillBootIf of run.go: which physical interfaces a definition stands for. Of the
-- embedded gnet.Interface the fields that are read here are modelled.
pub mod Laws
pub mod Kinds
mod Tests
use netwrangler.Base.{
  ◌⊎◌, inl, inr, String, Bool, true, false, not, ◌&&◌, ◌||◌, ◌==◌, Option, none, some, List, [],
  ◌∷◌, is_empty, if◌then◌else◌,
}
use netwrangler.Text.Parse.{codes}
use netwrangler.Net.{HardwareAddr, bytes_equal}
use netwrangler.Outcome.{Outcome, ok, panic, ◌>>=◌}
use netwrangler.Globs.{Compiler, Compiled, matcher, bad_pattern, glob2re}
use netwrangler.Layout.{Interface}

pub record Match : Type 0 where
  pub name : String
  pub mac_address : HardwareAddr
  pub driver : String

pub record Phy : Type 0 where
  pub name : String
  pub stable_name : String
  pub ordinal_name : String
  pub driver : String
  pub hardware_addr : HardwareAddr
  pub boot_if : Bool

-- A *regexp.Regexp that may be nil.
abbrev pub Matcher : Type 0
Matcher = Option (String → Bool)

-- `if pattern != "" { re, err = Glob2RE(pattern) }`: the matcher, or the text of the error.
unfoldable pub compiled : Compiler → String → Outcome (Matcher ⊎ String)
compiled compile pattern =
    if pattern == ""
    then ok (inl none)
    else glob2re compile (codes pattern) >>= λ c.
        ok (elim c [ matcher f ↦ inl (some f) | bad_pattern error ↦ inr error ])

abbrev pub refuses : Matcher → String → Bool
refuses none s = false
refuses (some f) s = not (f s)

-- `re != nil && !(re.MatchString(a) || …)`
abbrev pub refuses_all : Matcher → String → String → String → Bool
refuses_all none a b c = false
refuses_all (some f) a b c = not (f a || (f b || f c))

abbrev pub instance_of : Interface → Phy → Interface
instance_of tmpl phy = record tmpl {
  name = phy.name;
  type = "physical";
  current_hw_addr = phy.hardware_addr;
}

-- The loop over the physical interfaces.
unfoldable pub match_each : Match → Matcher → Matcher → Interface → List Phy → List Interface
match_each m name_re driver_re tmpl [] = []
match_each m name_re driver_re tmpl (phy ∷ phys) =
    let rest = match_each m name_re driver_re tmpl phys in
    if refuses driver_re phy.driver
    then rest
    else if not (is_empty m.mac_address) && not (bytes_equal m.mac_address phy.hardware_addr)
    then rest
    else if m.name == "bootif"
    then (if not phy.boot_if then rest else instance_of tmpl phy ∷ rest)
    else if refuses_all name_re phy.name phy.stable_name phy.ordinal_name
    then rest
    else instance_of tmpl phy ∷ rest

-- MatchPhys: the interfaces, and the text of an error.
unfoldable pub match_phys :
    Compiler → Match → Interface → List Phy → Outcome (List Interface × Option String)
match_phys compile m tmpl phys = compiled compile m.name >>= λ name_re. elim name_re [
  | inr error ↦ ok ([], some error)
  | inl by_name ↦ compiled compile m.driver >>= λ driver_re. elim driver_re [
    | inr error ↦ ok ([], some error)
    | inl by_driver ↦ ok (match_each m by_name by_driver tmpl phys, none)
  ]
]

abbrev pub marked : HardwareAddr → Phy → Phy
marked mac phy = record phy { boot_if = bytes_equal phy.hardware_addr mac }

-- The loop of fillBootIf.
unfoldable pub mark_all : HardwareAddr → List Phy → List Phy
mark_all mac [] = []
mark_all mac (phy ∷ phys) = marked mac phy ∷ mark_all mac phys

-- fillBootIf; a nil address is none.
unfoldable pub fill_boot_if : Option HardwareAddr → List Phy → List Phy
fill_boot_if none phys = phys
fill_boot_if (some mac) phys = mark_all mac phys
