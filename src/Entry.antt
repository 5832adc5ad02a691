-- ===== src/Entry.antt =====
-- run.go: Write, Compile and GatherPhysFromFile, which put the readers and the writers together.
-- What lies outside of the repository is the parameter `Machine`.
pub mod Laws
mod Tests
use netwrangler.Base.{
  String, Bool, true, false, ◌==◌, ◌⊎◌, inl, inr, Option, none, some, List, [], ◌∷◌, if◌then◌else◌,
}
use netwrangler.Text.{concat}
use netwrangler.GoMap.{keys}
use netwrangler.Net.{HardwareAddr}
use netwrangler.Outcome.{Outcome, ok, panic, ◌>>=◌}
use netwrangler.Err.{GoError, plain, collected, error_text}
use netwrangler.Globs.{Compiler}
use netwrangler.Phys.{Phy, fill_boot_if}
use netwrangler.Layout.{Layout}
use netwrangler.Layout.Files.{LayoutYaml, layout_read, layout_write}
use netwrangler.Copy.{Disk, Folder}
use netwrangler.Streams.{Streams}
use netwrangler.Netplan.{Packages}
use netwrangler.Netplan.New.{new_netplan}
use netwrangler.Netplan.Files.{Yaml, netplan_read, netplan_write}
use netwrangler.Systemd.Write as SystemdWrite
use netwrangler.Systemd.Writer as SystemdWriter
use netwrangler.Rhel.Write as RhelWrite
use netwrangler.Rhel.Writer as RhelWriter

-- The operating system, the packages, the folder that ioutil.TempDir makes or its error, and the
-- orders in which the last loop of Layout.Validate and the loop of the Red Hat writer range over a map.
pub record Machine : Type 0 where
  pub disk : Disk
  pub streams : Streams
  pub packages : Packages
  pub compiler : Compiler
  pub yaml : Yaml
  pub layout_yaml : LayoutYaml
  pub temporary : String ⊎ String
  pub order : List String → List String
  pub write_order : List String → List String

-- `%v` of an error.
unfoldable pub shown_error : GoError → String
shown_error (collected e) = error_text e
shown_error (plain text) = text

-- What Write returns for what the writer returned.
unfoldable pub reported_as : String → Folder × Option GoError → Folder × Option String
reported_as format (files, none) = (files, none)
reported_as format (files, some error) =
    (files, some (concat ("Error writing '" ∷ format ∷ "': " ∷ shown_error error ∷ [])))

module _ (m : Machine) where
  abbrev pub systemd_of : Layout → Bool → String → SystemdWriter.Systemd
  systemd_of l bind dir =
      if bind then SystemdWriter.bind_macs (SystemdWriter.new l dir) else SystemdWriter.new l dir

  abbrev pub rhel_of : Layout → Bool → RhelWriter.Rhel
  rhel_of l bind = if bind then RhelWriter.bind_macs (RhelWriter.new l "") else RhelWriter.new l ""

  -- The writer of a format, at a location; none for an unknown one.
  unfoldable pub written_by :
      Layout → String → String → Bool → Folder → Option (Outcome (Folder × Option GoError))
  written_by l format loc bind files =
      if format == "internal"
      then some (ok (layout_write m.layout_yaml m.streams l loc files))
      else if format == "netplan"
      then some (
          new_netplan m.packages.gnet l >>= λ w.
          ok (netplan_write m.yaml m.streams bind w loc files))
      else if format == "systemd"
      then some (
          SystemdWrite.write m.disk loc m.packages.gnet m.packages.printer (systemd_of l bind "")
            m.temporary files)
      else if format == "rhel"
      then some (
          RhelWrite.write m.disk loc m.packages.gnet m.packages.printer (rhel_of l bind)
            (m.write_order (keys l.interfaces)) m.temporary files)
      else none

  -- Write
  unfoldable pub write_layout :
      Layout → String → String → Bool → Folder → Outcome (Folder × Option String)
  write_layout l format loc bind files = elim (written_by l format loc bind files) [
    | none ↦ ok (files, some (concat ("Unknown output format " ∷ format ∷ [])))
    | some o ↦ o >>= λ r. ok (reported_as format r)
  ]

  -- The reader of a format; none for an unknown one. The internal format is read into a nil layout.
  unfoldable pub read_by :
      List Phy → String → String → Option (Outcome (Option Layout × Option GoError))
  read_by phys format loc =
      if format == "netplan"
      then some (netplan_read m.yaml m.streams m.compiler m.packages m.order loc phys)
      else if format == "internal"
      then some (ok (layout_read m.layout_yaml m.streams none loc))
      else none

  -- What Compile does with what the reader returned.
  unfoldable pub pass_on :
      String
      → String
      → String
      → Bool
      → Folder
      → Option Layout × Option GoError
      → Outcome (Folder × Option String)
  pass_on src_format dest_format dest bind files (l, some error) =
      ok (files, some (concat ("Error reading '" ∷ src_format ∷ "': " ∷ shown_error error ∷ [])))
  pass_on src_format dest_format dest bind files (some l, none) =
      write_layout l dest_format dest bind files
  pass_on src_format dest_format dest bind files (none, none) =
      panic "invalid memory address or nil pointer dereference"

  -- Compile
  unfoldable pub compile :
      List Phy
      → String
      → String
      → String
      → String
      → Bool
      → Folder
      → Outcome (Folder × Option String)
  compile phys src_format dest_format src dest bind files = elim (read_by phys src_format src) [
    | none ↦ ok (files, some (concat ("Unknown input format " ∷ src_format ∷ [])))
    | some o ↦ o >>= λ r. pass_on src_format dest_format dest bind files r
  ]

-- What yaml.Unmarshal leaves in a nil slice.
pub record PhyYaml : Type 0 where
  pub read_file : String → String ⊎ String
  pub phys_of : String → List Phy × Option String

-- GatherPhysFromFile
unfoldable pub gather_phys_from_file :
    PhyYaml → Option HardwareAddr → String → List Phy × Option String
gather_phys_from_file y boot_mac src = elim (y.read_file src) [
  | inr reason ↦ ([], some (concat ("Error reading phys: " ∷ reason ∷ [])))
  | inl text ↦
      let (phys, failed) = y.phys_of text in
      (
        fill_boot_if boot_mac phys,
        elim failed [
          | none ↦ none
          | some reason ↦ some (concat ("Error unmarshalling phys: " ∷ reason ∷ []))
        ],
      )
]
