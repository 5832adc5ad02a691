-- ===== src/Netplan/Compile/Installed.antt =====
-- From a netplan to the files of the systemd writer: netplan/netplan.go, util/layout.go and
-- systemd/networkd.go together.
use netwrangler.Base.{String, ◌≡◌, refl, ap, ◌∙◌, ◌↔◌, inl, some, sym, subst, none, List, Memᴰ}
use netwrangler.GoMap.{GoMap, get, keys}
use netwrangler.Outcome.{ok}
use netwrangler.Validators.{Printer}
use netwrangler.Globs.{Compiler}
use netwrangler.Phys.{Phy}
use netwrangler.Copy.{Disk, Folder}
use netwrangler.Netplan.{Packages, Netplan}
use netwrangler.Netplan.Kinds.{KeepsType}
use netwrangler.Netplan.Compile.{compile_netplan}
use netwrangler.Netplan.Compile.Accepted.{compile_netplan-IsPassedOn, kinds-IsPassed}
use netwrangler.Netplan.Compile.Proper.{IsProper}
use netwrangler.Netplan.Compile.Named.{IsPassed}
use netwrangler.Netplan.Params.{KeepsTexts, HasTypes}
use netwrangler.Netplan.Params.Stacked.{bond-types, bridge-types}
use netwrangler.Netplan.Params.Plain.{vlan-types, ethernet-types}
use netwrangler.Layout.{Interface, Layout}
use netwrangler.Layout.Members.Total.{IsKind}
use netwrangler.Layout.Validation.{layout_validate}
use netwrangler.Layout.Validation.Stripping.Kept.{entry_before}
use netwrangler.Value.{Value}
use netwrangler.Net.{Gnet}
use netwrangler.Systemd.Writer.{Systemd}
use netwrangler.Systemd.Writer.Complete.{HasRoom, HasWriterTypes}
use netwrangler.Systemd.Write.{write}
use netwrangler.Systemd.Write.Laws.{IsTarget, IsInstalled, write-IsInstalled}

-- If Compile of a netplan returns a layout and no error, the last loop of Layout.Validate
-- having ranged over just the keys, then, if decoding leaves the type of an interface alone, if
-- the parameters primary and wakeonlan have the types that are asserted of them, and if the
-- files can be created and copied and differ, Write of the systemd writer returns no error and
-- leaves in its destination the texts of the two files of every interface of the layout, unless
-- they are empty.
-- The kind of an interface, and what the writer asserts of its parameters.
abbrev IsWritable : String → GoMap Value → Type 0
IsWritable type parameters = IsKind type × HasTypes parameters

IsWritable-IsPassed : (p : Packages) → KeepsType p → KeepsTexts p → IsPassed p IsWritable
unfolding get
IsWritable-IsPassed p keeps texts =
    let kinds = kinds-IsPassed p keeps in
    record {
      ethernet = λ address e e' v def h. (inl refl, ethernet-types p address e e' v def texts h);
      sub = (inl refl, (inl refl, inl refl));
      bond = λ address e e' v i h.
          (kinds.bond address e e' v i h, bond-types p address e e' v i texts h);
      bridge = λ address e e' v i h.
          (kinds.bridge address e e' v i h, bridge-types p address e e' v i texts h);
      vlan = λ address e e' v i h.
          (kinds.vlan address e e' v i h, vlan-types p address e e' v i texts h);
    }

-- What holds of the parameters before the validation holds of them after it.
kept-HasWriterTypes :
    (g : Gnet) (order : List String) (l l' : Layout)
    → IsProper IsWritable l.interfaces
    → layout_validate g order l ≡ ok (l', none)
    → HasWriterTypes l'.interfaces
kept-HasWriterTypes g order l l' proper accepted = record {
  primary = λ k v there. (types k v there).0;
  wake = λ k v there. (types k v there).1;
}
  where
    types : (k : String) (v : Interface) → get k l'.interfaces ≡ some v → HasTypes v.parameters
    types k v there =
        let (v0, here, same) =
          entry_before g order l l' (λ k v here. (proper k v here).0) accepted k v there in
        subst HasTypes (sym same.parameters) (proper k v0 here).1.1

pub write-compile_netplan :
    (compile : Compiler) (phys : List Phy) (p : Packages) (order : List String → List String)
    (n : Netplan) (s : Systemd) (d : Disk) (t : Printer) (final : String) (target : Folder)
    → KeepsType p
    → KeepsTexts p
    → ((ks : List String) (k : String) → Memᴰ k (order ks) ↔ Memᴰ k ks)
    → compile_netplan compile phys p order n ≡ ok (s.layout, none)
    → HasRoom d s
    → IsTarget d s final
    → (files : Folder) × (write d final p.gnet t s (inl s.dest) target ≡ ok (files, none))
      × IsInstalled d p.gnet t s final files
write-compile_netplan compile phys p order n s d t final target keeps texts ranged compiles room
      place =
    let (invalid, r, silent) =
      compile_netplan-IsPassedOn compile phys p order n s.layout none IsWritable
        (IsWritable-IsPassed p keeps texts) compiles in
    let validated = r.validated ∙ ap (λ e. ok (s.layout, e)) (silent refl) in
    write-IsInstalled p.gnet (order (keys r.layout.interfaces)) r.layout s d t final target
      (λ k v here. (r.proper k v here).0) (λ k v here. (r.proper k v here).1.0) r.blank
      (ranged (keys r.layout.interfaces)) validated
      (kept-HasWriterTypes p.gnet (order (keys r.layout.interfaces)) r.layout s.layout r.proper
        validated)
      room place
