-- ===== src/Entry/Laws.antt =====
-- The whole way from a netplan document to the files of systemd-networkd.
use netwrangler.Base.{
  String, Bool, true, false, ◌≡◌, refl, sym, ap, ◌∙◌, ◌↔◌, inl, inr, ◌⊎◌, Option, Option-cases,
  none, some, List, Memᴰ,
}
use netwrangler.Outcome.{ok, ok-injective, >>=-eq-ok}
use netwrangler.Err.{GoError}
use netwrangler.Phys.{Phy}
use netwrangler.Layout.{Layout}
use netwrangler.Copy.{Folder}
use netwrangler.Streams.{read_text}
use netwrangler.Netplan.{Netplan}
use netwrangler.Netplan.Kinds.{KeepsType}
use netwrangler.Netplan.Params.{KeepsTexts}
use netwrangler.Netplan.Compile.{compile_netplan}
use netwrangler.Netplan.Compile.Installed.{write-compile_netplan}
use netwrangler.Netplan.Files.{netplan_read}
use netwrangler.Systemd.Writer.Complete.{HasRoom}
use netwrangler.Systemd.Writer.{new, bind_macs}
use netwrangler.Systemd.Write.{write}
use netwrangler.Systemd.Write.Laws.{IsTarget, IsInstalled}
use netwrangler.Entry.{
  Machine, systemd_of, written_by, write_layout, reported_as, read_by, pass_on, compile,
}

-- The document at `src` is read and compiled without an error to `l`.
pub record IsRead (m : Machine) (phys : List Phy) (src : String) (l : Layout) : Type 0 where
  pub text : String
  pub document : Netplan
  pub reads : read_text m.streams src ≡ inl text
  pub parses : m.yaml.netplan_of text ≡ inl document
  pub compiles : compile_netplan m.compiler phys m.packages m.order document ≡ ok (l, none)

module _ (m : Machine) where
  -- Write sets the folder of the writer itself.
  write-systemd_of :
      (l : Layout) (dest dir : String) (bind : Bool) (files : Folder)
      → write m.disk dest m.packages.gnet m.packages.printer
          (systemd_of m l bind "")
          (inl dir)
          files
        ≡ write m.disk dest m.packages.gnet m.packages.printer
            (systemd_of m l bind dir)
            (inl (systemd_of m l bind dir).dest)
            files
  unfolding write new bind_macs
  write-systemd_of l dest dir true files = refl
  write-systemd_of l dest dir false files = refl

  systemd_of-layout :
      (l : Layout) (bind : Bool) (dir : String) → (systemd_of m l bind dir).layout ≡ l
  unfolding new bind_macs
  systemd_of-layout l true dir = refl
  systemd_of-layout l false dir = refl

  netplan_read-IsRead :
      (phys : List Phy) (src : String) (l : Layout)
      → IsRead m phys src l
      → netplan_read m.yaml m.streams m.compiler m.packages m.order src phys ≡ ok (some l, none)
  unfolding netplan_read
  netplan_read-IsRead phys src l r = rw (r.reads, netplan_read, r.parses, r.compiles) refl

  -- Compile hands what it has read to the writer.
  compile-write :
      (phys : List Phy) (l : Layout) (src dest dir : String) (bind : Bool) (files files' : Folder)
      → m.temporary ≡ inl dir
      → IsRead m phys src l
      → write m.disk dest m.packages.gnet m.packages.printer
          (systemd_of m l bind dir)
          (inl (systemd_of m l bind dir).dest)
          files
        ≡ ok (files', none)
      → compile m phys "netplan" "systemd" src dest bind files ≡ ok (files', none)
  unfolding compile read_by pass_on write_layout written_by reported_as
  compile-write phys l src dest dir bind files files' made r writes =
      rw
        (
          netplan_read-IsRead phys src l r,
          pass_on,
          write_layout,
          written_by,
          made,
          write-systemd_of l dest dir bind files,
          writes,
          reported_as,
        )
        refl

  -- If a netplan is read and compiled to a layout without an error, and a folder is made for
  -- the files, Compile from netplan to systemd returns no error and leaves in its destination
  -- the texts of the two files of every interface of the layout, unless they are empty,
  -- provided that decoding, at the maps that the validators have checked and into the blank
  -- structs that they decode into, leaves the type of a vlan alone, adds no parameters and
  -- keeps a text among them a text, that the last loop of Layout.Validate ranges over just the
  -- keys, and that the files can be created and copied and differ.
  pub compile-IsInstalled :
      (phys : List Phy) (l : Layout) (src dest dir : String) (bind : Bool) (files : Folder)
      → KeepsType m.packages
      → KeepsTexts m.packages
      → ((ks : List String) (k : String) → Memᴰ k (m.order ks) ↔ Memᴰ k ks)
      → m.temporary ≡ inl dir
      → IsRead m phys src l
      → HasRoom m.disk (systemd_of m l bind dir)
      → IsTarget m.disk (systemd_of m l bind dir) dest
      → (files' : Folder) × (compile m phys "netplan" "systemd" src dest bind files
          ≡ ok (files', none))
        × IsInstalled m.disk m.packages.gnet m.packages.printer
            (systemd_of m l bind dir)
            dest
            files'
  compile-IsInstalled phys l src dest dir bind files keeps texts ranged made r room place =
      let s = systemd_of m l bind dir in
      let same = systemd_of-layout l bind dir in
      let (files', writes, installed) =
        write-compile_netplan m.compiler phys m.packages m.order r.document s m.disk
          m.packages.printer dest files keeps texts ranged
          (r.compiles ∙ ap (λ x. ok (x, none)) (sym same)) room place in
      (files', compile-write phys l src dest dir bind files files' made r writes, installed)

  -- If Compile returns, then its destination is as it was, or the reader has returned a layout
  -- and no error, and Write has returned the result.
  pub compile-target :
      (phys : List Phy) (src_format dest_format src dest : String) (bind : Bool)
      (files files' : Folder) (error : Option String)
      → compile m phys src_format dest_format src dest bind files ≡ ok (files', error)
      → (files' ≡ files)
        ⊎ ((l : Layout) × (read_by m phys src_format src ≡ some (ok (some l, none)))
            × (write_layout m l dest_format dest bind files ≡ ok (files', error)))
  unfolding compile pass_on
  compile-target phys src_format dest_format src dest bind files files' error h =
      elim (Option-cases (read_by m phys src_format src)) [
        | inl unknown ↦ inl (sym (ap (λ x. x.0) (ok-injective (rw (unknown, compile) at h))))
        | inr (o, known) ↦
            let (r, reads, rest) = >>=-eq-ok o _ (rw (known, compile) at h) in
            passed (r.0) (r.1) (known ∙ ap some reads) rest
      ]
    where
      passed :
          (read : Option Layout) (failed : Option GoError)
          → read_by m phys src_format src ≡ some (ok (read, failed))
          → pass_on m src_format dest_format dest bind files (read, failed) ≡ ok (files', error)
          → (files' ≡ files)
            ⊎ ((l : Layout) × (read_by m phys src_format src ≡ some (ok (some l, none)))
                × (write_layout m l dest_format dest bind files ≡ ok (files', error)))
      passed read (some reason) known rest = inl (sym (ap (λ x. x.0) (ok-injective rest)))
      passed (some l) none known rest = inr (l, known, rest)
      passed none none known rest = cc
