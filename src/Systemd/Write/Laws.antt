-- ===== src/Systemd/Write/Laws.antt =====
-- What Write leaves in its destination.
use netwrangler.Base.{
  String, true, ◌≡◌, ap, ◌↔◌, inl, none, some, List, [], Memᴰ, arith, map, all_differ,
  all_differ-map,
}
use netwrangler.GoMap.{get, get_or, keys}
use netwrangler.GoMap.Laws.{mem-keys_iff}
use netwrangler.Net.{Gnet}
use netwrangler.Outcome.{ok}
use netwrangler.Err.{new_err, empty, or_nil}
use netwrangler.Validators.{Printer}
use netwrangler.Layout.{Interface, Layout}
use netwrangler.Layout.Members.Ownership.Exclusive.{IsNamed}
use netwrangler.Layout.Validation.{layout_validate}
use netwrangler.Layout.Validation.Total.{IsTyped}
use netwrangler.Copy.{Disk, Folder, dest_of, copy}
use netwrangler.Copy.Laws.{IsCopyable, kept_text, copy-IsCopied}
use netwrangler.Systemd.Devices.Laws.{device_lines}
use netwrangler.Systemd.Writer.{Systemd, Run}
use netwrangler.Systemd.Writer.Unwritten.{Within}
use netwrangler.Systemd.Writer.Paths.{paths, network_path, device_path}
use netwrangler.Systemd.Writer.Rendered.{network_text}
use netwrangler.Systemd.Writer.Complete.{HasRoom, HasWriterTypes, loop, all_hold}
use netwrangler.Systemd.Write.{start_run, install, write}

-- The rendered files can be copied, and no two of them get the same path.
pub record IsTarget (d : Disk) (s : Systemd) (final : String) : Type 0 where
  pub globs : d.glob_error (d.join s.dest "*") ≡ none
  pub globs_final : d.glob_error (d.join final "*") ≡ none
  pub makes : d.mkdir_error final ≡ none
  pub opens :
      (p : String)
      → Memᴰ p (paths d s s.layout.interfaces)
      → (d.open_error p ≡ none) × (d.create_error (dest_of d final p) ≡ none)
  pub copies : (p : String) (texts : List String) → d.copied p texts ≡ (texts, none)
  pub differ : all_differ (map (dest_of d final) (paths d s s.layout.interfaces)) ≡ true

module _ (d : Disk) (s : Systemd) (final : String) (r : Run) (room : IsTarget d s final)
    (own : Within (keys r.files) (paths d s s.layout.interfaces)) where
  run-IsCopyable : IsCopyable d s.dest r.files final
  run-IsCopyable = record {
    globs = room.globs;
    makes = room.makes;
    opens = λ p m. (room.opens p (own p m)).0;
    creates = λ p m. (room.opens p (own p m)).1;
    copies = λ p m. room.copies (dest_of d final p) (get_or r.files p []);
    differ = λ p q mp mq.
        all_differ-map (dest_of d final) (paths d s s.layout.interfaces) p q room.differ (own p mp)
          (own q mq);
  }

  -- What Write makes of a run that reports nothing.
  install_copies :
      (target : Folder)
      → r.err ≡ new_err "systemd-networkd"
      → (files : Folder) × (install d final s.dest r target ≡ (files, none))
        × ((p : String) (texts : List String)
            → get p r.files ≡ some texts
            → get (dest_of d final p) files ≡ kept_text texts)
  unfolding install empty or_nil
  install_copies target silent =
      let (quiet, copied) = copy-IsCopied d s.dest r.files final start_run.err run-IsCopyable in
      let c = copy d s.dest r.files final (record { err = start_run.err; files = [] }) in
      (
        c.files,
        rw (silent, install, room.globs_final, silent) (ap (λ e. (c.files, or_nil e)) quiet),
        λ p texts here. rw (here, get_or) at (copied p (ground (arith, mem-keys_iff p r.files))),
      )

-- What Write has to leave of a layout: under the paths in the destination, the texts of the two files
-- of every interface, a file without text being left out.
pub record IsInstalled (d : Disk) (g : Gnet) (t : Printer) (s : Systemd) (final : String)
    (files : Folder) : Type 0 where
  pub network :
      (k : String) (v : Interface)
      → get k s.layout.interfaces ≡ some v
      → get (dest_of d final (network_path d s k)) files ≡ kept_text (network_text g s v)
  pub device :
      (k : String) (v : Interface)
      → get k s.layout.interfaces ≡ some v
      → get (dest_of d final (device_path d s k v)) files ≡ kept_text (device_lines g t v)

-- On an accepted layout of physical interfaces, bonds, bridges and vlans that started without
-- roots and whose entries carry their keys as names, the last loop of Layout.Validate having
-- ranged over just the keys, if the parameters primary and wakeonlan have the types that are
-- asserted of them, and if the files can be created and copied and differ, then Write returns
-- no error and leaves in its destination the texts of the two files of every interface, unless
-- they are empty.
pub write-IsInstalled :
    (g : Gnet) (order : List String) (l : Layout) (s : Systemd) (d : Disk) (t : Printer)
    (final : String) (target : Folder)
    → IsNamed l.interfaces
    → IsTyped l.interfaces
    → l.roots ≡ []
    → ((k : String) → Memᴰ k order ↔ Memᴰ k (keys l.interfaces))
    → layout_validate g order l ≡ ok (s.layout, none)
    → HasWriterTypes s.layout.interfaces
    → HasRoom d s
    → IsTarget d s final
    → (files : Folder) × (write d final g t s (inl s.dest) target ≡ ok (files, none))
      × IsInstalled d g t s final files
unfolding write
write-IsInstalled g order l s d t final target named typed blank ranged accepted types room place =
    let (r, e, run, subs) =
      loop g order l s named typed blank ranged accepted d types room t start_run.err in
    let (files, installs, copied) =
      install_copies d s final r place run.holds.own target run.silent in
    let held =
      all_hold g order l s named typed blank ranged accepted d types room t start_run.err in
    (
      files,
      rw e (ap ok installs),
      record {
        network =
            λ k v here. copied (network_path d s k) (network_text g s v) (held k v here).network;
        device =
            λ k v here. copied (device_path d s k v) (device_lines g t v) (held k v here).device;
      },
    )
