-- ===== src/Systemd/Writer/Holding.antt =====
-- A layout all of whose interfaces writeOut can write, and the files that it leaves for one of them.
use netwrangler.Base.{
  String, true, ◌≡◌, ◌≢◌, refl, sym, ◌∙◌, inl, inr, none, some, [], Memᴰ, arith, subst,
}
use netwrangler.GoMap.{get, put, keys}
use netwrangler.GoMap.Laws.{get-put_self, get-put_other, mem-keys-put}
use netwrangler.Net.{Gnet}
use netwrangler.Validators.{Printer}
use netwrangler.Layout.{Interface}
use netwrangler.Layout.Members.Ownership.Exclusive.{IsNamed}
use netwrangler.Systemd.Devices.Laws.{device_lines}
use netwrangler.Copy.{Disk, Folder}
use netwrangler.Systemd.Writer.{Systemd, Run}
use netwrangler.Systemd.Writer.Unwritten.{Within}
use netwrangler.Base.{all_differ}
use netwrangler.Systemd.Writer.Paths.{
  mem-paths, paths, network_path, device_path, own_differ, paths_differ,
}
use netwrangler.Systemd.Writer.Rendered.{IsWritable, network_text}

-- A layout that can be written: its entries carry their keys as names and list only entries, each
-- can be written, and their files can be created and differ.
pub record IsReady (d : Disk) (s : Systemd) : Type 0 where
  pub named : IsNamed s.layout.interfaces
  pub subs :
      (k : String) (v : Interface)
      → get k s.layout.interfaces ≡ some v
      → (x : String) → Memᴰ x v.interfaces
      → (c : Interface) × (get x s.layout.interfaces ≡ some c)
  pub writable : (k : String) (v : Interface) → get k s.layout.interfaces ≡ some v → IsWritable s v
  pub opens :
      (k : String) (v : Interface)
      → get k s.layout.interfaces ≡ some v
      → (d.create_error (network_path d s k) ≡ none) × (d.create_error (device_path d s k v) ≡ none)
  pub differ : all_differ (paths d s s.layout.interfaces) ≡ true

module _ (d : Disk) (g : Gnet) (t : Printer) (s : Systemd) where
  -- The two files of an interface hold what they should.
  pub record Holds (k : String) (v : Interface) (files : Folder) : Type 0 where
    pub network : get (network_path d s k) files ≡ some (network_text g s v)
    pub device : get (device_path d s k v) files ≡ some (device_lines g t v)

  -- Every name that was written is an interface whose files are there, and no others are.
  pub record HoldsAll (r : Run) : Type 0 where
    pub written :
        (k : String)
        → Memᴰ k r.written
        → (v : Interface) × (get k s.layout.interfaces ≡ some v) × Holds k v r.files
    pub own : Within (keys r.files) (paths d s s.layout.interfaces)

  -- The files of an interface once create and the switch of writeOut are done with it.
  abbrev pub written_files : Interface → Folder → Folder
  written_files i files = put (network_path d s i.name) (network_text g s i) (
      put (device_path d s i.name i) (device_lines g t i)
        (put (device_path d s i.name i) [] (put (network_path d s i.name) [] files)))

  module _ (ready : IsReady d s) where
    pub keyed_by_name :
        (k : String) (v : Interface)
        → get k s.layout.interfaces ≡ some v
        → get v.name s.layout.interfaces ≡ some v
    keyed_by_name k v here =
        subst (λ x. get x s.layout.interfaces ≡ some v) (sym (ready.named k v here)) here

    pub own_files :
        (v : Interface) (files : Folder)
        → get v.name s.layout.interfaces ≡ some v
        → Holds v.name v (written_files v files)
    own_files v files here =
        let before : Folder =
          put (device_path d s v.name v) [] (put (network_path d s v.name) [] files) in
        record {
          network =
              get-put_self (network_path d s v.name) (network_text g s v)
                (put (device_path d s v.name v) (device_lines g t v) before);
          device =
              get-put_other (network_path d s v.name) (device_path d s v.name v)
                (network_text g s v) (put (device_path d s v.name v) (device_lines g t v) before)
                (own_differ d s s.layout.interfaces v.name v ready.differ here)
              ∙ get-put_self (device_path d s v.name v) (device_lines g t v) before;
        }

    -- A path that is none of an interface's own keeps its text.
    untouched :
        (v : Interface) (files : Folder) (p : String)
        → network_path d s v.name ≢ p
        → device_path d s v.name v ≢ p
        → get p (written_files v files) ≡ get p files
    untouched v files p net dev =
        let created : Folder = put (network_path d s v.name) [] files in
        let before : Folder = put (device_path d s v.name v) [] created in
        get-put_other (network_path d s v.name) p (network_text g s v)
          (put (device_path d s v.name v) (device_lines g t v) before) net
        ∙ get-put_other (device_path d s v.name v) p (device_lines g t v) before dev
        ∙ get-put_other (device_path d s v.name v) p [] created dev
        ∙ get-put_other (network_path d s v.name) p [] files net

    pub other_files :
        (k : String) (v w : Interface) (files : Folder)
        → get v.name s.layout.interfaces ≡ some v
        → get k s.layout.interfaces ≡ some w
        → v.name ≢ k
        → Holds k w files
        → Holds k w (written_files v files)
    other_files k v w files hj hk apart h =
        let differs = paths_differ d s s.layout.interfaces v.name k v w in
        record {
          network =
              untouched v files (network_path d s k)
                (differs (network_path d s v.name) (network_path d s k) ready.differ hj hk apart
                  (inl refl) (inl refl))
                (differs (device_path d s v.name v) (network_path d s k) ready.differ hj hk apart
                  (inr refl) (inl refl))
              ∙ h.network;
          device =
              untouched v files (device_path d s k w)
                (differs (network_path d s v.name) (device_path d s k w) ready.differ hj hk apart
                  (inl refl) (inr refl))
                (differs (device_path d s v.name v) (device_path d s k w) ready.differ hj hk apart
                  (inr refl) (inr refl))
              ∙ h.device;
        }

    pub written_files-own :
        (v : Interface) (files : Folder)
        → get v.name s.layout.interfaces ≡ some v
        → Within (keys files) (paths d s s.layout.interfaces)
        → Within (keys (written_files v files)) (paths d s s.layout.interfaces)
    written_files-own v files here own p m =
        let created : Folder = put (network_path d s v.name) [] files in
        let before : Folder = put (device_path d s v.name v) [] created in
        let after : Folder = put (device_path d s v.name v) (device_lines g t v) before in
        ground (
          arith,
          (mem-keys-put p (network_path d s v.name) (network_text g s v) after).0 m,
          mem-keys-put p (device_path d s v.name v) (device_lines g t v) before,
          mem-keys-put p (device_path d s v.name v) [] created,
          mem-keys-put p (network_path d s v.name) [] files,
          mem-paths d s s.layout.interfaces v.name v p here,
          own p,
        )
