-- ===== src/Copy/Tests.antt =====
-- Copy at examples.
use Prim.Native.String
use netwrangler.Base.{String, ◌≡◌, refl, none, [], ◌∷◌, Memᴰ, contains, all_differ, all_differ-map}
use netwrangler.GoMap.{get, get_or, keys}
use netwrangler.Err.{new_err}
use netwrangler.Copy.{Disk, Folder, Copying, dest_of, copy}
use netwrangler.Copy.Laws.{IsCopyable, kept_text, copy-IsCopied}

-- Nothing fails, and a path is its folder and its name.
abbrev pub open_disk : Disk
open_disk = record {
  join = λ folder name. String.◌++◌ folder (String.◌++◌ "/" name);
  base = λ path. path;
  glob_error = λ pattern. none;
  mkdir_error = λ path. none;
  create_error = λ path. none;
  open_error = λ path. none;
  copied = λ path texts. (texts, none);
}

abbrev rendered : Folder
rendered = ("60-a.network", "[Match]\n" ∷ "Name=a\n" ∷ []) ∷ ("60-a.link", []) ∷ []

rendered-IsCopyable : IsCopyable open_disk "tmp" rendered "etc"
unfolding all_differ contains keys
rendered-IsCopyable = record {
  globs = refl;
  makes = refl;
  opens = λ name m. refl;
  creates = λ name m. refl;
  copies = λ name m. refl;
  differ = λ name other m m'.
      all_differ-map (dest_of open_disk "etc") (keys rendered) name other refl m m';
}

copy-IsCopied_example :
    let c : Copying =
      copy open_disk "tmp" rendered "etc"
        (record { err = new_err "systemd-networkd"; files = [] }) in
    (c.err ≡ new_err "systemd-networkd")
    × ((name : String)
        → Memᴰ name (keys rendered)
        → get (dest_of open_disk "etc" name) c.files ≡ kept_text (get_or rendered name []))
copy-IsCopied_example =
    copy-IsCopied open_disk "tmp" rendered "etc" (new_err "systemd-networkd") rendered-IsCopyable
