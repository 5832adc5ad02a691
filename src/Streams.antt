-- ===== src/Streams.antt =====
-- The beginning of the Read methods and the end of the Write methods of util/layout.go and
-- netplan/netplan.go, which are the same: a path that is empty stands for standard input and
-- output. What the operating system answers is the parameter `Streams`.
use netwrangler.Base.{String, ◌==◌, ◌⊎◌, inl, inr, Option, none, some, [], ◌∷◌, if◌then◌else◌}
use netwrangler.GoMap.{put}
use netwrangler.Err.{GoError, plain}
use netwrangler.Copy.{Folder, opened}

-- The error of os.Open, what ioutil.ReadAll makes of a file or of standard input, the error of os.Create,
-- and what a text that is written to a file or to standard output comes to.
pub record Streams : Type 0 where
  pub open_error : String → Option String
  pub content : String → String ⊎ String
  pub create_error : String → Option String
  pub written : String → String → String × Option String

abbrev pub failure : Option String → Option GoError
failure none = none
failure (some reason) = some (plain reason)

-- The text at `src`, or the text of an error.
unfoldable pub read_text : Streams → String → String ⊎ String
read_text o src =
    if src == ""
    then o.content src
    else elim (o.open_error src) [ some reason ↦ inr reason | none ↦ o.content src ]

-- Writes what yaml.Marshal made, or returns its error.
unfoldable pub emit : Streams → String → String ⊎ String → Folder → Folder × Option GoError
emit o dest (inr reason) files = (files, some (plain reason))
emit o dest (inl text) files =
    let (got, failed) = o.written dest text in
    (if dest == "" then files else put dest (got ∷ []) files, failure failed)

-- `out := os.Stdout; if dest != "" { o, e := os.Create(dest) … }`, with what follows.
unfoldable pub write_text : Streams → String → String ⊎ String → Folder → Folder × Option GoError
write_text o dest marshalled files =
    if dest == "" then emit o dest marshalled files else elim (o.create_error dest) [
      | some reason ↦ (files, some (plain reason))
      | none ↦ emit o dest marshalled (opened dest none files)
    ]
