-- ===== src/Copy.antt =====
-- util/copy.go: Copy. A folder is a map from the paths of its files to the texts that were printed to
-- them; it has no folders in it, and os.Stat succeeds for what filepath.Glob has found. What the
-- operating system answers is the parameter `Disk`.
pub mod Laws
pub mod Tests
use netwrangler.Base.{String, ◌==◌, Option, none, some, List, [], ◌∷◌, ◌++◌, if◌then◌else◌}
use netwrangler.Sort.{sort}
use netwrangler.Text.{concat}
use netwrangler.GoMap.{GoMap, get_or, put, keys}
use netwrangler.Err.{Err, errorf, merge, plain}

-- path.Join and path.Base, the text of an error or none for a path that filepath.Glob, os.MkdirAll,
-- os.Create and os.Open are given, and what io.Copy leaves in a file that it copies texts to.
pub record Disk : Type 0 where
  pub join : String → String → String
  pub base : String → String
  pub glob_error : String → Option String
  pub mkdir_error : String → Option String
  pub create_error : String → Option String
  pub open_error : String → Option String
  pub copied : String → List String → List String × Option String

abbrev pub Folder : Type 0
Folder = GoMap (List String)

-- os.Create leaves an empty file, or none.
abbrev pub opened : String → Option String → Folder → Folder
opened path none files = put path [] files
opened path (some _) files = files

abbrev pub report_if : List String → Option String → Err → Err
report_if pieces none e = e
report_if pieces (some reason) e = errorf e (pieces ++ ": " ∷ reason ∷ [])

pub record Copying : Type 0 where
  pub err : Err
  pub files : Folder

module _ (d : Disk) (target : String) where
  abbrev pub dest_of : String → String
  dest_of name = d.join target (d.base name)

  -- What follows the opening of both files.
  abbrev pub transfer : String → List String → Option String → Option String → Copying → Copying
  transfer name texts none none c =
      let (got, failed) = d.copied (dest_of name) texts in
      record {
        err = report_if ("Error copying " ∷ name ∷ " to " ∷ dest_of name ∷ []) failed c.err;
        files = put (dest_of name) got c.files;
      }
  transfer name texts _ _ c = c

  -- The body of the loop.
  unfoldable pub copy_step : Folder → String → Copying → Copying
  copy_step source name c =
      let texts = get_or source name [] in
      let src_err = d.open_error name in
      let dest_err = d.create_error (dest_of name) in
      if concat texts == ""
      then c
      else transfer name texts src_err dest_err (record {
        err =
            report_if ("Error opening dest " ∷ dest_of name ∷ []) dest_err
              (report_if ("Error opening src temp " ∷ name ∷ []) src_err c.err);
        files = opened (dest_of name) dest_err c.files;
      })

  unfoldable pub copy_loop : Folder → List String → Copying → Copying
  copy_loop source [] c = c
  copy_loop source (name ∷ names) c = copy_loop source names (copy_step source name c)

-- Copy
unfoldable pub copy : Disk → String → Folder → String → Copying → Copying
copy d src source target c = elim (d.glob_error (d.join src "*")) [
  | some reason ↦ record c { err = merge c.err (some (plain reason)) }
  | none ↦ elim (d.mkdir_error target) [
    | some reason ↦ record c { err = merge c.err (some (plain reason)) }
    | none ↦ copy_loop d target source (sort (keys source)) c
  ]
]
