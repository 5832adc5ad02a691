-- ===== src/Layout/Files.antt =====
-- util/layout.go: Read and Write. What the package yaml makes of texts and layouts is the parameter
-- `LayoutYaml`.
use netwrangler.Base.{String, ◌⊎◌, inl, inr, Option, none, some}
use netwrangler.Err.{GoError, plain}
use netwrangler.Layout.{Layout}
use netwrangler.Copy.{Folder}
use netwrangler.Streams.{Streams, read_text, write_text, failure}

-- What Unmarshal leaves in a layout, the error that it returns for a nil pointer, and what Marshal
-- makes of a layout.
pub record LayoutYaml : Type 0 where
  pub unmarshal : Layout → String → Layout × Option String
  pub nil_error : String → String
  pub text_of : Layout → String ⊎ String

abbrev pub unmarshalled : LayoutYaml → Option Layout → String → Option Layout × Option GoError
unmarshalled y none text = (none, some (plain (y.nil_error text)))
unmarshalled y (some l) text = let (l', failed) = y.unmarshal l text in (some l', failure failed)

-- Read, of a receiver that may be nil.
unfoldable pub layout_read :
    LayoutYaml → Streams → Option Layout → String → Option Layout × Option GoError
layout_read y o l src = elim (read_text o src) [
  | inr reason ↦ (none, some (plain reason))
  | inl text ↦ unmarshalled y l text
]

-- Write
unfoldable pub layout_write :
    LayoutYaml → Streams → Layout → String → Folder → Folder × Option GoError
layout_write y o l dest files = write_text o dest (y.text_of l) files
