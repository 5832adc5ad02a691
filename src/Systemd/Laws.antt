-- ===== src/Systemd/Laws.antt =====
-- What the systemd writer prints of an accepted layout.
use netwrangler.Base.{String, ◌≡◌, ◌⊎◌, none, some}
use netwrangler.GoMap.{GoMap, get}
use netwrangler.Value.{str}
use netwrangler.Layout.{Interface, Layout}

-- If an interface names a primary, it names it by a text.
abbrev pub HasTextPrimary : Interface → Type 0
HasTextPrimary v =
    (get "primary" v.parameters ≡ none)
    ⊎ ((s : String) × (get "primary" v.parameters ≡ some (str s)))
