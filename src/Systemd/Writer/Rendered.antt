-- ===== src/Systemd/Writer/Rendered.antt =====
-- What the two files of an interface should hold, as functions of the layout alone, and that writeOut
-- writes it.
use mathlib.Core.List.{append-nil}
use netwrangler.Base.{
  String, Bool, false, ◌==◌, ◌≡◌, refl, sym, ap, ◌∙◌, inl, inr, none, some, List, [], ◌∷◌, ◌++◌,
  Option-cases, Memᴰ, if◌then◌else◌,
}
use netwrangler.GoMap.{GoMap, get, get_or, put}
use netwrangler.Value.{str}
use netwrangler.Net.{Gnet}
use netwrangler.Outcome.{ok, each}
use netwrangler.Validators.{Printer}
use netwrangler.Layout.{Interface, new_interface}
use netwrangler.Layout.Routes.{words_if}
use netwrangler.Layout.Members.{Parents}
use netwrangler.Layout.Members.Total.{IsKind, IsVirtualKind}
use netwrangler.Layout.Members.Ownership.{IsParent}
use netwrangler.Systemd.{
  Output, print, setting, is_primary, write_parent, write_parents, write_network,
}
use netwrangler.Systemd.Laws.{HasTextPrimary}
use netwrangler.Systemd.Devices.Laws.{HasBoolWake, device_lines, write_device_prints, print-print}
use netwrangler.Systemd.Writer.{Systemd, Run, match_lines, network_of, write_files}

-- Whether `parent` names `i` as its primary.
unfoldable pub names_primary : Interface → Interface → Bool
names_primary i parent = elim (get "primary" parent.parameters) [
  | none ↦ false
  | some v ↦ elim v [ str s ↦ s == i.name | _ ↦ false ]
]

is_primary-names_primary :
    (i parent : Interface)
    → HasTextPrimary parent
    → is_primary i parent ≡ ok (names_primary i parent)
unfolding is_primary names_primary
is_primary-names_primary i parent (inl h) = rw (h, is_primary, names_primary) refl
is_primary-names_primary i parent (inr (s, h)) = rw (h, is_primary, names_primary) refl

unfoldable pub parent_line : Interface → Interface → List String
parent_line i parent =
    if parent.type == "bridge"
    then setting "Bridge" parent.name
    else if parent.type == "bond"
    then setting "Bond" parent.name
      ++ words_if (names_primary i parent) (setting "PrimarySlave" i.name)
    else setting "VLAN" parent.name

unfoldable pub parent_lines : GoMap Interface → Interface → List String → List String
parent_lines interfaces i [] = []
parent_lines interfaces i (name ∷ names) =
    parent_line i (get_or interfaces name new_interface) ++ parent_lines interfaces i names

module _ (interfaces : GoMap Interface) (i : Interface) where
  -- A name of a parent that writeParents can write.
  pub record IsPrintable (name : String) : Type 0 where
    pub parent : Interface
    pub defined : get name interfaces ≡ some parent
    pub kind : IsVirtualKind parent.type
    pub primary : HasTextPrimary parent

  write_parent_prints :
      (name : String) (o : Output)
      → IsPrintable name
      → write_parent interfaces i name o
        ≡ ok (print o (parent_line i (get_or interfaces name new_interface)))
  unfolding write_parent parent_line
  write_parent_prints name o p =
      rw (p.defined, get_or, write_parent)
        (elim p.kind [
          | inl bond ↦
              rw
                (
                  ap (λ x. x == "bridge") bond,
                  ap (λ x. x == "bond") bond,
                  is_primary-names_primary i p.parent p.primary,
                )
                refl
          | inr (inl bridge) ↦ rw (ap (λ x. x == "bridge") bridge) refl
          | inr (inr vlan) ↦
              rw
                (
                  ap (λ x. x == "bridge") vlan,
                  ap (λ x. x == "bond") vlan,
                  ap (λ x. x == "vlan") vlan,
                )
                refl
        ])

  pub write_parent_loop :
      (names : List String) (o : Output)
      → ((name : String) → Memᴰ name names → IsPrintable name)
      → each (write_parent interfaces i) names o ≡ ok (print o (parent_lines interfaces i names))
  unfolding each parent_lines
  write_parent_loop [] o h =
      ap (λ texts. ok (record o { printed = texts })) (sym (append-nil o.printed))
  write_parent_loop (name ∷ names) o h =
      let line = parent_line i (get_or interfaces name new_interface) in
      rw (write_parent_prints name o (h name (Memᴰ.head refl))) (
        write_parent_loop names (print o line) (λ n m. h n (Memᴰ.tail m))
        ∙ ap ok (print-print o line (parent_lines interfaces i names)))

  pub write_parents_prints :
      (parents : Parents) (o : Output)
      → ((name : String) → IsParent parents i.name name → IsPrintable name)
      → write_parents interfaces i parents o
        ≡ ok (print o (parent_lines interfaces i (get_or parents i.name [])))
  unfolding write_parents parent_lines
  write_parents_prints parents o h = elim (Option-cases (get i.name parents)) [
    | inl free ↦
        rw (free, write_parents, get_or)
          (ap (λ texts. ok (record o { printed = texts })) (sym (append-nil o.printed)))
    | inr (names, owned) ↦
        rw (owned, write_parents, get_or)
          (write_parent_loop names o (λ n m. h n (rw (owned, get_or) m)))
  ]

-- An interface that writeOut can write.
pub record IsWritable (s : Systemd) (i : Interface) : Type 0 where
  pub kind : IsKind i.type
  pub wake : HasBoolWake i
  pub parents :
      (name : String)
      → IsParent s.layout.child2parent i.name name
      → IsPrintable s.layout.interfaces i name

module _ (g : Gnet) (s : Systemd) (i : Interface) where
  -- The text of the .network file.
  unfoldable pub network_text : List String
  network_text =
      (match_lines g s i
        ++ parent_lines s.layout.interfaces i (get_or s.layout.child2parent i.name []))
      ++ write_network g (network_of i.network)

module _ (g : Gnet) (t : Printer) (s : Systemd) (i : Interface) where
  pub write_files_prints :
      (nw link : String) (r : Run)
      → IsWritable s i
      → write_files g t s i (nw, link) r
        ≡ ok (record r {
          files = put nw (network_text g s i) (put link (device_lines g t i) r.files);
        })
  unfolding write_files network_text
  write_files_prints nw link r w =
      rw
        (
          write_device_prints g t i (record { err = r.err; printed = [] }) w.kind w.wake,
          write_files,
          write_parents_prints s.layout.interfaces i s.layout.child2parent
              (record { err = r.err; printed = match_lines g s i }) w.parents,
        )
        refl
