-- ===== src/Copy/Laws.antt =====
-- What Copy leaves in its target.
use mathlib.Core.List.Memᴰ
use netwrangler.Base.{
  String, true, false, ◌≡◌, ◌≢◌, refl, sym, ◌∙◌, ◌⊎◌, inl, inr, Option, none, some, List, [], ◌∷◌,
  ◌==◌, Memᴰ, Bool-cases, str_cases, subst, ⊎_elim, if◌then◌else◌,
}
use netwrangler.Sort.{sort}
use netwrangler.Sort.Laws.{sort_iff}
use netwrangler.Text.{concat}
use netwrangler.GoMap.{get, get_or, put, keys}
use netwrangler.GoMap.Laws.{get-put_self, get-put_other}
use netwrangler.Err.{Err}
use netwrangler.Copy.{Disk, Folder, Copying, dest_of, copy_step, copy_loop, copy}

-- Nothing fails on the way from one folder to another, and different files have different paths in
-- the target.
pub record IsCopyable (d : Disk) (src : String) (source : Folder) (target : String) : Type 0 where
  pub globs : d.glob_error (d.join src "*") ≡ none
  pub makes : d.mkdir_error target ≡ none
  pub opens : (name : String) → Memᴰ name (keys source) → d.open_error name ≡ none
  pub creates :
      (name : String) → Memᴰ name (keys source) → d.create_error (dest_of d target name) ≡ none
  pub copies :
      (name : String)
      → Memᴰ name (keys source)
      → d.copied (dest_of d target name) (get_or source name []) ≡ (get_or source name [], none)
  pub differ :
      (name other : String)
      → Memᴰ name (keys source)
      → Memᴰ other (keys source)
      → dest_of d target name ≡ dest_of d target other
      → name ≡ other

-- What becomes of a file: an empty one is not copied.
abbrev pub kept_text : List String → Option (List String)
kept_text texts = if concat texts == "" then none else some texts

module _ (d : Disk) (src : String) (source : Folder) (target : String)
    (ready : IsCopyable d src source target) where
  abbrev dest : String → String
  dest name = dest_of d target name

  abbrev text_of : String → List String
  text_of name = get_or source name []

  -- The file is copied, or not there.
  abbrev IsFaithful : Copying → Type 0
  IsFaithful c =
      (name : String)
      → Memᴰ name (keys source)
      → (get (dest name) c.files ≡ none) ⊎ (get (dest name) c.files ≡ kept_text (text_of name))

  abbrev IsCopied : Copying → String → Type 0
  IsCopied c name = get (dest name) c.files ≡ kept_text (text_of name)

  step_skips :
      (name : String) (c : Copying)
      → (concat (text_of name) == "") ≡ true
      → copy_step d target source name c ≡ c
  unfolding copy_step
  step_skips name c void = rw (void, copy_step) refl

  step_copies :
      (name : String) (c : Copying)
      → Memᴰ name (keys source)
      → (concat (text_of name) == "") ≡ false
      → copy_step d target source name c
        ≡ record c { files = put (dest name) (text_of name) (put (dest name) [] c.files) }
  unfolding copy_step
  step_copies name c m full =
      rw (full, copy_step, ready.opens name m, ready.creates name m, ready.copies name m) refl

  -- A file that is not copied has no text.
  void_text :
      (name : String) → (concat (text_of name) == "") ≡ true → kept_text (text_of name) ≡ none
  void_text name void = rw void refl

  -- A round copies its file, and leaves the others as they are.
  record IsRound (name : String) (c c' : Copying) : Type 0 where
    silent : c'.err ≡ c.err
    copied : IsCopied c' name
    others :
        (other : String)
        → Memᴰ other (keys source)
        → other ≢ name
        → get (dest other) c'.files ≡ get (dest other) c.files

  step-IsRound :
      (name : String) (c : Copying)
      → Memᴰ name (keys source)
      → IsFaithful c
      → IsRound name c (copy_step d target source name c)
  step-IsRound name c m faithful = elim (Bool-cases (concat (text_of name) == "")) [
    | inl void ↦ subst (IsRound name c) (sym (step_skips name c void)) (record {
      silent = refl;
      copied = ⊎_elim (λ h. h ∙ sym (void_text name void)) (λ h. h) (faithful name m);
      others = λ other at apart. refl;
    })
    | inr full ↦ subst (IsRound name c) (sym (step_copies name c m full)) (record {
      silent = refl;
      copied = get-put_self (dest name) (text_of name) (put (dest name) [] c.files) ∙ rw full refl;
      others = λ other at apart.
          (let differs : dest name ≢ dest other =
              λ e. apart (sym (ready.differ name other m at e)) in
            get-put_other (dest name) (dest other) (text_of name) (put (dest name) [] c.files)
              differs
            ∙ get-put_other (dest name) (dest other) [] c.files differs);
    })
  ]

  round-IsFaithful :
      (name : String) (c c' : Copying) → IsRound name c c' → IsFaithful c → IsFaithful c'
  round-IsFaithful name c c' r faithful other at = elim (str_cases other name) [
    | inl same ↦ inr (subst (IsCopied c') (sym same) r.copied)
    | inr apart ↦ rw (r.others other at apart) (faithful other at)
  ]

  loop_copies :
      (names : List String) (c : Copying)
      → ((name : String) → Memᴰ name names → Memᴰ name (keys source))
      → IsFaithful c
      → let c' = copy_loop d target source names c in
        (c'.err ≡ c.err)
        × ((name : String)
            → Memᴰ name (keys source)
            → Memᴰ name names ⊎ IsCopied c name
            → IsCopied c' name)
  unfolding copy_loop
  loop_copies [] c within faithful =
      (refl, λ name at h. ⊎_elim (λ m. absurd (Memᴰ.not-nil m)) (λ done. done) h)
  loop_copies (x ∷ xs) c within faithful =
      let c' = copy_step d target source x c in
      let r = step-IsRound x c (within x (Memᴰ.head refl)) faithful in
      let (silent, copied) =
        loop_copies xs c' (λ name m. within name (Memᴰ.tail m))
          (round-IsFaithful x c c' r faithful) in
      (
        silent ∙ r.silent,
        λ name at h. copied name at (elim (str_cases name x) [
          | inl same ↦ inr (subst (IsCopied c') (sym same) r.copied)
          | inr apart ↦
              ⊎_elim (λ m. ⊎_elim (λ e. absurd (apart e)) inl (Memᴰ.cases_cons m))
                (λ done. inr (r.others name at apart ∙ done)) h
        ]),
      )

-- Into an empty target, if nothing fails and different files have different paths in it, Copy
-- copies every file that is not empty and no empty one, and reports nothing.
pub copy-IsCopied :
    (d : Disk) (src : String) (source : Folder) (target : String) (e : Err)
    → IsCopyable d src source target
    → let c = copy d src source target (record { err = e; files = [] }) in
      (c.err ≡ e)
      × ((name : String)
          → Memᴰ name (keys source)
          → get (dest_of d target name) c.files ≡ kept_text (get_or source name []))
unfolding copy get
copy-IsCopied d src source target e ready =
    let c : Copying = record { err = e; files = [] } in
    let (silent, copied) =
      loop_copies d src source target ready (sort (keys source)) c
        (λ name. (sort_iff name (keys source)).0) (λ name m. inl refl) in
    rw (ready.globs, copy, ready.makes)
      (silent, λ name m. copied name m (inl ((sort_iff name (keys source)).1 m)))
