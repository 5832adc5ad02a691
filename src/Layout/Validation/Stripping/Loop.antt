-- ===== src/Layout/Validation/Stripping/Loop.antt =====
-- The second loop of Layout.Validate, pointwise: whose network it clears.
use netwrangler.Base.{
  is_empty_iff, ◌⊎◌, not, ◌&&◌, ◌||◌, ◌==◌, Bool, String, true, false, ◌≡◌, refl, sym, ap, ◌∙◌,
  none, some, List, [], ◌∷◌, Memᴰ, inl, inr, Bool-cases, if◌then◌else◌, subst, eq_iff, contains,
  Option-cases, is_empty,
}
use mathlib.Core.Bool.{false≢true}
use netwrangler.GoMap.{GoMap, get, put, get_or, has, is_some}
use netwrangler.GoMap.Laws.{get-put}
use netwrangler.Layout.{Interface, new_interface}
use netwrangler.Layout.Members.Ownership.Exclusive.{IsNamed}
use netwrangler.Layout.Validation.{strip_child, strip_children, strip_member, strip_members}
use netwrangler.Layout.Validation.Stripping.{
  bare_if, bare_if-false, IsCleared, IsCleared-trans, IsCleared-IsNamed, IsDefined,
  IsCleared-IsDefined, view-IsCleared,
}

strip_child-IsCleared :
    (m : GoMap Interface) (name : String)
    → IsNamed m
    → has name m ≡ true
    → IsCleared (strip_child m name) m (λ k. name == k)
unfolding strip_child
strip_child-IsCleared m name named defined k = elim (Option-cases (get name m)) [
  | inl gone ↦ absurd (false≢true (ap is_some (sym gone) ∙ defined))
  | inr (child, here) ↦
      rw (here, get_or, named name child here) (at_key child here (Bool-cases (name == k)))
]
  where
    at_key :
        (child : Interface)
        → get name m ≡ some child
        → ((name == k) ≡ true) ⊎ ((name == k) ≡ false)
        → get k (put name (record child { name = name; network = none }) m)
          ≡ bare_if (name == k) (get k m)
    at_key child here (inl e) =
        rw
          (
            get-put name k (record child { name = name; network = none }) m,
            e,
            ← (eq_iff name k).0 e,
            here,
            named name child here,
          )
          refl
    at_key child here (inr d) =
        rw (get-put name k (record child { name = name; network = none }) m, d)
          (bare_if-false (get k m))

strip_children-IsCleared :
    (names : List String) (m : GoMap Interface)
    → IsNamed m
    → IsDefined names m
    → IsCleared (strip_children names m) m (λ k. contains k names)
unfolding strip_children contains
strip_children-IsCleared [] m named defined k = bare_if-false (get k m)
strip_children-IsCleared (name ∷ names) m named defined k =
    let one = strip_child-IsCleared m name named (defined name (Memᴰ.head refl)) in
    IsCleared-trans (strip_children names (strip_child m name)) (strip_child m name) m
      (λ k. contains k names) (λ k. name == k) one
      (strip_children-IsCleared names (strip_child m name)
        (IsCleared-IsNamed (strip_child m name) m (λ k. name == k) one named)
        (IsCleared-IsDefined (strip_child m name) m (λ k. name == k) names one
          (λ x i. defined x (Memᴰ.tail i))))
      k

-- The interface `v` takes the network from `k`.
abbrev pub strips : Interface → String → Bool
strips v k = (v.type == "bridge" || v.type == "bond") && contains k v.interfaces

abbrev pub strips_at : GoMap Interface → String → String → Bool
strips_at m j k = strips (get_or m j new_interface) k

unfoldable pub stripped_by : GoMap Interface → List String → String → Bool
stripped_by m [] k = false
stripped_by m (j ∷ js) k = strips_at m j k || stripped_by m js k

stripped_by-IsCleared :
    (m m0 : GoMap Interface) (cleared : String → Bool) (js : List String) (k : String)
    → IsCleared m m0 cleared
    → stripped_by m js k ≡ stripped_by m0 js k
unfolding stripped_by
stripped_by-IsCleared m m0 cleared [] k h = refl
stripped_by-IsCleared m m0 cleared (j ∷ js) k h = cc (
  view-IsCleared (λ v. strips v k) m m0 cleared (λ v. refl) h j,
  stripped_by-IsCleared m m0 cleared js k h,
)

stripped-IsCleared :
    (v : Interface) (m : GoMap Interface)
    → IsNamed m
    → IsDefined v.interfaces m
    → IsCleared
        (if (v.type == "bridge" || v.type == "bond") && not (is_empty v.interfaces)
          then strip_children v.interfaces m
          else m)
        m
        (strips v)
unfolding contains
stripped-IsCleared v m named defined k =
    elim (Bool-cases (v.type == "bridge" || v.type == "bond")) [
      | inr other ↦ rw other (bare_if-false (get k m))
      | inl owner ↦ elim (Bool-cases (is_empty v.interfaces)) [
        | inr full ↦ rw (owner, full) (strip_children-IsCleared v.interfaces m named defined k)
        | inl nothing ↦
            rw (owner, nothing, (is_empty_iff v.interfaces).0 nothing) (bare_if-false (get k m))
      ]
    ]

strip_member-IsCleared :
    (m : GoMap Interface) (j : String)
    → IsNamed m
    → IsDefined (get_or m j new_interface).interfaces m
    → IsCleared (strip_member j m) m (strips_at m j)
unfolding strip_member
strip_member-IsCleared m j = stripped-IsCleared (get_or m j new_interface) m

-- The second loop clears the network of exactly the interfaces that a bridge or a bond among
-- `ks` lists.
pub strip_members-IsCleared :
    (ks : List String) (m : GoMap Interface)
    → IsNamed m
    → ((j : String) → Memᴰ j ks → IsDefined (get_or m j new_interface).interfaces m)
    → IsCleared (strip_members ks m) m (stripped_by m ks)
unfolding strip_members stripped_by
strip_members-IsCleared [] m named defined k = bare_if-false (get k m)
strip_members-IsCleared (j ∷ js) m named defined k =
    let t = strip_member j m in
    let one = strip_member-IsCleared m j named (defined j (Memᴰ.head refl)) in
    let rest =
      strip_members-IsCleared js t (IsCleared-IsNamed t m (strips_at m j) one named)
        (λ i at x listed.
          IsCleared-IsDefined t m (strips_at m j) (get_or m i new_interface).interfaces one
            (defined i (Memᴰ.tail at)) x
            (subst (Memᴰ x)
              (view-IsCleared (λ v. v.interfaces) t m (strips_at m j) (λ v. refl) one i) listed)) in
    IsCleared-trans (strip_members js t) t m (stripped_by t js) (strips_at m j) one rest k
    ∙ ap (λ b. bare_if (strips_at m j k || b) (get k m))
        (stripped_by-IsCleared t m (strips_at m j) js k one)
