-- ===== src/Systemd/Writer/Paths.antt =====
-- The paths of the files, and that different interfaces have different ones.
use netwrangler.Base.{
  String, true, ◌==◌, ◌≡◌, ◌≢◌, sym, ◌∙◌, ◌⊎◌, inl, inr, some, List, [], ◌∷◌, Memᴰ, eq_iff,
  all_differ, all_differ-cons, Bool-cases, some_cancel, subst,
}
use netwrangler.GoMap.{GoMap, get}
use netwrangler.Layout.{Interface}
use netwrangler.Copy.{Disk}
use netwrangler.Systemd.Writer.{Systemd, path_for, device_ext}

module _ (d : Disk) (s : Systemd) where
  abbrev pub network_path : String → String
  network_path k = path_for d s k "network"

  abbrev pub device_path : String → Interface → String
  device_path k v = path_for d s k (device_ext v)

  -- The paths of all files, if the entries carry their keys as names.
  unfoldable pub paths : GoMap Interface → List String
  paths [] = []
  paths ((k, v) ∷ m) = network_path k ∷ device_path k v ∷ paths m

  -- A path of one of an interface's two files.
  abbrev pub IsPathOf : String → Interface → String → Type 0
  IsPathOf k v p = (p ≡ network_path k) ⊎ (p ≡ device_path k v)

  pub mem-paths :
      (m : GoMap Interface) (k : String) (v : Interface) (p : String)
      → get k m ≡ some v
      → IsPathOf k v p
      → Memᴰ p (paths m)
  unfolding get paths
  mem-paths [] k v p h own = cc
  mem-paths ((j, w) ∷ m) k v p h own = elim (Bool-cases (j == k)) [
    | inl here ↦
        let same : IsPathOf j w p =
          subst (λ x. IsPathOf x w p) (sym ((eq_iff j k).0 here))
            (subst (λ x. IsPathOf k x p) (sym (some_cancel (rw here at h))) own) in
        elim same [ inl e ↦ Memᴰ.head e | inr e ↦ Memᴰ.tail (Memᴰ.head e) ]
    | inr other ↦ Memᴰ.tail (Memᴰ.tail (mem-paths m k v p (rw other at h) own))
  ]

  -- What differs at the first entry.
  record AreHeads (j : String) (w : Interface) (m : GoMap Interface) : Type 0 where
    own : network_path j ≢ device_path j w
    others : (p : String) → IsPathOf j w p → ¬ Memᴰ p (paths m)
    rest : all_differ (paths m) ≡ true

  heads :
      (j : String) (w : Interface) (m : GoMap Interface)
      → all_differ (paths ((j, w) ∷ m)) ≡ true
      → AreHeads j w m
  unfolding paths
  heads j w m h =
      let (first, h') = all_differ-cons (network_path j) (device_path j w ∷ paths m) h in
      let (second, h'') = all_differ-cons (device_path j w) (paths m) h' in
      record {
        own = λ e. first (Memᴰ.head e);
        others = λ p own. elim own [
          | inl e ↦ subst (λ x. ¬ Memᴰ x (paths m)) (sym e) (λ m. first (Memᴰ.tail m))
          | inr e ↦ subst (λ x. ¬ Memᴰ x (paths m)) (sym e) second
        ];
        rest = h'';
      }

  pub own_differ :
      (m : GoMap Interface) (k : String) (v : Interface)
      → all_differ (paths m) ≡ true
      → get k m ≡ some v
      → network_path k ≢ device_path k v
  unfolding get
  own_differ [] k v differ h = cc
  own_differ ((j, w) ∷ m) k v differ h = elim (Bool-cases (j == k)) [
    | inl here ↦
        subst (λ x. network_path x ≢ device_path x v) ((eq_iff j k).0 here)
          (subst (λ x. network_path j ≢ device_path j x) (some_cancel (rw here at h))
            (heads j w m differ).own)
    | inr other ↦ own_differ m k v (heads j w m differ).rest (rw other at h)
  ]

  -- A path of the first entry is none of a later one.
  head_differs :
      (i j k : String) (u v w : Interface) (m : GoMap Interface) (p q : String)
      → AreHeads i u m
      → (i == j) ≡ true
      → get j ((i, u) ∷ m) ≡ some v
      → get k m ≡ some w
      → IsPathOf j v p
      → IsPathOf k w q
      → p ≢ q
  unfolding get
  head_differs i j k u v w m p q h here hj hk own other e =
      h.others p
        (subst (λ x. IsPathOf x u p) (sym ((eq_iff i j).0 here))
          (subst (λ x. IsPathOf j x p) (sym (some_cancel (rw here at hj))) own))
        (subst (λ x. Memᴰ x (paths m)) (sym e) (mem-paths m k w q hk other))

  pub paths_differ :
      (m : GoMap Interface) (j k : String) (v w : Interface) (p q : String)
      → all_differ (paths m) ≡ true
      → get j m ≡ some v
      → get k m ≡ some w
      → j ≢ k
      → IsPathOf j v p
      → IsPathOf k w q
      → p ≢ q
  unfolding get
  paths_differ [] j k v w p q differ hj hk apart own other = cc
  paths_differ ((i, u) ∷ m) j k v w p q differ hj hk apart own other = elim (Bool-cases (i == j)) [
    | inl first ↦ elim (Bool-cases (i == k)) [
      | inl second ↦ absurd (apart (sym ((eq_iff i j).0 first) ∙ (eq_iff i k).0 second))
      | inr later ↦
          head_differs i j k u v w m p q (heads i u m differ) first hj (rw later at hk) own other
    ]
    | inr later ↦ elim (Bool-cases (i == k)) [
      | inl second ↦ λ e.
          head_differs i k j u w v m q p (heads i u m differ) second hk (rw later at hj) other own
            (sym e)
      | inr after ↦
          paths_differ m j k v w p q (heads i u m differ).rest (rw later at hj) (rw after at hk)
            apart own other
    ]
  ]
