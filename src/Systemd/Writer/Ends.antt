-- ===== src/Systemd/Writer/Ends.antt =====
-- How deep the recursion of writeOut goes: each call deeper has written one more of the names that
-- interfaces of the layout have, among them the empty one, which a missing interface has.
use netwrangler.Base.{
  ℕ, zero, suc, ◌+◌, ◌<◌, String, true, false, ◌==◌, ◌≡◌, refl, sym, ap, ◌∙◌, inl, inr, Bool, List,
  [], ◌∷◌, Memᴰ, contains, length, arith, Bool-cases, Option-cases, subst,
}
use netwrangler.GoMap.{GoMap, get, get_or}
use netwrangler.Value.{Value, str, bool}
use netwrangler.Net.{Gnet}
use netwrangler.Outcome.{
  Outcome, ok, panic, each, ◌>>=◌, IsDone, ok-IsDone, panic-IsDone, >>=-IsDone, if-IsDone,
  each-IsDone, each_inv, >>=-eq-ok, ok-injective,
}
use netwrangler.Validators.{Printer}
use netwrangler.Layout.{Interface, new_interface}
use netwrangler.Copy.{Disk}
use netwrangler.Systemd.{Output, is_primary, write_parent, write_parents}
use netwrangler.Systemd.Devices.{is_woken, write_phy, write_bond, write_bridge, write_device}
use netwrangler.Systemd.Devices.Laws.{write_bond_prints, write_bridge_prints}
use netwrangler.Systemd.Writer.{Systemd, Run, create, write_files, write_out, write_roots}
use netwrangler.Systemd.Writer.Unwritten.{
  Within, unwritten, unwritten_le, unwritten_lt, unwritten-le-length,
}

is_woken-IsDone : (i : Interface) → IsDone (is_woken i)
unfolding is_woken
is_woken-IsDone i = elim (Option-cases (get "wakeonlan" i.parameters)) [
  | inl missing ↦ rw (missing, is_woken) (ok-IsDone false)
  | inr (v, here) ↦ rw (here, is_woken) (asserted v)
]
  where
    asserted :
        (v : Value)
        → IsDone {A = Bool} (elim v [ bool b ↦ ok b | _ ↦ panic "interface conversion" ])
    asserted (bool b) = ok-IsDone b
    asserted _ = panic-IsDone "interface conversion"

is_primary-IsDone : (i parent : Interface) → IsDone (is_primary i parent)
unfolding is_primary
is_primary-IsDone i parent = elim (Option-cases (get "primary" parent.parameters)) [
  | inl missing ↦ rw (missing, is_primary) (ok-IsDone false)
  | inr (v, here) ↦ rw (here, is_primary) (asserted v)
]
  where
    asserted :
        (v : Value)
        → IsDone {A = Bool} (elim v [ str s ↦ ok (s == i.name) | _ ↦ panic "interface conversion" ])
    asserted (str s) = ok-IsDone (s == i.name)
    asserted _ = panic-IsDone "interface conversion"

write_phy-IsDone : (g : Gnet) (i : Interface) (o : Output) → IsDone (write_phy g i o)
unfolding write_phy
write_phy-IsDone g i o = >>=-IsDone (is_woken i) _ (is_woken-IsDone i) (λ b e. ok-IsDone _)

bond-IsDone : (g : Gnet) (t : Printer) (i : Interface) (o : Output) → IsDone (write_bond g t i o)
bond-IsDone g t i o = rw (write_bond_prints g t i o) (ok-IsDone _)

bridge-IsDone :
    (g : Gnet) (t : Printer) (i : Interface) (o : Output) → IsDone (write_bridge g t i o)
bridge-IsDone g t i o = rw (write_bridge_prints g t i o) (ok-IsDone _)

write_device-IsDone :
    (g : Gnet) (t : Printer) (i : Interface) (o : Output) → IsDone (write_device g t i o)
unfolding write_device
write_device-IsDone g t i o = if-IsDone (i.type == "physical") _ _ (write_phy-IsDone g i o) (
    if-IsDone (i.type == "bond") _ _ (bond-IsDone g t i o) (
      if-IsDone (i.type == "bridge") _ _ (bridge-IsDone g t i o)
        (if-IsDone (i.type == "vlan") _ _ (ok-IsDone _) (ok-IsDone _))))

write_parent-IsDone :
    (interfaces : GoMap Interface) (i : Interface) (name : String) (o : Output)
    → IsDone (write_parent interfaces i name o)
unfolding write_parent
write_parent-IsDone interfaces i name o =
    let parent = get_or interfaces name new_interface in
    if-IsDone (parent.type == "bridge") _ _ (ok-IsDone _) (
      if-IsDone (parent.type == "bond") _ _
        (>>=-IsDone (is_primary i parent) _ (is_primary-IsDone i parent) (λ b e. ok-IsDone _))
        (if-IsDone (parent.type == "vlan") _ _ (ok-IsDone _) (ok-IsDone _)))

write_parents-IsDone :
    (interfaces : GoMap Interface) (i : Interface) (parents : GoMap (List String)) (o : Output)
    → IsDone (write_parents interfaces i parents o)
unfolding write_parents
write_parents-IsDone interfaces i parents o = elim (Option-cases (get i.name parents)) [
  | inl free ↦ rw (free, write_parents) (ok-IsDone o)
  | inr (names, owned) ↦
      rw (owned, write_parents)
        (each-IsDone (write_parent interfaces i) (λ o. Unit {0})
          (λ name o' u. write_parent-IsDone interfaces i name o') (λ name o' o'' u e. tt) names o
          tt)
]

module _ (g : Gnet) (t : Printer) (s : Systemd) where
  write_files-IsDone :
      (i : Interface) (paths : String × String) (r : Run) → IsDone (write_files g t s i paths r)
  unfolding write_files
  write_files-IsDone i (nw, link) r =
      >>=-IsDone (write_device g t i _) _ (write_device-IsDone g t i _) (λ device e.
        >>=-IsDone (write_parents _ i _ _) _ (write_parents-IsDone _ i _ _) (λ o e'. ok-IsDone _))

  write_files-written :
      (i : Interface) (paths : String × String) (r r' : Run)
      → write_files g t s i paths r ≡ ok r'
      → r'.written ≡ r.written
  unfolding write_files
  write_files-written i (nw, link) r r' h =
      let (device, e, rest) = >>=-eq-ok (write_device g t i _) _ h in
      let (o, e', done) = >>=-eq-ok (write_parents _ i _ _) _ rest in
      sym (ap (λ x. x.written) (ok-injective done))

-- The names that interfaces of the layout have.
unfoldable names_of : GoMap Interface → List String
names_of [] = "" ∷ []
names_of ((k, v) ∷ m) = v.name ∷ names_of m

length-names_of : (m : GoMap Interface) → length (names_of m) ≡ length m + 1
unfolding names_of
length-names_of [] = refl
length-names_of ((k, v) ∷ m) = omega (arith, length-names_of m)

get_or-names_of :
    (m : GoMap Interface) (k : String) → Memᴰ (get_or m k new_interface).name (names_of m)
unfolding names_of get
get_or-names_of [] k = Memᴰ.head refl
get_or-names_of ((j, v) ∷ m) k = elim (Bool-cases (j == k)) [
  | inl here ↦ rw (here, get_or, get) (Memᴰ.head refl)
  | inr other ↦ rw (other, get_or, get) (Memᴰ.tail (get_or-names_of m k))
]

module _ (d : Disk) (g : Gnet) (t : Printer) (s : Systemd) where
  abbrev entered : Interface → Run → Run
  entered i r = (create d s i (record r { written = i.name ∷ r.written })).0

  abbrev visit : ℕ → String → Run → Outcome Run
  visit fuel name = write_out d g t s fuel (get_or s.layout.interfaces name new_interface)

  entered-written : (i : Interface) (r : Run) → (entered i r).written ≡ i.name ∷ r.written
  unfolding create
  entered-written i r = refl

  -- The ways in which a call goes.
  data Call (fuel : ℕ) (i : Interface) (r : Run) : Type 0 where
    known :
        contains i.name r.written ≡ true → write_out d g t s (suc fuel) i r ≡ ok r → Call fuel i r
    blocked :
        contains i.name r.written ≡ false
        → write_out d g t s (suc fuel) i r ≡ ok (entered i r)
        → Call fuel i r
    deeper :
        (paths : String × String)
        → contains i.name r.written ≡ false
        → write_out d g t s (suc fuel) i r
          ≡ (write_files g t s i paths (entered i r) >>= each (visit fuel) i.interfaces)
        → Call fuel i r

  write_out-Call : (fuel : ℕ) (i : Interface) (r : Run) → Call fuel i r
  unfolding write_out
  write_out-Call fuel i r = elim (Bool-cases (contains i.name r.written)) [
    | inl old ↦ known old (rw (old, write_out) refl)
    | inr new ↦
        let made = create d s i (record r { written = i.name ∷ r.written }) in
        elim (Option-cases made.1) [
          | inl shut ↦ blocked new (rw (new, write_out, shut) refl)
          | inr (paths, opens) ↦ deeper paths new (rw (new, write_out, opens) refl)
        ]
  ]

  write_out-Within :
      (fuel : ℕ) (i : Interface) (r r' : Run)
      → write_out d g t s fuel i r ≡ ok r'
      → Within r.written r'.written
  unfolding write_out
  write_out-Within zero i r r' h = cc
  write_out-Within (suc fuel) i r r' h = elim (write_out-Call fuel i r) [
    | known old e ↦ subst (λ x. Within r.written x.written) (ok-injective (sym e ∙ h)) (λ k m. m)
    | blocked new e ↦
        subst (λ x. Within r.written x.written) (ok-injective (sym e ∙ h))
          (rw (entered-written i r) (λ k. Memᴰ.tail))
    | deeper paths new e ↦
        let (r'', writes, loop) =
          >>=-eq-ok (write_files g t s i paths (entered i r)) (each (visit fuel) i.interfaces)
            (sym e ∙ h) in
        each_inv (visit fuel) (λ x. Within r.written x.written) i.interfaces
          (λ name m x x' p step k at.
            write_out-Within fuel (get_or s.layout.interfaces name new_interface) x x' step k
              (p k at))
          r'' r'
          (rw (write_files-written g t s i paths (entered i r) r'' writes, entered-written i r)
            (λ k. Memᴰ.tail))
          loop
  ]

  abbrev left : Run → ℕ
  left r = unwritten (names_of s.layout.interfaces) r.written

  write_out-IsDone :
      (fuel : ℕ) (i : Interface) (r : Run)
      → Memᴰ i.name (names_of s.layout.interfaces)
      → left r < fuel
      → IsDone (write_out d g t s fuel i r)
  write_out-IsDone zero i r m enough = absurd (omega (arith, enough))
  write_out-IsDone (suc fuel) i r m enough = elim (write_out-Call fuel i r) [
    | known old e ↦ rw e (ok-IsDone r)
    | blocked new e ↦ rw e (ok-IsDone (entered i r))
    | deeper paths new e ↦ rw e (
        >>=-IsDone (write_files g t s i paths (entered i r)) (each (visit fuel) i.interfaces)
          (write_files-IsDone g t s i paths (entered i r))
          (λ r' writes.
            each-IsDone (visit fuel) (λ x. left x < fuel)
              (λ name x few.
                write_out-IsDone fuel (get_or s.layout.interfaces name new_interface) x
                  (get_or-names_of s.layout.interfaces name) few)
              (λ name x x' few step. omega (
                arith,
                few,
                unwritten_le (names_of s.layout.interfaces) x.written x'.written (
                    write_out-Within fuel (get_or s.layout.interfaces name new_interface) x x'
                      step),
              ))
              i.interfaces r'
              (rw (write_files-written g t s i paths (entered i r) r' writes, entered-written i r)
                (omega (
                  arith,
                  enough,
                  unwritten_lt (names_of s.layout.interfaces) i.name r.written m new,
                )))))
  ]

  -- Whatever the layout and the disk, the fuel that the loop of Write over the roots is given
  -- is enough: it ends, if need be by a panic.
  pub write_roots-IsDone : (r : Run) → IsDone (write_roots d g t s r)
  unfolding write_roots
  write_roots-IsDone r =
      each-IsDone (visit (length s.layout.interfaces + 2)) (λ x. Unit {0})
        (λ name x u.
          write_out-IsDone (length s.layout.interfaces + 2)
            (get_or s.layout.interfaces name new_interface) x
            (get_or-names_of s.layout.interfaces name)
            (omega (
              arith,
              unwritten-le-length (names_of s.layout.interfaces) x.written,
              length-names_of s.layout.interfaces,
            )))
        (λ name x x' u step. tt) s.layout.roots r tt
