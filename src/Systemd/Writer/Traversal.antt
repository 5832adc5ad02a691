-- ===== src/Systemd/Writer/Traversal.antt =====
-- The recursion of writeOut over a layout all of whose interfaces it can write.
use mathlib.Core.Bool.{false≢true}
use mathlib.Core.List.Memᴰ
use netwrangler.Base.{
  ℕ, zero, suc, ◌+◌, ◌<◌, String, true, false, ◌≡◌, refl, sym, ◌∙◌, ◌⊎◌, inl, inr, some, List, [],
  ◌∷◌, Memᴰ, contains, contains_iff, length, arith, Bool-cases, subst, ⊎_elim, some_cancel,
}
use netwrangler.GoMap.{get, get_or, put, keys}
use netwrangler.GoMap.Laws.{length-keys, mem-keys_iff}
use netwrangler.Net.{Gnet}
use netwrangler.Outcome.{Outcome, ok, each}
use netwrangler.Validators.{Printer}
use netwrangler.Layout.{Interface, new_interface}
use netwrangler.Copy.{Disk}
use netwrangler.Systemd.Writer.{Systemd, Run, create, write_out, write_roots}
use netwrangler.Systemd.Writer.Holding.{
  IsReady, Holds, HoldsAll, keyed_by_name, own_files, other_files, written_files, written_files-own,
}
use netwrangler.Systemd.Writer.Unwritten.{
  unwritten, unwritten_le, unwritten_lt, unwritten-le-length, Within,
}
use netwrangler.Systemd.Writer.Paths.{network_path, device_path}
use netwrangler.Systemd.Writer.Rendered.{write_files_prints}

module _ (d : Disk) (g : Gnet) (t : Printer) (s : Systemd) where
  -- What a call of writeOut has added.
  pub record Adds (r r' : Run) : Type 0 where
    pub silent : r'.err ≡ r.err
    pub holds : HoldsAll d g t s r'
    pub kept : Within r.written r'.written
    pub closed :
        (k : String) (v : Interface)
        → get k s.layout.interfaces ≡ some v
        → Memᴰ k r'.written
        → Memᴰ k r.written ⊎ Within v.interfaces r'.written

  Adds-refl : (r : Run) → HoldsAll d g t s r → Adds r r
  Adds-refl r h = record { silent = refl; holds = h; kept = λ k m. m; closed = λ k v here m. inl m }

  Adds-trans : {r r' r'' : Run} → Adds r r' → Adds r' r'' → Adds r r''
  Adds-trans a b = record {
    silent = b.silent ∙ a.silent;
    holds = b.holds;
    kept = λ k m. b.kept k (a.kept k m);
    closed = λ k v here m.
        ⊎_elim
          (λ old. ⊎_elim inl (λ done. inr (λ x l. b.kept x (done x l))) (a.closed k v here old)) inr
          (b.closed k v here m);
  }

  module _ (ready : IsReady d s) where
    -- The state once an interface that was not written yet is.
    abbrev entered : Interface → Run → Run
    entered v r = record r { written = v.name ∷ r.written; files = written_files d g t s v r.files }

    entered-HoldsAll :
        (v : Interface) (r : Run)
        → get v.name s.layout.interfaces ≡ some v
        → contains v.name r.written ≡ false
        → HoldsAll d g t s r
        → HoldsAll d g t s (entered v r)
    entered-HoldsAll v r here new h = record {
      written = λ k m. (elim (Memᴰ.cases_cons m) [
        | inl e ↦
            subst
              (λ x.
                (w : Interface) × (get x s.layout.interfaces ≡ some w)
                × Holds d g t s x w (written_files d g t s v r.files))
              (sym e) (v, here, own_files d g t s ready v r.files here)
        | inr old ↦
            let (w, there, held) = h.written k old in
            (
              w,
              there,
              other_files d g t s ready k v w r.files here there
                  (λ e. false≢true (
                    sym new
                    ∙ (contains_iff v.name r.written).1
                        (subst (λ x. Memᴰ x r.written) (sym e) old)))
                  held,
            )
      ]);
      own = written_files-own d g t s ready v r.files here h.own;
    }

    create_opens :
        (v : Interface) (r : Run)
        → get v.name s.layout.interfaces ≡ some v
        → create d s v r ≡ (
          record r {
            files = put (device_path d s v.name v) [] (put (network_path d s v.name) [] r.files);
          },
          some (network_path d s v.name, device_path d s v.name v),
        )
    unfolding create
    create_opens v r here = let (net, dev) = ready.opens v.name v here in rw (net, dev, create) refl

    -- One call of writeOut at an interface that was not written yet.
    write_out_enters :
        (fuel : ℕ) (v : Interface) (r : Run)
        → get v.name s.layout.interfaces ≡ some v
        → contains v.name r.written ≡ false
        → write_out d g t s (suc fuel) v r
          ≡ each
              (λ name. write_out d g t s fuel (get_or s.layout.interfaces name new_interface))
              v.interfaces
              (entered v r)
    unfolding write_out
    write_out_enters fuel v r here new =
        let creates = create_opens v (record r { written = v.name ∷ r.written }) here in
        rw
          (
            new,
            write_out,
            creates,
            creates,
            write_files_prints g t s v _ _ _ (ready.writable v.name v here),
          )
          refl

    entered-Adds :
        (v : Interface) (r r' : Run)
        → get v.name s.layout.interfaces ≡ some v
        → contains v.name r.written ≡ false
        → Adds (entered v r) r'
        → Within v.interfaces r'.written
        → Adds r r'
    entered-Adds v r r' here new a subs = record {
      silent = a.silent;
      holds = a.holds;
      kept = λ k m. a.kept k (Memᴰ.tail m);
      closed = λ k w there m.
          ⊎_elim
            (λ now.
              ⊎_elim
                (λ e. inr (
                  subst (λ x. Within x.interfaces r'.written)
                    (some_cancel
                      (sym here ∙ subst (λ x. get x s.layout.interfaces ≡ some w) e there))
                    subs))
                inl (Memᴰ.cases_cons now))
            inr (a.closed k w there m);
    }

    -- What a call, or a loop of calls, comes to.
    abbrev pub Reaches : Outcome Run → Run → List String → Type 0
    Reaches o r names = (r' : Run) × (o ≡ ok r') × Adds r r' × Within names r'.written

    abbrev visit : ℕ → String → Run → Outcome Run
    visit fuel name = write_out d g t s fuel (get_or s.layout.interfaces name new_interface)

    visits_add :
        (fuel bound : ℕ)
        → ((k : String) (v : Interface) (r : Run)
            → get k s.layout.interfaces ≡ some v
            → unwritten (keys s.layout.interfaces) r.written < bound
            → HoldsAll d g t s r
            → Reaches (write_out d g t s fuel v r) r (k ∷ []))
        → (names : List String) (r : Run)
        → ((x : String) → Memᴰ x names → (c : Interface) × (get x s.layout.interfaces ≡ some c))
        → unwritten (keys s.layout.interfaces) r.written < bound
        → HoldsAll d g t s r
        → Reaches (each (visit fuel) names r) r names
    unfolding each
    visits_add fuel bound call [] r defined enough h =
        (r, refl, Adds-refl r h, λ k m. absurd (Memᴰ.not-nil m))
    visits_add fuel bound call (x ∷ xs) r defined enough h =
        let (c, here) = defined x (Memᴰ.head refl) in
        let (r', first, a, found) = call x c r here enough h in
        let fewer = unwritten_le (keys s.layout.interfaces) r.written r'.written a.kept in
        let (r'', rest, b, others) =
          visits_add fuel bound call xs r' (λ y m. defined y (Memᴰ.tail m))
            (omega (arith, fewer, enough)) a.holds in
        (
          r'',
          rw (here, get_or, first) rest,
          Adds-trans a b,
          λ k m. ⊎_elim (λ e. b.kept k (found k (Memᴰ.head e))) (others k) (Memᴰ.cases_cons m),
        )

    write_out_known :
        (fuel : ℕ) (v : Interface) (r : Run)
        → contains v.name r.written ≡ true
        → write_out d g t s (suc fuel) v r ≡ ok r
    unfolding write_out
    write_out_known fuel v r old = rw (old, write_out) refl

    mem_keys :
        (k : String) (v : Interface)
        → get k s.layout.interfaces ≡ some v
        → Memᴰ k (keys s.layout.interfaces)
    mem_keys k v here = ground (arith, mem-keys_iff k s.layout.interfaces)

    write_out_adds :
        (fuel : ℕ) (k : String) (v : Interface) (r : Run)
        → get k s.layout.interfaces ≡ some v
        → unwritten (keys s.layout.interfaces) r.written < fuel
        → HoldsAll d g t s r
        → Reaches (write_out d g t s fuel v r) r (k ∷ [])
    write_out_adds zero k v r here enough h = absurd (omega (arith, enough))
    write_out_adds (suc fuel) k v r here enough h =
        let here' = keyed_by_name d g t s ready k v here in
        elim (Bool-cases (contains v.name r.written)) [
          | inl old ↦ (
            r,
            write_out_known fuel v r old,
            Adds-refl r h,
            λ j m.
                subst (λ x. Memᴰ x r.written) (ready.named k v here ∙ sym (Memᴰ.eq_of_singleton m))
                  ((contains_iff v.name r.written).0 old),
          )
          | inr new ↦
              let (r', e, a, subs) =
                visits_add fuel fuel (write_out_adds fuel) v.interfaces (entered v r)
                  (ready.subs k v here)
                  (omega (
                    arith,
                    enough,
                    unwritten_lt (keys s.layout.interfaces) v.name r.written
                        (mem_keys v.name v here') new,
                  ))
                  (entered-HoldsAll v r here' new h) in
              (
                r',
                write_out_enters fuel v r here' new ∙ e,
                entered-Adds v r r' here' new a subs,
                λ j m.
                    subst (λ x. Memᴰ x r'.written)
                      (ready.named k v here ∙ sym (Memᴰ.eq_of_singleton m))
                      (a.kept v.name (Memᴰ.head refl)),
              )
        ]

    -- The loop over the roots, if all of them are there.
    pub write_roots_adds :
        (r : Run)
        → ((x : String)
            → Memᴰ x s.layout.roots
            → (c : Interface) × (get x s.layout.interfaces ≡ some c))
        → HoldsAll d g t s r
        → Reaches (write_roots d g t s r) r s.layout.roots
    unfolding write_roots
    write_roots_adds r defined h =
        visits_add (length s.layout.interfaces + 2) (length s.layout.interfaces + 2)
          (write_out_adds (length s.layout.interfaces + 2)) s.layout.roots r defined
          (omega (
            arith,
            unwritten-le-length (keys s.layout.interfaces) r.written,
            length-keys s.layout.interfaces,
          ))
          h
