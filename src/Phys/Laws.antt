-- ===== src/Phys/Laws.antt =====
-- Which physical interfaces MatchPhys selects.
use mathlib.Core.List.Memᴰ
use mathlib.Core.Bool.{false≢true}
use netwrangler.Base.{
  ℕ, String, Bool, true, not, ◌&&◌, ◌||◌, ◌==◌, ◌≡◌, ◌≢◌, refl, sym, ap, ◌∙◌, ◌⊎◌, ◌↔◌, inl, inr,
  none, some, List, [], ◌∷◌, Memᴰ, is_empty, is_empty_iff, arith, eq_iff, Bool-cases, if◌then◌else◌,
  subst, ⊎_elim,
}
use netwrangler.Net.{HardwareAddr, bytes_equal}
use netwrangler.Outcome.{ok}
use netwrangler.Globs.{Compiler}
use netwrangler.Layout.{Interface}
use netwrangler.Phys.{
  Match, Phy, Matcher, compiled, refuses, refuses_all, instance_of, marked, mark_all, match_each,
  match_phys, fill_boot_if,
}

bytes_equal_iff : (a b : List ℕ) → (bytes_equal a b ≡ true) ↔ (a ≡ b)
unfolding bytes_equal
bytes_equal_iff [] [] = ground arith
bytes_equal_iff [] (b ∷ bs) = ground arith
bytes_equal_iff (a ∷ as') [] = ground arith
bytes_equal_iff (a ∷ as') (b ∷ bs) = ground (arith, bytes_equal_iff as' bs)

-- What a matcher that is there says of a text.
abbrev pub Admits : Matcher → String → Type 0
Admits none s = Unit
Admits (some f) s = f s ≡ true

-- A physical interface meets the driver's pattern, the address if one is given, and the name: it is
-- the one booted from, or one of its names meets the pattern.
pub record IsMatch (m : Match) (name_re driver_re : Matcher) (phy : Phy) : Type 0 where
  pub driver : Admits driver_re phy.driver
  pub address : (m.mac_address ≡ []) ⊎ (m.mac_address ≡ phy.hardware_addr)
  pub name :
      (m.name ≡ "bootif") × (phy.boot_if ≡ true)
      ⊎ (m.name ≢ "bootif")
        × (Admits name_re phy.name
            ⊎ Admits name_re phy.stable_name
            ⊎ Admits name_re phy.ordinal_name)

module _ (m : Match) (name_re driver_re : Matcher) where
  abbrev selects : Phy → Bool
  selects phy =
      not (refuses driver_re phy.driver)
      && ((is_empty m.mac_address || bytes_equal m.mac_address phy.hardware_addr)
          && (if m.name == "bootif"
              then phy.boot_if
              else not (refuses_all name_re phy.name phy.stable_name phy.ordinal_name)))

  driver_iff : (re : Matcher) (s : String) → (not (refuses re s) ≡ true) ↔ Admits re s
  driver_iff none s = ground arith
  driver_iff (some f) s = ground arith

  names_iff :
      (re : Matcher) (a b c : String)
      → (not (refuses_all re a b c) ≡ true) ↔ (Admits re a ⊎ Admits re b ⊎ Admits re c)
  names_iff none a b c = ground arith
  names_iff (some f) a b c = ground arith

  selects_iff : (phy : Phy) → (selects phy ≡ true) ↔ IsMatch m name_re driver_re phy
  selects_iff phy = ground (
    arith,
    driver_iff driver_re phy.driver,
    names_iff name_re phy.name phy.stable_name phy.ordinal_name,
    is_empty_iff m.mac_address,
    bytes_equal_iff m.mac_address phy.hardware_addr,
    eq_iff m.name "bootif",
  )

  match_each-cons :
      (tmpl : Interface) (phy : Phy) (phys : List Phy)
      → match_each m name_re driver_re tmpl (phy ∷ phys) ≡ (
          if selects phy
          then instance_of tmpl phy ∷ match_each m name_re driver_re tmpl phys
          else match_each m name_re driver_re tmpl phys)
  unfolding match_each
  match_each-cons tmpl phy phys = ground arith

  -- The loop of MatchPhys gives exactly the instances of the physical interfaces that match.
  match_each_iff :
      (tmpl i : Interface) (phys : List Phy)
      → Memᴰ i (match_each m name_re driver_re tmpl phys) ↔ (
          (phy : Phy) × Memᴰ phy phys
          × IsMatch m name_re driver_re phy
          × (i ≡ instance_of tmpl phy))
  unfolding match_each
  match_each_iff tmpl i [] =
      (λ h. absurd (Memᴰ.not-nil h), λ (phy, h, _, _). absurd (Memᴰ.not-nil h))
  match_each_iff tmpl i (phy ∷ phys) = elim (Bool-cases (selects phy)) [
    | inr other ↦
        rw (match_each-cons tmpl phy phys, other)
          (
            λ h.
                let (p, at, fits, same) = (match_each_iff tmpl i phys).0 h in
                (p, Memᴰ.tail at, fits, same),
            λ (p, at, fits, same).
                ⊎_elim
                  (λ here. absurd (
                    false≢true (
                      sym other
                      ∙ (selects_iff phy).1 (subst (IsMatch m name_re driver_re) here fits))))
                  (λ later. (match_each_iff tmpl i phys).1 (p, later, fits, same))
                  (Memᴰ.cases_cons at),
          )
    | inl chosen ↦
        rw (match_each-cons tmpl phy phys, chosen)
          (
            λ h.
                ⊎_elim (λ here. (phy, Memᴰ.head refl, (selects_iff phy).0 chosen, here))
                  (λ later.
                    let (p, at, fits, same) = (match_each_iff tmpl i phys).0 later in
                    (p, Memᴰ.tail at, fits, same))
                  (Memᴰ.cases_cons h),
            λ (p, at, fits, same).
                ⊎_elim (λ here. Memᴰ.head (same ∙ ap (instance_of tmpl) here))
                  (λ later. Memᴰ.tail ((match_each_iff tmpl i phys).1 (p, later, fits, same)))
                  (Memᴰ.cases_cons at),
          )
  ]

-- If both patterns compile, MatchPhys returns no error and exactly the instances of the
-- physical interfaces that meet the patterns and the address.
pub match_phys_iff :
    (compile : Compiler) (m : Match) (name_re driver_re : Matcher) (tmpl : Interface)
    (phys : List Phy)
    → compiled compile m.name ≡ ok (inl name_re)
    → compiled compile m.driver ≡ ok (inl driver_re)
    → (res : List Interface) × (match_phys compile m tmpl phys ≡ ok (res, none))
      × ((i : Interface)
          → Memᴰ i res ↔ (
              (phy : Phy) × Memᴰ phy phys
              × IsMatch m name_re driver_re phy
              × (i ≡ instance_of tmpl phy)))
unfolding match_phys
match_phys_iff compile m name_re driver_re tmpl phys h k = (
  match_each m name_re driver_re tmpl phys,
  rw (h, match_phys, k) refl,
  λ i. match_each_iff m name_re driver_re tmpl i phys,
)

Memᴰ-mark_all :
    (mac : HardwareAddr) (q : Phy) (phys : List Phy)
    → Memᴰ q (mark_all mac phys) ↔ ((p : Phy) × Memᴰ p phys × (q ≡ marked mac p))
unfolding mark_all
Memᴰ-mark_all mac q [] = (λ h. absurd (Memᴰ.not-nil h), λ (p, at, _). absurd (Memᴰ.not-nil at))
Memᴰ-mark_all mac q (p ∷ phys) = (
  λ h.
      ⊎_elim (λ here. (p, Memᴰ.head refl, here))
        (λ later. let (r, at, same) = (Memᴰ-mark_all mac q phys).0 later in (r, Memᴰ.tail at, same))
        (Memᴰ.cases_cons h),
  λ (r, at, same).
      ⊎_elim (λ here. Memᴰ.head (same ∙ ap (marked mac) here))
        (λ later. Memᴰ.tail ((Memᴰ-mark_all mac q phys).1 (r, later, same))) (Memᴰ.cases_cons at),
)

-- Among physical interfaces that fillBootIf has marked with an address, MatchPhys selects by
-- the name bootif exactly those with that address, if that name compiles.
pub match_phys-fill_boot_if :
    (compile : Compiler) (name_re : Matcher) (tmpl : Interface) (phys : List Phy)
    (mac : HardwareAddr)
    → compiled compile "bootif" ≡ ok (inl name_re)
    → (res : List Interface) × (match_phys compile
          (record { name = "bootif"; mac_address = []; driver = "" })
          tmpl
          (fill_boot_if (some mac) phys)
        ≡ ok (res, none))
      × ((i : Interface)
          → Memᴰ i res ↔ (
              (phy : Phy) × Memᴰ phy phys × (phy.hardware_addr ≡ mac) × (i ≡ instance_of tmpl phy)))
unfolding fill_boot_if compiled
match_phys-fill_boot_if compile name_re tmpl phys mac h =
    let (res, returned, members) =
      match_phys_iff compile (record { name = "bootif"; mac_address = []; driver = "" }) name_re
        none tmpl (fill_boot_if (some mac) phys) h refl in
    (
      res,
      returned,
      λ i. (
        λ at.
            let (q, there, fits, same) = (members i).0 at in
            let (p, here, is_marked) = (Memᴰ-mark_all mac q phys).0 there in
            (p, here, booted p q mac is_marked fits.name, same ∙ ap (instance_of tmpl) is_marked),
        λ (phy, at, same_mac, same). (members i).1 (
          marked mac phy,
          (Memᴰ-mark_all mac (marked mac phy) phys).1 (phy, at, refl),
          record {
            driver = tt;
            address = inl refl;
            name = inl (refl, (bytes_equal_iff phy.hardware_addr mac).1 same_mac);
          },
          same,
        ),
      ),
    )
  where
    booted :
        (p q : Phy) (mac : HardwareAddr)
        → q ≡ marked mac p
        → (◌≡◌ {A = String} "bootif" "bootif") × (q.boot_if ≡ true)
          ⊎ ◌≢◌ {A = String} "bootif" "bootif"
            × (Admits name_re q.name ⊎ Admits name_re q.stable_name ⊎ Admits name_re q.ordinal_name)
        → p.hardware_addr ≡ mac
    booted p q mac is_marked (inl (_, boot)) =
        (bytes_equal_iff p.hardware_addr mac).0 (ap (λ x. x.boot_if) (sym is_marked) ∙ boot)
    booted p q mac is_marked (inr (other, _)) = absurd (other refl)
