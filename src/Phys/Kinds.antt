-- ===== src/Phys/Kinds.antt =====
-- What MatchPhys returns is of the type physical, with the parameters of the template.
use netwrangler.Base.{
  String, Bool, true, false, ◌&&◌, ◌==◌, ◌≡◌, refl, ◌⊎◌, inl, inr, Option, List, [], ◌∷◌, All,
  subst, is_empty, if◌then◌else◌, not,
}
use netwrangler.Outcome.{ok, >>=-eq-ok, ok-injective}
use netwrangler.Net.{bytes_equal}
use netwrangler.Globs.{Compiler}
use netwrangler.Phys.{Match, Matcher, Phy, compiled, match_each, match_phys, refuses, refuses_all}
use netwrangler.Layout.{Interface}

abbrev pub AreInstances : Interface → List Interface → Type 0
AreInstances tmpl is = All (λ i. (i.type ≡ "physical") × (i.parameters ≡ tmpl.parameters)) is

match_each-AreInstances :
    (m : Match) (a b : Matcher) (tmpl : Interface) (phys : List Phy)
    → AreInstances tmpl (match_each m a b tmpl phys)
unfolding match_each
match_each-AreInstances m a b tmpl [] = tt
match_each-AreInstances m a b tmpl (phy ∷ phys) =
    let rest = match_each-AreInstances m a b tmpl phys in
    branches (refuses b phy.driver) _ _ rest (
      branches (not (is_empty m.mac_address) && not (bytes_equal m.mac_address phy.hardware_addr)) _
        _ rest
        (branches (m.name == "bootif") _ _
          (branches (not phy.boot_if) _ _ rest ((refl, refl), rest))
          (branches (refuses_all a phy.name phy.stable_name phy.ordinal_name) _ _ rest
            ((refl, refl), rest))))
  where
    branches :
        (test : Bool) (xs ys : List Interface)
        → AreInstances tmpl xs
        → AreInstances tmpl ys
        → AreInstances tmpl (if test then xs else ys)
    branches true xs ys h k = h
    branches false xs ys h k = k

sum_cases {ℓ κ} :
    {A : Type ℓ} {B : Type κ} (x : A ⊎ B) → ((a : A) × (x ≡ inl a)) ⊎ ((b : B) × (x ≡ inr b))
sum_cases (inl a) = inl (a, refl)
sum_cases (inr b) = inr (b, refl)

pub match_phys-AreInstances :
    (compile : Compiler) (m : Match) (tmpl : Interface) (phys : List Phy) (is : List Interface)
    (failed : Option String)
    → match_phys compile m tmpl phys ≡ ok (is, failed)
    → AreInstances tmpl is
unfolding match_phys
match_phys-AreInstances compile m tmpl phys is failed h =
    let (name_re, e, rest) = >>=-eq-ok (compiled compile m.name) _ h in
    elim (sum_cases name_re) [
      | inr (error, bad) ↦ subst (λ x. AreInstances tmpl x.0) (ok-injective (rw bad at rest)) tt
      | inl (by_name, good) ↦
          let (driver_re, e', rest') = >>=-eq-ok (compiled compile m.driver) _ (rw good at rest) in
          elim (sum_cases driver_re) [
            | inr (error, bad) ↦
                subst (λ x. AreInstances tmpl x.0) (ok-injective (rw bad at rest')) tt
            | inl (by_driver, fine) ↦
                subst (λ x. AreInstances tmpl x.0) (ok-injective (rw fine at rest'))
                  (match_each-AreInstances m by_name by_driver tmpl phys)
          ]
    ]
