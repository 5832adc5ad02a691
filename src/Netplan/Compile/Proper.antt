-- ===== src/Netplan/Compile/Proper.antt =====
-- Maps of interfaces whose entries carry their keys as names and have a property, and how Compile adds
-- to them and rewrites them.
use netwrangler.Base.{
  All, String, ◌==◌, ◌≡◌, refl, sym, ap, ◌∙◌, inl, inr, some, List, [], ◌∷◌, Bool-cases, str_cases,
  subst, some_cancel,
}
use netwrangler.GoMap.{GoMap, get, put, has}
use netwrangler.GoMap.Laws.{get-put_self, get-put_other}
use netwrangler.Value.{Value}
use netwrangler.Phys.Kinds.{AreInstances}
use netwrangler.Layout.{Interface}
use netwrangler.Netplan.Compile.{add_found, resolve}

module _ (Q : String → GoMap Value → Type 0) where
  -- Every entry carries its key as its name, and has the property.
  abbrev pub IsProper : GoMap Interface → Type 0
  IsProper m =
      (k : String) (v : Interface) → get k m ≡ some v → (v.name ≡ k) × Q v.type v.parameters

  pub put-IsProper :
      (m : GoMap Interface) (k : String) (i : Interface)
      → i.name ≡ k
      → Q i.type i.parameters
      → IsProper m
      → IsProper (put k i m)
  put-IsProper m k i name kind h j v here = elim (str_cases k j) [
    | inl same ↦
        let e : i ≡ v =
          some_cancel
            (sym (get-put_self k i m) ∙ subst (λ x. get x (put k i m) ≡ some v) (sym same) here) in
        (ap (λ x. x.name) (sym e) ∙ name ∙ same, subst (λ x. Q x.type x.parameters) e kind)
    | inr other ↦ h j v (sym (get-put_other k j i m other) ∙ here)
  ]

  abbrev pub AreFit : List Interface → Type 0
  AreFit is = All (λ i. Q i.type i.parameters) is

  pub instances-AreFit :
      (tmpl : Interface) (is : List Interface)
      → Q "physical" tmpl.parameters
      → AreInstances tmpl is
      → AreFit is
  instances-AreFit tmpl [] q h = tt
  instances-AreFit tmpl (i ∷ is) q ((type, same), h) = (
    subst (λ x. Q x i.parameters) (sym type) (subst (Q "physical") (sym same) q),
    instances-AreFit tmpl is q h,
  )

  pub add_found-IsProper :
      (is : List Interface) (m : GoMap Interface)
      → AreFit is
      → IsProper m
      → IsProper (add_found is m)
  unfolding add_found
  add_found-IsProper [] m h p = p
  add_found-IsProper (i ∷ is) m (type, h) p = elim (Bool-cases (has i.name m)) [
    | inl old ↦ rw old (add_found-IsProper is m h p)
    | inr new ↦ rw new (add_found-IsProper is _ h (put-IsProper m i.name _ refl type p))
  ]

resolved :
    (children : GoMap (List String)) (m : GoMap Interface) (k : String) (v : Interface)
    → get k (resolve children m) ≡ some v
    → (i : Interface) × (get k m ≡ some i)
      × (v.name ≡ i.name)
      × (v.type ≡ i.type)
      × (v.parameters ≡ i.parameters)
unfolding resolve get
resolved children [] k v here = cc
resolved children ((j, i) ∷ m) k v here = elim (Bool-cases (j == k)) [
  | inl same ↦
      let e = some_cancel (rw same at here) in
      rw same (
        i,
        refl,
        ap (λ x. x.name) (sym e),
        ap (λ x. x.type) (sym e),
        ap (λ x. x.parameters) (sym e),
      )
  | inr other ↦ rw other (resolved children m k v (rw other at here))
]

pub resolve-IsProper :
    (Q : String → GoMap Value → Type 0) (children : GoMap (List String)) (m : GoMap Interface)
    → IsProper Q m
    → IsProper Q (resolve children m)
resolve-IsProper Q children m h k v here =
    let (i, there, name, type, parameters) = resolved children m k v here in
    (
      name ∙ (h k i there).0,
      subst (λ x. Q x v.parameters) (sym type) (subst (Q i.type) (sym parameters) (h k i there).1),
    )
