-- ===== src/Layout/Members/Doubling.antt =====
-- How many entries Child2Parent gets for the vlans on one link.
use netwrangler.Base.{
  ℕ, suc, ◌+◌, String, ◌≡◌, refl, ap, ◌∙◌, some, List, [], ◌∷◌, ◌++◌, All, arith, eq_iff, length,
  length-append,
}
use netwrangler.Sort.{insert, sort}
use netwrangler.GoMap.{GoMap, get, put, get_or}
use netwrangler.GoMap.Laws.{get_or-put}
use netwrangler.Outcome.{ok, each}
use netwrangler.Layout.{Interface, new_interface}
use netwrangler.Layout.Members.{Progress, claim, add_parent}

length-insert : (x : String) (xs : List String) → length (insert x xs) ≡ suc (length xs)
unfolding insert
length-insert x [] = refl
length-insert x (y ∷ ys) = ground (arith, length-insert x ys)

length-sort : (xs : List String) → length (sort xs) ≡ length xs
unfolding sort
length-sort [] = refl
length-sort (x ∷ xs) = length-insert x (sort xs) ∙ ap (λ n. suc n) (length-sort xs)

module _ (interfaces : GoMap Interface) (i : Interface) (vlan : i.type ≡ "vlan")
    (child : Interface) where
  abbrev entries : Progress → ℕ
  entries p = length (get_or p.parents child.name [])

  abbrev claimed : Progress → Progress
  claimed p = record p {
    parents = put child.name (sort (get_or p.parents child.name [] ++ i.name ∷ [])) p.parents;
  }

  entries-claimed : (p : Progress) → entries (claimed p) ≡ entries p + 1
  entries-claimed p = ground (
    arith,
    get_or-put child.name child.name (sort (get_or p.parents child.name [] ++ i.name ∷ [])) []
        p.parents,
    eq_iff child.name child.name,
    length-sort (get_or p.parents child.name [] ++ i.name ∷ []),
    length-append (get_or p.parents child.name []) (i.name ∷ []),
  )

  claim-claimed :
      (other : String) (p : Progress)
      → (get_or interfaces other new_interface).type ≡ "vlan"
      → claim interfaces i child other p ≡ ok (claimed p)
  unfolding claim
  claim-claimed other p h = rw (vlan, h) refl

  claims_count :
      (others : List String) (p : Progress)
      → All (λ o. (get_or interfaces o new_interface).type ≡ "vlan") others
      → (p' : Progress) × (each (claim interfaces i child) others p ≡ ok p')
        × (p'.err ≡ p.err)
        × (entries p' ≡ entries p + length others)
  unfolding each
  claims_count [] p h = (p, refl, refl, omega arith)
  claims_count (o ∷ others) p (h, hs) =
      let (p', e, same, n) = claims_count others (claimed p) hs in
      (p', rw (claim-claimed o p h) e, same, omega (arith, n, entries-claimed p))

-- If a vlan is built on an interface that has its key for its name and that some parents are
-- recorded for, vlans all of them, then nothing is reported, and twice as many parents are
-- recorded as before.
pub add_parent_doubles :
    (interfaces : GoMap Interface) (i child : Interface) (name : String) (p : Progress)
    (others : List String)
    → i.type ≡ "vlan"
    → child.name ≡ name
    → get name p.parents ≡ some others
    → All (λ o. (get_or interfaces o new_interface).type ≡ "vlan") others
    → (p' : Progress) × (add_parent interfaces i child name p ≡ ok p')
      × (p'.err ≡ p.err)
      × (length (get_or p'.parents name []) ≡ length others + length others)
unfolding add_parent
add_parent_doubles interfaces i child name p others vlan named found h =
    let (p', e, same, n) = claims_count interfaces i vlan child others p h in
    (
      p',
      rw (found, add_parent) e,
      same,
      rw (← named) (n ∙ ap (λ os. length os + length others) listed),
    )
  where
    listed : get_or p.parents child.name [] ≡ others
    listed = rw (named, found, get_or) refl
