-- ===== src/Outcome/Returns.antt =====
-- When a call returns: a chain of calls if each of them does, and a loop if each round does.
use netwrangler.Base.{◌≡◌, refl, ◌↔◌, List, [], ◌∷◌, All}
use netwrangler.Outcome.{Outcome, ok, ◌>>=◌, >>=-eq-ok, each}

-- The call returns.
abbrev pub Returns {ℓ} : {A : Type ℓ} → Outcome A → Type ℓ
Returns {A} o = (a : A) × (o ≡ ok a)

pub >>=-Returns {ℓ κ} :
    {A : Type ℓ} {B : Type κ} (first : Outcome A) (next : A → Outcome B)
    → Returns (first >>= next) ↔ ((a : A) × (first ≡ ok a) × Returns (next a))
>>=-Returns first next = (
  λ (b, e). let (a, here, rest) = >>=-eq-ok first next e in (a, here, (b, rest)),
  λ (a, here, (b, rest)). (b, rw here rest),
)

pub bind-Returns {ℓ κ} :
    {A : Type ℓ} {B : Type κ} (first : Outcome A) (next : A → B)
    → Returns (first >>= λ a. ok (next a)) ↔ Returns first
bind-Returns first next = (
  λ (b, e). let (a, here, rest) = >>=-eq-ok first (λ a. ok (next a)) e in (a, here),
  λ (a, here). rw here (_, refl),
)

-- Whether a round returns is a matter of its element alone.
pub each-Returns {ℓ κ μ} :
    {A : Type ℓ} {S : Type κ} (f : A → S → Outcome S) (P : A → Type μ)
    → ((x : A) (s : S) → Returns (f x s) ↔ P x)
    → (xs : List A) (s : S) → Returns (each f xs s) ↔ All P xs
unfolding each
each-Returns f P round [] s = (λ h. tt, λ h. (s, refl))
each-Returns f P round (x ∷ xs) s = (
  λ h.
      (let (s', first, rest) = (>>=-Returns (f x s) (each f xs)).0 h in
        ((round x s).0 (s', first), (each-Returns f P round xs s').0 rest)),
  λ (p, ps).
      (let (s', first) = (round x s).1 p in
        (>>=-Returns (f x s) (each f xs)).1 (s', first, (each-Returns f P round xs s').1 ps)),
)
