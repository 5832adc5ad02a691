-- ===== src/Outcome.antt =====
-- What a call comes to: a value, a panic with its message, or (for a model that recurs on fuel) fuel
-- that ran out. Where fuel is used, a theorem excludes the last.
pub mod Returns
use netwrangler.Base.{
  String, ◌≡◌, ◌≢◌, refl, ap, subst, Memᴰ, List, [], ◌∷◌, Bool, true, false, if◌then◌else◌,
}

pub data Outcome {ℓ} (A : Type ℓ) : Type ℓ where
  ok : A → Outcome A
  panic : String → Outcome A
  out_of_fuel : Outcome A

infixl 5 ◌>>=◌
abbrev pub ◌>>=◌ {ℓ κ} : {A : Type ℓ} {B : Type κ} → Outcome A → (A → Outcome B) → Outcome B
panic message >>= next = panic message
out_of_fuel >>= next = out_of_fuel
ok value >>= next = next value

-- A bind that returns went through both parts.
pub >>=-eq-ok {ℓ κ} :
    {A : Type ℓ} {B : Type κ} (first : Outcome A) (next : A → Outcome B) {result : B}
    → (first >>= next) ≡ ok result
    → (middle : A) × (first ≡ ok middle) × (next middle ≡ ok result)
>>=-eq-ok (panic message) next h = cc
>>=-eq-ok out_of_fuel next h = cc
>>=-eq-ok (ok value) next h = (value, refl, h)

pub ok-injective {ℓ} : {A : Type ℓ} {a b : A} → ok a ≡ ok b → a ≡ b
ok-injective {A} {a} h = ap (value_or a) h
  where
    value_or : A → Outcome A → A
    value_or d (ok x) = x
    value_or d (panic _) = d
    value_or d out_of_fuel = d

-- A loop over a list whose body carries a state: `for _, x := range xs { s = f(x, s) }`.
unfoldable pub each {ℓ κ} : {A : Type ℓ} {S : Type κ} → (A → S → Outcome S) → List A → S → Outcome S
each f [] s = ok s
each f (x ∷ xs) s = f x s >>= λ s'. each f xs s'

module _ {ℓ κ} {A : Type ℓ} {S : Type κ} (f : A → S → Outcome S) where
  -- What every round keeps holds at the end.
  pub each_inv {μ} :
      (P : S → Type μ) (xs : List A)
      → ((x : A) → Memᴰ x xs → (s s' : S) → P s → f x s ≡ ok s' → P s')
      → (s s' : S) → P s
      → each f xs s ≡ ok s'
      → P s'
  unfolding each
  each_inv P [] keep s s' p h = subst P (ok-injective h) p
  each_inv P (x ∷ xs) keep s s' p h =
      let (t, first, rest) = >>=-eq-ok (f x s) (each f xs) h in
      each_inv P xs (λ y m. keep y (Memᴰ.tail m)) t s' (keep x (Memᴰ.head refl) s t p first) rest

  -- If every round returns, so does the loop.
  pub each_returns :
      ((x : A) (s : S) → (s' : S) × (f x s ≡ ok s'))
      → (xs : List A) (s : S) → (s' : S) × (each f xs s ≡ ok s')
  unfolding each
  each_returns returns [] s = (s, refl)
  each_returns returns (x ∷ xs) s =
      let (t, first) = returns x s in
      let (s', rest) = each_returns returns xs t in (s', rw first rest)

  -- If every round returns and keeps a property, so does the loop.
  pub each_keeps {μ} :
      (P : S → Type μ) (xs : List A)
      → ((x : A) → Memᴰ x xs → (s : S) → P s → (s' : S) × (f x s ≡ ok s') × P s')
      → (s : S) → P s
      → (s' : S) × (each f xs s ≡ ok s') × P s'
  unfolding each
  each_keeps P [] returns s p = (s, refl, p)
  each_keeps P (x ∷ xs) returns s p =
      let (t, first, q) = returns x (Memᴰ.head refl) s p in
      let (s', rest, r) = each_keeps P xs (λ y m. returns y (Memᴰ.tail m)) t q in
      (s', rw first rest, r)

-- The fuel was enough.
abbrev pub IsDone {ℓ} : {A : Type ℓ} → Outcome A → Type ℓ
IsDone o = o ≢ out_of_fuel

pub ok-IsDone {ℓ} : {A : Type ℓ} (a : A) → IsDone (ok a)
ok-IsDone a h = cc

pub panic-IsDone {ℓ} : {A : Type ℓ} (message : String) → IsDone {A = A} (panic message)
panic-IsDone message h = cc

pub if-IsDone {ℓ} :
    {A : Type ℓ} (b : Bool) (x y : Outcome A) → IsDone x → IsDone y → IsDone (if b then x else y)
if-IsDone true x y h k = h
if-IsDone false x y h k = k

pub >>=-IsDone {ℓ κ} :
    {A : Type ℓ} {B : Type κ} (first : Outcome A) (next : A → Outcome B)
    → IsDone first
    → ((a : A) → first ≡ ok a → IsDone (next a))
    → IsDone (first >>= next)
>>=-IsDone (ok a) next h k = k a refl
>>=-IsDone (panic message) next h k = panic-IsDone message
>>=-IsDone out_of_fuel next h k = absurd (h refl)

-- If the fuel is enough for every round that starts with a property that the rounds keep, it is
-- enough for the loop.
pub each-IsDone {ℓ κ μ} :
    {A : Type ℓ} {S : Type κ} (f : A → S → Outcome S) (P : S → Type μ)
    → ((x : A) (s : S) → P s → IsDone (f x s))
    → ((x : A) (s s' : S) → P s → f x s ≡ ok s' → P s')
    → (xs : List A) (s : S) → P s
    → IsDone (each f xs s)
unfolding each
each-IsDone f P done keeps [] s p = ok-IsDone s
each-IsDone f P done keeps (x ∷ xs) s p =
    >>=-IsDone (f x s) (each f xs) (done x s p)
      (λ t first. each-IsDone f P done keeps xs t (keeps x s t p first))
