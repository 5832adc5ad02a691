-- ===== src/GoMap/Laws.antt =====
-- The laws of the operations on maps.
use mathlib.Core.List.Memᴰ
use netwrangler.Base.{
  String, true, ◌==◌, ◌≡◌, ◌≢◌, refl, ◌↔◌, ◌⊎◌, some, [], ◌∷◌, Memᴰ, Memᴰ-cons, eq_iff, arith,
  length, if◌then◌else◌,
}
use netwrangler.GoMap.{GoMap, get, put, keys, has, get_or}

module _ {ℓ} {V : Type ℓ} where
  pub get-put :
      (k j : String) (v : V) (m : GoMap V)
      → get j (put k v m) ≡ (if k == j then some v else get j m)
  unfolding get put
  get-put k j v [] = refl
  get-put k j v ((i, w) ∷ m) = ground (arith, eq_iff k j, eq_iff i k, eq_iff i j, get-put k j v m)

  pub mem-keys_iff : (k : String) (m : GoMap V) → Memᴰ k (keys m) ↔ (has k m ≡ true)
  unfolding keys get
  mem-keys_iff k [] = (λ m. absurd (Memᴰ.not-nil m), λ e. cc)
  mem-keys_iff k ((j, v) ∷ m) = ground (arith, Memᴰ-cons k j (keys m), mem-keys_iff k m, eq_iff j k)

  pub get_or-put :
      (k j : String) (v d : V) (m : GoMap V)
      → get_or (put k v m) j d ≡ (if k == j then v else get_or m j d)
  get_or-put k j v d m = ground (arith, get-put k j v m)

  pub get-put_self : (k : String) (v : V) (m : GoMap V) → get k (put k v m) ≡ some v
  get-put_self k v m = ground (arith, get-put k k v m, eq_iff k k)

  pub get-put_other : (k j : String) (v : V) (m : GoMap V) → k ≢ j → get j (put k v m) ≡ get j m
  get-put_other k j v m apart = ground (arith, get-put k j v m, eq_iff k j)

  pub length-keys : (m : GoMap V) → length (keys m) ≡ length m
  unfolding keys
  length-keys [] = refl
  length-keys ((k, v) ∷ m) = omega (arith, length-keys m)

  pub mem-keys-put :
      (k j : String) (v : V) (m : GoMap V) → Memᴰ k (keys (put j v m)) ↔ ((k ≡ j) ⊎ Memᴰ k (keys m))
  mem-keys-put k j v m =
      ground (arith, mem-keys_iff k (put j v m), mem-keys_iff k m, get-put j k v m, eq_iff j k)
