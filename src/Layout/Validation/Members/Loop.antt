-- ===== src/Layout/Validation/Members/Loop.antt =====
-- The first loop of Layout.Validate, when it reports nothing.
use mathlib.Core.List.Memᴰ
use netwrangler.Base.{
  String, true, ◌≡◌, refl, sym, ap, ◌∙◌, some, List, [], ◌∷◌, ◌⊎◌, ◌↔◌, Memᴰ, inl, inr, subst,
  ⊎_elim, some_cancel,
}
use netwrangler.GoMap.{GoMap, get}
use netwrangler.Net.{Gnet}
use netwrangler.Outcome.{ok, each, >>=-eq-ok, ok-injective}
use netwrangler.Err.{empty}
use netwrangler.Layout.{Interface}
use netwrangler.Layout.Members.Ownership.{IsParent}
use netwrangler.Layout.Members.Ownership.Exclusive.{IsNamed, IsExclusive}
use netwrangler.Layout.Validation.{Checked, validate_member}
use netwrangler.Layout.Validation.Members.{Owns, IsSound}
use netwrangler.Layout.Validation.Members.Round.{
  IsReady, IsRound, validate_member-IsReady, validate_member-IsRound,
}

module _ (g : Gnet) (m0 : GoMap Interface) (named : IsNamed m0) where
  pub record IsLooped (ks : List String) (c c' : Checked) : Type 0 where
    pub silent : empty c.1 ≡ true
    pub ready : IsReady m0 c'
    pub parents :
        (ch q : String)
        → IsParent c'.0.child2parent ch q
          ↔ (IsParent c.0.child2parent ch q ⊎ Memᴰ q ks × Owns m0 q ch)
    pub exclusive : IsExclusive m0 c.0.child2parent → IsExclusive m0 c'.0.child2parent
    pub sound : (k : String) (v : Interface) → Memᴰ k ks → get k m0 ≡ some v → IsSound g m0 v

  nothing-IsLooped : (c : Checked) → empty c.1 ≡ true → IsReady m0 c → IsLooped [] c c
  nothing-IsLooped c silent ready = record {
    silent = silent;
    ready = ready;
    parents = λ ch q. (inl, ⊎_elim (λ old. old) (λ new. absurd (Memᴰ.not-nil new.0)));
    exclusive = λ ex. ex;
    sound = λ k v m h. absurd (Memᴰ.not-nil m);
  }

  round-IsLooped :
      (k : String) (ks : List String) (v0 : Interface) (c t c' : Checked)
      → get k m0 ≡ some v0
      → IsRound g m0 k v0 c t
      → IsLooped ks t c'
      → IsLooped (k ∷ ks) c c'
  round-IsLooped k ks v0 c t c' here r l = record {
    silent = r.silent;
    ready = l.ready;
    parents = λ ch q. (
      λ h.
          ⊎_elim
            (λ mid.
              ⊎_elim inl (λ new. inr (Memᴰ.head new.0, subst (λ x. Owns m0 x ch) (sym new.0) new.1))
                ((r.parents ch q).0 mid))
            (λ later. inr (Memᴰ.tail later.0, later.1)) ((l.parents ch q).0 h),
      ⊎_elim (λ old. (l.parents ch q).1 (inl ((r.parents ch q).1 (inl old))))
          (λ new.
            ⊎_elim
              (λ e.
                (l.parents ch q).1
                  (inl ((r.parents ch q).1 (inr (e, subst (λ x. Owns m0 x ch) e new.1)))))
              (λ later. (l.parents ch q).1 (inr (later, new.1))) (Memᴰ.cases_cons new.0)),
    );
    exclusive = λ ex. l.exclusive (r.exclusive ex);
    sound = λ j v m h.
        ⊎_elim
          (λ e.
            subst (IsSound g m0) (some_cancel (sym here ∙ subst (λ x. get x m0 ≡ some v) e h))
              r.sound)
          (λ later. l.sound j v later h) (Memᴰ.cases_cons m);
  }

  pub loop-IsLooped :
      (ks : List String) (c c' : Checked)
      → ((k : String) → Memᴰ k ks → (v : Interface) × (get k m0 ≡ some v))
      → empty c'.1 ≡ true
      → IsReady m0 c
      → each (validate_member g) ks c ≡ ok c'
      → IsLooped ks c c'
  unfolding each
  loop-IsLooped [] c c' here silent ready e =
      subst (IsLooped [] c) (ok-injective e)
        (nothing-IsLooped c (rw (ap (λ d. d.1) (ok-injective e)) silent) ready)
  loop-IsLooped (k ∷ ks) c c' here silent ready e =
      let (t, first, rest) = >>=-eq-ok (validate_member g k c) (each (validate_member g) ks) e in
      let (v0, known) = here k (Memᴰ.head refl) in
      let ready' = validate_member-IsReady g m0 k v0 known c t ready first in
      let l = loop-IsLooped ks t c' (λ j m. here j (Memᴰ.tail m)) silent ready' rest in
      round-IsLooped k ks v0 c t c' known
        (validate_member-IsRound g m0 named k v0 known c t l.silent ready first) l
