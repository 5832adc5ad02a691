-- ===== src/Layout/Members/Ownership/Loop.antt =====
-- The whole loop of Interface.validate over the sub interfaces, when it reports nothing.
use mathlib.Core.List.Memᴰ
use netwrangler.Base.{
  String, true, ◌≡◌, ap, some, List, [], ◌∷◌, ◌⊎◌, Memᴰ, Memᴰ-cons, arith, inl, subst, ⊎_elim,
}
use netwrangler.GoMap.{GoMap, get}
use netwrangler.Outcome.{ok, each, >>=-eq-ok, ok-injective}
use netwrangler.Err.{empty}
use netwrangler.Layout.{Interface}
use netwrangler.Layout.Members.{Progress, sub_step}
use netwrangler.Layout.Members.Steps.{IsAllowed}
use netwrangler.Layout.Members.Filled.{IsFilled, sub_step-IsFilled}
use netwrangler.Layout.Members.Ownership.{Gains, Gains-trans, Gains-map}
use netwrangler.Layout.Members.Ownership.Exclusive.{IsNamed, IsExclusive, sub_step-IsKept}

module _ (m : GoMap Interface) (i : Interface) (named : IsNamed m)
    (entry : get i.name m ≡ some i) where
  -- All names are defined, may be built on, and have `i` for a parent.
  pub record IsBuilt (names : List String) (p p' : Progress) : Type 0 where
    pub gains : Gains i p p' (λ c. Memᴰ c names)
    pub members :
        (name : String)
        → Memᴰ name names
        → (child : Interface) × (get name m ≡ some child) × IsAllowed i child
    pub exclusive : IsExclusive m p.parents → IsExclusive m p'.parents

  pub subs-IsBuilt :
      (names : List String) (p p' : Progress)
      → empty p'.err ≡ true
      → IsFilled p.parents
      → each (sub_step m i) names p ≡ ok p'
      → IsBuilt names p p'
  unfolding each
  subs-IsBuilt [] p p' silent filled e = subst (IsBuilt [] p) (ok-injective e) (record {
    gains = record {
      silent = rw (ap (λ q. q.err) (ok-injective e)) silent;
      gains = λ c q. (inl, ⊎_elim (λ old. old) (λ new. absurd (Memᴰ.not-nil new.1)));
    };
    members = λ name mem. absurd (Memᴰ.not-nil mem);
    exclusive = λ ex. ex;
  })
  subs-IsBuilt (n ∷ ns) p p' silent filled e =
      let (t, first, rest) = >>=-eq-ok (sub_step m i n p) (each (sub_step m i) ns) e in
      let later = subs-IsBuilt ns t p' silent (sub_step-IsFilled m i n p t filled first) rest in
      let now = sub_step-IsKept m i named entry n p t later.gains.silent filled first in
      record {
        gains =
            Gains-map (λ c. (c ≡ n) ⊎ Memᴰ c ns) (λ c. Memᴰ c (n ∷ ns))
              (λ c. ground (arith, Memᴰ-cons c n ns)) (Gains-trans now.gains later.gains);
        members = λ name mem.
            ⊎_elim (λ same. (now.child, rw same now.defined, now.allowed)) (later.members name)
              (Memᴰ.cases_cons mem);
        exclusive = λ ex. later.exclusive (now.exclusive ex);
      }
