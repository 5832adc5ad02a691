-- ===== src/Globs/Laws.antt =====
-- What Glob2RE compiles.
use netwrangler.Base.{
  ◌↔◌, inl, inr, ℕ, true, false, ◌≡◌, refl, ap, ◌∙◌, [], ◌∷◌, ◌++◌, nat_eq, if◌then◌else◌, arith,
  Bool-cases,
}
use netwrangler.Outcome.{ok}
use netwrangler.Globs.{Pattern, Compiler, is_special, quote_meta, replace2, glob_text, glob2re}

-- The regular expression for one character of a glob.
abbrev pub piece : ℕ → Pattern
piece c =
    if nat_eq c b'*'
    then b'.' ∷ b'*' ∷ []
    else if nat_eq c b'?'
    then b'.' ∷ []
    else if is_special c
    then b'\\' ∷ c ∷ []
    else c ∷ []

unfoldable pub pieces : Pattern → Pattern
pieces [] = []
pieces (c ∷ cs) = piece c ++ pieces cs

-- The text does not start with `b`.
abbrev Safe : ℕ → Pattern → Type 0
Safe b [] = Unit
Safe b (c ∷ cs) = nat_eq c b ≡ false

module _ (b : ℕ) (new : Pattern) where
  replace2-nil : replace2 b'\\' b new [] ≡ []
  unfolding replace2
  replace2-nil = refl

  replace2-plain :
      (c : ℕ) (rest : Pattern)
      → nat_eq c b'\\' ≡ false
      → replace2 b'\\' b new (c ∷ rest) ≡ c ∷ replace2 b'\\' b new rest
  unfolding replace2
  replace2-plain c [] h = refl
  replace2-plain c (d ∷ rest) h = rw h refl

  replace2-hit :
      (rest : Pattern) → replace2 b'\\' b new (b'\\' ∷ b ∷ rest) ≡ new ++ replace2 b'\\' b new rest
  unfolding replace2
  replace2-hit rest = ground arith

  replace2-escaped :
      (d : ℕ) (rest : Pattern)
      → nat_eq d b ≡ false
      → Safe b rest
      → replace2 b'\\' b new (b'\\' ∷ d ∷ rest) ≡ b'\\' ∷ d ∷ replace2 b'\\' b new rest
  unfolding replace2
  replace2-escaped d [] h safe = rw h refl
  replace2-escaped d (x ∷ rest) h safe =
      rw (h, safe)
        (elim (Bool-cases (nat_eq d b'\\')) [ inl same ↦ rw same refl | inr other ↦ rw other refl ])

-- Between the two replacements.
abbrev half_piece : ℕ → Pattern
half_piece c =
    if nat_eq c b'*' then b'.' ∷ b'*' ∷ [] else if is_special c then b'\\' ∷ c ∷ [] else c ∷ []

half_pieces : Pattern → Pattern
half_pieces [] = []
half_pieces (c ∷ cs) = half_piece c ++ half_pieces cs

nat_eq_iff : (a b : ℕ) → (nat_eq a b ≡ true) ↔ (a ≡ b)
nat_eq_iff a b = ground arith

-- What is not special is none of the characters that the translation looks for.
plain_char :
    (c : ℕ)
    → is_special c ≡ false
    → (nat_eq c b'\\' ≡ false) × (nat_eq c b'*' ≡ false) × (nat_eq c b'?' ≡ false)
unfolding is_special
plain_char c h = ground (arith, h)

Safe-quote_meta : (s : Pattern) → Safe b'*' (quote_meta s)
unfolding quote_meta
Safe-quote_meta [] = tt
Safe-quote_meta (c ∷ cs) = elim (Bool-cases (is_special c)) [
  | inl special ↦ rw special refl
  | inr plain ↦ rw plain (plain_char c plain).1
]

Safe-half_pieces : (s : Pattern) → Safe b'?' (half_pieces s)
unfolding half_pieces
Safe-half_pieces [] = tt
Safe-half_pieces (c ∷ cs) = elim (Bool-cases (nat_eq c b'*')) [
  | inl star ↦ rw star refl
  | inr other ↦ elim (Bool-cases (is_special c)) [
    | inl special ↦ rw (other, special) refl
    | inr plain ↦ rw (other, plain) (plain_char c plain).2
  ]
]

first_pass : (s : Pattern) → replace2 b'\\' b'*' (b'.' ∷ b'*' ∷ []) (quote_meta s) ≡ half_pieces s
unfolding quote_meta half_pieces
first_pass [] = replace2-nil b'*' (b'.' ∷ b'*' ∷ [])
first_pass (c ∷ cs) = elim (Bool-cases (is_special c)) [
  | inr plain ↦
      rw (plain, (plain_char c plain).1)
        (replace2-plain b'*' (b'.' ∷ b'*' ∷ []) c (quote_meta cs) (plain_char c plain).0
          ∙ ap (λ x. c ∷ x) (first_pass cs))
  | inl special ↦ elim (Bool-cases (nat_eq c b'*')) [
    | inl star ↦
        rw (special, star)
          (ap (λ x. replace2 b'\\' b'*' (b'.' ∷ b'*' ∷ []) (b'\\' ∷ x ∷ quote_meta cs))
              ((nat_eq_iff c b'*').0 star)
            ∙ replace2-hit b'*' (b'.' ∷ b'*' ∷ []) (quote_meta cs)
            ∙ ap (λ x. b'.' ∷ b'*' ∷ x) (first_pass cs))
    | inr other ↦
        rw (special, other)
          (replace2-escaped b'*' (b'.' ∷ b'*' ∷ []) c (quote_meta cs) other (Safe-quote_meta cs)
            ∙ ap (λ x. b'\\' ∷ c ∷ x) (first_pass cs))
  ]
]

second_pass : (s : Pattern) → replace2 b'\\' b'?' (b'.' ∷ []) (half_pieces s) ≡ pieces s
unfolding half_pieces pieces
second_pass [] = replace2-nil b'?' (b'.' ∷ [])
second_pass (c ∷ cs) = elim (Bool-cases (nat_eq c b'*')) [
  | inl star ↦ rw star (
      replace2-plain b'?' (b'.' ∷ []) b'.' (b'*' ∷ half_pieces cs) refl
      ∙ ap (λ x. b'.' ∷ x)
          (replace2-plain b'?' (b'.' ∷ []) b'*' (half_pieces cs) refl
            ∙ ap (λ x. b'*' ∷ x) (second_pass cs)))
  | inr not_star ↦ elim (Bool-cases (is_special c)) [
    | inr plain ↦
        rw (not_star, plain, (plain_char c plain).2)
          (replace2-plain b'?' (b'.' ∷ []) c (half_pieces cs) (plain_char c plain).0
            ∙ ap (λ x. c ∷ x) (second_pass cs))
    | inl special ↦ elim (Bool-cases (nat_eq c b'?')) [
      | inl mark ↦
          rw (not_star, special, mark)
            (ap (λ x. replace2 b'\\' b'?' (b'.' ∷ []) (b'\\' ∷ x ∷ half_pieces cs))
                ((nat_eq_iff c b'?').0 mark)
              ∙ replace2-hit b'?' (b'.' ∷ []) (half_pieces cs)
              ∙ ap (λ x. b'.' ∷ x) (second_pass cs))
      | inr other ↦
          rw (not_star, special, other)
            (replace2-escaped b'?' (b'.' ∷ []) c (half_pieces cs) other (Safe-half_pieces cs)
              ∙ ap (λ x. b'\\' ∷ c ∷ x) (second_pass cs))
    ]
  ]
]

-- The regular expression that Glob2RE compiles for a glob that does not start with ^ translates
-- each character for itself, between anchors.
pub glob2re-pieces :
    (compile : Compiler) (c : ℕ) (cs : Pattern)
    → nat_eq c b'^' ≡ false
    → glob2re compile (c ∷ cs) ≡ ok (compile (b'^' ∷ pieces (c ∷ cs) ++ b'$' ∷ []))
unfolding glob2re glob_text
glob2re-pieces compile c cs h = rw h (
    ap (λ x. ok (compile (b'^' ∷ x ++ b'$' ∷ [])))
      (ap (replace2 b'\\' b'?' (b'.' ∷ [])) (first_pass (c ∷ cs)) ∙ second_pass (c ∷ cs)))
