-- ===== src/Systemd/Writer/Unwritten.antt =====
-- How many names are still to be written: what bounds the depth of writeOut's recursion.
use mathlib.Core.List.Memᴰ
use netwrangler.Base.{
  ℕ, suc, ◌≤◌, ◌<◌, String, false, ◌≡◌, List, [], ◌∷◌, Memᴰ, Memᴰ-cons, contains, contains_iff,
  length, if◌then◌else◌, arith, eq_iff,
}

unfoldable pub unwritten : List String → List String → ℕ
unwritten [] written = 0
unwritten (k ∷ ks) written =
    if contains k written then unwritten ks written else suc (unwritten ks written)

pub unwritten-le-length : (ks written : List String) → unwritten ks written ≤ length ks
unfolding unwritten
unwritten-le-length [] written = ground arith
unwritten-le-length (k ∷ ks) written = ground (arith, unwritten-le-length ks written)

-- One list of names is within another.
abbrev pub Within : List String → List String → Type 0
Within ks js = (k : String) → Memᴰ k ks → Memᴰ k js

pub unwritten_le :
    (ks written more : List String) → Within written more → unwritten ks more ≤ unwritten ks written
unfolding unwritten
unwritten_le [] written more h = ground arith
unwritten_le (k ∷ ks) written more h =
    ground (arith, contains_iff k written, contains_iff k more, h k, unwritten_le ks written more h)

pub unwritten_lt :
    (ks : List String) (x : String) (written : List String)
    → Memᴰ x ks
    → contains x written ≡ false
    → unwritten ks (x ∷ written) < unwritten ks written
unfolding unwritten contains
unwritten_lt [] x written m new = absurd (Memᴰ.not-nil m)
unwritten_lt (k ∷ ks) x written m new = ground (
  arith,
  Memᴰ-cons x k ks,
  eq_iff x k,
  unwritten_le ks written (x ∷ written) (λ j. Memᴰ.tail),
  unwritten_lt ks x written,
)
