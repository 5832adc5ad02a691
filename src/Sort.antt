-- ===== src/Sort.antt =====
-- sort.Strings. Go compares strings by their bytes; on UTF-8 that is the order of the code points,
-- which is the one written here. Equal strings cannot be told apart, so every correct sort gives
-- the same list (`Sort.Laws`), and an insertion sort stands for the library's.
pub mod Order
pub mod Laws
use Prim.Native.Char.{code}
use netwrangler.Base.{
  String, Bool, true, false, ◌&&◌, ◌||◌, List, [], ◌∷◌, ltb, nat_eq, if◌then◌else◌,
}

unfoldable pub str_leb : String → String → Bool
str_leb String.[] t = true
str_leb (String.◌∷◌ c s) String.[] = false
str_leb (String.◌∷◌ c s) (String.◌∷◌ d t) =
    ltb (code c) (code d) || nat_eq (code c) (code d) && str_leb s t

unfoldable pub insert : String → List String → List String
insert a [] = a ∷ []
insert a (b ∷ bs) = if str_leb a b then a ∷ b ∷ bs else b ∷ insert a bs

-- sort.Strings(s): the sorted contents of the slice
unfoldable pub sort : List String → List String
sort [] = []
sort (a ∷ as') = insert a (sort as')
