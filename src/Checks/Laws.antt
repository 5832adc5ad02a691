-- ===== src/Checks/Laws.antt =====
-- When the checkers report an error.
use netwrangler.Base.{
  String, Bool, true, false, ◌≡◌, ◌↔◌, ◌⊎◌, List, [], ◌∷◌, Memᴰ, All, contains_iff, arith,
}
use netwrangler.Text.{bool_text}
use netwrangler.Net.{IpNet, Gnet}
use netwrangler.Err.{Err, errorf, empty}
use netwrangler.Err.Laws.{empty-errorf}
use netwrangler.Checks.{bool_eq, validate_str_in, ip_list_from, validate_ip_list}

-- With an empty collector ValidateStrIn leaves it empty exactly if no values are given or the
-- string is one of them.
pub validate_str_in_iff :
    (e : Err) (k res : String) (vals : List String)
    → empty e ≡ true
    → (empty (validate_str_in e k res vals).0 ≡ true) ↔ ((vals ≡ []) ⊎ Memᴰ res vals)
unfolding validate_str_in
validate_str_in_iff e k res [] h = ground arith
validate_str_in_iff e k res (v ∷ vals) h = ground (
  arith,
  contains_iff res (v ∷ vals),
  empty-errorf e (k ∷ ": " ∷ res ∷ ": Not in valid set: " ∷ bool_text false ∷ []),
)

bool_eq_iff : (a b : Bool) → (bool_eq a b ≡ true) ↔ (a ≡ b)
bool_eq_iff true b = ground arith
bool_eq_iff false b = ground arith

module _ (g : Gnet) where
  ip_list_from_iff :
      (e : Err) (k : String) (addrs : List IpNet) (cidr valid : Bool)
      → (empty (ip_list_from g e k addrs cidr valid).0 ≡ true)
        ↔ ((empty e ≡ true) × All (λ addr. g.is_cidr addr ≡ cidr) addrs)
  unfolding ip_list_from
  ip_list_from_iff e k [] cidr valid = ground arith
  ip_list_from_iff e k (addr ∷ addrs) cidr valid =
      let message = k ∷ ": " ∷ g.net_string addr ∷ " is not in the expected format" ∷ [] in
      ground (
        arith,
        ip_list_from_iff e k addrs cidr valid,
        ip_list_from_iff (errorf e message) k addrs cidr false,
        empty-errorf e message,
        bool_eq_iff (g.is_cidr addr) cidr,
      )

  -- ValidateIPList leaves the collector empty exactly if it was empty and all addresses are of
  -- the kind asked for.
  pub validate_ip_list_iff :
      (e : Err) (k : String) (addrs : List IpNet) (cidr : Bool)
      → (empty (validate_ip_list g e k addrs cidr).0 ≡ true)
        ↔ ((empty e ≡ true) × All (λ addr. g.is_cidr addr ≡ cidr) addrs)
  unfolding validate_ip_list
  validate_ip_list_iff e k addrs cidr = ip_list_from_iff e k addrs cidr true
