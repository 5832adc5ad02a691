-- ===== src/Checks.antt =====
-- util/validate.go: the checkers, at values whose Go type is already the one asked for.
pub mod Laws
use netwrangler.Base.{
  String, Bool, true, false, not, ◌==◌, List, [], ◌∷◌, is_empty, contains, if◌then◌else◌,
}
use netwrangler.Text.{bool_text}
use netwrangler.Net.{IpNet, Gnet}
use netwrangler.Err.{Err, errorf}

abbrev bool_eq : Bool → Bool → Bool
bool_eq true b = b
bool_eq false b = not b

-- ValidateStrIn at a string. The message ends with the flag `valid`, which is false there.
unfoldable pub validate_str_in : Err → String → String → List String → Err × Bool
validate_str_in e k res vals =
    if is_empty vals
    then (e, true)
    else if contains res vals
    then (e, true)
    else (errorf e (k ∷ ": " ∷ res ∷ ": Not in valid set: " ∷ bool_text false ∷ []), false)

module _ (g : Gnet) where
  -- The loop of ValidateIPList.
  unfoldable pub ip_list_from : Err → String → List IpNet → Bool → Bool → Err × Bool
  ip_list_from e k [] cidr valid = (e, valid)
  ip_list_from e k (addr ∷ addrs) cidr valid =
      let ok = bool_eq (g.is_cidr addr) cidr in
      ip_list_from
        (if ok
          then e
          else errorf e (k ∷ ": " ∷ g.net_string addr ∷ " is not in the expected format" ∷ []))
        k addrs cidr (if ok then valid else false)

  -- ValidateIPList at a []*gnet.IPNet
  unfoldable pub validate_ip_list : Err → String → List IpNet → Bool → Err × Bool
  validate_ip_list e k addrs cidr = ip_list_from e k addrs cidr true
