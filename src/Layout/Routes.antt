-- ===== src/Layout/Routes.antt =====
-- util/layout.go: the methods of Route and RoutePolicy.
pub mod Laws
use netwrangler.Base.{
  String, Bool, true, false, not, ◌&&◌, ◌||◌, ◌==◌, Option, none, some, List, [], ◌∷◌, ◌++◌,
  if◌then◌else◌,
}
use netwrangler.Text.{join, decimal}
use netwrangler.Text.Int.{ℤ, pos, eq_ℤ}
use netwrangler.Net.{IpNet, Gnet, ip_string}
use netwrangler.Err.{Err, GoError, new_err, errorf, or_nil}
use netwrangler.Layout.{Route, RoutePolicy, Interface}

abbrev pub is_set : Option IpNet → Bool
is_set none = false
is_set (some _) = true

-- `if p != nil { res = append(res, …) }`
abbrev pub if_set : Option IpNet → (IpNet → List String) → List String
if_set none words = []
if_set (some a) words = words a

-- `if test { res = append(res, …) }`
abbrev pub words_if : Bool → List String → List String
words_if true words = words
words_if false words = []

abbrev pub is_zero : ℤ → Bool
is_zero n = eq_ℤ n (pos 0)

module _ (g : Gnet) where
  unfoldable pub route_words : Route → Interface → List String
  route_words r i =
      if_set r.to (λ to. "to" ∷ words_if (not (r.type == "")) (r.type ∷ []) ++ g.net_string to ∷ [])
      ++ (if_set r.from (λ from. "src" ∷ g.net_string from ∷ [])
          ++ (words_if (not (is_zero r.metric) && not (eq_ℤ r.metric (pos 100)))
                ("metric" ∷ decimal r.metric ∷ [])
              ++ (words_if (not (is_zero r.table) && not (eq_ℤ r.table (pos 253)))
                    ("table" ∷ decimal r.table ∷ [])
                  ++ (if_set r.via (λ via. "via" ∷ ip_string via.ip ∷ [])
                      ++ (words_if r.on_link ("onlink" ∷ [])
                          ++ (words_if (not (r.scope == "") && not (r.scope == "global"))
                                ("scope" ∷ r.scope ∷ [])
                              ++ ("dev" ∷ i.name ∷ [])))))))

  -- Route.IPString
  unfoldable pub route_ip_string : Route → Interface → String
  route_ip_string r i = join " " (route_words r i)

  unfoldable pub via_check : Err → Option IpNet → Err
  via_check e none = e
  via_check e (some via) =
      if g.is_cidr via
      then errorf e ("Via must be a single IP address, not " ∷ g.net_string via ∷ [])
      else e

  -- Route.validate
  unfoldable pub route_validate : Route → Option GoError
  route_validate r =
      let e = via_check (new_err "Route") r.via in
      or_nil (
        if r.type == "unicast"
        then (if not (is_set r.to) || not (is_set r.via)
            then errorf e ("unicast routes require 'to' and 'via'" ∷ [])
            else e)
        else (if not (is_set r.to) then errorf e (r.type ∷ " routes require 'to'" ∷ []) else e))

  unfoldable pub policy_words : RoutePolicy → List String
  policy_words r =
      if_set r.from (λ from. "from" ∷ g.net_string from ∷ [])
      ++ (if_set r.to (λ to. "to" ∷ g.net_string to ∷ [])
          ++ (words_if (not (is_zero r.priority)) ("pref" ∷ decimal r.priority ∷ [])
              ++ (words_if (not (is_zero r.fw_mark)) ("fwmark" ∷ decimal r.fw_mark ∷ [])
                  ++ (words_if (not (is_zero r.tos)) ("tos" ∷ decimal r.tos ∷ [])
                      ++ words_if (not (is_zero r.table)) ("table" ∷ decimal r.table ∷ [])))))

  -- RoutePolicy.IPString
  unfoldable pub policy_ip_string : RoutePolicy → String
  policy_ip_string r = join " " (policy_words r)

unfoldable pub bools_equal : Bool → Bool → Bool
bools_equal true b = b
bools_equal false b = not b

-- RoutePolicy.validate
unfoldable pub policy_validate : RoutePolicy → Option GoError
policy_validate r =
    let e = new_err "RoutePolicy" in
    or_nil (
      if bools_equal (is_set r.from) (is_set r.to)
      then errorf e ("Route policy must include either a From or a To" ∷ [])
      else e)
