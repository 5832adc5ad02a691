-- ===== src/Layout/Routes/Laws.antt =====
-- Which routes and routing policies the validation in util/layout.go accepts.
use netwrangler.Base.{
  String, Bool, true, false, ◌≡◌, refl, ◌⊎◌, ◌↔◌, Option, none, some, List, [], ◌∷◌, arith, eq_iff,
}
use netwrangler.Net.{IpNet, Gnet}
use netwrangler.Err.{or_nil, Err, new_err, errorf, empty}
use netwrangler.Err.Laws.{empty-new_err, empty-errorf, or_nil-eq-none_iff}
use netwrangler.Layout.{Route, RoutePolicy}
use netwrangler.Layout.Routes.{is_set, via_check, route_validate, policy_validate, bools_equal}

-- What holds of an address that is set.
abbrev pub IfSet {ℓ} : (IpNet → Type ℓ) → Option IpNet → Type ℓ
IfSet P none = Unit
IfSet P (some a) = P a

module _ (g : Gnet) where
  -- A gateway is one address, every route has a destination, and a unicast route a gateway.
  pub record IsValidRoute (r : Route) : Type 0 where
    pub single : IfSet (λ via. g.is_cidr via ≡ false) r.via
    pub destination : is_set r.to ≡ true
    pub gateway : r.type ≡ "unicast" → is_set r.via ≡ true

  via_check_iff :
      (e : Err) (via : Option IpNet)
      → (empty (via_check g e via) ≡ true)
        ↔ ((empty e ≡ true) × IfSet (λ via. g.is_cidr via ≡ false) via)
  unfolding via_check
  via_check_iff e none = ground arith
  via_check_iff e (some via) =
      ground
        (arith, empty-errorf e ("Via must be a single IP address, not " ∷ g.net_string via ∷ []))

  pub route_validate-or_nil : (r : Route) → (o : Err) × (route_validate g r ≡ or_nil o)
  unfolding route_validate
  route_validate-or_nil r = (_, refl)

  -- Route.validate accepts a route exactly if a gateway that it has is a single address, it has
  -- a destination, and, if its type is written as unicast, a gateway, which a route without a
  -- type needs as little as one of an unknown type.
  pub route_validate_iff : (r : Route) → (route_validate g r ≡ none) ↔ IsValidRoute r
  unfolding route_validate
  route_validate_iff r =
      let e : Err = via_check g (new_err "Route") r.via in
      let both : List String = "unicast routes require 'to' and 'via'" ∷ [] in
      let one : List String = r.type ∷ " routes require 'to'" ∷ [] in
      ground (
        arith,
        eq_iff r.type "unicast",
        or_nil-eq-none_iff e,
        or_nil-eq-none_iff (errorf e both),
        or_nil-eq-none_iff (errorf e one),
        empty-errorf e both,
        empty-errorf e one,
        empty-new_err "Route",
        via_check_iff (new_err "Route") r.via,
      )

bools_equal_iff : (a b : Bool) → (bools_equal a b ≡ true) ↔ (a ≡ b)
unfolding bools_equal
bools_equal_iff true b = ground arith
bools_equal_iff false b = ground arith

-- RoutePolicy.validate accepts a policy exactly if one of its two ends is set and the other is
-- not.
pub policy_validate_iff :
    (r : RoutePolicy)
    → (policy_validate r ≡ none) ↔ (
        (is_set r.from ≡ true) × (is_set r.to ≡ false)
        ⊎ (is_set r.from ≡ false) × (is_set r.to ≡ true))
unfolding policy_validate
policy_validate_iff r =
    let e : Err = new_err "RoutePolicy" in
    let text : List String = "Route policy must include either a From or a To" ∷ [] in
    ground (
      arith,
      or_nil-eq-none_iff e,
      or_nil-eq-none_iff (errorf e text),
      empty-errorf e text,
      empty-new_err "RoutePolicy",
      bools_equal_iff (is_set r.from) (is_set r.to),
    )

pub policy_validate-or_nil : (r : RoutePolicy) → (o : Err) × (policy_validate r ≡ or_nil o)
unfolding policy_validate
policy_validate-or_nil r = (_, refl)
