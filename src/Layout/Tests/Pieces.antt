-- ===== src/Layout/Tests/Pieces.antt =====
-- The theorems on networks, routes, policies, single interfaces and error collectors at examples.
use netwrangler.Base.{length, refl, true, false, none, some, [], ◌∷◌, ◌≡◌, ◌↔◌, ◌⊎◌}
use netwrangler.Net.{IpNet}
use netwrangler.Outcome.{ok}
use netwrangler.Text.Int.{pos}
use netwrangler.Err.{Err, new_err, merge, empty, or_nil}
use netwrangler.Err.Laws.{empty-merge-or_nil}
use netwrangler.Layout.{Route, RoutePolicy, Interface}
use netwrangler.Layout.Routes.{is_set, route_validate, policy_validate}
use netwrangler.Layout.Routes.Laws.{IsValidRoute, route_validate_iff, policy_validate_iff}
use netwrangler.Layout.Networks.{network_validate}
use netwrangler.Layout.Networks.Laws.{IsValidNetwork, network_validate_iff}
use netwrangler.GoMap.{GoMap, get, get_or}
use netwrangler.Layout.Members.Doubling.{add_parent_doubles}
use netwrangler.Layout.Members.{Progress, add_parent}
use netwrangler.Layout.Tests.{entries_of, plain_net, static_net, member}

network_validate_iff_example :
    (network_validate plain_net static_net ≡ none) ↔ IsValidNetwork plain_net static_net
network_validate_iff_example = network_validate_iff plain_net static_net

abbrev gateway : IpNet
gateway = record { ip = 10 ∷ 0 ∷ 0 ∷ 1 ∷ []; mask = [] }

abbrev default_route : Route
default_route = record {
  from = none;
  to = some (record { ip = 0 ∷ 0 ∷ 0 ∷ 0 ∷ []; mask = 0 ∷ 0 ∷ 0 ∷ 0 ∷ [] });
  via = some gateway;
  on_link = false;
  metric = pos 100;
  type = "unicast";
  scope = "global";
  table = pos 254;
}

route_validate_iff_example :
    (route_validate plain_net default_route ≡ none) ↔ IsValidRoute plain_net default_route
route_validate_iff_example = route_validate_iff plain_net default_route

abbrev from_policy : RoutePolicy
from_policy = record {
  from = some gateway;
  to = none;
  table = pos 5;
  priority = pos 1;
  fw_mark = pos 0;
  tos = pos 0;
}

policy_validate_iff_example : (policy_validate from_policy ≡ none) ↔ (
    (is_set from_policy.from ≡ true) × (is_set from_policy.to ≡ false)
    ⊎ (is_set from_policy.from ≡ false) × (is_set from_policy.to ≡ true))
policy_validate_iff_example = policy_validate_iff from_policy

abbrev one_message : Err
one_message = record { prefix = "layout"; msgs = "bad" ∷ [] }

empty-merge-or_nil_example :
    (empty (merge one_message (or_nil (new_err "x"))) ≡ true)
    ↔ ((empty one_message ≡ true) × (empty (new_err "x") ≡ true))
empty-merge-or_nil_example = empty-merge-or_nil one_message (new_err "x")

-- A link that two vlans are on already.
abbrev busy : Progress
busy = record { err = new_err "vlan:v3"; parents = ("e1", "v1" ∷ "v2" ∷ []) ∷ [] }

abbrev vlans : GoMap Interface
vlans = entries_of (
    member "physical" "e1" []
    ∷ member "vlan" "v1" ("e1" ∷ [])
    ∷ member "vlan" "v2" ("e1" ∷ [])
    ∷ [])

add_parent_doubles_example :
    (p' : Progress) × (add_parent vlans
        (member "vlan" "v3" ("e1" ∷ []))
        (member "physical" "e1" [])
        "e1"
        busy
      ≡ ok p')
    × (p'.err ≡ busy.err)
    × (length (get_or p'.parents "e1" []) ≡ 4)
unfolding get
add_parent_doubles_example =
    add_parent_doubles vlans (member "vlan" "v3" ("e1" ∷ [])) (member "physical" "e1" []) "e1" busy
      ("v1" ∷ "v2" ∷ []) refl refl refl (refl, (refl, tt))
