-- ===== src/Netplan/Networks.antt =====
-- netplan/netplan.go: the validators of a network and its parts.
use netwrangler.Base.{
  ℕ, suc, ◌-◌, ◌^◌, String, Bool, true, false, ◌&&◌, Option, none, some, List, [], ◌∷◌, ◌++◌,
  if◌then◌else◌,
}
use netwrangler.Text.{decimal}
use netwrangler.Text.Int.{ℤ, pos}
use netwrangler.Value.{Value, bool, str, list, values}
use netwrangler.Outcome.{Outcome, ok, ◌>>=◌}
use netwrangler.Err.{Err, errorf}
use netwrangler.Validators.{Validator, vb, vi, vs}
use netwrangler.Validators.Decoding.{vip, vip_of, vips, vmac, vss}
use netwrangler.Validators.Checking.{Check, checked_by, defaulted, validate_and_marshal}
use netwrangler.Layout.{Network}
use netwrangler.Netplan.{Packages}
use netwrangler.Netplan.Blank.{
  blank_route, blank_policy, blank_ns, blank_network, blank_overrides, blank_match,
}

-- math.MaxUint32, math.MaxUint8, math.MaxInt16 and math.MaxInt8
abbrev pub max_uint32 : ℤ
max_uint32 = pos (2 ^ 32 - 1)

abbrev pub max_uint8 : ℤ
max_uint8 = pos 255

abbrev pub max_int16 : ℤ
max_int16 = pos 32767

abbrev pub max_int8 : ℤ
max_int8 = pos 127

-- `v.([]interface{})`
abbrev pub held_list : Value → Option (List Value)
held_list (list vs) = some (values vs)
held_list _ = none

-- What a validator that returns a struct gives: the struct in an interface{}.
abbrev pub boxed {ℓ} :
    {A : Type ℓ} → (A → Value) → Outcome (Err × A × Bool) → Outcome (Err × Value × Bool)
boxed of o = o >>= λ (e, a, valid). ok (e, of a, valid)

module _ (p : Packages) where
  -- The loop of routes() and of routepolicy(), from its state.
  unfoldable pub each_item {ℓ} :
      {A : Type ℓ}
      → (Err → Value → Outcome (Err × A × Bool))
      → (String → List String)
      → ℕ
      → List Value
      → Err
      → List A
      → Bool
      → Outcome (Err × List A × Bool)
  each_item item message i [] e res valid = ok (e, res, valid)
  each_item item message i (v ∷ vs) e res valid = item e v >>= λ (e', a, ok').
      each_item item message (suc i) vs (if ok' then e' else errorf e' (message (decimal (pos i))))
        (if ok' then res ++ a ∷ [] else res) (ok' && valid)

  -- The test of the type, and the loop.
  abbrev pub items {ℓ} :
      {A : Type ℓ}
      → (Err → Value → Outcome (Err × A × Bool))
      → (String → List String)
      → Err
      → Value
      → Outcome (Err × List A × Bool)
  items item message e v = elim (held_list v) [
    | none ↦ ok (errorf e ("routes in invalid format: " ∷ p.printer.type_text v ∷ []), [], false)
    | some vs ↦ each_item item message 0 vs e [] true
  ]

  unfoldable pub nameservers_checks : List (String × Check)
  nameservers_checks =
      ("search", checked_by (vss p.printer p.json []))
      ∷ ("addresses", checked_by (vips p.printer p.json p.gnet false))
      ∷ []

  -- nameservers()
  unfoldable pub nameservers : Validator
  nameservers e k v = boxed p.structs.of_ns (
      validate_and_marshal p.printer "*util.NSInfo" p.structs.as_ns e v nameservers_checks blank_ns)

  unfoldable pub routes_checks : List (String × Check)
  routes_checks =
      ("from", checked_by (vip p.printer p.json))
      ∷ ("to", checked_by (vip p.printer p.json))
      ∷ ("via", checked_by (vip p.printer p.json))
      ∷ ("on-link", checked_by (vb p.printer))
      ∷ ("metric", checked_by (vi p.printer (pos 0) max_uint32))
      ∷ ("table", checked_by (vi p.printer (pos 0) max_uint32))
      ∷ ("scope", checked_by (vs p.printer ("global" ∷ "link" ∷ "host" ∷ [])))
      ∷ (
        "type",
        defaulted (str "unicast")
            (vs p.printer ("unicast" ∷ "unreachable" ∷ "blackhole" ∷ "prohibit" ∷ [])),
      )
      ∷ []

  -- routes()
  unfoldable pub routes : Validator
  routes e k v = boxed p.structs.of_routes (
      items
        (λ e v.
          validate_and_marshal p.printer "*util.Route" p.structs.as_route e v routes_checks
            blank_route)
        (λ i. "Invalid route " ∷ i ∷ []) e v)

  unfoldable pub policy_checks : List (String × Check)
  policy_checks =
      ("from", checked_by (vip p.printer p.json))
      ∷ ("to", checked_by (vip p.printer p.json))
      ∷ ("table", checked_by (vi p.printer (pos 0) max_uint32))
      ∷ ("priority", checked_by (vi p.printer (pos 0) max_uint32))
      ∷ ("mark", checked_by (vi p.printer (pos 0) max_uint8))
      ∷ ("tos", checked_by (vi p.printer (pos 0) max_uint8))
      ∷ []

  -- routepolicy()
  unfoldable pub routepolicy : Validator
  routepolicy e k v = boxed p.structs.of_policies (
      items
        (λ e v.
          validate_and_marshal p.printer "*util.RoutePolicy" p.structs.as_policy e v policy_checks
            blank_policy)
        (λ i. "Invalid routing policy: " ∷ i ∷ []) e v)

  unfoldable pub overrides_checks : List (String × Check)
  overrides_checks =
      ("use-dns", defaulted (bool true) (vb p.printer))
      ∷ ("use-ntp", defaulted (bool true) (vb p.printer))
      ∷ ("send-hostname", defaulted (bool true) (vb p.printer))
      ∷ ("use-mtu", defaulted (bool true) (vb p.printer))
      ∷ ("hostname", checked_by (vs p.printer []))
      ∷ ("use-routes", defaulted (bool true) (vb p.printer))
      ∷ ("route-metric", checked_by (vi p.printer (pos 0) max_uint32))
      ∷ ("use-domains", defaulted (str "true") (vs p.printer ("true" ∷ "false" ∷ "route" ∷ [])))
      ∷ []

  -- overrides()
  unfoldable pub overrides : Validator
  overrides e k v = boxed p.structs.of_overrides (
      validate_and_marshal p.printer "*util.Overrides" p.structs.as_overrides e v overrides_checks
        blank_overrides)

  unfoldable pub network_checks : List (String × Check)
  network_checks =
      ("dhcp4", defaulted (bool false) (vb p.printer))
      ∷ ("dhcp4-overrides", checked_by overrides)
      ∷ ("dhcp6", defaulted (bool false) (vb p.printer))
      ∷ ("dhcp6-overrides", checked_by overrides)
      ∷ ("dhcp-identifier", checked_by (vs p.printer []))
      ∷ ("accept-ra", defaulted (bool true) (vb p.printer))
      ∷ ("addresses", checked_by (vips p.printer p.json p.gnet true))
      ∷ ("gateway4", checked_by (vip_of p.printer p.json true))
      ∷ ("gateway6", checked_by (vip_of p.printer p.json false))
      ∷ ("nameservers", checked_by nameservers)
      ∷ ("routes", checked_by routes)
      ∷ ("routing-policy", checked_by routepolicy)
      ∷ []

  -- network(), whose result is a *util.Network
  unfoldable pub network : Err → Value → Outcome (Err × Network × Bool)
  network e v =
      validate_and_marshal p.printer "*util.Network" p.structs.as_network e v network_checks
        blank_network

  unfoldable pub match_checks : List (String × Check)
  match_checks =
      ("name", checked_by (vs p.printer []))
      ∷ ("macaddress", checked_by (vmac p.printer p.json))
      ∷ ("driver", checked_by (vs p.printer []))
      ∷ []

  -- phymatch()
  unfoldable pub phymatch : Validator
  phymatch e k v =
      boxed p.structs.of_match (
        validate_and_marshal p.printer "*util.Match" p.structs.as_match e v match_checks
          blank_match)
