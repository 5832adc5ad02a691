-- ===== src/Validators/Tests.antt =====
-- The validators at examples.
use netwrangler.Base.{
  ◌↔◌, String, true, false, ◌≡◌, refl, Option, none, some, List, [], ◌∷◌, Memᴰ, contains,
}
use netwrangler.GoMap.{GoMap, get, put}
use netwrangler.Text.Int.{pos, negsuc, ◌≤ℤ◌}
use netwrangler.Net.{IpNet, Gnet, is_ip4, to4}
use netwrangler.Outcome.{ok, each}
use netwrangler.Err.{Err, new_err}
use netwrangler.Value.{Value, nil, str, bool, dict, float, ip, entry, end}
use netwrangler.Validators.{
  Printer, Json, Decoded, decoded, refused, validate_bool, validate_int, as_bool, as_int, truncated,
  vb, vi, vs,
}
use netwrangler.Validators.Decoding.{validate_ip, vip, vip_of, vips, vmac, vss}
use netwrangler.Validators.Checking.{
  Check, checked_by, defaulted, check_validate, check_key, store, check_step, validate_and_marshal,
}
use netwrangler.Validators.Checking.Laws.{AreHonest, IsAccepted}
use netwrangler.Validators.Checking.Marshalling.{
  validate_and_marshal-Reports, validate_and_marshal-IsAccepted,
}
use netwrangler.Validators.Laws.{Reports, IsHonest}
use netwrangler.Validators.Honest.{
  validators-IsHonest, IsOther, vip_of-Reports_iff, validate_int-range,
}

abbrev plain_printer : Printer
plain_printer = record {
  value_text = λ v. "value";
  type_text = λ v. "type";
  syntax_error = λ s. "invalid syntax";
}

-- The address fe80::1.
abbrev link_local : IpNet
link_local = record {
  ip = 254 ∷ 128 ∷ 0 ∷ 0 ∷ 0 ∷ 0 ∷ 0 ∷ 0 ∷ 0 ∷ 0 ∷ 0 ∷ 0 ∷ 0 ∷ 0 ∷ 0 ∷ 1 ∷ [];
  mask = [];
}

-- A decoder that reads every text as that address.
abbrev decode_ip : Value → Decoded (Option IpNet)
decode_ip nil = decoded none
decode_ip (str s) = decoded (some link_local)
decode_ip v = refused none "no address"

abbrev plain_json : Json
plain_json = record {
  as_hardware_addr = λ v. refused [] "no address";
  as_ip = decode_ip;
  as_ips = λ v. decoded (link_local ∷ []);
  as_strings = λ v. decoded ("a" ∷ []);
}

abbrev plain_net : Gnet
plain_net = record { net_string = λ a. "ip"; is_cidr = λ a. false; hw_string = λ a. "mac" }

abbrev collector : Err
collector = new_err "netplan"

validators-IsHonest_example :
    IsHonest (vb plain_printer)
    × IsHonest (vi plain_printer (pos 0) (pos 4094))
    × IsHonest (vs plain_printer [])
    × IsHonest (vss plain_printer plain_json [])
    × IsHonest (vip plain_printer plain_json)
    × IsHonest (vips plain_printer plain_json plain_net true)
    × IsHonest (vmac plain_printer plain_json)
validators-IsHonest_example =
    validators-IsHonest plain_printer plain_json plain_net (pos 0) (pos 4094) [] true

link_local_refused :
    vip_of plain_printer plain_json true collector "gateway4" (str "fe80::1")
    ≡ ok (collector, ip (some link_local), false)
unfolding vip_of validate_ip is_ip4 to4
link_local_refused = refl

vip_of-Reports_iff_example :
    Reports collector collector false
    ↔ ¬ IsOther plain_printer plain_json true collector "gateway4" (str "fe80::1")
vip_of-Reports_iff_example =
    vip_of-Reports_iff plain_printer plain_json true collector "gateway4" (str "fe80::1") collector
      (ip (some link_local)) false link_local_refused

-- The float64 2.5, as 5 / 2.
abbrev two_and_a_half : Value
two_and_a_half = float (record { negative = false; mantissa = 5; exponent = negsuc 0 })

validate_int-range_example :
    (pos 0 ≤ℤ pos 2)
    × (pos 2 ≤ℤ pos 4094)
    × (as_int plain_printer "id" two_and_a_half ≡ (pos 2, none))
unfolding validate_int as_int truncated
validate_int-range_example =
    validate_int-range plain_printer collector "id" two_and_a_half (pos 0) (pos 4094) collector
      (pos 2) refl

abbrev vlan_checks : List (String × Check)
vlan_checks =
    ("optional", checked_by (vb plain_printer))
    ∷ ("accept-ra", defaulted (bool true) (vb plain_printer))
    ∷ []

vlan_checks-AreHonest : AreHonest vlan_checks
unfolding check_validate
vlan_checks-AreHonest = (vb-IsHonest, (vb-IsHonest, tt))
  where
    vb-IsHonest : IsHonest (vb plain_printer)
    vb-IsHonest = (validators-IsHonest plain_printer plain_json plain_net (pos 0) (pos 1) [] true).0

abbrev vlan_map : Value
vlan_map = dict (entry "optional" (str "yes") end)

abbrev vlan_result : GoMap Value
vlan_result = ("optional", bool true) ∷ ("accept-ra", bool true) ∷ []

vlan_accepted :
    validate_and_marshal {T = GoMap Value} plain_printer "Vlan"
      (λ res. decoded res)
      collector
      vlan_map
      vlan_checks
      []
    ≡ ok (collector, vlan_result, true)
unfolding validate_and_marshal check_step check_validate store check_key get put each validate_bool
    as_bool contains
vlan_accepted = refl

validate_and_marshal-Reports_example : Reports collector collector true
validate_and_marshal-Reports_example =
    validate_and_marshal-Reports {T = GoMap Value} plain_printer "Vlan" (λ res. decoded res)
      collector vlan_map vlan_checks [] collector vlan_result true vlan_checks-AreHonest
      vlan_accepted

validate_and_marshal-IsAccepted_example :
    IsAccepted "optional" (checked_by (vb plain_printer)) (str "yes")
unfolding get
validate_and_marshal-IsAccepted_example =
    validate_and_marshal-IsAccepted {T = GoMap Value} plain_printer "Vlan" (λ res. decoded res)
      collector (("optional", str "yes") ∷ []) vlan_map vlan_checks [] collector vlan_result
      "optional" (checked_by (vb plain_printer)) (str "yes") vlan_accepted (Memᴰ.head refl) refl
      refl
