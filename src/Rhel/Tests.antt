-- ===== src/Rhel/Tests.antt =====
-- The Red Hat writer at examples.
use netwrangler.Base.{
  Bool, true, false, ◌≡◌, refl, ◌↔◌, none, some, [], ◌∷◌, Memᴰ, length, ◌+◌, contains,
}
use netwrangler.Text.Int.{pos}
use netwrangler.GoMap.{get}
use netwrangler.Value.{bool, float}
use netwrangler.Net.{is_ip4, to4}
use netwrangler.Outcome.{panic}
use netwrangler.Err.{empty, errorf, merge, or_nil}
use netwrangler.Checks.{validate_str_in, validate_ip_list, ip_list_from}
use netwrangler.Validators.{Printer}
use netwrangler.Copy.Tests.{open_disk}
use netwrangler.Layout.{Interface, Network, RoutePolicy}
use netwrangler.Layout.Networks.{
  network_validate, gateway4_check, gateway6_check, nameservers_check, routes_check, policies_check,
}
use netwrangler.Layout.Routes.{policy_validate, bools_equal}
use netwrangler.Layout.Tests.{plain_net, static_net, member}
use netwrangler.Layout.Tests.Accepted.{after}
use netwrangler.Rhel.Devices.{device_lines, type_lines, bridge_lines, forward_delay}
use netwrangler.Rhel.Networks.{rules_of}
use netwrangler.Rhel.Writer.{Rhel, write_out}
use netwrangler.Rhel.Write.{start_run}
use netwrangler.Outcome.Returns.{Returns}
use netwrangler.Rhel.Laws.{IsPlain, write_out-Returns_iff}
use netwrangler.Rhel.Rules.{IsFor, rules_of-IsSplit}

abbrev plain_printer : Printer
plain_printer = record {
  value_text = λ v. "value";
  type_text = λ v. "type";
  syntax_error = λ s. "error";
}

abbrev writer : Rhel
writer = record { layout = after; bind_macs = false; dest = "/tmp/netwrangler-1" }

-- A bridge with a forward delay as JSON has it, a float64.
abbrev delayed : Interface
delayed = record (member "bridge" "br" ("bo" ∷ [])) {
  parameters =
      ("stp", bool true)
      ∷ ("forward-delay", float (record { negative = false; mantissa = 4; exponent = pos 0 }))
      ∷ [];
}

write_out-Returns_iff_example :
    Returns (write_out open_disk plain_net plain_printer writer delayed start_run) ↔ IsPlain delayed
write_out-Returns_iff_example =
    write_out-Returns_iff open_disk plain_net plain_printer writer delayed start_run

delayed_panics :
    write_out open_disk plain_net plain_printer writer delayed start_run
    ≡ panic "interface conversion"
unfolding write_out device_lines type_lines bridge_lines forward_delay get
delayed_panics = refl

abbrev policy : RoutePolicy
policy = record {
  from = some (record { ip = 10 ∷ 0 ∷ 0 ∷ 1 ∷ []; mask = [] });
  to = none;
  table = pos 100;
  priority = pos 0;
  fw_mark = pos 0;
  tos = pos 0;
}

abbrev policy6 : RoutePolicy
policy6 = record policy { from = none; to = some (record { ip = 254 ∷ 128 ∷ []; mask = [] }) }

abbrev ruled : Network
ruled = record static_net { routing_policy = policy ∷ policy6 ∷ [] }

ruled_accepted : network_validate plain_net ruled ≡ none
unfolding network_validate validate_str_in validate_ip_list ip_list_from is_ip4 to4 gateway4_check
    gateway6_check nameservers_check routes_check policies_check policy_validate bools_equal
    contains merge or_nil errorf empty
ruled_accepted = refl

rules_of-IsSplit_example :
    ((ip4 : Bool) (r : RoutePolicy)
      → Memᴰ r (rules_of ip4 (policy ∷ policy6 ∷ []))
        ↔ (Memᴰ r (policy ∷ policy6 ∷ []) × IsFor ip4 r))
    × (length (rules_of true (policy ∷ policy6 ∷ []))
          + length (rules_of false (policy ∷ policy6 ∷ []))
        ≡ 2)
rules_of-IsSplit_example = rules_of-IsSplit plain_net ruled ruled_accepted
