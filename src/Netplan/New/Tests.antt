-- ===== src/Netplan/New/Tests.antt =====
-- New at an example.
use netwrangler.Base.{true, [], ◌∷◌, ◌↔◌, All}
use netwrangler.Text.Int.{pos}
use netwrangler.Value.{bool, int}
use netwrangler.Outcome.Returns.{Returns}
use netwrangler.Layout.{Layout}
use netwrangler.Layout.Tests.{plain_net, member, entries_of}
use netwrangler.Netplan.New.{values, new_netplan}
use netwrangler.Netplan.New.Laws.{IsExpected, new_netplan-Returns_iff}

abbrev tagged : Layout
tagged = record {
  interfaces = entries_of (
      record (member "physical" "e1" []) { parameters = ("wakeonlan", bool true) ∷ [] }
      ∷ record (member "vlan" "v7" ("e1" ∷ [])) { parameters = ("id", int (pos 7)) ∷ [] }
      ∷ []);
  child2parent = ("e1", "v7" ∷ []) ∷ [];
  roots = "v7" ∷ [];
}

new_netplan-Returns_iff_example :
    Returns (new_netplan plain_net tagged) ↔ All IsExpected (values tagged.interfaces)
new_netplan-Returns_iff_example = new_netplan-Returns_iff plain_net tagged
