-- ===== src/Layout/Tests/Refused.antt =====
-- Layouts with cycles: one that Layout.Validate refuses, and one that it accepts.
use netwrangler.Base.{arith, String, refl, none, some, [], ◌∷◌, ◌≡◌, ◌≢◌, ◌⊎◌, contains}
use netwrangler.GoMap.{get, keys}
use netwrangler.Outcome.{ok}
use netwrangler.Err.{Err, collected, new_err}
use netwrangler.Layout.{Layout}
use netwrangler.Layout.Members.{Parents}
use netwrangler.Layout.Cycles.{Search, cyclic}
use netwrangler.Layout.Cycles.Ends.{cyclic_returns}
use netwrangler.Layout.Cycles.Reports.{HasCycle, cyclic_sound, Called, cyclic-Called}
use netwrangler.Layout.Cycles.Missed.{cyclic_misses}
use netwrangler.Layout.Validation.{layout_validate}
use netwrangler.Layout.Validation.Phases.{IsRefused}
use netwrangler.Layout.Validation.Acyclic.{layout_validate-HasCycle}
use netwrangler.Layout.Tests.{plain_net, member, layout_of, program}

-- A vlan on a bridge over that vlan, and another vlan on the bridge.
abbrev looped : Layout
looped = layout_of (
    member "bridge" "br" ("v" ∷ [])
    ∷ member "vlan" "a" ("br" ∷ [])
    ∷ member "vlan" "v" ("br" ∷ [])
    ∷ [])

abbrev looped_parents : Parents
looped_parents = ("br", "a" ∷ "v" ∷ []) ∷ ("v", "br" ∷ []) ∷ []

looped_accepted :
    (l : Layout) × (layout_validate plain_net ("br" ∷ "v" ∷ "a" ∷ []) looped ≡ ok (l, none))
    × (l.child2parent ≡ looped_parents)
    × (l.roots ≡ "a" ∷ [])
unfolding program
looped_accepted = (_, refl, refl, refl)

abbrev fresh : Search
fresh = record { clean = []; err = new_err "layout" }

cyclic_misses_example :
    (cyclic looped_parents 4 [] "br" fresh ≡ ok (record fresh { clean = "br" ∷ [] }))
    × HasCycle looped_parents
unfolding get contains
cyclic_misses_example =
    cyclic_misses looped_parents "br" 1 "a" "v" [] fresh refl refl ((refl, λ e. cc), tt) refl refl

-- The same without the other vlan.
abbrev ring : Layout
ring = layout_of (member "bridge" "br" ("v" ∷ []) ∷ member "vlan" "v" ("br" ∷ []) ∷ [])

abbrev ring_parents : Parents
ring_parents = ("v", "br" ∷ []) ∷ ("br", "v" ∷ []) ∷ []

cyclic_returns_example : (s' : Search) × (cyclic ring_parents 3 [] "br" fresh ≡ ok s')
unfolding keys
cyclic_returns_example = cyclic_returns ring_parents "br" fresh

abbrev ring_searched : Search
ring_searched = record fresh {
  err = record { prefix = "layout"; msgs = "br: Cycle detected: [br v]" ∷ [] };
}

ring_search : cyclic ring_parents 3 [] "br" fresh ≡ ok ring_searched
unfolding program
ring_search = refl

abbrev ring_err : Err
ring_err = record {
  prefix = "layout";
  msgs = "br: Cycle detected: [br v]" ∷ "v: Cycle detected: [v br]" ∷ [];
}

abbrev ring_after : Layout
ring_after = record ring { child2parent = ring_parents }

ring_refused :
    layout_validate plain_net ("br" ∷ "v" ∷ []) ring ≡ ok (ring_after, some (collected ring_err))
unfolding program
ring_refused = refl

layout_validate-HasCycle_example :
    IsRefused plain_net ("br" ∷ "v" ∷ []) ring ring_after (some (collected ring_err))
    ⊎ HasCycle ring_parents
layout_validate-HasCycle_example =
    layout_validate-HasCycle plain_net ("br" ∷ "v" ∷ []) ring ring_after (collected ring_err)
      ring_refused

cyclic_sound_example : (ring_searched.err ≡ fresh.err) ⊎ HasCycle ring_parents
cyclic_sound_example = cyclic_sound ring_parents 3 [] "br" fresh ring_searched tt ring_search

ring_filled : (a : String) → get a ring_parents ≢ some []
unfolding get
ring_filled a h = ground (arith, h)

cyclic-Called_example : Called ring_parents "br" fresh ring_searched
cyclic-Called_example =
    cyclic-Called ring_parents ring_filled 3 [] "br" fresh ring_searched tt tt ring_search
