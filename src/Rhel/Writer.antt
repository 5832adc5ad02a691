-- ===== src/Rhel/Writer.antt =====
-- rhel/rhel.go: writeOut and Write. writeOut appends a route to the network that it is given, which
-- other interfaces may share: `heap` holds the networks that were changed, by their addresses. The
-- order in which Go ranges over the map of interfaces is a parameter, any list of its keys. A file
-- that could not be created is written to without effect.
use netwrangler.Base.{
  ℕ, String, Bool, true, false, not, Option, none, some, List, [], ◌∷◌, ◌++◌, is_empty, nat_eq,
  if◌then◌else◌,
}
use netwrangler.Text.{concat}
use netwrangler.GoMap.{get_or, put}
use netwrangler.Net.{Gnet}
use netwrangler.Outcome.{Outcome, ok, ◌>>=◌, each}
use netwrangler.Err.{Err}
use netwrangler.Validators.{Printer}
use netwrangler.Copy.{Disk, Folder, report_if}
use netwrangler.Layout.{Interface, new_interface, Layout, Network, NetworkRef}
use netwrangler.Layout.Networks.{configure_network}
use netwrangler.Rhel.Devices.{device_lines}
use netwrangler.Rhel.Networks.{network_lines, route_lines, rule_lines, with_gateway6, rules_of}

abbrev pub Heap : Type 0
Heap = List (ℕ × Network)

-- The network behind a pointer.
unfoldable pub deref : Heap → NetworkRef → Network
deref [] n = n.value
deref ((a, v) ∷ heap) n = if nat_eq a n.address then v else deref heap n

pub record Rhel : Type 0 where
  pub layout : Layout
  pub bind_macs : Bool
  pub dest : String

pub record Run : Type 0 where
  pub err : Err
  pub files : Folder
  pub heap : Heap

-- New, for a `dest` that Write sets, and BindMacs.
unfoldable pub new : Layout → String → Rhel
new l dest = record { layout = l; bind_macs = false; dest = dest }

unfoldable pub bind_macs : Rhel → Rhel
bind_macs r = record r { bind_macs = true }

module _ (d : Disk) (r : Rhel) where
  abbrev pub path_of : String → String → String
  path_of prefix name = d.join r.dest (concat (prefix ∷ name ∷ []))

  -- os.Create at a path, and what is printed to the file.
  unfoldable pub write_file : String → List String → Run → Run
  write_file path texts s = elim (d.create_error path) [
    | none ↦ record s { files = put path texts s.files }
    | some reason ↦ record s { err = report_if ("Error creating " ∷ path ∷ []) (some reason) s.err }
  ]

  abbrev pub write_file_if : Bool → String → List String → Run → Run
  write_file_if true path texts s = write_file path texts s
  write_file_if false path texts s = s

module _ (d : Disk) (g : Gnet) (t : Printer) (r : Rhel) where
  -- What follows the files ifcfg-*, of a network that is to be configured.
  unfoldable pub write_routing : Interface → Network → Run → Run
  write_routing i n s =
      let rules4 = rules_of true n.routing_policy in
      let rules6 = rules_of false n.routing_policy in
      write_file_if d r (not (is_empty rules6)) (path_of d r "rule6-" i.name) (rule_lines g rules6)
        (write_file_if d r (not (is_empty rules4)) (path_of d r "rule-" i.name)
          (rule_lines g rules4)
          (write_file_if d r (not (is_empty n.routes)) (path_of d r "route-" i.name)
            (route_lines g i n.routes) s))

  unfoldable pub write_network : Interface → List String → NetworkRef → Run → Run
  write_network i lines ref s =
      let n = deref s.heap ref in
      let n' = with_gateway6 n in
      write_routing i n' (
        write_file d r (path_of d r "ifcfg-" i.name) (lines ++ network_lines g n)
          (record s { heap = (ref.address, n') ∷ s.heap }))

  abbrev pub configured : Heap → Option NetworkRef → Option NetworkRef
  configured heap none = none
  configured heap (some ref) = if configure_network (some (deref heap ref)) then some ref else none

  -- writeOut
  unfoldable pub write_out : Interface → Run → Outcome Run
  write_out i s =
      device_lines g t r.bind_macs r.layout.interfaces r.layout.child2parent i >>= λ lines.
      ok (elim (configured s.heap i.network) [
        | none ↦ write_file d r (path_of d r "ifcfg-" i.name) lines s
        | some ref ↦ write_network i lines ref s
      ])

  -- The loop of Write over the interfaces.
  unfoldable pub write_all : List String → Run → Outcome Run
  write_all order s = each (λ k. write_out (get_or r.layout.interfaces k new_interface)) order s
