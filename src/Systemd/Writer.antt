-- ===== src/Systemd/Writer.antt =====
-- systemd/networkd.go: Systemd and writeOut. The fields of Systemd that do not change once Write
-- has set them are `Systemd`; what does change stands in `Run`, with the errors and the files. What the
-- operating system answers is the parameter `Disk` of util/copy.go. The recursion of writeOut is on
-- fuel, for which `Writer.Ends` has a bound.
pub mod Unwritten
pub mod Paths
pub mod Rendered
pub mod Holding
pub mod Traversal
pub mod Complete
pub mod Ends
use netwrangler.Base.{
  ℕ, zero, suc, ◌+◌, String, Bool, true, false, not, ◌&&◌, ◌||◌, ◌==◌, Option, none, some, List, [],
  ◌∷◌, ◌++◌, is_empty, contains, ltb, length, if◌then◌else◌,
}
use netwrangler.Text.{concat, digits}
use netwrangler.GoMap.{GoMap, get_or, put}
use netwrangler.Net.{Gnet}
use netwrangler.Outcome.{Outcome, ok, out_of_fuel, ◌>>=◌, each}
use netwrangler.Err.{Err, errorf}
use netwrangler.Validators.{Printer}
use netwrangler.Copy.{Disk, Folder, opened, report_if}
use netwrangler.Layout.{Interface, new_interface, Layout, NetworkRef, Network}
use netwrangler.Layout.Routes.{words_if}
use netwrangler.Systemd.{Output, print, setting, header, write_parents, write_network}
use netwrangler.Systemd.Devices.{write_device}

pub record Systemd : Type 0 where
  pub layout : Layout
  pub bind_macs : Bool
  pub ctr : ℕ
  pub dest : String

-- The names in the map `written` are a list, since only membership is asked of it.
pub record Run : Type 0 where
  pub written : List String
  pub err : Err
  pub files : Folder

-- New, for a `dest` that Write sets.
unfoldable pub new : Layout → String → Systemd
new l dest = record { layout = l; bind_macs = false; ctr = 60; dest = dest }

-- BindMacs
unfoldable pub bind_macs : Systemd → Systemd
bind_macs s = record s { bind_macs = true }

abbrev two_digits : ℕ → String
two_digits n = if ltb n 10 then concat ("0" ∷ digits 10 n ∷ []) else digits 10 n

abbrev pub both : String → String → Option String → Option String → Option (String × String)
both n_name l_name none none = some (n_name, l_name)
both n_name l_name _ _ = none

abbrev pub device_ext : Interface → String
device_ext i = if i.type == "physical" then "link" else "netdev"

abbrev pub network_of : Option NetworkRef → Option Network
network_of none = none
network_of (some n) = some n.value

module _ (d : Disk) (s : Systemd) where
  -- pathFor
  unfoldable pub path_for : String → String → String
  path_for name ext = d.join s.dest (concat (two_digits s.ctr ∷ "-" ∷ name ∷ "." ∷ ext ∷ []))

  -- create: the paths of the .network file, and of the .link or .netdev file.
  unfoldable pub create : Interface → Run → Run × Option (String × String)
  create i r =
      let n_name = path_for i.name "network" in
      let l_name = path_for i.name (device_ext i) in
      let n_err = d.create_error n_name in
      let l_err = d.create_error l_name in
      (
        record r {
          err =
              report_if ("Error creating " ∷ d.join s.dest l_name ∷ []) l_err
                (report_if ("Error creating " ∷ d.join s.dest n_name ∷ []) n_err r.err);
          files = opened l_name l_err (opened n_name n_err r.files);
        },
        both n_name l_name n_err l_err,
      )

module _ (g : Gnet) (s : Systemd) where
  -- The sections Match and Link, and the heading of the section Network.
  unfoldable pub match_lines : Interface → List String
  match_lines i =
      "[Match]\n"
        ∷ (if s.bind_macs && i.type == "physical"
            then setting "MACAddress" (g.hw_string i.current_hw_addr)
            else setting "Name" i.name)
      ++ (words_if (i.optional || not (is_empty i.mac_address)) (
            header "Link"
            ++ (words_if i.optional (setting "RequiredForOnline" "no")
                ++ words_if (not (is_empty i.mac_address))
                    (setting "MACAddress" (g.hw_string i.mac_address))))
          ++ header "Network")

module _ (g : Gnet) (t : Printer) (s : Systemd) where
  -- What is written to the two files of an interface.
  unfoldable pub write_files : Interface → String × String → Run → Outcome Run
  write_files i (nw, link) r =
      write_device g t i (record { err = r.err; printed = [] }) >>= λ device.
      write_parents s.layout.interfaces i s.layout.child2parent
        (record { err = device.err; printed = match_lines g s i })
      >>= λ network. ok (record r {
        err = network.err;
        files =
            put nw (network.printed ++ write_network g (network_of i.network))
              (put link device.printed r.files);
      })

module _ (d : Disk) (g : Gnet) (t : Printer) (s : Systemd) where
  -- writeOut
  unfoldable pub write_out : ℕ → Interface → Run → Outcome Run
  write_out zero i r = out_of_fuel
  write_out (suc fuel) i r = elim (contains i.name r.written) [
    | true ↦ ok r
    | false ↦
        let (r', paths) = create d s i (record r { written = i.name ∷ r.written }) in
        elim paths [
          | none ↦ ok r'
          | some paths ↦ write_files g t s i paths r' >>= λ r''.
              each (λ name. write_out fuel (get_or s.layout.interfaces name new_interface))
                i.interfaces r''
        ]
  ]

  -- The loop of Write over the roots.
  unfoldable pub write_roots : Run → Outcome Run
  write_roots r =
      each
        (λ name.
          write_out (length s.layout.interfaces + 2)
            (get_or s.layout.interfaces name new_interface))
        s.layout.roots r
