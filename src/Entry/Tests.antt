-- ===== src/Entry/Tests.antt =====
-- The whole way from a netplan to the files, at an example.
use netwrangler.Base.{false, ◌≡◌, refl, none, some, [], ◌∷◌}
use netwrangler.Outcome.{ok}
use netwrangler.Layout.{Layout}
use netwrangler.Layout.Tests.{plain_net}
use netwrangler.Base.{inl, all_differ, contains}
use netwrangler.Text.{concat, digits}
use netwrangler.Copy.{Folder}
use netwrangler.Copy.Tests.{open_disk}
use netwrangler.Systemd.Writer.{Systemd, path_for}
use netwrangler.Systemd.Writer.Paths.{paths}
use netwrangler.Systemd.Writer.Complete.{HasRoom}
use netwrangler.Systemd.Write.Laws.{IsTarget, IsInstalled}
use netwrangler.Systemd.Tests.{plain_printer, destination}
use netwrangler.Netplan.Compile.Tests.{
  bonded, bonded_layout, bonded_compiles, structs-KeepsType, structs-KeepsTexts, exact, card,
  plain_packages, same_order,
}
use netwrangler.Layout.Files.{LayoutYaml}
use netwrangler.Streams.{Streams, read_text}
use netwrangler.Netplan.Files.{Yaml}
use netwrangler.Entry.{Machine, systemd_of, compile, read_by, pass_on, shown_error, write_layout}
use netwrangler.Base.{◌⊎◌}
use netwrangler.Layout.Files.{layout_read}
use netwrangler.Systemd.Writer.{new}
use netwrangler.Entry.Laws.{IsRead, compile-IsInstalled, compile-target}

abbrev quiet_streams : Streams
quiet_streams = record {
  open_error = λ path. none;
  content = λ path. inl "network: {}";
  create_error = λ path. none;
  written = λ path text. (text, none);
}

-- Every document is the example.
abbrev bonded_yaml : Yaml
bonded_yaml = record {
  netplan_of = λ text. inl bonded;
  ether_text = λ e. inl "{}\n";
  netplan_text = λ n. inl "network: {}";
}

abbrev layout_yaml : LayoutYaml
layout_yaml = record {
  unmarshal = λ l text. (l, none);
  nil_error = λ text. "json: Unmarshal(nil *util.Layout)";
  text_of = λ l. inl "interfaces: {}";
}

abbrev machine : Machine
machine = record {
  disk = open_disk;
  streams = quiet_streams;
  packages = plain_packages;
  compiler = exact;
  yaml = bonded_yaml;
  layout_yaml = layout_yaml;
  temporary = inl "/tmp/netwrangler-2";
  order = same_order;
  write_order = same_order;
}

abbrev bonded_writer : Systemd
bonded_writer = systemd_of machine bonded_layout false "/tmp/netwrangler-2"

bonded-IsRead : IsRead machine (card "e1" ∷ []) "netplan.yaml" bonded_layout
unfolding read_text
bonded-IsRead = record {
  text = "network: {}";
  document = bonded;
  reads = refl;
  parses = refl;
  compiles = bonded_compiles;
}

bonded-HasRoom : HasRoom open_disk bonded_writer
unfolding new all_differ contains paths path_for concat digits
bonded-HasRoom = record { opens = λ k v here. (refl, refl); differ = refl }

bonded-IsTarget : IsTarget open_disk bonded_writer destination
unfolding new all_differ contains paths path_for concat digits
bonded-IsTarget = record {
  globs = refl;
  globs_final = refl;
  makes = refl;
  opens = λ p m. (refl, refl);
  copies = λ p texts. refl;
  differ = refl;
}

compile-IsInstalled_example :
    (files : Folder) × (compile machine
        (card "e1" ∷ [])
        "netplan"
        "systemd"
        "netplan.yaml"
        destination
        false
        []
      ≡ ok (files, none))
    × IsInstalled open_disk plain_net plain_printer bonded_writer destination files
compile-IsInstalled_example =
    compile-IsInstalled machine (card "e1" ∷ []) bonded_layout "netplan.yaml" destination
      "/tmp/netwrangler-2" false [] structs-KeepsType structs-KeepsTexts (λ ks k. (λ m. m, λ m. m))
      refl bonded-IsRead bonded-HasRoom bonded-IsTarget

abbrev kept_files : Folder
kept_files = ("/etc/systemd/network/60-a.network", "[Match]\n" ∷ []) ∷ []

-- The internal format is read into a nil pointer.
internal_fails :
    compile machine [] "internal" "rhel" "layout.yaml" "/etc" false kept_files
    ≡ ok (kept_files, some "Error reading 'internal': json: Unmarshal(nil *util.Layout)")
unfolding compile read_by pass_on layout_read read_text shown_error concat
internal_fails = refl

compile-target_example :
    (kept_files ≡ kept_files)
    ⊎ ((l : Layout) × (read_by machine [] "internal" "layout.yaml" ≡ some (ok (some l, none)))
        × (write_layout machine l "rhel" "/etc" false kept_files
            ≡ ok (kept_files, some "Error reading 'internal': json: Unmarshal(nil *util.Layout)")))
compile-target_example =
    compile-target machine [] "internal" "rhel" "layout.yaml" "/etc" false kept_files kept_files
      (some "Error reading 'internal': json: Unmarshal(nil *util.Layout)") internal_fails
