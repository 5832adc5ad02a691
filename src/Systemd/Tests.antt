-- ===== src/Systemd/Tests.antt =====
-- The systemd writer at examples.
use netwrangler.Base.{
  String, true, ◌≡◌, refl, inl, none, some, List, [], ◌∷◌, ◌==◌, Bool-cases, subst, inr,
  some_cancel, All,
}
use netwrangler.GoMap.{get}
use netwrangler.Text.{concat}
use netwrangler.Outcome.{ok, each}
use netwrangler.Err.{Err, new_err}
use netwrangler.Layout.{Interface}
use netwrangler.Layout.Tests.{
  plain_net, stack, stack_order, member, static_net, entries_of, with_net,
}
use netwrangler.Layout.Tests.Accepted.{after, stack_accepted, stack-IsNamed, stack-IsTyped}
use netwrangler.Base.{Memᴰ, ◌↔◌, contains}
use netwrangler.GoMap.{keys}
use netwrangler.Text.{digits}
use netwrangler.Outcome.{IsDone}
use netwrangler.Validators.{Printer}
use netwrangler.Layout.Tests.Accepted.{ranged}
use netwrangler.Copy.{Disk, Folder}
use netwrangler.Copy.Tests.{open_disk}
use netwrangler.Systemd.Devices.Laws.{HasBoolWake}
use netwrangler.Systemd.Writer.{Systemd, Run, path_for, write_roots}
use netwrangler.Base.{all_differ}
use netwrangler.Systemd.Writer.Paths.{paths}
use netwrangler.Systemd.Writer.Ends.{write_roots-IsDone}
use netwrangler.Systemd.Writer.Complete.{
  HasRoom, HasWriterTypes, blank_run, write_roots-written_iff,
}
use netwrangler.Systemd.Write.{start_run, write}
use netwrangler.Systemd.Write.Laws.{IsTarget, IsInstalled, write-IsInstalled}
use netwrangler.Systemd.{Output, write_parent, write_parents}
use netwrangler.Systemd.Laws.{HasTextPrimary}

abbrev after_members : List Interface
after_members =
    with_net static_net (member "bridge" "br" ("bo" ∷ []))
    ∷ member "vlan" "v2" ("br" ∷ [])
    ∷ member "bond" "bo" ("e1" ∷ "e2" ∷ [])
    ∷ member "physical" "e1" []
    ∷ member "vlan" "v1" ("br" ∷ [])
    ∷ member "physical" "e2" []
    ∷ []

abbrev empty_output : Output
empty_output = record { err = new_err "systemd-networkd"; printed = [] }

pub entries_of-All :
    (P : Interface → Type 0) (is : List Interface)
    → All P is
    → (k : String) (v : Interface) → get k (entries_of is) ≡ some v
    → P v
unfolding get
entries_of-All P [] h k v e = cc
entries_of-All P (i ∷ rest) (p, h) k v e = elim (Bool-cases (i.name == k)) [
  | inl here ↦ subst P (some_cancel (rw here at e)) p
  | inr other ↦ entries_of-All P rest h k v (rw other at e)
]

-- None of the interfaces has parameters.
abbrev IsBare : Interface → Type 0
IsBare i = i.parameters ≡ []

bare-HasTextPrimary : (i : Interface) → IsBare i → HasTextPrimary i
unfolding get
bare-HasTextPrimary i bare = inl (rw bare refl)

bare-HasBoolWake : (i : Interface) → IsBare i → HasBoolWake i
unfolding get
bare-HasBoolWake i bare = inl (rw bare refl)

after-IsBare : (k : String) (v : Interface) → get k after.interfaces ≡ some v → IsBare v
after-IsBare =
    entries_of-All IsBare after_members (refl, (refl, (refl, (refl, (refl, (refl, tt))))))

bridge_parents :
    write_parents after.interfaces
      (member "bridge" "br" ("bo" ∷ []))
      after.child2parent
      empty_output
    ≡ ok (record empty_output { printed = "VLAN=v1\n" ∷ "VLAN=v2\n" ∷ [] })
unfolding write_parents write_parent each get concat
bridge_parents = refl

abbrev pub plain_printer : Printer
plain_printer = record {
  value_text = λ v. "value";
  type_text = λ v. "type";
  syntax_error = λ s. "error";
}

abbrev writer : Systemd
writer = record { layout = after; bind_macs = true; ctr = 60; dest = "/tmp/netwrangler-1" }

after-HasWriterTypes : HasWriterTypes after.interfaces
after-HasWriterTypes = record {
  primary = λ k v here. bare-HasTextPrimary v (after-IsBare k v here);
  wake = λ k v here. bare-HasBoolWake v (after-IsBare k v here);
}

writer-HasRoom : HasRoom open_disk writer
unfolding all_differ contains paths path_for concat digits
writer-HasRoom = record { opens = λ k v here. (refl, refl); differ = refl }

abbrev pub destination : String
destination = "/etc/systemd/network"

writer-IsTarget : IsTarget open_disk writer destination
unfolding all_differ contains paths path_for concat digits
writer-IsTarget = record {
  globs = refl;
  globs_final = refl;
  makes = refl;
  opens = λ p m. (refl, refl);
  copies = λ p texts. refl;
  differ = refl;
}

write_roots-written_iff_example :
    (r : Run) × (write_roots open_disk plain_net plain_printer writer (blank_run start_run.err)
      ≡ ok r)
    × (r.err ≡ start_run.err)
    × ((k : String) → Memᴰ k r.written ↔ Memᴰ k (keys after.interfaces))
write_roots-written_iff_example =
    write_roots-written_iff plain_net stack_order stack writer open_disk plain_printer start_run.err
      stack-IsNamed stack-IsTyped refl ranged stack_accepted after-HasWriterTypes writer-HasRoom

write-IsInstalled_example :
    (files : Folder) × (write open_disk destination plain_net plain_printer writer
        (inl "/tmp/netwrangler-1")
        []
      ≡ ok (files, none))
    × IsInstalled open_disk plain_net plain_printer writer destination files
write-IsInstalled_example =
    write-IsInstalled plain_net stack_order stack writer open_disk plain_printer destination []
      stack-IsNamed stack-IsTyped refl ranged stack_accepted after-HasWriterTypes writer-HasRoom
      writer-IsTarget

write_roots-IsDone_example : IsDone (write_roots open_disk plain_net plain_printer writer start_run)
write_roots-IsDone_example = write_roots-IsDone open_disk plain_net plain_printer writer start_run

-- A folder whose files cannot be created.
abbrev shut_disk : Disk
shut_disk = record open_disk { create_error = λ path. some "denied" }

abbrev alone : Systemd
alone = record writer {
  layout = record {
    interfaces = entries_of (member "physical" "e1" [] ∷ []);
    child2parent = [];
    roots = "e1" ∷ [];
  };
}

abbrev denied : Err
denied = record {
  prefix = "systemd-networkd";
  msgs =
      "Error creating /tmp/netwrangler-1//tmp/netwrangler-1/60-e1.network: denied"
      ∷ "Error creating /tmp/netwrangler-1//tmp/netwrangler-1/60-e1.link: denied" ∷ [];
}

abbrev old_files : Folder
old_files = ("/etc/systemd/network/old.network", "[Match]\n" ∷ []) ∷ []
