-- ===== src/Lib.antt =====
-- A verification library for netwrangler, which translates network configurations: a reader of the
-- netplan format (netplan/netplan.go) builds a util.Layout, the intermediate format (util/layout.go),
-- which is validated, and which a writer (netplan/netplan.go, systemd/networkd.go, rhel/rhel.go) turns
-- into the files of the target. The layout is what the parts share: the reader calls its Validate, and
-- the writers rely on the maps that Validate fills.
--
-- What is modelled, and where:
--   Base, Sort, GoMap, Text, Outcome, Value, Net: what the program uses of Go. A map is an association
--     list, a loop whose body carries a state is `each`, log.Panicf is an outcome, sort.Strings is an
--     insertion sort, and net.IP is a list of bytes. The package gohai, which is not part of the
--     repository, is the parameter `Gnet`.
--   Err: util/err.go, the collector of messages that every validation fills.
--   Checks: the checkers of util/validate.go that the layout calls, at values of the right type.
--   Validators: the rest of util/validate.go at any value, with its children Decoding (the checkers
--     that go through Remarshal) and Checking (Check and ValidateAndMarshal). Remarshal, and what is
--     printed of a value in messages, are the parameters `Json` and `Printer`.
--   Globs, Phys: Glob2RE of util/models.go, and util/phy.go with fillBootIf of run.go. Package regexp
--     is the parameter `Compiler`.
--   BootMac: BootMac of run.go, which sets the address that fillBootIf looks for; the value of the
--     package's variable goes in and comes out.
--   Layout: the structs of util/layout.go. Layout.Routes and Layout.Networks have the methods of
--     Route, RoutePolicy, NSInfo and Network; Layout.Members has Interface.validate, with its inner
--     loops as `sub_step` and `claim`; Layout.Cycles has Layout.cyclic; Layout.Validation has
--     Layout.Validate, with the bodies of its loops as `validate_member`, `strip_member` and
--     `sweep_step`.
--   Netplan: netplan/netplan.go. Netplan.Networks has the validators of a network and its parts,
--     Netplan.Devices those of the four kinds of interfaces, Netplan.Compile has Compile, with its
--     closures as `add_other` and `real_subs` and the bodies of its loops as `read_ethernet` and
--     `read_virtual`, Netplan.New has New, the way back from a layout, and Netplan.Files Read and
--     Write, with package yaml as the parameter `Yaml`. What Remarshal decodes into each struct is
--     the parameter `Structs`. Netplan.Kinds, Netplan.Params and the children of Netplan.Compile
--     follow the type and the parameters of an interface from a validator to the layout, and
--     Netplan.Compile.Installed from there to the files of the systemd writer.
--   Copy: util/copy.go. A folder is a map from paths to the texts of its files, and what the operating
--     system answers, with path.Join and path.Base, is the parameter `Disk`.
--   Systemd: systemd/networkd.go. Systemd itself has the functions that print the section Network of a
--     unit, Systemd.Devices those of the link and netdev files, Systemd.Writer has create, writeOut
--     and the loop of Write over the roots, and Systemd.Write has Write, which copies what was
--     rendered into the destination. What is printed is the list of the texts handed to Fprintf.
--     `network_text` and `device_lines` say what the two files of an interface are to hold.
--   Rhel: rhel/rhel.go. Rhel.Devices and Rhel.Networks have the lines of an ifcfg file, Rhel.Writer
--     has writeOut and the loop over the interfaces, and Rhel.Write has Write, which clears the
--     destination of the old files and copies the new ones into it.
--   Streams, Layout.Files: how Read and Write of the netplan and the internal format go through files
--     and standard streams, and those methods of the internal format.
--   Entry: Write, Compile and GatherPhysFromFile of run.go, which choose the reader and the writer. All
--     that lies outside of the repository is gathered in the parameter `Machine`.
--
-- How the state corresponds: a *Layout that a method changes is a value passed in and returned. The
-- slice of sub interfaces that Interface.validate sorts in place is shared with the map's entry, so
-- the entry is written back sorted. Child2Parent stands beside the collected errors while the
-- interfaces are validated. A list of
-- pointers to addresses is a list of addresses: it holds no nil, at which the program panics. Go ranges
-- over a map in an order of its own: the order of the last loop
-- of Layout.Validate is an argument of the model.
--
-- writeOut of the Red Hat writer appends to the network behind an interface's pointer, which
-- interfaces matched by one definition of a netplan share; so a network has an address, which the
-- reader counts up at every call of network(), and that writer keeps a heap of networks.
--
-- Fuel: the digits of a number are taken on fuel, for which the number is enough, as it falls with
-- every digit. The search for cycles recurs on fuel: it is started with one round more than
-- Child2Parent has keys, which is enough, since each call deeper works on one more key. So does
-- writeOut of the systemd writer, with two rounds more than the layout has interfaces, since each call
-- deeper has written one more of their names.
--
-- Not modelled: the gathering of physical interfaces from the running system (GatherPhys), which asks
-- the operating system, and the command line of cmd/netmangler.go, which reads flags and calls run.go.
pub mod Base
pub mod Sort
pub mod GoMap
pub mod Text
pub mod Streams
pub mod Entry
pub mod Outcome
pub mod Err
pub mod Value
pub mod Net
pub mod Checks
pub mod Layout
pub mod Validators
pub mod Globs
pub mod Phys
pub mod BootMac
pub mod Copy
pub mod Systemd
pub mod Rhel
pub mod Netplan
