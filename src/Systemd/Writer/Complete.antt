-- ===== src/Systemd/Writer/Complete.antt =====
-- An accepted layout is written as a whole.
use mathlib.Core.Bool.{false≢true}
use mathlib.Core.List.Memᴰ
use netwrangler.Base.{
  String, true, ◌≡◌, sym, ◌∙◌, ◌↔◌, inl, inr, none, some, List, [], Memᴰ, contains, contains_iff,
  arith, Bool-cases, Option-cases, subst, ⊎_elim, some_cancel,
}
use netwrangler.GoMap.{GoMap, get, get_or, keys}
use netwrangler.GoMap.Laws.{mem-keys_iff}
use netwrangler.Net.{Gnet}
use netwrangler.Outcome.{ok}
use netwrangler.Err.{Err}
use netwrangler.Validators.{Printer}
use netwrangler.Layout.{Interface, Layout}
use netwrangler.Layout.Members.Ownership.{IsParent}
use netwrangler.Layout.Members.Ownership.Exclusive.{IsNamed}
use netwrangler.Layout.Members.Total.{IsKind, IsVirtualKind}
use netwrangler.Layout.Cycles.Graph.{Edge, Walk, IsRoot}
use netwrangler.Layout.Validation.{layout_validate}
use netwrangler.Layout.Validation.Total.{IsTyped}
use netwrangler.Layout.Validation.Ownership.{layout_validate-parents_iff, layout_validate-IsSound}
use netwrangler.Layout.Validation.Roots.Found.{layout_validate-roots_iff}
use netwrangler.Layout.Validation.Acyclic.{layout_validate-not-IsTrapped}
use netwrangler.Layout.Validation.Stripping.Kept.{kept, entry_before}
use netwrangler.Systemd.Laws.{HasTextPrimary}
use netwrangler.Systemd.Devices.Laws.{HasBoolWake}
use netwrangler.Copy.{Disk}
use netwrangler.Systemd.Writer.{Systemd, Run, write_roots}
use netwrangler.Systemd.Writer.Unwritten.{Within}
use netwrangler.Base.{all_differ}
use netwrangler.Systemd.Writer.Paths.{paths, network_path, device_path}
use netwrangler.Systemd.Writer.Holding.{IsReady, Holds}
use netwrangler.Systemd.Writer.Traversal.{Adds, write_roots_adds}

-- Nothing is written yet.
abbrev pub blank_run : Err → Run
blank_run e = record { written = []; err = e; files = [] }

-- The files of every interface can be created, and no two of them are the same.
pub record HasRoom (d : Disk) (s : Systemd) : Type 0 where
  pub opens :
      (k : String) (v : Interface)
      → get k s.layout.interfaces ≡ some v
      → (d.create_error (network_path d s k) ≡ none) × (d.create_error (device_path d s k v) ≡ none)
  pub differ : all_differ (paths d s s.layout.interfaces) ≡ true

-- The parameters that the writer asserts a type of have that type.
pub record HasWriterTypes (m : GoMap Interface) : Type 0 where
  pub primary : (k : String) (v : Interface) → get k m ≡ some v → HasTextPrimary v
  pub wake : (k : String) (v : Interface) → get k m ≡ some v → HasBoolWake v

entry_of :
    (k : String) (m : GoMap Interface) → Memᴰ k (keys m) → (v : Interface) × (get k m ≡ some v)
entry_of k m h = elim (Option-cases (get k m)) [
  | inl gone ↦ absurd (ground (arith, mem-keys_iff k m))
  | inr found ↦ found
]

module _ (g : Gnet) (order : List String) (l : Layout) (s : Systemd) (named : IsNamed l.interfaces)
    (typed : IsTyped l.interfaces) (blank : l.roots ≡ [])
    (ranged : (k : String) → Memᴰ k order ↔ Memᴰ k (keys l.interfaces))
    (accepted : layout_validate g order l ≡ ok (s.layout, none)) where
  final-IsNamed : IsNamed s.layout.interfaces
  final-IsNamed k v there =
      let (v0, here, same) = entry_before g order l s.layout named accepted k v there in
      same.name ∙ named k v0 here

  -- What an entry lists is there.
  final_subs :
      (k : String) (v : Interface)
      → get k s.layout.interfaces ≡ some v
      → (x : String) → Memᴰ x v.interfaces
      → (c : Interface) × (get x s.layout.interfaces ≡ some c)
  final_subs k v there x listed =
      let (v0, here, same) = entry_before g order l s.layout named accepted k v there in
      let sound = layout_validate-IsSound g order l s.layout k v0 named accepted here in
      let (child, defined, allowed) = sound.members x ((same.subs x).0 listed) in
      let (c, now, k') = kept g order l s.layout named accepted x child defined in (c, now)

  -- A recorded parent is there, is of a kind that can be written, and lists its child.
  final_parent :
      (k q : String)
      → IsParent s.layout.child2parent k q
      → (p : Interface) × (get q s.layout.interfaces ≡ some p)
        × IsVirtualKind p.type
        × Memᴰ k p.interfaces
  final_parent k q m =
      let o = (layout_validate-parents_iff g order l s.layout k q named accepted).0 m in
      let (p, now, same) = kept g order l s.layout named accepted q o.owner o.defined in
      (
        p,
        now,
        ⊎_elim (λ physical. absurd (o.virtual (sym same.type ∙ physical))) (λ kind. kind)
            (subst IsKind (sym same.type) (typed q o.owner o.defined)),
        (same.subs k).1 o.lists,
      )

  -- Every root is an entry, and an entry without parents is a root.
  roots_defined :
      (k : String) → Memᴰ k s.layout.roots → (v : Interface) × (get k s.layout.interfaces ≡ some v)
  roots_defined k m =
      let (here, free) =
        ((layout_validate-roots_iff g order l s.layout named blank ranged accepted).1 k).0 m in
      let (v, there) = entry_of k l.interfaces here in
      let (v', now, same) = kept g order l s.layout named accepted k v there in (v', now)

  root_listed :
      (k : String) (v : Interface)
      → get k s.layout.interfaces ≡ some v
      → IsRoot s.layout.child2parent k
      → Memᴰ k s.layout.roots
  root_listed k v there bare =
      let (v0, here, same) = entry_before g order l s.layout named accepted k v there in
      ((layout_validate-roots_iff g order l s.layout named blank ranged accepted).1 k).1 (
        ground (arith, mem-keys_iff k l.interfaces),
        λ q owns. Memᴰ.not-nil (
            rw (bare, get_or) at
              ((layout_validate-parents_iff g order l s.layout k q named accepted).1 owns)),
      )

  module _ (d : Disk) (types : HasWriterTypes s.layout.interfaces) (room : HasRoom d s) where
    final-IsReady : IsReady d s
    final-IsReady = record {
      named = final-IsNamed;
      subs = final_subs;
      writable = λ k v there. record {
        kind =
            (let (v0, here, same) = entry_before g order l s.layout named accepted k v there in
              subst IsKind (sym same.type) (typed k v0 here));
        wake = types.wake k v there;
        parents = λ name m.
            (let (p, now, kind, lists) = final_parent v.name name m in
              record {
                parent = p;
                defined = now;
                kind = kind;
                primary = types.primary name p now;
              });
      };
      opens = room.opens;
      differ = room.differ;
    }

    module _ (t : Printer) (e : Err) where
      pub loop :
          (r : Run) × (write_roots d g t s (blank_run e) ≡ ok r)
          × Adds d g t s (blank_run e) r
          × Within s.layout.roots r.written
      unfolding keys
      loop = write_roots_adds d g t s final-IsReady (blank_run e) roots_defined (record {
        written = λ k m. absurd (Memᴰ.not-nil m);
        own = λ p m. absurd (Memᴰ.not-nil m);
      })

      abbrev pub final_run : Run
      final_run = loop.0

      pub adds : Adds d g t s (blank_run e) final_run
      adds = loop.2

      -- A parent that was written has its children written.
      edge_down :
          {a b : String}
          → Edge s.layout.child2parent a b
          → Memᴰ b final_run.written
          → Memᴰ a final_run.written
      edge_down {a} {b} (Edge.edge next found m) done =
          let (p, here, kind, lists) = final_parent a b (rw (found, get_or) m) in
          ⊎_elim (λ old. absurd (Memᴰ.not-nil old)) (λ subs. subs a lists)
            (adds.closed b p here done)

      walk_down :
          {a b : String}
          → Walk s.layout.child2parent a b
          → Memᴰ b final_run.written
          → Memᴰ a final_run.written
      walk_down (Walk.last e) done = edge_down e done
      walk_down (Walk.step w e) done = walk_down w (edge_down e done)

      root_written :
          (k : String) (v : Interface)
          → get k s.layout.interfaces ≡ some v
          → IsRoot s.layout.child2parent k
          → Memᴰ k final_run.written
      root_written k v there bare = loop.3 k (root_listed k v there bare)

      -- Where a walk ends there is an entry.
      reached_entry :
          {a b : String}
          → Walk s.layout.child2parent a b
          → (v : Interface) × (get b s.layout.interfaces ≡ some v)
      reached_entry {a} {b} (Walk.last (Edge.edge next found m)) =
          let (p, here, kind, lists) = final_parent a b (rw (found, get_or) m) in (p, here)
      reached_entry {a} {b} (Walk.step {b = x} w (Edge.edge next found m)) =
          let (p, here, kind, lists) = final_parent x b (rw (found, get_or) m) in (p, here)

      all_written :
          (k : String) (v : Interface)
          → get k s.layout.interfaces ≡ some v
          → Memᴰ k final_run.written
      all_written k v there = elim (Bool-cases (contains k final_run.written)) [
        | inl done ↦ (contains_iff k final_run.written).0 done
        | inr left ↦
            let unwritten' : ¬ Memᴰ k final_run.written =
              λ m. false≢true (sym left ∙ (contains_iff k final_run.written).1 m) in
            let (v0, here, same) = entry_before g order l s.layout named accepted k v there in
            absurd (
              layout_validate-not-IsTrapped g order l s.layout k named accepted
                ((ranged k).1 (ground (arith, mem-keys_iff k l.interfaces)))
                (record {
                  inner = λ bare. unwritten' (root_written k v there bare);
                  beyond = λ b w bare.
                      (let (p, here) = reached_entry w in
                        unwritten' (walk_down w (root_written b p here bare)));
                }))
      ]

      pub all_hold :
          (k : String) (v : Interface)
          → get k s.layout.interfaces ≡ some v
          → Holds d g t s k v final_run.files
      all_hold k v there =
          let (w, here, held) = adds.holds.written k (all_written k v there) in
          subst (λ x. Holds d g t s k x final_run.files) (some_cancel (sym here ∙ there)) held

-- On an accepted layout of physical interfaces, bonds, bridges and vlans that started without
-- roots and whose entries carry their keys as names, the last loop of Layout.Validate having
-- ranged over just the keys, if the parameters primary and wakeonlan have the types that are
-- asserted of them, and if the files can be created and differ, then the loop of Write over the
-- roots returns, reports nothing, and has written exactly the interfaces of the layout.
pub write_roots-written_iff :
    (g : Gnet) (order : List String) (l : Layout) (s : Systemd) (d : Disk) (t : Printer) (e : Err)
    → IsNamed l.interfaces
    → IsTyped l.interfaces
    → l.roots ≡ []
    → ((k : String) → Memᴰ k order ↔ Memᴰ k (keys l.interfaces))
    → layout_validate g order l ≡ ok (s.layout, none)
    → HasWriterTypes s.layout.interfaces
    → HasRoom d s
    → (r : Run) × (write_roots d g t s (blank_run e) ≡ ok r)
      × (r.err ≡ e)
      × ((k : String) → Memᴰ k r.written ↔ Memᴰ k (keys s.layout.interfaces))
write_roots-written_iff g order l s d t e named typed blank ranged accepted types room =
    let run = loop g order l s named typed blank ranged accepted d types room t e in
    (
      run.0,
      run.1,
      run.2.silent,
      λ k. (
        λ m.
            (let (v, here, held) = run.2.holds.written k m in
              ground (arith, mem-keys_iff k s.layout.interfaces)),
        λ m.
            (let (v, here) = entry_of k s.layout.interfaces m in
              all_written g order l s named typed blank ranged accepted d types room t e k v here),
      ),
    )
