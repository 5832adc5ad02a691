-- ===== src/Systemd/Write.antt =====
-- systemd/networkd.go: Write. The folder that ioutil.TempDir makes, or its error, is a parameter, as is
-- what stands in the destination. os.RemoveAll removes what filepath.Glob has found there. Write is that
-- of a writer that has written nothing yet, as run.go makes one for each call.
pub mod Laws
use netwrangler.Base.{String, [], not, ◌⊎◌, inl, inr, Option, none, some, if◌then◌else◌}
use netwrangler.Net.{Gnet}
use netwrangler.Outcome.{Outcome, ok, ◌>>=◌}
use netwrangler.Err.{Err, GoError, new_err, empty, merge, or_nil, collected, plain}
use netwrangler.Validators.{Printer}
use netwrangler.Copy.{Disk, Folder, copy}
use netwrangler.Systemd.Writer.{Systemd, Run, write_roots}

abbrev pub start_run : Run
start_run = record { written = []; err = new_err "systemd-networkd"; files = [] }

module _ (d : Disk) (final : String) where
  -- What follows the loop over the roots: the destination's files, and the error.
  unfoldable pub install : String → Run → Folder → Folder × Option GoError
  install dir r target =
      if not (empty r.err)
      then (target, some (collected r.err))
      else elim (d.glob_error (d.join final "*")) [
        | some reason ↦ (target, some (collected (merge r.err (some (plain reason)))))
        | none ↦
            let c = copy d dir r.files final (record { err = r.err; files = [] }) in
            (c.files, or_nil c.err)
      ]

  -- Write
  unfoldable pub write :
      Gnet → Printer → Systemd → String ⊎ String → Folder → Outcome (Folder × Option GoError)
  write g t s (inr reason) target = ok (target, some (plain reason))
  write g t s (inl dir) target =
      write_roots d g t (record s { dest = dir }) start_run >>= λ r. ok (install dir r target)
