-- ===== src/Server/Endings.antt =====
-- How a task of run_operation in src/server/state.rs may end, said without its stages.
use chbackup.Base.{
  ℕ, Bool, true, false, ◌&&◌, Option, none, some, ◌≡◌, if◌then◌else◌, any, Result, ok, err,
}
use chbackup.Base.Text.{Text}
use chbackup.Actions.{ActionStatus, other, failed, status_of}
use chbackup.Actions.Status.{closed_status, change}
use chbackup.Listing.Cache.{invalidate}
use chbackup.Lock.{
  Host, Directory, Contents, LockInfo, LockError, LockScope, lock_path_for_scope, read_file,
}
use chbackup.Lock.Acquire.{acquire_scoped}
use chbackup.Lock.Attempts.{is_removable}
use chbackup.Server.{has_id}
use chbackup.Server.Permits.{counted}
use chbackup.Server.Tasks.{Machine, Ending, completed, killed_by_user, panicked, failed_with}

-- The status that a task records by the lock's result and the ending, if it records any.
abbrev pub verdict : (LockError → Text) → Result LockError (Unit {0}) → Ending → Option ActionStatus
verdict message (err e) ending = some (failed (other (message e)))
verdict message (ok _) completed = some ActionStatus.completed
verdict message (ok _) (failed_with e) = some (failed (other e))
verdict message (ok _) killed_by_user = none
verdict message (ok _) panicked = none

-- The status of an action that is open until then, unless it was killed.
abbrev pub recorded_status : Option ActionStatus → Option ActionStatus → Option ActionStatus
recorded_status none old = old
recorded_status (some v) old = change true (closed_status v) old

abbrev pub is_ok : Result LockError (Unit {0}) → Bool
is_ok (ok _) = true
is_ok (err e) = false

abbrev pub is_completed : Ending → Bool
is_completed completed = true
is_completed _ = false

-- The endings that call neither finish_op nor fail_op.
abbrev pub is_unsettled : Ending → Bool
is_unsettled panicked = true
is_unsettled killed_by_user = true
is_unsettled _ = false

-- The lock's file, if there is one for the scope, and what the task leaves of it.
abbrev pub lock_file : Option Text → Directory → Option Contents
lock_file none d = none
lock_file (some name) d = read_file name d

abbrev pub left_file : Bool → Option Text → Directory → Option Contents
left_file locked none d = none
left_file locked (some name) d = if locked && is_removable name d then none else read_file name d

-- The lock of a scope, taken only where the scope has a file.
abbrev pub taken :
    Host
    → (Directory → Directory)
    → LockScope
    → LockInfo
    → Directory
    → Directory × Result LockError (Unit {0})
taken host others scope info d = elim (lock_path_for_scope scope) [
  | none ↦ (d, ok tt)
  | some name ↦ acquire_scoped host others scope info d
]

-- A task that ended, from the machine that its start left, the lock directory after the acquisition
-- and the result of that.
pub record IsOver (message : LockError → Text) (scope : LockScope) (b : Bool) (id : ℕ)
    (ending : Ending) (locks : Directory) (r : Result LockError (Unit {0})) (m m' : Machine)
    : Type 0 where
  pub running :
      any (has_id id) m'.app.running_ops
      ≡ (is_ok r && is_unsettled ending && any (has_id id) m.app.running_ops)
  pub permits_kept : counted m'.app ≡ counted m.app
  pub recorded :
      status_of id m'.app.action_log.entries
      ≡ recorded_status (verdict message r ending) (status_of id m.app.action_log.entries)
  pub cached :
      m'.cache ≡ (if is_ok r && is_completed ending && b then invalidate m.cache else m.cache)
  pub unlocked :
      lock_file (lock_path_for_scope scope) m'.locks
      ≡ left_file (is_ok r) (lock_path_for_scope scope) locks
