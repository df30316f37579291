-- ===== src/Server/Tasks.antt =====
-- src/server/state.rs: run_operation, from its start to the end of its task, with nobody else at
-- work in between. The operation itself is given by how it ends, and `message` is the text of an
-- error of a lock.
use chbackup.Base.{ℕ, Bool, Option, none, some, if◌then◌else◌, Result, ok, err}
use chbackup.Base.Text.{Text}
use chbackup.Actions.{Message, other}
use chbackup.Listing.Cache.{ManifestCache, invalidate}
use chbackup.Lock.{
  Host, Directory, LockInfo, LockError, LockScope, backup, global, no_scope, lock_for_command,
  lock_path_for_scope, remove_file,
}
use chbackup.Lock.Acquire.{acquire_scoped}
use chbackup.Server.{AppState, try_start_op, finish_op, fail_op}

pub record Machine : Type 0 where
  pub app : AppState
  pub locks : Directory
  pub cache : ManifestCache

pub data Ending : Type 0 where
  completed killed_by_user panicked : Ending
  failed_with : Text → Ending

-- What the guard of the lock does when it is dropped.
unfoldable pub drop_lock : LockScope → Directory → Directory
drop_lock scope d = elim (lock_path_for_scope scope) [ none ↦ d | some name ↦ remove_file name d ]

-- The arms of the match on the operation's result. A killed operation leaves its state to kill_op,
-- and a panic unwinds the task without a call of finish_op or fail_op.
unfoldable pub settle_result : Bool → ℕ → ℕ → Ending → Machine → Machine
settle_result invalidate_cache id now completed m = record m {
  app = finish_op m.app id now;
  cache = if invalidate_cache then invalidate m.cache else m.cache;
}
settle_result invalidate_cache id now (failed_with error) m = record m {
  app = fail_op m.app id (other error) now;
}
settle_result invalidate_cache id now killed_by_user m = m
settle_result invalidate_cache id now panicked m = m

module _ (host : Host) (others : Directory → Directory) (message : LockError → Text) where
  unfoldable pub acquire_for :
      LockScope → LockInfo → Directory → Directory × Result LockError (Unit {0})
  acquire_for no_scope info d = (d, ok tt)
  acquire_for (backup name) info d = acquire_scoped host others (backup name) info d
  acquire_for global info d = acquire_scoped host others global info d

  unfoldable pub with_lock :
      Result LockError (Unit {0}) → LockScope → Bool → ℕ → ℕ → Ending → Machine → Machine
  with_lock (err e) scope invalidate_cache id now ending m = record m {
    app = fail_op m.app id (other (message e)) now;
  }
  with_lock (ok _) scope invalidate_cache id now ending m =
      let ended = settle_result invalidate_cache id now ending m in
      record ended { locks = drop_lock scope ended.locks }

  -- The spawned task.
  unfoldable pub run_task :
      Text → Option Text → LockInfo → Bool → ℕ → ℕ → Ending → Machine → Machine
  run_task command name info invalidate_cache id now ending m =
      let scope = lock_for_command command name in
      let (locks, acquired) = acquire_for scope info m.locks in
      with_lock acquired scope invalidate_cache id now ending (record m { locks = locks })

  unfoldable pub started :
      Result Message ℕ → Text → Option Text → LockInfo → Bool → ℕ → Ending → Machine → Machine
  started (err e) command name info invalidate_cache now ending m = m
  started (ok id) command name info invalidate_cache now ending m =
      run_task command name info invalidate_cache id now ending m

  unfoldable pub run_operation :
      Text → Option Text → LockInfo → Bool → ℕ → ℕ → Ending → Machine → Machine × Result Message ℕ
  run_operation command name info invalidate_cache now later ending m =
      let (app, answer) = try_start_op m.app command name now in
      (
        started answer command name info invalidate_cache later ending (record m { app = app }),
        answer,
      )
