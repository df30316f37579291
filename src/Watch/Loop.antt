-- ===== src/Watch/Loop.antt =====
-- src/watch/mod.rs: run_watch_loop, one cycle of it, and its sleeps. What the cycle asks of the rest
-- of the program and of the machine is the record World.
use chbackup.Base.{
  ℕ, zero, suc, ◌+◌, ◌^◌, ◌%◌, Bool, true, false, ◌&&◌, Option, none, some, List, [], ◌∷◌,
  if◌then◌else◌, ltb, leb, Result, ok, err,
}
use chbackup.Base.Text.{Text}
use chbackup.Base.Int.{is_positive, as_usize}
use chbackup.Listing.{BackupSummary}
use chbackup.Server.{NameError, validate_backup_name}
use chbackup.Config.{Config, effective_retention_local, effective_retention_remote}
use chbackup.Watch.{
  ResumeDecision, full_now, incr_now, sleep_then_incr, BackupType, full, incr, resume_state,
}
use chbackup.Watch.Names.{resolve_name_template}
use chbackup.Watch.Context.{
  WatchState, idle, creating_full, creating_incr, uploading, cleaning, sleeping, error,
  WatchLoopExit, shutdown, max_errors, WatchContext, set_state, set_consecutive_errors,
  set_next_backup_in, apply_config_reload, Signal, shutdown_changed, reload_changed,
  watch_interval_of, full_interval_of, retry_interval_of, tables_filter, type_text,
}

abbrev creating : BackupType → WatchState
creating full = creating_full
creating incr = creating_incr

-- The calls of a cycle. Each gives the state that it leaves, and its result: a listing or `none`,
-- whether it succeeded, or the number of deleted backups. `signals` are the wakes of a sleep before
-- its time is over, `shutdown_flag` is the flag as it stands, `matches` the glob library, `format`
-- the library for dates.
pub record World : Type 1 where
  pub State : Type 0
  pub matches : Text → Text → Option Bool
  pub format : ℕ → Text → Text
  pub shutdown_flag : State → Bool
  pub clock : State → State × ℕ
  pub signals : ℕ → State → State × List Signal
  pub list_remote : State → State × Option (List BackupSummary)
  pub lock_backup : Text → State → State × Bool
  pub drop_lock : Text → State → State
  pub create : Text → Option Text → State → State × Bool
  pub upload : Text → Option Text → State → State × Bool
  pub invalidate_cache : State → State
  pub delete_local : Text → State → State
  pub retention_local : ℕ → State → State
  pub retention_remote : ℕ → State → State × Option ℕ

-- The outcome of a stage: with an exit the loop returns, without one it continues.
pub record Outcome (State : Type 0) : Type 0 where
  pub ctx : WatchContext
  pub world : State
  pub exit : Option WatchLoopExit

module _ (w : World) where
  abbrev continue : WatchContext → w.State → Outcome w.State
  continue ctx s = record { ctx = ctx; world = s; exit = none }

  abbrev return : WatchLoopExit → WatchContext → w.State → Outcome w.State
  return reason ctx s = record { ctx = ctx; world = s; exit = some reason }

  unfoldable pub handle_signals : List Signal → WatchContext → w.State → Outcome w.State
  handle_signals [] ctx s = continue ctx s
  handle_signals (shutdown_changed true ∷ rest) ctx s = return shutdown ctx s
  handle_signals (shutdown_changed false ∷ rest) ctx s = handle_signals rest ctx s
  handle_signals (reload_changed true attempt ∷ rest) ctx s =
      handle_signals rest (apply_config_reload attempt ctx) s
  handle_signals (reload_changed false attempt ∷ rest) ctx s = handle_signals rest ctx s

  unfoldable pub interruptible_sleep : ℕ → WatchContext → w.State → Outcome w.State
  interruptible_sleep duration ctx s =
      let (s', signals) = w.signals duration s in handle_signals signals ctx s'

  unfoldable pub handle_error : ℕ → WatchContext → w.State → Outcome w.State
  handle_error retry_interval ctx s =
      let counted = set_consecutive_errors ((ctx.consecutive_errors + 1) % 2 ^ 32) ctx in
      interruptible_sleep retry_interval
        (set_state error (record counted { force_next_full = true })) s

  -- A sleep of the given time that the API sees.
  unfoldable pub sleep_for : ℕ → WatchContext → w.State → Outcome w.State
  sleep_for duration ctx s =
      let o =
        interruptible_sleep duration (set_next_backup_in (some duration) (set_state sleeping ctx))
          s in
      record o { ctx = set_next_backup_in none o.ctx }

  unfoldable pub record_upload : BackupType → ℕ → WatchContext → WatchContext
  record_upload full now ctx = record ctx {
    watch_status = record ctx.watch_status { last_full = some now };
  }
  record_upload incr now ctx = record ctx {
    watch_status = record ctx.watch_status { last_incr = some now };
  }

  unfoldable pub with_deleted : Option ℕ → w.State → w.State
  with_deleted none s = s
  with_deleted (some deleted) s = if ltb 0 deleted then w.invalidate_cache s else s

  unfoldable pub remote_retention : Config → w.State → w.State
  remote_retention config s =
      let keep = effective_retention_remote config in
      let (s', deleted) = w.retention_remote (as_usize keep) s in
      if is_positive keep then with_deleted deleted s' else s

  -- Steps 5 and 6, and the reset of the errors.
  unfoldable pub clean_up : Config → Text → w.State → w.State
  clean_up config backup_name s =
      let s1 = if config.watch.delete_local_after_upload then w.delete_local backup_name s else s in
      let keep = effective_retention_local config in
      let s2 = if is_positive keep then w.retention_local (as_usize keep) s1 else s1 in
      remote_retention config s2

  unfoldable pub reset_errors : BackupType → Text → WatchContext → WatchContext
  reset_errors full backup_name ctx = record (set_consecutive_errors 0 ctx) {
    force_next_full = false;
    last_backup_name = some backup_name;
  }
  reset_errors incr backup_name ctx = record (set_consecutive_errors 0 ctx) {
    last_backup_name = some backup_name;
  }

  -- What follows a successful upload.
  unfoldable pub finish_cycle : BackupType → Text → ℕ → WatchContext → w.State → Outcome w.State
  finish_cycle backup_type backup_name watch_interval ctx s =
      let (s1, upload_ts) = w.clock (w.invalidate_cache s) in
      let cleaned = set_state cleaning (record_upload backup_type upload_ts ctx) in
      sleep_for watch_interval (reset_errors backup_type backup_name cleaned)
        (clean_up ctx.config backup_name s1)

  -- What follows the upload, the creation and the acquisition of the lock, by their success.
  unfoldable pub after_upload : Bool → BackupType → Text → WatchContext → w.State → Outcome w.State
  after_upload true backup_type backup_name ctx s =
      finish_cycle backup_type backup_name (watch_interval_of ctx.config) ctx s
  after_upload false backup_type backup_name ctx s =
      handle_error (retry_interval_of ctx.config) ctx s

  unfoldable pub after_create :
      Bool → BackupType → Option Text → Text → WatchContext → w.State → Outcome w.State
  after_create true backup_type diff_from backup_name ctx s =
      let (s', uploaded) = w.upload backup_name diff_from s in
      after_upload uploaded backup_type backup_name (set_state uploading ctx) s'
  after_create false backup_type diff_from backup_name ctx s =
      handle_error (retry_interval_of ctx.config) ctx s

  unfoldable pub locked_cycle :
      BackupType → Option Text → Text → WatchContext → w.State → Outcome w.State
  locked_cycle backup_type diff_from backup_name ctx s =
      let (s', created) = w.create backup_name (tables_filter ctx.config) s in
      after_create created backup_type diff_from backup_name (set_state (creating backup_type) ctx)
        s'

  -- The lock is dropped at the end of the iteration, behind the sleep.
  unfoldable pub after_lock :
      Bool → BackupType → Option Text → Text → WatchContext → w.State → Outcome w.State
  after_lock true backup_type diff_from backup_name ctx s =
      let o = locked_cycle backup_type diff_from backup_name ctx s in
      record o { world = w.drop_lock backup_name o.world }
  after_lock false backup_type diff_from backup_name ctx s =
      handle_error (retry_interval_of ctx.config) ctx s

  -- What the validation of the name leads to.
  unfoldable pub with_name :
      Result NameError (Unit {0})
      → BackupType
      → Option Text
      → Text
      → WatchContext
      → w.State
      → Outcome w.State
  with_name (err e) backup_type diff_from backup_name ctx s =
      handle_error (retry_interval_of ctx.config) ctx s
  with_name (ok _) backup_type diff_from backup_name ctx s =
      let (s', locked) = w.lock_backup backup_name s in
      after_lock locked backup_type diff_from backup_name ctx s'

  unfoldable pub backup_cycle : BackupType → Option Text → WatchContext → w.State → Outcome w.State
  backup_cycle backup_type diff_from ctx s =
      let (s', now) = w.clock s in
      let backup_name =
        resolve_name_template w.format ctx.config.watch.name_template (type_text backup_type) now
          ctx.macros in
      with_name (validate_backup_name backup_name) backup_type diff_from backup_name ctx s'

  unfoldable pub incr_unless_forced : Bool → Text → WatchContext → w.State → Outcome w.State
  incr_unless_forced true diff_from ctx s = backup_cycle full none ctx s
  incr_unless_forced false diff_from ctx s = backup_cycle incr (some diff_from) ctx s

  unfoldable pub act : ResumeDecision → WatchContext → w.State → Outcome w.State
  act (sleep_then_incr remaining) ctx s = sleep_for remaining ctx s
  act full_now ctx s = backup_cycle full none ctx s
  act (incr_now diff_from) ctx s = incr_unless_forced ctx.force_next_full diff_from ctx s

  unfoldable pub with_listing :
      Option (List BackupSummary) → WatchContext → w.State → Outcome w.State
  with_listing none ctx s = handle_error (retry_interval_of ctx.config) ctx s
  with_listing (some remote_backups) ctx s =
      let (s', now) = w.clock s in
      act
        (resume_state w.matches remote_backups ctx.config.watch.name_template
          (watch_interval_of ctx.config) (full_interval_of ctx.config) now)
        ctx s'

  unfoldable pub query : WatchContext → w.State → Outcome w.State
  query ctx s = let (s', listing) = w.list_remote s in with_listing listing ctx s'

  -- One iteration of the loop.
  unfoldable pub iterate : WatchContext → w.State → Outcome w.State
  iterate ctx s =
      let limit = ctx.config.watch.max_consecutive_errors in
      if leb limit ctx.consecutive_errors && ltb 0 limit
      then return max_errors ctx s
      else if w.shutdown_flag s
      then return shutdown (set_state idle ctx) s
      else query (set_state idle ctx) s

  -- With an exit the loop returns, without one it goes on.
  abbrev pub unless_exited :
      Option WatchLoopExit → Outcome w.State → Outcome w.State → Outcome w.State
  unless_exited (some reason) o later = o
  unless_exited none o later = later

  -- At most as many iterations as the fuel; without an exit the loop is still running then.
  unfoldable pub watch_iterations : ℕ → WatchContext → w.State → Outcome w.State
  watch_iterations zero ctx s = continue ctx s
  watch_iterations (suc fuel) ctx s =
      let o = iterate ctx s in
      let later = watch_iterations fuel o.ctx o.world in unless_exited o.exit o later

  unfoldable pub run_watch_loop : ℕ → WatchContext → w.State → Outcome w.State
  run_watch_loop fuel ctx s = watch_iterations fuel (set_state idle ctx) s
