-- ===== src/Watch/Context.antt =====
-- src/watch/mod.rs: the state of the watch loop, what the API sees of it, and its settings.
use chbackup.Base.{ℕ, ◌*◌, Bool, ◌&&◌, Option, none, some, List, [], if◌then◌else◌, Result, ok, err}
use chbackup.Base.Text.{Text, codes, is_empty}
use chbackup.Config.{Config, DurationError, parse_duration_secs}
use chbackup.Watch.{BackupType, full, incr}

pub data WatchState : Type 0 where
  idle creating_full creating_incr uploading cleaning sleeping error : WatchState

pub data WatchLoopExit : Type 0 where
  shutdown max_errors stopped : WatchLoopExit

abbrev pub watch_state_name : WatchState → Text
watch_state_name idle = codes "idle"
watch_state_name creating_full = codes "creating_full"
watch_state_name creating_incr = codes "creating_incr"
watch_state_name uploading = codes "uploading"
watch_state_name cleaning = codes "cleaning"
watch_state_name sleeping = codes "sleeping"
watch_state_name error = codes "error"

-- What the API reads of the loop.
pub record WatchStatus : Type 0 where
  pub state : Text
  pub last_full : Option ℕ
  pub last_incr : Option ℕ
  pub consecutive_errors : ℕ
  pub next_backup_in : Option ℕ

pub record WatchContext : Type 0 where
  pub config : Config
  pub state : WatchState
  pub consecutive_errors : ℕ
  pub force_next_full : Bool
  pub last_backup_name : Option Text
  pub macros : List (Text × Text)
  pub watch_status : WatchStatus

unfoldable pub set_state : WatchState → WatchContext → WatchContext
set_state new_state ctx = record ctx {
  state = new_state;
  watch_status = record ctx.watch_status { state = watch_state_name new_state };
}

unfoldable pub set_consecutive_errors : ℕ → WatchContext → WatchContext
set_consecutive_errors count ctx = record ctx {
  consecutive_errors = count;
  watch_status = record ctx.watch_status { consecutive_errors = count };
}

unfoldable pub set_next_backup_in : Option ℕ → WatchContext → WatchContext
set_next_backup_in t ctx = record ctx {
  watch_status = record ctx.watch_status { next_backup_in = t };
}

-- The results of the calls of a reload, in their order.
pub record ReloadAttempt : Type 0 where
  pub loaded : Option Config
  pub valid : Bool
  pub client : Bool
  pub storage : Bool
  pub new_macros : Option (List (Text × Text))

abbrev or_empty : Option (List (Text × Text)) → List (Text × Text)
or_empty none = []
or_empty (some l) = l

unfoldable pub apply_config_reload : ReloadAttempt → WatchContext → WatchContext
apply_config_reload attempt ctx = elim attempt.loaded [
  | none ↦ ctx
  | some new_config ↦
      if attempt.valid && (attempt.client && attempt.storage)
      then record ctx { macros = or_empty attempt.new_macros; config = new_config }
      else ctx
]

-- What may wake a sleep: a change of the shutdown flag or of the reload flag, with its new value.
pub data Signal : Type 0 where
  shutdown_changed : Bool → Signal
  reload_changed : Bool → ReloadAttempt → Signal

-- A duration in nanoseconds
unfoldable pub from_secs : ℕ → ℕ
from_secs s = s * 1000000000

abbrev or_default : ℕ → Result DurationError ℕ → ℕ
or_default d (ok s) = s
or_default d (err e) = d

unfoldable pub watch_interval_of : Config → ℕ
watch_interval_of config =
    from_secs (or_default 3600 (parse_duration_secs config.watch.watch_interval))

unfoldable pub full_interval_of : Config → ℕ
full_interval_of config =
    from_secs (or_default 86400 (parse_duration_secs config.watch.full_interval))

unfoldable pub retry_interval_of : Config → ℕ
retry_interval_of config =
    from_secs (or_default 300 (parse_duration_secs config.watch.retry_interval))

unfoldable pub tables_filter : Config → Option Text
tables_filter config = elim config.watch.tables [
  | some t ↦ some t
  | none ↦ if is_empty config.backup_tables then none else some config.backup_tables
]

abbrev pub type_text : BackupType → Text
type_text full = codes "full"
type_text incr = codes "incr"
