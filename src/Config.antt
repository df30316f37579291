-- ===== src/Config.antt =====
-- src/config.rs: the settings that the watch loop and the retention after an upload read, durations,
-- and the choice between the two retention sections (src/list.rs).
pub mod Durations
use chbackup.Base.{ℕ, ◌*◌, min, Bool, Option, none, some, if◌then◌else◌, Result, ok, err}
use chbackup.Base.Text.{Text, codes, is_empty}
use chbackup.Base.Int.{ℤ, is_zero}
use chbackup.Base.Decimal.{parse_uint}
use chbackup.Base.Lines.{trim}
use chbackup.Listing.{u64_max}
use chbackup.Lock.{strip_suffix}

pub record WatchConfig : Type 0 where
  pub watch_interval : Text
  pub full_interval : Text
  pub name_template : Text
  pub tables : Option Text
  pub max_consecutive_errors : ℕ
  pub retry_interval : Text
  pub delete_local_after_upload : Bool

pub record KeepConfig : Type 0 where
  pub backups_to_keep_local : ℤ
  pub backups_to_keep_remote : ℤ

-- Of the sections `general` and `retention`, the counts; of `backup`, its tables.
pub record Config : Type 0 where
  pub general : KeepConfig
  pub retention : KeepConfig
  pub backup_tables : Text
  pub watch : WatchConfig

unfoldable pub effective_retention_local : Config → ℤ
effective_retention_local config =
    if is_zero config.retention.backups_to_keep_local
    then config.general.backups_to_keep_local
    else config.retention.backups_to_keep_local

unfoldable pub effective_retention_remote : Config → ℤ
effective_retention_remote config =
    if is_zero config.retention.backups_to_keep_remote
    then config.general.backups_to_keep_remote
    else config.retention.backups_to_keep_remote

pub data DurationError : Type 0 where
  empty_duration : DurationError
  invalid_number : Text → DurationError

-- `num_str.parse()`, with the multiplication that saturates
unfoldable pub scaled : Text → ℕ → Result DurationError ℕ
scaled num_str multiplier = elim (parse_uint u64_max num_str) [
  | none ↦ err (invalid_number num_str)
  | some num ↦ ok (min (num * multiplier) u64_max)
]

-- The digits and the multiplier of a duration.
unfoldable pub with_unit : Text → Result DurationError ℕ
with_unit s = elim (strip_suffix s (codes "h")) [
  | some n ↦ scaled n 3600
  | none ↦ elim (strip_suffix s (codes "m")) [
    | some n ↦ scaled n 60
    | none ↦ elim (strip_suffix s (codes "s")) [ some n ↦ scaled n 1 | none ↦ scaled s 1 ]
  ]
]

unfoldable pub parse_duration_secs : Text → Result DurationError ℕ
parse_duration_secs s = if is_empty (trim s) then err empty_duration else with_unit (trim s)
