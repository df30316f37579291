-- ===== src/Lock.antt =====
-- src/lock.rs: the PID lock files of one lock directory. The operating system's answers about
-- processes and the JSON coding are a parameter, `Host`.
pub mod Acquire
pub mod Attempts
pub mod Outcome
pub mod Scopes
pub mod Tests
use chbackup.Base.{
  ℕ, suc, ◌+◌, Bool, true, false, not, ◌&&◌, Option, none, some, List, [], ◌∷◌, ◌++◌, map,
  if◌then◌else◌, any, ltb, keep_if, Result, ok, err,
}
use chbackup.Base.Text.{Text, codes, text_eq, is_empty, strip_prefix, contains}

pub record LockInfo : Type 0 where
  pub pid : ℕ
  pub command : Text
  pub timestamp : Text
  pub token : Option Text

-- What `is_pid_alive` and `process_start_token` answer, and serde's reading and writing of a lock
-- file; `decode_value` reads the process and the token of any JSON value.
pub record Host : Type 0 where
  pub is_alive : ℕ → Bool
  pub start_token : ℕ → Option Text
  pub encode : LockInfo → Text
  pub decode : Text → Option LockInfo
  pub decode_value : Text → Option (ℕ × Option Text)

pub data Contents : Type 0 where
  bytes : Text → Contents
  unreadable_file : Contents

-- The lock directory: its files by name, whether a file can be created there, which files can be
-- removed, and whether it can be listed.
pub record Directory : Type 0 where
  pub files : List (Text × Contents)
  pub can_create : Bool
  pub can_remove : Text → Contents → Bool
  pub can_list : Bool

unfoldable pub find_file : Text → List (Text × Contents) → Option Contents
find_file name [] = none
find_file name ((n, c) ∷ rest) =
    let later = find_file name rest in if text_eq n name then some c else later

abbrev pub read_file : Text → Directory → Option Contents
read_file name d = find_file name d.files

abbrev pub without_file : Text → Directory → Directory
without_file name d = record d { files = keep_if (λ f. not (text_eq f.0 name)) d.files }

-- `let _ = fs::remove_file(path)`: a failure is ignored.
unfoldable pub remove_file : Text → Directory → Directory
remove_file name d = elim (read_file name d) [
  | none ↦ d
  | some c ↦ if d.can_remove name c then without_file name d else d
]

pub data LockError : Type 0 where
  held : LockInfo → LockError
  create_failed keeps_reappearing no_lock_file scan_failed : LockError
  gave_up : LockError → LockError
  blocked_by_backup : Text → LockInfo → LockError
  blocked_by_global : LockInfo → LockError

pub data ExistingLock : Type 0 where
  live : LockInfo → ExistingLock
  stale gone unreadable : ExistingLock

pub data Publication : Type 0 where
  published already_exists failed : Publication

-- `publish_lock_file`, by its effect on the published name: the temporary file is removed again.
unfoldable pub publish_lock_file : Text → Text → Directory → Directory × Publication
publish_lock_file name json d = if not d.can_create then (d, failed) else elim (read_file name d) [
  | none ↦ (record d { files = (name, bytes json) ∷ d.files }, published)
  | some c ↦ (d, already_exists)
]

pub data LockScope : Type 0 where
  backup : Text → LockScope
  global no_scope : LockScope

abbrev pub is_backup_command : Text → Bool
is_backup_command = contains (
    codes "create"
    ∷ codes "upload"
    ∷ codes "download"
    ∷ codes "restore"
    ∷ codes "create_remote"
    ∷ codes "restore_remote"
    ∷ codes "release-deferred"
    ∷ [])

abbrev pub is_global_command : Text → Bool
is_global_command = contains (
    codes "clean"
    ∷ codes "clean_broken"
    ∷ codes "clean_broken_remote"
    ∷ codes "clean_broken_local"
    ∷ codes "delete"
    ∷ [])

abbrev pub scope_of_name : Option Text → LockScope
scope_of_name none = global
scope_of_name (some name) = if is_empty name then global else backup name

unfoldable pub lock_for_command : Text → Option Text → LockScope
lock_for_command command name =
    if is_backup_command command
    then scope_of_name name
    else if is_global_command command
    then global
    else no_scope

abbrev pub lock_prefix : Text
lock_prefix = codes "chbackup."

abbrev pub lock_suffix : Text
lock_suffix = codes ".pid"

abbrev pub global_stem : Text
global_stem = codes "global"

abbrev pub gate_lock_file : Text
gate_lock_file = codes "chbackup.acquire.lock"

-- `lock_path_for_scope`, the name in the lock directory.
unfoldable pub lock_path_for_scope : LockScope → Option Text
lock_path_for_scope (backup name) = some (lock_prefix ++ (name ++ lock_suffix))
lock_path_for_scope global = some (lock_prefix ++ (global_stem ++ lock_suffix))
lock_path_for_scope no_scope = none

-- `s.strip_suffix(suffix)`
unfoldable pub strip_suffix : Text → Text → Option Text
strip_suffix [] suffix = if text_eq [] suffix then some [] else none
strip_suffix (a ∷ s) suffix =
    let rest = strip_suffix s suffix in
    if text_eq (a ∷ s) suffix then some [] else elim rest [ none ↦ none | some r ↦ some (a ∷ r) ]

abbrev pub stem_of : Text → Option Text
stem_of stem = if not (is_empty stem) && not (text_eq stem global_stem) then some stem else none

unfoldable pub backup_name_from_lock_file : Text → Option Text
backup_name_from_lock_file file_name = elim (strip_prefix file_name lock_prefix) [
  | none ↦ none
  | some rest ↦ elim (strip_suffix rest lock_suffix) [ none ↦ none | some stem ↦ stem_of stem ]
]

-- The constants of `PidLock::acquire` and of the gate.
abbrev pub acquire_max_attempts : ℕ
acquire_max_attempts = 6

abbrev pub corrupt_lock_max_reads : ℕ
corrupt_lock_max_reads = 3

abbrev pub gate_max_attempts : ℕ
gate_max_attempts = 40

module _ (host : Host) where
  unfoldable pub holder_is_live : ℕ → Option Text → Bool
  holder_is_live pid token = if not (host.is_alive pid) then false else elim token [
    | none ↦ true
    | some recorded ↦ elim (host.start_token pid) [
      | some current ↦ text_eq current recorded
      | none ↦ true
    ]
  ]

  unfoldable pub judge : Option LockInfo → ExistingLock
  judge none = unreadable
  judge (some info) = if holder_is_live info.pid info.token then live info else stale

  unfoldable pub inspect_lock_file : Text → Directory → ExistingLock
  inspect_lock_file name d = elim (read_file name d) [
    | none ↦ gone
    | some c ↦ elim c [ unreadable_file ↦ unreadable | bytes text ↦ judge (host.decode text) ]
  ]

  abbrev pub value_is_live : Option (ℕ × Option Text) → Bool
  value_is_live none = false
  value_is_live (some (pid, token)) = holder_is_live pid token

  unfoldable pub is_lock_file_active : Text → Directory → Bool
  is_lock_file_active name d = elim (read_file name d) [
    | none ↦ false
    | some c ↦ elim c [
      | unreadable_file ↦ false
      | bytes text ↦ value_is_live (host.decode_value text)
    ]
  ]

  -- The holder that the error names.
  unfoldable pub live_lock_holder : Text → Directory → Option LockInfo
  live_lock_holder name d = elim (inspect_lock_file name d) [
    | live info ↦ some info
    | stale ↦ none
    | gone ↦ none
    | unreadable ↦ none
  ]

  -- The scan of the directory for the lock of a backup that is held.
  unfoldable pub scan : List (Text × Contents) → Directory → Result LockError (Unit {0})
  scan [] d = ok tt
  scan ((name, c) ∷ rest) d =
      let later = scan rest d in
      elim (backup_name_from_lock_file name) [
        | none ↦ later
        | some b ↦ elim (live_lock_holder name d) [
          | some holder ↦ err (blocked_by_backup b holder)
          | none ↦ later
        ]
      ]

  unfoldable pub check_cross_tier_exclusion : LockScope → Directory → Result LockError (Unit {0})
  check_cross_tier_exclusion global d = if d.can_list then scan d.files d else err scan_failed
  check_cross_tier_exclusion (backup name) d =
      elim (live_lock_holder (lock_prefix ++ (global_stem ++ lock_suffix)) d) [
        | some holder ↦ err (blocked_by_global holder)
        | none ↦ ok tt
      ]
  check_cross_tier_exclusion no_scope d = ok tt
