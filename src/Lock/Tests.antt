-- ===== src/Lock/Tests.antt =====
-- Acquisitions of src/lock.rs in small directories, on a host where only process 7 is alive.
use chbackup.Base.{ℕ, true, Option, none, some, [], ◌∷◌, ◌++◌, ◌≡◌, refl, ◌==◌, if◌then◌else◌, err}
use chbackup.Base.Text.{Text, codes, text_eq}
use chbackup.Lock.{
  LockInfo, Host, Directory, bytes, find_file, LockError, held, create_failed, live,
  inspect_lock_file, holder_is_live, judge, backup, global, lock_prefix, lock_suffix, global_stem,
  lock_path_for_scope,
}
use chbackup.Lock.Acquire.{acquire, acquire_under_gate}
use chbackup.Lock.Outcome.{acquire-held}
use chbackup.Lock.Scopes.{acquire_under_gate-Excludes}

abbrev pub info_of : ℕ → LockInfo
info_of pid = record { pid = pid; command = []; timestamp = []; token = none }

abbrev decode_pid : Text → Option LockInfo
decode_pid [] = none
decode_pid (pid ∷ t) = some (info_of pid)

abbrev value_pid : Text → Option (ℕ × Option Text)
value_pid [] = none
value_pid (pid ∷ t) = some (pid, none)

abbrev pub host : Host
host = record {
  is_alive = λ pid. pid == 7;
  start_token = λ pid. none;
  encode = λ info. info.pid ∷ [];
  decode = decode_pid;
  decode_value = value_pid;
}

abbrev quiet : Directory → Directory
quiet d = d

abbrev daily : Text
daily = codes "daily"

abbrev daily_file : Text
daily_file = lock_prefix ++ (daily ++ lock_suffix)

abbrev pub directory : ℕ → Directory
directory pid = record {
  files = (daily_file, bytes (pid ∷ [])) ∷ [];
  can_create = true;
  can_remove = λ name c. true;
  can_list = true;
}

seven_holds : inspect_lock_file host daily_file (directory 7) ≡ live (info_of 7)
unfolding inspect_lock_file find_file judge holder_is_live text_eq
seven_holds = refl

acquire-held_example :
    let (d', r) = acquire host quiet daily_file (info_of 8) (directory 7) in
    (inspect_lock_file host daily_file d' ≡ live (info_of 7))
    × (r ≡ err (if true then held (info_of 7) else create_failed))
acquire-held_example =
    acquire-held host quiet daily_file (info_of 8) (info_of 7) (directory 7) (λ x h. h) seven_holds

acquire_under_gate-Excludes_example :
    let (d', r) =
      acquire_under_gate host quiet global
        (lock_prefix ++ (global_stem ++ lock_suffix))
        (info_of 8)
        (directory 7) in
    (inspect_lock_file host daily_file d' ≡ live (info_of 7)) × ((x : LockError) × (r ≡ err x))
unfolding lock_path_for_scope
acquire_under_gate-Excludes_example =
    acquire_under_gate-Excludes host quiet (backup daily) global daily_file
      (lock_prefix ++ (global_stem ++ lock_suffix)) (info_of 8) (info_of 7) (directory 7)
      ((λ e. cc e), (λ e. cc e)) refl refl (λ x h. h) seven_holds
