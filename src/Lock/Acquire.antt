-- ===== src/Lock/Acquire.antt =====
-- src/lock.rs: how a lock is acquired. `others` is what other processes do to the directory while
-- an acquisition looks away.
use chbackup.Base.{ℕ, ◌-◌, zero, suc, none, some, if◌then◌else◌, ltb, Result, ok, err}
use chbackup.Base.Text.{Text}
use chbackup.Lock.{
  LockInfo, Host, Directory, remove_file, LockError, held, create_failed, keeps_reappearing,
  no_lock_file, gave_up, live, stale, gone, unreadable, published, already_exists, failed,
  publish_lock_file, LockScope, lock_path_for_scope, gate_lock_file, acquire_max_attempts,
  corrupt_lock_max_reads, gate_max_attempts, inspect_lock_file, check_cross_tier_exclusion,
}

module _ (host : Host) (others : Directory → Directory) where
  -- The loop of `PidLock::acquire` with `attempts` left; `reads` is `corrupt_reads`.
  unfoldable pub acquire_loop :
      Text → Text → ℕ → ℕ → Directory → Directory × Result LockError (Unit {0})
  acquire_loop name json zero reads d = (d, err keeps_reappearing)
  acquire_loop name json (suc attempts) reads d =
      let (d', p) = publish_lock_file name json d in
      elim p [
        | published ↦ (d', ok tt)
        | failed ↦ (d', err create_failed)
        | already_exists ↦
            let e = others d' in
            elim (inspect_lock_file host name e) [
              | live info ↦ (e, err (held info))
              | stale ↦ acquire_loop name json attempts reads (remove_file name e)
              | gone ↦ acquire_loop name json attempts reads e
              | unreadable ↦
                  let again = ltb reads corrupt_lock_max_reads in
                  acquire_loop name json attempts (if again then suc reads else reads)
                    (if again then others e else remove_file name e)
            ]
      ]

  unfoldable pub acquire : Text → LockInfo → Directory → Directory × Result LockError (Unit {0})
  acquire name info d = acquire_loop name (host.encode info) acquire_max_attempts 0 d

  -- The loop of `acquire_gate` with `attempts` left, of which the last one reports its error.
  unfoldable pub gate_loop : LockInfo → ℕ → Directory → Directory × Result LockError (Unit {0})
  gate_loop info zero d =
      let (d', r) = acquire gate_lock_file info d in
      elim r [ ok _ ↦ (d', ok tt) | err e ↦ (d', err (gave_up e)) ]
  gate_loop info (suc attempts) d =
      let (d', r) = acquire gate_lock_file info d in
      elim r [ ok _ ↦ (d', ok tt) | err e ↦ gate_loop info attempts (others d') ]

  abbrev pub acquire_gate : LockInfo → Directory → Directory × Result LockError (Unit {0})
  acquire_gate info d = gate_loop info (gate_max_attempts - 1) d

  -- What `acquire_scoped` does while it holds the gate.
  unfoldable pub acquire_under_gate :
      LockScope → Text → LockInfo → Directory → Directory × Result LockError (Unit {0})
  acquire_under_gate scope name info d = elim (check_cross_tier_exclusion host scope d) [
    | err e ↦ (d, err e)
    | ok _ ↦ acquire name info d
  ]

  abbrev pub with_gate :
      LockScope
      → Text
      → LockInfo
      → Directory × Result LockError (Unit {0})
      → Directory × Result LockError (Unit {0})
  with_gate scope name info (d, err e) = (d, err e)
  with_gate scope name info (d, ok _) =
      let (d', r) = acquire_under_gate scope name info d in (remove_file gate_lock_file d', r)

  -- The gate's file is removed on every return after its acquisition.
  unfoldable pub acquire_scoped :
      LockScope → LockInfo → Directory → Directory × Result LockError (Unit {0})
  acquire_scoped scope info d = elim (lock_path_for_scope scope) [
    | none ↦ (d, err no_lock_file)
    | some name ↦ with_gate scope name info (acquire_gate info d)
  ]
