-- ===== src/Lock/Outcome.antt =====
-- How `PidLock::acquire` of src/lock.rs ends.
use chbackup.Base.{none, ◌≡◌, ◌≢◌, inl, inr, arith, if◌then◌else◌, Bool-cases, err}
use chbackup.Base.Text.{Text}
use chbackup.Lock.{
  LockInfo, Host, Directory, read_file, held, create_failed, live, gone, inspect_lock_file,
}
use chbackup.Lock.Acquire.{acquire}
use chbackup.Lock.Attempts.{inspect-none, loop-closed, loop-held}

module _ (host : Host) (others : Directory → Directory) (name : Text) where
  present_of : (d : Directory) → inspect_lock_file host name d ≢ gone → read_file name d ≢ none
  present_of d h e = h (inspect-none host name d e)

  -- While a live process holds the lock, and others leave it so, an acquisition fails and the lock
  -- is still held; the error names the holder if a file can be created there.
  pub acquire-held :
      (info old : LockInfo) (d : Directory)
      → ((x : Directory)
          → inspect_lock_file host name x ≡ live old
          → inspect_lock_file host name (others x) ≡ live old)
      → inspect_lock_file host name d ≡ live old
      → let (d', r) = acquire host others name info d in
        (inspect_lock_file host name d' ≡ live old)
        × (r ≡ err (if d.can_create then held old else create_failed))
  unfolding acquire
  acquire-held info old d keep h = elim (Bool-cases d.can_create) [
    | inl c ↦
        let p =
          loop-held host others name (host.encode info) old 5 0 d (keep d h)
            (present_of d (λ g. cc (h, g))) c in
        ground (arith, p, keep d h, c)
    | inr c ↦
        let p = loop-closed host others name (host.encode info) 5 0 d c in ground (arith, p, h, c)
  ]
