-- ===== src/Server/TaskEnds.antt =====
-- What run_operation of src/server/state.rs leaves behind when its task has ended.
use chbackup.Base.{
  ℕ, ◌-◌, ◌==◌, Bool, true, false, not, Option, [], ◌∷◌, ◌≡◌, refl, sym, ap, subst, ◌∙◌, inl, inr,
  arith, any, keep_if, any_of_mem, mem-append_right, Memᴰ, Bool-cases, Option-cases, Result, ok,
  err, mem_of_any, mem-keep_if,
}
use chbackup.Base.Text.{Text}
use chbackup.Actions.{
  ActionStatus, ActionLog, Message, other, failed, status_of, finish_action, fail_action,
}
use chbackup.Actions.Status.{closed_status, change, status_of-close}
use chbackup.Lock.{
  Host, Directory, LockInfo, LockError, LockScope, backup, global, no_scope, lock_for_command,
  lock_path_for_scope, read_file,
}
use chbackup.Lock.Attempts.{is_removable, read_file-remove, remove-unremovable}
use chbackup.Server.{
  AppState, RunningOp, has_id, without, remove_op, insert_op, insert_unless_conflict, operation,
  has_conflict, release, log_start, log_finish, log_fail, try_start_op, finish_op, fail_op,
}
use chbackup.Server.Permits.{counted, counted-remove_op}
use chbackup.Server.Handlers.{counted-try_start_op}
use chbackup.Server.Tasks.{
  Machine, Ending, completed, killed_by_user, panicked, failed_with, drop_lock, settle_result,
  acquire_for, with_lock, run_task, started, run_operation,
}
use chbackup.Server.Endings.{lock_file, left_file, taken, IsOver}

without-absent : (id : ℕ) (s : AppState) → any (has_id id) (remove_op id s).running_ops ≡ false
unfolding remove_op without release
without-absent id s =
    elim (Bool-cases (any (has_id id) (keep_if (λ op. not (has_id id op)) s.running_ops))) [
      | inr e ↦ e
      | inl e ↦
          let (op, m, h) = mem_of_any (has_id id) _ e in
          absurd (cc (h, (mem-keep_if (λ op. not (has_id id op)) s.running_ops m).1))
    ]

drop_lock-file :
    (scope : LockScope) (d : Directory)
    → lock_file (lock_path_for_scope scope) (drop_lock scope d)
      ≡ left_file true (lock_path_for_scope scope) d
unfolding drop_lock
drop_lock-file scope d = elim (Option-cases (lock_path_for_scope scope)) [
  | inl e ↦ rw (e, drop_lock) refl
  | inr (name, e) ↦ elim (Bool-cases (is_removable name d)) [
    | inl k ↦ rw (e, drop_lock, k) (read_file-remove name d k)
    | inr k ↦ rw (e, drop_lock, k) (ap (read_file name) (remove-unremovable name d k))
  ]
]

kept-file :
    (scope : LockScope) (d : Directory)
    → lock_file (lock_path_for_scope scope) d ≡ left_file false (lock_path_for_scope scope) d
kept-file scope d = elim (Option-cases (lock_path_for_scope scope)) [
  | inl e ↦ rw e refl
  | inr (name, e) ↦ rw e refl
]

finished-status :
    (log : ActionLog) (id now : ℕ)
    → status_of id (finish_action log id now).entries
      ≡ change true (closed_status ActionStatus.completed) (status_of id log.entries)
finished-status log id now = ground (arith, (status_of-close log id id now Message.in_progress).0)

failed-status :
    (log : ActionLog) (id now : ℕ) (error : Message)
    → status_of id (fail_action log id error now).entries
      ≡ change true (closed_status (failed error)) (status_of id log.entries)
failed-status log id now error = ground (arith, (status_of-close log id id now error).1)

insert_op-runs :
    (op : RunningOp) (s : AppState) → any (has_id op.id) (insert_op op s).running_ops ≡ true
unfolding insert_op remove_op release has_id
insert_op-runs op s =
    any_of_mem (has_id op.id) _
      (mem-append_right (without op.id s.running_ops) (op ∷ []) (Memᴰ.head refl)) (ground arith)

abbrev id_or : ℕ → Result Message ℕ → ℕ
id_or d (ok id) = id
id_or d (err e) = d

-- An operation that was started is running.
try_start_op-runs :
    (s : AppState) (command : Text) (name : Option Text) (now id : ℕ)
    → (try_start_op s command name now).1 ≡ ok id
    → any (has_id id) (try_start_op s command name now).0.running_ops ≡ true
unfolding try_start_op insert_unless_conflict
try_start_op-runs s command name now id h = elim (Bool-cases (s.available == 0)) [
  | inl e ↦ absurd (cc (rw (e, try_start_op) at h))
  | inr e ↦
      let t = log_start command now (record s { available = s.available - 1 }) in
      elim (Bool-cases (has_conflict name t.0.running_ops)) [
        | inl c ↦ absurd (cc (rw (e, c, try_start_op, insert_unless_conflict) at h))
        | inr c ↦
            let same : t.1 ≡ id =
              ap (id_or t.1) (rw (e, c, try_start_op, insert_unless_conflict) at h) in
            rw (e, c, try_start_op, insert_unless_conflict)
              (subst
                (λ (j : ℕ).
                  any (has_id j) (insert_op (operation t.1 command name true) t.0).running_ops
                  ≡ true)
                same (insert_op-runs (operation t.1 command name true) t.0))
      ]
]

module _ (host : Host) (others : Directory → Directory) (message : LockError → Text) where
  with_lock-IsOver :
      (r : Result LockError (Unit {0})) (scope : LockScope) (b : Bool) (id now : ℕ)
      (ending : Ending) (locks : Directory) (m : Machine)
      → IsOver message scope b id ending locks r m
          (with_lock host others message r scope b id now ending (record m { locks = locks }))
  unfolding with_lock settle_result finish_op fail_op log_finish log_fail remove_op release
  with_lock-IsOver (err e) scope b id now ending locks m = record {
    running = without-absent id (log_fail id (other (message e)) now m.app);
    permits_kept = counted-remove_op id (log_fail id (other (message e)) now m.app);
    recorded = failed-status m.app.action_log id now (other (message e));
    cached = refl;
    unlocked = kept-file scope locks;
  }
  with_lock-IsOver (ok _) scope b id now completed locks m = record {
    running = without-absent id (log_finish id now m.app);
    permits_kept = counted-remove_op id (log_finish id now m.app);
    recorded = finished-status m.app.action_log id now;
    cached = refl;
    unlocked = drop_lock-file scope locks;
  }
  with_lock-IsOver (ok _) scope b id now (failed_with e) locks m = record {
    running = without-absent id (log_fail id (other e) now m.app);
    permits_kept = counted-remove_op id (log_fail id (other e) now m.app);
    recorded = failed-status m.app.action_log id now (other e);
    cached = refl;
    unlocked = drop_lock-file scope locks;
  }
  with_lock-IsOver (ok _) scope b id now killed_by_user locks m = record {
    running = refl;
    permits_kept = refl;
    recorded = refl;
    cached = refl;
    unlocked = drop_lock-file scope locks;
  }
  with_lock-IsOver (ok _) scope b id now panicked locks m = record {
    running = refl;
    permits_kept = refl;
    recorded = refl;
    cached = refl;
    unlocked = drop_lock-file scope locks;
  }

  acquire_for-eq-taken :
      (scope : LockScope) (info : LockInfo) (d : Directory)
      → acquire_for host others message scope info d ≡ taken host others scope info d
  unfolding acquire_for lock_path_for_scope
  acquire_for-eq-taken no_scope info d = refl
  acquire_for-eq-taken (backup name) info d = refl
  acquire_for-eq-taken global info d = refl

  -- A task that run_operation started ends in one of these ways, from the state that the start left
  -- and with the lock of the command's scope. If the lock is refused, the action is recorded as
  -- failed with the refusal's text, the operation removed and the cache left alone. Otherwise an
  -- operation that succeeds is recorded as completed and removed, and the cache is emptied exactly if
  -- that was asked for; one that fails is recorded as failed with its error and removed; one that
  -- panics or was killed leaves the operations, the log and the cache as they were, so that after a
  -- panic the operation is still running. A status is recorded only over one that is not killed. A
  -- lock that was taken is gone at the end, if its file can be removed, and a refused one is left.
  -- The permits, available and held, are as many as before the start.
  pub run_operation-IsOver :
      (command : Text) (name : Option Text) (info : LockInfo) (b : Bool) (now later id : ℕ)
      (ending : Ending) (m : Machine)
      → (run_operation host others message command name info b now later ending m).1 ≡ ok id
      → let scope = lock_for_command command name in
        let begun : Machine = record m { app = (try_start_op m.app command name now).0 } in
        let (locks, r) = taken host others scope info m.locks in
        let after = (run_operation host others message command name info b now later ending m).0 in
        IsOver message scope b id ending locks r begun after
        × (any (has_id id) begun.app.running_ops ≡ true)
        × (counted after.app ≡ counted m.app)
  unfolding run_operation run_task started
  run_operation-IsOver command name info b now later id ending m e =
      subst
        (λ (x : Result Message ℕ).
          let after = started host others message x command name info b later ending begun in
          IsOver message scope b id ending (taken host others scope info m.locks).0
            (taken host others scope info m.locks).1 begun after
          × (any (has_id id) begun.app.running_ops ≡ true)
          × (counted after.app ≡ counted m.app))
        (sym e)
        (
          over,
          try_start_op-runs m.app command name now id e,
          over.permits_kept ∙ counted-try_start_op m.app command name now,
        )
    where
      scope : LockScope
      scope = lock_for_command command name

      begun : Machine
      begun = record m { app = (try_start_op m.app command name now).0 }

      over :
          IsOver message scope b id ending
            (taken host others scope info m.locks).0
            (taken host others scope info m.locks).1
            begun
            (run_task host others message command name info b id later ending begun)
      over =
          let p = taken host others scope info m.locks in
          subst
            (λ (q : Directory × Result LockError (Unit {0})).
              IsOver message scope b id ending p.0 p.1 begun (
                with_lock host others message q.1 scope b id later ending
                  (record begun { locks = q.0 })))
            (sym (acquire_for-eq-taken scope info m.locks))
            (with_lock-IsOver p.1 scope b id later ending p.0 begun)
