-- ===== src/Server/Tests.antt =====
-- Runs of the operations of src/server/state.rs and src/server/actions.rs on small states.
use chbackup.Base.{
  ◌+◌, ◌≤◌, true, false, Option, none, some, [], ◌∷◌, ◌≡◌, ◌↔◌, refl, arith, any, ◌==◌, Memᴰ, ok,
  err,
}
use chbackup.Base.Text.{Text, codes}
use chbackup.Actions.{
  ActionLog, Message, in_progress_for_backup, running, completed, failed, killed, new_log, start,
  make_room, status_of, kill_action, finish_action, fail_action,
}
use chbackup.Actions.Ring.{IsWellFormed, start-IsWellFormed}
use chbackup.Actions.Status.{status_of-close, change, closed_status}
use chbackup.Server.{
  AppState, operation, new_state, permits, try_start_op, enqueue_op, resume_op, permit_acquired,
  finish_op, fail_op, kill_op, has_id, contains_id, validate_backup_name, semaphore_permits,
  log_start, without, insert_op, remove_op, release, has_conflict,
}
use chbackup.Server.Steps.{proceed, try_acquire, proceeds, permitted, logged, Reach, here, next}
use chbackup.Server.Permits.{total, counted, Reach-total, Reach-serial}
use chbackup.Server.Invariant.{NoWrap, Reach-AreExclusive}
use chbackup.Server.Handlers.{handlers-keep_permits, resume_op-queued_twice}
use chbackup.Base.{ok}
use chbackup.Listing.Cache.{new_cache}
use chbackup.Lock.{LockError, lock_for_command}
use chbackup.Lock.Tests.{host, info_of, directory}
use chbackup.Server.{insert_unless_conflict, try_start_op}
use chbackup.Server.Tasks.{Machine, completed, run_operation}
use chbackup.Server.Endings.{taken, IsOver}
use chbackup.Server.TaskEnds.{run_operation-IsOver}
use chbackup.Server.Kills.{kill_op-marks}
use chbackup.Server.Names.{IsPathComponent, validate_backup_name_iff}

abbrev daily : Option Text
daily = some (codes "daily")

abbrev log_one : ActionLog
log_one = record {
  entries =
      record { id = 1; command = codes "create"; start = 7; finish = none; status = running } ∷ [];
  capacity = 100;
  next_id = 2;
}

abbrev one_op : AppState
one_op = record {
  action_log = log_one;
  running_ops = operation 1 (codes "create") daily true ∷ [];
  available = 0;
  cancelled = [];
}

-- A start, from its permit to its insertion.
start_one :
    Reach (record { app = new_state false; threads = [] }) (record { app = one_op; threads = [] })
unfolding new_state semaphore_permits new_log proceed log_start start make_room has_conflict
    insert_op remove_op release without permits
start_one =
    next
      (next (next here (try_acquire (codes "create") daily (omega arith)))
        (proceeds [] [] (permitted (codes "create") daily) 7 refl))
      (proceeds [] [] (logged 1 (codes "create") daily) 7 refl)

start_one-NoWrap : NoWrap start_one
unfolding start_one new_state new_log log_start start proceed
start_one-NoWrap = (((tt, omega arith), omega arith), omega arith)

Reach-total_example :
    total (record { app = one_op; threads = [] })
    ≡ total (record { app = new_state false; threads = [] })
Reach-total_example = Reach-total start_one

Reach-serial_example : permits one_op.running_ops + one_op.available ≤ 1
Reach-serial_example = Reach-serial start_one

Reach-AreExclusive_example :
    (operation 1 (codes "create") daily true).id ≡ (operation 1 (codes "create") daily true).id
Reach-AreExclusive_example =
    Reach-AreExclusive false start_one start_one-NoWrap (operation 1 (codes "create") daily true)
      (operation 1 (codes "create") daily true) (codes "daily") (Memᴰ.head refl) (Memᴰ.head refl)
      refl refl refl refl

abbrev queued : AppState
queued = record one_op {
  running_ops = operation 1 (codes "create") daily false ∷ [];
  available = 1;
}

handlers-keep_permits_example :
    (counted (try_start_op queued (codes "upload") daily 9).0 ≡ counted queued)
    × (counted (enqueue_op queued (codes "upload") daily 9).0 ≡ counted queued)
    × (counted (resume_op queued 1 daily permit_acquired 9).0 ≡ counted queued)
    × (counted (finish_op queued 1 9) ≡ counted queued)
    × (counted (fail_op queued 1 Message.shutting_down 9) ≡ counted queued)
    × (counted (kill_op queued none 9).0 ≡ counted queued)
handlers-keep_permits_example =
    handlers-keep_permits queued (codes "upload") daily 1 9 permit_acquired Message.shutting_down
      none (omega arith)

resume_op-queued_twice_example :
    (resume_op
      (enqueue_op (enqueue_op one_op (codes "upload") daily 9).0 (codes "restore") daily 9).0
      2
      daily
      permit_acquired
      9).1
    ≡ err in_progress_for_backup
resume_op-queued_twice_example =
    resume_op-queued_twice one_op (codes "upload") (codes "restore") (codes "daily") 9 (omega arith)
      refl

kill_op-marks_example :
    let t = (kill_op one_op (some 1) 8).0 in
    ((kill_op one_op (some 1) 8).1 ≡ true)
    × (any (has_id 1) t.running_ops ≡ false)
    × (contains_id 1 t.cancelled ≡ true)
    × (status_of 1 t.action_log.entries ≡ some killed)
    × (status_of 1 (finish_op t 1 9).action_log.entries ≡ some killed)
    × (status_of 1 (fail_op t 1 Message.shutting_down 9).action_log.entries ≡ some killed)
unfolding status_of
kill_op-marks_example =
    kill_op-marks one_op (operation 1 (codes "create") daily true) running 8 9 Message.shutting_down
      (Memᴰ.head refl) refl

validate_backup_name_iff_example :
    (validate_backup_name (codes "daily") ≡ ok tt) ↔ IsPathComponent (codes "daily")
validate_backup_name_iff_example = validate_backup_name_iff (codes "daily")

log_one-IsWellFormed : IsWellFormed log_one
log_one-IsWellFormed = record { bounded = omega arith; rising = omega arith }

start-IsWellFormed_example : IsWellFormed (start log_one (codes "upload") 8).0
start-IsWellFormed_example =
    start-IsWellFormed log_one (codes "upload") 8 (omega arith) (omega arith) log_one-IsWellFormed

status_of-close_example :
    (status_of 1 (finish_action log_one 1 8).entries
      ≡ change (1 == 1) (closed_status completed) (status_of 1 log_one.entries))
    × (status_of 1 (fail_action log_one 1 Message.shutting_down 8).entries
        ≡ change
            (1 == 1)
            (closed_status (failed Message.shutting_down))
            (status_of 1 log_one.entries))
    × (status_of 1 (kill_action log_one 1 8).entries
        ≡ change (1 == 1) (λ s. killed) (status_of 1 log_one.entries))
status_of-close_example = status_of-close log_one 1 1 8 Message.shutting_down

abbrev machine : Machine
machine = record { app = new_state false; locks = directory 9; cache = new_cache 300 }

abbrev error_text : LockError → Text
error_text e = codes "locked"

created :
    (run_operation host
      (λ d. d)
      error_text
      (codes "create")
      daily
      (info_of 7)
      true
      7
      9
      completed
      machine).1
    ≡ ok 1
unfolding run_operation new_state semaphore_permits new_log try_start_op log_start start make_room
    insert_unless_conflict has_conflict insert_op remove_op release without permits
created = refl

run_operation-IsOver_example :
    let scope = lock_for_command (codes "create") daily in
    let begun : Machine = record machine {
      app = (try_start_op machine.app (codes "create") daily 7).0;
    } in
    let (locks, r) = taken host (λ d. d) scope (info_of 7) machine.locks in
    let after =
      (run_operation host
        (λ d. d)
        error_text
        (codes "create")
        daily
        (info_of 7)
        true
        7
        9
        completed
        machine).0 in
    IsOver error_text scope true 1 completed locks r begun after
    × (any (has_id 1) begun.app.running_ops ≡ true)
    × (counted after.app ≡ counted machine.app)
run_operation-IsOver_example =
    run_operation-IsOver host (λ d. d) error_text (codes "create") daily (info_of 7) true 7 9 1
      completed machine created
