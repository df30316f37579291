-- ===== src/Server/Handlers.antt =====
-- The handlers of src/server/state.rs as a whole: what they leave of the permits, of a killed
-- action and of two queued calls for one backup.
use chbackup.Base.{
  ℕ, ◌+◌, ◌-◌, ◌<◌, true, false, not, Option, some, List, [], ◌∷◌, ◌++◌, ◌≡◌, ◌≢◌, ◌&&◌, ◌%◌, refl,
  ap, arith, any_of_mem, mem-append_left, mem-append_right, keep_if-mem, Memᴰ, err,
}
use chbackup.Base.Text.{Text, text_eq_refl}
use chbackup.Actions.{Message, in_progress_for_backup, u64_mod, start}
use chbackup.Server.{
  bit, RunningOp, AppState, has_id, without, remove_op, insert_op, operation, log_start, log_fail,
  log_finish, reject, release, is_for, permits, insert_unless_conflict, try_start_op, enqueue_op,
  resume_op, token_cancelled, permit_acquired, semaphore_closed, Wake, finish_op, fail_op, kill_op,
  Admission, gone, conflicting, granted, admission, settle, after_admission, mark_kills,
  kill_targets, take_targets, has_other_conflict, contains_id,
}
use chbackup.Server.Steps.{settled}
use chbackup.Server.Permits.{
  counted, counted-remove_op, counted-insert_op, counted-settle, counted-cancel_tokens,
  counted-take_targets, all_in_hand,
}

pub counted-try_start_op :
    (s : AppState) (command : Text) (name : Option Text) (now : ℕ)
    → counted (try_start_op s command name now).0 ≡ counted s
unfolding try_start_op insert_unless_conflict log_start reject release log_fail bit
counted-try_start_op s command name now = ground (
  arith,
  counted-insert_op (operation (log_start command now s).1 command name true)
      (log_start command now (record s { available = s.available - 1 })).0,
)

counted-after_admission :
    (s : AppState) (id now : ℕ) (a : Admission)
    → counted (after_admission id now a s).0 ≡ counted s + all_in_hand (settled id a)
unfolding reject release log_fail
counted-after_admission s id now gone = omega arith
counted-after_admission s id now conflicting = omega arith
counted-after_admission s id now granted = omega arith

-- A wait that ends with a permit took one that was available.
abbrev pub CanWake : Wake → AppState → Type 0
CanWake token_cancelled s = Unit
CanWake semaphore_closed s = Unit
CanWake permit_acquired s = 0 < s.available

counted-resume_op :
    (s : AppState) (id : ℕ) (name : Option Text) (wake : Wake) (now : ℕ)
    → CanWake wake s
    → counted (resume_op s id name wake now).0 ≡ counted s
unfolding resume_op fail_op log_fail
counted-resume_op s id name token_cancelled now h = counted-remove_op id s
counted-resume_op s id name semaphore_closed now h = counted-remove_op id (log_fail id _ now s)
counted-resume_op s id name permit_acquired now h =
    let t : AppState = record s { available = s.available - 1 } in
    let a = admission id name t in
    omega (arith, counted-after_admission (settle id a t) id now a, counted-settle id name t)

counted-kill_op :
    (s : AppState) (target : Option ℕ) (now : ℕ) → counted (kill_op s target now).0 ≡ counted s
unfolding kill_op mark_kills release permits
counted-kill_op s target now = go (kill_targets target s) refl
  where
    go :
        (ops : List RunningOp)
        → kill_targets target s ≡ ops
        → counted (kill_op s target now).0 ≡ counted s
    go [] e = rw (e, kill_op) (omega (arith, counted-take_targets target s, ap permits e))
    go (op ∷ ops) e =
        rw (e, kill_op)
          (omega (
            arith,
            counted-take_targets target s,
            ap permits e,
            counted-cancel_tokens (op ∷ ops) (take_targets target s),
          ))

-- Every handler leaves the available permits and those that operations hold together as many as
-- they were: starting in either way, ending a wait (with a permit only if one is available),
-- finishing, failing and killing.
pub handlers-keep_permits :
    (s : AppState) (command : Text) (name : Option Text) (id now : ℕ) (wake : Wake)
    (error : Message) (target : Option ℕ)
    → CanWake wake s
    → (counted (try_start_op s command name now).0 ≡ counted s)
      × (counted (enqueue_op s command name now).0 ≡ counted s)
      × (counted (resume_op s id name wake now).0 ≡ counted s)
      × (counted (finish_op s id now) ≡ counted s)
      × (counted (fail_op s id error now) ≡ counted s)
      × (counted (kill_op s target now).0 ≡ counted s)
unfolding enqueue_op finish_op fail_op log_start log_finish log_fail bit
handlers-keep_permits s command name id now wake error target h = (
  counted-try_start_op s command name now,
  omega (
    arith,
    counted-insert_op (operation (log_start command now s).1 command name false)
        (log_start command now s).0,
  ),
  counted-resume_op s id name wake now h,
  counted-remove_op id (log_finish id now s),
  counted-remove_op id (log_fail id error now s),
  counted-kill_op s target now,
)

resume_op-conflicting :
    (s : AppState) (id : ℕ) (name : Option Text) (now : ℕ)
    → admission id name (record s { available = s.available - 1 }) ≡ conflicting
    → (resume_op s id name permit_acquired now).1 ≡ err in_progress_for_backup
unfolding resume_op
resume_op-conflicting s id name now h = rw h refl

admission-conflicting :
    (s : AppState) (name : Text) (mine other : RunningOp)
    → contains_id mine.id s.cancelled ≡ false
    → Memᴰ mine s.running_ops
    → Memᴰ other s.running_ops
    → other.id ≢ mine.id
    → other.backup_name ≡ some name
    → admission mine.id (some name) s ≡ conflicting
unfolding admission has_other_conflict has_id is_for
admission-conflicting s name mine other c m n ne e =
    let here = any_of_mem (has_id mine.id) s.running_ops m (ground arith) in
    let clash =
      any_of_mem (λ (op : RunningOp). not (has_id mine.id op) && is_for name op.backup_name)
        s.running_ops n (ground (arith, e, text_eq_refl name)) in
    ground (arith, here, clash, c)

-- Two calls for one backup that wait at the same time: when the first gets its permit, the
-- second, which holds none, makes it fail as in progress.
pub resume_op-queued_twice :
    (s : AppState) (first second name : Text) (now : ℕ)
    → s.action_log.next_id + 1 < u64_mod
    → contains_id s.action_log.next_id s.cancelled ≡ false
    → let t = (enqueue_op s first (some name) now).0 in
      let u = (enqueue_op t second (some name) now).0 in
      (resume_op u s.action_log.next_id (some name) permit_acquired now).1
      ≡ err in_progress_for_backup
unfolding enqueue_op log_start start insert_op remove_op release without has_id
resume_op-queued_twice s first second name now h c =
    let id = s.action_log.next_id in
    let mine = operation id first (some name) false in
    let other = operation ((id + 1) % u64_mod) second (some name) false in
    let old = without id s.running_ops in
    resume_op-conflicting
      (enqueue_op (enqueue_op s first (some name) now).0 second (some name) now).0 id (some name)
      now
      (admission-conflicting _ name mine other c
        (mem-append_left _ (other ∷ []) (
          keep_if-mem _ (old ++ mine ∷ []) (mem-append_right old (mine ∷ []) (Memᴰ.head refl))
            (ground arith)))
        (mem-append_right (without other.id (old ++ mine ∷ [])) (other ∷ []) (Memᴰ.head refl))
        (λ q. ground arith) refl)
