-- ===== src/Server.antt =====
-- src/server/state.rs: the operations of the API server, by the sections of code that each hold a
-- lock, and the handlers composed of them. A cancellation token is named by its operation's id; a
-- `RunningOp` that is dropped gives its permit back. Left out of `AppState` are the clients, the
-- metrics and the watch channels, which these operations do not touch.
pub mod Steps
pub mod Permits
pub mod Exclusion
pub mod Owners
pub mod Tracked
pub mod Invariant
pub mod Handlers
pub mod Kills
pub mod Tasks
pub mod Endings
pub mod TaskEnds
pub mod Names
pub mod Tests
use chbackup.Base.{
  ℕ, zero, suc, ◌+◌, ◌-◌, Bool, true, false, not, ◌&&◌, ◌||◌, Option, none, some, List, [], ◌∷◌,
  ◌++◌, if◌then◌else◌, ◌==◌, any, keep_if, Result, ok, err,
}
use chbackup.Base.Text.{Text, codes, text_eq, is_empty}
use chbackup.Actions.{
  ActionLog, Message, in_progress, in_progress_for_backup, killed_while_queued, shutting_down,
  new_log, start, finish_action, fail_action, kill_action,
}

pub record RunningOp : Type 0 where
  pub id : ℕ
  pub command : Text
  pub backup_name : Option Text
  pub permit : Bool

-- `available` are the free permits of `op_semaphore`, which stays the same one; `cancelled` are the
-- operations whose token is cancelled.
pub record AppState : Type 0 where
  pub action_log : ActionLog
  pub running_ops : List RunningOp
  pub available : ℕ
  pub cancelled : List ℕ

-- `Semaphore::MAX_PERMITS`, `usize::MAX >> 3`
abbrev pub max_permits : ℕ
max_permits = 2305843009213693951

unfoldable pub semaphore_permits : Bool → ℕ
semaphore_permits true = max_permits
semaphore_permits false = 1

-- `AppState::new`, with the `allow_parallel` of the configuration
unfoldable pub new_state : Bool → AppState
new_state allow_parallel = record {
  action_log = new_log 100;
  running_ops = [];
  available = semaphore_permits allow_parallel;
  cancelled = [];
}

unfoldable pub bit : Bool → ℕ
bit true = 1
bit false = 0

-- The permits that a collection of operations holds.
unfoldable pub permits : List RunningOp → ℕ
unfolding bit
permits [] = 0
permits (op ∷ ops) = bit op.permit + permits ops

unfoldable pub release : ℕ → AppState → AppState
release n s = record s { available = s.available + n }

unfoldable pub has_id : ℕ → RunningOp → Bool
has_id id op = op.id == id

unfoldable pub without : ℕ → List RunningOp → List RunningOp
unfolding has_id
without id ops = keep_if (λ op. not (has_id id op)) ops

-- `ops.remove(&id)`, with the removed operation dropped
unfoldable pub remove_op : ℕ → AppState → AppState
remove_op id s =
    release (permits (keep_if (has_id id) s.running_ops))
      (record s { running_ops = without id s.running_ops })

-- `ops.insert(id, op)`
unfoldable pub insert_op : RunningOp → AppState → AppState
insert_op op s = let t = remove_op op.id s in record t { running_ops = t.running_ops ++ op ∷ [] }

unfoldable pub is_for : Text → Option Text → Bool
is_for name none = false
is_for name (some other) = text_eq other name

-- The check of `try_start_op`, over all operations.
unfoldable pub has_conflict : Option Text → List RunningOp → Bool
has_conflict none ops = false
has_conflict (some name) ops = any (λ op. is_for name op.backup_name) ops

-- The check of `queue_start_op`, over the operations of another id.
unfoldable pub has_other_conflict : ℕ → Option Text → List RunningOp → Bool
has_other_conflict id none ops = false
has_other_conflict id (some name) ops =
    any (λ op. not (has_id id op) && is_for name op.backup_name) ops

unfoldable pub log_start : Text → ℕ → AppState → AppState × ℕ
log_start command now s =
    let (log, id) = start s.action_log command now in (record s { action_log = log }, id)

unfoldable pub log_finish : ℕ → ℕ → AppState → AppState
log_finish id now s = record s { action_log = finish_action s.action_log id now }

unfoldable pub log_fail : ℕ → Message → ℕ → AppState → AppState
log_fail id error now s = record s { action_log = fail_action s.action_log id error now }

-- The locked section of `try_start_op`: whether there is a conflict, and the insertion if not.
unfoldable pub insert_unless_conflict : RunningOp → AppState → AppState × Bool
insert_unless_conflict op s =
    if has_conflict op.backup_name s.running_ops then (s, true) else (insert_op op s, false)

-- The end of a rejected start: the failure is recorded, and the permit in hand is dropped.
unfoldable pub reject : ℕ → ℕ → AppState → AppState
reject id now s = release 1 (log_fail id in_progress_for_backup now s)

abbrev pub operation : ℕ → Text → Option Text → Bool → RunningOp
operation id command name permit = record {
  id = id;
  command = command;
  backup_name = name;
  permit = permit;
}

unfoldable pub try_start_op : AppState → Text → Option Text → ℕ → AppState × Result Message ℕ
try_start_op s command name now =
    if s.available == 0
    then (s, err in_progress)
    else (let (t, id) = log_start command now (record s { available = s.available - 1 }) in
        let (u, conflict) = insert_unless_conflict (operation id command name true) t in
        if conflict then (reject id now u, err in_progress_for_backup) else (u, ok id))

-- `queue_start_op` up to the wait.
unfoldable pub enqueue_op : AppState → Text → Option Text → ℕ → AppState × ℕ
enqueue_op s command name now =
    let (t, id) = log_start command now s in (insert_op (operation id command name false) t, id)

-- `ops.get_mut(&id).unwrap()._permit = Some(permit)`: the operations, and the number of permits
-- that the assignment dropped.
unfoldable pub set_permit : ℕ → List RunningOp → List RunningOp × ℕ
unfolding has_id bit
set_permit id [] = ([], 0)
set_permit id (op ∷ ops) =
    let (rest, dropped) = set_permit id ops in
    if has_id id op
    then (record op { permit = true } ∷ ops, bit op.permit)
    else (op ∷ rest, dropped)

abbrev pub contains_id : ℕ → List ℕ → Bool
contains_id id l = any (λ j. j == id) l

-- How the locked section of `queue_start_op` that holds the permit ends.
pub data Admission : Type 0 where
  gone conflicting granted : Admission

unfoldable pub admission : ℕ → Option Text → AppState → Admission
admission id name s =
    if not (any (has_id id) s.running_ops)
    then gone
    else if contains_id id s.cancelled
    then gone
    else if has_other_conflict id name s.running_ops
    then conflicting
    else granted

unfoldable pub grant : ℕ → AppState → AppState
grant id s =
    let (ops, dropped) = set_permit id s.running_ops in
    release dropped (record s { running_ops = ops })

-- What the section does. In the first case the operation is removed if it is still there, and the
-- permit in hand is dropped; in the second the permit is dropped by `reject`.
unfoldable pub settle : ℕ → Admission → AppState → AppState
settle id gone s = release 1 (remove_op id s)
settle id conflicting s = remove_op id s
settle id granted s = grant id s

-- How the wait of `queue_start_op` ends.
pub data Wake : Type 0 where
  token_cancelled permit_acquired semaphore_closed : Wake

unfoldable pub finish_op : AppState → ℕ → ℕ → AppState
finish_op s id now = remove_op id (log_finish id now s)

unfoldable pub fail_op : AppState → ℕ → Message → ℕ → AppState
fail_op s id error now = remove_op id (log_fail id error now s)

abbrev pub after_admission : ℕ → ℕ → Admission → AppState → AppState × Result Message ℕ
after_admission id now gone s = (s, err killed_while_queued)
after_admission id now conflicting s = (reject id now s, err in_progress_for_backup)
after_admission id now granted s = (s, ok id)

-- `queue_start_op` from the end of the wait; an acquired permit was available.
unfoldable pub resume_op : AppState → ℕ → Option Text → Wake → ℕ → AppState × Result Message ℕ
resume_op s id name token_cancelled now = (remove_op id s, err killed_while_queued)
resume_op s id name semaphore_closed now = (fail_op s id shutting_down now, err shutting_down)
resume_op s id name permit_acquired now =
    let t = record s { available = s.available - 1 } in
    let a = admission id name t in after_admission id now a (settle id a t)

-- `kill_op`, step 1: the targets, which are removed but not dropped.
unfoldable pub kill_targets : Option ℕ → AppState → List RunningOp
kill_targets none s = s.running_ops
kill_targets (some id) s = keep_if (has_id id) s.running_ops

unfoldable pub take_targets : Option ℕ → AppState → AppState
take_targets none s = record s { running_ops = [] }
take_targets (some id) s = record s { running_ops = without id s.running_ops }

-- Step 2.
unfoldable pub cancel_tokens : List RunningOp → AppState → AppState
cancel_tokens [] s = s
cancel_tokens (op ∷ ops) s = cancel_tokens ops (record s { cancelled = op.id ∷ s.cancelled })

-- Step 3, and the drop of the removed operations.
unfoldable pub log_kills : List RunningOp → ℕ → ActionLog → ActionLog
log_kills [] now log = log
log_kills (op ∷ ops) now log = log_kills ops now (kill_action log op.id now)

unfoldable pub mark_kills : List RunningOp → ℕ → AppState → AppState
mark_kills ops now s =
    release (permits ops) (record s { action_log = log_kills ops now s.action_log })

unfoldable pub kill_op : AppState → Option ℕ → ℕ → AppState × Bool
kill_op s target now = elim (kill_targets target s) [
  | [] ↦ (take_targets target s, false)
  | op ∷ ops ↦ (mark_kills (op ∷ ops) now (cancel_tokens (op ∷ ops) (take_targets target s)), true)
]

-- The reasons of `validate_backup_name`.
pub data NameError : Type 0 where
  empty_name has_dot_dot has_slash has_backslash has_nul is_dot is_reserved : NameError

unfoldable pub contains_char : ℕ → Text → Bool
contains_char c name = any (λ a. a == c) name

-- `name.contains("..")`
unfoldable pub contains_dot_dot : Text → Bool
contains_dot_dot [] = false
contains_dot_dot (a ∷ []) = false
contains_dot_dot (a ∷ b ∷ s) = (a == b'.' && b == b'.') || contains_dot_dot (b ∷ s)

unfoldable pub validate_backup_name : Text → Result NameError (Unit {0})
unfolding contains_char contains_dot_dot
validate_backup_name name =
    if is_empty name
    then err empty_name
    else if contains_dot_dot name
    then err has_dot_dot
    else if contains_char b'/' name
    then err has_slash
    else if contains_char 92 name
    then err has_backslash
    else if contains_char 0 name
    then err has_nul
    else if text_eq name (codes ".")
    then err is_dot
    else ok tt

unfoldable pub reject_reserved_backup_name : Text → Result NameError (Unit {0})
reject_reserved_backup_name name =
    if text_eq name (codes "latest") || text_eq name (codes "previous")
    then err is_reserved
    else ok tt
