-- ===== src/Actions.antt =====
-- src/server/actions.rs: the ring buffer of recent actions. A time is an argument of each call.
pub mod Ring
pub mod Status
use chbackup.Base.{
  ℕ, ◌+◌, ◌^◌, ◌%◌, Bool, true, false, Option, none, some, List, [], ◌∷◌, ◌++◌, if◌then◌else◌, ◌==◌,
  leb, length, drop, find_first,
}
use chbackup.Base.Text.{Text}

-- The texts of the failures that src/server/state.rs records and returns; `other` is the text of
-- an error that comes from elsewhere.
pub data Message : Type 0 where
  in_progress in_progress_for_backup killed_while_queued shutting_down : Message
  other : Text → Message

pub data ActionStatus : Type 0 where
  running completed : ActionStatus
  failed : Message → ActionStatus
  killed : ActionStatus

pub record ActionEntry : Type 0 where
  pub id : ℕ
  pub command : Text
  pub start : ℕ
  pub finish : Option ℕ
  pub status : ActionStatus

pub record ActionLog : Type 0 where
  pub entries : List ActionEntry
  pub capacity : ℕ
  pub next_id : ℕ

abbrev pub u64_mod : ℕ
u64_mod = 2 ^ 64

unfoldable pub new_log : ℕ → ActionLog
new_log capacity = record { entries = []; capacity = capacity; next_id = 1 }

-- The `pop_front` of a full buffer.
unfoldable pub make_room : ℕ → List ActionEntry → List ActionEntry
make_room capacity entries = if leb capacity (length entries) then drop 1 entries else entries

-- `ActionLog::start`: the log, and the id of the action.
unfoldable pub start : ActionLog → Text → ℕ → ActionLog × ℕ
start log command now = (
  record log {
    entries = make_room log.capacity log.entries ++ entry ∷ [];
    next_id = (log.next_id + 1) % u64_mod;
  },
  log.next_id,
)
  where
    entry : ActionEntry
    entry = record {
      id = log.next_id;
      command = command;
      start = now;
      finish = none;
      status = running;
    }

-- `entries.iter_mut().find(|e| e.id == id)`, with the change that is made to that entry.
unfoldable pub update_first : ℕ → (ActionEntry → ActionEntry) → List ActionEntry → List ActionEntry
update_first id f [] = []
update_first id f (e ∷ es) =
    let rest = update_first id f es in if e.id == id then f e ∷ es else e ∷ rest

abbrev pub is_killed : ActionStatus → Bool
is_killed killed = true
is_killed _ = false

abbrev pub is_running : ActionStatus → Bool
is_running running = true
is_running _ = false

-- What `finish` and `fail` do to their entry.
unfoldable pub close : ActionStatus → ℕ → ActionEntry → ActionEntry
close status now e =
    if is_killed e.status then e else record e { finish = some now; status = status }

unfoldable pub finish_action : ActionLog → ℕ → ℕ → ActionLog
unfolding update_first close
finish_action log id now = record log {
  entries = update_first id (close completed now) log.entries;
}

unfoldable pub fail_action : ActionLog → ℕ → Message → ℕ → ActionLog
unfolding update_first close
fail_action log id error now = record log {
  entries = update_first id (close (failed error) now) log.entries;
}

unfoldable pub mark_killed : ℕ → ActionEntry → ActionEntry
mark_killed now e = record e { finish = some now; status = killed }

unfoldable pub kill_action : ActionLog → ℕ → ℕ → ActionLog
unfolding update_first mark_killed
kill_action log id now = record log { entries = update_first id (mark_killed now) log.entries }

-- `ActionLog::running`
unfoldable pub running_entry : ActionLog → Option ActionEntry
running_entry log = find_first (λ e. is_running e.status) log.entries

-- The status under which an action stands in the log, if it still stands there.
unfoldable pub status_of : ℕ → List ActionEntry → Option ActionStatus
status_of id [] = none
status_of id (e ∷ es) = let rest = status_of id es in if e.id == id then some e.status else rest
