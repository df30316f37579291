-- ===== src/Server/Steps.antt =====
-- Calls of src/server/state.rs that run at the same time: each step is one section of code between
-- two awaits. A thread is a call with what it has in hand at that point.
use chbackup.Base.{ℕ, ◌-◌, ◌<◌, ◌≡◌, true, false, Option, List, [], ◌∷◌, ◌++◌, if◌then◌else◌}
use chbackup.Base.Text.{Text}
use chbackup.Actions.{Message, shutting_down}
use chbackup.Server.{
  RunningOp, AppState, operation, log_start, log_finish, log_fail, has_conflict, insert_op,
  remove_op, reject, Admission, gone, conflicting, granted, admission, settle, kill_targets,
  take_targets, cancel_tokens, mark_kills,
}

pub data Thread : Type 0 where
  -- `try_start_op` with its permit, before and after the action is logged
  permitted : Text → Option Text → Thread
  logged : ℕ → Text → Option Text → Thread
  -- a start that met a conflict, before the failure is logged
  rejecting : ℕ → Thread
  -- `queue_start_op` before its insertion, in its wait, and with its permit
  queueing : ℕ → Text → Option Text → Thread
  waiting : ℕ → Option Text → Thread
  admitted : ℕ → Option Text → Thread
  -- `finish_op` and `fail_op` after the log
  closing : ℕ → Thread
  -- `kill_op` after the removal, and after the cancellation
  killing : List RunningOp → Thread
  marking : List RunningOp → Thread

pub record System : Type 0 where
  pub app : AppState
  pub threads : List Thread

-- A conflict that is met after the wait is still to be logged.
abbrev pub settled : ℕ → Admission → List Thread
settled id conflicting = rejecting id ∷ []
settled id gone = []
settled id granted = []

-- What a thread's step does to the state, and the thread that remains, if any.
unfoldable pub proceed : Thread → ℕ → AppState → AppState × List Thread
proceed (permitted command name) now s =
    let (t, id) = log_start command now s in (t, logged id command name ∷ [])
proceed (logged id command name) now s =
    if has_conflict name s.running_ops
    then (s, rejecting id ∷ [])
    else (insert_op (operation id command name true) s, [])
proceed (rejecting id) now s = (reject id now s, [])
proceed (queueing id command name) now s =
    (insert_op (operation id command name false) s, waiting id name ∷ [])
proceed (waiting id name) now s = (remove_op id s, [])
proceed (admitted id name) now s = let a = admission id name s in (settle id a s, settled id a)
proceed (closing id) now s = (remove_op id s, [])
proceed (killing ops) now s = (cancel_tokens ops s, marking ops ∷ [])
proceed (marking ops) now s = (mark_kills ops now s, [])

-- A step of the server. `proceeds` moves any thread on; of a waiting one it ends the wait by the
-- cancellation of its token.
pub data Step (x : System) : System → Type 0 where
  try_acquire :
      (command : Text) (name : Option Text)
      → 0 < x.app.available
      → Step x (record {
        app = record x.app { available = x.app.available - 1 };
        threads = permitted command name ∷ x.threads;
      })
  enqueue :
      (command : Text) (name : Option Text) (now : ℕ)
      → Step x (record {
        app = (log_start command now x.app).0;
        threads = queueing (log_start command now x.app).1 command name ∷ x.threads;
      })
  acquire :
      (l r : List Thread) (id : ℕ) (name : Option Text)
      → x.threads ≡ l ++ waiting id name ∷ r
      → 0 < x.app.available
      → Step x (record {
        app = record x.app { available = x.app.available - 1 };
        threads = l ++ admitted id name ∷ r;
      })
  shut_down :
      (l r : List Thread) (id now : ℕ) (name : Option Text)
      → x.threads ≡ l ++ waiting id name ∷ r
      → Step x (record { app = log_fail id shutting_down now x.app; threads = l ++ closing id ∷ r })
  begin_finish :
      (id now : ℕ)
      → Step x (record { app = log_finish id now x.app; threads = closing id ∷ x.threads })
  begin_fail :
      (id now : ℕ) (error : Message)
      → Step x (record { app = log_fail id error now x.app; threads = closing id ∷ x.threads })
  begin_kill :
      (target : Option ℕ)
      → Step x (record {
        app = take_targets target x.app;
        threads = killing (kill_targets target x.app) ∷ x.threads;
      })
  proceeds :
      (l r : List Thread) (t : Thread) (now : ℕ)
      → x.threads ≡ l ++ t ∷ r
      → Step x
          (record { app = (proceed t now x.app).0; threads = l ++ ((proceed t now x.app).1 ++ r) })

pub data Reach (x : System) : System → Type 0 where
  here : Reach x x
  next : {y z : System} → Reach x y → Step y z → Reach x z
