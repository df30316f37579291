-- ===== src/Watch/Events.antt =====
-- The watch loop of src/watch/mod.rs as an abstract machine: what an iteration may do, by the answers
-- of the calls that it makes.
use chbackup.Base.{
  ℕ, ◌+◌, ◌%◌, ◌^◌, ◌≤◌, ◌<◌, Bool, true, false, Option, none, some, List, ◌≡◌, ◌⊎◌, ok, err,
}
use chbackup.Base.Text.{Text}
use chbackup.Listing.{BackupSummary}
use chbackup.Server.{NameError, validate_backup_name}
use chbackup.Watch.{
  ResumeDecision, full_now, incr_now, sleep_then_incr, BackupType, full, incr, resume_state,
}
use chbackup.Watch.Names.{resolve_name_template}
use chbackup.Watch.Context.{
  WatchContext, WatchLoopExit, shutdown, max_errors, watch_interval_of, full_interval_of,
  tables_filter, type_text,
}
use chbackup.Watch.Loop.{World}

pub record Health : Type 0 where
  pub errors : ℕ
  pub full_due : Bool
  pub last_backup : Option Text

abbrev pub health : WatchContext → Health
health ctx = record {
  errors = ctx.consecutive_errors;
  full_due = ctx.force_next_full;
  last_backup = ctx.last_backup_name;
}

-- One more error, in 32 bits, and a full backup is due
abbrev pub worse : Health → Health
worse h = record h { errors = (h.errors + 1) % 2 ^ 32; full_due = true }

abbrev pub healthy : Text → Health
healthy name = record { errors = 0; full_due = false; last_backup = some name }

-- An exit from a sleep, or none
abbrev pub IsWake : Option WatchLoopExit → Type 0
IsWake x = (x ≡ none) ⊎ (x ≡ some shutdown)

-- What a decision leads to: the type of the backup and the base to upload it against. An incremental
-- one is not made while a full one is due.
pub data Chosen (full_due : Bool) : ResumeDecision → BackupType → Option Text → Type 0 where
  full_decided : Chosen full_due full_now full none
  full_forced : {base : Text} → full_due ≡ true → Chosen full_due (incr_now base) full none
  incr_decided : {base : Text} → full_due ≡ false → Chosen full_due (incr_now base) incr (some base)

module _ (w : World) where
  -- The calls of a cycle, at the states that the calls before them leave.
  abbrev pub creation : Text → WatchContext → w.State → w.State × Bool
  creation name ctx s = w.create name (tables_filter ctx.config) (w.lock_backup name s).0

  abbrev pub transfer : Text → Option Text → WatchContext → w.State → w.State × Bool
  transfer name base ctx s = w.upload name base (creation name ctx s).0

  -- The first step of a cycle that fails.
  pub data Fails (name : Text) (base : Option Text) (ctx : WatchContext) (s : w.State)
      : Type 0 where
    bad_name : (e : NameError) → validate_backup_name name ≡ err e → Fails name base ctx s
    lock_refused :
        validate_backup_name name ≡ ok tt → (w.lock_backup name s).1 ≡ false → Fails name base ctx s
    creation_failed :
        validate_backup_name name ≡ ok tt
        → (w.lock_backup name s).1 ≡ true
        → (creation name ctx s).1 ≡ false
        → Fails name base ctx s
    upload_failed :
        validate_backup_name name ≡ ok tt
        → (w.lock_backup name s).1 ≡ true
        → (creation name ctx s).1 ≡ true
        → (transfer name base ctx s).1 ≡ false
        → Fails name base ctx s

  -- All of them succeed.
  pub record Makes (name : Text) (base : Option Text) (ctx : WatchContext) (s : w.State)
      : Type 0 where
    pub valid : validate_backup_name name ≡ ok tt
    pub locked : (w.lock_backup name s).1 ≡ true
    pub created : (creation name ctx s).1 ≡ true
    pub uploaded : (transfer name base ctx s).1 ≡ true

  pub data Cycle (name : Text) (base : Option Text) (ctx : WatchContext) (s : w.State) (h : Health)
      : Type 0 where
    failed : Fails name base ctx s → h ≡ worse (health ctx) → Cycle name base ctx s h
    made : Makes name base ctx s → h ≡ healthy name → Cycle name base ctx s h

  abbrev pub name_at : BackupType → WatchContext → ℕ → Text
  name_at t ctx now =
      resolve_name_template w.format ctx.config.watch.name_template (type_text t) now ctx.macros

  abbrev pub decision_on : List BackupSummary → WatchContext → ℕ → ResumeDecision
  decision_on l ctx now =
      resume_state w.matches l ctx.config.watch.name_template (watch_interval_of ctx.config)
        (full_interval_of ctx.config) now

  -- What follows a listing, with the state and the time of the clock that is read behind it.
  pub data Decided (d : ResumeDecision) (ctx : WatchContext) (s : w.State) (h : Health)
      : Type 0 where
    rested : (time : ℕ) → d ≡ sleep_then_incr time → h ≡ health ctx → Decided d ctx s h
    cycled :
        {t : BackupType} {base : Option Text}
        → Chosen ctx.force_next_full d t base
        → Cycle (name_at t ctx (w.clock s).1) base ctx (w.clock s).0 h
        → Decided d ctx s h

  pub data Round (ctx : WatchContext) (s : w.State) (h : Health) : Type 0 where
    unlisted : (w.list_remote s).1 ≡ none → h ≡ worse (health ctx) → Round ctx s h
    listed :
        (l : List BackupSummary)
        → (w.list_remote s).1 ≡ some l
        → Decided
            (decision_on l ctx (w.clock (w.list_remote s).0).1)
            ctx
            (w.clock (w.list_remote s).0).0
            h
        → Round ctx s h

  -- The limit ends the loop as soon as it is reached, and only then; the flag for the shutdown is
  -- looked at next.
  pub data Turn (ctx : WatchContext) (s : w.State) (x : Option WatchLoopExit) (h : Health)
      : Type 0 where
    gave_up :
        0 < ctx.config.watch.max_consecutive_errors
        → ctx.config.watch.max_consecutive_errors ≤ ctx.consecutive_errors
        → x ≡ some max_errors
        → h ≡ health ctx
        → Turn ctx s x h
    shut_down :
        (ctx.config.watch.max_consecutive_errors ≡ 0)
          ⊎ (ctx.consecutive_errors < ctx.config.watch.max_consecutive_errors)
        → w.shutdown_flag s ≡ true
        → x ≡ some shutdown
        → h ≡ health ctx
        → Turn ctx s x h
    went_on :
        (ctx.config.watch.max_consecutive_errors ≡ 0)
          ⊎ (ctx.consecutive_errors < ctx.config.watch.max_consecutive_errors)
        → w.shutdown_flag s ≡ false
        → Round ctx s h
        → IsWake x
        → Turn ctx s x h
