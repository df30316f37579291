-- ===== src/Watch/Status.antt =====
-- What the API shows of the watch loop of src/watch/mod.rs, and the wish for a full backup.
use chbackup.Base.{
  subst, ℕ, zero, suc, Bool, true, false, Option, none, some, List, [], ◌∷◌, ◌≡◌, refl, sym, ap,
  ◌∙◌, ◌⊎◌, inl, inr, Bool-cases, Option-cases, if◌then◌else◌, ◌&&◌, Result, ok, err,
}
use chbackup.Base.Text.{Text}
use chbackup.Listing.{BackupSummary}
use chbackup.Server.{NameError}
use chbackup.Watch.{ResumeDecision, full_now, incr_now, sleep_then_incr, BackupType, full, incr}
use chbackup.Watch.Context.{
  WatchState, watch_state_name, WatchStatus, WatchContext, WatchLoopExit, shutdown, max_errors,
  set_state, idle, sleeping, set_consecutive_errors, set_next_backup_in, ReloadAttempt,
  apply_config_reload, Signal, shutdown_changed, reload_changed,
}
use chbackup.Watch.Loop.{
  World, Outcome, handle_signals, interruptible_sleep, handle_error, sleep_for, record_upload,
  reset_errors, finish_cycle, after_upload, after_create, locked_cycle, after_lock, with_name,
  backup_cycle, incr_unless_forced, act, with_listing, query, iterate, unless_exited,
  watch_iterations, run_watch_loop,
}
use chbackup.Watch.Events.{
  Health, health, worse, healthy, failed, made, Decided, rested, cycled, unlisted, listed, Turn,
  gave_up, shut_down, went_on,
}
use chbackup.Watch.Turns.{iterate-Turn}

-- The state that is shown is the loop's, so is the number of errors, and no next backup is
-- announced.
pub record IsShown (ctx : WatchContext) : Type 0 where
  pub state_shown : ctx.watch_status.state ≡ watch_state_name ctx.state
  pub errors_shown : ctx.watch_status.consecutive_errors ≡ ctx.consecutive_errors
  pub awake : ctx.watch_status.next_backup_in ≡ none

record View : Type 0 where
  state : WatchState
  errors : ℕ
  status : WatchStatus

abbrev view : WatchContext → View
view ctx = record { state = ctx.state; errors = ctx.consecutive_errors; status = ctx.watch_status }

apply_config_reload-view :
    (a : ReloadAttempt) (ctx : WatchContext) → view (apply_config_reload a ctx) ≡ view ctx
unfolding apply_config_reload
apply_config_reload-view a ctx = elim (Option-cases a.loaded) [
  | inl e ↦ rw (e, apply_config_reload) refl
  | inr (c, e) ↦ elim (Bool-cases (a.valid && (a.client && a.storage))) [
    | inl v ↦ rw (e, v, apply_config_reload) refl
    | inr v ↦ rw (e, v, apply_config_reload) refl
  ]
]

set_state-IsShown : (t : WatchState) (ctx : WatchContext) → IsShown ctx → IsShown (set_state t ctx)
unfolding set_state
set_state-IsShown t ctx p = record {
  state_shown = refl;
  errors_shown = p.errors_shown;
  awake = p.awake;
}

record_upload-IsShown :
    (w : World) (t : BackupType) (now : ℕ) (ctx : WatchContext)
    → IsShown ctx
    → IsShown (record_upload w t now ctx)
unfolding record_upload
record_upload-IsShown w full now ctx p = record {
  state_shown = p.state_shown;
  errors_shown = p.errors_shown;
  awake = p.awake;
}
record_upload-IsShown w incr now ctx p = record {
  state_shown = p.state_shown;
  errors_shown = p.errors_shown;
  awake = p.awake;
}

reset_errors-IsShown :
    (w : World) (t : BackupType) (name : Text) (ctx : WatchContext)
    → IsShown ctx
    → IsShown (reset_errors w t name ctx)
unfolding reset_errors set_consecutive_errors
reset_errors-IsShown w full name ctx p = record {
  state_shown = p.state_shown;
  errors_shown = refl;
  awake = p.awake;
}
reset_errors-IsShown w incr name ctx p = record {
  state_shown = p.state_shown;
  errors_shown = refl;
  awake = p.awake;
}

module _ (w : World) where
  handle_signals-view :
      (l : List Signal) (ctx : WatchContext) (s : w.State)
      → view (handle_signals w l ctx s).ctx ≡ view ctx
  unfolding handle_signals
  handle_signals-view [] ctx s = refl
  handle_signals-view (shutdown_changed true ∷ l) ctx s = refl
  handle_signals-view (shutdown_changed false ∷ l) ctx s = handle_signals-view l ctx s
  handle_signals-view (reload_changed true a ∷ l) ctx s =
      handle_signals-view l (apply_config_reload a ctx) s ∙ apply_config_reload-view a ctx
  handle_signals-view (reload_changed false a ∷ l) ctx s = handle_signals-view l ctx s

  sleep-IsShown :
      (d : ℕ) (ctx : WatchContext) (s : w.State)
      → IsShown ctx
      → IsShown (interruptible_sleep w d ctx s).ctx
  unfolding interruptible_sleep
  sleep-IsShown d ctx s p =
      let e = handle_signals-view (w.signals d s).1 ctx (w.signals d s).0 in
      record {
        state_shown =
            ap (λ (v : View). v.status.state) e
            ∙ p.state_shown
            ∙ sym (ap (λ (v : View). watch_state_name v.state) e);
        errors_shown =
            ap (λ (v : View). v.status.consecutive_errors) e
            ∙ p.errors_shown
            ∙ sym (ap (λ (v : View). v.errors) e);
        awake = ap (λ (v : View). v.status.next_backup_in) e ∙ p.awake;
      }

  error-IsShown :
      (d : ℕ) (ctx : WatchContext) (s : w.State)
      → IsShown ctx
      → IsShown (handle_error w d ctx s).ctx
  unfolding handle_error set_state set_consecutive_errors
  error-IsShown d ctx s p =
      sleep-IsShown d _ s (record { state_shown = refl; errors_shown = refl; awake = p.awake })

  sleep_for-IsShown :
      (d : ℕ) (ctx : WatchContext) (s : w.State) → IsShown ctx → IsShown (sleep_for w d ctx s).ctx
  unfolding sleep_for interruptible_sleep set_next_backup_in set_state
  sleep_for-IsShown d ctx s p =
      let e =
        handle_signals-view (w.signals d s).1 (set_next_backup_in (some d) (set_state sleeping ctx))
          (w.signals d s).0 in
      record {
        state_shown =
            ap (λ (v : View). v.status.state) e
            ∙ sym (ap (λ (v : View). watch_state_name v.state) e);
        errors_shown =
            ap (λ (v : View). v.status.consecutive_errors) e
            ∙ p.errors_shown
            ∙ sym (ap (λ (v : View). v.errors) e);
        awake = refl;
      }

  after_upload-IsShown :
      (b : Bool) (t : BackupType) (n : Text) (ctx : WatchContext) (s : w.State)
      → IsShown ctx
      → IsShown (after_upload w b t n ctx s).ctx
  unfolding after_upload finish_cycle
  after_upload-IsShown true t n ctx s p =
      sleep_for-IsShown _ _ _
        (reset_errors-IsShown w t n _ (set_state-IsShown _ _ (record_upload-IsShown w t _ ctx p)))
  after_upload-IsShown false t n ctx s p = error-IsShown _ ctx s p

  after_create-IsShown :
      (b : Bool) (t : BackupType) (base : Option Text) (n : Text) (ctx : WatchContext) (s : w.State)
      → IsShown ctx
      → IsShown (after_create w b t base n ctx s).ctx
  unfolding after_create
  after_create-IsShown true t base n ctx s p =
      after_upload-IsShown _ t n _ _ (set_state-IsShown _ ctx p)
  after_create-IsShown false t base n ctx s p = error-IsShown _ ctx s p

  after_lock-IsShown :
      (b : Bool) (t : BackupType) (base : Option Text) (n : Text) (ctx : WatchContext) (s : w.State)
      → IsShown ctx
      → IsShown (after_lock w b t base n ctx s).ctx
  unfolding after_lock locked_cycle
  after_lock-IsShown true t base n ctx s p =
      after_create-IsShown _ t base n _ _ (set_state-IsShown _ ctx p)
  after_lock-IsShown false t base n ctx s p = error-IsShown _ ctx s p

  backup_cycle-IsShown :
      (t : BackupType) (base : Option Text) (ctx : WatchContext) (s : w.State)
      → IsShown ctx
      → IsShown (backup_cycle w t base ctx s).ctx
  unfolding backup_cycle with_name
  backup_cycle-IsShown t base ctx s p = named _ _ _
    where
      named :
          (n : Text) (s : w.State)
          → (r : Result NameError (Unit {0})) → IsShown (with_name w r t base n ctx s).ctx
      named n s (err _) = error-IsShown _ ctx _ p
      named n s (ok _) = after_lock-IsShown _ t base _ ctx _ p

  act-IsShown :
      (d : ResumeDecision) (ctx : WatchContext) (s : w.State)
      → IsShown ctx
      → IsShown (act w d ctx s).ctx
  unfolding act incr_unless_forced
  act-IsShown (sleep_then_incr r) ctx s p = sleep_for-IsShown r ctx s p
  act-IsShown full_now ctx s p = backup_cycle-IsShown full none ctx s p
  act-IsShown (incr_now base) ctx s p = either ctx.force_next_full
    where
      either : (b : Bool) → IsShown (incr_unless_forced w b base ctx s).ctx
      either true = backup_cycle-IsShown full none ctx s p
      either false = backup_cycle-IsShown incr (some base) ctx s p

  with_listing-IsShown :
      (l : Option (List BackupSummary)) (ctx : WatchContext) (s : w.State)
      → IsShown ctx
      → IsShown (with_listing w l ctx s).ctx
  unfolding with_listing
  with_listing-IsShown none ctx s p = error-IsShown _ ctx s p
  with_listing-IsShown (some l) ctx s p = act-IsShown _ ctx _ p

  iterate-IsShown : (ctx : WatchContext) (s : w.State) → IsShown ctx → IsShown (iterate w ctx s).ctx
  unfolding iterate query
  iterate-IsShown ctx s p = checked _ _
    where
      checked :
          (b d : Bool)
          → IsShown
              (if b
                then record { ctx = ctx; world = s; exit = some max_errors }
                else if d
                then record { ctx = set_state idle ctx; world = s; exit = some shutdown }
                else query w (set_state idle ctx) s).ctx
      checked true d = p
      checked false true = set_state-IsShown idle ctx p
      checked false false = with_listing-IsShown _ _ _ (set_state-IsShown idle ctx p)

-- While errors are counted, the next backup is to be a full one.
pub record IsConsistent (ctx : WatchContext) : Type 0 where
  pub shown : IsShown ctx
  pub forced : (ctx.consecutive_errors ≡ 0) ⊎ (ctx.force_next_full ≡ true)

abbrev IsForced : Health → Type 0
IsForced h = (h.errors ≡ 0) ⊎ (h.full_due ≡ true)

worse-IsForced : (g h : Health) → h ≡ worse g → IsForced h
worse-IsForced g h e = inr (ap (λ (k : Health). k.full_due) e)

healthy-IsForced : (name : Text) (h : Health) → h ≡ healthy name → IsForced h
healthy-IsForced name h e = inl (ap (λ (k : Health). k.errors) e)

module _ (w : World) where
  Decided-IsForced :
      (d : ResumeDecision) (ctx : WatchContext) (s : w.State) (h : Health)
      → IsForced (health ctx)
      → Decided w d ctx s h
      → IsForced h
  Decided-IsForced d ctx s h c (rested r q e) = subst IsForced (sym e) c
  Decided-IsForced d ctx s h c (cycled q (failed f e)) = worse-IsForced (health ctx) h e
  Decided-IsForced d ctx s h c (cycled q (made m e)) = healthy-IsForced _ h e

  Turn-IsForced :
      (ctx : WatchContext) (s : w.State) (x : Option WatchLoopExit) (h : Health)
      → IsForced (health ctx)
      → Turn w ctx s x h
      → IsForced h
  Turn-IsForced ctx s x h c (gave_up p q r e) = subst IsForced (sym e) c
  Turn-IsForced ctx s x h c (shut_down p q r e) = subst IsForced (sym e) c
  Turn-IsForced ctx s x h c (went_on p f (unlisted q e) r) = worse-IsForced (health ctx) h e
  Turn-IsForced ctx s x h c (went_on p f (listed l q d) r) = Decided-IsForced _ ctx _ h c d

  iterate-IsConsistent :
      (ctx : WatchContext) (s : w.State) → IsConsistent ctx → IsConsistent (iterate w ctx s).ctx
  iterate-IsConsistent ctx s p = record {
    shown = iterate-IsShown w ctx s p.shown;
    forced = Turn-IsForced ctx s _ (health (iterate w ctx s).ctx) p.forced (iterate-Turn w ctx s);
  }

  watch_iterations-IsConsistent :
      (fuel : ℕ) (ctx : WatchContext) (s : w.State)
      → IsConsistent ctx
      → IsConsistent (watch_iterations w fuel ctx s).ctx
  unfolding watch_iterations
  watch_iterations-IsConsistent zero ctx s p = p
  watch_iterations-IsConsistent (suc fuel) ctx s p =
      ended _ (watch_iterations-IsConsistent fuel _ _ (iterate-IsConsistent ctx s p))
        (iterate w ctx s).exit
    where
      ended :
          (later : Outcome w.State)
          → IsConsistent later.ctx
          → (x : Option WatchLoopExit)
          → IsConsistent (unless_exited w x (iterate w ctx s) later).ctx
      ended later k (some reason) = iterate-IsConsistent ctx s p
      ended later k none = k

  -- However long the loop runs, between two iterations and at its end the API shows its state and
  -- its number of consecutive errors and announces no next backup, and if there is an error, then
  -- the next backup is to be a full one; provided that at the start the number of errors is shown,
  -- no backup is announced, and a full one is wanted if there is an error.
  pub run_watch_loop-IsConsistent :
      (fuel : ℕ) (ctx : WatchContext) (s : w.State)
      → ctx.watch_status.consecutive_errors ≡ ctx.consecutive_errors
      → ctx.watch_status.next_backup_in ≡ none
      → (ctx.consecutive_errors ≡ 0) ⊎ (ctx.force_next_full ≡ true)
      → IsConsistent (run_watch_loop w fuel ctx s).ctx
  unfolding run_watch_loop set_state
  run_watch_loop-IsConsistent fuel ctx s e n f =
      watch_iterations-IsConsistent fuel _ s
        (record { shown = record { state_shown = refl; errors_shown = e; awake = n }; forced = f })
