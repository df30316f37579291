-- ===== src/Watch/Turns.antt =====
-- The watch loop of src/watch/mod.rs against the abstract machine of Watch/Events.
use chbackup.Base.{
  ℕ, Bool, true, false, ◌&&◌, Option, none, some, List, [], ◌∷◌, ◌≡◌, refl, ap, ◌∙◌, ◌⊎◌, inl, inr,
  arith, if◌then◌else◌, ltb, leb, Bool-cases, Option-cases, Result, ok, err,
}
use chbackup.Base.Text.{Text}
use chbackup.Listing.{BackupSummary}
use chbackup.Server.{NameError, validate_backup_name}
use chbackup.Watch.{ResumeDecision, full_now, incr_now, sleep_then_incr, BackupType, full, incr}
use chbackup.Watch.Context.{
  WatchContext, shutdown, max_errors, set_state, idle, set_consecutive_errors, set_next_backup_in,
  ReloadAttempt, apply_config_reload, Signal, shutdown_changed, reload_changed,
}
use chbackup.Watch.Loop.{
  World, Outcome, handle_signals, interruptible_sleep, handle_error, sleep_for, record_upload,
  reset_errors, finish_cycle, after_upload, after_create, locked_cycle, after_lock,
  incr_unless_forced, backup_cycle, with_name, with_listing, act, query, iterate,
}
use chbackup.Watch.Events.{
  Health, health, worse, healthy, IsWake, full_decided, full_forced, incr_decided, Fails, bad_name,
  lock_refused, creation_failed, upload_failed, Cycle, failed, made, name_at, Decided, rested,
  cycled, Round, unlisted, listed, Turn, gave_up, shut_down, went_on,
}

apply_config_reload-health :
    (a : ReloadAttempt) (ctx : WatchContext) → health (apply_config_reload a ctx) ≡ health ctx
unfolding apply_config_reload
apply_config_reload-health a ctx = elim (Option-cases a.loaded) [
  | inl e ↦ rw (e, apply_config_reload) refl
  | inr (c, e) ↦ elim (Bool-cases (a.valid && (a.client && a.storage))) [
    | inl v ↦ rw (e, v, apply_config_reload) refl
    | inr v ↦ rw (e, v, apply_config_reload) refl
  ]
]

module _ (w : World) where
  abbrev Wakes : Health → Outcome w.State → Type 0
  Wakes h o = (health o.ctx ≡ h) × IsWake o.exit

  handle_signals-Wakes :
      (l : List Signal) (ctx : WatchContext) (s : w.State)
      → Wakes (health ctx) (handle_signals w l ctx s)
  unfolding handle_signals
  handle_signals-Wakes [] ctx s = (refl, inl refl)
  handle_signals-Wakes (shutdown_changed true ∷ rest) ctx s = (refl, inr refl)
  handle_signals-Wakes (shutdown_changed false ∷ rest) ctx s = handle_signals-Wakes rest ctx s
  handle_signals-Wakes (reload_changed true a ∷ rest) ctx s =
      let (e, x) = handle_signals-Wakes rest (apply_config_reload a ctx) s in
      (e ∙ apply_config_reload-health a ctx, x)
  handle_signals-Wakes (reload_changed false a ∷ rest) ctx s = handle_signals-Wakes rest ctx s

  interruptible_sleep-Wakes :
      (d : ℕ) (ctx : WatchContext) (s : w.State)
      → Wakes (health ctx) (interruptible_sleep w d ctx s)
  unfolding interruptible_sleep
  interruptible_sleep-Wakes d ctx s = handle_signals-Wakes (w.signals d s).1 ctx (w.signals d s).0

  sleep_for-Wakes :
      (d : ℕ) (ctx : WatchContext) (s : w.State) → Wakes (health ctx) (sleep_for w d ctx s)
  unfolding sleep_for set_state set_next_backup_in
  sleep_for-Wakes d ctx s = interruptible_sleep-Wakes d _ s

  handle_error-Wakes :
      (d : ℕ) (ctx : WatchContext) (s : w.State)
      → Wakes (worse (health ctx)) (handle_error w d ctx s)
  unfolding handle_error set_state set_consecutive_errors
  handle_error-Wakes d ctx s = interruptible_sleep-Wakes d _ s

  abbrev Allows : BackupType → Health → Type 0
  Allows full h = Unit
  Allows incr h = h.full_due ≡ false

  finish_cycle-Wakes :
      (t : BackupType) (name : Text) (d : ℕ) (ctx : WatchContext) (s : w.State)
      → Allows t (health ctx)
      → Wakes (healthy name) (finish_cycle w t name d ctx s)
  unfolding finish_cycle reset_errors record_upload set_state set_consecutive_errors
  finish_cycle-Wakes full name d ctx s a = sleep_for-Wakes d _ _
  finish_cycle-Wakes incr name d ctx s a =
      let (e, x) = sleep_for-Wakes d _ _ in
      (e ∙ ap (λ (f : Bool). record { errors = 0; full_due = f; last_backup = some name }) a, x)

  -- How a stage ends by whether it and the stages behind it succeed.
  data Ends (F M : Type 0) (name : Text) (h : Health) (o : Outcome w.State) : Type 0 where
    fails : F → Wakes (worse h) o → Ends F M name h o
    makes : M → Wakes (healthy name) o → Ends F M name h o

  after_upload-Ends :
      (b : Bool) (t : BackupType) (name : Text) (ctx : WatchContext) (s : w.State)
      → Allows t (health ctx)
      → Ends (b ≡ false) (b ≡ true) name (health ctx) (after_upload w b t name ctx s)
  unfolding after_upload
  after_upload-Ends true t name ctx s a = makes refl (finish_cycle-Wakes t name _ ctx s a)
  after_upload-Ends false t name ctx s a = fails refl (handle_error-Wakes _ ctx s)

  after_create-Ends :
      (b : Bool) (t : BackupType) (base : Option Text) (name : Text) (ctx : WatchContext)
      (s : w.State)
      → Allows t (health ctx)
      → Ends
          ((b ≡ false) ⊎ ((b ≡ true) × ((w.upload name base s).1 ≡ false)))
          ((b ≡ true) × ((w.upload name base s).1 ≡ true))
          name
          (health ctx)
          (after_create w b t base name ctx s)
  unfolding after_create set_state
  after_create-Ends true t base name ctx s a = elim (after_upload-Ends _ t name _ _ a) [
    | fails f x ↦ fails (inr (refl, f)) x
    | makes m x ↦ makes (refl, m) x
  ]
  after_create-Ends false t base name ctx s a = fails (inl refl) (handle_error-Wakes _ ctx s)

  backup_cycle-Cycle :
      (t : BackupType) (base : Option Text) (ctx : WatchContext) (s : w.State)
      → Allows t (health ctx)
      → let o = backup_cycle w t base ctx s in
        IsWake o.exit
        × Cycle w (name_at w t ctx (w.clock s).1) base ctx (w.clock s).0 (health o.ctx)
  unfolding backup_cycle with_name after_lock locked_cycle set_state
  backup_cycle-Cycle t base ctx s a = named (validate_backup_name name) refl
    where
      name : Text
      name = name_at w t ctx (w.clock s).1

      now : w.State
      now = (w.clock s).0

      Goal : Outcome w.State → Type 0
      Goal o = IsWake o.exit × Cycle w name base ctx now (health o.ctx)

      locked :
          validate_backup_name name ≡ ok tt
          → (b : Bool) → (w.lock_backup name now).1 ≡ b
          → Goal (after_lock w b t base name ctx (w.lock_backup name now).0)
      locked v false l = let (e, x) = handle_error-Wakes _ ctx _ in (x, failed (lock_refused v l) e)
      locked v true l = elim (after_create-Ends _ t base name _ _ a) [
        | fails (inl c) (e, x) ↦ (x, failed (creation_failed v l c) e)
        | fails (inr (c, u)) (e, x) ↦ (x, failed (upload_failed v l c u) e)
        | makes (c, u) (e, x) ↦
            (x, made (record { valid = v; locked = l; created = c; uploaded = u }) e)
      ]

      named :
          (r : Result NameError (Unit {0}))
          → validate_backup_name name ≡ r
          → Goal (with_name w r t base name ctx now)
      named (err k) v = let (e, x) = handle_error-Wakes _ ctx _ in (x, failed (bad_name k v) e)
      named (ok u) v = locked v (w.lock_backup name now).1 refl

  act-Decided :
      (d : ResumeDecision) (ctx : WatchContext) (s : w.State)
      → let o = act w d ctx s in IsWake o.exit × Decided w d ctx s (health o.ctx)
  unfolding act incr_unless_forced
  act-Decided (sleep_then_incr r) ctx s =
      let (e, x) = sleep_for-Wakes r ctx s in (x, rested r refl e)
  act-Decided full_now ctx s =
      let (x, c) = backup_cycle-Cycle full none ctx s tt in (x, cycled full_decided c)
  act-Decided (incr_now base) ctx s = unless_forced ctx.force_next_full refl
    where
      unless_forced :
          (b : Bool)
          → ctx.force_next_full ≡ b
          → let o = incr_unless_forced w b base ctx s in
            IsWake o.exit × Decided w (incr_now base) ctx s (health o.ctx)
      unless_forced true e =
          let (x, c) = backup_cycle-Cycle full none ctx s tt in (x, cycled (full_forced e) c)
      unless_forced false e =
          let (x, c) = backup_cycle-Cycle incr (some base) ctx s e in (x, cycled (incr_decided e) c)

  query-Round :
      (ctx : WatchContext) (s : w.State)
      → let o = query w ctx s in IsWake o.exit × Round w ctx s (health o.ctx)
  unfolding query with_listing
  query-Round ctx s = answered (w.list_remote s).1 refl
    where
      answered :
          (l : Option (List BackupSummary))
          → (w.list_remote s).1 ≡ l
          → let o = with_listing w l ctx (w.list_remote s).0 in
            IsWake o.exit × Round w ctx s (health o.ctx)
      answered none q = let (e, x) = handle_error-Wakes _ ctx _ in (x, unlisted q e)
      answered (some l) q = let (x, d) = act-Decided _ ctx _ in (x, listed l q d)

  -- The state that is shown has no part in a round.
  idle-Fails :
      (name : Text) (base : Option Text) (ctx : WatchContext) (s : w.State)
      → Fails w name base (set_state idle ctx) s
      → Fails w name base ctx s
  unfolding set_state
  idle-Fails name base ctx s (bad_name e v) = bad_name e v
  idle-Fails name base ctx s (lock_refused v l) = lock_refused v l
  idle-Fails name base ctx s (creation_failed v l c) = creation_failed v l c
  idle-Fails name base ctx s (upload_failed v l c u) = upload_failed v l c u

  idle-Cycle :
      (name : Text) (base : Option Text) (ctx : WatchContext) (s : w.State) (h : Health)
      → Cycle w name base (set_state idle ctx) s h
      → Cycle w name base ctx s h
  unfolding set_state
  idle-Cycle name base ctx s h (failed f e) = failed (idle-Fails name base ctx s f) e
  idle-Cycle name base ctx s h (made m e) =
      made
        (record { valid = m.valid; locked = m.locked; created = m.created; uploaded = m.uploaded })
        e

  idle-Decided :
      (d : ResumeDecision) (ctx : WatchContext) (s : w.State) (h : Health)
      → Decided w d (set_state idle ctx) s h
      → Decided w d ctx s h
  unfolding set_state
  idle-Decided d ctx s h (rested r q e) = rested r q e
  idle-Decided d ctx s h (cycled q c) = cycled q (idle-Cycle _ _ ctx _ h c)

  idle-Round :
      (ctx : WatchContext) (s : w.State) (h : Health)
      → Round w (set_state idle ctx) s h
      → Round w ctx s h
  unfolding set_state
  idle-Round ctx s h (unlisted q e) = unlisted q e
  idle-Round ctx s h (listed l q d) = listed l q (idle-Decided _ ctx _ h d)

  -- Every iteration does one of the things that the abstract machine allows, by the answers of its
  -- own calls, made in order and each at the state that the calls before it left. It ends with
  -- MaxErrors if the limit is above 0 and reached, and only then; else it is shut down if the flag
  -- is set. Else, if the remote cannot be listed, or the decision from the listing is for a backup
  -- whose name is invalid, whose lock is refused, whose creation fails or whose upload fails, an
  -- error is counted and a full backup asked for; if all these succeed, the errors and the wish are
  -- cleared and the name is the last backup's; if the decision is to sleep, nothing changes. The
  -- backup is a full one if that is decided or asked for, and otherwise an incremental one against
  -- the decided base.
  pub iterate-Turn :
      (ctx : WatchContext) (s : w.State)
      → Turn w ctx s (iterate w ctx s).exit (health (iterate w ctx s).ctx)
  unfolding iterate set_state
  iterate-Turn ctx s = turn _ refl _ refl
    where
      limit : ℕ
      limit = ctx.config.watch.max_consecutive_errors

      TurnOf : Outcome w.State → Type 0
      TurnOf o = Turn w ctx s o.exit (health o.ctx)

      turn :
          (b : Bool)
          → (leb limit ctx.consecutive_errors && ltb 0 limit) ≡ b
          → (c : Bool) → w.shutdown_flag s ≡ c
          → TurnOf (
              if b
              then record { ctx = ctx; world = s; exit = some max_errors }
              else if c
              then record { ctx = set_state idle ctx; world = s; exit = some shutdown }
              else query w (set_state idle ctx) s)
      turn true e c f = gave_up (ground (arith, e)) (ground (arith, e)) refl refl
      turn false e true f = shut_down (ground (arith, e)) f refl refl
      turn false e false f =
          let (x, r) = query-Round (set_state idle ctx) s in
          went_on (ground (arith, e)) f (idle-Round ctx s _ r) x
