-- ===== src/Watch/Contract.antt =====
-- What the watch loop of src/watch/mod.rs asks of the rest of the program, and when: the names that
-- it works on, the bases that it uploads against, and the lock that it holds meanwhile.
use chbackup.Base.{
  ℕ, zero, suc, ◌<◌, Bool, true, false, Option, none, some, List, ◌≡◌, refl, sym, subst, [], ◌∷◌,
  arith, if◌then◌else◌, ltb, Result, ok, err, Memᴰ,
}
use chbackup.Base.Text.{Text}
use chbackup.Base.Int.{ℤ, pos, negsuc, is_positive, as_usize}
use chbackup.Listing.{BackupSummary}
use chbackup.Server.{NameError, validate_backup_name}
use chbackup.Server.Names.{IsPathComponent, validate_backup_name_iff}
use chbackup.Config.{Config, effective_retention_local, effective_retention_remote}
use chbackup.Watch.{
  ResumeDecision, full_now, incr_now, sleep_then_incr, BackupType, full, incr,
  resolve_template_prefix,
}
use chbackup.Watch.Resume.{IsCandidate, resume_state-incr}
use chbackup.Watch.Context.{
  WatchContext, WatchLoopExit, shutdown, max_errors, set_state, idle, Signal, shutdown_changed,
  reload_changed, apply_config_reload,
}
use chbackup.Watch.Loop.{
  World, Outcome, interruptible_sleep, handle_signals, handle_error, sleep_for, with_deleted,
  remote_retention, clean_up, finish_cycle, after_upload, after_create, locked_cycle, after_lock,
  with_name, backup_cycle, incr_unless_forced, act, with_listing, query, iterate, unless_exited,
  watch_iterations, run_watch_loop,
}

zero_less : (k : ℕ) → ltb 0 (suc k) ≡ true
zero_less k = ground arith

handle_signals-world :
    (w : World) (l : List Signal) (ctx : WatchContext) (s : w.State)
    → (handle_signals w l ctx s).world ≡ s
unfolding handle_signals
handle_signals-world w [] ctx s = refl
handle_signals-world w (shutdown_changed true ∷ l) ctx s = refl
handle_signals-world w (shutdown_changed false ∷ l) ctx s = handle_signals-world w l ctx s
handle_signals-world w (reload_changed true a ∷ l) ctx s =
    handle_signals-world w l (apply_config_reload a ctx) s
handle_signals-world w (reload_changed false a ∷ l) ctx s = handle_signals-world w l ctx s

module _ (w : World) where
  -- A base of an upload: a backup that the remote listing gave, with the name, that is not broken,
  -- has a time and the prefix of some template.
  abbrev pub IsBase : Option Text → Type 0
  IsBase none = Unit
  IsBase (some base) =
      (s : w.State) × (l : List BackupSummary) × (b : BackupSummary) × (template : Text)
      × ((w.list_remote s).1 ≡ some l)
      × Memᴰ b l
      × IsCandidate (resolve_template_prefix template) b
      × (b.name ≡ base)

  -- `I held s`: the state is `s` while the loop holds the lock of the backup `held`, or none.
  -- The calls keep `I` when they are made as the loop may make them.
  pub record Contract (I : Option Text → w.State → Type 0) : Type 0 where
    pub clock_keeps : (h : Option Text) (s : w.State) → I h s → I h (w.clock s).0
    pub sleep_keeps : (h : Option Text) (d : ℕ) (s : w.State) → I h s → I h (w.signals d s).0
    pub list_keeps : (s : w.State) → I none s → I none (w.list_remote s).0
    pub lock_taken :
        (n : Text) (s : w.State)
        → IsPathComponent n
        → I none s
        → (w.lock_backup n s).1 ≡ true
        → I (some n) (w.lock_backup n s).0
    pub lock_refused :
        (n : Text) (s : w.State)
        → IsPathComponent n
        → I none s
        → (w.lock_backup n s).1 ≡ false
        → I none (w.lock_backup n s).0
    pub drop_keeps : (n : Text) (s : w.State) → I (some n) s → I none (w.drop_lock n s)
    pub create_keeps :
        (n : Text) (t : Option Text) (s : w.State) → I (some n) s → I (some n) (w.create n t s).0
    pub upload_keeps :
        (n : Text) (base : Option Text) (s : w.State)
        → IsBase base
        → I (some n) s
        → I (some n) (w.upload n base s).0
    pub invalidate_keeps :
        (n : Text) (s : w.State) → I (some n) s → I (some n) (w.invalidate_cache s)
    pub delete_keeps : (n : Text) (s : w.State) → I (some n) s → I (some n) (w.delete_local n s)
    pub local_keeps :
        (n : Text) (k : ℕ) (s : w.State) → 0 < k → I (some n) s → I (some n) (w.retention_local k s)
    pub remote_keeps :
        (n : Text) (k : ℕ) (s : w.State)
        → 0 < k
        → I (some n) s
        → I (some n) (w.retention_remote k s).0

  module _ (I : Option Text → w.State → Type 0) (c : Contract I) where
    handle_signals-keeps :
        (h : Option Text) (l : List Signal) (ctx : WatchContext) (s : w.State)
        → I h s
        → I h (handle_signals w l ctx s).world
    handle_signals-keeps h l ctx s i = subst (I h) (sym (handle_signals-world w l ctx s)) i

    sleep-keeps :
        (h : Option Text) (d : ℕ) (ctx : WatchContext) (s : w.State)
        → I h s
        → I h (interruptible_sleep w d ctx s).world
    unfolding interruptible_sleep
    sleep-keeps h d ctx s i = handle_signals-keeps h _ ctx _ (c.sleep_keeps h d s i)

    error-keeps :
        (h : Option Text) (d : ℕ) (ctx : WatchContext) (s : w.State)
        → I h s
        → I h (handle_error w d ctx s).world
    unfolding handle_error
    error-keeps h d ctx s i = sleep-keeps h d _ s i

    sleep_for-keeps :
        (h : Option Text) (d : ℕ) (ctx : WatchContext) (s : w.State)
        → I h s
        → I h (sleep_for w d ctx s).world
    unfolding sleep_for
    sleep_for-keeps h d ctx s i = sleep-keeps h d _ s i

    with_deleted-keeps :
        (n : Text) (d : Option ℕ) (s : w.State) → I (some n) s → I (some n) (with_deleted w d s)
    unfolding with_deleted
    with_deleted-keeps n none s i = i
    with_deleted-keeps n (some zero) s i = i
    with_deleted-keeps n (some (suc d)) s i = rw (zero_less d) (c.invalidate_keeps n s i)

    -- The retention of one place, if the count asks for it.
    local_if-keeps :
        (n : Text) (k : ℤ) (s : w.State)
        → I (some n) s
        → I (some n) (if is_positive k then w.retention_local (as_usize k) s else s)
    local_if-keeps n (pos zero) s i = i
    local_if-keeps n (pos (suc k)) s i =
        rw (zero_less k) (c.local_keeps n (suc k) s (omega arith) i)
    local_if-keeps n (negsuc k) s i = i

    remote_if-keeps :
        (n : Text) (k : ℤ) (s : w.State)
        → I (some n) s
        → I (some n) (
            if is_positive k
            then with_deleted w
                (w.retention_remote (as_usize k) s).1
                (w.retention_remote (as_usize k) s).0
            else s)
    remote_if-keeps n (pos zero) s i = i
    remote_if-keeps n (pos (suc k)) s i = rw (zero_less k) (
        with_deleted-keeps n (w.retention_remote (suc k) s).1 _
          (c.remote_keeps n (suc k) s (omega arith) i))
    remote_if-keeps n (negsuc k) s i = i

    delete_if-keeps :
        (n : Text) (b : Bool) (s : w.State)
        → I (some n) s
        → I (some n) (if b then w.delete_local n s else s)
    delete_if-keeps n true s i = c.delete_keeps n s i
    delete_if-keeps n false s i = i

    clean_up-keeps :
        (config : Config) (n : Text) (s : w.State)
        → I (some n) s
        → I (some n) (clean_up w config n s)
    unfolding clean_up remote_retention
    clean_up-keeps config n s i = remote_if-keeps n (effective_retention_remote config) _ (
        local_if-keeps n (effective_retention_local config) _
          (delete_if-keeps n config.watch.delete_local_after_upload s i))

    finish_cycle-keeps :
        (t : BackupType) (n : Text) (d : ℕ) (ctx : WatchContext) (s : w.State)
        → I (some n) s
        → I (some n) (finish_cycle w t n d ctx s).world
    unfolding finish_cycle
    finish_cycle-keeps t n d ctx s i =
        sleep_for-keeps (some n) d _ _
          (clean_up-keeps ctx.config n _ (c.clock_keeps (some n) _ (c.invalidate_keeps n s i)))

    after_upload-keeps :
        (b : Bool) (t : BackupType) (n : Text) (ctx : WatchContext) (s : w.State)
        → I (some n) s
        → I (some n) (after_upload w b t n ctx s).world
    unfolding after_upload
    after_upload-keeps true t n ctx s i = finish_cycle-keeps t n _ ctx s i
    after_upload-keeps false t n ctx s i = error-keeps (some n) _ ctx s i

    after_create-keeps :
        (b : Bool) (t : BackupType) (base : Option Text) (n : Text) (ctx : WatchContext)
        (s : w.State)
        → IsBase base
        → I (some n) s
        → I (some n) (after_create w b t base n ctx s).world
    unfolding after_create
    after_create-keeps true t base n ctx s f i =
        after_upload-keeps _ t n _ _ (c.upload_keeps n base s f i)
    after_create-keeps false t base n ctx s f i = error-keeps (some n) _ ctx s i

    with_lock-keeps :
        (t : BackupType) (base : Option Text) (n : Text) (ctx : WatchContext) (s : w.State)
        → IsBase base
        → IsPathComponent n
        → I none s
        → (b : Bool) → (w.lock_backup n s).1 ≡ b
        → I none (after_lock w b t base n ctx (w.lock_backup n s).0).world
    unfolding after_lock locked_cycle
    with_lock-keeps t base n ctx s f v i true e =
        c.drop_keeps n _
          (after_create-keeps _ t base n _ _ f (c.create_keeps n _ _ (c.lock_taken n s v i e)))
    with_lock-keeps t base n ctx s f v i false e =
        error-keeps none _ ctx _ (c.lock_refused n s v i e)

    with_name-keeps :
        (t : BackupType) (base : Option Text) (n : Text) (ctx : WatchContext) (s : w.State)
        → IsBase base
        → I none s
        → (r : Result NameError (Unit {0})) → validate_backup_name n ≡ r
        → I none (with_name w r t base n ctx s).world
    unfolding with_name
    with_name-keeps t base n ctx s f i (err _) e = error-keeps none _ ctx s i
    with_name-keeps t base n ctx s f i (ok _) e =
        with_lock-keeps t base n ctx s f ((validate_backup_name_iff n).0 e) i _ refl

    backup_cycle-keeps :
        (t : BackupType) (base : Option Text) (ctx : WatchContext) (s : w.State)
        → IsBase base
        → I none s
        → I none (backup_cycle w t base ctx s).world
    unfolding backup_cycle
    backup_cycle-keeps t base ctx s f i =
        with_name-keeps t base _ ctx _ f (c.clock_keeps none s i) _ refl

    incr_unless_forced-keeps :
        (b : Bool) (base : Text) (ctx : WatchContext) (s : w.State)
        → IsBase (some base)
        → I none s
        → I none (incr_unless_forced w b base ctx s).world
    unfolding incr_unless_forced
    incr_unless_forced-keeps true base ctx s f i = backup_cycle-keeps full none ctx s tt i
    incr_unless_forced-keeps false base ctx s f i = backup_cycle-keeps incr (some base) ctx s f i

    act-keeps :
        (d : ResumeDecision) (ctx : WatchContext) (s : w.State)
        → ((base : Text) → d ≡ incr_now base → IsBase (some base))
        → I none s
        → I none (act w d ctx s).world
    unfolding act
    act-keeps (sleep_then_incr r) ctx s f i = sleep_for-keeps none r ctx s i
    act-keeps full_now ctx s f i = backup_cycle-keeps full none ctx s tt i
    act-keeps (incr_now base) ctx s f i =
        incr_unless_forced-keeps ctx.force_next_full base ctx s (f base refl) i

    with_listing-keeps :
        (ctx : WatchContext) (s t : w.State)
        → I none t
        → (l : Option (List BackupSummary)) → (w.list_remote s).1 ≡ l
        → I none (with_listing w l ctx t).world
    unfolding with_listing
    with_listing-keeps ctx s t i none e = error-keeps none _ ctx t i
    with_listing-keeps ctx s t i (some l) e =
        act-keeps _ ctx _
          (λ base d.
            let (b, m, k, n, _) = (resume_state-incr w.matches l _ _ _ _ base d).1 in
            (s, l, b, ctx.config.watch.name_template, e, m, k, n))
          (c.clock_keeps none t i)

    iterate-keeps : (ctx : WatchContext) (s : w.State) → I none s → I none (iterate w ctx s).world
    unfolding iterate query
    iterate-keeps ctx s i = checked _ _
      where
        checked :
            (b d : Bool)
            → I none
                (if b
                  then record { ctx = ctx; world = s; exit = some max_errors }
                  else if d
                  then record { ctx = set_state idle ctx; world = s; exit = some shutdown }
                  else query w (set_state idle ctx) s).world
        checked true d = i
        checked false true = i
        checked false false = with_listing-keeps (set_state idle ctx) s _ (c.list_keeps s i) _ refl

    watch_iterations-keeps :
        (fuel : ℕ) (ctx : WatchContext) (s : w.State)
        → I none s
        → I none (watch_iterations w fuel ctx s).world
    unfolding watch_iterations
    watch_iterations-keeps zero ctx s i = i
    watch_iterations-keeps (suc fuel) ctx s i =
        ended _ (watch_iterations-keeps fuel _ _ (iterate-keeps ctx s i)) (iterate w ctx s).exit
      where
        ended :
            (later : Outcome w.State)
            → I none later.world
            → (x : Option WatchLoopExit) → I none (unless_exited w x (iterate w ctx s) later).world
        ended later k (some reason) = iterate-keeps ctx s i
        ended later k none = k

    -- Whatever the calls keep when each is made as its contract says is kept by the loop, however
    -- long it runs: a backup is created and uploaded under its lock and a name that is one component
    -- of a path, an incremental one against a listed base that is not broken, the retentions get a
    -- count above 0, and the lock is given back.
    pub run_watch_loop-keeps :
        (fuel : ℕ) (ctx : WatchContext) (s : w.State)
        → I none s
        → I none (run_watch_loop w fuel ctx s).world
    unfolding run_watch_loop
    run_watch_loop-keeps fuel ctx s i = watch_iterations-keeps fuel _ s i
