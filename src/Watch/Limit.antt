-- ===== src/Watch/Limit.antt =====
-- The end of the watch loop of src/watch/mod.rs by its limit of consecutive errors.
use chbackup.Base.{
  ℕ, zero, suc, ◌+◌, ◌%◌, ◌^◌, ◌<◌, Bool, true, false, ◌&&◌, Option, none, some, List, [], ◌∷◌, ◌≡◌,
  refl, sym, ap, ◌∙◌, subst, ◌⊎◌, inl, inr, arith, ltb, leb, Result, ok, err,
}
use chbackup.Base.Text.{Text}
use chbackup.Base.Sort.{sort}
use chbackup.Listing.{BackupSummary}
use chbackup.Server.{NameError}
use chbackup.Config.{Config}
use chbackup.Watch.{BackupType, full, resume_state, resume_matching, matching_backups}
use chbackup.Watch.Context.{
  WatchContext, max_errors, set_state, idle, set_consecutive_errors, Signal,
}
use chbackup.Watch.Loop.{
  World, Outcome, handle_signals, interruptible_sleep, handle_error, after_upload, after_create,
  locked_cycle, after_lock, with_name, backup_cycle, act, with_listing, query, iterate,
  watch_iterations, run_watch_loop,
}

-- A remote that lists nothing and takes no upload, and a loop that nobody wakes.
pub record IsDown (w : World) : Type 0 where
  pub lists_nothing : (s : w.State) → ((w.list_remote s).1 ≡ none) ⊎ ((w.list_remote s).1 ≡ some [])
  pub no_upload : (n : Text) (base : Option Text) (s : w.State) → (w.upload n base s).1 ≡ false
  pub no_wake : (d : ℕ) (s : w.State) → (w.signals d s).1 ≡ []
  pub runs : (s : w.State) → w.shutdown_flag s ≡ false

module _ (w : World) where
  abbrev pub GivesUp : WatchContext → Outcome w.State → Type 0
  GivesUp ctx o =
      (o.exit ≡ some max_errors)
      × (o.ctx.consecutive_errors ≡ ctx.config.watch.max_consecutive_errors)

module _ (w : World) (down : IsDown w) where
  -- One more error, the settings as they were, and no exit.
  record Counts (ctx : WatchContext) (o : Outcome w.State) : Type 0 where
    stays : o.exit ≡ none
    counted : o.ctx.consecutive_errors ≡ (ctx.consecutive_errors + 1) % 2 ^ 32
    settled : o.ctx.config ≡ ctx.config

  sleep_quiet :
      (d : ℕ) (ctx : WatchContext) (s : w.State)
      → interruptible_sleep w d ctx s ≡ record { ctx = ctx; world = (w.signals d s).0; exit = none }
  unfolding interruptible_sleep handle_signals
  sleep_quiet d ctx s =
      ap (λ (l : List Signal). handle_signals w l ctx (w.signals d s).0) (down.no_wake d s)

  error-Counts : (d : ℕ) (ctx : WatchContext) (s : w.State) → Counts ctx (handle_error w d ctx s)
  unfolding handle_error set_state set_consecutive_errors
  error-Counts d ctx s =
      subst (Counts ctx) (sym (sleep_quiet d _ s))
        (record { stays = refl; counted = refl; settled = refl })

  after_upload-Counts :
      (b : Bool) (t : BackupType) (n : Text) (ctx : WatchContext) (s : w.State)
      → b ≡ false
      → Counts ctx (after_upload w b t n ctx s)
  unfolding after_upload
  after_upload-Counts true t n ctx s e = absurd (cc)
  after_upload-Counts false t n ctx s e = error-Counts _ ctx s

  after_create-Counts :
      (b : Bool) (t : BackupType) (base : Option Text) (n : Text) (ctx : WatchContext) (s : w.State)
      → Counts ctx (after_create w b t base n ctx s)
  unfolding after_create set_state
  after_create-Counts true t base n ctx s =
      let p = after_upload-Counts _ t n _ _ (down.no_upload n base s) in
      record { stays = p.stays; counted = p.counted; settled = p.settled }
  after_create-Counts false t base n ctx s = error-Counts _ ctx s

  after_lock-Counts :
      (b : Bool) (t : BackupType) (base : Option Text) (n : Text) (ctx : WatchContext) (s : w.State)
      → Counts ctx (after_lock w b t base n ctx s)
  unfolding after_lock locked_cycle set_state
  after_lock-Counts true t base n ctx s =
      let p = after_create-Counts _ t base n _ _ in
      record { stays = p.stays; counted = p.counted; settled = p.settled }
  after_lock-Counts false t base n ctx s = error-Counts _ ctx s

  with_name-Counts :
      (r : Result NameError (Unit {0})) (t : BackupType) (base : Option Text) (n : Text)
      (ctx : WatchContext) (s : w.State)
      → Counts ctx (with_name w r t base n ctx s)
  unfolding with_name
  with_name-Counts (err e) t base n ctx s = error-Counts _ ctx s
  with_name-Counts (ok _) t base n ctx s = after_lock-Counts _ t base n ctx _

  with_listing-Counts :
      (l : Option (List BackupSummary)) (ctx : WatchContext) (s : w.State)
      → (l ≡ none) ⊎ (l ≡ some [])
      → Counts ctx (with_listing w l ctx s)
  unfolding with_listing act backup_cycle resume_state resume_matching matching_backups sort
  with_listing-Counts none ctx s e = error-Counts _ ctx s
  with_listing-Counts (some []) ctx s e = with_name-Counts _ full none _ ctx _
  with_listing-Counts (some (b ∷ l)) ctx s e = elim e [
    | inl f ↦ absurd (cc f)
    | inr f ↦ absurd (cc f)
  ]

  iterate-below :
      (ctx : WatchContext) (s : w.State)
      → ctx.consecutive_errors < ctx.config.watch.max_consecutive_errors
      → iterate w ctx s ≡ query w (set_state idle ctx) s
  unfolding iterate
  iterate-below ctx s h =
      let open_limit : (leb ctx.config.watch.max_consecutive_errors ctx.consecutive_errors
            && ltb 0 ctx.config.watch.max_consecutive_errors)
          ≡ false =
        ground (arith, h) in
      rw (open_limit, down.runs s) refl

  iterate-at :
      (ctx : WatchContext) (s : w.State)
      → 0 < ctx.config.watch.max_consecutive_errors
      → ctx.consecutive_errors ≡ ctx.config.watch.max_consecutive_errors
      → iterate w ctx s ≡ record { ctx = ctx; world = s; exit = some max_errors }
  unfolding iterate
  iterate-at ctx s p e =
      let reached : (leb ctx.config.watch.max_consecutive_errors ctx.consecutive_errors
            && ltb 0 ctx.config.watch.max_consecutive_errors)
          ≡ true =
        ground (arith, p, e) in
      rw reached refl

  iterate-Counts :
      (ctx : WatchContext) (s : w.State)
      → ctx.consecutive_errors < ctx.config.watch.max_consecutive_errors
      → Counts ctx (iterate w ctx s)
  unfolding query set_state
  iterate-Counts ctx s h =
      subst (Counts ctx) (sym (iterate-below ctx s h))
        (quiet (with_listing-Counts _ _ _ (down.lists_nothing s)))
    where
      quiet : {o : Outcome w.State} → Counts (set_state idle ctx) o → Counts ctx o
      quiet p = record { stays = p.stays; counted = p.counted; settled = p.settled }

  -- As many iterations as there are errors left to the limit, and one more.
  iterations-end :
      (left : ℕ) (ctx : WatchContext) (s : w.State)
      → 0 < ctx.config.watch.max_consecutive_errors
      → ctx.config.watch.max_consecutive_errors < 2 ^ 32
      → ctx.consecutive_errors + left ≡ ctx.config.watch.max_consecutive_errors
      → GivesUp w ctx (watch_iterations w (suc left) ctx s)
  unfolding watch_iterations
  iterations-end zero ctx s p b e =
      rw (iterate-at ctx s p (omega (arith, e))) (refl, omega (arith, e))
  iterations-end (suc left) ctx s p b e =
      let o = iterate w ctx s in
      let c = iterate-Counts ctx s (omega (arith, e)) in
      let limit : o.ctx.config.watch.max_consecutive_errors
          ≡ ctx.config.watch.max_consecutive_errors =
        ap (λ (k : Config). k.watch.max_consecutive_errors) c.settled in
      let rest =
        iterations-end left o.ctx o.world (omega (arith, p, limit)) (omega (arith, b, limit))
          (omega (arith, c.counted, limit, e, b)) in
      rw c.stays (rest.0, rest.1 ∙ limit)

  -- If the remote lists nothing and takes no upload, and nobody wakes the loop, then the loop, begun
  -- without errors and with a limit above 0, ends with MaxErrors, at the limit, after one iteration
  -- for each error and one more.
  pub run_watch_loop-GivesUp :
      (ctx : WatchContext) (s : w.State)
      → 0 < ctx.config.watch.max_consecutive_errors
      → ctx.config.watch.max_consecutive_errors < 2 ^ 32
      → ctx.consecutive_errors ≡ 0
      → GivesUp w ctx (run_watch_loop w (suc ctx.config.watch.max_consecutive_errors) ctx s)
  unfolding run_watch_loop set_state
  run_watch_loop-GivesUp ctx s p b e =
      iterations-end ctx.config.watch.max_consecutive_errors _ s p b (omega (arith, e))
