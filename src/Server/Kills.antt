-- ===== src/Server/Kills.antt =====
-- What `kill_op` of src/server/state.rs does to an operation that it is given.
use chbackup.Base.{
  ℕ, true, false, some, List, [], ◌∷◌, ◌≡◌, refl, arith, any, keep_if, mem-keep_if, keep_if-mem,
  Memᴰ,
}
use chbackup.Actions.{
  ActionLog, ActionStatus, Message, killed, status_of, kill_action, finish_action, fail_action,
}
use chbackup.Actions.Status.{status_of-close}
use chbackup.Server.Exclusion.{has_id-eq}
use chbackup.Server.{
  RunningOp, AppState, has_id, without, remove_op, log_fail, log_finish, release, finish_op,
  fail_op, kill_op, cancel_tokens, mark_kills, log_kills, kill_targets, take_targets, contains_id,
}

abbrev IsMarked : ℕ → ActionLog → Type 0
IsMarked j log = status_of j log.entries ≡ some killed

log_kills-IsMarked :
    (j now : ℕ) (ops : List RunningOp) (log : ActionLog)
    → IsMarked j log
    → IsMarked j (log_kills ops now log)
unfolding log_kills
log_kills-IsMarked j now [] log h = h
log_kills-IsMarked j now (op ∷ ops) log h =
    log_kills-IsMarked j now ops (kill_action log op.id now)
      (ground (arith, h, (status_of-close log op.id j now Message.shutting_down).2))

log_kills-marks :
    (j now : ℕ) (op : RunningOp) (ops : List RunningOp) (log : ActionLog) (old : ActionStatus)
    → op.id ≡ j
    → status_of j log.entries ≡ some old
    → IsMarked j (log_kills (op ∷ ops) now log)
unfolding log_kills
log_kills-marks j now op ops log old e h =
    log_kills-IsMarked j now ops (kill_action log op.id now)
      (ground (arith, h, e, (status_of-close log op.id j now Message.shutting_down).2))

cancel_tokens-keeps :
    (j : ℕ) (ops : List RunningOp) (s : AppState)
    → contains_id j s.cancelled ≡ true
    → contains_id j (cancel_tokens ops s).cancelled ≡ true
unfolding cancel_tokens
cancel_tokens-keeps j [] s h = h
cancel_tokens-keeps j (op ∷ ops) s h =
    cancel_tokens-keeps j ops (record s { cancelled = op.id ∷ s.cancelled }) (ground (arith, h))

cancel_tokens-rest :
    (ops : List RunningOp) (s : AppState)
    → ((cancel_tokens ops s).action_log ≡ s.action_log)
      × ((cancel_tokens ops s).running_ops ≡ s.running_ops)
unfolding cancel_tokens
cancel_tokens-rest [] s = (refl, refl)
cancel_tokens-rest (op ∷ ops) s =
    cancel_tokens-rest ops (record s { cancelled = op.id ∷ s.cancelled })

without-absent : (j : ℕ) (ops : List RunningOp) → any (has_id j) (without j ops) ≡ false
unfolding without
without-absent j [] = refl
without-absent j (op ∷ ops) = ground (arith, without-absent j ops)

stays-IsMarked :
    (j later : ℕ) (error : Message) (log : ActionLog)
    → IsMarked j log
    → IsMarked j (finish_action log j later) × IsMarked j (fail_action log j error later)
stays-IsMarked j later error log h =
    let (f, g, k) = status_of-close log j j later error in
    (ground (arith, f, h), ground (arith, g, h))

self : (op : RunningOp) → has_id op.id op ≡ true
unfolding has_id
self op = ground arith

kill_op-taken :
    (s : AppState) (id now : ℕ) (o : RunningOp) (os : List RunningOp)
    → keep_if (has_id id) s.running_ops ≡ o ∷ os
    → kill_op s (some id) now ≡ (
      mark_kills
          (o ∷ os)
          now
          (cancel_tokens (o ∷ os) (record s { running_ops = without id s.running_ops })),
      true,
    )
unfolding kill_op kill_targets take_targets
kill_op-taken s id now o os e = rw (e, kill_op) refl

-- An action of the log that a running operation has: killing the operation succeeds, removes it,
-- cancels its token and marks the action as killed, and neither a later finish nor a later failure
-- changes the mark.
pub kill_op-marks :
    (s : AppState) (op : RunningOp) (old : ActionStatus) (now later : ℕ) (error : Message)
    → Memᴰ op s.running_ops
    → status_of op.id s.action_log.entries ≡ some old
    → let t = (kill_op s (some op.id) now).0 in
      ((kill_op s (some op.id) now).1 ≡ true)
      × (any (has_id op.id) t.running_ops ≡ false)
      × (contains_id op.id t.cancelled ≡ true)
      × (status_of op.id t.action_log.entries ≡ some killed)
      × (status_of op.id (finish_op t op.id later).action_log.entries ≡ some killed)
      × (status_of op.id (fail_op t op.id error later).action_log.entries ≡ some killed)
unfolding cancel_tokens mark_kills release finish_op fail_op remove_op log_finish log_fail
kill_op-marks s op old now later error m h = go (keep_if (has_id op.id) s.running_ops) refl
  where
    taken : AppState
    taken = record s { running_ops = without op.id s.running_ops }

    go :
        (ops : List RunningOp)
        → keep_if (has_id op.id) s.running_ops ≡ ops
        → let t = (kill_op s (some op.id) now).0 in
          ((kill_op s (some op.id) now).1 ≡ true)
          × (any (has_id op.id) t.running_ops ≡ false)
          × (contains_id op.id t.cancelled ≡ true)
          × (status_of op.id t.action_log.entries ≡ some killed)
          × (status_of op.id (finish_op t op.id later).action_log.entries ≡ some killed)
          × (status_of op.id (fail_op t op.id error later).action_log.entries ≡ some killed)
    go [] e = elim (rw e at (keep_if-mem (has_id op.id) s.running_ops m (self op))) [ ]
    go (o ∷ os) e =
        let same =
          has_id-eq op.id o (mem-keep_if (has_id op.id) s.running_ops (rw e (Memᴰ.head refl))).1 in
        let (log, ops) = cancel_tokens-rest (o ∷ os) taken in
        let marked =
          log_kills-marks op.id now o os (cancel_tokens (o ∷ os) taken).action_log old same
            (rw (log) h) in
        let (finished, failing) = stays-IsMarked op.id later error _ marked in
        rw (kill_op-taken s op.id now o os e) (
          refl,
          rw ops (without-absent op.id s.running_ops),
          cancel_tokens-keeps op.id os (record taken { cancelled = o.id ∷ taken.cancelled })
              (ground (arith, same)),
          marked,
          finished,
          failing,
        )
