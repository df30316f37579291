-- ===== src/Server/Owners.antt =====
-- Each id of an operation belongs to at most one call of src/server/state.rs, as long as the counter
-- of ids does not wrap; so a queued call finds under its id only what it inserted.
use chbackup.Base.{
  ℕ, suc, ◌+◌, ◌≤◌, ◌<◌, true, false, none, some, List, [], ◌∷◌, ◌++◌, ◌≡◌, ◌≢◌, refl, ap, ◌∙◌, inl,
  inr, ◌⊎◌, arith, if◌then◌else◌, ◌==◌,
}
use native.Mathlib.Decide.{ℕ_discrete}
use chbackup.Actions.{ActionLog, u64_mod, start, finish_action, fail_action, kill_action}
use chbackup.Server.{
  RunningOp, AppState, remove_op, insert_op, operation, log_start, log_fail, reject, release,
  Admission, gone, conflicting, granted, admission, grant, settle, cancel_tokens, mark_kills,
  log_kills, take_targets, log_finish,
}
use chbackup.Server.Steps.{
  Thread, permitted, logged, rejecting, queueing, waiting, admitted, closing, killing, marking,
  System, proceed, settled, Step, try_acquire, enqueue, acquire, shut_down, begin_finish,
  begin_fail, begin_kill, proceeds,
}

abbrev pub owns : ℕ → Thread → ℕ
owns i (logged id command name) = if i == id then 1 else 0
owns i (queueing id command name) = if i == id then 1 else 0
owns i (waiting id name) = if i == id then 1 else 0
owns i (admitted id name) = if i == id then 1 else 0
owns i (permitted command name) = 0
owns i (rejecting id) = 0
owns i (closing id) = 0
owns i (killing ops) = 0
owns i (marking ops) = 0

abbrev pub owners : ℕ → List Thread → ℕ
owners i [] = 0
owners i (t ∷ ts) = owns i t + owners i ts

pub owners-append : (i : ℕ) (l r : List Thread) → owners i (l ++ r) ≡ owners i l + owners i r
owners-append i [] r = omega arith
owners-append i (t ∷ l) r = omega (arith, owners-append i l r)

pub owners-middle :
    (i : ℕ) (ts l r : List Thread) (t : Thread)
    → ts ≡ l ++ t ∷ r
    → owners i ts ≡ owners i l + owns i t + owners i r
owners-middle i ts l r t e = ap (owners i) e ∙ owners-append i l (t ∷ r) ∙ omega arith

-- No id has two owners, and an id that is not yet given has none.
pub record AreOwned (x : System) : Type 0 where
  pub one : (i : ℕ) → owners i x.threads ≤ 1
  pub unborn : (i : ℕ) → x.app.action_log.next_id ≤ i → owners i x.threads ≡ 0

next_id-remove_op :
    (id : ℕ) (s : AppState) → (remove_op id s).action_log.next_id ≡ s.action_log.next_id
unfolding remove_op release
next_id-remove_op id s = refl

next_id-settle :
    (id : ℕ) (a : Admission) (s : AppState)
    → (settle id a s).action_log.next_id ≡ s.action_log.next_id
unfolding settle release grant remove_op
next_id-settle id gone s = refl
next_id-settle id conflicting s = refl
next_id-settle id granted s = refl

next_id-cancel_tokens :
    (ops : List RunningOp) (s : AppState)
    → (cancel_tokens ops s).action_log.next_id ≡ s.action_log.next_id
unfolding cancel_tokens
next_id-cancel_tokens [] s = refl
next_id-cancel_tokens (op ∷ ops) s =
    next_id-cancel_tokens ops (record s { cancelled = op.id ∷ s.cancelled })

next_id-insert_op :
    (op : RunningOp) (s : AppState) → (insert_op op s).action_log.next_id ≡ s.action_log.next_id
unfolding insert_op remove_op release
next_id-insert_op op s = refl

next_id-reject :
    (id now : ℕ) (s : AppState) → (reject id now s).action_log.next_id ≡ s.action_log.next_id
unfolding reject log_fail fail_action release
next_id-reject id now s = refl

next_id-log_kills :
    (ops : List RunningOp) (now : ℕ) (log : ActionLog)
    → (log_kills ops now log).next_id ≡ log.next_id
unfolding log_kills kill_action
next_id-log_kills [] now log = refl
next_id-log_kills (op ∷ ops) now log = next_id-log_kills ops now (kill_action log op.id now)

owners-settled : (i id : ℕ) (a : Admission) → owners i (settled id a) ≡ 0
owners-settled i id gone = refl
owners-settled i id conflicting = refl
owners-settled i id granted = refl

-- A thread's step gives no id away but the next one.
abbrev Hands : Thread → ℕ → AppState → Type 0
Hands t now s =
    let s' = (proceed t now s).0 in
    let ts = (proceed t now s).1 in
    ((s'.action_log.next_id ≡ s.action_log.next_id) × ((i : ℕ) → owners i ts ≤ owns i t))
    ⊎ ((s'.action_log.next_id ≡ suc s.action_log.next_id)
        × ((i : ℕ) → i ≢ s.action_log.next_id → owners i ts ≤ owns i t)
        × ((i : ℕ) → owners i ts ≤ 1))

Hands-proceed :
    (t : Thread) (now : ℕ) (s : AppState) → s.action_log.next_id + 1 < u64_mod → Hands t now s
unfolding proceed log_start start mark_kills release
Hands-proceed (permitted command name) now s h =
    inr (omega arith, (λ i ne. ground arith), λ i. ground arith)
Hands-proceed (logged id command name) now s h =
    inl (ground (arith, next_id-insert_op (operation id command name true) s), λ i. ground arith)
Hands-proceed (rejecting id) now s h = inl (next_id-reject id now s, λ i. omega arith)
Hands-proceed (queueing id command name) now s h =
    inl (next_id-insert_op (operation id command name false) s, λ i. omega arith)
Hands-proceed (waiting id name) now s h = inl (next_id-remove_op id s, λ i. ground arith)
Hands-proceed (admitted id name) now s h = inl (
  next_id-settle id (admission id name s) s,
  λ i. omega (arith, owners-settled i id (admission id name s)),
)
Hands-proceed (closing id) now s h = inl (next_id-remove_op id s, λ i. omega arith)
Hands-proceed (killing ops) now s h = inl (next_id-cancel_tokens ops s, λ i. omega arith)
Hands-proceed (marking ops) now s h = inl (next_id-log_kills ops now s.action_log, λ i. omega arith)

-- The counter of ids can still count one action.
abbrev pub HasNextId : System → Type 0
HasNextId x = x.app.action_log.next_id + 1 < u64_mod

AreOwned-proceeds :
    (x : System) (l r : List Thread) (t : Thread) (now : ℕ)
    → x.threads ≡ l ++ t ∷ r
    → Hands t now x.app
    → AreOwned x
    → AreOwned
        (record { app = (proceed t now x.app).0; threads = l ++ ((proceed t now x.app).1 ++ r) })
AreOwned-proceeds x l r t now e (inl (n, h)) w = record {
  one = λ i. omega (arith, w.one i, h i, owners-middle i x.threads l r t e, spread i);
  unborn = λ i b.
      omega
        (arith, w.unborn i (omega (arith, n)), h i, owners-middle i x.threads l r t e, spread i);
}
  where
    spread :
        (i : ℕ)
        → owners i (l ++ ((proceed t now x.app).1 ++ r))
          ≡ owners i l + (owners i (proceed t now x.app).1 + owners i r)
    spread i = owners-append i l _ ∙ ap (λ (k : ℕ). owners i l + k) (owners-append i _ r)
AreOwned-proceeds x l r t now e (inr (n, h, k)) w = record {
  one = λ i. elim (ℕ_discrete i x.app.action_log.next_id) [
    | yes q ↦
        omega
          (arith, w.unborn i (omega (arith, q)), k i, owners-middle i x.threads l r t e, spread i)
    | no q ↦ omega (arith, w.one i, h i q, owners-middle i x.threads l r t e, spread i)
  ];
  unborn = λ i b. omega (
    arith,
    w.unborn i (omega (arith, n)),
    h i (λ q. omega (arith, n, q)),
    owners-middle i x.threads l r t e,
    spread i,
  );
}
  where
    spread :
        (i : ℕ)
        → owners i (l ++ ((proceed t now x.app).1 ++ r))
          ≡ owners i l + (owners i (proceed t now x.app).1 + owners i r)
    spread i = owners-append i l _ ∙ ap (λ (j : ℕ). owners i l + j) (owners-append i _ r)

pub Step-AreOwned : {x y : System} → HasNextId x → Step x y → AreOwned x → AreOwned y
unfolding log_start start log_fail fail_action log_finish finish_action take_targets
Step-AreOwned h (try_acquire command name p) w = record {
  one = λ i. omega (arith, w.one i);
  unborn = λ i b. omega (arith, w.unborn i b);
}
Step-AreOwned {x} h (enqueue command name now) w = record {
  one = λ i. elim (ℕ_discrete i x.app.action_log.next_id) [
    | yes q ↦ ground (arith, w.unborn i (omega (arith, q)))
    | no q ↦ ground (arith, w.one i)
  ];
  unborn = λ i b. ground (arith, w.unborn i (omega arith));
}
Step-AreOwned {x} h (acquire l r id name e p) w = record {
  one = λ i. omega (
    arith,
    w.one i,
    owners-middle i x.threads l r (waiting id name) e,
    owners-append i l (admitted id name ∷ r),
  );
  unborn = λ i b. omega (
    arith,
    w.unborn i b,
    owners-middle i x.threads l r (waiting id name) e,
    owners-append i l (admitted id name ∷ r),
  );
}
Step-AreOwned {x} h (shut_down l r id now name e) w = record {
  one = λ i. omega (
    arith,
    w.one i,
    owners-middle i x.threads l r (waiting id name) e,
    owners-append i l (closing id ∷ r),
  );
  unborn = λ i b. omega (
    arith,
    w.unborn i b,
    owners-middle i x.threads l r (waiting id name) e,
    owners-append i l (closing id ∷ r),
  );
}
Step-AreOwned h (begin_finish id now) w = record {
  one = λ i. omega (arith, w.one i);
  unborn = λ i b. omega (arith, w.unborn i b);
}
Step-AreOwned h (begin_fail id now error) w = record {
  one = λ i. omega (arith, w.one i);
  unborn = λ i b. omega (arith, w.unborn i b);
}
Step-AreOwned h (begin_kill none) w = record {
  one = λ i. omega (arith, w.one i);
  unborn = λ i b. omega (arith, w.unborn i b);
}
Step-AreOwned h (begin_kill (some id)) w = record {
  one = λ i. omega (arith, w.one i);
  unborn = λ i b. omega (arith, w.unborn i b);
}
Step-AreOwned {x} h (proceeds l r t now e) w =
    AreOwned-proceeds x l r t now e (Hands-proceed t now x.app h) w
