-- ===== src/Server/Permits.antt =====
-- Permits are neither lost nor made, whatever the interleaving of the calls of
-- src/server/state.rs.
use chbackup.Base.{
  ℕ, ◌+◌, ◌≤◌, true, false, Option, none, some, List, [], ◌∷◌, ◌++◌, ◌≡◌, refl, ap, ◌∙◌, arith,
  keep_if, any,
}
use chbackup.Base.Text.{Text}
use chbackup.Server.{
  RunningOp, AppState, bit, permits, release, has_id, without, remove_op, insert_op, operation,
  log_start, log_fail, reject, Admission, gone, conflicting, granted, admission, set_permit, grant,
  settle, cancel_tokens, mark_kills, kill_targets, take_targets, semaphore_permits, new_state,
  log_finish,
}
use chbackup.Server.Steps.{
  Thread, permitted, logged, rejecting, queueing, waiting, admitted, closing, killing, marking,
  System, proceed, settled, Step, try_acquire, enqueue, acquire, shut_down, begin_finish,
  begin_fail, begin_kill, proceeds, Reach, here, next,
}

-- The permits that a call has in hand.
abbrev pub in_hand : Thread → ℕ
in_hand (permitted command name) = 1
in_hand (logged id command name) = 1
in_hand (rejecting id) = 1
in_hand (queueing id command name) = 0
in_hand (waiting id name) = 0
in_hand (admitted id name) = 1
in_hand (closing id) = 0
in_hand (killing ops) = permits ops
in_hand (marking ops) = permits ops

abbrev pub all_in_hand : List Thread → ℕ
all_in_hand [] = 0
all_in_hand (t ∷ ts) = in_hand t + all_in_hand ts

abbrev pub total : System → ℕ
total x = x.app.available + permits x.app.running_ops + all_in_hand x.threads

all_in_hand-append : (l r : List Thread) → all_in_hand (l ++ r) ≡ all_in_hand l + all_in_hand r
all_in_hand-append [] r = omega arith
all_in_hand-append (t ∷ l) r = omega (arith, all_in_hand-append l r)

permits-append : (l r : List RunningOp) → permits (l ++ r) ≡ permits l + permits r
unfolding permits
permits-append [] r = omega arith
permits-append (op ∷ l) r = omega (arith, permits-append l r)

permits-split :
    (id : ℕ) (ops : List RunningOp)
    → permits (keep_if (has_id id) ops) + permits (without id ops) ≡ permits ops
unfolding permits without
permits-split id [] = refl
permits-split id (op ∷ ops) = ground (arith, permits-split id ops)

-- The permits that the state itself accounts for.
abbrev pub counted : AppState → ℕ
counted s = s.available + permits s.running_ops

pub counted-remove_op : (id : ℕ) (s : AppState) → counted (remove_op id s) ≡ counted s
unfolding remove_op release
counted-remove_op id s = omega (arith, permits-split id s.running_ops)

pub counted-insert_op :
    (op : RunningOp) (s : AppState) → counted (insert_op op s) ≡ counted s + bit op.permit
unfolding insert_op permits
counted-insert_op op s =
    omega
      (arith, counted-remove_op op.id s, permits-append (remove_op op.id s).running_ops (op ∷ []))

permits-set_permit :
    (id : ℕ) (ops : List RunningOp)
    → any (has_id id) ops ≡ true
    → permits (set_permit id ops).0 + (set_permit id ops).1 ≡ permits ops + 1
unfolding permits set_permit
permits-set_permit id [] h = absurd (cc)
permits-set_permit id (op ∷ ops) h = ground (arith, permits-set_permit id ops)

counted-grant :
    (id : ℕ) (s : AppState)
    → any (has_id id) s.running_ops ≡ true
    → counted (grant id s) ≡ counted s + 1
unfolding grant release
counted-grant id s h = omega (arith, permits-set_permit id s.running_ops h)

granted-present :
    (id : ℕ) (name : Option Text) (s : AppState)
    → admission id name s ≡ granted
    → any (has_id id) s.running_ops ≡ true
unfolding admission
granted-present id name s h = ground arith

pub counted-settle :
    (id : ℕ) (name : Option Text) (s : AppState)
    → let a = admission id name s in
      counted (settle id a s) + all_in_hand (settled id a) ≡ counted s + 1
unfolding settle release
counted-settle id name s = go (admission id name s) refl
  where
    go :
        (a : Admission)
        → admission id name s ≡ a
        → counted (settle id a s) + all_in_hand (settled id a) ≡ counted s + 1
    go gone e = omega (arith, counted-remove_op id s)
    go conflicting e = omega (arith, counted-remove_op id s)
    go granted e = omega (arith, counted-grant id s (granted-present id name s e))

pub counted-cancel_tokens :
    (ops : List RunningOp) (s : AppState) → counted (cancel_tokens ops s) ≡ counted s
unfolding cancel_tokens
counted-cancel_tokens [] s = refl
counted-cancel_tokens (op ∷ ops) s =
    counted-cancel_tokens ops (record s { cancelled = op.id ∷ s.cancelled })

pub counted-take_targets :
    (target : Option ℕ) (s : AppState)
    → counted (take_targets target s) + permits (kill_targets target s) ≡ counted s
unfolding take_targets kill_targets permits
counted-take_targets none s = omega arith
counted-take_targets (some id) s = omega (arith, permits-split id s.running_ops)

counted-proceed :
    (t : Thread) (now : ℕ) (s : AppState)
    → counted (proceed t now s).0 + all_in_hand (proceed t now s).1 ≡ counted s + in_hand t
unfolding proceed log_start reject release log_fail mark_kills bit
counted-proceed (permitted command name) now s = omega arith
counted-proceed (logged id command name) now s =
    ground (arith, counted-insert_op (operation id command name true) s)
counted-proceed (rejecting id) now s = omega arith
counted-proceed (queueing id command name) now s =
    omega (arith, counted-insert_op (operation id command name false) s)
counted-proceed (waiting id name) now s = omega (arith, counted-remove_op id s)
counted-proceed (admitted id name) now s = omega (arith, counted-settle id name s)
counted-proceed (closing id) now s = omega (arith, counted-remove_op id s)
counted-proceed (killing ops) now s = omega (arith, counted-cancel_tokens ops s)
counted-proceed (marking ops) now s = omega arith

total-middle :
    (l r : List Thread) (t : Thread)
    → all_in_hand (l ++ t ∷ r) ≡ all_in_hand l + in_hand t + all_in_hand r
total-middle l r t = omega (arith, all_in_hand-append l (t ∷ r))

-- The same, for the threads of a system.
threads-middle :
    (x : System) (l r : List Thread) (t : Thread)
    → x.threads ≡ l ++ t ∷ r
    → all_in_hand x.threads ≡ all_in_hand l + in_hand t + all_in_hand r
threads-middle x l r t e = ap all_in_hand e ∙ total-middle l r t

Step-total : {x y : System} → Step x y → total y ≡ total x
unfolding log_start log_fail log_finish
Step-total (try_acquire command name h) = omega arith
Step-total (enqueue command name now) = omega arith
Step-total {x} (acquire l r id name e h) =
    omega (arith, threads-middle x l r (waiting id name) e, total-middle l r (admitted id name))
Step-total {x} (shut_down l r id now name e) =
    omega (arith, threads-middle x l r (waiting id name) e, total-middle l r (closing id))
Step-total (begin_finish id now) = omega arith
Step-total (begin_fail id now error) = omega arith
Step-total {x} (begin_kill target) = omega (arith, counted-take_targets target x.app)
Step-total {x} (proceeds l r t now e) = omega (
  arith,
  threads-middle x l r t e,
  counted-proceed t now x.app,
  all_in_hand-append l ((proceed t now x.app).1 ++ r),
  all_in_hand-append (proceed t now x.app).1 r,
)

-- Whatever calls run at the same time, the permits that are available, held by operations and in
-- the hands of calls are together as many as the semaphore had.
pub Reach-total : {x y : System} → Reach x y → total y ≡ total x
Reach-total here = refl
Reach-total (next r st) = Step-total st ∙ Reach-total r

-- So with `allow_parallel` off no two operations ever hold a permit at once, and while one does
-- none is available.
pub Reach-serial :
    {y : System}
    → Reach (record { app = new_state false; threads = [] }) y
    → permits y.app.running_ops + y.app.available ≤ 1
unfolding new_state semaphore_permits permits
Reach-serial r = omega (arith, Reach-total r)
