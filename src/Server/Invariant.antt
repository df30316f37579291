-- ===== src/Server/Invariant.antt =====
-- The invariant of the calls of src/server/state.rs, and what it gives: no two operations that hold
-- a permit work on one backup.
use chbackup.Base.{
  ℕ, Bool, Option, none, some, List, [], ◌∷◌, ◌++◌, ◌≡◌, refl, inl, inr, ◌⊎◌, arith,
  mem-append_cases, mem-append_left, mem-append_right, mem-cons_cases, subst, Memᴰ,
}
use chbackup.Base.Text.{Text}
use chbackup.Server.{
  RunningOp, AppState, without, log_start, log_fail, kill_targets, take_targets, new_state,
  log_finish,
}
use chbackup.Server.Steps.{
  Thread, permitted, queueing, waiting, admitted, closing, killing, System, proceed, Step,
  try_acquire, enqueue, acquire, shut_down, begin_finish, begin_fail, begin_kill, proceeds, Reach,
  here, next,
}
use chbackup.Server.Tracked.{
  Waits, AreTracked, owns-Waits, owners-mem, WorksOn-proceed, WorksOn-keep, AreExclusive-proceed,
  tracked-proceed,
}
use chbackup.Server.Exclusion.{AreExclusive, WorksOn, AreExclusive-keep}
use chbackup.Server.Owners.{owns, owners-middle, AreOwned, HasNextId, Step-AreOwned}

pub record IsValid (x : System) : Type 0 where
  pub owned : AreOwned x
  pub exclusive : AreExclusive x.app.running_ops
  pub tracked : AreTracked x.threads x.app.running_ops

-- The other threads of a system, beside the one at a given place.
module _ (x : System) (l r : List Thread) (t : Thread) (e : x.threads ≡ l ++ t ∷ r) where
  other_mem : (u : Thread) → Memᴰ u l ⊎ Memᴰ u r → Memᴰ u x.threads
  other_mem u (inl m) = rw e (mem-append_left l (t ∷ r) m)
  other_mem u (inr m) = rw e (mem-append_right l (t ∷ r) (Memᴰ.tail m))

  this_mem : Memᴰ t x.threads
  this_mem = rw e (mem-append_right l (t ∷ r) (Memᴰ.head refl))

  other_owns :
      AreOwned x
      → (u : Thread) (i : ℕ) (name : Option Text) → Memᴰ u l ⊎ Memᴰ u r
      → Waits u i name
      → owns i t ≡ 0
  other_owns w u i name (inl m) q =
      omega (
        arith,
        w.one i,
        owners-middle i x.threads l r t e,
        owners-mem i u l m,
        owns-Waits u i name q,
      )
  other_owns w u i name (inr m) q =
      omega (
        arith,
        w.one i,
        owners-middle i x.threads l r t e,
        owners-mem i u r m,
        owns-Waits u i name q,
      )

  AreTracked-proceeds :
      (now : ℕ)
      → IsValid x
      → AreTracked (l ++ ((proceed t now x.app).1 ++ r)) (proceed t now x.app).0.running_ops
  AreTracked-proceeds now v u i name m q =
      elim (mem-append_cases l ((proceed t now x.app).1 ++ r) m) [
        | inl a ↦ kept (inl a)
        | inr b ↦ elim (mem-append_cases (proceed t now x.app).1 r b) [
          | inl new ↦ tracked-proceed t now x.app u i name new q
          | inr c ↦ kept (inr c)
        ]
      ]
    where
      kept : Memᴰ u l ⊎ Memᴰ u r → WorksOn i name (proceed t now x.app).0.running_ops
      kept o =
          WorksOn-proceed t now x.app i name (other_owns v.owned u i name o q)
            (v.tracked u i name (other_mem u o) q)

  -- A thread that takes the place of `t` and waits for what `t` waited for, or for nothing.
  AreTracked-replace :
      (t' : Thread) (ops : List RunningOp)
      → ((i : ℕ) (name : Option Text) → Waits t' i name → Waits t i name)
      → AreTracked x.threads ops
      → AreTracked (l ++ t' ∷ r) ops
  AreTracked-replace t' ops h v u i name m q = elim (mem-append_cases l (t' ∷ r) m) [
    | inl a ↦ v u i name (other_mem u (inl a)) q
    | inr b ↦ elim (mem-cons_cases b) [
      | inl same ↦ v t i name this_mem (h i name (subst (λ (z : Thread). Waits z i name) same q))
      | inr c ↦ v u i name (other_mem u (inr c)) q
    ]
  ]

AreTracked-cons :
    (t : Thread) (ts : List Thread) (ops : List RunningOp)
    → ((i : ℕ) (name : Option Text) → Waits t i name → ⊥)
    → AreTracked ts ops
    → AreTracked (t ∷ ts) ops
AreTracked-cons t ts ops idle v u i name m q = elim (mem-cons_cases m) [
  | inl e ↦ absurd (idle i name (subst (λ (z : Thread). Waits z i name) e q))
  | inr k ↦ v u i name k q
]

AreTracked-take :
    (target : Option ℕ) (ts : List Thread) (s : AppState)
    → AreTracked ts s.running_ops
    → AreTracked ts (take_targets target s).running_ops
unfolding take_targets without
AreTracked-take none ts s v u i name m q = λ a k e. elim k [ ]
AreTracked-take (some id) ts s v u i name m q = WorksOn-keep i name _ s.running_ops (v u i name m q)

AreExclusive-take :
    (target : Option ℕ) (s : AppState)
    → AreExclusive s.running_ops
    → AreExclusive (take_targets target s).running_ops
unfolding take_targets without
AreExclusive-take none s h = λ a b name m. elim m [ ]
AreExclusive-take (some id) s h = AreExclusive-keep _ s.running_ops h

Step-exclusive : {x y : System} → Step x y → IsValid x → AreExclusive y.app.running_ops
unfolding log_start log_fail log_finish
Step-exclusive (try_acquire command name p) v = v.exclusive
Step-exclusive (enqueue command name now) v = v.exclusive
Step-exclusive (acquire l r id name e p) v = v.exclusive
Step-exclusive (shut_down l r id now name e) v = v.exclusive
Step-exclusive (begin_finish id now) v = v.exclusive
Step-exclusive (begin_fail id now error) v = v.exclusive
Step-exclusive {x} (begin_kill target) v = AreExclusive-take target x.app v.exclusive
Step-exclusive {x} (proceeds l r t now e) v =
    AreExclusive-proceed t now x.app (λ i name. v.tracked t i name (this_mem x l r t e)) v.exclusive

Step-tracked : {x y : System} → Step x y → IsValid x → AreTracked y.threads y.app.running_ops
unfolding log_start log_fail log_finish
Step-tracked {x} (try_acquire command name p) v =
    AreTracked-cons (permitted command name) x.threads x.app.running_ops
      (λ i n w. elim w [ inl q ↦ cc | inr q ↦ cc ]) v.tracked
Step-tracked {x} (enqueue command name now) v =
    AreTracked-cons (queueing (log_start command now x.app).1 command name) x.threads
      x.app.running_ops (λ i n w. elim w [ inl q ↦ cc | inr q ↦ cc ]) v.tracked
Step-tracked {x} (acquire l r id name e p) v =
    AreTracked-replace x l r (waiting id name) e (admitted id name) x.app.running_ops
      (λ i n w. elim w [ inl q ↦ cc | inr q ↦ inl (cc) ]) v.tracked
Step-tracked {x} (shut_down l r id now name e) v =
    AreTracked-replace x l r (waiting id name) e (closing id) x.app.running_ops
      (λ i n w. elim w [ inl q ↦ cc | inr q ↦ cc ]) v.tracked
Step-tracked {x} (begin_finish id now) v =
    AreTracked-cons (closing id) x.threads x.app.running_ops
      (λ i n w. elim w [ inl q ↦ cc | inr q ↦ cc ]) v.tracked
Step-tracked {x} (begin_fail id now error) v =
    AreTracked-cons (closing id) x.threads x.app.running_ops
      (λ i n w. elim w [ inl q ↦ cc | inr q ↦ cc ]) v.tracked
Step-tracked {x} (begin_kill target) v =
    AreTracked-cons (killing (kill_targets target x.app)) x.threads
      (take_targets target x.app).running_ops (λ i n w. elim w [ inl q ↦ cc | inr q ↦ cc ])
      (AreTracked-take target x.threads x.app v.tracked)
Step-tracked {x} (proceeds l r t now e) v = AreTracked-proceeds x l r t e now v

Step-IsValid : {x y : System} → HasNextId x → Step x y → IsValid x → IsValid y
Step-IsValid h st v = record {
  owned = Step-AreOwned h st v.owned;
  exclusive = Step-exclusive st v;
  tracked = Step-tracked st v;
}

-- On the way no counter of ids wraps around.
abbrev pub NoWrap : {x y : System} → Reach x y → Type 0
NoWrap here = Unit
NoWrap (next {y} r st) = NoWrap r × HasNextId y

new_state-IsValid : (parallel : Bool) → IsValid (record { app = new_state parallel; threads = [] })
unfolding new_state
new_state-IsValid parallel = record {
  owned = record { one = λ i. omega arith; unborn = λ i b. refl };
  exclusive = λ a b name m. elim m [ ];
  tracked = λ t i name m. elim m [ ];
}

Reach-IsValid : {x y : System} → (r : Reach x y) → NoWrap r → IsValid x → IsValid y
Reach-IsValid here w v = v
Reach-IsValid (next r st) (w, h) v = Step-IsValid h st (Reach-IsValid r w v)

-- Whatever calls run at the same time from a new state, with or without `allow_parallel`, two
-- operations that hold a permit and work on the same backup have the same id, as long as the
-- counter of ids does not wrap around.
pub Reach-AreExclusive :
    (parallel : Bool) {y : System} (r : Reach (record { app = new_state parallel; threads = [] }) y)
    → NoWrap r
    → AreExclusive y.app.running_ops
Reach-AreExclusive parallel r w = (Reach-IsValid r w (new_state-IsValid parallel)).exclusive
