-- ===== src/Server/Tracked.antt =====
-- What the queued calls of src/server/state.rs wait for: the operations of their ids.
use chbackup.Base.{
  ℕ, ◌≤◌, Bool, true, false, not, Option, List, [], ◌∷◌, ◌++◌, ◌≡◌, ◌≢◌, refl, sym, ap, ◌∙◌, inl,
  inr, ◌⊎◌, arith, keep_if, mem-keep_if, mem-append_cases, mem-cons_cases, Bool-cases, subst, Memᴰ,
}
use chbackup.Base.Text.{Text}
use chbackup.Server.{
  RunningOp, AppState, has_id, without, remove_op, insert_op, operation, log_start, log_fail,
  reject, release, Admission, gone, conflicting, granted, admission, set_permit, grant, settle,
  cancel_tokens, mark_kills, has_conflict, has_other_conflict,
}
use chbackup.Server.Steps.{
  Thread, permitted, logged, rejecting, queueing, waiting, admitted, closing, killing, marking,
  proceed, settled,
}
use chbackup.Server.Exclusion.{
  AreExclusive, WorksOn, AreExclusive-keep, AreExclusive-insert, AreExclusive-set_permit,
  set_permit-mem,
}
use chbackup.Server.Owners.{owns, owners}

-- A queued call that is in its wait or behind it.
abbrev pub Waits : Thread → ℕ → Option Text → Type 0
Waits t i name = (t ≡ waiting i name) ⊎ (t ≡ admitted i name)

abbrev pub AreTracked : List Thread → List RunningOp → Type 0
AreTracked ts ops =
    (t : Thread) (i : ℕ) (name : Option Text) → Memᴰ t ts → Waits t i name → WorksOn i name ops

pub owns-Waits : (t : Thread) (i : ℕ) (name : Option Text) → Waits t i name → owns i t ≡ 1
owns-Waits t i name (inl e) = ap (owns i) e ∙ ground arith
owns-Waits t i name (inr e) = ap (owns i) e ∙ ground arith

pub owners-mem : (i : ℕ) (t : Thread) (ts : List Thread) → Memᴰ t ts → owns i t ≤ owners i ts
owners-mem i t [] m = elim m [ ]
owners-mem i t (u ∷ ts) (Memᴰ.head e) = omega (arith, ap (owns i) e)
owners-mem i t (u ∷ ts) (Memᴰ.tail m) = omega (arith, owners-mem i t ts m)

pub WorksOn-keep :
    (i : ℕ) (name : Option Text) (p : RunningOp → Bool) (ops : List RunningOp)
    → WorksOn i name ops
    → WorksOn i name (keep_if p ops)
WorksOn-keep i name p ops w a m = w a (mem-keep_if p ops m).0

WorksOn-insert :
    (i : ℕ) (name : Option Text) (op : RunningOp) (ops : List RunningOp)
    → i ≢ op.id
    → WorksOn i name ops
    → WorksOn i name (without op.id ops ++ op ∷ [])
unfolding without
WorksOn-insert i name op ops ne w a m e = elim (mem-append_cases (without op.id ops) (op ∷ []) m) [
  | inl n ↦ w a (mem-keep_if _ ops n).0 e
  | inr n ↦ elim (mem-cons_cases n) [
    | inl q ↦ absurd (ne (sym e ∙ ap (λ (x : RunningOp). x.id) q))
    | inr k ↦ elim k [ ]
  ]
]

-- An inserted operation is the only one of its id.
WorksOn-inserted :
    (op : RunningOp) (ops : List RunningOp)
    → WorksOn op.id op.backup_name (without op.id ops ++ op ∷ [])
unfolding without has_id
WorksOn-inserted op ops a m e = elim (mem-append_cases (without op.id ops) (op ∷ []) m) [
  | inl n ↦
      let kept = (mem-keep_if (λ (o : RunningOp). not (has_id op.id o)) ops n).1 in
      absurd (ground (arith))
  | inr n ↦ elim (mem-cons_cases n) [
    | inl q ↦ ap (λ (x : RunningOp). x.backup_name) q
    | inr k ↦ elim k [ ]
  ]
]

WorksOn-set_permit :
    (i id : ℕ) (name : Option Text) (ops : List RunningOp)
    → WorksOn i name ops
    → WorksOn i name (set_permit id ops).0
WorksOn-set_permit i id name ops w a m e =
    let (o, mo, io, bo, po) = set_permit-mem id ops a m in bo ∙ w o mo (sym io ∙ e)

ops-cancel_tokens :
    (ops : List RunningOp) (s : AppState) → (cancel_tokens ops s).running_ops ≡ s.running_ops
unfolding cancel_tokens
ops-cancel_tokens [] s = refl
ops-cancel_tokens (op ∷ ops) s =
    ops-cancel_tokens ops (record s { cancelled = op.id ∷ s.cancelled })

WorksOn-settle :
    (i id : ℕ) (name : Option Text) (a : Admission) (s : AppState)
    → WorksOn i name s.running_ops
    → WorksOn i name (settle id a s).running_ops
unfolding settle release remove_op grant without
WorksOn-settle i id name gone s w = WorksOn-keep i name _ s.running_ops w
WorksOn-settle i id name conflicting s w = WorksOn-keep i name _ s.running_ops w
WorksOn-settle i id name granted s w = WorksOn-set_permit i id name s.running_ops w

-- The step of a thread leaves alone what the calls of other ids work on.
pub WorksOn-proceed :
    (t : Thread) (now : ℕ) (s : AppState) (i : ℕ) (name : Option Text)
    → owns i t ≡ 0
    → WorksOn i name s.running_ops
    → WorksOn i name (proceed t now s).0.running_ops
unfolding proceed log_start reject log_fail release remove_op insert_op without mark_kills
WorksOn-proceed (permitted command n) now s i name o w = w
WorksOn-proceed (logged id command n) now s i name o w =
    elim (Bool-cases (has_conflict n s.running_ops)) [
      | inl e ↦ rw e w
      | inr e ↦
          rw e (
            WorksOn-insert i name (operation id command n true) s.running_ops (λ q. ground arith) w)
    ]
WorksOn-proceed (rejecting id) now s i name o w = w
WorksOn-proceed (queueing id command n) now s i name o w =
    WorksOn-insert i name (operation id command n false) s.running_ops (λ q. ground arith) w
WorksOn-proceed (waiting id n) now s i name o w = WorksOn-keep i name _ s.running_ops w
WorksOn-proceed (admitted id n) now s i name o w = WorksOn-settle i id name (admission id n s) s w
WorksOn-proceed (closing id) now s i name o w = WorksOn-keep i name _ s.running_ops w
WorksOn-proceed (killing ops) now s i name o w = rw (ops-cancel_tokens ops s) w
WorksOn-proceed (marking ops) now s i name o w = w

granted-free :
    (id : ℕ) (name : Option Text) (s : AppState)
    → admission id name s ≡ granted
    → has_other_conflict id name s.running_ops ≡ false
unfolding admission
granted-free id name s h = ground arith

AreExclusive-settle :
    (id : ℕ) (name : Option Text) (s : AppState)
    → WorksOn id name s.running_ops
    → AreExclusive s.running_ops
    → AreExclusive (settle id (admission id name s) s).running_ops
unfolding settle release remove_op grant without
AreExclusive-settle id name s w h = go (admission id name s) refl
  where
    go : (a : Admission) → admission id name s ≡ a → AreExclusive (settle id a s).running_ops
    go gone e = AreExclusive-keep _ s.running_ops h
    go conflicting e = AreExclusive-keep _ s.running_ops h
    go granted e = AreExclusive-set_permit id name s.running_ops w (granted-free id name s e) h

pub AreExclusive-proceed :
    (t : Thread) (now : ℕ) (s : AppState)
    → ((i : ℕ) (name : Option Text) → Waits t i name → WorksOn i name s.running_ops)
    → AreExclusive s.running_ops
    → AreExclusive (proceed t now s).0.running_ops
unfolding proceed log_start reject log_fail release remove_op insert_op without mark_kills
AreExclusive-proceed (permitted command n) now s w h = h
AreExclusive-proceed (logged id command n) now s w h =
    elim (Bool-cases (has_conflict n s.running_ops)) [
      | inl e ↦ rw e h
      | inr e ↦ rw e (AreExclusive-insert (operation id command n true) s.running_ops (inr e) h)
    ]
AreExclusive-proceed (rejecting id) now s w h = h
AreExclusive-proceed (queueing id command n) now s w h =
    AreExclusive-insert (operation id command n false) s.running_ops (inl refl) h
AreExclusive-proceed (waiting id n) now s w h = AreExclusive-keep _ s.running_ops h
AreExclusive-proceed (admitted id n) now s w h = AreExclusive-settle id n s (w id n (inr refl)) h
AreExclusive-proceed (closing id) now s w h = AreExclusive-keep _ s.running_ops h
AreExclusive-proceed (killing ops) now s w h = rw (ops-cancel_tokens ops s) h
AreExclusive-proceed (marking ops) now s w h = h

idle-one :
    {P : Type 0} (t u : Thread) (i : ℕ) (name : Option Text)
    → (Waits t i name → ⊥)
    → Memᴰ u (t ∷ [])
    → Waits u i name
    → P
idle-one t u i name idle m q = elim (mem-cons_cases m) [
  | inl e ↦ absurd (idle (subst (λ (z : Thread). Waits z i name) e q))
  | inr k ↦ elim k [ ]
]

idle-settled :
    {P : Type 0} (id : ℕ) (a : Admission) (u : Thread) (i : ℕ) (name : Option Text)
    → Memᴰ u (settled id a)
    → Waits u i name
    → P
idle-settled id gone u i name m q = elim m [ ]
idle-settled id conflicting u i name m q =
    idle-one (rejecting id) u i name (λ w. elim w [ inl p ↦ cc | inr p ↦ cc ]) m q
idle-settled id granted u i name m q = elim m [ ]

of_queueing :
    (id : ℕ) (command : Text) (n : Option Text) (s : AppState) (u : Thread) (i : ℕ)
    (name : Option Text)
    → u ≡ waiting id n
    → Waits u i name
    → WorksOn i name (without id s.running_ops ++ operation id command n false ∷ [])
of_queueing id command n s u i name e (inl q) a m h =
    WorksOn-inserted (operation id command n false) s.running_ops a m (cc) ∙ (cc)
of_queueing id command n s u i name e (inr q) a m h = absurd (cc)

-- What a step leaves of its thread waits only after an insertion.
pub tracked-proceed :
    (t : Thread) (now : ℕ) (s : AppState)
    → AreTracked (proceed t now s).1 (proceed t now s).0.running_ops
unfolding proceed log_start reject insert_op remove_op release
tracked-proceed (permitted command n) now s u i name (Memᴰ.head e) (inl q) = cc
tracked-proceed (permitted command n) now s u i name (Memᴰ.head e) (inr q) = cc
tracked-proceed (permitted command n) now s u i name (Memᴰ.tail m) q = elim m [ ]
tracked-proceed (logged id command n) now s u i name m q =
    elim (Bool-cases (has_conflict n s.running_ops)) [
      | inl e ↦
          idle-one (rejecting id) u i name (λ w. elim w [ inl p ↦ cc | inr p ↦ cc ]) (rw e at m) q
      | inr e ↦ elim (rw e at m) [ ]
    ]
tracked-proceed (rejecting id) now s u i name m q = elim m [ ]
tracked-proceed (queueing id command n) now s u i name m q = elim (mem-cons_cases m) [
  | inl e ↦ of_queueing id command n s u i name e q
  | inr k ↦ elim k [ ]
]
tracked-proceed (waiting id n) now s u i name m q = elim m [ ]
tracked-proceed (admitted id n) now s u i name m q = idle-settled id (admission id n s) u i name m q
tracked-proceed (closing id) now s u i name m q = elim m [ ]
tracked-proceed (killing ops) now s u i name (Memᴰ.head e) (inl q) = cc
tracked-proceed (killing ops) now s u i name (Memᴰ.head e) (inr q) = cc
tracked-proceed (killing ops) now s u i name (Memᴰ.tail m) q = elim m [ ]
tracked-proceed (marking ops) now s u i name m q = elim m [ ]
