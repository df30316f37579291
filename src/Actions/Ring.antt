-- ===== src/Actions/Ring.antt =====
-- The bounds and the ids of the ring buffer of src/server/actions.rs.
use chbackup.Base.{
  ℕ, ◌+◌, ◌≤◌, ◌<◌, List, [], ◌∷◌, ◌++◌, ◌≡◌, refl, ap, inl, inr, Bool-cases, arith, leb, length,
  length-append,
}
use chbackup.Base.Text.{Text}
use chbackup.Actions.{
  ActionEntry, ActionLog, Message, u64_mod, start, update_first, close, finish_action, fail_action,
  mark_killed, kill_action, make_room, completed, failed,
}

abbrev pub ids : List ActionEntry → List ℕ
ids [] = []
ids (e ∷ es) = e.id ∷ ids es

-- The numbers rise, and stay below `bound`.
abbrev pub AreRising : List ℕ → ℕ → Type 0
AreRising [] bound = Unit
AreRising (i ∷ []) bound = i < bound
AreRising (i ∷ j ∷ is) bound = (i < j) × AreRising (j ∷ is) bound

pub record IsWellFormed (log : ActionLog) : Type 0 where
  pub bounded : length log.entries ≤ log.capacity
  pub rising : AreRising (ids log.entries) log.next_id

AreRising-append :
    (is : List ℕ) (bound bound' : ℕ)
    → AreRising is bound
    → bound < bound'
    → AreRising (is ++ bound ∷ []) bound'
AreRising-append [] bound bound' r k = k
AreRising-append (x ∷ []) bound bound' r k = omega arith
AreRising-append (x ∷ y ∷ is) bound bound' r k = (r.0, AreRising-append (y ∷ is) bound bound' r.1 k)

AreRising-tail : (x : ℕ) (is : List ℕ) (bound : ℕ) → AreRising (x ∷ is) bound → AreRising is bound
AreRising-tail x [] bound r = tt
AreRising-tail x (y ∷ is) bound r = r.1

AreRising-make_room :
    (capacity : ℕ) (es : List ActionEntry) (bound : ℕ)
    → AreRising (ids es) bound
    → AreRising (ids (make_room capacity es)) bound
unfolding make_room
AreRising-make_room capacity [] bound r = ground arith
AreRising-make_room capacity (e ∷ es) bound r = elim (Bool-cases (leb capacity (length (e ∷ es)))) [
  | inl full ↦ rw full (AreRising-tail e.id (ids es) bound r)
  | inr room ↦ rw room r
]

length-make_room :
    (capacity : ℕ) (es : List ActionEntry)
    → 0 < capacity
    → length es ≤ capacity
    → length (make_room capacity es) < capacity
unfolding make_room
length-make_room capacity [] c h = ground arith
length-make_room capacity (e ∷ es) c h = ground arith

ids-append : (es : List ActionEntry) (e : ActionEntry) → ids (es ++ e ∷ []) ≡ ids es ++ e.id ∷ []
ids-append [] e = refl
ids-append (x ∷ es) e = ap (λ (l : List ℕ). x.id ∷ l) (ids-append es e)

-- A started action keeps the log within its capacity and its ids rising, as long as the counter
-- of ids does not wrap.
pub start-IsWellFormed :
    (log : ActionLog) (command : Text) (now : ℕ)
    → 0 < log.capacity
    → log.next_id + 1 < u64_mod
    → IsWellFormed log
    → IsWellFormed (start log command now).0
unfolding start
start-IsWellFormed log command now c b w =
    let old = make_room log.capacity log.entries in
    record {
      bounded = omega (
        arith,
        length-append old (_ ∷ []),
        length-make_room log.capacity log.entries c w.bounded,
      );
      rising = rw (ids-append old) (
          AreRising-append (ids old) log.next_id _
            (AreRising-make_room log.capacity log.entries log.next_id w.rising) (omega arith));
    }

ids-update_first :
    (id : ℕ) (f : ActionEntry → ActionEntry) (es : List ActionEntry)
    → ((e : ActionEntry) → (f e).id ≡ e.id)
    → ids (update_first id f es) ≡ ids es
unfolding update_first
ids-update_first id f [] h = refl
ids-update_first id f (e ∷ es) h = ground (arith, h e, ids-update_first id f es h)

length-ids : (es : List ActionEntry) → length (ids es) ≡ length es
length-ids [] = refl
length-ids (e ∷ es) = omega (arith, length-ids es)

IsWellFormed-update_first :
    (log : ActionLog) (id : ℕ) (f : ActionEntry → ActionEntry)
    → ((e : ActionEntry) → (f e).id ≡ e.id)
    → IsWellFormed log
    → IsWellFormed (record log { entries = update_first id f log.entries })
IsWellFormed-update_first log id f h w =
    let same = ids-update_first id f log.entries h in
    record {
      bounded = omega (
        arith,
        ap (λ (l : List ℕ). length l) same,
        length-ids (update_first id f log.entries),
        length-ids log.entries,
        w.bounded,
      );
      rising = rw same w.rising;
    }

-- Finishing, failing or killing an action keeps the log well-formed.
pub closing-IsWellFormed :
    (log : ActionLog) (id now : ℕ) (error : Message)
    → IsWellFormed log
    → IsWellFormed (finish_action log id now)
      × IsWellFormed (fail_action log id error now)
      × IsWellFormed (kill_action log id now)
unfolding finish_action fail_action kill_action
closing-IsWellFormed log id now error w = (
  IsWellFormed-update_first log id (close completed now) (λ e. ground arith) w,
  IsWellFormed-update_first log id (close (failed error) now) (λ e. ground arith) w,
  IsWellFormed-update_first log id (mark_killed now) (λ e. refl) w,
)
