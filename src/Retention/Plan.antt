-- ===== src/Retention/Plan.antt =====
-- `plan_retention_deletions` of src/list.rs: the newest valid backups survive.
use mathlib.Core.List.{Permᴰ}
use chbackup.Base.{
  ℕ, ◌-◌, min, Bool, true, false, not, Option, none, some, List, ◌++◌, ◌≡◌, refl, sym, subst, arith,
  map, Memᴰ, take, drop, length, length-drop, take-append-drop, keep_if,
}
use chbackup.Base.Sort.{sort-perm, sort-IsSorted, IsSorted, IsSorted-append, length-perm}
use chbackup.Listing.{BackupSummary, stamp_leq, valid_by_time}
use chbackup.Retention.{plan_retention_deletions}

pub stamp_total : (s t : Option ℕ) → stamp_leq s t ≡ false → stamp_leq t s ≡ true
stamp_total none t h = absurd (cc)
stamp_total (some s) none h = refl
stamp_total (some s) (some t) h = ground arith

pub stamp_trans :
    (s t u : Option ℕ) → stamp_leq s t ≡ true → stamp_leq t u ≡ true → stamp_leq s u ≡ true
stamp_trans none t u p q = refl
stamp_trans (some s) none u p q = absurd (cc)
stamp_trans (some s) (some t) none p q = absurd (cc)
stamp_trans (some s) (some t) (some u) p q = ground arith

abbrev pub older : BackupSummary → BackupSummary → Bool
older a b = stamp_leq a.timestamp b.timestamp

valid_by_time-IsSorted : (l : List BackupSummary) → IsSorted older (valid_by_time l)
unfolding valid_by_time
valid_by_time-IsSorted l =
    sort-IsSorted older (λ a b. stamp_total a.timestamp b.timestamp)
      (λ a b c. stamp_trans a.timestamp b.timestamp c.timestamp) (keep_if (λ b. not b.is_broken) l)

-- In the order of time, what stands before a cut is not newer than what stands behind it.
pub valid_by_time-before :
    (l before after : List BackupSummary) {a b : BackupSummary}
    → valid_by_time l ≡ before ++ after
    → Memᴰ a before
    → Memᴰ b after
    → older a b ≡ true
valid_by_time-before l before after e ma mb =
    IsSorted-append older (λ a b. stamp_total a.timestamp b.timestamp)
      (λ a b c. stamp_trans a.timestamp b.timestamp c.timestamp) before after
      (subst (IsSorted older) e (valid_by_time-IsSorted l)) ma mb

-- The plan splits the backups that are not broken, and no others, into those to delete and those
-- that survive: `keep` of them survive, or all if there are fewer, and no deleted backup is newer
-- than a surviving one.
pub plan_retention_deletions-newest :
    (summaries : List BackupSummary) (keep : ℕ)
    → let plan = plan_retention_deletions summaries keep in
      let valid = keep_if (λ b. not b.is_broken) summaries in
      (dead : List BackupSummary) × (kept : List BackupSummary) × (plan.to_delete
        ≡ map (λ b. b.name) dead)
      × (plan.surviving ≡ map (λ b. b.name) kept)
      × Permᴰ (dead ++ kept) valid
      × (length kept ≡ min keep (length valid))
      × ((a b : BackupSummary) → Memᴰ a dead → Memᴰ b kept → older a b ≡ true)
unfolding plan_retention_deletions valid_by_time
plan_retention_deletions-newest summaries keep =
    let p = sort-perm older (keep_if (λ b. not b.is_broken) summaries) in
    let valid = valid_by_time summaries in
    let n = length valid - keep in
    (
      take n valid,
      drop n valid,
      refl,
      refl,
      subst (λ l. Permᴰ l (keep_if (λ b. not b.is_broken) summaries))
          (sym (take-append-drop n valid)) p,
      omega (arith, length-drop n valid, length-perm p),
      λ a b ma mb.
          valid_by_time-before summaries (take n valid) (drop n valid)
            (sym (take-append-drop n valid)) ma mb,
    )
