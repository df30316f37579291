-- ===== src/Retention/Local.antt =====
-- src/list.rs: `retention_local`. The listing is an argument, with `none` for its failure, and
-- `delete_local` a parameter: the state after a deletion, and whether it succeeded. A count that is
-- not above 0 is 0 here.
use chbackup.Base.{
  ℕ, suc, ◌-◌, ◌<◌, Bool, not, Option, none, some, List, [], ◌∷◌, ◌≡◌, refl, ap, inl, inr, arith,
  map, if◌then◌else◌, ◌==◌, leb, keep_if, length, take, Bool-cases,
}
use chbackup.Base.Text.{Text}
use chbackup.Base.Sort.{sort-perm, length-perm}
use chbackup.Listing.{BackupSummary, stamp_leq, valid_by_time}
use chbackup.Retention.{plan_retention_deletions}

module _ {State : Type 0} (delete_local : State → Text → State × Bool) where
  unfoldable pub delete_each : List BackupSummary → State → ℕ → State × ℕ
  delete_each [] s deleted = (s, deleted)
  delete_each (b ∷ bs) s deleted =
      let (s', done) = delete_local s b.name in
      delete_each bs s' (if done then suc deleted else deleted)

  unfoldable pub retention_local : Option (List BackupSummary) → ℕ → State → State × Option ℕ
  retention_local listing keep s = if keep == 0 then (s, some 0) else elim listing [
    | none ↦ (s, none)
    | some backups ↦
        let valid = keep_if (λ b. not b.is_broken) backups in
        let (s', deleted) = delete_each (take (length valid - keep) (valid_by_time backups)) s 0 in
        if leb (length valid) keep then (s, some 0) else (s', some deleted)
  ]

  -- The deletion of a list of names, one after the other.
  abbrev pub delete_names : List Text → State → ℕ → State × ℕ
  delete_names [] s deleted = (s, deleted)
  delete_names (n ∷ ns) s deleted =
      let (s', done) = delete_local s n in
      delete_names ns s' (if done then suc deleted else deleted)

  delete_each-names :
      (bs : List BackupSummary) (s : State) (k : ℕ)
      → delete_each bs s k ≡ delete_names (map (λ b. b.name) bs) s k
  unfolding delete_each
  delete_each-names [] s k = refl
  delete_each-names (b ∷ bs) s k =
      delete_each-names bs (delete_local s b.name).0
        (if (delete_local s b.name).1 then suc k else k)

  length-valid :
      (backups : List BackupSummary)
      → length (valid_by_time backups) ≡ length (keep_if (λ b. not b.is_broken) backups)
  unfolding valid_by_time
  length-valid backups = length-perm (
      sort-perm (λ a b. stamp_leq a.timestamp b.timestamp) (keep_if (λ b. not b.is_broken) backups))

  -- With a count above 0 and a listing that succeeds, local retention deletes exactly the backups
  -- that the remote plan names for the same listing and count, in its order, and reports how many
  -- of these deletions succeeded.
  pub retention_local-plan :
      (backups : List BackupSummary) (keep : ℕ) (s : State)
      → 0 < keep
      → let (s', deleted) = delete_names (plan_retention_deletions backups keep).to_delete s 0 in
        retention_local (some backups) keep s ≡ (s', some deleted)
  unfolding retention_local plan_retention_deletions
  retention_local-plan backups keep s h =
      let valid = keep_if (λ b. not b.is_broken) backups in
      let sorted = valid_by_time backups in
      let n = length-valid backups in
      let e = delete_each-names (take (length valid - keep) sorted) s 0 in
      elim (Bool-cases (leb (length valid) keep)) [
        | inl few ↦
            let nothing : length sorted - keep ≡ 0 = ground (arith, n, few) in
            let empty =
              ap (λ (k : ℕ). delete_names (map (λ b. b.name) (take k sorted)) s 0) nothing in
            ground (arith, h, few, empty)
        | inr more ↦
            let same =
              ap (λ (k : ℕ). delete_names (map (λ b. b.name) (take (k - keep) sorted)) s 0) n in
            ground (arith, h, more, e, same)
      ]
