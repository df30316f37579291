-- ===== src/Listing/Tests.antt =====
-- Instances for the listing of src/list.rs.
use mathlib.Core.List.{Permᴰ}
use chbackup.Base.{
  ◌-◌, min, true, not, none, some, List, [], ◌∷◌, ◌++◌, ◌≡◌, refl, arith, if◌then◌else◌, leb,
  keep_if, Memᴰ, ok,
}
use chbackup.Base.Text.{codes}
use chbackup.Listing.{
  BackupSummary, u64_max, broken_summary, resolve_backup_shortcut, compute_object_disk_size,
}
use chbackup.Listing.Cache.{
  new_cache, get, invalidate, list_remote_cached, list_remote_cached-serves,
}
use chbackup.Listing.Shortcut.{resolve_backup_shortcut-newest_two}
use chbackup.Listing.Sizes.{sum_tables, compute_object_disk_size-sum}
use chbackup.Retention.Plan.{older}
use chbackup.Retention.Tests.{at_time, incremental}

abbrev two : List BackupSummary
two = at_time "b" 5 ∷ broken_summary (codes "x") [] ∷ at_time "a" 3 ∷ []

list_remote_cached-serves_example :
    let (c, r) = list_remote_cached (some two) (λ c. c) (new_cache 300) 10 12 in
    (r ≡ some two)
    × (get c 100 ≡ (if leb (new_cache 300).ttl (100 - 12) then none else some two))
    × (get (invalidate c) 100 ≡ none)
unfolding get new_cache
list_remote_cached-serves_example =
    list_remote_cached-serves (λ c. c) (new_cache 300) 10 12 100 (some two) two refl refl

resolve_backup_shortcut-newest_two_example :
    (rest : List BackupSummary) × (previous : BackupSummary) × (latest : BackupSummary) × Permᴰ
      (rest ++ previous ∷ latest ∷ [])
      (keep_if (λ b. not b.is_broken) two)
    × ((a : BackupSummary) → Memᴰ a rest → older a previous ≡ true)
    × (older previous latest ≡ true)
    × (resolve_backup_shortcut (codes "latest") two ≡ ok latest.name)
    × (resolve_backup_shortcut (codes "previous") two ≡ ok previous.name)
unfolding broken_summary
resolve_backup_shortcut-newest_two_example = resolve_backup_shortcut-newest_two two (omega arith)

compute_object_disk_size-sum_example :
    compute_object_disk_size incremental ≡ min (sum_tables incremental.tables) u64_max
compute_object_disk_size-sum_example = compute_object_disk_size-sum incremental
