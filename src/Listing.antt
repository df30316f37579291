-- ===== src/Listing.antt =====
-- src/list.rs: backup summaries, the cache of the remote listing, and the shortcuts.
pub mod Cache
pub mod Shortcut
pub mod Sizes
pub mod Tests
use chbackup.Base.{
  ℕ, ◌+◌, ◌-◌, ◌%◌, min, Bool, true, false, not, Option, none, some, List, [], ◌∷◌, ◌++◌, leb, ltb,
  if◌then◌else◌, keep_if, length, Result, ok, err, get_elem?,
}
use chbackup.Base.Text.{Text, codes, text_eq, strip_prefix, is_empty}
use chbackup.Base.Sort.{sort}
use chbackup.Manifest.{S3ObjectInfo, PartInfo, TableManifest, BackupManifest}

-- `u64::MAX`
abbrev pub u64_max : ℕ
u64_max = 18446744073709551615

pub record BackupSummary : Type 0 where
  pub name : Text
  pub timestamp : Option ℕ
  pub size : ℕ
  pub compressed_size : ℕ
  pub table_count : ℕ
  pub metadata_size : ℕ
  pub rbac_size : ℕ
  pub config_size : ℕ
  pub object_disk_size : ℕ
  pub required : Text
  pub is_broken : Bool
  pub broken_reason : Option Text

-- The order on `Option<DateTime<Utc>>`: `None` is before every `Some`.
abbrev pub stamp_leq : Option ℕ → Option ℕ → Bool
stamp_leq none t = true
stamp_leq (some s) none = false
stamp_leq (some s) (some t) = leb s t

-- `.iter().filter(|b| !b.is_broken)` and `sort_by_key(|s| s.timestamp)`
unfoldable pub valid_by_time : List BackupSummary → List BackupSummary
valid_by_time backups =
    sort (λ a b. stamp_leq a.timestamp b.timestamp) (keep_if (λ b. not b.is_broken) backups)

unfoldable pub broken_summary : Text → Text → BackupSummary
broken_summary name reason = record {
  name = name;
  timestamp = none;
  size = 0;
  compressed_size = 0;
  table_count = 0;
  metadata_size = 0;
  rbac_size = 0;
  config_size = 0;
  object_disk_size = 0;
  required = [];
  is_broken = true;
  broken_reason = some reason;
}

-- `u64::saturating_add`
abbrev pub saturating_add : ℕ → ℕ → ℕ
saturating_add a b = min (a + b) u64_max

-- The loops of `compute_object_disk_size`, innermost first; `total` is the accumulator.
unfoldable pub objects_size : List S3ObjectInfo → ℕ → ℕ
objects_size [] total = total
objects_size (o ∷ os) total = objects_size os (saturating_add total o.size)

unfoldable pub part_objects_size : Option (List S3ObjectInfo) → ℕ → ℕ
part_objects_size none total = total
part_objects_size (some os) total = objects_size os total

unfoldable pub parts_size : List PartInfo → ℕ → ℕ
parts_size [] total = total
parts_size (p ∷ ps) total = parts_size ps (part_objects_size p.s3_objects total)

unfoldable pub disks_size : List (Text × List PartInfo) → ℕ → ℕ
disks_size [] total = total
disks_size ((_, ps) ∷ rest) total = disks_size rest (parts_size ps total)

unfoldable pub tables_size : List (Text × TableManifest) → ℕ → ℕ
tables_size [] total = total
tables_size ((_, tm) ∷ rest) total = tables_size rest (disks_size tm.parts total)

unfoldable pub compute_object_disk_size : BackupManifest → ℕ
compute_object_disk_size manifest = tables_size manifest.tables 0

-- The first `source` of the form `carried:{base}`, in the order of the loops.
unfoldable pub first_base_of_parts : List PartInfo → Option Text
first_base_of_parts [] = none
first_base_of_parts (p ∷ ps) = elim (strip_prefix p.source (codes "carried:")) [
  | some base ↦ some base
  | none ↦ first_base_of_parts ps
]

unfoldable pub first_base_of_disks : List (Text × List PartInfo) → Option Text
first_base_of_disks [] = none
first_base_of_disks ((_, ps) ∷ rest) = elim (first_base_of_parts ps) [
  | some base ↦ some base
  | none ↦ first_base_of_disks rest
]

unfoldable pub first_base_of_tables : List (Text × TableManifest) → Option Text
first_base_of_tables [] = none
first_base_of_tables ((_, tm) ∷ rest) = elim (first_base_of_disks tm.parts) [
  | some base ↦ some base
  | none ↦ first_base_of_tables rest
]

unfoldable pub extract_required_backup : BackupManifest → Text
extract_required_backup manifest = elim (first_base_of_tables manifest.tables) [
  | some base ↦ base
  | none ↦ []
]

-- `u64` sum of the tables' sizes; the release build's addition wraps.
unfoldable pub sum_total_bytes : List (Text × TableManifest) → ℕ
sum_total_bytes [] = 0
sum_total_bytes ((_, tm) ∷ rest) = tm.total_bytes + sum_total_bytes rest

unfoldable pub total_uncompressed_size : BackupManifest → ℕ
total_uncompressed_size manifest = sum_total_bytes manifest.tables % (u64_max + 1)

unfoldable pub summary_from_manifest : BackupManifest → Text → BackupSummary
summary_from_manifest manifest backup_name = record {
  name = if is_empty backup_name then manifest.name else backup_name;
  timestamp = some manifest.timestamp;
  size = total_uncompressed_size manifest;
  compressed_size = manifest.compressed_size;
  table_count = length manifest.tables;
  metadata_size = manifest.metadata_size;
  rbac_size = manifest.rbac_size;
  config_size = manifest.config_size;
  object_disk_size = compute_object_disk_size manifest;
  required = extract_required_backup manifest;
  is_broken = false;
  broken_reason = none;
}

pub data ShortcutError : Type 0 where
  no_backups_for_latest : ShortcutError
  not_enough_for_previous : ℕ → ShortcutError

-- `.last()`
unfoldable pub last {ℓ} : {A : Type ℓ} → List A → Option A
last [] = none
last (x ∷ []) = some x
last (x ∷ y ∷ xs) = last (y ∷ xs)

abbrev name_or : ShortcutError → Option BackupSummary → Result ShortcutError Text
name_or e none = err e
name_or e (some b) = ok b.name

-- The default of the `previous` branch is not reached: the index is in range there.
unfoldable pub resolve_backup_shortcut : Text → List BackupSummary → Result ShortcutError Text
resolve_backup_shortcut name backups =
    let valid = valid_by_time backups in
    let n = length valid in
    if text_eq name (codes "latest")
    then name_or no_backups_for_latest (last valid)
    else if text_eq name (codes "previous")
    then (if ltb n 2
        then err (not_enough_for_previous n)
        else name_or (not_enough_for_previous n) (get_elem? valid (n - 2)))
    else ok name
