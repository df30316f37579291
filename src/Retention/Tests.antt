-- ===== src/Retention/Tests.antt =====
-- Runs and instances of retention and of the incremental diff, over a store of keys in memory.
use chbackup.Base.{
  ℕ, Bool, true, false, not, Option, none, some, List, [], ◌∷◌, ◌++◌, ◌≡◌, ◌≢◌, ◌⊎◌, ◌+◌, refl, inl,
  inr, arith, Memᴰ, String, ap, Bool-cases, if◌then◌else◌, keep_if, map, min, length, err,
}
use mathlib.Core.List.{Permᴰ}
use chbackup.Base.Text.{Text, codes, text_eq, eq_of_text_eq, contains, starts_with, ends_with_char}
use chbackup.Base.Sort.{sort, insert}
use chbackup.Manifest.{PartInfo, BackupManifest, new_part}
use chbackup.Diff.{
  PartKey, base_lookup, base_entries, get_last, same_key, table_entries, disk_entries, diff_parts,
  diff_tables, diff_table, diff_disk, diff_part,
}
use chbackup.Diff.Carry.{refresh, count_carried, count_mismatch, diff_parts-entries}
use chbackup.Diff.Origin.{IsCarriedFrom, diff_parts-origin}
use chbackup.Listing.{BackupSummary, broken_summary, valid_by_time}
use chbackup.Retention.{
  RetentionPlan, ObjectStore, unreadable_manifest, References, is_key_protected, manifest_key,
  plan_retention_deletions, retention_remote_inner, split_keys, sweep_listed, delete_backup,
}
use chbackup.Retention.Keys.{collect-protects}
use chbackup.Retention.Plan.{older, plan_retention_deletions-newest}
use chbackup.Retention.Pass.{retention_remote_inner-fails_closed, retention_remote_inner-keeps}
use chbackup.Retention.Sweep.{sweep_listed-manifest_last}
use chbackup.Retention.Chain.{retention-keeps_carried}

-- A store whose state is the list of its keys; `manifests` are those that can be read.
unfoldable pub lookup_manifest : Text → List BackupManifest → Option BackupManifest
lookup_manifest name [] = none
lookup_manifest name (m ∷ ms) = if text_eq m.name name then some m else lookup_manifest name ms

pub without : List Text → List Text → List Text
without keys s = keep_if (λ k. not (contains keys k)) s

abbrev memory : List BackupManifest → ObjectStore
memory manifests = record {
  State = List Text;
  fetch_manifest = λ s name. lookup_manifest name manifests;
  list_prefix = λ s prefix. some (keep_if (λ k. starts_with k prefix) s);
  delete_keys = λ s keys. (without keys s, true);
}

abbrev pub has : List Text → Text → Bool
has s key = contains s key

pub without-frame :
    (s keys : List Text) (key : Text)
    → contains keys key ≡ false
    → has (without keys s) key ≡ has s key
unfolding without
without-frame [] keys key h = refl
without-frame (k ∷ s) keys key h = elim (Bool-cases (contains keys k)) [
  | inr e ↦ ground (arith, without-frame s keys key h)
  | inl e ↦ elim (Bool-cases (text_eq key k)) [
    | inl q ↦ absurd (cc (h, e, ap (contains keys) (eq_of_text_eq key k q)))
    | inr q ↦ ground (arith, without-frame s keys key h)
  ]
]

abbrev pub part_of : String → String → ℕ → PartInfo
part_of name key crc = record (new_part (codes name) 10 crc) { backup_key = codes key }

abbrev manifest_of : String → ℕ → List PartInfo → BackupManifest
manifest_of name time parts = record {
  name = codes name;
  timestamp = time;
  compressed_size = 0;
  metadata_size = 0;
  tables =
      (
        codes "db.t",
        record {
          ddl = [];
          engine = codes "MergeTree";
          total_bytes = 10;
          parts = (codes "default", parts) ∷ [];
          metadata_only = false;
          dependencies = [];
        },
      )
      ∷ [];
  rbac_size = 0;
  config_size = 0;
}

abbrev base_backup : BackupManifest
base_backup = manifest_of "old" 1 (part_of "p1" "old/p1" 7 ∷ [])

abbrev current_backup : BackupManifest
current_backup = manifest_of "new" 2 (part_of "p1" "new/p1" 7 ∷ part_of "p2" "new/p2" 9 ∷ [])

-- The manifest of the incremental backup, as the diff leaves it.
abbrev pub incremental : BackupManifest
incremental = (diff_parts current_backup base_backup).0

abbrev p1_key : PartKey
p1_key = (codes "db.t", codes "default", codes "p1")

abbrev bucket : List Text
bucket =
    codes "old/p1"
    ∷ codes "old/q"
    ∷ codes "old/metadata.json"
    ∷ codes "new/p2"
    ∷ codes "new/metadata.json"
    ∷ []

abbrev plan : RetentionPlan
plan = record { to_delete = codes "old" ∷ []; surviving = codes "new" ∷ [] }

base_lookup-p1 : base_lookup base_backup p1_key ≡ some (part_of "p1" "old/p1" 7)
unfolding base_lookup get_last base_entries table_entries disk_entries same_key text_eq new_part
base_lookup-p1 = refl

pub fetch_new : lookup_manifest (codes "new") (incremental ∷ []) ≡ some incremental
unfolding lookup_manifest text_eq diff_parts
fetch_new = refl

p1-mem : Memᴰ (p1_key, part_of "p1" "new/p1" 7) (base_entries current_backup.tables)
unfolding base_entries table_entries disk_entries new_part
p1-mem = Memᴰ.head refl

not_old_manifest : (dead : Text) → Memᴰ dead (codes "old" ∷ []) → codes "old/p1" ≢ manifest_key dead
unfolding manifest_key
not_old_manifest dead (Memᴰ.head e) q = ground (arith, e)
not_old_manifest dead (Memᴰ.tail m) q = elim m [ ]

retention-keeps_carried_example :
    has (retention_remote_inner (memory (incremental ∷ [])) plan bucket).0 (codes "old/p1")
    ≡ has bucket (codes "old/p1")
retention-keeps_carried_example =
    retention-keeps_carried (memory (incremental ∷ [])) has without-frame current_backup base_backup
      p1_key (part_of "p1" "new/p1" 7) (part_of "p1" "old/p1" 7) (codes "old/p1") (codes "new") plan
      bucket p1-mem base_lookup-p1 refl (inl refl) (λ e. cc e) (Memᴰ.head refl) fetch_new
      not_old_manifest

retention_remote_inner-fails_closed_example :
    (n : Text) × (retention_remote_inner (memory []) plan bucket
      ≡ (bucket, err (unreadable_manifest n)))
unfolding lookup_manifest
retention_remote_inner-fails_closed_example =
    retention_remote_inner-fails_closed (memory []) plan bucket (codes "new") (Memᴰ.head refl) refl

abbrev metadata_dir : List Text
metadata_dir = codes "a/b/part1/" ∷ codes "old/p1" ∷ []

-- A sibling part is not protected by the directory of another.
sibling_unprotected :
    (is_key_protected (codes "a/b/part1/checksums.txt") metadata_dir ≡ true)
    × (is_key_protected (codes "a/b/part10/checksums.txt") metadata_dir ≡ false)
    × (is_key_protected (codes "old/p1/x") metadata_dir ≡ false)
unfolding is_key_protected text_eq ends_with_char starts_with
sibling_unprotected = (refl, refl, refl)

p1_carried :
    Memᴰ
      (p1_key, record (part_of "p1" "old/p1" 7) { source = codes "carried:old" })
      (base_entries incremental.tables)
unfolding diff_parts diff_tables diff_table diff_disk diff_part base_lookup get_last base_entries
    table_entries disk_entries same_key text_eq new_part
p1_carried = Memᴰ.head refl

diff_parts-origin_example :
    Memᴰ
      (p1_key, record (part_of "p1" "old/p1" 7) { source = codes "carried:old" })
      (base_entries current_backup.tables)
    ⊎ ((b : PartInfo) × Memᴰ (p1_key, b) (base_entries base_backup.tables)
        × IsCarriedFrom
            (codes "old")
            b
            (record (part_of "p1" "old/p1" 7) { source = codes "carried:old" }))
diff_parts-origin_example =
    diff_parts-origin current_backup base_backup p1_key
      (record (part_of "p1" "old/p1" 7) { source = codes "carried:old" }) p1_carried

diff_parts-entries_example :
    (base_entries incremental.tables
      ≡ map (refresh (codes "old") (base_lookup base_backup)) (base_entries current_backup.tables))
    × ((diff_parts current_backup base_backup).1.carried
        ≡ count_carried (base_lookup base_backup) (base_entries current_backup.tables))
    × ((diff_parts current_backup base_backup).1.carried
          + (diff_parts current_backup base_backup).1.uploaded
        ≡ length (base_entries current_backup.tables))
    × ((diff_parts current_backup base_backup).1.crc_mismatches
        ≡ count_mismatch (base_lookup base_backup) (base_entries current_backup.tables))
diff_parts-entries_example = diff_parts-entries current_backup base_backup

pub p2-mem :
    Memᴰ
      ((codes "db.t", codes "default", codes "p2"), part_of "p2" "new/p2" 9)
      (base_entries incremental.tables)
unfolding diff_parts diff_tables diff_table diff_disk diff_part base_lookup get_last base_entries
    table_entries disk_entries same_key text_eq new_part
p2-mem = Memᴰ.tail (Memᴰ.head refl)

p2_not_manifest : (dead : Text) → Memᴰ dead (codes "old" ∷ []) → codes "new/p2" ≢ manifest_key dead
unfolding manifest_key
p2_not_manifest dead (Memᴰ.head e) q = ground (arith, e)
p2_not_manifest dead (Memᴰ.tail m) q = elim m [ ]

retention_remote_inner-keeps_example :
    has (retention_remote_inner (memory (incremental ∷ [])) plan bucket).0 (codes "new/p2")
    ≡ has bucket (codes "new/p2")
retention_remote_inner-keeps_example =
    retention_remote_inner-keeps (memory (incremental ∷ [])) has without-frame plan bucket
      (codes "new") incremental (codes "new/p2") (Memᴰ.head refl) fetch_new
      (collect-protects incremental (codes "db.t", codes "default", codes "p2")
        (part_of "p2" "new/p2" 9) (codes "new/p2") p2-mem (inl refl) (λ e. cc e))
      p2_not_manifest

abbrev old_refs : References
old_refs = record { protected = codes "old/p1" ∷ []; incremental_bases = [] }

abbrev old_keys : List Text
old_keys = codes "old/q" ∷ codes "old/metadata.json" ∷ []

sweep_listed-manifest_last_example :
    ((memory []).delete_keys bucket
      (split_keys (manifest_key (codes "old")) (codes "old/p1" ∷ []) old_keys).0).1
    ≡ true
unfolding sweep_listed split_keys delete_backup is_key_protected ends_with_char starts_with
    manifest_key text_eq without
sweep_listed-manifest_last_example =
    sweep_listed-manifest_last (memory []) has without-frame old_refs (codes "old") old_keys bucket
      (record { deleted = []; skipped = [] }) refl refl

abbrev pub at_time : String → ℕ → BackupSummary
at_time name t = record (broken_summary (codes name) []) { timestamp = some t; is_broken = false }

abbrev three : List BackupSummary
three = at_time "c" 3 ∷ broken_summary (codes "x") [] ∷ at_time "a" 1 ∷ at_time "b" 2 ∷ []

plan_of_three :
    plan_retention_deletions three 2
    ≡ record { to_delete = codes "a" ∷ []; surviving = codes "b" ∷ codes "c" ∷ [] }
unfolding plan_retention_deletions valid_by_time sort insert broken_summary
plan_of_three = refl

plan_retention_deletions-newest_example :
    (dead : List BackupSummary) × (kept : List BackupSummary) × ((plan_retention_deletions three
        2).to_delete
      ≡ map (λ b. b.name) dead)
    × ((plan_retention_deletions three 2).surviving ≡ map (λ b. b.name) kept)
    × Permᴰ (dead ++ kept) (keep_if (λ b. not b.is_broken) three)
    × (length kept ≡ min 2 (length (keep_if (λ b. not b.is_broken) three)))
    × ((a b : BackupSummary) → Memᴰ a dead → Memᴰ b kept → older a b ≡ true)
plan_retention_deletions-newest_example = plan_retention_deletions-newest three 2

abbrev drop_name : List Text → Text → List Text × Bool
drop_name s name = (keep_if (λ n. not (text_eq n name)) s, true)
