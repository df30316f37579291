-- ===== src/Diff.antt =====
-- src/backup/diff.rs: `diff_parts`, the incremental diff against a base manifest.
pub mod Lookup
pub mod Carry
pub mod Origin
use chbackup.Base.{ℕ, ◌+◌, Bool, ◌&&◌, Option, none, some, List, [], ◌∷◌, ◌++◌, ◌==◌, if◌then◌else◌}
use chbackup.Base.Text.{Text, codes, text_eq}
use chbackup.Manifest.{PartInfo, TableManifest, BackupManifest}

pub record DiffResult : Type 0 where
  pub carried : ℕ
  pub uploaded : ℕ
  pub crc_mismatches : ℕ

-- A key of `base_lookup`: the table, the disk and the part's name.
abbrev pub PartKey : Type 0
PartKey = Text × Text × Text

unfoldable pub same_key : PartKey → PartKey → Bool
same_key (t, d, p) (t', d', p') = text_eq t t' && text_eq d d' && text_eq p p'

-- The insertions into `base_lookup`, in the order in which the loops make them.
unfoldable pub disk_entries : Text → Text → List PartInfo → List (PartKey × PartInfo)
disk_entries table disk [] = []
disk_entries table disk (part ∷ parts) =
    ((table, disk, part.name), part) ∷ disk_entries table disk parts

unfoldable pub table_entries : Text → List (Text × List PartInfo) → List (PartKey × PartInfo)
table_entries table [] = []
table_entries table ((disk, parts) ∷ rest) =
    disk_entries table disk parts ++ table_entries table rest

unfoldable pub base_entries : List (Text × TableManifest) → List (PartKey × PartInfo)
base_entries [] = []
base_entries ((table, tm) ∷ rest) = table_entries table tm.parts ++ base_entries rest

-- `base_lookup.get`: a later insertion of the same key has replaced an earlier one.
unfoldable pub get_last : PartKey → List (PartKey × PartInfo) → Option PartInfo
unfolding same_key
get_last k [] = none
get_last k ((j, part) ∷ rest) = elim (get_last k rest) [
  | none ↦ if same_key k j then some part else none
  | some later ↦ some later
]

abbrev pub carried_prefix : Text
carried_prefix = codes "carried:"

-- The three counters before the first part.
abbrev pub no_parts : DiffResult
no_parts = record { carried = 0; uploaded = 0; crc_mismatches = 0 }

-- The body of the inner loop: the part as it leaves the loop, and the counters.
unfoldable pub diff_part : Text → Option PartInfo → PartInfo → DiffResult → PartInfo × DiffResult
diff_part base_name none part r = (part, record r { uploaded = r.uploaded + 1 })
diff_part base_name (some base_part) part r =
    if part.checksum_crc64 == base_part.checksum_crc64
    then (
      record part {
        source = carried_prefix ++ base_name;
        backup_key = base_part.backup_key;
        s3_objects = base_part.s3_objects;
      },
      record r { carried = r.carried + 1 },
    )
    else (part, record r { crc_mismatches = r.crc_mismatches + 1; uploaded = r.uploaded + 1 })

-- The three nested loops over the current manifest. The base enters by its name and its lookup.
module _ (base_name : Text) (lookup : PartKey → Option PartInfo) where
  unfoldable pub diff_disk : Text → Text → List PartInfo → DiffResult → List PartInfo × DiffResult
  diff_disk table disk [] r = ([], r)
  diff_disk table disk (part ∷ parts) r =
      let (part', r') = diff_part base_name (lookup (table, disk, part.name)) part r in
      let (parts', r'') = diff_disk table disk parts r' in (part' ∷ parts', r'')

  unfoldable pub diff_table :
      Text → List (Text × List PartInfo) → DiffResult → List (Text × List PartInfo) × DiffResult
  diff_table table [] r = ([], r)
  diff_table table ((disk, parts) ∷ rest) r =
      let (parts', r') = diff_disk table disk parts r in
      let (rest', r'') = diff_table table rest r' in ((disk, parts') ∷ rest', r'')

  unfoldable pub diff_tables :
      List (Text × TableManifest) → DiffResult → List (Text × TableManifest) × DiffResult
  diff_tables [] r = ([], r)
  diff_tables ((table, tm) ∷ rest) r =
      let (parts', r') = diff_table table tm.parts r in
      let (rest', r'') = diff_tables rest r' in ((table, record tm { parts = parts' }) ∷ rest', r'')

-- `base_lookup.get`, over the whole base manifest.
unfoldable pub base_lookup : BackupManifest → PartKey → Option PartInfo
base_lookup base k = get_last k (base_entries base.tables)

-- `diff_parts`: the manifest after the mutation, and the result.
unfoldable pub diff_parts : BackupManifest → BackupManifest → BackupManifest × DiffResult
diff_parts current base =
    let (tables', r) = diff_tables base.name (base_lookup base) current.tables no_parts in
    (record current { tables = tables' }, r)
