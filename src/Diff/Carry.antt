-- ===== src/Diff/Carry.antt =====
-- The diff of src/backup/diff.rs against a description of each part on its own.
use mathlib.Core.List.{map-append}
use chbackup.Base.{
  ℕ, ◌+◌, Bool, true, false, Option, none, some, List, [], ◌∷◌, ◌++◌, ◌≡◌, refl, ap, arith, map,
  if◌then◌else◌, ◌==◌, length, length-append,
}
use chbackup.Base.Text.{Text}
use chbackup.Manifest.{PartInfo, TableManifest, BackupManifest}
use chbackup.Diff.{
  DiffResult, PartKey, disk_entries, table_entries, base_entries, base_lookup, carried_prefix,
  no_parts, diff_part, diff_disk, diff_table, diff_tables, diff_parts,
}

-- What becomes of one part, by what the base holds under its key.
abbrev pub carry : Text → Option PartInfo → PartInfo → PartInfo
carry base_name none part = part
carry base_name (some b) part =
    if part.checksum_crc64 == b.checksum_crc64
    then record part {
      source = carried_prefix ++ base_name;
      backup_key = b.backup_key;
      s3_objects = b.s3_objects;
    }
    else part

abbrev pub is_carried : Option PartInfo → PartInfo → Bool
is_carried none part = false
is_carried (some b) part = part.checksum_crc64 == b.checksum_crc64

abbrev pub is_mismatch : Option PartInfo → PartInfo → Bool
is_mismatch none part = false
is_mismatch (some b) part = if part.checksum_crc64 == b.checksum_crc64 then false else true

abbrev pub bit : Bool → ℕ
bit true = 1
bit false = 0

-- The counters of a list of parts.
module _ (lookup : PartKey → Option PartInfo) where
  abbrev pub count_carried : List (PartKey × PartInfo) → ℕ
  count_carried [] = 0
  count_carried ((k, p) ∷ l) = bit (is_carried (lookup k) p) + count_carried l

  abbrev pub count_mismatch : List (PartKey × PartInfo) → ℕ
  count_mismatch [] = 0
  count_mismatch ((k, p) ∷ l) = bit (is_mismatch (lookup k) p) + count_mismatch l

-- `r'` is `r` with the counters of `l` added.
abbrev pub Adds :
    (PartKey → Option PartInfo) → List (PartKey × PartInfo) → DiffResult → DiffResult → Type 0
Adds lookup l r r' =
    (r'.carried ≡ r.carried + count_carried lookup l)
    × (r'.carried + r'.uploaded ≡ r.carried + r.uploaded + length l)
    × (r'.crc_mismatches ≡ r.crc_mismatches + count_mismatch lookup l)

pub diff_part-eq-carry :
    (n : Text) (o : Option PartInfo) (p : PartInfo) (r : DiffResult)
    → (diff_part n o p r).0 ≡ carry n o p
unfolding diff_part
diff_part-eq-carry n none p r = refl
diff_part-eq-carry n (some b) p r = ground arith

pub carry-name : (n : Text) (o : Option PartInfo) (p : PartInfo) → (carry n o p).name ≡ p.name
carry-name n none p = refl
carry-name n (some b) p = ground arith

diff_part-counts :
    (n : Text) (o : Option PartInfo) (p : PartInfo) (r : DiffResult)
    → let r' = (diff_part n o p r).1 in
      (r'.carried ≡ r.carried + bit (is_carried o p))
      × (r'.carried + r'.uploaded ≡ r.carried + r.uploaded + 1)
      × (r'.crc_mismatches ≡ r.crc_mismatches + bit (is_mismatch o p))
unfolding diff_part
diff_part-counts n none p r = ground arith
diff_part-counts n (some b) p r = ground arith

module _ (n : Text) (lookup : PartKey → Option PartInfo) where
  abbrev pub refresh : PartKey × PartInfo → PartKey × PartInfo
  refresh (k, p) = (k, carry n (lookup k) p)

  entries-diff_disk :
      (t d : Text) (l : List PartInfo) (r : DiffResult)
      → disk_entries t d (diff_disk n lookup t d l r).0 ≡ map refresh (disk_entries t d l)
  unfolding disk_entries diff_disk
  entries-diff_disk t d [] r = refl
  entries-diff_disk t d (p ∷ l) r =
      rw (diff_part-eq-carry, carry-name)
        (ap
          (λ (e : List (PartKey × PartInfo)).
            ((t, d, p.name), carry n (lookup (t, d, p.name)) p) ∷ e)
          (entries-diff_disk t d l (diff_part n (lookup (t, d, p.name)) p r).1))

  Adds-diff_disk :
      (t d : Text) (l : List PartInfo) (r : DiffResult)
      → Adds lookup (disk_entries t d l) r (diff_disk n lookup t d l r).1
  unfolding disk_entries diff_disk
  Adds-diff_disk t d [] r = omega arith
  Adds-diff_disk t d (p ∷ l) r =
      let o = lookup (t, d, p.name) in
      omega (arith, diff_part-counts n o p r, Adds-diff_disk t d l (diff_part n o p r).1)

module _ (lookup : PartKey → Option PartInfo) where
  count_carried-append :
      (l m : List (PartKey × PartInfo))
      → count_carried lookup (l ++ m) ≡ count_carried lookup l + count_carried lookup m
  count_carried-append [] m = omega arith
  count_carried-append ((k, p) ∷ l) m = omega (arith, count_carried-append l m)

  count_mismatch-append :
      (l m : List (PartKey × PartInfo))
      → count_mismatch lookup (l ++ m) ≡ count_mismatch lookup l + count_mismatch lookup m
  count_mismatch-append [] m = omega arith
  count_mismatch-append ((k, p) ∷ l) m = omega (arith, count_mismatch-append l m)

  Adds-append :
      (l m : List (PartKey × PartInfo)) (r r' r'' : DiffResult)
      → Adds lookup l r r'
      → Adds lookup m r' r''
      → Adds lookup (l ++ m) r r''
  Adds-append l m r r' r'' a b =
      omega (arith, count_carried-append l m, count_mismatch-append l m, length-append l m)

module _ (n : Text) (lookup : PartKey → Option PartInfo) where
  entries-diff_table :
      (t : Text) (l : List (Text × List PartInfo)) (r : DiffResult)
      → table_entries t (diff_table n lookup t l r).0 ≡ map (refresh n lookup) (table_entries t l)
  unfolding table_entries diff_table
  entries-diff_table t [] r = refl
  entries-diff_table t ((d, ps) ∷ l) r =
      let r' = (diff_disk n lookup t d ps r).1 in
      simp (entries-diff_disk, entries-diff_table t l r', map-append)

  Adds-diff_table :
      (t : Text) (l : List (Text × List PartInfo)) (r : DiffResult)
      → Adds lookup (table_entries t l) r (diff_table n lookup t l r).1
  unfolding table_entries diff_table
  Adds-diff_table t [] r = omega arith
  Adds-diff_table t ((d, ps) ∷ l) r =
      Adds-append lookup (disk_entries t d ps) (table_entries t l) _ _ _
        (Adds-diff_disk n lookup t d ps r) (Adds-diff_table t l (diff_disk n lookup t d ps r).1)

  entries-diff_tables :
      (l : List (Text × TableManifest)) (r : DiffResult)
      → base_entries (diff_tables n lookup l r).0 ≡ map (refresh n lookup) (base_entries l)
  unfolding base_entries diff_tables
  entries-diff_tables [] r = refl
  entries-diff_tables ((t, tm) ∷ l) r =
      let r' = (diff_table n lookup t tm.parts r).1 in
      simp (entries-diff_table, entries-diff_tables l r', map-append)

  Adds-diff_tables :
      (l : List (Text × TableManifest)) (r : DiffResult)
      → Adds lookup (base_entries l) r (diff_tables n lookup l r).1
  unfolding base_entries diff_tables
  Adds-diff_tables [] r = omega arith
  Adds-diff_tables ((t, tm) ∷ l) r =
      Adds-append lookup (table_entries t tm.parts) (base_entries l) _ _ _
        (Adds-diff_table t tm.parts r) (Adds-diff_tables l (diff_table n lookup t tm.parts r).1)

-- The diff changes each part of the current manifest by what the base holds under its table, disk
-- and name, on its own and in place: a part found there with the same checksum gets the carried
-- source and the base part's key and objects and keeps the rest, its sizes included, and any other
-- part is left alone. The counters count exactly the carried parts, those of another checksum, and
-- all parts together.
pub diff_parts-entries :
    (current base : BackupManifest)
    → let (after, result) = diff_parts current base in
      (base_entries after.tables
        ≡ map (refresh base.name (base_lookup base)) (base_entries current.tables))
      × (result.carried ≡ count_carried (base_lookup base) (base_entries current.tables))
      × (result.carried + result.uploaded ≡ length (base_entries current.tables))
      × (result.crc_mismatches ≡ count_mismatch (base_lookup base) (base_entries current.tables))
unfolding diff_parts
diff_parts-entries current base =
    let lookup = base_lookup base in
    let sums = Adds-diff_tables base.name lookup current.tables no_parts in
    (
      entries-diff_tables base.name lookup current.tables no_parts,
      omega (arith, sums.0),
      omega (arith, sums.1),
      omega (arith, sums.2),
    )
