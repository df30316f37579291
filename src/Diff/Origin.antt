-- ===== src/Diff/Origin.antt =====
-- Where the parts of a diffed manifest come from, and that a second diff changes nothing.
use mathlib.Core.List.{map}
use chbackup.Base.{
  Option, none, some, List, [], ◌∷◌, ◌++◌, ◌≡◌, refl, sym, ap, ap₂, ◌∙◌, subst, inl, inr, ◌⊎◌,
  arith, Memᴰ, Bool-cases, ◌==◌, mem-cons_cases,
}
use chbackup.Base.Text.{Text}
use chbackup.Manifest.{PartInfo, TableManifest, BackupManifest}
use chbackup.Diff.{
  DiffResult, PartKey, base_entries, base_lookup, carried_prefix, diff_part, diff_disk, diff_table,
  diff_tables, diff_parts,
}
use chbackup.Diff.Lookup.{get_last-mem}
use chbackup.Diff.Carry.{carry, carry-name, refresh, diff_part-eq-carry, diff_parts-entries}

-- The part `part` takes its data from the base part `b` of the backup `base_name`.
pub record IsCarriedFrom (base_name : Text) (b part : PartInfo) : Type 0 where
  pub checksum : part.checksum_crc64 ≡ b.checksum_crc64
  pub key : part.backup_key ≡ b.backup_key
  pub objects : part.s3_objects ≡ b.s3_objects
  pub source : part.source ≡ carried_prefix ++ base_name

carry-origin :
    (n : Text) (o : Option PartInfo) (p : PartInfo)
    → (carry n o p ≡ p) ⊎ ((b : PartInfo) × (o ≡ some b) × IsCarriedFrom n b (carry n o p))
carry-origin n none p = inl refl
carry-origin n (some b) p = elim (Bool-cases (p.checksum_crc64 == b.checksum_crc64)) [
  | inl e ↦ inr (b, refl, ground arith)
  | inr e ↦ inl (ground arith)
]

mem-map-refresh :
    (n : Text) (lookup : PartKey → Option PartInfo) (k : PartKey) (p' : PartInfo)
    (l : List (PartKey × PartInfo))
    → Memᴰ (k, p') (map (refresh n lookup) l)
    → (p : PartInfo) × Memᴰ (k, p) l × (p' ≡ carry n (lookup k) p)
mem-map-refresh n lookup k p' [] m = elim m [ ]
mem-map-refresh n lookup k p' ((j, p) ∷ l) m = elim (mem-cons_cases m) [
  | inl e ↦
      let same : k ≡ j = ap (λ (x : PartKey × PartInfo). x.0) e in
      (p, Memᴰ.head (ground arith), ap (λ (x : PartKey × PartInfo). x.1) e ∙ rw same)
  | inr t ↦ let (q, mq, eq) = mem-map-refresh n lookup k p' l t in (q, Memᴰ.tail mq, eq)
]

-- Every part of a diffed manifest either stands unchanged in the current one, or is carried from a
-- part that the base manifest holds under the same table, disk and name, with the same checksum.
pub diff_parts-origin :
    (current base : BackupManifest) (k : PartKey) (part : PartInfo)
    → Memᴰ (k, part) (base_entries (diff_parts current base).0.tables)
    → Memᴰ (k, part) (base_entries current.tables)
      ⊎ ((b : PartInfo) × Memᴰ (k, b) (base_entries base.tables) × IsCarriedFrom base.name b part)
unfolding base_lookup
diff_parts-origin current base k part m =
    let (p, mp, e) =
      mem-map-refresh base.name (base_lookup base) k part (base_entries current.tables)
        (subst (Memᴰ (k, part)) (diff_parts-entries current base).0 m) in
    elim (carry-origin base.name (base_lookup base k) p) [
      | inl same ↦
          inl (
            subst (λ (q : PartInfo). Memᴰ (k, q) (base_entries current.tables)) (sym (e ∙ same)) mp)
      | inr (b, found, from) ↦ inr (
        b,
        get_last-mem k (base_entries base.tables) found,
        subst (IsCarriedFrom base.name b) (sym e) from,
      )
    ]

carry-carry :
    (n : Text) (o : Option PartInfo) (p : PartInfo) → carry n o (carry n o p) ≡ carry n o p
carry-carry n none p = refl
carry-carry n (some b) p = ground arith

module _ (n : Text) (lookup : PartKey → Option PartInfo) where
  diff_disk-diff_disk :
      (t d : Text) (l : List PartInfo) (r s : DiffResult)
      → (diff_disk n lookup t d (diff_disk n lookup t d l r).0 s).0 ≡ (diff_disk n lookup t d l r).0
  unfolding diff_disk
  diff_disk-diff_disk t d [] r s = refl
  diff_disk-diff_disk t d (p ∷ l) r s =
      let o = lookup (t, d, p.name) in
      let q = (diff_part n o p r).0 in
      ap₂ (λ (x : PartInfo) (y : List PartInfo). x ∷ y)
        (simp (diff_part-eq-carry, carry-name, carry-carry))
        (diff_disk-diff_disk t d l (diff_part n o p r).1
          (diff_part n (lookup (t, d, q.name)) q s).1)

  diff_table-diff_table :
      (t : Text) (l : List (Text × List PartInfo)) (r s : DiffResult)
      → (diff_table n lookup t (diff_table n lookup t l r).0 s).0 ≡ (diff_table n lookup t l r).0
  unfolding diff_table
  diff_table-diff_table t [] r s = refl
  diff_table-diff_table t ((d, ps) ∷ l) r s = rw (diff_disk-diff_disk, diff_table-diff_table t l)

  diff_tables-diff_tables :
      (l : List (Text × TableManifest)) (r s : DiffResult)
      → (diff_tables n lookup (diff_tables n lookup l r).0 s).0 ≡ (diff_tables n lookup l r).0
  unfolding diff_tables
  diff_tables-diff_tables [] r s = refl
  diff_tables-diff_tables ((t, tm) ∷ l) r s = rw (diff_table-diff_table, diff_tables-diff_tables l)

-- Diffing a diffed manifest against the same base again changes nothing.
pub diff_parts-diff_parts :
    (current base : BackupManifest)
    → (diff_parts (diff_parts current base).0 base).0 ≡ (diff_parts current base).0
unfolding diff_parts
diff_parts-diff_parts current base = rw diff_tables-diff_tables
