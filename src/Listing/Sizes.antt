-- ===== src/Listing/Sizes.antt =====
-- The size of the object disks in src/list.rs, against the plain sum.
use chbackup.Base.{ℕ, ◌+◌, ◌≤◌, min, Option, none, some, List, [], ◌∷◌, ◌≡◌, ◌∙◌, arith}
use chbackup.Base.Text.{Text}
use chbackup.Manifest.{S3ObjectInfo, PartInfo, TableManifest, BackupManifest}
use chbackup.Listing.{
  u64_max, objects_size, part_objects_size, parts_size, disks_size, tables_size,
  compute_object_disk_size, saturating_add,
}

-- The sums without a bound.
abbrev pub sum_objects : List S3ObjectInfo → ℕ
sum_objects [] = 0
sum_objects (o ∷ os) = o.size + sum_objects os

abbrev pub sum_optional : Option (List S3ObjectInfo) → ℕ
sum_optional none = 0
sum_optional (some os) = sum_objects os

abbrev pub sum_parts : List PartInfo → ℕ
sum_parts [] = 0
sum_parts (p ∷ ps) = sum_optional p.s3_objects + sum_parts ps

abbrev pub sum_disks : List (Text × List PartInfo) → ℕ
sum_disks [] = 0
sum_disks ((_, ps) ∷ rest) = sum_parts ps + sum_disks rest

abbrev pub sum_tables : List (Text × TableManifest) → ℕ
sum_tables [] = 0
sum_tables ((_, tm) ∷ rest) = sum_disks tm.parts + sum_tables rest

clamp : (a b c : ℕ) → min (min (a + b) u64_max + c) u64_max ≡ min (a + (b + c)) u64_max
clamp a b c = omega arith

objects_size-sum :
    (os : List S3ObjectInfo) (total : ℕ)
    → min (objects_size os total) u64_max ≡ min (total + sum_objects os) u64_max
unfolding objects_size
objects_size-sum [] total = omega arith
objects_size-sum (o ∷ os) total =
    objects_size-sum os (saturating_add total o.size) ∙ clamp total o.size (sum_objects os)

part-sum :
    (o : Option (List S3ObjectInfo)) (total : ℕ)
    → min (part_objects_size o total) u64_max ≡ min (total + sum_optional o) u64_max
unfolding part_objects_size
part-sum none total = omega arith
part-sum (some os) total = objects_size-sum os total

parts_size-sum :
    (ps : List PartInfo) (total : ℕ)
    → min (parts_size ps total) u64_max ≡ min (total + sum_parts ps) u64_max
unfolding parts_size
parts_size-sum [] total = omega arith
parts_size-sum (p ∷ ps) total =
    omega
      (arith, parts_size-sum ps (part_objects_size p.s3_objects total), part-sum p.s3_objects total)

disks_size-sum :
    (l : List (Text × List PartInfo)) (total : ℕ)
    → min (disks_size l total) u64_max ≡ min (total + sum_disks l) u64_max
unfolding disks_size
disks_size-sum [] total = omega arith
disks_size-sum ((d, ps) ∷ rest) total =
    omega (arith, disks_size-sum rest (parts_size ps total), parts_size-sum ps total)

tables_size-sum :
    (l : List (Text × TableManifest)) (total : ℕ)
    → min (tables_size l total) u64_max ≡ min (total + sum_tables l) u64_max
unfolding tables_size
tables_size-sum [] total = omega arith
tables_size-sum ((t, tm) ∷ rest) total =
    omega (arith, tables_size-sum rest (disks_size tm.parts total), disks_size-sum tm.parts total)

-- A bounded total stays bounded.
objects_size-bound :
    (os : List S3ObjectInfo) (total : ℕ) → total ≤ u64_max → objects_size os total ≤ u64_max
unfolding objects_size
objects_size-bound [] total h = h
objects_size-bound (o ∷ os) total h =
    objects_size-bound os (saturating_add total o.size) (omega arith)

part-bound :
    (o : Option (List S3ObjectInfo)) (total : ℕ)
    → total ≤ u64_max
    → part_objects_size o total ≤ u64_max
unfolding part_objects_size
part-bound none total h = h
part-bound (some os) total h = objects_size-bound os total h

parts_size-bound :
    (ps : List PartInfo) (total : ℕ) → total ≤ u64_max → parts_size ps total ≤ u64_max
unfolding parts_size
parts_size-bound [] total h = h
parts_size-bound (p ∷ ps) total h =
    parts_size-bound ps (part_objects_size p.s3_objects total) (part-bound p.s3_objects total h)

disks_size-bound :
    (l : List (Text × List PartInfo)) (total : ℕ) → total ≤ u64_max → disks_size l total ≤ u64_max
unfolding disks_size
disks_size-bound [] total h = h
disks_size-bound ((d, ps) ∷ rest) total h =
    disks_size-bound rest (parts_size ps total) (parts_size-bound ps total h)

tables_size-bound :
    (l : List (Text × TableManifest)) (total : ℕ) → total ≤ u64_max → tables_size l total ≤ u64_max
unfolding tables_size
tables_size-bound [] total h = h
tables_size-bound ((t, tm) ∷ rest) total h =
    tables_size-bound rest (disks_size tm.parts total) (disks_size-bound tm.parts total h)

-- The size of a manifest's object disks is the sum of the sizes of all objects, or the greatest
-- 64-bit number if that is less.
pub compute_object_disk_size-sum :
    (manifest : BackupManifest)
    → compute_object_disk_size manifest ≡ min (sum_tables manifest.tables) u64_max
unfolding compute_object_disk_size
compute_object_disk_size-sum manifest =
    omega
      (arith, tables_size-sum manifest.tables 0, tables_size-bound manifest.tables 0 (omega arith))
