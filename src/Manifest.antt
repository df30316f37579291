-- ===== src/Manifest.antt =====
-- src/manifest.rs: the backup manifest. A `BTreeMap` is the list of its entries in the order in
-- which it is iterated; `u32` and `u64` fields are numbers, a `DateTime` is its distance from the
-- epoch. Left out are the fields that no modelled code reads: versions, formats, disks,
-- databases, functions, RBAC, and a table's UUID and pending mutations.
use chbackup.Base.{ℕ, Bool, Option, none, some, List, []}
use chbackup.Base.Text.{Text, codes}

pub record S3ObjectInfo : Type 0 where
  pub path : Text
  pub size : ℕ
  pub backup_key : Text

pub record PartInfo : Type 0 where
  pub name : Text
  pub size : ℕ
  pub backup_key : Text
  pub source : Text
  pub checksum_crc64 : ℕ
  pub s3_objects : Option (List S3ObjectInfo)
  pub backup_size : ℕ

pub record TableManifest : Type 0 where
  pub ddl : Text
  pub engine : Text
  pub total_bytes : ℕ
  pub parts : List (Text × List PartInfo)
  pub metadata_only : Bool
  pub dependencies : List Text

pub record BackupManifest : Type 0 where
  pub name : Text
  pub timestamp : ℕ
  pub compressed_size : ℕ
  pub metadata_size : ℕ
  pub tables : List (Text × TableManifest)
  pub rbac_size : ℕ
  pub config_size : ℕ

-- `PartInfo::new`
unfoldable pub new_part : Text → ℕ → ℕ → PartInfo
new_part name size crc64 = record {
  name = name;
  size = size;
  backup_key = [];
  source = codes "uploaded";
  checksum_crc64 = crc64;
  s3_objects = none;
  backup_size = 0;
}

-- `PartInfo::with_s3_objects`
unfoldable pub with_s3_objects : PartInfo → List S3ObjectInfo → PartInfo
with_s3_objects part objects = record part { s3_objects = some objects }
