-- ===== src/ObjectDisk/Keys.antt =====
-- The object keys of src/object_disk.rs, and metadata rewritten for a restored part.
use chbackup.Base.{
  ℕ, suc, false, some, List, [], ◌∷◌, ◌++◌, map, ◌≡◌, refl, sym, ap, ◌∙◌, inl, inr, arith,
  if◌then◌else◌, leb, Bool-cases, length, ok,
}
use chbackup.Base.Text.{Text, is_empty, strip_prefix, strip_prefix-append}
use chbackup.Base.Decimal.{print_uint}
use chbackup.Base.Lines.{newline}
use chbackup.ObjectDisk.{
  ObjectRef, ObjectDiskMetadata, trim_slashes, join_disk_key, disk_relative_key, upload_source_key,
  restore_object_keys, object_line, object_lines, rewritten_lines, rewrite_metadata,
  serialize_metadata, parse_metadata,
}
use chbackup.ObjectDisk.Objects.{IsWritable}
use chbackup.ObjectDisk.RoundTrip.{parse_metadata-serialize_metadata}

append_slash : (p r : Text) → p ++ b'/' ∷ r ≡ (p ++ b'/' ∷ []) ++ r
append_slash [] r = refl
append_slash (c ∷ p) r = ap (λ (t : Text). c ∷ t) (append_slash p r)

-- The key of an object below a disk's prefix is that object's again once the prefix is taken off.
disk_relative_key-join_disk_key :
    (prefix key : Text) → disk_relative_key (join_disk_key prefix key) prefix ≡ key
unfolding disk_relative_key join_disk_key
disk_relative_key-join_disk_key prefix key = elim (Bool-cases (is_empty (trim_slashes prefix))) [
  | inl e ↦ rw e refl
  | inr e ↦
      let stripped : strip_prefix (trim_slashes prefix ++ b'/' ∷ key)
            (trim_slashes prefix ++ b'/' ∷ [])
          ≡ some key =
        ap (λ (t : Text). strip_prefix t (trim_slashes prefix ++ b'/' ∷ []))
          (append_slash (trim_slashes prefix) key)
        ∙ strip_prefix-append (trim_slashes prefix ++ b'/' ∷ []) key in
      ground (arith, e, stripped)
]

-- A key that lies below a prefix of a source disk.
abbrev pub LiesBelow : Text → Text → Type 0
LiesBelow key prefix = (rest : Text) × (key ≡ join_disk_key prefix rest)

-- The source key that is rebuilt from a disk-relative key is the stored one, if that lies below the
-- disk's prefix.
pub upload_source_key-disk_relative_key :
    (key prefix : Text)
    → LiesBelow key prefix
    → upload_source_key (disk_relative_key key prefix) prefix ≡ key
unfolding upload_source_key
upload_source_key-disk_relative_key key prefix (rest, e) =
    ap (λ (k : Text). join_disk_key prefix (disk_relative_key k prefix)) e
    ∙ ap (join_disk_key prefix) (disk_relative_key-join_disk_key prefix rest)
    ∙ sym e

-- How ClickHouse reads a key of a metadata file, as a key relative to the disk: from version 5 on
-- it is complete.
abbrev pub resolved_key : ℕ → Text → Text → Text
resolved_key version key prefix = if leb 5 version then disk_relative_key key prefix else key

-- The key that is written into the metadata denotes the object's copy, in every version.
pub restore_object_keys-agree :
    (version : ℕ) (disk_relative uuid_prefix dest : Text)
    → let keys = restore_object_keys version disk_relative uuid_prefix dest in
      resolved_key version keys.metadata_key dest ≡ keys.copy_dest_relative_key
unfolding restore_object_keys
restore_object_keys-agree version disk_relative uuid_prefix dest =
    elim (Bool-cases (leb 5 version)) [
      | inl e ↦ rw e (disk_relative_key-join_disk_key dest _)
      | inr e ↦ rw e refl
    ]

abbrev pub rewritten_object : ℕ → Text → Text → ObjectRef → ObjectRef
rewritten_object version uuid_prefix dest o = record o {
  relative_path = (restore_object_keys version o.relative_path uuid_prefix dest).metadata_key;
}

-- Metadata with the keys of the restored objects, no references and no read-only flag.
abbrev pub rewritten : ObjectDiskMetadata → Text → Text → ObjectDiskMetadata
rewritten m uuid_prefix dest = record m {
  objects = map (rewritten_object m.version uuid_prefix dest) m.objects;
  ref_count = 0;
  read_only = false;
}

rewritten_lines-eq :
    (version : ℕ) (uuid_prefix dest : Text) (os : List ObjectRef) (rest : Text)
    → rewritten_lines version uuid_prefix dest os rest
      ≡ object_lines (map (rewritten_object version uuid_prefix dest) os) rest
unfolding rewritten_lines object_lines
rewritten_lines-eq version uuid_prefix dest [] rest = refl
rewritten_lines-eq version uuid_prefix dest (o ∷ os) rest =
    ap
      (λ (t : Text).
        object_line o.size
          (restore_object_keys version o.relative_path uuid_prefix dest).metadata_key
        ++ newline ∷ t)
      (rewritten_lines-eq version uuid_prefix dest os rest)

length-rewritten : (f : ObjectRef → ObjectRef) (os : List ObjectRef) → length (map f os) ≡ length os
length-rewritten f [] = refl
length-rewritten f (o ∷ os) = ap suc (length-rewritten f os)

rewrite_metadata-eq :
    (m : ObjectDiskMetadata) (uuid_prefix dest : Text)
    → rewrite_metadata m uuid_prefix dest ≡ serialize_metadata (rewritten m uuid_prefix dest)
unfolding rewrite_metadata serialize_metadata print_uint
rewrite_metadata-eq m uuid_prefix dest = rw (length-rewritten, rewritten_lines-eq)

-- What is written for a restored part is read back as the metadata with the restored objects' keys,
-- in their order and with their sizes, no references and no read-only flag, if the format can hold
-- it.
pub parse_metadata-rewrite_metadata :
    (m : ObjectDiskMetadata) (uuid_prefix dest : Text)
    → IsWritable (rewritten m uuid_prefix dest)
    → parse_metadata (rewrite_metadata m uuid_prefix dest) ≡ ok (rewritten m uuid_prefix dest)
parse_metadata-rewrite_metadata m uuid_prefix dest w =
    ap parse_metadata (rewrite_metadata-eq m uuid_prefix dest)
    ∙ parse_metadata-serialize_metadata (rewritten m uuid_prefix dest) w
