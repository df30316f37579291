-- ===== src/ObjectDisk/Tests.antt =====
-- Instances for src/object_disk.rs: metadata of version 5 with two objects and inline data.
use chbackup.Base.{false, none, some, [], ◌∷◌, ◌≡◌, refl, arith, ok}
use chbackup.Base.Text.{codes}
use chbackup.Base.Lines.{trim, trim_by, trim_start, trim_end, is_whitespace}
use chbackup.ObjectDisk.{
  ObjectRef, ObjectDiskMetadata, parse_metadata, serialize_metadata, rewrite_metadata,
  join_disk_key, restore_object_keys,
}
use chbackup.ObjectDisk.Objects.{IsStorable, IsWritable}
use chbackup.ObjectDisk.RoundTrip.{parse_metadata-serialize_metadata}
use chbackup.ObjectDisk.Keys.{rewritten, parse_metadata-rewrite_metadata}

abbrev first_object : ObjectRef
first_object = record { relative_path = codes "ab"; size = 10 }

abbrev second_object : ObjectRef
second_object = record { relative_path = codes "c/d"; size = 200 }

abbrev two_objects : ObjectDiskMetadata
two_objects = record {
  version = 5;
  objects = first_object ∷ second_object ∷ [];
  total_size = 210;
  ref_count = 2;
  read_only = false;
  inline_data = some (codes "x");
}

first_object-IsStorable : IsStorable first_object
unfolding trim trim_by trim_start trim_end is_whitespace
first_object-IsStorable = record {
  size_fits = omega arith;
  no_tab = ((λ e. omega (arith, e)), ((λ e. omega (arith, e)), tt));
  one_line = ((λ e. omega (arith, e)), ((λ e. omega (arith, e)), λ e. omega (arith, e)));
  trimmed = refl;
}

second_object-IsStorable : IsStorable second_object
unfolding trim trim_by trim_start trim_end is_whitespace
second_object-IsStorable = record {
  size_fits = omega arith;
  no_tab = ((λ e. omega (arith, e)), ((λ e. omega (arith, e)), ((λ e. omega (arith, e)), tt)));
  one_line = (
    (λ e. omega (arith, e)),
    ((λ e. omega (arith, e)), ((λ e. omega (arith, e)), λ e. omega (arith, e))),
  );
  trimmed = refl;
}

two_objects-IsWritable : IsWritable two_objects
two_objects-IsWritable = record {
  version_low = omega arith;
  version_high = omega arith;
  count_fits = omega arith;
  storable = (first_object-IsStorable, (second_object-IsStorable, tt));
  total_fits = omega arith;
  ref_count_fits = omega arith;
  no_flag = λ h. refl;
  no_inline = λ h. absurd (omega (arith, h));
  inline_fits = (refl, ((λ e. omega (arith, e)), λ e. omega (arith, e)));
}

parse_metadata-serialize_metadata_example :
    parse_metadata (serialize_metadata two_objects) ≡ ok two_objects
parse_metadata-serialize_metadata_example =
    parse_metadata-serialize_metadata two_objects two_objects-IsWritable

source_key : join_disk_key (codes "/disks/s3/") (codes "ab/c") ≡ codes "disks/s3/ab/c"
unfolding join_disk_key trim_by trim_start trim_end
source_key = refl

-- The keys of one restored object of the metadata, under the version before the complete keys.
abbrev old_metadata : ObjectDiskMetadata
old_metadata = record {
  version = 2;
  objects = first_object ∷ [];
  total_size = 10;
  ref_count = 3;
  read_only = false;
  inline_data = none;
}

old_rewritten-IsWritable : IsWritable (rewritten old_metadata (codes "u/") (codes "d"))
unfolding restore_object_keys trim trim_by trim_start trim_end is_whitespace
old_rewritten-IsWritable = record {
  version_low = omega arith;
  version_high = omega arith;
  count_fits = omega arith;
  storable = (
    record {
      size_fits = omega arith;
      no_tab = (
        (λ e. omega (arith, e)),
        ((λ e. omega (arith, e)), ((λ e. omega (arith, e)), ((λ e. omega (arith, e)), tt))),
      );
      one_line = (
        (λ e. omega (arith, e)),
        (
          (λ e. omega (arith, e)),
          ((λ e. omega (arith, e)), ((λ e. omega (arith, e)), λ e. omega (arith, e))),
        ),
      );
      trimmed = refl;
    },
    tt,
  );
  total_fits = omega arith;
  ref_count_fits = omega arith;
  no_flag = λ h. refl;
  no_inline = λ h. refl;
  inline_fits = tt;
}

parse_metadata-rewrite_metadata_example :
    parse_metadata (rewrite_metadata old_metadata (codes "u/") (codes "d"))
    ≡ ok (rewritten old_metadata (codes "u/") (codes "d"))
parse_metadata-rewrite_metadata_example =
    parse_metadata-rewrite_metadata old_metadata (codes "u/") (codes "d") old_rewritten-IsWritable
