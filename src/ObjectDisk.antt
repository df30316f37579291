-- ===== src/ObjectDisk.antt =====
-- src/object_disk.rs: the metadata files of ClickHouse object disks, and the keys of the objects
-- they refer to.
pub mod Objects
pub mod RoundTrip
pub mod Keys
pub mod Tests
use chbackup.Base.{
  ℕ, zero, suc, ◌+◌, Bool, true, false, not, ◌&&◌, ◌||◌, Option, none, some, List, [], ◌∷◌, ◌++◌,
  map, if◌then◌else◌, ltb, leb, ◌==◌, length, get_elem?, Result, ok, err, ◌>>=◌,
}
use chbackup.Base.Text.{Text, codes, text_eq, strip_prefix, is_empty}
use chbackup.Base.Decimal.{print_uint, parse_uint}
use chbackup.Base.Lines.{newline, tab, lines, split, trim, trim_by, trim_end}

pub record ObjectRef : Type 0 where
  pub relative_path : Text
  pub size : ℕ

pub record ObjectDiskMetadata : Type 0 where
  pub version : ℕ
  pub objects : List ObjectRef
  pub total_size : ℕ
  pub ref_count : ℕ
  pub read_only : Bool
  pub inline_data : Option Text

pub data MetadataError : Type 0 where
  empty_file bad_version : MetadataError
  unsupported_version too_short : ℕ → MetadataError
  bad_header : Text → MetadataError
  bad_count bad_total_size : MetadataError
  truncated : ℕ → MetadataError
  bad_object_line : Text → MetadataError
  bad_object_size bad_ref_count : MetadataError

-- The greatest values of `u32`, and of `u64` and `usize`
abbrev pub u32_max : ℕ
u32_max = 4294967295

abbrev pub u64_max : ℕ
u64_max = 18446744073709551615

-- `s.trim().parse().context(e)?`
unfoldable pub parse_or : ℕ → MetadataError → Text → Result MetadataError ℕ
parse_or max e s = elim (parse_uint max (trim s)) [ none ↦ err e | some n ↦ ok n ]

abbrev pub object_of_parts : Text → List Text → Result MetadataError ObjectRef
object_of_parts line [] = err (bad_object_line line)
object_of_parts line (size ∷ []) = err (bad_object_line line)
object_of_parts line (size ∷ path ∷ rest) = parse_or u64_max bad_object_size size >>= λ n.
    ok (record { relative_path = trim path; size = n })

unfoldable pub parse_object : Text → Result MetadataError ObjectRef
parse_object line = object_of_parts line (split tab line)

-- The loop over the objects, with the number left and the index `i`.
unfoldable pub parse_objects : List Text → ℕ → ℕ → Result MetadataError (List ObjectRef)
parse_objects ls zero i = ok []
parse_objects ls (suc left) i = elim (get_elem? ls (2 + i)) [
  | none ↦ err (truncated i)
  | some line ↦ parse_object line >>= λ o. parse_objects ls left (i + 1) >>= λ os. ok (o ∷ os)
]

abbrev pub sizes_of_parts : Text → List Text → Result MetadataError (ℕ × ℕ)
sizes_of_parts line [] = err (bad_header line)
sizes_of_parts line (count ∷ []) = err (bad_header line)
sizes_of_parts line (count ∷ total ∷ rest) = parse_or u64_max bad_count count >>= λ n.
    parse_or u64_max bad_total_size total >>= λ t. ok (n, t)

unfoldable pub parse_ref_count : Option Text → Result MetadataError ℕ
parse_ref_count none = ok 0
parse_ref_count (some line) = parse_or u32_max bad_ref_count line

unfoldable pub parse_read_only : Option Text → Bool
parse_read_only none = false
parse_read_only (some line) = text_eq (trim line) (codes "1")

unfoldable pub parse_inline_data : Option Text → Option Text
parse_inline_data none = none
parse_inline_data (some line) = if is_empty line then none else some line

-- The lines behind the version's, with the number of lines.
unfoldable pub parse_body : ℕ → List Text → Result MetadataError ObjectDiskMetadata
parse_body version ls = elim (get_elem? ls 1) [
  | none ↦ err (too_short (length ls))
  | some header ↦ sizes_of_parts header (split tab header) >>= λ sizes.
      parse_objects ls sizes.0 0 >>= λ objects.
      parse_ref_count (get_elem? ls (2 + sizes.0)) >>= λ ref_count. ok (record {
        version = version;
        objects = objects;
        total_size = sizes.1;
        ref_count = ref_count;
        read_only = if leb 3 version then parse_read_only (get_elem? ls (3 + sizes.0)) else false;
        inline_data =
            if leb 4 version then parse_inline_data (get_elem? ls (4 + sizes.0)) else none;
      })
]

unfoldable pub parse_lines : List Text → Result MetadataError ObjectDiskMetadata
parse_lines [] = err empty_file
parse_lines (first ∷ ls) = parse_or u32_max bad_version first >>= λ version.
    if not (leb 1 version && leb version 5)
    then err (unsupported_version version)
    else if ltb (length (first ∷ ls)) 3
    then err (too_short (length (first ∷ ls)))
    else parse_body version (first ∷ ls)

unfoldable pub parse_metadata : Text → Result MetadataError ObjectDiskMetadata
parse_metadata content = parse_lines (lines content)

abbrev pub slash : ℕ → Bool
slash c = c == b'/'

-- `trim_matches('/')`
abbrev pub trim_slashes : Text → Text
trim_slashes s = trim_by slash s

unfoldable pub join_disk_key : Text → Text → Text
join_disk_key disk_key_prefix disk_relative =
    let prefix = trim_slashes disk_key_prefix in
    if is_empty prefix then disk_relative else prefix ++ b'/' ∷ disk_relative

unfoldable pub disk_relative_key : Text → Text → Text
disk_relative_key stored_key disk_key_prefix =
    let prefix = trim_slashes disk_key_prefix in
    if is_empty prefix then stored_key else elim (strip_prefix stored_key (prefix ++ b'/' ∷ [])) [
      | some rest ↦ rest
      | none ↦ stored_key
    ]

unfoldable pub upload_source_key : Text → Text → Text
upload_source_key disk_relative source_prefix = join_disk_key source_prefix disk_relative

pub record RestoreObjectKeys : Type 0 where
  pub copy_dest_relative_key : Text
  pub metadata_key : Text

unfoldable pub restore_object_keys : ℕ → Text → Text → Text → RestoreObjectKeys
restore_object_keys version disk_relative uuid_prefix dest_disk_key_prefix =
    let copy = trim_end slash uuid_prefix ++ b'/' ∷ disk_relative in
    record {
      copy_dest_relative_key = copy;
      metadata_key = if leb 5 version then join_disk_key dest_disk_key_prefix copy else copy;
    }

-- `result.push_str` of an object's line
unfoldable pub object_line : ℕ → Text → Text
object_line size path = print_uint size ++ tab ∷ path

unfoldable pub object_lines : List ObjectRef → Text → Text
object_lines [] rest = rest
object_lines (o ∷ os) rest = object_line o.size o.relative_path ++ newline ∷ object_lines os rest

abbrev pub flag_text : Bool → Text
flag_text true = codes "1"
flag_text false = codes "0"

abbrev pub inline_text : Option Text → Text
inline_text none = []
inline_text (some d) = d

-- What is pushed behind the reference count.
unfoldable pub inline_section : ℕ → Option Text → Text
inline_section version inline = if leb 4 version then inline_text inline ++ newline ∷ [] else []

unfoldable pub flag_section : ℕ → Bool → Option Text → Text
flag_section version read_only inline =
    if leb 3 version
    then flag_text read_only ++ newline ∷ inline_section version inline
    else inline_section version inline

unfoldable pub serialize_metadata : ObjectDiskMetadata → Text
serialize_metadata m =
    print_uint m.version
    ++ newline
      ∷ ((print_uint (length m.objects) ++ tab ∷ print_uint m.total_size)
          ++ newline
            ∷ object_lines m.objects (
                print_uint m.ref_count
                ++ newline ∷ flag_section m.version m.read_only m.inline_data))

-- The loop over the objects of `rewrite_metadata`.
unfoldable pub rewritten_lines : ℕ → Text → Text → List ObjectRef → Text → Text
rewritten_lines version uuid_prefix dest [] rest = rest
rewritten_lines version uuid_prefix dest (o ∷ os) rest =
    object_line o.size (restore_object_keys version o.relative_path uuid_prefix dest).metadata_key
    ++ newline ∷ rewritten_lines version uuid_prefix dest os rest

unfoldable pub rewrite_metadata : ObjectDiskMetadata → Text → Text → Text
rewrite_metadata m uuid_prefix dest =
    print_uint m.version
    ++ newline
      ∷ ((print_uint (length m.objects) ++ tab ∷ print_uint m.total_size)
          ++ newline
            ∷ rewritten_lines m.version uuid_prefix dest m.objects
                (codes "0" ++ newline ∷ flag_section m.version false m.inline_data))
