-- ===== src/ObjectDisk/RoundTrip.antt =====
-- Reading back the metadata files that src/object_disk.rs writes.
use chbackup.Base.{
  ℕ, suc, ◌+◌, ◌<◌, Bool, true, false, Option, none, some, List, [], ◌∷◌, ◌++◌, map, ◌≡◌, refl, sym,
  ap, ◌∙◌, inl, inr, arith, if◌then◌else◌, leb, length, length-append, get_elem?, ok, Bool-cases,
}
use chbackup.Base.Text.{Text, codes, text_eq}
use chbackup.Base.Decimal.{print_uint, print_uint-All}
use chbackup.Base.Lines.{
  newline, tab, lines, split, IsLine, lines-line, split-none, split-append, trim-digits, digits_sep,
}
use chbackup.ObjectDisk.{
  ObjectRef, ObjectDiskMetadata, bad_version, bad_count, bad_total_size, bad_ref_count, u32_max,
  u64_max, sizes_of_parts, parse_ref_count, parse_read_only, parse_inline_data, parse_body,
  parse_lines, parse_metadata, object_lines, flag_text, inline_text, inline_section, flag_section,
  serialize_metadata,
}
use chbackup.ObjectDisk.Objects.{
  IsInline, IsWritable, print-IsLine, tab-IsLine, parse_or-print, line_of, lines-object_lines,
  parse_objects-lines,
}

-- The lines behind the reference count.
abbrev inline_tail : ℕ → Option Text → List Text
inline_tail version inline = if leb 4 version then inline_text inline ∷ [] else []

abbrev tail_of : ℕ → Bool → Option Text → List Text
tail_of version read_only inline =
    if leb 3 version
    then flag_text read_only ∷ inline_tail version inline
    else inline_tail version inline

inline_text-IsLine : (inline : Option Text) → IsInline inline → IsLine (inline_text inline)
inline_text-IsLine none h = tt
inline_text-IsLine (some d) h = h.1

flag_text-IsLine : (b : Bool) → IsLine (flag_text b)
flag_text-IsLine true = ((λ e. omega (arith, e)), λ e. omega (arith, e))
flag_text-IsLine false = ((λ e. omega (arith, e)), λ e. omega (arith, e))

lines-inline_section :
    (version : ℕ) (inline : Option Text)
    → IsInline inline
    → lines (inline_section version inline) ≡ inline_tail version inline
unfolding inline_section lines
lines-inline_section version inline h =
    ground (arith, lines-line (inline_text inline) [] (inline_text-IsLine inline h))

lines-flag_section :
    (version : ℕ) (read_only : Bool) (inline : Option Text)
    → IsInline inline
    → lines (flag_section version read_only inline) ≡ tail_of version read_only inline
unfolding flag_section
lines-flag_section version read_only inline h = ground (
  arith,
  lines-line (flag_text read_only) (inline_section version inline) (flag_text-IsLine read_only),
  lines-inline_section version inline h,
)

trim_flag : (b : Bool) → parse_read_only (some (flag_text b)) ≡ b
unfolding parse_read_only text_eq
trim_flag true = rw (trim-digits (codes "1") (omega arith)) refl
trim_flag false = rw (trim-digits (codes "0") (omega arith)) refl

read_only_of :
    (version : ℕ) (read_only : Bool) (inline : Option Text) (ref : Text)
    → (version < 3 → read_only ≡ false)
    → (if leb 3 version
        then parse_read_only (get_elem? (ref ∷ tail_of version read_only inline) 1)
        else false)
      ≡ read_only
read_only_of version read_only inline ref h = elim (Bool-cases (leb 3 version)) [
  | inl e ↦ rw e (trim_flag read_only)
  | inr e ↦ rw e (sym (h (ground (arith, e))))
]

inline_of :
    (version : ℕ) (read_only : Bool) (inline : Option Text) (ref : Text)
    → (version < 4 → inline ≡ none)
    → IsInline inline
    → (if leb 4 version
        then parse_inline_data (get_elem? (ref ∷ tail_of version read_only inline) 2)
        else none)
      ≡ inline
unfolding parse_inline_data
inline_of version read_only none ref h k = ground arith
inline_of version read_only (some d) ref h (filled, l) = elim (Bool-cases (leb 4 version)) [
  | inl e ↦ ground (arith, e, filled)
  | inr e ↦ absurd (cc (h (ground (arith, e))))
]

get_elem-after :
    (pre post : List Text) (k : ℕ) → get_elem? (pre ++ post) (length pre + k) ≡ get_elem? post k
get_elem-after [] post k = ap (λ (n : ℕ). get_elem? post n) (omega arith)
get_elem-after (p ∷ pre) post k =
    let e : suc (length pre) + k ≡ suc (length pre + k) = omega arith in
    ap (λ (n : ℕ). get_elem? (p ∷ (pre ++ post)) n) e ∙ get_elem-after pre post k

length-lines : (os : List ObjectRef) → length (map line_of os) ≡ length os
length-lines [] = refl
length-lines (o ∷ os) = omega (arith, length-lines os)

-- The lines of written metadata.
abbrev header_of : ObjectDiskMetadata → Text
header_of m = print_uint (length m.objects) ++ tab ∷ print_uint m.total_size

abbrev end_of : ObjectDiskMetadata → List Text
end_of m = print_uint m.ref_count ∷ tail_of m.version m.read_only m.inline_data

abbrev lines_of : ObjectDiskMetadata → List Text
lines_of m = print_uint m.version ∷ header_of m ∷ (map line_of m.objects ++ end_of m)

lines-serialize_metadata :
    (m : ObjectDiskMetadata) → IsWritable m → lines (serialize_metadata m) ≡ lines_of m
unfolding serialize_metadata
lines-serialize_metadata m w =
    let ends =
      lines-line (print_uint m.ref_count) (flag_section m.version m.read_only m.inline_data)
        (print-IsLine m.ref_count)
      ∙ ap (λ (l : List Text). print_uint m.ref_count ∷ l)
          (lines-flag_section m.version m.read_only m.inline_data w.inline_fits) in
    let tail =
      print_uint m.ref_count ++ newline ∷ flag_section m.version m.read_only m.inline_data in
    lines-line (print_uint m.version) (header_of m ++ newline ∷ object_lines m.objects tail)
      (print-IsLine m.version)
    ∙ ap (λ (l : List Text). print_uint m.version ∷ l)
        (lines-line (header_of m) (object_lines m.objects tail)
            (tab-IsLine (length m.objects) (print_uint m.total_size) (print-IsLine m.total_size))
          ∙ ap (λ (l : List Text). header_of m ∷ l)
              (lines-object_lines m.objects tail w.storable
                ∙ ap (λ (l : List Text). map line_of m.objects ++ l) ends))

-- The element `k` behind the objects.
behind_objects :
    (m : ObjectDiskMetadata) (k : ℕ)
    → get_elem? (lines_of m) ((2 + k) + length m.objects) ≡ get_elem? (end_of m) k
behind_objects m k =
    let pre = print_uint m.version ∷ header_of m ∷ map line_of m.objects in
    let e : (2 + k) + length m.objects ≡ length pre + k = omega (arith, length-lines m.objects) in
    ap (λ (n : ℕ). get_elem? (lines_of m) n) e ∙ get_elem-after pre (end_of m) k

sizes-header :
    (m : ObjectDiskMetadata)
    → IsWritable m
    → sizes_of_parts (header_of m) (split tab (header_of m)) ≡ ok (length m.objects, m.total_size)
sizes-header m w =
    let n = length m.objects in
    let parts : split tab (header_of m) ≡ print_uint n ∷ print_uint m.total_size ∷ [] =
      split-append tab (print_uint n) (print_uint m.total_size)
        (digits_sep tab (print_uint n) (omega arith) (print_uint-All n))
      ∙ ap (λ (l : List Text). print_uint n ∷ l)
          (split-none tab (print_uint m.total_size) (
            digits_sep tab (print_uint m.total_size) (omega arith)
              (print_uint-All m.total_size))) in
    ground (
      arith,
      parts,
      parse_or-print u64_max n bad_count w.count_fits,
      parse_or-print u64_max m.total_size bad_total_size w.total_fits,
    )

parse_body-lines :
    (m : ObjectDiskMetadata) → IsWritable m → parse_body m.version (lines_of m) ≡ ok m
unfolding parse_body parse_ref_count
parse_body-lines m w =
    let n = length m.objects in
    let objects =
      parse_objects-lines m.objects (print_uint m.version ∷ header_of m ∷ []) (end_of m) 0
        (omega arith) w.storable in
    let ref : get_elem? (lines_of m) (2 + n) ≡ some (print_uint m.ref_count) = behind_objects m 0 in
    let flag =
      ap (λ (o : Option Text). if leb 3 m.version then parse_read_only o else false)
        (behind_objects m 1)
      ∙ read_only_of m.version m.read_only m.inline_data (print_uint m.ref_count) w.no_flag in
    let inline =
      ap (λ (o : Option Text). if leb 4 m.version then parse_inline_data o else none)
        (behind_objects m 2)
      ∙ inline_of m.version m.read_only m.inline_data (print_uint m.ref_count) w.no_inline
          w.inline_fits in
    ground (
      arith,
      sizes-header m w,
      objects,
      ref,
      parse_or-print u32_max m.ref_count bad_ref_count w.ref_count_fits,
      flag,
      inline,
    )

-- Metadata that its version's format can hold is read back from what is written of it.
pub parse_metadata-serialize_metadata :
    (m : ObjectDiskMetadata) → IsWritable m → parse_metadata (serialize_metadata m) ≡ ok m
unfolding parse_metadata parse_lines
parse_metadata-serialize_metadata m w =
    let read = parse_or-print u32_max m.version bad_version (omega (arith, w.version_high)) in
    ap parse_lines (lines-serialize_metadata m w)
    ∙ ground (
      arith,
      read,
      parse_body-lines m w,
      w.version_low,
      w.version_high,
      length-append (map line_of m.objects) (end_of m),
    )
