-- ===== src/ObjectDisk/Objects.antt =====
-- The lines of objects in the metadata files of src/object_disk.rs.
use chbackup.Base.{
  ℕ, ◌+◌, ◌≤◌, ◌<◌, false, Option, none, some, List, [], ◌∷◌, ◌++◌, map, ◌≡◌, ◌≢◌, refl, ap, ◌∙◌,
  subst, arith, length, length-append, get_elem?, ok, All,
}
use chbackup.Base.Text.{Text, is_empty}
use chbackup.Base.Decimal.{print_uint, print_uint-All, parse_uint-print_uint}
use chbackup.Base.Lines.{
  newline, carriage_return, tab, lines, split, trim, IsLine, lines-line, split-none, split-append,
  trim-digits, digits_sep, digits-IsLine, append-IsLine, All-map_digit,
}
use chbackup.ObjectDisk.{
  ObjectRef, ObjectDiskMetadata, MetadataError, bad_object_size, u32_max, u64_max, parse_or,
  parse_object, parse_objects, object_line, object_lines,
}

-- An object that one line can hold.
pub record IsStorable (o : ObjectRef) : Type 0 where
  pub size_fits : o.size ≤ u64_max
  pub no_tab : All (λ c. c ≢ tab) o.relative_path
  pub one_line : IsLine o.relative_path
  pub trimmed : trim o.relative_path ≡ o.relative_path

abbrev pub IsInline : Option Text → Type 0
IsInline none = Unit
IsInline (some d) = (is_empty d ≡ false) × IsLine d

-- Metadata that the file format of its version can hold.
pub record IsWritable (m : ObjectDiskMetadata) : Type 0 where
  pub version_low : 1 ≤ m.version
  pub version_high : m.version ≤ 5
  pub count_fits : length m.objects ≤ u64_max
  pub storable : All IsStorable m.objects
  pub total_fits : m.total_size ≤ u64_max
  pub ref_count_fits : m.ref_count ≤ u32_max
  pub no_flag : m.version < 3 → m.read_only ≡ false
  pub no_inline : m.version < 4 → m.inline_data ≡ none
  pub inline_fits : IsInline m.inline_data

pub print-IsLine : (n : ℕ) → IsLine (print_uint n)
print-IsLine n = digits-IsLine (print_uint n) (print_uint-All n)

-- Digits and a tab before a line are a line.
pub tab-IsLine : (n : ℕ) (l : Text) → IsLine l → IsLine (print_uint n ++ tab ∷ l)
tab-IsLine n l h =
    append-IsLine (print_uint n) (tab ∷ l)
      (All-map_digit (λ c. (c ≢ newline) × (c ≢ carriage_return)) (print_uint n)
        (λ c d. ((λ e. omega (arith, e, d)), λ e. omega (arith, e, d))) (print_uint-All n))
      (behind l h)
  where
    behind : (l : Text) → IsLine l → IsLine (tab ∷ l)
    behind [] h = ((λ e. omega (arith, e)), λ e. omega (arith, e))
    behind (c ∷ l) h = ((λ e. omega (arith, e)), h)

pub parse_or-print :
    (max n : ℕ) (e : MetadataError) → n ≤ max → parse_or max e (print_uint n) ≡ ok n
unfolding parse_or
parse_or-print max n e h =
    ground (arith, trim-digits (print_uint n) (print_uint-All n), parse_uint-print_uint max n h)

parse_object-line :
    (o : ObjectRef) → IsStorable o → parse_object (object_line o.size o.relative_path) ≡ ok o
unfolding parse_object object_line
parse_object-line o h =
    let parts : split tab (print_uint o.size ++ tab ∷ o.relative_path)
        ≡ print_uint o.size ∷ o.relative_path ∷ [] =
      split-append tab (print_uint o.size) o.relative_path
        (digits_sep tab (print_uint o.size) (omega arith) (print_uint-All o.size))
      ∙ ap (λ (l : List Text). print_uint o.size ∷ l) (split-none tab o.relative_path h.no_tab) in
    let read = parse_or-print u64_max o.size bad_object_size h.size_fits in
    ground (arith, parts, read, h.trimmed)

abbrev pub line_of : ObjectRef → Text
line_of o = object_line o.size o.relative_path

pub lines-object_lines :
    (os : List ObjectRef) (rest : Text)
    → All IsStorable os
    → lines (object_lines os rest) ≡ map line_of os ++ lines rest
unfolding object_lines object_line
lines-object_lines [] rest h = refl
lines-object_lines (o ∷ os) rest h =
    lines-line (print_uint o.size ++ tab ∷ o.relative_path) (object_lines os rest)
      (tab-IsLine o.size o.relative_path h.0.one_line)
    ∙ ap (λ (l : List Text). line_of o ∷ l) (lines-object_lines os rest h.1)

get_elem-middle :
    (pre : List Text) (x : Text) (post : List Text)
    → get_elem? (pre ++ x ∷ post) (length pre) ≡ some x
get_elem-middle [] x post = refl
get_elem-middle (p ∷ pre) x post = get_elem-middle pre x post

append_one :
    (pre : List Text) (x : Text) (post : List Text) → (pre ++ x ∷ []) ++ post ≡ pre ++ x ∷ post
append_one [] x post = refl
append_one (p ∷ pre) x post = ap (λ (l : List Text). p ∷ l) (append_one pre x post)

pub parse_objects-lines :
    (os : List ObjectRef) (pre post : List Text) (i : ℕ)
    → length pre ≡ 2 + i
    → All IsStorable os
    → parse_objects (pre ++ (map line_of os ++ post)) (length os) i ≡ ok os
unfolding parse_objects
parse_objects-lines [] pre post i e h = refl
parse_objects-lines (o ∷ os) pre post i e h =
    let here : get_elem? (pre ++ line_of o ∷ (map line_of os ++ post)) (2 + i) ≡ some (line_of o) =
      subst
        (λ (k : ℕ). get_elem? (pre ++ line_of o ∷ (map line_of os ++ post)) k ≡ some (line_of o)) e
        (get_elem-middle pre (line_of o) (map line_of os ++ post)) in
    let rest : parse_objects (pre ++ line_of o ∷ (map line_of os ++ post)) (length os) (i + 1)
        ≡ ok os =
      subst (λ (l : List Text). parse_objects l (length os) (i + 1) ≡ ok os)
        (append_one pre (line_of o) (map line_of os ++ post))
        (parse_objects-lines os (pre ++ line_of o ∷ []) post (i + 1)
          (omega (arith, e, length-append pre (line_of o ∷ []))) h.1) in
    ground (arith, here, rest, parse_object-line o h.0)
