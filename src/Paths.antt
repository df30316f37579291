-- ===== src/Paths.antt =====
-- src/path_encoding.rs: the encoding of names into path components, and the check of disk paths.
-- `is_alphanumeric` is `char::is_alphanumeric`; `canonicalize` is that of the file system, with `none`
-- for its failure.
pub mod Encoding
pub mod Disk
pub mod Tests
use chbackup.Base.{
  ℕ, ◌+◌, ◌-◌, ◌*◌, ◌/◌, ◌%◌, Bool, true, false, not, ◌&&◌, ◌||◌, Option, none, some, List, [], ◌∷◌,
  ◌++◌, if◌then◌else◌, ◌==◌, ltb, any, keep_if,
}
use chbackup.Base.Text.{Text, codes, text_eq, starts_with, is_empty}
use chbackup.Base.Lines.{split, trim_start, trim_end}

-- `c.to_string().as_bytes()`
unfoldable pub utf8_bytes : ℕ → List ℕ
utf8_bytes c =
    if ltb c 128
    then c ∷ []
    else if ltb c 2048
    then (192 + c / 64) ∷ (128 + c % 64) ∷ []
    else if ltb c 65536
    then (224 + c / 4096) ∷ (128 + c / 64 % 64) ∷ (128 + c % 64) ∷ []
    else (240 + c / 262144) ∷ (128 + c / 4096 % 64) ∷ (128 + c / 64 % 64) ∷ (128 + c % 64) ∷ []

-- A digit of `{:02X}`
unfoldable pub hex_digit : ℕ → ℕ
hex_digit d = if ltb d 10 then b'0' + d else b'A' + (d - 10)

unfoldable pub percent_encoded : List ℕ → Text
percent_encoded [] = []
percent_encoded (byte ∷ bytes) =
    b'%' ∷ hex_digit (byte / 16) ∷ hex_digit (byte % 16) ∷ percent_encoded bytes

abbrev pub is_slash : ℕ → Bool
is_slash c = c == b'/'

module _ (is_alphanumeric : ℕ → Bool) where
  unfoldable pub is_safe_char : ℕ → Bool
  is_safe_char c = is_alphanumeric c || (c == b'-' || (c == b'_' || c == b'.'))

  unfoldable pub encode_path_component : Text → Text
  encode_path_component [] = []
  encode_path_component (c ∷ s) =
      let rest = encode_path_component s in
      if is_safe_char c then c ∷ rest else percent_encoded (utf8_bytes c) ++ rest

  unfoldable pub sanitize_path_component : Text → Text
  sanitize_path_component s =
      if is_empty s || (text_eq s (codes ".") || text_eq s (codes ".."))
      then []
      else encode_path_component (trim_start is_slash s)

abbrev pub forbidden_prefixes : List Text
forbidden_prefixes =
    codes "/etc"
    ∷ codes "/root"
    ∷ codes "/sys"
    ∷ codes "/proc"
    ∷ codes "/dev"
    ∷ codes "/boot"
    ∷ codes "/bin"
    ∷ codes "/sbin"
    ∷ codes "/usr"
    ∷ codes "/lib"
    ∷ codes "/lib64"
    ∷ codes "/run"
    ∷ []

-- The components of an absolute `Path`: repeated slashes and single dots do not count.
unfoldable pub path_components : Text → List Text
path_components p = keep_if (λ c. not (is_empty c || text_eq c (codes "."))) (split b'/' p)

unfoldable pub is_prefix : List Text → List Text → Bool
is_prefix [] l = true
is_prefix (x ∷ p) [] = false
is_prefix (x ∷ p) (y ∷ l) = text_eq x y && is_prefix p l

-- `path == prefix || path.starts_with(prefix)`
unfoldable pub is_under : Text → Text → Bool
is_under path prefix = is_prefix (path_components prefix) (path_components path)

module _ (canonicalize : Text → Option Text) where
  unfoldable pub is_under_canonical : Text → Text → Bool
  is_under_canonical path prefix = elim (canonicalize prefix) [
    | none ↦ false
    | some canonical_prefix ↦ is_under path canonical_prefix
  ]

  unfoldable pub check_forbidden : Text → Bool
  check_forbidden path =
      any (λ prefix. is_under path prefix || is_under_canonical path prefix) forbidden_prefixes

  unfoldable pub resolves_forbidden : Text → Bool
  resolves_forbidden path = elim (canonicalize path) [
    | none ↦ false
    | some canonical ↦ check_forbidden canonical
  ]

  unfoldable pub validate_disk_path : Text → Bool
  validate_disk_path path =
      let normalized = trim_end is_slash path in
      if not (starts_with path (codes "/"))
      then false
      else if is_empty normalized
      then false
      else if any (λ component. text_eq component (codes "..")) (split b'/' normalized)
      then false
      else if check_forbidden normalized
      then false
      else not (resolves_forbidden normalized)
