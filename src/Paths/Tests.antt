-- ===== src/Paths/Tests.antt =====
-- Instances for src/path_encoding.rs, with the letters and digits of ASCII.
use chbackup.Base.{
  ℕ, Bool, true, false, ◌&&◌, ◌||◌, Option, none, some, [], ◌≡◌, ◌↔◌, ◌⊎◌, refl, arith, leb,
  if◌then◌else◌,
}
use chbackup.Base.Text.{Text, codes, text_eq, starts_with}
use chbackup.Base.Lines.{trim_start, trim_end, split}
use chbackup.Paths.{
  utf8_bytes, hex_digit, percent_encoded, is_slash, is_safe_char, encode_path_component,
  sanitize_path_component, path_components, is_prefix, is_under, is_under_canonical,
  check_forbidden, resolves_forbidden, validate_disk_path,
}
use chbackup.Paths.Encoding.{
  decoded, all_bytes, encode_path_component-decoded, IsFileName, sanitize_path_component-IsFileName,
}
use chbackup.Paths.Disk.{IsDiskPath, validate_disk_path_iff}

abbrev is_ascii_alphanumeric : ℕ → Bool
is_ascii_alphanumeric c =
    (leb b'0' c && leb c b'9') || ((leb b'A' c && leb c b'Z') || (leb b'a' c && leb c b'z'))

encoded_table :
    encode_path_component is_ascii_alphanumeric (codes "my table/é") ≡ codes "my%20table%2F%C3%A9"
unfolding encode_path_component is_safe_char percent_encoded utf8_bytes hex_digit
encoded_table = refl

encode_path_component-decoded_example :
    decoded (encode_path_component is_ascii_alphanumeric (codes "a/é")) ≡ all_bytes (codes "a/é")
encode_path_component-decoded_example =
    encode_path_component-decoded is_ascii_alphanumeric refl (codes "a/é")
      (omega arith, (omega arith, (omega arith, tt)))

-- The check for a step upwards comes before the leading slashes are taken off.
slash_before_dots : sanitize_path_component is_ascii_alphanumeric (codes "/..") ≡ codes ".."
unfolding sanitize_path_component encode_path_component is_safe_char text_eq trim_start
slash_before_dots = refl

plain_start : trim_start is_slash (codes "a/b") ≡ codes "a/b"
unfolding trim_start
plain_start = refl

sanitize_path_component-IsFileName_example :
    (sanitize_path_component is_ascii_alphanumeric (codes "a/b") ≡ [])
    ⊎ IsFileName (sanitize_path_component is_ascii_alphanumeric (codes "a/b"))
sanitize_path_component-IsFileName_example =
    sanitize_path_component-IsFileName is_ascii_alphanumeric refl refl (codes "a/b")
      (omega arith, (omega arith, (omega arith, tt))) plain_start

-- A link to a system directory, and nothing else that resolves.
abbrev linked : Text → Option Text
linked path = if text_eq path (codes "/data/evil") then some (codes "/etc") else none

evil : validate_disk_path linked (codes "/data/evil/") ≡ false
unfolding validate_disk_path trim_end text_eq starts_with split check_forbidden resolves_forbidden
    is_under is_under_canonical is_prefix path_components
evil = refl

-- The root, with a point.
abbrev rooted : Text → Option Text
rooted path = if text_eq path (codes "/.") then some (codes "/") else none

root_with_point : validate_disk_path rooted (codes "/.") ≡ true
unfolding validate_disk_path trim_end text_eq starts_with split check_forbidden resolves_forbidden
    is_under is_under_canonical is_prefix path_components
root_with_point = refl

validate_disk_path_iff_example :
    (validate_disk_path linked (codes "/data/disk1") ≡ true)
    ↔ IsDiskPath linked (codes "/data/disk1")
validate_disk_path_iff_example = validate_disk_path_iff linked (codes "/data/disk1")
