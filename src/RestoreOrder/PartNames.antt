-- ===== src/RestoreOrder/PartNames.antt =====
-- How the names of parts are read in src/restore/sort.rs.
use chbackup.Base.{ℕ, ◌≤◌, Option, none, some, List, [], ◌∷◌, ◌++◌, ◌≡◌, ◌≢◌, ap, ◌∙◌, arith, All}
use chbackup.Base.Text.{Text}
use chbackup.Base.Decimal.{print_uint, print_uint-All, parse_uint-print_uint}
use chbackup.Base.Lines.{split, split-none, split-append, All-map_digit}
use chbackup.Listing.{u64_max}
use chbackup.RestoreOrder.Parts.{
  PartSortKey, reversed, grouped, key_of_four, key_of_five, rsplitn, from_part_name,
}

-- The name of a part, without and with a data version.
abbrev pub part_name : Text → ℕ → ℕ → ℕ → Text
part_name partition min max level =
    partition ++ b'_' ∷ (print_uint min ++ b'_' ∷ (print_uint max ++ b'_' ∷ print_uint level))

abbrev pub mutated_part_name : Text → ℕ → ℕ → ℕ → ℕ → Text
mutated_part_name partition min max level version =
    partition
    ++ b'_'
      ∷ (print_uint min
          ++ b'_' ∷ (print_uint max ++ b'_' ∷ (print_uint level ++ b'_' ∷ print_uint version)))

no_separator : (n : ℕ) → All (λ c. c ≢ b'_') (print_uint n)
no_separator n =
    All-map_digit (λ c. c ≢ b'_') (print_uint n) (λ c d e. omega (arith, e, d)) (print_uint-All n)

-- A printed number in front of the separator is a piece.
split-print :
    (n : ℕ) (rest : Text)
    → split b'_' (print_uint n ++ b'_' ∷ rest) ≡ print_uint n ∷ split b'_' rest
split-print n rest = split-append b'_' (print_uint n) rest (no_separator n)

-- Two numbers and what follows.
split-part_name :
    (p : Text) (min max level : ℕ)
    → All (λ c. c ≢ b'_') p
    → split b'_' (part_name p min max level)
      ≡ p ∷ print_uint min ∷ print_uint max ∷ print_uint level ∷ []
split-part_name p min max level h =
    split-append b'_' p _ h
    ∙ ap (λ (l : List Text). p ∷ l) (split-print min _)
    ∙ ap (λ (l : List Text). p ∷ print_uint min ∷ l) (split-print max _)
    ∙ ap (λ (l : List Text). p ∷ print_uint min ∷ print_uint max ∷ l)
        (split-none b'_' (print_uint level) (no_separator level))

split-mutated_part_name :
    (p : Text) (min max level version : ℕ)
    → All (λ c. c ≢ b'_') p
    → split b'_' (mutated_part_name p min max level version)
      ≡ p ∷ print_uint min ∷ print_uint max ∷ print_uint level ∷ print_uint version ∷ []
split-mutated_part_name p min max level version h =
    split-append b'_' p _ h
    ∙ ap (λ (l : List Text). p ∷ l)
        (split-print min _
          ∙ ap (λ (l : List Text). print_uint min ∷ l)
              (split-print max _
                ∙ ap (λ (l : List Text). print_uint max ∷ l)
                    (split-print level _
                      ∙ ap (λ (l : List Text). print_uint level ∷ l)
                          (split-none b'_' (print_uint version) (no_separator version)))))

-- Numbers that a name can hold.
pub record IsNumbered (min max level : ℕ) : Type 0 where
  pub min_fits : min ≤ u64_max
  pub max_fits : max ≤ u64_max
  pub level_fits : level ≤ u64_max

abbrev pub sort_key : Text → ℕ → ℕ → PartSortKey
sort_key p min max = record { partition = p; min_block = min; max_block = max }

-- The reading of a name from its pieces
abbrev from_pieces : List Text → Option PartSortKey
from_pieces l = elim (key_of_five (grouped 5 b'_' (reversed l []))) [
  | some key ↦ some key
  | none ↦ key_of_four (grouped 4 b'_' (reversed l []))
]

-- The name of a part, with a data version or without, gives its partition and its blocks back, if
-- the partition holds no underscore and the numbers fit 64 bits.
pub from_part_name-part_name :
    (p : Text) (min max level version : ℕ)
    → All (λ c. c ≢ b'_') p
    → IsNumbered min max level
    → version ≤ u64_max
    → (from_part_name (part_name p min max level) ≡ some (sort_key p min max))
      × (from_part_name (mutated_part_name p min max level version) ≡ some (sort_key p min max))
unfolding from_part_name rsplitn
from_part_name-part_name p min max level version h n v =
    let a = parse_uint-print_uint u64_max min n.min_fits in
    let b = parse_uint-print_uint u64_max max n.max_fits in
    let c = parse_uint-print_uint u64_max level n.level_fits in
    let d = parse_uint-print_uint u64_max version v in
    (
      ap from_pieces (split-part_name p min max level h) ∙ ground (arith, a, b),
      ap from_pieces (split-mutated_part_name p min max level version h)
          ∙ ground (arith, a, b, c, d),
    )
