-- ===== src/RestoreOrder/Parts.antt =====
-- src/restore/sort.rs: the order in which the parts of a table are attached.
use chbackup.Base.{
  ℕ, zero, suc, Bool, true, false, ◌&&◌, ◌||◌, Option, none, some, List, [], ◌∷◌, ◌++◌,
  if◌then◌else◌, ◌==◌, ltb, leb,
}
use chbackup.Base.Text.{Text, codes, text_eq}
use chbackup.Base.Sort.{sort}
use chbackup.Base.Decimal.{parse_uint}
use chbackup.Base.Lines.{split}
use chbackup.Listing.{u64_max}
use chbackup.Manifest.{PartInfo}
use chbackup.Watch.{contains_text}

pub record PartSortKey : Type 0 where
  pub partition : Text
  pub min_block : ℕ
  pub max_block : ℕ

-- The pieces of a text between the separators, from the last to the first.
abbrev pub reversed : List Text → List Text → List Text
reversed [] done = done
reversed (x ∷ l) done = reversed l (x ∷ done)

-- The text whose pieces, from the last to the first, are these, with a text behind them
abbrev pub joined : ℕ → List Text → Text → Text
joined sep [] behind = behind
joined sep (x ∷ l) behind = joined sep l (x ++ sep ∷ behind)

-- `s.rsplitn(n, sep)`: at most `n` pieces, from the end; the last one is what is left.
abbrev pub grouped : ℕ → ℕ → List Text → List Text
grouped zero sep l = []
grouped (suc n) sep [] = []
grouped (suc n) sep (x ∷ []) = x ∷ []
grouped (suc zero) sep (x ∷ y ∷ l) = joined sep (y ∷ l) x ∷ []
grouped (suc (suc n)) sep (x ∷ y ∷ l) = x ∷ grouped (suc n) sep (y ∷ l)

unfoldable pub rsplitn : ℕ → ℕ → Text → List Text
rsplitn n sep s = grouped n sep (reversed (split sep s) [])

-- The numbers of `level`, `max` and `min` are read with `parse::<u64>()`.
abbrev pub number : Text → Option ℕ
number s = parse_uint u64_max s

abbrev pub is_number : Text → Bool
is_number s = elim (number s) [ none ↦ false | some n ↦ true ]

abbrev pub key_of : Text → Text → Text → Option PartSortKey
key_of partition min max = elim (number min) [
  | none ↦ none
  | some min_block ↦ elim (number max) [
    | none ↦ none
    | some max_block ↦
        some (record { partition = partition; min_block = min_block; max_block = max_block })
  ]
]

-- The five pieces of the first attempt, and the four of the second.
abbrev pub key_of_five : List Text → Option PartSortKey
key_of_five (version ∷ level ∷ max ∷ min ∷ partition ∷ []) =
    if is_number version && is_number level then key_of partition min max else none
key_of_five _ = none

abbrev pub key_of_four : List Text → Option PartSortKey
key_of_four (level ∷ max ∷ min ∷ partition ∷ []) = key_of partition min max
key_of_four _ = none

unfoldable pub from_part_name : Text → Option PartSortKey
from_part_name name = elim (key_of_five (rsplitn 5 b'_' name)) [
  | some key ↦ some key
  | none ↦ key_of_four (rsplitn 4 b'_' name)
]

-- `str::cmp`, as "not greater"; the order of the bytes is the order of the codes.
unfoldable pub text_leq : Text → Text → Bool
text_leq [] t = true
text_leq (a ∷ s) [] = false
text_leq (a ∷ s) (b ∷ t) = let rest = text_leq s t in if ltb a b then true else a == b && rest

-- `PartSortKey::cmp`, as "not greater"
unfoldable pub key_leq : PartSortKey → PartSortKey → Bool
key_leq a b =
    if text_eq a.partition b.partition
    then leb a.min_block b.min_block
    else text_leq a.partition b.partition

abbrev pub keyed_leq : Text → Text → Option PartSortKey → Option PartSortKey → Bool
keyed_leq a b (some ka) (some kb) = key_leq ka kb
keyed_leq a b (some ka) none = true
keyed_leq a b none (some kb) = false
keyed_leq a b none none = text_leq a b

unfoldable pub part_leq : PartInfo → PartInfo → Bool
part_leq a b = keyed_leq a.name b.name (from_part_name a.name) (from_part_name b.name)

unfoldable pub sort_parts_by_min_block : List PartInfo → List PartInfo
sort_parts_by_min_block parts = sort part_leq parts

unfoldable pub needs_sequential_attach : Text → Bool
needs_sequential_attach engine =
    contains_text engine (codes "Replacing")
    || (contains_text engine (codes "Collapsing") || contains_text engine (codes "Versioned"))
