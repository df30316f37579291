-- ===== src/Diff/Lookup.antt =====
-- `base_lookup` of src/backup/diff.rs: what a lookup returns was inserted under that very key.
use chbackup.Base.{true, some, List, [], ◌∷◌, ◌≡◌, inl, inr, arith, Memᴰ, Bool-cases, Option-cases}
use chbackup.Base.Text.{eq_of_text_eq}
use chbackup.Manifest.{PartInfo}
use chbackup.Diff.{PartKey, same_key, get_last}

eq_of_same_key : (j k : PartKey) → same_key j k ≡ true → j ≡ k
unfolding same_key
eq_of_same_key (t, d, p) (t', d', p') h =
    ground (arith, eq_of_text_eq t t', eq_of_text_eq d d', eq_of_text_eq p p')

pub get_last-mem :
    (k : PartKey) (l : List (PartKey × PartInfo)) {part : PartInfo}
    → get_last k l ≡ some part
    → Memᴰ (k, part) l
unfolding get_last
get_last-mem k [] h = absurd (cc)
get_last-mem k ((j, p) ∷ rest) {part} h = elim (Option-cases (get_last k rest)) [
  | inr (later, e) ↦ Memᴰ.tail (get_last-mem k rest (ground arith))
  | inl e ↦ elim (Bool-cases (same_key k j)) [
    | inl same ↦ Memᴰ.head (ground (arith, eq_of_same_key k j))
    | inr other ↦ absurd (ground arith)
  ]
]
