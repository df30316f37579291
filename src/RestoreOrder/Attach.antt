-- ===== src/RestoreOrder/Attach.antt =====
-- The order of parts in src/restore/sort.rs is a total one, and sorting follows it.
use mathlib.Core.List.{Permᴰ}
use chbackup.Base.{
  ◌≤◌, true, false, ◌&&◌, Option, none, some, List, [], ◌∷◌, ◌≡◌, refl, sym, ap, ◌∙◌, ◌⊎◌, inl, inr,
  arith, Bool-cases,
}
use chbackup.Base.Text.{Text, text_eq, eq_of_text_eq, text_eq_refl, text_eq_comm}
use chbackup.Base.Sort.{sort-perm, sort-IsSorted, IsSorted}
use chbackup.Manifest.{PartInfo}
use chbackup.RestoreOrder.Parts.{
  PartSortKey, text_leq, key_leq, keyed_leq, part_leq, sort_parts_by_min_block,
}

text_leq_refl : (s : Text) → text_leq s s ≡ true
unfolding text_leq
text_leq_refl [] = refl
text_leq_refl (a ∷ s) = ground (arith, text_leq_refl s)

text_leq_total : (s t : Text) → text_leq s t ≡ false → text_leq t s ≡ true
unfolding text_leq
text_leq_total [] t h = absurd (cc h)
text_leq_total (a ∷ s) [] h = refl
text_leq_total (a ∷ s) (b ∷ t) h = elim (Bool-cases (text_leq s t)) [
  | inl e ↦ ground (arith, h, e)
  | inr e ↦ ground (arith, h, text_leq_total s t e)
]

text_leq_trans : (s t u : Text) → text_leq s t ≡ true → text_leq t u ≡ true → text_leq s u ≡ true
unfolding text_leq
text_leq_trans [] t u h k = refl
text_leq_trans (a ∷ s) [] u h k = absurd (cc h)
text_leq_trans (a ∷ s) (b ∷ t) [] h k = absurd (cc k)
text_leq_trans (a ∷ s) (b ∷ t) (c ∷ u) h k = elim (Bool-cases (text_leq s t && text_leq t u)) [
  | inl e ↦ ground (arith, h, k, text_leq_trans s t u (ground (arith, e)) (ground (arith, e)))
  | inr e ↦ ground (arith, h, k, e)
]

text_leq_antisym : (s t : Text) → text_leq s t ≡ true → text_leq t s ≡ true → text_eq s t ≡ true
unfolding text_leq text_eq
text_leq_antisym [] [] h k = refl
text_leq_antisym [] (b ∷ t) h k = absurd (cc k)
text_leq_antisym (a ∷ s) [] h k = absurd (cc h)
text_leq_antisym (a ∷ s) (b ∷ t) h k = elim (Bool-cases (text_leq s t && text_leq t s)) [
  | inl e ↦ ground (arith, h, k, text_leq_antisym s t (ground (arith, e)) (ground (arith, e)))
  | inr e ↦ ground (arith, h, k, e)
]

key_leq_total : (a b : PartSortKey) → key_leq a b ≡ false → key_leq b a ≡ true
unfolding key_leq
key_leq_total a b h = elim (Bool-cases (text_eq a.partition b.partition)) [
  | inl e ↦ ground (arith, h, e, text_eq_comm a.partition b.partition)
  | inr e ↦
      let same = text_eq_comm a.partition b.partition in
      let other : text_leq a.partition b.partition ≡ false = ground (arith, h, e) in
      ground (arith, e, same, text_leq_total a.partition b.partition other)
]

-- What the comparison of keys says, in two cases.
record Less (a b : PartSortKey) : Type 0 where
  apart : text_eq a.partition b.partition ≡ false
  before : text_leq a.partition b.partition ≡ true

key_leq-cases :
    (a b : PartSortKey)
    → key_leq a b ≡ true
    → ((a.partition ≡ b.partition) × (a.min_block ≤ b.min_block)) ⊎ Less a b
unfolding key_leq
key_leq-cases a b h = elim (Bool-cases (text_eq a.partition b.partition)) [
  | inl e ↦ inl (eq_of_text_eq a.partition b.partition e, ground (arith, h, e))
  | inr e ↦ inr (record { apart = e; before = ground (arith, h, e) })
]

same_partition :
    (a b : PartSortKey) → a.partition ≡ b.partition → a.min_block ≤ b.min_block → key_leq a b ≡ true
unfolding key_leq
same_partition a b e m =
    ground (arith, ap (text_eq a.partition) (sym e) ∙ text_eq_refl a.partition, m)

less : (a b : PartSortKey) → Less a b → key_leq a b ≡ true
unfolding key_leq
less a b l = ground (arith, l.apart, l.before)

Less-trans : (a b c : PartSortKey) → Less a b → Less b c → Less a c
Less-trans a b c l m = record {
  apart = elim (Bool-cases (text_eq a.partition c.partition)) [
    | inr e ↦ e
    | inl e ↦
        let back : text_leq b.partition a.partition ≡ true =
          ap (text_leq b.partition) (eq_of_text_eq a.partition c.partition e) ∙ m.before in
        absurd (cc (sym l.apart ∙ text_leq_antisym a.partition b.partition l.before back))
  ];
  before = text_leq_trans a.partition b.partition c.partition l.before m.before;
}

key_leq_trans : (a b c : PartSortKey) → key_leq a b ≡ true → key_leq b c ≡ true → key_leq a c ≡ true
key_leq_trans a b c h k = elim (key_leq-cases a b h) [
  | inl (e, m) ↦ elim (key_leq-cases b c k) [
    | inl (f, n) ↦ same_partition a c (e ∙ f) (omega (arith, m, n))
    | inr l ↦ less a c (record {
      apart = ap (λ (p : Text). text_eq p c.partition) e ∙ l.apart;
      before = ap (λ (p : Text). text_leq p c.partition) e ∙ l.before;
    })
  ]
  | inr l ↦ elim (key_leq-cases b c k) [
    | inl (f, n) ↦ less a c (record {
      apart = ap (text_eq a.partition) (sym f) ∙ l.apart;
      before = ap (text_leq a.partition) (sym f) ∙ l.before;
    })
    | inr m ↦ less a c (Less-trans a b c l m)
  ]
]

keyed_leq_total :
    (a b : Text) (k l : Option PartSortKey) → keyed_leq a b k l ≡ false → keyed_leq b a l k ≡ true
keyed_leq_total a b (some k) (some l) h = key_leq_total k l h
keyed_leq_total a b (some k) none h = absurd (cc h)
keyed_leq_total a b none (some l) h = refl
keyed_leq_total a b none none h = text_leq_total a b h

keyed_leq_trans :
    (a b c : Text) (k l m : Option PartSortKey)
    → keyed_leq a b k l ≡ true
    → keyed_leq b c l m ≡ true
    → keyed_leq a c k m ≡ true
keyed_leq_trans a b c (some k) (some l) (some m) h i = key_leq_trans k l m h i
keyed_leq_trans a b c (some k) l none h i = refl
keyed_leq_trans a b c (some k) none (some m) h i = absurd (cc i)
keyed_leq_trans a b c none (some l) m h i = absurd (cc h)
keyed_leq_trans a b c none none (some m) h i = absurd (cc i)
keyed_leq_trans a b c none none none h i = text_leq_trans a b c h i

-- The comparison of parts is total and transitive, so that sorting by it is defined, and the parts
-- are sorted by it, each once.
pub sort_parts_by_min_block-IsSorted :
    (parts : List PartInfo)
    → Permᴰ (sort_parts_by_min_block parts) parts
      × IsSorted part_leq (sort_parts_by_min_block parts)
unfolding sort_parts_by_min_block part_leq
sort_parts_by_min_block-IsSorted parts = (
  sort-perm part_leq parts,
  sort-IsSorted part_leq (λ a b. keyed_leq_total a.name b.name _ _)
      (λ a b c. keyed_leq_trans a.name b.name c.name _ _ _) parts,
)
