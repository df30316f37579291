-- ===== src/RestoreOrder/Tests.antt =====
-- Instances for src/restore/topo.rs, on the manifest of an incremental backup.
use chbackup.Base.{List, [], ◌∷◌, ◌↔◌, Memᴰ}
use chbackup.Base.Text.{Text, codes}
use chbackup.Retention.Tests.{incremental}
use mathlib.Core.List.{Permᴰ}
use chbackup.Base.{true, ◌≡◌, refl, sym, subst, inl, inr, mem-cons_cases}
use chbackup.Base.Text.{text_eq}
use chbackup.Base.Sort.{sort, insert}
use chbackup.Base.Distinct.{IsDistinct, all_distinct-IsDistinct}
use chbackup.Manifest.{TableManifest}
use chbackup.RestoreOrder.{find_table, engine_restore_priority}
use chbackup.Base.{some, arith}
use chbackup.Base.Lines.{split}
use chbackup.Base.Decimal.{parse_uint, scan_digits}
use chbackup.Manifest.{PartInfo, new_part}
use chbackup.RestoreOrder.Parts.{rsplitn, from_part_name}
use chbackup.RestoreOrder.PartNames.{
  part_name, mutated_part_name, IsNumbered, sort_key, from_part_name-part_name,
}
use chbackup.RestoreOrder.Topo.{
  Tables, depends_on, has_deps, add_edge, add_dependencies, add_tables, build_graph, relax, drain,
  sort_by_priority, initial_queue, kahn, with_remaining, topological_sort,
}
use chbackup.RestoreOrder.Dependencies.{
  Grounded, grounded, IsBefore, topological_sort-perm, topological_sort-IsBefore,
}
use chbackup.RestoreOrder.{data_phase, tables_of, classify_restore_tables}
use chbackup.RestoreOrder.Phases.{IsInPhase, classify_restore_tables_iff}

abbrev same_text : Text → Text
same_text t = t

abbrev keys : List Text
keys = codes "db.t" ∷ codes "db.gone" ∷ []

classify_restore_tables_iff_example :
    Memᴰ (codes "db.t") (tables_of data_phase (classify_restore_tables same_text incremental keys))
    ↔ IsInPhase same_text incremental data_phase keys (codes "db.t")
classify_restore_tables_iff_example =
    classify_restore_tables_iff same_text incremental data_phase keys (codes "db.t")

abbrev table_with : Text → List Text → TableManifest
table_with engine dependencies = record {
  ddl = [];
  engine = engine;
  total_bytes = 0;
  parts = [];
  metadata_only = true;
  dependencies = dependencies;
}

-- A view over a dictionary, and two views that depend on each other.
abbrev sample_tables : Tables
sample_tables =
    (codes "v", table_with (codes "View") (codes "d" ∷ []))
    ∷ (codes "d", table_with (codes "Dictionary") [])
    ∷ (codes "a", table_with (codes "View") (codes "b" ∷ []))
    ∷ (codes "b", table_with (codes "View") (codes "a" ∷ []))
    ∷ []

abbrev sample_keys : List Text
sample_keys = codes "v" ∷ codes "d" ∷ codes "a" ∷ codes "b" ∷ []

sorted_sample :
    topological_sort sample_tables sample_keys ≡ codes "d" ∷ codes "v" ∷ codes "a" ∷ codes "b" ∷ []
unfolding topological_sort has_deps depends_on find_table text_eq with_remaining kahn build_graph
    add_tables add_dependencies add_edge initial_queue sort_by_priority engine_restore_priority
    relax drain sort insert
sorted_sample = refl

sample_keys-IsDistinct : IsDistinct sample_keys
unfolding text_eq
sample_keys-IsDistinct = all_distinct-IsDistinct sample_keys refl

topological_sort-perm_example : Permᴰ (topological_sort sample_tables sample_keys) sample_keys
topological_sort-perm_example =
    topological_sort-perm sample_tables sample_keys sample_keys-IsDistinct

v_depends : Memᴰ (codes "d") (depends_on sample_tables (codes "v"))
unfolding depends_on find_table text_eq
v_depends = Memᴰ.head refl

-- The dictionary depends on nothing.
d_plain : (dep : Text) → Memᴰ dep (depends_on sample_tables (codes "d")) → ⊥
unfolding depends_on find_table text_eq
d_plain dep m = elim m [ ]

v-Grounded : Grounded sample_tables sample_keys (codes "v")
unfolding depends_on find_table text_eq
v-Grounded = grounded (codes "v") (λ dep m k. elim (mem-cons_cases m) [
  | inl e ↦
      subst (Grounded sample_tables sample_keys) (sym e)
        (grounded (codes "d") (λ x n j. absurd (d_plain x n)))
  | inr n ↦ elim n [ ]
])

topological_sort-IsBefore_example :
    IsBefore (codes "d") (codes "v") (topological_sort sample_tables sample_keys)
topological_sort-IsBefore_example =
    topological_sort-IsBefore sample_tables sample_keys sample_keys-IsDistinct (codes "d")
      (codes "v") (Memᴰ.head refl) v_depends (Memᴰ.tail (Memᴰ.head refl)) v-Grounded

-- A partition that ends in an underscore and a number is read as the fifth piece of the name.
misread :
    from_part_name (codes "a_1_2_3_4")
    ≡ some (record { partition = codes "a"; min_block = 1; max_block = 2 })
unfolding from_part_name rsplitn split parse_uint scan_digits
misread = refl

abbrev part_named : Text → PartInfo
part_named name = new_part name 0 0

small_numbers : IsNumbered 3 7 1
small_numbers = record { min_fits = omega arith; max_fits = omega arith; level_fits = omega arith }

from_part_name-part_name_example :
    (from_part_name (part_name (codes "p") 3 7 1) ≡ some (sort_key (codes "p") 3 7))
    × (from_part_name (mutated_part_name (codes "p") 3 7 1 9) ≡ some (sort_key (codes "p") 3 7))
from_part_name-part_name_example =
    from_part_name-part_name (codes "p") 3 7 1 9 ((λ e. omega (arith, e)), tt) small_numbers
      (omega arith)
