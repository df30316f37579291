-- ===== src/RestoreOrder/Topo.antt =====
-- src/restore/topo.rs: topological_sort. The hash maps of degrees and neighbours are functions, and
-- every key has an entry in both. The loop over the queue has one unit of fuel for each key.
use chbackup.Base.{
  ℕ, zero, suc, ◌+◌, ◌-◌, Bool, not, Option, none, some, List, [], ◌∷◌, ◌++◌, if◌then◌else◌, ◌==◌,
  leb, ltb, any, keep_if, length,
}
use chbackup.Base.Text.{Text, text_eq, contains, is_empty}
use chbackup.Base.Sort.{sort}
use chbackup.Manifest.{TableManifest}
use chbackup.RestoreOrder.{engine_restore_priority, find_table}

abbrev pub Tables : Type 0
Tables = List (Text × TableManifest)

abbrev pub restore_priority_of : Option TableManifest → ℕ
restore_priority_of none = 3
restore_priority_of (some tm) = engine_restore_priority tm.engine

unfoldable pub sort_by_priority : Tables → List Text → List Text
sort_by_priority tables keys =
    sort
      (λ a b.
        leb (restore_priority_of (find_table a tables)) (restore_priority_of (find_table b tables)))
      keys

abbrev pub dependencies_of : Option TableManifest → List Text
dependencies_of none = []
dependencies_of (some tm) = tm.dependencies

-- What the key's table depends on, if it is in the manifest.
unfoldable pub depends_on : Tables → Text → List Text
depends_on tables key = dependencies_of (find_table key tables)

unfoldable pub has_deps : Tables → List Text → Bool
has_deps tables keys = any (λ k. not (is_empty (depends_on tables k))) keys

pub record Graph : Type 0 where
  pub in_degree : Text → ℕ
  pub adjacency : Text → List Text

abbrev pub update {ℓ} : {A : Type ℓ} → Text → A → (Text → A) → Text → A
update key a f k = if text_eq k key then a else f k

unfoldable pub add_edge : Text → Text → Graph → Graph
add_edge dep key g = record {
  in_degree = update key (g.in_degree key + 1) g.in_degree;
  adjacency = update dep (g.adjacency dep ++ key ∷ []) g.adjacency;
}

unfoldable pub add_dependencies : List Text → Text → List Text → Graph → Graph
add_dependencies key_set key [] g = g
add_dependencies key_set key (dep ∷ deps) g =
    add_dependencies key_set key deps (if contains key_set dep then add_edge dep key g else g)

unfoldable pub add_tables : Tables → List Text → List Text → Graph → Graph
add_tables tables key_set [] g = g
add_tables tables key_set (key ∷ keys) g =
    add_tables tables key_set keys (add_dependencies key_set key (depends_on tables key) g)

unfoldable pub build_graph : Tables → List Text → Graph
build_graph tables keys =
    add_tables tables keys keys (record { in_degree = λ k. 0; adjacency = λ k. [] })

-- The loop over the neighbours: the degrees after it, and what it pushes.
unfoldable pub relax : List Text → (Text → ℕ) → (Text → ℕ) × List Text
relax [] degree = (degree, [])
relax (neighbor ∷ neighbors) degree =
    let left = degree neighbor - 1 in
    let (degree', pushed) = relax neighbors (update neighbor left degree) in
    (degree', if left == 0 then neighbor ∷ pushed else pushed)

-- The loop over the queue; a node is put before those of the later rounds.
unfoldable pub drain : (Text → List Text) → ℕ → (Text → ℕ) → List Text → List Text
drain adjacency zero degree queue = []
drain adjacency (suc fuel) degree [] = []
drain adjacency (suc fuel) degree (node ∷ queue) =
    let (degree', pushed) = relax (adjacency node) degree in
    node ∷ drain adjacency fuel degree' (queue ++ pushed)

unfoldable pub initial_queue : Tables → List Text → List Text
initial_queue tables keys =
    sort_by_priority tables (keep_if (λ k. (build_graph tables keys).in_degree k == 0) keys)

unfoldable pub kahn : Tables → List Text → List Text
kahn tables keys =
    let g = build_graph tables keys in
    drain g.adjacency (length keys) g.in_degree (initial_queue tables keys)

unfoldable pub with_remaining : Tables → List Text → List Text → List Text
with_remaining tables keys result =
    if ltb (length result) (length keys)
    then result ++ sort_by_priority tables (keep_if (λ k. not (contains result k)) keys)
    else result

unfoldable pub topological_sort : Tables → List Text → List Text
topological_sort tables keys =
    if has_deps tables keys
    then with_remaining tables keys (kahn tables keys)
    else sort_by_priority tables keys
