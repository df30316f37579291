-- ===== src/RestoreOrder/Graph.antt =====
-- The graph that topological_sort of src/restore/topo.rs builds, as the list of its edges.
use chbackup.Base.{
  ◌+◌, List, [], ◌∷◌, ◌++◌, ◌≡◌, refl, sym, ap, ap₂, ◌∙◌, subst, inl, inr, arith, if◌then◌else◌,
  Memᴰ, mem-cons_cases, mem-append_cases, mem-append_left, mem-append_right, Bool-cases,
}
use chbackup.Base.Text.{
  Text, text_eq, eq_of_text_eq, text_eq_comm, contains, contains_of_mem, mem_of_contains,
}
use chbackup.RestoreOrder.Topo.{
  Tables, depends_on, Graph, add_edge, add_dependencies, add_tables, build_graph,
}
use chbackup.RestoreOrder.Kahn.{targets, pending}
use chbackup.RestoreOrder.Drain.{Edges}

abbrev pub edges_of : List Text → Text → List Text → Edges
edges_of key_set key [] = []
edges_of key_set key (dep ∷ deps) =
    let rest = edges_of key_set key deps in if contains key_set dep then (dep, key) ∷ rest else rest

abbrev pub all_edges : Tables → List Text → List Text → Edges
all_edges tables key_set [] = []
all_edges tables key_set (key ∷ keys) =
    edges_of key_set key (depends_on tables key) ++ all_edges tables key_set keys

pub record Represents (g : Graph) (edges : Edges) : Type 0 where
  pub degrees : (n : Text) → g.in_degree n ≡ pending [] n edges
  pub neighbors : (v : Text) → g.adjacency v ≡ targets v edges

pending-append :
    (n s t : Text) (edges : Edges)
    → pending [] n (edges ++ (s, t) ∷ [])
      ≡ (if text_eq n t then pending [] n edges + 1 else pending [] n edges)
pending-append n s t [] = ground arith
pending-append n s t ((a, b) ∷ edges) = ground (arith, pending-append n s t edges)

targets-append :
    (v s t : Text) (edges : Edges)
    → targets v (edges ++ (s, t) ∷ [])
      ≡ (if text_eq s v then targets v edges ++ t ∷ [] else targets v edges)
targets-append v s t [] = refl
targets-append v s t ((a, b) ∷ edges) = ground (arith, targets-append v s t edges)

append_assoc : (l m n : Edges) → (l ++ m) ++ n ≡ l ++ (m ++ n)
append_assoc [] m n = refl
append_assoc (x ∷ l) m n = ap (λ (k : Edges). x ∷ k) (append_assoc l m n)

append_nil : (l : Edges) → l ++ [] ≡ l
append_nil [] = refl
append_nil (x ∷ l) = ap (λ (k : Edges). x ∷ k) (append_nil l)

add_edge-Represents :
    (s t : Text) (g : Graph) (edges : Edges)
    → Represents g edges
    → Represents (add_edge s t g) (edges ++ (s, t) ∷ [])
unfolding add_edge
add_edge-Represents s t g edges r = record {
  degrees = λ n. elim (Bool-cases (text_eq n t)) [
    | inl e ↦
        ground
          (arith, e, pending-append n s t edges, r.degrees n, ap g.in_degree (eq_of_text_eq n t e))
    | inr e ↦ ground (arith, e, pending-append n s t edges, r.degrees n)
  ];
  neighbors = λ v. elim (Bool-cases (text_eq v s)) [
    | inl e ↦ ground (
      arith,
      e,
      sym (text_eq_comm v s) ∙ e,
      targets-append v s t edges,
      r.neighbors v,
      ap g.adjacency (eq_of_text_eq v s e),
    )
    | inr e ↦
        ground (arith, e, sym (text_eq_comm v s) ∙ e, targets-append v s t edges, r.neighbors v)
  ];
}

add_dependencies-Represents :
    (key_set : List Text) (key : Text) (deps : List Text) (g : Graph) (edges : Edges)
    → Represents g edges
    → Represents (add_dependencies key_set key deps g) (edges ++ edges_of key_set key deps)
unfolding add_dependencies
add_dependencies-Represents key_set key [] g edges r =
    subst (Represents g) (sym (append_nil edges)) r
add_dependencies-Represents key_set key (dep ∷ deps) g edges r =
    elim (Bool-cases (contains key_set dep)) [
      | inl e ↦ rw e (
          subst (Represents _) (append_assoc edges ((dep, key) ∷ []) (edges_of key_set key deps)) (
            add_dependencies-Represents key_set key deps (add_edge dep key g)
              (edges ++ (dep, key) ∷ []) (add_edge-Represents dep key g edges r)))
      | inr e ↦ rw e (add_dependencies-Represents key_set key deps g edges r)
    ]

add_tables-Represents :
    (tables : Tables) (key_set keys : List Text) (g : Graph) (edges : Edges)
    → Represents g edges
    → Represents (add_tables tables key_set keys g) (edges ++ all_edges tables key_set keys)
unfolding add_tables
add_tables-Represents tables key_set [] g edges r = subst (Represents g) (sym (append_nil edges)) r
add_tables-Represents tables key_set (key ∷ keys) g edges r =
    let more = edges_of key_set key (depends_on tables key) in
    subst (Represents _) (append_assoc edges more (all_edges tables key_set keys)) (
      add_tables-Represents tables key_set keys _ (edges ++ more)
        (add_dependencies-Represents key_set key (depends_on tables key) g edges r))

pub build_graph-Represents :
    (tables : Tables) (keys : List Text)
    → Represents (build_graph tables keys) (all_edges tables keys keys)
unfolding build_graph
build_graph-Represents tables keys =
    add_tables-Represents tables keys keys _ []
      (record { degrees = λ n. refl; neighbors = λ v. refl })

-- An edge is a dependency of one of the keys that is one of the keys.
pub record IsEdge (tables : Tables) (key_set keys : List Text) (s n : Text) : Type 0 where
  pub dependent : Memᴰ n keys
  pub dependency : Memᴰ s (depends_on tables n)
  pub known : Memᴰ s key_set

edges_of-mem :
    (key_set : List Text) (key s n : Text) (deps : List Text)
    → Memᴰ (s, n) (edges_of key_set key deps)
    → (n ≡ key) × Memᴰ s deps × Memᴰ s key_set
edges_of-mem key_set key s n [] k = elim k [ ]
edges_of-mem key_set key s n (dep ∷ deps) k = elim (Bool-cases (contains key_set dep)) [
  | inl e ↦ elim (mem-cons_cases (rw e at k)) [
    | inl q ↦
        let here = ap (λ (x : Text × Text). x.0) q in
        (
          ap (λ (x : Text × Text). x.1) q,
          Memᴰ.head here,
          subst (λ x. Memᴰ x key_set) (sym here) (mem_of_contains dep key_set e),
        )
    | inr t ↦ later (edges_of-mem key_set key s n deps t)
  ]
  | inr e ↦ later (edges_of-mem key_set key s n deps (rw e at k))
]
  where
    later :
        (n ≡ key) × Memᴰ s deps × Memᴰ s key_set → (n ≡ key) × Memᴰ s (dep ∷ deps) × Memᴰ s key_set
    later (e, d, m) = (e, Memᴰ.tail d, m)

mem-edges_of :
    (key_set : List Text) (key s : Text) (deps : List Text)
    → Memᴰ s deps
    → Memᴰ s key_set
    → Memᴰ (s, key) (edges_of key_set key deps)
mem-edges_of key_set key s [] k m = elim k [ ]
mem-edges_of key_set key s (dep ∷ deps) (Memᴰ.head e) m =
    rw (ap (contains key_set) (sym e) ∙ contains_of_mem s key_set m)
      (Memᴰ.head (ap (λ (x : Text). (x, key)) e))
mem-edges_of key_set key s (dep ∷ deps) (Memᴰ.tail k) m = elim (Bool-cases (contains key_set dep)) [
  | inl e ↦ rw e (Memᴰ.tail (mem-edges_of key_set key s deps k m))
  | inr e ↦ rw e (mem-edges_of key_set key s deps k m)
]

pub all_edges-IsEdge :
    (tables : Tables) (key_set keys : List Text) (s n : Text)
    → Memᴰ (s, n) (all_edges tables key_set keys)
    → IsEdge tables key_set keys s n
all_edges-IsEdge tables key_set [] s n k = elim k [ ]
all_edges-IsEdge tables key_set (key ∷ keys) s n k =
    elim (mem-append_cases (edges_of key_set key (depends_on tables key)) _ k) [
      | inl a ↦
          let (e, d, m) = edges_of-mem key_set key s n (depends_on tables key) a in
          record {
            dependent = Memᴰ.head e;
            dependency = subst (λ x. Memᴰ s (depends_on tables x)) (sym e) d;
            known = m;
          }
      | inr b ↦
          let i = all_edges-IsEdge tables key_set keys s n b in
          record { dependent = Memᴰ.tail i.dependent; dependency = i.dependency; known = i.known }
    ]

pub IsEdge-all_edges :
    (tables : Tables) (key_set keys : List Text) (s n : Text)
    → Memᴰ n keys
    → Memᴰ s (depends_on tables n)
    → Memᴰ s key_set
    → Memᴰ (s, n) (all_edges tables key_set keys)
IsEdge-all_edges tables key_set [] s n k d m = elim k [ ]
IsEdge-all_edges tables key_set (key ∷ keys) s n (Memᴰ.head e) d m = mem-append_left _ _ (
    subst (λ x. Memᴰ (s, n) (edges_of key_set x (depends_on tables x))) e
      (mem-edges_of key_set n s (depends_on tables n) d m))
IsEdge-all_edges tables key_set (key ∷ keys) s n (Memᴰ.tail k) d m =
    mem-append_right (edges_of key_set key (depends_on tables key)) _
      (IsEdge-all_edges tables key_set keys s n k d m)

-- The targets of the edges from a node are keys.
pub targets-IsEdge : (v x : Text) (edges : Edges) → Memᴰ x (targets v edges) → Memᴰ (v, x) edges
targets-IsEdge v x [] k = elim k [ ]
targets-IsEdge v x ((a, b) ∷ edges) k = elim (Bool-cases (text_eq a v)) [
  | inl e ↦ elim (mem-cons_cases (rw e at k)) [
    | inl q ↦ Memᴰ.head (ap₂ (λ (y z : Text). (y, z)) (sym (eq_of_text_eq a v e)) q)
    | inr t ↦ Memᴰ.tail (targets-IsEdge v x edges t)
  ]
  | inr e ↦ Memᴰ.tail (targets-IsEdge v x edges (rw e at k))
]
