-- ===== src/RestoreOrder/Dependencies.antt =====
-- What topological_sort of src/restore/topo.rs gives: every key once, and dependencies first.
use mathlib.Core.List.{Permᴰ}
use mathlib.Core.List.Permᴰ
use chbackup.Base.{
  ◌≤◌, true, false, not, List, [], ◌∷◌, ◌++◌, ◌≡◌, refl, sym, ap, ◌∙◌, subst, ◌⊎◌, inl, inr, arith,
  ◌==◌, ltb, any_of_mem, keep_if, keep_if-mem, mem-keep_if, length, Memᴰ, mem-cons_cases,
  mem-append_cases, mem-append_left, mem-append_right, Bool-cases,
}
use chbackup.Base.Text.{Text, contains, contains_of_mem, mem_of_contains, is_empty}
use chbackup.Base.Sort.{sort-perm, mem-perm}
use chbackup.Base.Distinct.{
  IsAbsent, IsDistinct, IsDistinct-append, IsDistinct-keep_if, IsDistinct-perm, IsPart,
  length-IsPart, perm_of_parts,
}
use chbackup.RestoreOrder.Topo.{
  Tables, sort_by_priority, depends_on, has_deps, build_graph, initial_queue, kahn, with_remaining,
  topological_sort,
}
use chbackup.RestoreOrder.Drain.{Edges, Inv, IsOrdered, Drained, drain-Drained}
use chbackup.RestoreOrder.Graph.{
  all_edges, build_graph-Represents, all_edges-IsEdge, IsEdge-all_edges, targets-IsEdge,
}

-- A key that does not depend on a cycle: its dependencies among the keys do not.
pub data Grounded (tables : Tables) (keys : List Text) : Text → Type 0 where
  grounded :
      (key : Text)
      → ((dep : Text) → Memᴰ dep (depends_on tables key) → Memᴰ dep keys → Grounded tables keys dep)
      → Grounded tables keys key

abbrev pub IsBefore : Text → Text → List Text → Type 0
IsBefore s k l = (a : List Text) × (b : List Text) × (l ≡ a ++ k ∷ b) × Memᴰ s a

pub sort_by_priority-perm :
    (tables : Tables) (keys : List Text) → Permᴰ (sort_by_priority tables keys) keys
unfolding sort_by_priority
sort_by_priority-perm tables keys = sort-perm _ keys

split_at :
    (k : Text) (l : List Text) → Memᴰ k l → (a : List Text) × (b : List Text) × (l ≡ a ++ k ∷ b)
split_at k [] m = elim m [ ]
split_at k (x ∷ l) (Memᴰ.head e) = ([], l, ap (λ (y : Text). y ∷ l) (sym e))
split_at k (x ∷ l) (Memᴰ.tail m) =
    let (a, b, e) = split_at k l m in (x ∷ a, b, ap (λ (t : List Text). x ∷ t) e)

IsBefore-cons : (x s k : Text) (l : List Text) → IsBefore s k l → IsBefore s k (x ∷ l)
IsBefore-cons x s k l (a, b, e, m) = (x ∷ a, b, ap (λ (t : List Text). x ∷ t) e, Memᴰ.tail m)

IsBefore-append : (s k : Text) (l m : List Text) → IsBefore s k l → IsBefore s k (l ++ m)
IsBefore-append s k l m (a, b, e, h) = (a, b ++ m, ap (λ (t : List Text). t ++ m) e ∙ assoc a, h)
  where
    assoc : (a : List Text) → (a ++ k ∷ b) ++ m ≡ a ++ k ∷ (b ++ m)
    assoc [] = refl
    assoc (x ∷ a) = ap (λ (t : List Text). x ∷ t) (assoc a)

IsOrdered-IsBefore :
    (keys : List Text) (edges : Edges) (done l : List Text) (s k : Text)
    → IsOrdered keys edges done l
    → Memᴰ k l
    → Memᴰ (s, k) edges
    → Memᴰ s done ⊎ IsBefore s k l
IsOrdered-IsBefore keys edges done [] s k o m e = elim m [ ]
IsOrdered-IsBefore keys edges done (v ∷ l) s k o (Memᴰ.head q) e =
    inl (o.0 s (subst (λ x. Memᴰ (s, x) edges) q e))
IsOrdered-IsBefore keys edges done (v ∷ l) s k o (Memᴰ.tail m) e =
    elim (IsOrdered-IsBefore keys edges (v ∷ done) l s k o.1 m e) [
      | inr b ↦ inr (IsBefore-cons v s k l b)
      | inl d ↦ elim (mem-cons_cases d) [
        | inr t ↦ inl t
        | inl q ↦
            let (a, b, f) = split_at k l m in
            inr (v ∷ a, b, ap (λ (t : List Text). v ∷ t) f, Memᴰ.head q)
      ]
    ]

module _ (tables : Tables) (keys : List Text) (distinct : IsDistinct keys) where
  initial-Inv :
      Inv keys
        (all_edges tables keys keys)
        []
        (initial_queue tables keys)
        (build_graph tables keys).in_degree
  unfolding initial_queue
  initial-Inv =
      let g = build_graph tables keys in
      let r = build_graph-Represents tables keys in
      let zeros = keep_if (λ (k : Text). g.in_degree k == 0) keys in
      let p = sort_by_priority-perm tables zeros in
      record {
        done_distinct = tt;
        done_inside = λ x k. elim k [ ];
        queue_distinct = IsDistinct-perm (Permᴰ.symm p) (IsDistinct-keep_if _ keys distinct);
        queue_inside = λ x k. (mem-keep_if _ keys (mem-perm p k)).0;
        apart = λ x k d. elim d [ ];
        counts = r.degrees;
        zero_seen =
            λ n k z. inr (mem-perm (Permᴰ.symm p) (keep_if-mem _ keys k (ground (arith, z))));
        done_zero = λ n k. elim k [ ];
        queue_zero = λ n k.
            ground (arith, (mem-keep_if (λ (k : Text). g.in_degree k == 0) keys (mem-perm p k)).1);
      }

  kahn-Drained : Drained keys (all_edges tables keys keys) [] (kahn tables keys)
  unfolding kahn
  kahn-Drained =
      drain-Drained keys (all_edges tables keys keys) (build_graph tables keys).adjacency
        (build_graph-Represents tables keys).neighbors
        (λ v x k. (all_edges-IsEdge tables keys keys v x (targets-IsEdge v x _ k)).dependent)
        (length keys) [] (initial_queue tables keys) (build_graph tables keys).in_degree
        (omega arith) initial-Inv

  -- A key that does not depend on a cycle is given out by the loop.
  kahn-Grounded :
      (key : Text) → Grounded tables keys key → Memᴰ key keys → Memᴰ key (kahn tables keys)
  kahn-Grounded key (grounded _ f) m =
      elim (kahn-Drained.closed key m (λ s e.
        let i = all_edges-IsEdge tables keys keys s key e in
        inr (kahn-Grounded s (f s i.dependency i.known) i.known))) [
          | inl d ↦ elim d [ ]
          | inr k ↦ k
        ]

  with_remaining-perm : Permᴰ (with_remaining tables keys (kahn tables keys)) keys
  unfolding with_remaining
  with_remaining-perm = elim (Bool-cases (ltb (length l) (length keys))) [
    | inl e ↦ rw e (
        perm_of_parts (l ++ sort_by_priority tables rest) keys
          (IsDistinct-append l _ kahn-Drained.no_repeats
            (IsDistinct-perm (Permᴰ.symm p) (IsDistinct-keep_if _ keys distinct)) apart)
          distinct inside (λ x k. covered x k (Bool-cases (contains l x))))
    | inr e ↦ rw e (
        perm_of_parts l keys kahn-Drained.no_repeats distinct kahn-Drained.inside
          (λ x k. complete x k (ground (arith, e)) (Bool-cases (contains l x))))
  ]
    where
      l : List Text
      l = kahn tables keys

      rest : List Text
      rest = keep_if (λ (k : Text). not (contains l k)) keys

      p : Permᴰ (sort_by_priority tables rest) rest
      p = sort_by_priority-perm tables rest

      apart : (x : Text) → Memᴰ x l → IsAbsent x (sort_by_priority tables rest)
      apart x k m =
          let h = (mem-keep_if (λ (k : Text). not (contains l k)) keys (mem-perm p m)).1 in
          cc (h, contains_of_mem x l k)

      inside : IsPart (l ++ sort_by_priority tables rest) keys
      inside x k = elim (mem-append_cases l _ k) [
        | inl a ↦ kahn-Drained.inside x a
        | inr b ↦ (mem-keep_if (λ (k : Text). not (contains l k)) keys (mem-perm p b)).0
      ]

      covered :
          (x : Text)
          → Memᴰ x keys
          → (contains l x ≡ true) ⊎ (contains l x ≡ false)
          → Memᴰ x (l ++ sort_by_priority tables rest)
      covered x k (inl e) = mem-append_left l _ (mem_of_contains x l e)
      covered x k (inr e) =
          mem-append_right l _ (mem-perm (Permᴰ.symm p) (keep_if-mem _ keys k (ap not e)))

      complete :
          (x : Text)
          → Memᴰ x keys
          → length keys ≤ length l
          → (contains l x ≡ true) ⊎ (contains l x ≡ false)
          → Memᴰ x l
      complete x k h (inl e) = mem_of_contains x l e
      complete x k h (inr e) =
          let full =
            length-IsPart (x ∷ l) keys
              ((λ m. cc (e, contains_of_mem x l m)), kahn-Drained.no_repeats)
              (λ y m. elim (mem-cons_cases m) [
                | inl q ↦ subst (λ z. Memᴰ z keys) (sym q) k
                | inr t ↦ kahn-Drained.inside y t
              ]) in
          absurd (omega (arith, full, h))

  -- The sorted tables are the keys, each once, whatever depends on what.
  pub topological_sort-perm : Permᴰ (topological_sort tables keys) keys
  unfolding topological_sort
  topological_sort-perm = elim (Bool-cases (has_deps tables keys)) [
    | inl e ↦ rw e with_remaining-perm
    | inr e ↦ rw e (sort_by_priority-perm tables keys)
  ]

  -- A dependency that is itself sorted comes before the key that has it, unless the key depends on a
  -- cycle.
  pub topological_sort-IsBefore :
      (dep key : Text)
      → Memᴰ key keys
      → Memᴰ dep (depends_on tables key)
      → Memᴰ dep keys
      → Grounded tables keys key
      → IsBefore dep key (topological_sort tables keys)
  unfolding topological_sort with_remaining has_deps
  topological_sort-IsBefore dep key k d m g = elim (Bool-cases (has_deps tables keys)) [
    | inr e ↦ absurd (cc (sym e ∙ found))
    | inl e ↦ elim (Bool-cases (ltb (length (kahn tables keys)) (length keys))) [
      | inl f ↦ rw (e, f) (IsBefore-append dep key (kahn tables keys) _ drained)
      | inr f ↦ rw (e, f) drained
    ]
  ]
    where
      filled : {l : List Text} → Memᴰ dep l → is_empty l ≡ false
      filled (Memᴰ.head q) = refl
      filled (Memᴰ.tail t) = refl

      found : has_deps tables keys ≡ true
      found = any_of_mem (λ k. not (is_empty (depends_on tables k))) keys k (ap not (filled d))

      drained : IsBefore dep key (kahn tables keys)
      drained =
          elim (IsOrdered-IsBefore keys (all_edges tables keys keys) [] (kahn tables keys) dep key
            kahn-Drained.ordered (kahn-Grounded key g k)
            (IsEdge-all_edges tables keys keys dep key k d m)) [ inl n ↦ elim n [ ] | inr b ↦ b ]
