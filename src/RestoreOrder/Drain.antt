-- ===== src/RestoreOrder/Drain.antt =====
-- What the loop over the queue of topological_sort in src/restore/topo.rs gives out.
use chbackup.Base.{
  ℕ, zero, suc, ◌+◌, ◌≤◌, true, false, List, [], ◌∷◌, ◌++◌, ◌≡◌, refl, sym, ap, ◌∙◌, subst, ◌⊎◌,
  inl, inr, arith, ◌==◌, length, Memᴰ, mem-cons_cases, mem-append_cases, mem-append_left,
  mem-append_right, Bool-cases,
}
use chbackup.Base.Text.{
  Text, text_eq, eq_of_text_eq, text_eq_refl, contains, contains_of_mem, mem_of_contains,
  not_contains,
}
use chbackup.Base.Distinct.{IsAbsent, IsDistinct, IsDistinct-append, IsPart, length-IsPart}
use chbackup.RestoreOrder.Topo.{relax, drain}
use chbackup.RestoreOrder.Kahn.{occurrences, targets, pending, pending-done, Relaxed, relax-Relaxed}

abbrev pub Edges : Type 0
Edges = List (Text × Text)

-- Nothing is pending exactly if all sources are done.
sources_done :
    (done : List Text) (n s : Text) (edges : Edges)
    → pending done n edges ≡ 0
    → Memᴰ (s, n) edges
    → Memᴰ s done
sources_done done n s [] z k = elim k [ ]
sources_done done n s ((a, b) ∷ edges) z (Memᴰ.head e) =
    let same : text_eq n b ≡ true =
      ap (text_eq n) (sym (ap (λ (x : Text × Text). x.1) e)) ∙ text_eq_refl n in
    mem_of_contains s done
      (ap (contains done) (ap (λ (x : Text × Text). x.0) e) ∙ ground (arith, z, same))
sources_done done n s ((a, b) ∷ edges) z (Memᴰ.tail k) =
    sources_done done n s edges (ground (arith, z)) k

done_sources :
    (done : List Text) (n : Text) (edges : Edges)
    → ((s : Text) → Memᴰ (s, n) edges → Memᴰ s done)
    → pending done n edges ≡ 0
done_sources done n [] f = refl
done_sources done n ((a, b) ∷ edges) f =
    let rest = done_sources done n edges (λ s k. f s (Memᴰ.tail k)) in
    elim (Bool-cases (text_eq n b)) [
      | inl e ↦
          let taken : contains done a ≡ true =
            contains_of_mem a done
              (f a (Memᴰ.head (ap (λ (x : Text). (a, x)) (eq_of_text_eq n b e)))) in
          ground (arith, e, taken, rest)
      | inr e ↦ ground (arith, e, rest)
    ]

module _ (keys : List Text) (edges : Edges) where
  -- What the loop keeps, with the nodes that are done, the queue and the degrees.
  pub record Inv (done queue : List Text) (degree : Text → ℕ) : Type 0 where
    pub done_distinct : IsDistinct done
    pub done_inside : IsPart done keys
    pub queue_distinct : IsDistinct queue
    pub queue_inside : IsPart queue keys
    pub apart : (x : Text) → Memᴰ x queue → IsAbsent x done
    pub counts : (n : Text) → degree n ≡ pending done n edges
    pub zero_seen : (n : Text) → Memᴰ n keys → degree n ≡ 0 → Memᴰ n done ⊎ Memᴰ n queue
    pub done_zero : (n : Text) → Memᴰ n done → degree n ≡ 0
    pub queue_zero : (n : Text) → Memᴰ n queue → degree n ≡ 0

  -- Each node comes behind the sources of its edges.
  abbrev pub IsOrdered : List Text → List Text → Type 0
  IsOrdered done [] = Unit
  IsOrdered done (v ∷ l) = ((s : Text) → Memᴰ (s, v) edges → Memᴰ s done) × IsOrdered (v ∷ done) l

  pub record Drained (done l : List Text) : Type 0 where
    pub ordered : IsOrdered done l
    pub no_repeats : IsDistinct l
    pub new : (x : Text) → Memᴰ x l → IsAbsent x done
    pub inside : IsPart l keys
    pub closed :
        (n : Text)
        → Memᴰ n keys
        → ((s : Text) → Memᴰ (s, n) edges → Memᴰ s done ⊎ Memᴰ s l)
        → Memᴰ n done ⊎ Memᴰ n l

  module _ (adjacency : Text → List Text)
      (neighbors_of : (v : Text) → adjacency v ≡ targets v edges)
      (within : (v : Text) → IsPart (targets v edges) keys) where
    step-Inv :
        (v : Text) (done queue : List Text) (degree : Text → ℕ)
        → Inv done (v ∷ queue) degree
        → Inv (v ∷ done) (queue ++ (relax (adjacency v) degree).1) (relax (adjacency v) degree).0
    step-Inv v done queue degree i =
        subst
          (λ (ns : List Text). Inv (v ∷ done) (queue ++ (relax ns degree).1) (relax ns degree).0)
          (sym (neighbors_of v)) stepped
      where
        fresh : contains done v ≡ false
        fresh = not_contains v done (i.apart v (Memᴰ.head refl))

        split : (m : Text) → pending (v ∷ done) m edges + occurrences m (targets v edges) ≡ degree m
        split m = pending-done v m done edges fresh ∙ sym (i.counts m)

        r :
            Relaxed
              (targets v edges)
              degree
              (relax (targets v edges) degree).0
              (relax (targets v edges) degree).1
        r = relax-Relaxed (targets v edges) degree (λ m. omega (arith, split m))

        still_zero : (m : Text) → degree m ≡ 0 → (relax (targets v edges) degree).0 m ≡ 0
        still_zero m z = omega (arith, z, r.lowered m)

        zero_done : (m : Text) → Memᴰ m (v ∷ done) → degree m ≡ 0
        zero_done m k = elim (mem-cons_cases k) [
          | inl e ↦ i.queue_zero m (Memᴰ.head e)
          | inr t ↦ i.done_zero m t
        ]

        seen :
            (n : Text)
            → Memᴰ n keys
            → (relax (targets v edges) degree).0 n ≡ 0
            → ((degree n == 0) ≡ true) ⊎ ((degree n == 0) ≡ false)
            → Memᴰ n (v ∷ done) ⊎ Memᴰ n (queue ++ (relax (targets v edges) degree).1)
        seen n k z (inl e) = elim (i.zero_seen n k (ground (arith, e))) [
          | inl d ↦ inl (Memᴰ.tail d)
          | inr q ↦ elim (mem-cons_cases q) [
            | inl h ↦ inl (Memᴰ.head h)
            | inr t ↦ inr (mem-append_left queue _ t)
          ]
        ]
        seen n k z (inr e) = inr (mem-append_right queue _ (r.all_reached n z (ground (arith, e))))

        stepped :
            Inv
              (v ∷ done)
              (queue ++ (relax (targets v edges) degree).1)
              (relax (targets v edges) degree).0
        stepped = record {
          done_distinct = (i.apart v (Memᴰ.head refl), i.done_distinct);
          done_inside = λ x k. elim (mem-cons_cases k) [
            | inl e ↦ i.queue_inside x (Memᴰ.head e)
            | inr t ↦ i.done_inside x t
          ];
          queue_distinct =
              IsDistinct-append queue _ i.queue_distinct.1 r.distinct
                (λ x a b. omega (arith, i.queue_zero x (Memᴰ.tail a), (r.reached x b).1));
          queue_inside = λ x k. elim (mem-append_cases queue _ k) [
            | inl a ↦ i.queue_inside x (Memᴰ.tail a)
            | inr b ↦ within v x (r.neighboring x b)
          ];
          apart = λ x k. elim (mem-append_cases queue _ k) [
            | inl a ↦ λ d. elim (mem-cons_cases d) [
              | inl e ↦ i.queue_distinct.0 (subst (λ y. Memᴰ y queue) e a)
              | inr t ↦ i.apart x (Memᴰ.tail a) t
            ]
            | inr b ↦ λ d. omega (arith, zero_done x d, (r.reached x b).1)
          ];
          counts = λ n. omega (arith, r.lowered n, split n);
          zero_seen = λ n k z. seen n k z (Bool-cases (degree n == 0));
          done_zero = λ n k. still_zero n (zero_done n k);
          queue_zero = λ n k. elim (mem-append_cases queue _ k) [
            | inl a ↦ still_zero n (i.queue_zero n (Memᴰ.tail a))
            | inr b ↦ (r.reached n b).0
          ];
        }

    -- At the end of the queue.
    nothing_left : (done : List Text) (degree : Text → ℕ) → Inv done [] degree → Drained done []
    nothing_left done degree i = record {
      ordered = tt;
      no_repeats = tt;
      new = λ x k. elim k [ ];
      inside = λ x k. elim k [ ];
      closed = λ n k f. i.zero_seen n k (
          i.counts n
          ∙ done_sources done n edges (λ s m. elim (f s m) [ inl d ↦ d | inr e ↦ elim e [ ] ]));
    }

    -- A node in front of what the rest of the loop gives out.
    next :
        (v : Text) (done queue l : List Text) (degree : Text → ℕ)
        → Inv done (v ∷ queue) degree
        → Drained (v ∷ done) l
        → Drained done (v ∷ l)
    next v done queue l degree i d = record {
      ordered = (
        (λ s m. sources_done done v s edges (sym (i.counts v) ∙ i.queue_zero v (Memᴰ.head refl)) m),
        d.ordered,
      );
      no_repeats = ((λ k. d.new v k (Memᴰ.head refl)), d.no_repeats);
      new = λ x k. elim (mem-cons_cases k) [
        | inl e ↦ i.apart x (Memᴰ.head e)
        | inr t ↦ λ m. d.new x t (Memᴰ.tail m)
      ];
      inside = λ x k. elim (mem-cons_cases k) [
        | inl e ↦ i.queue_inside x (Memᴰ.head e)
        | inr t ↦ d.inside x t
      ];
      closed = λ n k f. turn (d.closed n k (λ s m. back (f s m)));
    }
      where
        turn : {n : Text} → Memᴰ n (v ∷ done) ⊎ Memᴰ n l → Memᴰ n done ⊎ Memᴰ n (v ∷ l)
        turn (inl a) = elim (mem-cons_cases a) [ inl e ↦ inr (Memᴰ.head e) | inr t ↦ inl t ]
        turn (inr b) = inr (Memᴰ.tail b)

        back : {n : Text} → Memᴰ n done ⊎ Memᴰ n (v ∷ l) → Memᴰ n (v ∷ done) ⊎ Memᴰ n l
        back (inl a) = inl (Memᴰ.tail a)
        back (inr b) = elim (mem-cons_cases b) [ inl e ↦ inl (Memᴰ.head e) | inr t ↦ inr t ]

    -- With fuel for all keys that are not done, the loop empties the queue.
    pub drain-Drained :
        (fuel : ℕ) (done queue : List Text) (degree : Text → ℕ)
        → length keys ≤ length done + fuel
        → Inv done queue degree
        → Drained done (drain adjacency fuel degree queue)
    unfolding drain
    drain-Drained zero done [] degree h i = nothing_left done degree i
    drain-Drained zero done (v ∷ queue) degree h i =
        let full =
          length-IsPart (v ∷ done) keys (i.apart v (Memᴰ.head refl), i.done_distinct)
            (λ x k. elim (mem-cons_cases k) [
              | inl e ↦ i.queue_inside x (Memᴰ.head e)
              | inr t ↦ i.done_inside x t
            ]) in
        absurd (omega (arith, full, h))
    drain-Drained (suc fuel) done [] degree h i = nothing_left done degree i
    drain-Drained (suc fuel) done (v ∷ queue) degree h i =
        next v done queue _ degree i
          (drain-Drained fuel (v ∷ done) _ _ (omega (arith, h)) (step-Inv v done queue degree i))
