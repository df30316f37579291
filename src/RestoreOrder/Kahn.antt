-- ===== src/RestoreOrder/Kahn.antt =====
-- The loops of topological_sort in src/restore/topo.rs: what the degrees count, and what the queue
-- gives out.
use chbackup.Base.{
  ℕ, suc, ◌+◌, ◌-◌, ◌≤◌, ◌<◌, true, false, not, ◌&&◌, List, [], ◌∷◌, ◌≡◌, refl, ap, ◌∙◌, inl, inr,
  arith, if◌then◌else◌, ◌==◌, Memᴰ, mem-cons_cases, Bool-cases,
}
use chbackup.Base.Text.{Text, text_eq, eq_of_text_eq, text_eq_refl, contains}
use chbackup.Base.Distinct.{IsDistinct, IsPart}
use chbackup.RestoreOrder.Topo.{update, relax}

-- How often a text is in a list.
abbrev pub occurrences : Text → List Text → ℕ
occurrences n [] = 0
occurrences n (m ∷ l) = let rest = occurrences n l in if text_eq n m then suc rest else rest

-- The targets of the edges from `v`.
abbrev pub targets : Text → List (Text × Text) → List Text
targets v [] = []
targets v ((s, t) ∷ edges) = let rest = targets v edges in if text_eq s v then t ∷ rest else rest

-- The number of edges to `n` from nodes that are not done.
abbrev pub pending : List Text → Text → List (Text × Text) → ℕ
pending done n [] = 0
pending done n ((s, t) ∷ edges) =
    let rest = pending done n edges in
    if text_eq n t && not (contains done s) then suc rest else rest

update_same : (k : Text) (a : ℕ) (f : Text → ℕ) → update k a f k ≡ a
update_same k a f = rw (text_eq_refl k) refl

pub record Relaxed (neighbors : List Text) (degree degree' : Text → ℕ) (pushed : List Text)
    : Type 0 where
  pub lowered : (m : Text) → degree' m ≡ degree m - occurrences m neighbors
  pub reached : (m : Text) → Memᴰ m pushed → (degree' m ≡ 0) × (0 < degree m)
  pub all_reached : (m : Text) → degree' m ≡ 0 → 0 < degree m → Memᴰ m pushed
  pub distinct : IsDistinct pushed
  pub neighboring : IsPart pushed neighbors

pub relax-Relaxed :
    (neighbors : List Text) (degree : Text → ℕ)
    → ((m : Text) → occurrences m neighbors ≤ degree m)
    → Relaxed neighbors degree (relax neighbors degree).0 (relax neighbors degree).1
unfolding relax
relax-Relaxed [] degree h = record {
  lowered = λ m. omega arith;
  reached = λ m k. elim k [ ];
  all_reached = λ m z p. absurd (omega (arith, z, p));
  distinct = tt;
  neighboring = λ m k. k;
}
relax-Relaxed (n ∷ ns) degree h =
    let degree1 = update n (degree n - 1) degree in
    let rest = relax-Relaxed ns degree1 (λ m. room m) in
    elim (Bool-cases (degree n - 1 == 0)) [
      | inl e ↦ rw e (record {
        lowered = low rest;
        reached = λ m k. elim (mem-cons_cases k) [
          | inl q ↦ first rest m q e
          | inr t ↦ ((rest.reached m t).0, raised m (rest.reached m t).1)
        ];
        all_reached = λ m z p. elim (Bool-cases (after m == 0)) [
          | inl q ↦ Memᴰ.head (eq_of_text_eq m n (same m q p))
          | inr q ↦ Memᴰ.tail (rest.all_reached m z (ground (arith, q)))
        ];
        distinct = (
          (λ k.
              omega (arith, (rest.reached n k).1, update_same n (degree n - 1) degree, zero_of e)),
          rest.distinct,
        );
        neighboring = λ m k. elim (mem-cons_cases k) [
          | inl q ↦ Memᴰ.head q
          | inr t ↦ Memᴰ.tail (rest.neighboring m t)
        ];
      })
      | inr e ↦ rw e (record {
        lowered = low rest;
        reached = λ m k. ((rest.reached m k).0, raised m (rest.reached m k).1);
        all_reached = λ m z p. rest.all_reached m z (kept m p e);
        distinct = rest.distinct;
        neighboring = λ m k. Memᴰ.tail (rest.neighboring m k);
      })
    ]
  where
    after : Text → ℕ
    after = update n (degree n - 1) degree

    here : 0 < degree n
    here = ground (arith, h n, text_eq_refl n)

    room : (m : Text) → occurrences m ns ≤ after m
    room m = elim (Bool-cases (text_eq m n)) [
      | inl e ↦ ground (arith, e, ap degree (eq_of_text_eq m n e), h m)
      | inr e ↦ ground (arith, e, h m)
    ]

    low :
        {degree' : Text → ℕ} {pushed : List Text}
        → Relaxed ns after degree' pushed
        → (m : Text) → degree' m ≡ degree m - occurrences m (n ∷ ns)
    low r m = elim (Bool-cases (text_eq m n)) [
      | inl e ↦ ground (arith, e, ap degree (eq_of_text_eq m n e), r.lowered m)
      | inr e ↦ ground (arith, e, r.lowered m)
    ]

    zero_of : (degree n - 1 == 0) ≡ true → degree n - 1 ≡ 0
    zero_of e = ground (arith, e)

    raised : (m : Text) → 0 < after m → 0 < degree m
    raised m p = elim (Bool-cases (text_eq m n)) [
      | inl e ↦ ground (arith, e, ap degree (eq_of_text_eq m n e), p)
      | inr e ↦ ground (arith, e, p)
    ]

    same : (m : Text) → (after m == 0) ≡ true → 0 < degree m → text_eq m n ≡ true
    same m q p = elim (Bool-cases (text_eq m n)) [
      | inl e ↦ e
      | inr e ↦ absurd (ground (arith, e, q, p))
    ]

    kept : (m : Text) → 0 < degree m → (degree n - 1 == 0) ≡ false → 0 < after m
    kept m p f = elim (Bool-cases (text_eq m n)) [
      | inl e ↦ ground (arith, e, f)
      | inr e ↦ ground (arith, e, p)
    ]

    first :
        {degree' : Text → ℕ} {pushed : List Text}
        → Relaxed ns after degree' pushed
        → (m : Text) → m ≡ n
        → (degree n - 1 == 0) ≡ true
        → (degree' m ≡ 0) × (0 < degree m)
    first r m q e =
        let t : text_eq m n ≡ true = ap (λ x. text_eq x n) q ∙ text_eq_refl n in
        (ground (arith, low r m, t, ap degree q, zero_of e), omega (arith, ap degree q, here))

-- Taking a node off moves the edges from it out of the pending ones.
pub pending-done :
    (v n : Text) (done : List Text) (edges : List (Text × Text))
    → contains done v ≡ false
    → pending (v ∷ done) n edges + occurrences n (targets v edges) ≡ pending done n edges
pending-done v n done [] h = omega arith
pending-done v n done ((s, t) ∷ edges) h =
    let rest = pending-done v n done edges h in
    elim (Bool-cases (text_eq s v)) [
      | inl e ↦
          let fresh : contains done s ≡ false = ap (contains done) (eq_of_text_eq s v e) ∙ h in
          ground (arith, e, fresh, rest)
      | inr e ↦ ground (arith, e, rest)
    ]
