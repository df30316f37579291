-- ===== src/CleanBroken/Plan.antt =====
-- When `plan_clean_broken_deletion` of src/list.rs clears a broken backup for deletion.
use chbackup.Base.{
  ℕ, ◌-◌, ◌≤◌, Bool, true, false, not, Option, none, some, List, [], ◌∷◌, ◌≡◌, ◌≢◌, ◌↔◌, refl, sym,
  ap, ◌∙◌, inl, inr, arith, keep_if, ltb, Bool-cases,
}
use chbackup.Base.Text.{Text, is_empty}
use chbackup.Retention.{is_key_protected}
use chbackup.CleanBroken.{delete, plan_clean_broken_deletion}

abbrev pub unprotected : List Text → List Text → List Text
unprotected candidates protected = keep_if (λ key. not (is_key_protected key protected)) candidates

module _ (candidates : List Text) (now min_age : ℕ) (protected keys : List Text) where
  -- What a plan that deletes `keys` asks for.
  abbrev pub IsCleared : Bool → Option ℕ → Type 0
  IsCleared live newest =
      (live ≡ false)
      × ((t : ℕ) × (newest ≡ some t) × (min_age ≤ now - t))
      × (keys ≡ unprotected candidates protected)
      × (keys ≢ [])

  cleared :
      (live : Bool) (newest : Option ℕ)
      → plan_clean_broken_deletion candidates newest now min_age live protected ≡ delete keys
      → IsCleared live newest
  unfolding plan_clean_broken_deletion
  cleared true newest h = absurd (cc h)
  cleared false none h = absurd (cc h)
  cleared false (some t) h = elim (Bool-cases (ltb (now - t) min_age)) [
    | inl young ↦ absurd (cc (rw young at h))
    | inr old ↦ elim (Bool-cases (is_empty (unprotected candidates protected))) [
      | inl empty ↦ absurd (cc (rw (old, empty) at h))
      | inr full ↦
          let same : keys ≡ unprotected candidates protected = cc (rw (old, full) at h) in
          (
            refl,
            (t, refl, ground (arith, old)),
            same,
            λ e. cc (ap (λ (x : List Text). is_empty x) (sym same ∙ e), full),
          )
    ]
  ]

  clears :
      (live : Bool) (newest : Option ℕ)
      → IsCleared live newest
      → plan_clean_broken_deletion candidates newest now min_age live protected ≡ delete keys
  unfolding plan_clean_broken_deletion
  clears live newest (l, (t, n, age), k, ne) =
      elim (Bool-cases (is_empty (unprotected candidates protected))) [
        | inl empty ↦ absurd (ne (k ∙ none_left (unprotected candidates protected) empty))
        | inr full ↦ ground (arith, l, n, age, k, full)
      ]
    where
      none_left : (x : List Text) → is_empty x ≡ true → x ≡ []
      none_left [] h = refl
      none_left (y ∷ x) h = absurd (cc h)

-- A plan deletes exactly the candidates that no survivor protects, and only if there is one, the
-- lock is free, and the newest object is known and at least as old as is asked.
pub plan_clean_broken_deletion_iff :
    (candidates : List Text) (newest : Option ℕ) (now min_age : ℕ) (live : Bool)
    (protected keys : List Text)
    → (plan_clean_broken_deletion candidates newest now min_age live protected ≡ delete keys) ↔ (
        (live ≡ false)
        × ((t : ℕ) × (newest ≡ some t) × (min_age ≤ now - t))
        × (keys ≡ unprotected candidates protected)
        × (keys ≢ []))
plan_clean_broken_deletion_iff candidates newest now min_age live protected keys = (
  cleared candidates now min_age protected keys live newest,
  clears candidates now min_age protected keys live newest,
)
