-- ===== src/Watch/Resume.antt =====
-- What the decisions of `resume_state` in src/watch/mod.rs rest on.
use chbackup.Base.{
  ℕ, ◌-◌, ◌<◌, ◌≤◌, Bool, true, false, ◌||◌, ◌∙◌, Option, none, some, List, [], ◌∷◌, ◌≡◌, refl, sym,
  subst, inl, inr, ◌⊎◌, arith, if◌then◌else◌, leb, keep_if, mem-keep_if, keep_if-mem,
  find_first-some, Option-cases, Bool-cases, Memᴰ, mem-cons_cases,
}
use chbackup.Base.Text.{Text, is_empty, starts_with}
use chbackup.Base.Sort.{sort-perm, sort-IsSorted, IsSorted, mem-perm, All-mem}
use mathlib.Core.List.{Permᴰ}
use mathlib.Core.List.Permᴰ
use chbackup.Listing.{BackupSummary, stamp_leq}
use chbackup.Retention.Plan.{stamp_total, stamp_trans, older}
use chbackup.Watch.{
  ResumeDecision, full_now, incr_now, sleep_then_incr, BackupType, full, incr, is_type,
  is_candidate, has_stamp, matching_backups, last_backup, decide, resolve_template_prefix,
  classify_backup_type, find_type, resume_matching, resume_state,
}

abbrev newer : BackupSummary → BackupSummary → Bool
newer a b = stamp_leq b.timestamp a.timestamp

matching_backups-IsSorted :
    (template : Text) (backups : List BackupSummary)
    → IsSorted newer (matching_backups template backups)
unfolding matching_backups
matching_backups-IsSorted template backups =
    sort-IsSorted newer (λ a b h. stamp_total b.timestamp a.timestamp h)
      (λ a b c p q. stamp_trans c.timestamp b.timestamp a.timestamp q p)
      (keep_if (is_candidate (resolve_template_prefix template)) backups)

matching-perm :
    (template : Text) (backups : List BackupSummary)
    → Permᴰ
        (matching_backups template backups)
        (keep_if (is_candidate (resolve_template_prefix template)) backups)
unfolding matching_backups
matching-perm template backups =
    sort-perm newer (keep_if (is_candidate (resolve_template_prefix template)) backups)

newest_first :
    (b c : BackupSummary) (l : List BackupSummary)
    → ((x : Option ℕ) → stamp_leq x x ≡ true)
    → IsSorted newer (b ∷ l)
    → Memᴰ c (b ∷ l)
    → older c b ≡ true
newest_first b c l r s m = elim (mem-cons_cases m) [
  | inl e ↦ rw e (r b.timestamp)
  | inr t ↦ All-mem (λ z. newer b z ≡ true) l s.0 t
]

stamp_refl : (x : Option ℕ) → stamp_leq x x ≡ true
stamp_refl none = refl
stamp_refl (some t) = ground arith

type_full : (o : Option BackupType) → is_type full o ≡ true → o ≡ some full
type_full none h = absurd (cc h)
type_full (some full) h = refl
type_full (some incr) h = absurd (cc h)

-- A listed backup that counts: not broken, with a time, and with the prefix.
abbrev pub IsCandidate : Text → BackupSummary → Type 0
IsCandidate prefix b =
    (b.is_broken ≡ false) × ((t : ℕ) × (b.timestamp ≡ some t)) × (starts_with b.name prefix ≡ true)

stamped : (o : Option ℕ) → has_stamp o ≡ true → (t : ℕ) × (o ≡ some t)
stamped none h = absurd (cc h)
stamped (some t) h = (t, refl)

prefixed :
    (name prefix : Text) → (is_empty prefix || starts_with name prefix) ≡ starts_with name prefix
unfolding starts_with
prefixed name [] = refl
prefixed name (c ∷ p) = refl

is_candidate-IsCandidate :
    (prefix : Text) (b : BackupSummary) → is_candidate prefix b ≡ true → IsCandidate prefix b
unfolding is_candidate
is_candidate-IsCandidate prefix b h = (
  ground (arith, h),
  stamped b.timestamp (ground (arith, h)),
  sym (prefixed b.name prefix) ∙ ground (arith, h),
)

IsCandidate-is_candidate :
    (prefix : Text) (b : BackupSummary) → IsCandidate prefix b → is_candidate prefix b ≡ true
unfolding is_candidate
IsCandidate-is_candidate prefix b (n, (t, e), p) =
    let q = prefixed b.name prefix ∙ p in rw (n, e, q) refl

module _ (matches : Text → Text → Option Bool) where
  -- A full backup of the template, not broken, that is younger than the full interval.
  abbrev pub HasFreshFull : Text → List BackupSummary → ℕ → ℕ → Type 0
  HasFreshFull template backups full_interval now =
      (f : BackupSummary) × (t : ℕ) × Memᴰ f backups
      × IsCandidate (resolve_template_prefix template) f
      × (classify_backup_type matches template f.name ≡ some full)
      × (f.timestamp ≡ some t)
      × (now - t < full_interval)

  -- What a decision other than a full backup rests on, in the sorted list.
  decided :
      (template : Text) (watch_interval full_interval now : ℕ) (l : List BackupSummary)
      (d : ResumeDecision)
      → resume_matching matches template watch_interval full_interval now l ≡ d
      → (d ≡ full_now)
        ⊎ ((newest : BackupSummary) × (rest : List BackupSummary) × (f : BackupSummary) × (t : ℕ)
            × (last : ℕ) × (l ≡ newest ∷ rest)
            × (find_type matches template full l ≡ some f)
            × (f.timestamp ≡ some t)
            × (now - t < full_interval)
            × (d ≡ (
                if leb watch_interval (now - last)
                then incr_now newest.name
                else sleep_then_incr (watch_interval - (now - last)))))
  unfolding resume_matching decide
  decided template wi fi now [] d h = inl (sym h)
  decided template wi fi now (b ∷ l) d h =
      elim (Option-cases (find_type matches template full (b ∷ l))) [
        | inl e ↦ inl (ground (arith, h, e))
        | inr (f, e) ↦ elim (Option-cases f.timestamp) [
          | inl q ↦ inl (ground (arith, h, e, q))
          | inr (t, q) ↦ elim (Bool-cases (leb fi (now - t))) [
            | inl due ↦ inl (ground (arith, h, e, q, due))
            | inr fresh ↦ inr (
              b,
              l,
              f,
              t,
              last_backup t (find_type matches template incr (b ∷ l)),
              refl,
              e,
              q,
              ground (arith, fresh),
              ground (arith, h, e, q, fresh),
            )
          ]
        ]
      ]

  in_backups :
      (template : Text) (backups : List BackupSummary) (b : BackupSummary)
      → Memᴰ b (matching_backups template backups)
      → Memᴰ b backups × (is_candidate (resolve_template_prefix template) b ≡ true)
  in_backups template backups b m =
      mem-keep_if (is_candidate (resolve_template_prefix template)) backups
        (mem-perm (matching-perm template backups) m)

  fresh_full :
      (template : Text) (backups : List BackupSummary) (fi now t : ℕ) (f : BackupSummary)
      → find_type matches template full (matching_backups template backups) ≡ some f
      → f.timestamp ≡ some t
      → now - t < fi
      → HasFreshFull template backups fi now
  fresh_full template backups fi now t f e q k =
      let (m, p) =
        find_first-some
          (λ (b : BackupSummary). is_type full (classify_backup_type matches template b.name))
          (matching_backups template backups) e in
      let (n, c) = in_backups template backups f m in
      (
        f,
        t,
        n,
        is_candidate-IsCandidate _ f c,
        type_full (classify_backup_type matches template f.name) p,
        q,
        k,
      )

  -- An incremental backup is due only if there is a full backup of the template, not broken and
  -- younger than the full interval; its base is then the name of a listed backup that is not
  -- broken, has a time and the template's prefix, and no other such backup is newer.
  pub resume_state-incr :
      (backups : List BackupSummary) (template : Text) (watch_interval full_interval now : ℕ)
      (from : Text)
      → resume_state matches backups template watch_interval full_interval now ≡ incr_now from
      → HasFreshFull template backups full_interval now
        × ((b : BackupSummary) × Memᴰ b backups
            × IsCandidate (resolve_template_prefix template) b
            × (b.name ≡ from)
            × ((c : BackupSummary)
                → Memᴰ c backups
                → IsCandidate (resolve_template_prefix template) c
                → older c b ≡ true))
  unfolding resume_state
  resume_state-incr backups template wi fi now from h =
      elim (decided template wi fi now (matching_backups template backups) (incr_now from) h) [
        | inl e ↦ absurd (cc e)
        | inr (b, rest, f, t, last, l, e, q, k, d) ↦ elim (Bool-cases (leb wi (now - last))) [
          | inr early ↦ absurd (cc (rw early at d))
          | inl due ↦
              let named : b.name ≡ from = cc (rw due at d) in
              let (m, c) = in_backups template backups b (rw l (Memᴰ.head refl)) in
              let sorted = subst (IsSorted newer) l (matching_backups-IsSorted template backups) in
              (
                fresh_full template backups fi now t f e q k,
                (
                  b,
                  m,
                  is_candidate-IsCandidate _ b c,
                  named,
                  λ x mx cx. newest_first b x rest stamp_refl sorted (
                      subst (Memᴰ x) l (
                        mem-perm (Permᴰ.symm (matching-perm template backups)) (
                          keep_if-mem (is_candidate (resolve_template_prefix template)) backups mx
                            (IsCandidate-is_candidate _ x cx)))),
                ),
              )
        ]
      ]

  -- The loop sleeps only if there is a full backup of the template, not broken and younger than the
  -- full interval, and then for some time that is at most the watch interval.
  pub resume_state-sleep :
      (backups : List BackupSummary) (template : Text) (watch_interval full_interval now r : ℕ)
      → resume_state matches backups template watch_interval full_interval now ≡ sleep_then_incr r
      → HasFreshFull template backups full_interval now × (0 < r) × (r ≤ watch_interval)
  unfolding resume_state
  resume_state-sleep backups template wi fi now r h =
      elim (decided template wi fi now (matching_backups template backups) (sleep_then_incr r) h) [
        | inl e ↦ absurd (cc e)
        | inr (b, rest, f, t, last, l, e, q, k, d) ↦ elim (Bool-cases (leb wi (now - last))) [
          | inl due ↦ absurd (cc (rw due at d))
          | inr early ↦
              let same : r ≡ wi - (now - last) = cc (rw early at d) in
              (
                fresh_full template backups fi now t f e q k,
                ground (arith, same, early),
                ground (arith, same),
              )
        ]
      ]
