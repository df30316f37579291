-- ===== src/CleanBroken/Pass.antt =====
-- The pass of `clean_broken_remote` in src/list.rs: it fails closed, and keeps what a valid backup
-- refers to and what is locked.
use chbackup.Base.{
  ℕ, Bool, true, false, not, Option, none, some, List, [], ◌∷◌, ◌++◌, map, ◌≡◌, ◌⊎◌, refl, sym, ap,
  ◌∙◌, subst, inl, inr, arith, keep_if, mem-keep_if, keep_if-mem, Memᴰ, mem-cons_cases,
  Option-cases, ok, err, Result-cases,
}
use chbackup.Base.Text.{Text, contains, not_contains, is_empty}
use chbackup.Manifest.{BackupManifest}
use chbackup.Listing.{BackupSummary}
use chbackup.Retention.{is_key_protected, collect_key_prefixes_from_manifest}
use chbackup.Retention.Keys.{protected-append_left, protected-append_right}
use chbackup.Lock.{Host, Directory}
use chbackup.CleanBroken.{
  SkipReason, CleanBrokenPlan, skip_backup, delete, plan_clean_broken_deletion, Bucket, newest_of,
  strip_s3_prefix, lock_is_live, unreadable_manifest, protect, apply_clean_broken_plan, clean_one,
  clean_all, clean_broken_remote,
}
use chbackup.CleanBroken.Plan.{plan_clean_broken_deletion_iff, unprotected}

unprotected-protected :
    (candidates protected : List Text) (key : Text)
    → is_key_protected key protected ≡ true
    → contains (unprotected candidates protected) key ≡ false
unprotected-protected candidates protected key h =
    not_contains key (unprotected candidates protected) (λ m.
      ground (arith, h, (mem-keep_if (λ k. not (is_key_protected k protected)) candidates m).1))

module _ (bucket : Bucket) where
  open bucket use {State, get_manifest, list_objects, delete_objects}

  protect-err :
      (s : State) (bs : List BackupSummary) (protected : List Text) (b : BackupSummary)
      → Memᴰ b bs
      → get_manifest s b.name ≡ none
      → (n : Text) × (protect bucket s bs protected ≡ err (unreadable_manifest n))
  unfolding protect
  protect-err s [] protected b m e = elim m [ ]
  protect-err s (c ∷ bs) protected b m e = elim (Option-cases (get_manifest s c.name)) [
    | inl q ↦ (c.name, rw (q, protect) refl)
    | inr (manifest, q) ↦ elim (mem-cons_cases m) [
      | inl same ↦ absurd (cc (ap (λ (x : BackupSummary). get_manifest s x.name) same))
      | inr t ↦
          rw (q, protect)
            (protect-err s bs (protected ++ collect_key_prefixes_from_manifest manifest) b t e)
    ]
  ]

  protect-keeps :
      (s : State) (bs : List BackupSummary) (protected out : List Text) (key : Text)
      → protect bucket s bs protected ≡ ok out
      → is_key_protected key protected ≡ true
      → is_key_protected key out ≡ true
  unfolding protect
  protect-keeps s [] protected out key g h =
      let e : protected ≡ out = cc in subst (λ (r : List Text). is_key_protected key r ≡ true) e h
  protect-keeps s (c ∷ bs) protected out key g h = elim (Option-cases (get_manifest s c.name)) [
    | inl q ↦ absurd (cc (rw (q, protect) at g))
    | inr (manifest, q) ↦
        protect-keeps s bs (protected ++ collect_key_prefixes_from_manifest manifest) out key
          (rw (q, protect) at g)
          (protected-append_left key protected (collect_key_prefixes_from_manifest manifest) h)
  ]

  protect-protects :
      (s : State) (bs : List BackupSummary) (protected out : List Text) (b : BackupSummary)
      (manifest : BackupManifest) (key : Text)
      → protect bucket s bs protected ≡ ok out
      → Memᴰ b bs
      → get_manifest s b.name ≡ some manifest
      → is_key_protected key (collect_key_prefixes_from_manifest manifest) ≡ true
      → is_key_protected key out ≡ true
  unfolding protect
  protect-protects s [] protected out b manifest key g m f h = elim m [ ]
  protect-protects s (c ∷ bs) protected out b manifest key g m f h =
      elim (Option-cases (get_manifest s c.name)) [
        | inl q ↦ absurd (cc (rw (q, protect) at g))
        | inr (other, q) ↦ elim (mem-cons_cases m) [
          | inl same ↦
              let found : other ≡ manifest =
                cc (ap (λ (x : BackupSummary). get_manifest s x.name) same) in
              protect-keeps s bs (protected ++ collect_key_prefixes_from_manifest other) out key
                (rw (q, protect) at g)
                (protected-append_right key protected (collect_key_prefixes_from_manifest other) (
                  subst
                    (λ (x : BackupManifest).
                      is_key_protected key (collect_key_prefixes_from_manifest x) ≡ true)
                    (sym found) h))
          | inr t ↦
              protect-protects s bs (protected ++ collect_key_prefixes_from_manifest other) out b
                manifest key (rw (q, protect) at g) t f h
        ]
      ]

-- A plan is to skip, or to delete keys of the given ones that nothing protects.
plan_cases :
    (candidates : List Text) (newest : Option ℕ) (now min_age : ℕ) (live : Bool)
    (protected : List Text)
    → ((reason : SkipReason) × (plan_clean_broken_deletion candidates newest now min_age live
            protected
          ≡ skip_backup reason))
      ⊎ ((plan_clean_broken_deletion candidates newest now min_age live protected
            ≡ delete (unprotected candidates protected))
          × (live ≡ false))
plan_cases candidates newest now min_age live protected =
    go (plan_clean_broken_deletion candidates newest now min_age live protected) refl
  where
    go :
        (p : CleanBrokenPlan)
        → plan_clean_broken_deletion candidates newest now min_age live protected ≡ p
        → ((reason : SkipReason) × (plan_clean_broken_deletion candidates newest now min_age live
                protected
              ≡ skip_backup reason))
          ⊎ ((plan_clean_broken_deletion candidates newest now min_age live protected
                ≡ delete (unprotected candidates protected))
              × (live ≡ false))
    go (skip_backup reason) e = inl (reason, e)
    go (delete keys) e =
        let (l, t, k, ne) =
          (plan_clean_broken_deletion_iff candidates newest now min_age live protected keys).0 e in
        inr (e ∙ ap delete k, l)

module _ (bucket : Bucket) (host : Host) (directory : Directory) (prefix : Text)
    (now min_age : ℕ) where
  open bucket use {State, get_manifest, list_objects, delete_objects}

  -- If there is a broken backup and the manifest of any valid one cannot be read, the pass reports
  -- an error and leaves the bucket as it was.
  pub clean_broken_remote-fails_closed :
      (backups : List BackupSummary) (s : State) (broken valid : BackupSummary)
      → Memᴰ broken backups
      → broken.is_broken ≡ true
      → Memᴰ valid backups
      → valid.is_broken ≡ false
      → get_manifest s valid.name ≡ none
      → (n : Text) × (clean_broken_remote bucket host directory prefix now min_age backups s
          ≡ (s, err (unreadable_manifest n)))
  unfolding clean_broken_remote
  clean_broken_remote-fails_closed backups s broken valid mb b mv v e =
      let some_broken =
        nonempty (keep_if (λ x. x.is_broken) backups)
          (keep_if-mem (λ (x : BackupSummary). x.is_broken) backups mb b) in
      let (n, q) =
        protect-err bucket s (keep_if (λ x. not x.is_broken) backups) [] valid
          (keep_if-mem (λ (x : BackupSummary). not x.is_broken) backups mv (ground (arith, v))) e in
      (n, ground (arith, some_broken, q))
    where
      nonempty : {x : BackupSummary} (l : List BackupSummary) → Memᴰ x l → is_empty l ≡ false
      nonempty [] m = elim m [ ]
      nonempty (y ∷ l) m = refl

  -- A broken backup whose lock a live process holds is left alone.
  pub clean_one-locked :
      (protected : List Text) (name : Text) (s : State) (deleted : ℕ)
      → lock_is_live host directory name ≡ true
      → clean_one bucket host directory prefix now min_age protected name s deleted ≡ (s, deleted)
  unfolding clean_one apply_clean_broken_plan
  clean_one-locked protected name s deleted h =
      elim (Option-cases (list_objects s (name ++ b'/' ∷ []))) [
        | inl q ↦ ground (arith, q)
        | inr (objects, q) ↦
            elim (plan_cases (map (λ o. strip_s3_prefix o.key prefix) objects) (newest_of objects)
              now min_age (lock_is_live host directory name) protected) [
                | inl (reason, p) ↦ ground (arith, q, p)
                | inr (p, free) ↦ absurd (cc (h, free))
              ]
      ]

  module _ (present : State → Text → Bool)
      (frame : (s : State) (keys : List Text) (key : Text)
        → contains keys key ≡ false
        → present (delete_objects s keys).0 key ≡ present s key) where
    clean_one-frame :
        (protected : List Text) (name : Text) (s : State) (deleted : ℕ) (key : Text)
        → is_key_protected key protected ≡ true
        → present
            (clean_one bucket host directory prefix now min_age protected name s deleted).0
            key
          ≡ present s key
    unfolding clean_one apply_clean_broken_plan
    clean_one-frame protected name s deleted key h =
        elim (Option-cases (list_objects s (name ++ b'/' ∷ []))) [
          | inl q ↦ ground (arith, q)
          | inr (objects, q) ↦
              let candidates = map (λ o. strip_s3_prefix o.key prefix) objects in
              elim (plan_cases candidates (newest_of objects) now min_age
                (lock_is_live host directory name) protected) [
                  | inl (reason, p) ↦ ground (arith, q, p)
                  | inr (p, free) ↦ ground (
                    arith,
                    q,
                    p,
                    frame s (unprotected candidates protected) key
                        (unprotected-protected candidates protected key h),
                  )
                ]
        ]

    clean_all-frame :
        (protected : List Text) (bs : List BackupSummary) (s : State) (deleted : ℕ) (key : Text)
        → is_key_protected key protected ≡ true
        → present (clean_all bucket host directory prefix now min_age protected bs s deleted).0 key
          ≡ present s key
    unfolding clean_all
    clean_all-frame protected [] s deleted key h = refl
    clean_all-frame protected (b ∷ bs) s deleted key h =
        let (s', deleted') =
          clean_one bucket host directory prefix now min_age protected b.name s deleted in
        clean_all-frame protected bs s' deleted' key h
        ∙ clean_one-frame protected b.name s deleted key h

    -- A key that the manifest of a valid backup protects is present after the pass exactly if it
    -- was before, whatever the listings say and whichever requests fail.
    pub clean_broken_remote-keeps :
        (backups : List BackupSummary) (s : State) (valid : BackupSummary)
        (manifest : BackupManifest) (key : Text)
        → Memᴰ valid backups
        → valid.is_broken ≡ false
        → get_manifest s valid.name ≡ some manifest
        → is_key_protected key (collect_key_prefixes_from_manifest manifest) ≡ true
        → present (clean_broken_remote bucket host directory prefix now min_age backups s).0 key
          ≡ present s key
    unfolding clean_broken_remote
    clean_broken_remote-keeps backups s valid manifest key m v f h =
        elim (Result-cases (protect bucket s (keep_if (λ b. not b.is_broken) backups) [])) [
          | inl (e, q) ↦ ground (arith, q)
          | inr (protected, q) ↦
              let safe =
                protect-protects bucket s (keep_if (λ b. not b.is_broken) backups) [] protected
                  valid manifest key q
                  (keep_if-mem (λ (x : BackupSummary). not x.is_broken) backups m
                    (ground (arith, v)))
                  f h in
              ground (
                arith,
                q,
                clean_all-frame protected (keep_if (λ b. b.is_broken) backups) s 0 key safe,
              )
        ]
