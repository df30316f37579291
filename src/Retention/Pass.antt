-- ===== src/Retention/Pass.antt =====
-- The retention pass of src/list.rs: it fails closed, and it never deletes what a survivor
-- still refers to.
use chbackup.Base.{
  Bool, true, false, none, some, List, [], ◌∷◌, ◌++◌, ◌≡◌, ◌≢◌, refl, sym, ap, ◌∙◌, subst, inl, inr,
  arith, Memᴰ, Bool-cases, Option-cases, mem-cons_cases, ok, err, Result-cases,
}
use chbackup.Base.Text.{Text, contains, text_eq, not_contains, text_ne}
use chbackup.Manifest.{BackupManifest}
use chbackup.Retention.{
  RetentionPlan, RetentionOutcome, unreadable_manifest, ObjectStore, References, no_references,
  add_references, collect_key_prefixes_from_manifest, is_key_protected, manifest_key, split_keys,
  gather, delete_backup, sweep_listed, sweep_one, sweep, retention_remote_inner,
}
use chbackup.Retention.Keys.{protected-append_left, protected-append_right}

-- No key that is handed to the deletion of data is protected, or the candidate's own manifest.
split_keys-unprotected :
    (own : Text) (protected keys : List Text) (key : Text)
    → Memᴰ key (split_keys own protected keys).0
    → is_key_protected key protected ≡ false
unfolding split_keys
split_keys-unprotected own protected [] key m = elim m [ ]
split_keys-unprotected own protected (k ∷ keys) key m = elim (Bool-cases (text_eq k own)) [
  | inl e ↦ split_keys-unprotected own protected keys key (rw e at m)
  | inr e ↦ elim (Bool-cases (is_key_protected k protected)) [
    | inl p ↦ split_keys-unprotected own protected keys key (rw (e, p) at m)
    | inr p ↦ elim (mem-cons_cases (rw (e, p) at m)) [
      | inl q ↦ subst (λ (x : Text). is_key_protected x protected ≡ false) (sym q) p
      | inr n ↦ split_keys-unprotected own protected keys key n
    ]
  ]
]

module _ (store : ObjectStore) where
  open store use {State, fetch_manifest, list_prefix, delete_keys}

  gather-err :
      (s : State) (names : List Text) (refs : References) (name : Text)
      → Memᴰ name names
      → fetch_manifest s name ≡ none
      → (n : Text) × (gather store s names refs ≡ err (unreadable_manifest n))
  unfolding gather
  gather-err s [] refs name m e = elim m [ ]
  gather-err s (n ∷ names) refs name m e = elim (Option-cases (fetch_manifest s n)) [
    | inl q ↦ (n, rw (q, gather) refl)
    | inr (manifest, q) ↦ elim (mem-cons_cases m) [
      | inl same ↦ absurd (cc (ap (fetch_manifest s) same))
      | inr t ↦ rw (q, gather) (gather-err s names (add_references refs manifest) name t e)
    ]
  ]

  -- If the manifest of any surviving backup cannot be read, the pass reports an error and leaves
  -- the store as it was.
  pub retention_remote_inner-fails_closed :
      (plan : RetentionPlan) (s : State) (name : Text)
      → Memᴰ name plan.surviving
      → fetch_manifest s name ≡ none
      → (n : Text) × (retention_remote_inner store plan s ≡ (s, err (unreadable_manifest n)))
  unfolding retention_remote_inner
  retention_remote_inner-fails_closed plan s name m e =
      let (n, q) = gather-err s plan.surviving no_references name m e in
      (n, rw (q, retention_remote_inner) refl)

  -- What the first loop gathers keeps what it had, and holds what each survivor refers to.
  gather-keeps :
      (s : State) (names : List Text) (refs out : References) (key : Text)
      → gather store s names refs ≡ ok out
      → is_key_protected key refs.protected ≡ true
      → is_key_protected key out.protected ≡ true
  unfolding gather add_references
  gather-keeps s [] refs out key g h =
      let e : refs ≡ out = cc in
      subst (λ (r : References). is_key_protected key r.protected ≡ true) e h
  gather-keeps s (n ∷ names) refs out key g h = elim (Option-cases (fetch_manifest s n)) [
    | inl q ↦ absurd (cc (rw (q, gather) at g))
    | inr (manifest, q) ↦
        gather-keeps s names (add_references refs manifest) out key (rw (q, gather) at g)
          (protected-append_left key refs.protected (collect_key_prefixes_from_manifest manifest) h)
  ]

  gather-protects :
      (s : State) (names : List Text) (refs out : References) (name : Text)
      (manifest : BackupManifest) (key : Text)
      → gather store s names refs ≡ ok out
      → Memᴰ name names
      → fetch_manifest s name ≡ some manifest
      → is_key_protected key (collect_key_prefixes_from_manifest manifest) ≡ true
      → is_key_protected key out.protected ≡ true
  unfolding gather add_references
  gather-protects s [] refs out name manifest key g m f h = elim m [ ]
  gather-protects s (n ∷ names) refs out name manifest key g m f h =
      elim (Option-cases (fetch_manifest s n)) [
        | inl q ↦ absurd (cc (rw (q, gather) at g))
        | inr (other, q) ↦ elim (mem-cons_cases m) [
          | inl same ↦
              gather-keeps s names (add_references refs other) out key (rw (q, gather) at g) (
                protected-append_right key refs.protected (collect_key_prefixes_from_manifest other)
                  (subst
                    (λ (x : BackupManifest).
                      is_key_protected key (collect_key_prefixes_from_manifest x) ≡ true)
                    (cc (ap (fetch_manifest s) same)) h))
          | inr t ↦
              gather-protects s names (add_references refs other) out name manifest key
                (rw (q, gather) at g) t f h
        ]
      ]

-- What the pass relies on of the store: a deletion leaves every key present that it does not name.
module _ (store : ObjectStore) (present : store.State → Text → Bool)
    (frame : (s : store.State) (keys : List Text) (key : Text)
      → contains keys key ≡ false
      → present (store.delete_keys s keys).0 key ≡ present s key) where
  open store use {State, fetch_manifest, list_prefix, delete_keys}

  delete_backup-frame :
      (name : Text) (data_keys : List Text) (s : State) (outcome : RetentionOutcome) (key : Text)
      → contains data_keys key ≡ false
      → key ≢ manifest_key name
      → present (delete_backup store name data_keys s outcome).0 key ≡ present s key
  unfolding delete_backup
  delete_backup-frame name data_keys s outcome key h ne = ground (
    arith,
    frame s data_keys key h,
    frame (delete_keys s data_keys).0 (manifest_key name ∷ []) key
        (ground (arith, text_ne key (manifest_key name) ne)),
  )

  sweep_listed-frame :
      (refs : References) (name : Text) (keys : List Text) (s : State) (outcome : RetentionOutcome)
      (key : Text)
      → is_key_protected key refs.protected ≡ true
      → key ≢ manifest_key name
      → present (sweep_listed store refs name keys s outcome).0 key ≡ present s key
  unfolding sweep_listed
  sweep_listed-frame refs name [] s outcome key h ne = refl
  sweep_listed-frame refs name (k ∷ keys) s outcome key h ne =
      let own = manifest_key name in
      let data_keys = (split_keys own refs.protected (k ∷ keys)).0 in
      let unlisted =
        not_contains key data_keys
          λ m. cc (h, split_keys-unprotected own refs.protected (k ∷ keys) key m) in
      ground (arith, delete_backup-frame name data_keys s outcome key unlisted ne)

  sweep_one-frame :
      (refs : References) (name : Text) (s : State) (outcome : RetentionOutcome) (key : Text)
      → is_key_protected key refs.protected ≡ true
      → key ≢ manifest_key name
      → present (sweep_one store refs name s outcome).0 key ≡ present s key
  unfolding sweep_one
  sweep_one-frame refs name s outcome key h ne =
      elim (Bool-cases (contains refs.incremental_bases name)) [
        | inl e ↦ rw e refl
        | inr e ↦ elim (Option-cases (list_prefix s (name ++ b'/' ∷ []))) [
          | inl q ↦ rw (e, q) refl
          | inr (keys, q) ↦ rw (e, q) (sweep_listed-frame refs name keys s outcome key h ne)
        ]
      ]

  sweep-frame :
      (refs : References) (names : List Text) (s : State) (outcome : RetentionOutcome) (key : Text)
      → is_key_protected key refs.protected ≡ true
      → ((name : Text) → Memᴰ name names → key ≢ manifest_key name)
      → present (sweep store refs names s outcome).0 key ≡ present s key
  unfolding sweep
  sweep-frame refs [] s outcome key h ne = refl
  sweep-frame refs (name ∷ names) s outcome key h ne =
      let (s', outcome') = sweep_one store refs name s outcome in
      sweep-frame refs names s' outcome' key h (λ n m. ne n (Memᴰ.tail m))
      ∙ sweep_one-frame refs name s outcome key h (ne name (Memᴰ.head refl))

  -- A key that the manifest of a surviving backup protects, and that is not the manifest of a
  -- backup to delete, is present after the pass exactly if it was before, whatever the listings
  -- say and whichever requests fail.
  pub retention_remote_inner-keeps :
      (plan : RetentionPlan) (s : State) (name : Text) (manifest : BackupManifest) (key : Text)
      → Memᴰ name plan.surviving
      → fetch_manifest s name ≡ some manifest
      → is_key_protected key (collect_key_prefixes_from_manifest manifest) ≡ true
      → ((dead : Text) → Memᴰ dead plan.to_delete → key ≢ manifest_key dead)
      → present (retention_remote_inner store plan s).0 key ≡ present s key
  unfolding retention_remote_inner
  retention_remote_inner-keeps plan s name manifest key m f h ne =
      elim (Result-cases (gather store s plan.surviving no_references)) [
        | inl (e, q) ↦ rw (q, retention_remote_inner) refl
        | inr (refs, q) ↦
            rw (q, retention_remote_inner)
              (sweep-frame refs plan.to_delete s (record { deleted = []; skipped = [] }) key
                (gather-protects store s plan.surviving no_references refs name manifest key q m f
                  h)
                ne)
      ]
