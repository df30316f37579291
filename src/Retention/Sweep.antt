-- ===== src/Retention/Sweep.antt =====
-- One candidate of the retention pass of src/list.rs: all of it or nothing, and the manifest last.
use chbackup.Base.{
  ◌<◌, Bool, true, false, some, List, [], ◌∷◌, ◌++◌, ◌≡◌, ◌≢◌, refl, ap, ◌∙◌, inl, inr, arith, Memᴰ,
  Bool-cases, mem-cons_cases, ◌⊎◌,
}
use chbackup.Base.Text.{
  Text, contains, text_eq, text_eq_refl, text_ne, contains_of_mem, not_contains,
}
use chbackup.Retention.{
  RetentionOutcome, ObjectStore, References, is_key_protected, manifest_key, split_keys, skip,
  delete_backup, sweep_listed, sweep_one,
}

split_keys-counts :
    (own : Text) (protected keys : List Text) (key : Text)
    → Memᴰ key keys
    → key ≢ own
    → is_key_protected key protected ≡ true
    → 0 < (split_keys own protected keys).1
unfolding split_keys
split_keys-counts own protected [] key m ne h = elim m [ ]
split_keys-counts own protected (k ∷ keys) key m ne h = elim (mem-cons_cases m) [
  | inl e ↦
      ground
        (arith, ap (λ (x : Text). is_key_protected x protected) e, text_ne k own (λ q. ne (e ∙ q)))
  | inr t ↦ ground (arith, split_keys-counts own protected keys key t ne h)
]

own_unlisted :
    (own : Text) (protected keys : List Text) → Memᴰ own (split_keys own protected keys).0 → ⊥
unfolding split_keys
own_unlisted own protected [] m = elim m [ ]
own_unlisted own protected (k ∷ keys) m = elim (Bool-cases (text_eq k own)) [
  | inl e ↦ own_unlisted own protected keys (rw e at m)
  | inr e ↦ elim (Bool-cases (is_key_protected k protected)) [
    | inl p ↦ own_unlisted own protected keys (rw (e, p) at m)
    | inr p ↦ elim (mem-cons_cases (rw (e, p) at m)) [
      | inl q ↦ cc (e, ap (λ (x : Text). text_eq x own) q, text_eq_refl own)
      | inr n ↦ own_unlisted own protected keys n
    ]
  ]
]

module _ (store : ObjectStore) where
  open store use {State, list_prefix, delete_keys}

  -- A candidate with a listed key, other than its manifest, that a survivor protects, or which a
  -- survivor names as its base, is left whole: nothing is deleted, and it is recorded as skipped.
  pub sweep_one-skips :
      (refs : References) (name key : Text) (keys : List Text) (s : State)
      (outcome : RetentionOutcome)
      → ((list_prefix s (name ++ b'/' ∷ []) ≡ some keys)
          × Memᴰ key keys
          × (key ≢ manifest_key name)
          × (is_key_protected key refs.protected ≡ true))
        ⊎ Memᴰ name refs.incremental_bases
      → sweep_one store refs name s outcome ≡ (s, skip outcome name)
  unfolding sweep_one sweep_listed
  sweep_one-skips refs name key keys s outcome (inr m) =
      ground (arith, contains_of_mem name refs.incremental_bases m)
  sweep_one-skips refs name key [] s outcome (inl (l, m, ne, p)) = elim m [ ]
  sweep_one-skips refs name key (k ∷ keys) s outcome (inl (l, m, ne, p)) =
      elim (Bool-cases (contains refs.incremental_bases name)) [
        | inl e ↦ rw e refl
        | inr e ↦
            rw (e, l)
              (ground
                (arith, split_keys-counts (manifest_key name) refs.protected (k ∷ keys) key m ne p))
      ]

-- The manifest goes last.
module _ (store : ObjectStore) (present : store.State → Text → Bool)
    (frame : (s : store.State) (keys : List Text) (key : Text)
      → contains keys key ≡ false
      → present (store.delete_keys s keys).0 key ≡ present s key) where
  open store use {State, list_prefix, delete_keys}

  -- If a candidate's manifest was there and is gone, then the store had reported that its data keys
  -- were deleted before.
  pub sweep_listed-manifest_last :
      (refs : References) (name : Text) (keys : List Text) (s : State) (outcome : RetentionOutcome)
      → present s (manifest_key name) ≡ true
      → present (sweep_listed store refs name keys s outcome).0 (manifest_key name) ≡ false
      → (delete_keys s (split_keys (manifest_key name) refs.protected keys).0).1 ≡ true
  unfolding sweep_listed delete_backup
  sweep_listed-manifest_last refs name [] s outcome h gone = cc
  sweep_listed-manifest_last refs name (k ∷ keys) s outcome h gone =
      let own = manifest_key name in
      let data_keys = (split_keys own refs.protected (k ∷ keys)).0 in
      ground (
        arith,
        frame s data_keys own
            (not_contains own data_keys (own_unlisted own refs.protected (k ∷ keys))),
      )
