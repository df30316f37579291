-- ===== src/RestoreOrder/Phases.antt =====
-- The phases and the drop order of src/restore/topo.rs.
use mathlib.Core.List.{Permᴰ}
use mathlib.Core.List.Permᴰ
use chbackup.Base.{
  some, List, [], ◌∷◌, ◌≡◌, ◌↔◌, ◌⊎◌, refl, sym, ap, ◌∙◌, subst, inl, inr, arith, leb, Memᴰ,
  mem-cons_cases, Option-cases,
}
use chbackup.Base.Text.{Text}
use chbackup.Base.Sort.{sort-perm, sort-IsSorted, IsSorted, mem-perm}
use chbackup.Manifest.{TableManifest, BackupManifest}
use chbackup.RestoreOrder.Kinds.{BelongsTo, phase_of-BelongsTo, same_phase}
use chbackup.RestoreOrder.{
  find_table, drop_priority, sort_tables_for_drop, data_table_priority, RestorePhases, Phase,
  data_phase, postponed_phase, ddl_only_phase, tables_of, push, phase_of, split_tables,
  classify_restore_tables,
}

-- Dropping takes every table once, in the order of the engines' drop priorities.
pub sort_tables_for_drop-IsSorted :
    (manifest : BackupManifest) (keys : List Text)
    → Permᴰ (sort_tables_for_drop manifest keys) keys
      × IsSorted
          (λ a b. leb (drop_priority manifest a) (drop_priority manifest b))
          (sort_tables_for_drop manifest keys)
unfolding sort_tables_for_drop
sort_tables_for_drop-IsSorted manifest keys =
    let leq = λ (a b : Text). leb (drop_priority manifest a) (drop_priority manifest b) in
    (sort-perm leq keys, sort-IsSorted leq (λ a b h. ground arith) (λ a b c p q. ground arith) keys)

push-mem :
    (p q : Phase) (key k : Text) (r : RestorePhases)
    → Memᴰ k (tables_of p (push q key r))
    → ((k ≡ key) × (p ≡ q)) ⊎ Memᴰ k (tables_of p r)
push-mem data_phase data_phase key k r m = elim (mem-cons_cases m) [
  | inl e ↦ inl (e, refl)
  | inr t ↦ inr t
]
push-mem data_phase postponed_phase key k r m = inr m
push-mem data_phase ddl_only_phase key k r m = inr m
push-mem postponed_phase data_phase key k r m = inr m
push-mem postponed_phase postponed_phase key k r m = elim (mem-cons_cases m) [
  | inl e ↦ inl (e, refl)
  | inr t ↦ inr t
]
push-mem postponed_phase ddl_only_phase key k r m = inr m
push-mem ddl_only_phase data_phase key k r m = inr m
push-mem ddl_only_phase postponed_phase key k r m = inr m
push-mem ddl_only_phase ddl_only_phase key k r m = elim (mem-cons_cases m) [
  | inl e ↦ inl (e, refl)
  | inr t ↦ inr t
]

mem-push : (q : Phase) (key : Text) (r : RestorePhases) → Memᴰ key (tables_of q (push q key r))
mem-push data_phase key r = Memᴰ.head refl
mem-push postponed_phase key r = Memᴰ.head refl
mem-push ddl_only_phase key r = Memᴰ.head refl

push-keeps :
    (p q : Phase) (key k : Text) (r : RestorePhases)
    → Memᴰ k (tables_of p r)
    → Memᴰ k (tables_of p (push q key r))
push-keeps data_phase data_phase key k r m = Memᴰ.tail m
push-keeps data_phase postponed_phase key k r m = m
push-keeps data_phase ddl_only_phase key k r m = m
push-keeps postponed_phase data_phase key k r m = m
push-keeps postponed_phase postponed_phase key k r m = Memᴰ.tail m
push-keeps postponed_phase ddl_only_phase key k r m = m
push-keeps ddl_only_phase data_phase key k r m = m
push-keeps ddl_only_phase postponed_phase key k r m = m
push-keeps ddl_only_phase ddl_only_phase key k r m = Memᴰ.tail m

module _ (upper : Text → Text) (manifest : BackupManifest) where
  -- A listed table of the manifest that belongs to the phase.
  abbrev pub IsInPhase : Phase → List Text → Text → Type 0
  IsInPhase p keys key =
      Memᴰ key keys
      × ((tm : TableManifest) × (find_table key manifest.tables ≡ some tm) × BelongsTo upper p tm)

  at_phase : (tm : TableManifest) (p : Phase) → p ≡ phase_of upper tm → BelongsTo upper p tm
  at_phase tm p e =
      subst (λ (x : Phase). BelongsTo upper x tm) (sym e) (phase_of-BelongsTo upper tm)

  split_tables_sound :
      (p : Phase) (keys : List Text) (key : Text)
      → Memᴰ key (tables_of p (split_tables upper manifest keys))
      → IsInPhase p keys key
  unfolding split_tables
  split_tables_sound data_phase [] key m = elim m [ ]
  split_tables_sound postponed_phase [] key m = elim m [ ]
  split_tables_sound ddl_only_phase [] key m = elim m [ ]
  split_tables_sound p (k ∷ keys) key m = elim (Option-cases (find_table k manifest.tables)) [
    | inl e ↦
        let (n, t) = split_tables_sound p keys key (rw (e, split_tables) at m) in (Memᴰ.tail n, t)
    | inr (tm, e) ↦
        elim (push-mem p (phase_of upper tm) k key (split_tables upper manifest keys)
          (rw (e, split_tables) at m)) [
            | inl (q, same) ↦ (
              Memᴰ.head q,
              (tm, ap (λ (x : Text). find_table x manifest.tables) q ∙ e, at_phase tm p same),
            )
            | inr t ↦ let (n, u) = split_tables_sound p keys key t in (Memᴰ.tail n, u)
          ]
  ]

  split_tables_complete :
      (p : Phase) (keys : List Text) (key : Text)
      → IsInPhase p keys key
      → Memᴰ key (tables_of p (split_tables upper manifest keys))
  unfolding split_tables
  split_tables_complete p [] key (m, t) = elim m [ ]
  split_tables_complete p (k ∷ keys) key (m, (tm, e, b)) =
      let q = same_phase upper tm (phase_of upper tm) p (phase_of-BelongsTo upper tm) b in
      elim (mem-cons_cases m) [
        | inl same ↦
            let here : find_table k manifest.tables ≡ some tm =
              ap (λ (x : Text). find_table x manifest.tables) (sym same) ∙ e in
            rw (here, split_tables)
              (subst
                (λ (x : Text).
                  Memᴰ x
                    (tables_of p (push (phase_of upper tm) k (split_tables upper manifest keys))))
                (sym same)
                (subst
                  (λ (z : Phase).
                    Memᴰ k (tables_of p (push z k (split_tables upper manifest keys))))
                  (sym q) (mem-push p k (split_tables upper manifest keys))))
        | inr t ↦
            let later = split_tables_complete p keys key (t, (tm, e, b)) in
            elim (Option-cases (find_table k manifest.tables)) [
              | inl u ↦ rw (u, split_tables) later
              | inr (other, u) ↦
                  rw (u, split_tables)
                    (push-keeps p (phase_of upper other) k key (split_tables upper manifest keys)
                      later)
            ]
      ]

  classified :
      (p : Phase) (keys : List Text)
      → Permᴰ
          (tables_of p (classify_restore_tables upper manifest keys))
          (tables_of p (split_tables upper manifest keys))
  unfolding classify_restore_tables
  classified data_phase keys =
      sort-perm (λ (a b : Text). leb (data_table_priority a) (data_table_priority b))
        (split_tables upper manifest keys).data_tables
  classified postponed_phase keys = Permᴰ.refl (split_tables upper manifest keys).postponed_tables
  classified ddl_only_phase keys = Permᴰ.refl (split_tables upper manifest keys).ddl_only_tables

  -- The tables of each phase are exactly the listed tables of the manifest that belong to it:
  -- postponed are those with the engine Kafka, NATS, RabbitMQ or S3Queue and the materialized views
  -- whose statement, in upper case, holds REFRESH between a blank or a new line and a blank; of the
  -- others, those with metadata only come after the data, and the rest with the data.
  pub classify_restore_tables_iff :
      (p : Phase) (keys : List Text) (key : Text)
      → Memᴰ key (tables_of p (classify_restore_tables upper manifest keys)) ↔ IsInPhase p keys key
  classify_restore_tables_iff p keys key = (
    λ m. split_tables_sound p keys key (mem-perm (classified p keys) m),
    λ h. mem-perm (Permᴰ.symm (classified p keys)) (split_tables_complete p keys key h),
  )
