-- ===== src/RestoreOrder/Kinds.antt =====
-- What the phases of src/restore/topo.rs are, said without the code's tests.
use chbackup.Base.{
  if◌then◌else◌, Bool, true, false, ◌||◌, List, [], ◌∷◌, ◌++◌, ◌≡◌, ◌↔◌, ◌⊎◌, refl, ap, ◌∙◌, inl,
  inr, arith, Memᴰ, Bool-cases,
}
use chbackup.Base.Text.{
  Text, codes, text_eq, eq_of_text_eq, text_eq_refl, contains, contains_of_mem, starts_with,
  starts_with-append, append_of_starts_with,
}
use chbackup.Manifest.{TableManifest}
use chbackup.Watch.{contains_text}
use chbackup.RestoreOrder.{
  Phase, data_phase, postponed_phase, ddl_only_phase, is_streaming_engine, is_refreshable_mv,
  phase_of,
}

-- `p` stands somewhere in `s`.
abbrev pub Occurs : Text → Text → Type 0
Occurs p s = (before : Text) × (after : Text) × (s ≡ before ++ (p ++ after))

contains_text-Occurs : (s p : Text) → contains_text s p ≡ true → Occurs p s
unfolding contains_text
contains_text-Occurs [] p h = let (r, e) = append_of_starts_with [] p h in ([], r, e)
contains_text-Occurs (c ∷ s) p h = elim (Bool-cases (starts_with (c ∷ s) p)) [
  | inl e ↦ let (r, q) = append_of_starts_with (c ∷ s) p e in ([], r, q)
  | inr e ↦
      let (b, a, q) = contains_text-Occurs s p (rw e at h) in (c ∷ b, a, ap (λ (t : Text). c ∷ t) q)
]

occurs-here : (p after : Text) → contains_text (p ++ after) p ≡ true
unfolding contains_text starts_with
occurs-here [] [] = refl
occurs-here [] (c ∷ a) = refl
occurs-here (c ∷ p) a = rw (starts_with-append (c ∷ p) a) refl

occurs-contains_text : (before p after : Text) → contains_text (before ++ (p ++ after)) p ≡ true
unfolding contains_text
occurs-contains_text [] p a = occurs-here p a
occurs-contains_text (c ∷ b) p a = ground (arith, occurs-contains_text b p a)

contains_text_iff : (s p : Text) → (contains_text s p ≡ true) ↔ Occurs p s
contains_text_iff s p = (
  contains_text-Occurs s p,
  λ (b, a, e). ap (λ (t : Text). contains_text t p) e ∙ occurs-contains_text b p a,
)

abbrev pub IsStreaming : Text → Type 0
IsStreaming engine =
    (engine ≡ codes "Kafka")
    ⊎ ((engine ≡ codes "NATS") ⊎ ((engine ≡ codes "RabbitMQ") ⊎ (engine ≡ codes "S3Queue")))

contains-cons :
    (s a : Text) (l : List Text) → contains (a ∷ l) s ≡ true → (s ≡ a) ⊎ (contains l s ≡ true)
contains-cons s a l h = elim (Bool-cases (text_eq s a)) [
  | inl e ↦ inl (eq_of_text_eq s a e)
  | inr e ↦ inr (rw e at h)
]

is_streaming_engine-IsStreaming :
    (engine : Text) → is_streaming_engine engine ≡ true → IsStreaming engine
unfolding is_streaming_engine
is_streaming_engine-IsStreaming engine h =
    elim (contains-cons engine (codes "Kafka")
      (codes "NATS" ∷ codes "RabbitMQ" ∷ codes "S3Queue" ∷ []) h) [
        | inl e ↦ inl e
        | inr m ↦
            elim (contains-cons engine (codes "NATS") (codes "RabbitMQ" ∷ codes "S3Queue" ∷ []) m) [
              | inl e ↦ inr (inl e)
              | inr n ↦ elim (contains-cons engine (codes "RabbitMQ") (codes "S3Queue" ∷ []) n) [
                | inl e ↦ inr (inr (inl e))
                | inr o ↦ elim (contains-cons engine (codes "S3Queue") [] o) [
                  | inl e ↦ inr (inr (inr e))
                  | inr z ↦ absurd (cc z)
                ]
              ]
            ]
      ]

IsStreaming-is_streaming_engine :
    (engine : Text) → IsStreaming engine → is_streaming_engine engine ≡ true
unfolding is_streaming_engine
IsStreaming-is_streaming_engine engine h = contains_of_mem engine _ (place h)
  where
    place :
        IsStreaming engine
        → Memᴰ engine (codes "Kafka" ∷ codes "NATS" ∷ codes "RabbitMQ" ∷ codes "S3Queue" ∷ [])
    place (inl e) = Memᴰ.head e
    place (inr (inl e)) = Memᴰ.tail (Memᴰ.head e)
    place (inr (inr (inl e))) = Memᴰ.tail (Memᴰ.tail (Memᴰ.head e))
    place (inr (inr (inr e))) = Memᴰ.tail (Memᴰ.tail (Memᴰ.tail (Memᴰ.head e)))

module _ (upper : Text → Text) where
  abbrev pub IsRefreshable : TableManifest → Type 0
  IsRefreshable tm =
      (tm.engine ≡ codes "MaterializedView")
      × (Occurs (codes " REFRESH ") (upper tm.ddl) ⊎ Occurs (10 ∷ codes "REFRESH ") (upper tm.ddl))

  abbrev pub IsPostponed : TableManifest → Type 0
  IsPostponed tm = IsStreaming tm.engine ⊎ IsRefreshable tm

  -- The tables of a phase.
  abbrev pub BelongsTo : Phase → TableManifest → Type 0
  BelongsTo postponed_phase tm = IsPostponed tm
  BelongsTo ddl_only_phase tm = (IsPostponed tm → ⊥) × (tm.metadata_only ≡ true)
  BelongsTo data_phase tm = (IsPostponed tm → ⊥) × (tm.metadata_only ≡ false)

  is_refreshable_mv-IsRefreshable :
      (tm : TableManifest) → is_refreshable_mv upper tm ≡ true → IsRefreshable tm
  unfolding is_refreshable_mv
  is_refreshable_mv-IsRefreshable tm h =
      elim (Bool-cases (text_eq tm.engine (codes "MaterializedView"))) [
        | inr e ↦ absurd (cc (rw e at h))
        | inl e ↦ (
          eq_of_text_eq _ _ e,
          elim (Bool-cases (contains_text (upper tm.ddl) (codes " REFRESH "))) [
            | inl f ↦ inl (contains_text-Occurs _ _ f)
            | inr f ↦ inr (contains_text-Occurs _ _ (rw (e, f) at h))
          ],
        )
      ]

  IsRefreshable-is_refreshable_mv :
      (tm : TableManifest) → IsRefreshable tm → is_refreshable_mv upper tm ≡ true
  unfolding is_refreshable_mv
  IsRefreshable-is_refreshable_mv tm (e, o) =
      let same : text_eq tm.engine (codes "MaterializedView") ≡ true =
        ap (λ (t : Text). text_eq t (codes "MaterializedView")) e
        ∙ text_eq_refl (codes "MaterializedView") in
      elim o [
        | inl f ↦ rw (same, (contains_text_iff (upper tm.ddl) (codes " REFRESH ")).1 f) refl
        | inr f ↦
            ground (arith, same, (contains_text_iff (upper tm.ddl) (10 ∷ codes "REFRESH ")).1 f)
      ]

  abbrev is_postponed : TableManifest → Bool
  is_postponed tm = is_streaming_engine tm.engine || is_refreshable_mv upper tm

  is_postponed-IsPostponed : (tm : TableManifest) → is_postponed tm ≡ true → IsPostponed tm
  is_postponed-IsPostponed tm h = elim (Bool-cases (is_streaming_engine tm.engine)) [
    | inl e ↦ inl (is_streaming_engine-IsStreaming tm.engine e)
    | inr e ↦ inr (is_refreshable_mv-IsRefreshable tm (rw e at h))
  ]

  IsPostponed-is_postponed : (tm : TableManifest) → IsPostponed tm → is_postponed tm ≡ true
  IsPostponed-is_postponed tm (inl s) = rw (IsStreaming-is_streaming_engine tm.engine s) refl
  IsPostponed-is_postponed tm (inr r) = ground (arith, IsRefreshable-is_refreshable_mv tm r)

  unpostponed-BelongsTo :
      (tm : TableManifest)
      → (IsPostponed tm → ⊥)
      → (m : Bool) → tm.metadata_only ≡ m
      → BelongsTo (if m then ddl_only_phase else data_phase) tm
  unpostponed-BelongsTo tm n true e = (n, e)
  unpostponed-BelongsTo tm n false e = (n, e)

  pub phase_of-BelongsTo : (tm : TableManifest) → BelongsTo (phase_of upper tm) tm
  unfolding phase_of
  phase_of-BelongsTo tm =
      elim (Bool-cases (is_streaming_engine tm.engine || is_refreshable_mv upper tm)) [
        | inl e ↦ rw (e, phase_of) (is_postponed-IsPostponed tm e)
        | inr e ↦
            let open_table : IsPostponed tm → ⊥ = λ q. cc (IsPostponed-is_postponed tm q, e) in
            rw (e, phase_of) (unpostponed-BelongsTo tm open_table tm.metadata_only refl)
      ]

  -- A table belongs to one phase only.
  pub same_phase : (tm : TableManifest) (p q : Phase) → BelongsTo p tm → BelongsTo q tm → p ≡ q
  same_phase tm data_phase data_phase a b = refl
  same_phase tm data_phase postponed_phase (n, m) b = absurd (n b)
  same_phase tm data_phase ddl_only_phase (n, m) (n', m') = absurd (cc (m, m'))
  same_phase tm postponed_phase data_phase a (n, m) = absurd (n a)
  same_phase tm postponed_phase postponed_phase a b = refl
  same_phase tm postponed_phase ddl_only_phase a (n, m) = absurd (n a)
  same_phase tm ddl_only_phase data_phase (n, m) (n', m') = absurd (cc (m, m'))
  same_phase tm ddl_only_phase postponed_phase (n, m) b = absurd (n b)
  same_phase tm ddl_only_phase ddl_only_phase a b = refl
