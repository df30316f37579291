-- ===== src/Lock/Scopes.antt =====
-- The scopes of src/lock.rs: which held locks keep which acquisitions from succeeding.
use chbackup.Base.{
  false, some, List, [], ◌∷◌, ◌++◌, ◌≡◌, ◌≢◌, refl, sym, ap, inl, inr, arith, if◌then◌else◌,
  Bool-cases, Option-cases, err, Result-cases, subst, Memᴰ, mem-cons_cases, length, length-append,
}
use chbackup.Base.Text.{
  Text, text_eq, text_eq_refl, eq_of_text_eq, text_ne, is_empty, strip_prefix-append,
}
use chbackup.Lock.{
  LockInfo, Host, Directory, Contents, find_file, read_file, LockError, held, create_failed,
  blocked_by_global, blocked_by_backup, scan_failed, live, inspect_lock_file, LockScope, backup,
  global, no_scope, lock_path_for_scope, lock_prefix, lock_suffix, global_stem, strip_suffix,
  backup_name_from_lock_file, live_lock_holder, scan, check_cross_tier_exclusion,
}
use chbackup.Lock.Acquire.{acquire_under_gate}
use chbackup.Lock.Attempts.{inspect-none}
use chbackup.Lock.Outcome.{acquire-held}

pub strip_suffix-append : (s suffix : Text) → strip_suffix (s ++ suffix) suffix ≡ some s
unfolding strip_suffix text_eq
strip_suffix-append [] [] = refl
strip_suffix-append [] (b ∷ suffix) = ground (arith, text_eq_refl (b ∷ suffix))
strip_suffix-append (a ∷ s) suffix =
    let longer =
      text_ne (a ∷ s ++ suffix) suffix
        (λ e. omega (arith, ap (λ (t : Text). length t) e, length-append s suffix)) in
    ground (arith, longer, strip_suffix-append s suffix)

-- The name of a backup's lock file gives the backup's name back, unless that is the global lock's.
pub backup_name-lock_path :
    (name : Text)
    → name ≢ []
    → name ≢ global_stem
    → backup_name_from_lock_file (lock_prefix ++ (name ++ lock_suffix)) ≡ some name
unfolding backup_name_from_lock_file
backup_name-lock_path name ne ng = ground (
  arith,
  strip_prefix-append lock_prefix (name ++ lock_suffix),
  strip_suffix-append name lock_suffix,
  text_ne name global_stem ng,
  filled name ne,
)
  where
    filled : (t : Text) → t ≢ [] → is_empty t ≡ false
    filled [] h = absurd (h refl)
    filled (a ∷ t) h = refl

find_file-mem :
    (name : Text) (fs : List (Text × Contents)) (c : Contents)
    → find_file name fs ≡ some c
    → Memᴰ (name, c) fs
unfolding find_file
find_file-mem name [] c h = absurd (cc)
find_file-mem name ((n, x) ∷ fs) c h = elim (Bool-cases (text_eq n name)) [
  | inl e ↦ let same = eq_of_text_eq n name e in Memᴰ.head (ground (arith, same))
  | inr e ↦ Memᴰ.tail (find_file-mem name fs c (ground (arith, e)))
]

module _ (host : Host) where
  holder-live :
      (name : Text) (info : LockInfo) (d : Directory)
      → inspect_lock_file host name d ≡ live info
      → live_lock_holder host name d ≡ some info
  unfolding live_lock_holder
  holder-live name info d h = ground (arith, h)

  scan-blocks :
      (fs : List (Text × Contents)) (name b : Text) (c : Contents) (info : LockInfo) (d : Directory)
      → Memᴰ (name, c) fs
      → backup_name_from_lock_file name ≡ some b
      → live_lock_holder host name d ≡ some info
      → (e : LockError) × (scan host fs d ≡ err e)
  unfolding scan
  scan-blocks [] name b c info d m hb hl = elim m [ ]
  scan-blocks ((n, x) ∷ fs) name b c info d m hb hl = elim (mem-cons_cases m) [
    | inl e ↦
        let same = ap (λ (p : Text × Contents). p.0) e in
        (blocked_by_backup b info, ground (arith, same, hb, hl))
    | inr t ↦
        let (e, q) = scan-blocks fs name b c info d t hb hl in
        elim (Option-cases (backup_name_from_lock_file n)) [
          | inl u ↦ (e, ground (arith, u, q))
          | inr (b', u) ↦ elim (Option-cases (live_lock_holder host n d)) [
            | inl v ↦ (e, ground (arith, u, v, q))
            | inr (i, v) ↦ (blocked_by_backup b' i, ground (arith, u, v))
          ]
        ]
  ]

  present_of :
      (name : Text) (info : LockInfo) (d : Directory)
      → inspect_lock_file host name d ≡ live info
      → (c : Contents) × (read_file name d ≡ some c)
  present_of name info d h = elim (Option-cases (read_file name d)) [
    | inl e ↦ cc (h, inspect-none host name d e)
    | inr r ↦ r
  ]

  global-blocks :
      (name : Text) (old : LockInfo) (d : Directory)
      → inspect_lock_file host (lock_prefix ++ (global_stem ++ lock_suffix)) d ≡ live old
      → check_cross_tier_exclusion host (backup name) d ≡ err (blocked_by_global old)
  unfolding check_cross_tier_exclusion
  global-blocks name old d h =
      ground (arith, holder-live (lock_prefix ++ (global_stem ++ lock_suffix)) old d h)

  backup-blocks :
      (name : Text) (old : LockInfo) (d : Directory)
      → name ≢ []
      → name ≢ global_stem
      → inspect_lock_file host (lock_prefix ++ (name ++ lock_suffix)) d ≡ live old
      → (e : LockError) × (check_cross_tier_exclusion host global d ≡ err e)
  unfolding check_cross_tier_exclusion
  backup-blocks name old d ne ng h =
      let file = lock_prefix ++ (name ++ lock_suffix) in
      let (c, r) = present_of file old d h in
      elim (Bool-cases d.can_list) [
        | inl l ↦
            let (e, q) =
              scan-blocks d.files file name c old d (find_file-mem file d.files c r)
                (backup_name-lock_path name ne ng) (holder-live file old d h) in
            (e, ground (arith, l, q))
        | inr l ↦ (scan_failed, ground (arith, l))
      ]

-- Which held scope stands against which wanted one: a backup's own lock, and the global lock
-- against every backup's, but for a backup that is called as the global lock.
abbrev pub Excludes : LockScope → LockScope → Type 0
Excludes (backup m) (backup n) = m ≡ n
Excludes (backup m) global = (m ≢ []) × (m ≢ global_stem)
Excludes global (backup n) = Unit
Excludes global global = Unit
Excludes (backup m) no_scope = ⊥
Excludes global no_scope = ⊥
Excludes no_scope b = ⊥

module _ (host : Host) (others : Directory → Directory) where
  refused :
      (scope : LockScope) (name file : Text) (info old : LockInfo) (e : LockError) (d : Directory)
      → check_cross_tier_exclusion host scope d ≡ err e
      → inspect_lock_file host file d ≡ live old
      → let (d', r) = acquire_under_gate host others scope name info d in
        (inspect_lock_file host file d' ≡ live old) × ((x : LockError) × (r ≡ err x))
  unfolding acquire_under_gate
  refused scope name file info old e d q h = (ground (arith, q, h), (e, ground (arith, q)))

  same_file :
      (scope : LockScope) (name : Text) (info old : LockInfo) (d : Directory)
      → ((x : Directory)
          → inspect_lock_file host name x ≡ live old
          → inspect_lock_file host name (others x) ≡ live old)
      → inspect_lock_file host name d ≡ live old
      → let (d', r) = acquire_under_gate host others scope name info d in
        (inspect_lock_file host name d' ≡ live old) × ((x : LockError) × (r ≡ err x))
  unfolding acquire_under_gate
  same_file scope name info old d keep h =
      elim (Result-cases (check_cross_tier_exclusion host scope d)) [
        | inl (e, q) ↦ refused scope name name info old e d q h
        | inr (u, q) ↦
            let (k, r) = acquire-held host others name info old d keep h in
            (
              ground (arith, q, k),
              ((if d.can_create then held old else create_failed), ground (arith, q, r)),
            )
      ]

  same_file_at :
      (scope : LockScope) (file name : Text) (info old : LockInfo) (d : Directory)
      → file ≡ name
      → ((x : Directory)
          → inspect_lock_file host file x ≡ live old
          → inspect_lock_file host file (others x) ≡ live old)
      → inspect_lock_file host file d ≡ live old
      → let (d', r) = acquire_under_gate host others scope name info d in
        (inspect_lock_file host file d' ≡ live old) × ((x : LockError) × (r ≡ err x))
  same_file_at scope file name info old d same keep h =
      subst
        (λ (n : Text).
          (inspect_lock_file host file (acquire_under_gate host others scope n info d).0 ≡ live old)
          × ((e : LockError) × ((acquire_under_gate host others scope n info d).1 ≡ err e)))
        same (same_file scope file info old d keep h)

  -- While a live process holds a lock, and others leave it so, no acquisition under the gate of a
  -- lock that it excludes succeeds, and the lock is still held afterwards.
  pub acquire_under_gate-Excludes :
      (a b : LockScope) (file name : Text) (info old : LockInfo) (d : Directory)
      → Excludes a b
      → lock_path_for_scope a ≡ some file
      → lock_path_for_scope b ≡ some name
      → ((x : Directory)
          → inspect_lock_file host file x ≡ live old
          → inspect_lock_file host file (others x) ≡ live old)
      → inspect_lock_file host file d ≡ live old
      → let (d', r) = acquire_under_gate host others b name info d in
        (inspect_lock_file host file d' ≡ live old) × ((x : LockError) × (r ≡ err x))
  unfolding lock_path_for_scope
  acquire_under_gate-Excludes (backup m) (backup n) file name info old d x fa fb keep h =
      same_file_at (backup n) file name info old d (cc) keep h
  acquire_under_gate-Excludes (backup m) global file name info old d (ne, ng) fa fb keep h =
      let same : lock_prefix ++ (m ++ lock_suffix) ≡ file = cc in
      let (e, q) =
        backup-blocks host m old d ne ng
          (subst (λ (f : Text). inspect_lock_file host f d ≡ live old) (sym same) h) in
      refused global name file info old e d q h
  acquire_under_gate-Excludes global (backup n) file name info old d x fa fb keep h =
      let same : lock_prefix ++ (global_stem ++ lock_suffix) ≡ file = cc in
      refused (backup n) name file info old (blocked_by_global old) d
        (global-blocks host n old d
          (subst (λ (f : Text). inspect_lock_file host f d ≡ live old) (sym same) h))
        h
  acquire_under_gate-Excludes global global file name info old d x fa fb keep h =
      same_file_at global file name info old d (cc) keep h
  acquire_under_gate-Excludes (backup m) no_scope file name info old d x fa fb keep h = absurd x
  acquire_under_gate-Excludes global no_scope file name info old d x fa fb keep h = absurd x
  acquire_under_gate-Excludes no_scope b file name info old d x fa fb keep h = absurd x
