-- ===== src/Lock/Attempts.antt =====
-- One attempt of `PidLock::acquire` of src/lock.rs, by what it finds.
use chbackup.Base.{
  ℕ, Bool, suc, true, false, not, none, some, List, [], ◌∷◌, ◌≡◌, ◌≢◌, refl, ap, inl, inr, arith,
  if◌then◌else◌, ltb, keep_if, Bool-cases, Option-cases, ok, err,
}
use chbackup.Base.Text.{Text, text_eq}
use chbackup.Lock.{
  Publication, LockInfo, Host, Directory, Contents, bytes, find_file, read_file, remove_file, held,
  create_failed, live, stale, gone, unreadable, publish_lock_file, published, already_exists,
  inspect_lock_file, corrupt_lock_max_reads,
}
use chbackup.Lock.Acquire.{acquire_loop}

pub find_file-remove :
    (name : Text) (fs : List (Text × Contents))
    → find_file name (keep_if (λ f. not (text_eq f.0 name)) fs) ≡ none
unfolding find_file
find_file-remove name [] = refl
find_file-remove name ((n, c) ∷ fs) = ground (arith, find_file-remove name fs)

-- There is no such file, or it can be removed.
abbrev pub is_removable : Text → Directory → Bool
is_removable name d = elim (read_file name d) [ none ↦ true | some c ↦ d.can_remove name c ]

pub read_file-remove :
    (name : Text) (d : Directory)
    → is_removable name d ≡ true
    → read_file name (remove_file name d) ≡ none
unfolding remove_file
read_file-remove name d h = elim (Option-cases (read_file name d)) [
  | inl e ↦ rw (e, remove_file) e
  | inr (c, e) ↦
      let k : d.can_remove name c ≡ true = rw (e, is_removable) at h in
      rw (e, k, remove_file) (find_file-remove name d.files)
]

pub remove-unremovable :
    (name : Text) (d : Directory) → is_removable name d ≡ false → remove_file name d ≡ d
unfolding remove_file
remove-unremovable name d h = elim (Option-cases (read_file name d)) [
  | inl e ↦ absurd (cc (rw (e, is_removable) at h))
  | inr (c, e) ↦
      let k : d.can_remove name c ≡ false = rw (e, is_removable) at h in rw (e, k, remove_file) refl
]

pub can_create-remove :
    (name : Text) (d : Directory) → (remove_file name d).can_create ≡ d.can_create
unfolding remove_file
can_create-remove name d = elim (Option-cases (read_file name d)) [
  | inl e ↦ rw (e, remove_file) refl
  | inr (c, e) ↦ elim (Bool-cases (d.can_remove name c)) [
    | inl k ↦ rw (e, k, remove_file) refl
    | inr k ↦ rw (e, k, remove_file) refl
  ]
]

pub inspect-none :
    (host : Host) (name : Text) (d : Directory)
    → read_file name d ≡ none
    → inspect_lock_file host name d ≡ gone
unfolding inspect_lock_file
inspect-none host name d e = rw (e, inspect_lock_file) refl

-- The directory after a publication.
abbrev pub add_file : Text → Contents → Directory → Directory
add_file name c d = record d { files = (name, c) ∷ d.files }

pub publish-new :
    (name json : Text) (d : Directory)
    → d.can_create ≡ true
    → read_file name d ≡ none
    → publish_lock_file name json d ≡ (add_file name (bytes json) d, published)
unfolding publish_lock_file
publish-new name json d c e = ground (arith, c, e)

pub publish-exists :
    (name json : Text) (d : Directory)
    → d.can_create ≡ true
    → read_file name d ≢ none
    → publish_lock_file name json d ≡ (d, already_exists)
unfolding publish_lock_file
publish-exists name json d c ne = elim (Option-cases (read_file name d)) [
  | inl e ↦ absurd (ne e)
  | inr (x, e) ↦ ground (arith, c, e)
]

module _ (host : Host) (others : Directory → Directory) (name : Text) where
  pub loop-publishes :
      (json : Text) (n r : ℕ) (d : Directory)
      → d.can_create ≡ true
      → read_file name d ≡ none
      → acquire_loop host others name json (suc n) r d ≡ (add_file name (bytes json) d, ok tt)
  unfolding acquire_loop
  loop-publishes json n r d c e =
      let p = publish-new name json d c e in
      rw (p, acquire_loop, ap (λ (x : Directory × Publication). x.0) p) refl

  pub loop-closed :
      (json : Text) (n r : ℕ) (d : Directory)
      → d.can_create ≡ false
      → acquire_loop host others name json (suc n) r d ≡ (d, err create_failed)
  unfolding acquire_loop publish_lock_file
  loop-closed json n r d c = ground (arith, c)

  pub loop-held :
      (json : Text) (info : LockInfo) (n r : ℕ) (d : Directory)
      → inspect_lock_file host name (others d) ≡ live info
      → read_file name d ≢ none
      → d.can_create ≡ true
      → acquire_loop host others name json (suc n) r d ≡ (others d, err (held info))
  unfolding acquire_loop
  loop-held json info n r d h ne c =
      let p = publish-exists name json d c ne in
      ground (
        arith,
        ap (λ (x : Directory × Publication). x.0) p,
        ap (λ (x : Directory × Publication). x.1) p,
        h,
      )

  pub loop-stale :
      (json : Text) (n r : ℕ) (d : Directory)
      → others d ≡ d
      → d.can_create ≡ true
      → read_file name d ≢ none
      → inspect_lock_file host name d ≡ stale
      → acquire_loop host others name json (suc n) r d
        ≡ acquire_loop host others name json n r (remove_file name d)
  unfolding acquire_loop
  loop-stale json n r d q c ne h =
      let p = publish-exists name json d c ne in
      ground (
        arith,
        ap (λ (x : Directory × Publication). x.0) p,
        ap (λ (x : Directory × Publication). x.1) p,
        h,
        q,
      )

  pub loop-unreadable :
      (json : Text) (n r : ℕ) (d : Directory)
      → others d ≡ d
      → d.can_create ≡ true
      → read_file name d ≢ none
      → inspect_lock_file host name d ≡ unreadable
      → acquire_loop host others name json (suc n) r d
        ≡ acquire_loop host others name json n
            (if ltb r corrupt_lock_max_reads then suc r else r)
            (if ltb r corrupt_lock_max_reads then d else remove_file name d)
  unfolding acquire_loop
  loop-unreadable json n r d q c ne h =
      let p = publish-exists name json d c ne in
      ground (
        arith,
        ap (λ (x : Directory × Publication). x.0) p,
        ap (λ (x : Directory × Publication). x.1) p,
        h,
        q,
      )
