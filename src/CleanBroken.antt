-- ===== src/CleanBroken.antt =====
-- src/list.rs: `clean_broken_remote`, which deletes remote backups that have no readable manifest.
-- The listing of the backups, which `list_remote` gives, is an argument, and so is the directory of
-- the PID locks. Times are seconds since 1970 and not negative.
pub mod Plan
pub mod Pass
pub mod Tests
use chbackup.Base.{
  ℕ, suc, ◌+◌, ◌-◌, Bool, true, false, not, Option, none, some, List, [], ◌∷◌, ◌++◌, map, max,
  if◌then◌else◌, any, ltb, keep_if, length, Result, ok, err,
}
use chbackup.Base.Text.{Text, codes, text_eq, is_empty, strip_prefix, ends_with_char}
use chbackup.Manifest.{BackupManifest}
use chbackup.Listing.{BackupSummary}
use chbackup.Retention.{is_key_protected, collect_key_prefixes_from_manifest, manifest_key}
use chbackup.Lock.{Host, Directory, is_lock_file_active, backup, lock_path_for_scope}

pub data SkipReason : Type 0 where
  lock_held age_unknown : SkipReason
  too_young : ℕ → SkipReason
  all_protected : SkipReason

pub data CleanBrokenPlan : Type 0 where
  skip_backup : SkipReason → CleanBrokenPlan
  delete : List Text → CleanBrokenPlan

unfoldable pub plan_clean_broken_deletion :
    List Text → Option ℕ → ℕ → ℕ → Bool → List Text → CleanBrokenPlan
plan_clean_broken_deletion candidate_keys newest_last_modified now min_age lock_is_live protected =
    if lock_is_live then skip_backup lock_held else elim newest_last_modified [
      | none ↦ skip_backup age_unknown
      | some newest ↦
          let age = now - newest in
          let keys = keep_if (λ key. not (is_key_protected key protected)) candidate_keys in
          if ltb age min_age
          then skip_backup (too_young age)
          else if is_empty keys
          then skip_backup all_protected
          else delete keys
    ]

pub record S3Object : Type 0 where
  pub key : Text
  pub last_modified : Option ℕ

-- The requests to S3, over its state; `none` is a failed request. A deletion answers with the
-- number of keys that it failed to delete.
pub record Bucket : Type 1 where
  pub State : Type 0
  pub get_manifest : State → Text → Option BackupManifest
  pub list_objects : State → Text → Option (List S3Object)
  pub delete_objects : State → List Text → State × Option ℕ

unfoldable pub strip_s3_prefix : Text → Text → Text
strip_s3_prefix key prefix =
    if is_empty prefix
    then key
    else elim (strip_prefix key
        (if ends_with_char prefix b'/' then prefix else prefix ++ b'/' ∷ [])) [
          | some rest ↦ rest
          | none ↦ key
        ]

-- `.collect::<Option<Vec<i64>>>()`
unfoldable pub all_stamps : List S3Object → Option (List ℕ)
all_stamps [] = some []
all_stamps (o ∷ os) = elim o.last_modified [
  | none ↦ none
  | some t ↦ elim (all_stamps os) [ none ↦ none | some ts ↦ some (t ∷ ts) ]
]

-- `.into_iter().max()`
unfoldable pub latest : List ℕ → Option ℕ
latest [] = none
latest (t ∷ ts) = elim (latest ts) [ none ↦ some t | some u ↦ some (max t u) ]

unfoldable pub newest_of : List S3Object → Option ℕ
newest_of objects = elim (all_stamps objects) [ none ↦ none | some ts ↦ latest ts ]

unfoldable pub lock_is_live : Host → Directory → Text → Bool
lock_is_live host directory name = elim (lock_path_for_scope (backup name)) [
  | none ↦ false
  | some file ↦ is_lock_file_active host file directory
]

pub data CleanError : Type 0 where
  unreadable_manifest : Text → CleanError

module _ (bucket : Bucket) where
  open bucket use {State, get_manifest, list_objects, delete_objects}

  -- The loop over the valid backups.
  unfoldable pub protect : State → List BackupSummary → List Text → Result CleanError (List Text)
  protect s [] protected = ok protected
  protect s (b ∷ bs) protected = elim (get_manifest s b.name) [
    | none ↦ err (unreadable_manifest b.name)
    | some manifest ↦ protect s bs (protected ++ collect_key_prefixes_from_manifest manifest)
  ]

  -- `apply_clean_broken_plan` with the deletion that it is given: the count of deleted backups.
  unfoldable pub apply_clean_broken_plan : CleanBrokenPlan → State → ℕ → State × ℕ
  apply_clean_broken_plan (skip_backup reason) s deleted = (s, deleted)
  apply_clean_broken_plan (delete keys) s deleted =
      let (s', answer) = delete_objects s keys in
      elim answer [ some failed ↦ (s', suc deleted) | none ↦ (s', deleted) ]

  module _ (host : Host) (directory : Directory) (prefix : Text) (now min_age : ℕ) where
    abbrev pub plan_for : Text → List S3Object → List Text → CleanBrokenPlan
    plan_for name objects protected =
        plan_clean_broken_deletion (map (λ o. strip_s3_prefix o.key prefix) objects)
          (newest_of objects) now min_age (lock_is_live host directory name) protected

    -- The body of the loop over the broken backups.
    unfoldable pub clean_one : List Text → Text → State → ℕ → State × ℕ
    clean_one protected name s deleted = elim (list_objects s (name ++ b'/' ∷ [])) [
      | none ↦ (s, deleted)
      | some objects ↦ apply_clean_broken_plan (plan_for name objects protected) s deleted
    ]

    unfoldable pub clean_all : List Text → List BackupSummary → State → ℕ → State × ℕ
    clean_all protected [] s deleted = (s, deleted)
    clean_all protected (b ∷ bs) s deleted =
        let (s', deleted') = clean_one protected b.name s deleted in
        clean_all protected bs s' deleted'

    unfoldable pub clean_broken_remote : List BackupSummary → State → State × Result CleanError ℕ
    clean_broken_remote backups s =
        let broken = keep_if (λ b. b.is_broken) backups in
        if is_empty broken
        then (s, ok 0)
        else elim (protect s (keep_if (λ b. not b.is_broken) backups) []) [
          | err e ↦ (s, err e)
          | ok protected ↦ let (s', deleted) = clean_all protected broken s 0 in (s', ok deleted)
        ]
