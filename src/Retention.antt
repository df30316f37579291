-- ===== src/Retention.antt =====
-- src/list.rs: remote retention. Which backups to delete, which keys the survivors protect, and the
-- deletion pass over an abstract object store.
pub mod Keys
pub mod Plan
pub mod Pass
pub mod Sweep
pub mod Chain
pub mod Local
pub mod Tests
use chbackup.Base.{
  ℕ, suc, ◌+◌, ◌-◌, Bool, true, false, not, ◌&&◌, ◌||◌, Option, none, some, List, [], ◌∷◌, ◌++◌,
  map, if◌then◌else◌, any, ltb, take, drop, length, Result, ok, err, ◌>>=◌,
}
use chbackup.Base.Text.{
  Text, codes, text_eq, contains, starts_with, ends_with_char, strip_prefix, is_empty,
}
use chbackup.Manifest.{S3ObjectInfo, PartInfo, TableManifest, BackupManifest}
use chbackup.Listing.{BackupSummary, valid_by_time}

-- The loops of `collect_key_prefixes_from_manifest`. A `HashSet` is the list of what was inserted.
-- `if !key.is_empty() { keys.insert(key) }`
unfoldable pub insert_key : Text → List Text
insert_key [] = []
insert_key (c ∷ s) = (c ∷ s) ∷ []

unfoldable pub object_keys : List S3ObjectInfo → List Text
object_keys [] = []
object_keys (o ∷ os) = insert_key o.backup_key ++ object_keys os

abbrev pub optional_object_keys : Option (List S3ObjectInfo) → List Text
optional_object_keys none = []
optional_object_keys (some os) = object_keys os

unfoldable pub part_keys : PartInfo → List Text
part_keys part = insert_key part.backup_key ++ optional_object_keys part.s3_objects

unfoldable pub disk_keys : List PartInfo → List Text
disk_keys [] = []
disk_keys (p ∷ ps) = part_keys p ++ disk_keys ps

unfoldable pub table_keys : List (Text × List PartInfo) → List Text
table_keys [] = []
table_keys ((_, ps) ∷ rest) = disk_keys ps ++ table_keys rest

unfoldable pub tables_keys : List (Text × TableManifest) → List Text
tables_keys [] = []
tables_keys ((_, tm) ∷ rest) = table_keys tm.parts ++ tables_keys rest

unfoldable pub collect_key_prefixes_from_manifest : BackupManifest → List Text
collect_key_prefixes_from_manifest manifest = tables_keys manifest.tables

unfoldable pub is_key_protected : Text → List Text → Bool
is_key_protected key protected =
    contains protected key
    || any (λ entry. ends_with_char entry b'/' && starts_with key entry) protected

pub record RetentionPlan : Type 0 where
  pub to_delete : List Text
  pub surviving : List Text

-- `saturating_sub` is the subtraction of the natural numbers.
unfoldable pub plan_retention_deletions : List BackupSummary → ℕ → RetentionPlan
plan_retention_deletions summaries keep =
    let valid = valid_by_time summaries in
    let to_delete = length valid - keep in
    record {
      to_delete = map (λ b. b.name) (take to_delete valid);
      surviving = map (λ b. b.name) (drop to_delete valid);
    }

-- The loops of `collect_incremental_bases`.
unfoldable pub disk_bases : List PartInfo → List Text
disk_bases [] = []
disk_bases (p ∷ ps) = elim (strip_prefix p.source (codes "carried:")) [
  | some base ↦ base ∷ disk_bases ps
  | none ↦ disk_bases ps
]

unfoldable pub table_bases : List (Text × List PartInfo) → List Text
table_bases [] = []
table_bases ((_, ps) ∷ rest) = disk_bases ps ++ table_bases rest

unfoldable pub tables_bases : List (Text × TableManifest) → List Text
tables_bases [] = []
tables_bases ((_, tm) ∷ rest) = table_bases tm.parts ++ tables_bases rest

unfoldable pub collect_incremental_bases : BackupManifest → List Text
collect_incremental_bases manifest = tables_bases manifest.tables

pub record RetentionOutcome : Type 0 where
  pub deleted : List Text
  pub skipped : List Text

-- The three injected operations, over the state of the object store. `none` and `false` are the
-- failures of a request, which the code only logs or hands on.
pub record ObjectStore : Type 1 where
  pub State : Type 0
  pub fetch_manifest : State → Text → Option BackupManifest
  pub list_prefix : State → Text → Option (List Text)
  pub delete_keys : State → List Text → State × Bool

-- `retention aborted before deleting anything`, with the survivor's name
pub data RetentionError : Type 0 where
  unreadable_manifest : Text → RetentionError

-- What the first loop gathers from the survivors.
pub record References : Type 0 where
  pub protected : List Text
  pub incremental_bases : List Text

abbrev pub no_references : References
no_references = record { protected = []; incremental_bases = [] }

unfoldable pub add_references : References → BackupManifest → References
add_references refs manifest = record {
  protected = refs.protected ++ collect_key_prefixes_from_manifest manifest;
  incremental_bases = refs.incremental_bases ++ collect_incremental_bases manifest;
}

unfoldable pub manifest_key : Text → Text
manifest_key name = name ++ codes "/metadata.json"

-- The loop that sorts the listed keys: the data keys to delete, and the number of protected keys.
unfoldable pub split_keys : Text → List Text → List Text → List Text × ℕ
split_keys own protected [] = ([], 0)
split_keys own protected (key ∷ keys) =
    let (data_keys, count) = split_keys own protected keys in
    if text_eq key own
    then (data_keys, count)
    else if is_key_protected key protected
    then (data_keys, suc count)
    else (key ∷ data_keys, count)

abbrev pub skip : RetentionOutcome → Text → RetentionOutcome
skip outcome name = record outcome { skipped = outcome.skipped ++ name ∷ [] }

module _ (store : ObjectStore) where
  open store use {State, fetch_manifest, list_prefix, delete_keys}

  -- The first loop.
  unfoldable pub gather : State → List Text → References → Result RetentionError References
  gather s [] refs = ok refs
  gather s (name ∷ names) refs = elim (fetch_manifest s name) [
    | none ↦ err (unreadable_manifest name)
    | some manifest ↦ gather s names (add_references refs manifest)
  ]

  -- The two deletions of one candidate, data first and manifest last.
  unfoldable pub delete_backup :
      Text → List Text → State → RetentionOutcome → State × RetentionOutcome
  delete_backup name data_keys s outcome =
      let (s', done) = delete_keys s data_keys in
      if done
      then (let (s'', gone) = delete_keys s' (manifest_key name ∷ []) in
          if gone
          then (s'', record outcome { deleted = outcome.deleted ++ name ∷ [] })
          else (s'', outcome))
      else (s', outcome)

  -- The body of the second loop after the listing.
  unfoldable pub sweep_listed :
      References → Text → List Text → State → RetentionOutcome → State × RetentionOutcome
  sweep_listed refs name [] s outcome = (s, outcome)
  sweep_listed refs name (key ∷ keys) s outcome =
      let (data_keys, protected_count) =
        split_keys (manifest_key name) refs.protected (key ∷ keys) in
      if ltb 0 protected_count
      then (s, skip outcome name)
      else delete_backup name data_keys s outcome

  -- The body of the second loop, one candidate.
  unfoldable pub sweep_one : References → Text → State → RetentionOutcome → State × RetentionOutcome
  sweep_one refs name s outcome =
      if contains refs.incremental_bases name
      then (s, skip outcome name)
      else elim (list_prefix s (name ++ b'/' ∷ [])) [
        | none ↦ (s, outcome)
        | some keys ↦ sweep_listed refs name keys s outcome
      ]

  unfoldable pub sweep :
      References → List Text → State → RetentionOutcome → State × RetentionOutcome
  sweep refs [] s outcome = (s, outcome)
  sweep refs (name ∷ names) s outcome =
      let (s', outcome') = sweep_one refs name s outcome in sweep refs names s' outcome'

  -- `retention_remote_inner`: the store it leaves, and its result.
  unfoldable pub retention_remote_inner :
      RetentionPlan → State → State × Result RetentionError RetentionOutcome
  retention_remote_inner plan s = elim (gather s plan.surviving no_references) [
    | err e ↦ (s, err e)
    | ok refs ↦
        let (s', outcome) = sweep refs plan.to_delete s (record { deleted = []; skipped = [] }) in
        (s', ok outcome)
  ]
