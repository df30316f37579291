-- ===== src/Watch.antt =====
-- src/watch/mod.rs: what the watch loop decides from the remote backups. Times and durations are
-- numbers of one unit. The glob library is a parameter, `matches`: whether a name matches a
-- pattern, with `none` for a pattern that it refuses.
pub mod Resume
pub mod Names
pub mod Context
pub mod Loop
pub mod Events
pub mod Turns
pub mod Contract
pub mod Limit
pub mod Status
pub mod Samples
pub mod Tests
use chbackup.Base.{
  ℕ, ◌-◌, Bool, true, false, not, ◌&&◌, ◌||◌, Option, none, some, List, [], ◌∷◌, ◌++◌,
  if◌then◌else◌, ◌==◌, ltb, leb, keep_if, find_first,
}
use chbackup.Base.Text.{Text, codes, text_eq, starts_with, is_empty}
use chbackup.Base.Sort.{sort}
use chbackup.Listing.{BackupSummary, stamp_leq}

pub data ResumeDecision : Type 0 where
  full_now : ResumeDecision
  incr_now : Text → ResumeDecision
  sleep_then_incr : ℕ → ResumeDecision

pub data BackupType : Type 0 where
  full incr : BackupType

-- `s.contains(p)`
unfoldable pub contains_text : Text → Text → Bool
contains_text [] p = starts_with [] p
contains_text (c ∷ s) p = starts_with (c ∷ s) p || contains_text s p

-- `push_escaped_glob_char`, the characters that it pushes
unfoldable pub escaped_glob_char : ℕ → Text
escaped_glob_char c =
    if c == b'*' || (c == b'?' || (c == b'[' || c == b']')) then b'[' ∷ c ∷ b']' ∷ [] else c ∷ []

unfoldable pub escaped : Text → Text
escaped [] = []
escaped (c ∷ s) = escaped_glob_char c ++ escaped s

-- `macro_name.split(':').next()`
unfoldable pub before_colon : Text → Text
before_colon [] = []
before_colon (c ∷ s) = if c == b':' then [] else c ∷ before_colon s

abbrev pub expand_macro : Text → Text → Text
expand_macro candidate name =
    if text_eq (before_colon name) (codes "type") then escaped candidate else b'*' ∷ []

-- The loops of `build_type_glob`: outside of a macro, or in one with the name collected so far.
unfoldable pub glob_pattern : Text → Option Text → Text → Text
glob_pattern candidate none [] = []
glob_pattern candidate (some name) [] = expand_macro candidate name
glob_pattern candidate none (c ∷ s) =
    let opened = glob_pattern candidate (some []) s in
    let rest = glob_pattern candidate none s in
    if c == b'{' then opened else escaped_glob_char c ++ rest
glob_pattern candidate (some name) (c ∷ s) =
    let closed = glob_pattern candidate none s in
    let more = glob_pattern candidate (some (name ++ c ∷ [])) s in
    if c == b'}' then expand_macro candidate name ++ closed else more

-- `resolve_template_prefix`
unfoldable pub resolve_template_prefix : Text → Text
resolve_template_prefix [] = []
resolve_template_prefix (c ∷ s) =
    let rest = resolve_template_prefix s in if c == b'{' then [] else c ∷ rest

abbrev pub type_of : Bool → Bool → Option BackupType
type_of true false = some full
type_of false true = some incr
type_of true true = none
type_of false false = none

abbrev pub is_type : BackupType → Option BackupType → Bool
is_type full (some full) = true
is_type full (some incr) = false
is_type incr (some incr) = true
is_type incr (some full) = false
is_type full none = false
is_type incr none = false

abbrev pub has_stamp : Option ℕ → Bool
has_stamp none = false
has_stamp (some t) = true

-- The filters of `resume_state`, and the order from the newest backup to the oldest.
unfoldable pub is_candidate : Text → BackupSummary → Bool
is_candidate prefix b =
    not b.is_broken && (has_stamp b.timestamp && (is_empty prefix || starts_with b.name prefix))

unfoldable pub matching_backups : Text → List BackupSummary → List BackupSummary
matching_backups template backups =
    sort (λ a b. stamp_leq b.timestamp a.timestamp)
      (keep_if (is_candidate (resolve_template_prefix template)) backups)

-- `incr_ts` if there is an incremental backup that is newer than the full one
unfoldable pub last_backup : ℕ → Option BackupSummary → ℕ
last_backup full_ts none = full_ts
last_backup full_ts (some b) = elim b.timestamp [
  | none ↦ full_ts
  | some incr_ts ↦ if ltb full_ts incr_ts then incr_ts else full_ts
]

-- The last tests, with the newest backup's name and the times of the last full backup and of the
-- last backup.
unfoldable pub decide : ℕ → ℕ → ℕ → Text → ℕ → ℕ → ResumeDecision
decide watch_interval full_interval now most_recent full_ts last_ts =
    if leb full_interval (now - full_ts)
    then full_now
    else if leb watch_interval (now - last_ts)
    then incr_now most_recent
    else sleep_then_incr (watch_interval - (now - last_ts))

module _ (matches : Text → Text → Option Bool) where
  abbrev pub glob_matches : Text → Text → Text → Bool
  glob_matches template candidate name =
      elim (matches (glob_pattern candidate none template) name) [ none ↦ false | some b ↦ b ]

  unfoldable pub classify_backup_type : Text → Text → Option BackupType
  classify_backup_type template name =
      if not (contains_text template (codes "{type}"))
      then none
      else type_of (glob_matches template (codes "full") name)
          (glob_matches template (codes "incr") name)

  abbrev pub find_type : Text → BackupType → List BackupSummary → Option BackupSummary
  find_type template type l =
      find_first (λ b. is_type type (classify_backup_type template b.name)) l

  unfoldable pub resume_matching : Text → ℕ → ℕ → ℕ → List BackupSummary → ResumeDecision
  resume_matching template watch_interval full_interval now [] = full_now
  resume_matching template watch_interval full_interval now (newest ∷ older) =
      elim (find_type template full (newest ∷ older)) [
        | none ↦ full_now
        | some last_full ↦ elim last_full.timestamp [
          | none ↦ full_now
          | some full_ts ↦
              decide watch_interval full_interval now newest.name full_ts
                (last_backup full_ts (find_type template incr (newest ∷ older)))
        ]
      ]

  unfoldable pub resume_state : List BackupSummary → Text → ℕ → ℕ → ℕ → ResumeDecision
  resume_state backups template watch_interval full_interval now =
      resume_matching template watch_interval full_interval now (matching_backups template backups)
