-- ===== src/RestoreOrder.antt =====
-- src/restore/topo.rs: the phases in which tables are restored, and the order in which they are
-- dropped. `upper` is `str::to_uppercase`.
pub mod Kinds
pub mod Phases
pub mod Topo
pub mod Kahn
pub mod Drain
pub mod Graph
pub mod Dependencies
pub mod Parts
pub mod Attach
pub mod PartNames
pub mod Tests
use chbackup.Base.{
  ℕ, Bool, true, false, not, ◌&&◌, ◌||◌, Option, none, some, List, [], ◌∷◌, ◌++◌, if◌then◌else◌,
  ◌==◌, leb,
}
use chbackup.Base.Text.{Text, codes, text_eq, contains, starts_with}
use chbackup.Base.Sort.{sort}
use chbackup.Manifest.{TableManifest, BackupManifest}
use chbackup.Watch.{contains_text}

-- `table_key.split_once('.')`, the part behind the first point, or the whole
unfoldable pub after_point : Text → Option Text
after_point [] = none
after_point (c ∷ s) = let rest = after_point s in if c == b'.' then some s else rest

abbrev pub or_whole : Text → Option Text → Text
or_whole key none = key
or_whole key (some t) = t

unfoldable pub data_table_priority : Text → ℕ
data_table_priority key =
    if starts_with (or_whole key (after_point key)) (codes ".inner") then 1 else 0

unfoldable pub is_streaming_engine : Text → Bool
is_streaming_engine =
    contains (codes "Kafka" ∷ codes "NATS" ∷ codes "RabbitMQ" ∷ codes "S3Queue" ∷ [])

abbrev pub is_view : Text → Bool
is_view =
    contains (codes "View" ∷ codes "MaterializedView" ∷ codes "LiveView" ∷ codes "WindowView" ∷ [])

abbrev pub is_distributed : Text → Bool
is_distributed = contains (codes "Distributed" ∷ codes "Merge" ∷ [])

unfoldable pub engine_restore_priority : Text → ℕ
engine_restore_priority engine =
    if text_eq engine (codes "Dictionary")
    then 0
    else if is_view engine
    then 1
    else if is_distributed engine
    then 2
    else 3

unfoldable pub engine_drop_priority : Text → ℕ
engine_drop_priority engine =
    if is_distributed engine
    then 0
    else if is_view engine
    then 1
    else if text_eq engine (codes "Dictionary")
    then 2
    else 3

-- `manifest.tables.get(key)`
unfoldable pub find_table : Text → List (Text × TableManifest) → Option TableManifest
find_table key [] = none
find_table key ((k, tm) ∷ rest) =
    let later = find_table key rest in if text_eq k key then some tm else later

abbrev pub priority_or_last : Option TableManifest → ℕ
priority_or_last none = 3
priority_or_last (some tm) = engine_drop_priority tm.engine

unfoldable pub drop_priority : BackupManifest → Text → ℕ
drop_priority manifest key = priority_or_last (find_table key manifest.tables)

unfoldable pub sort_tables_for_drop : BackupManifest → List Text → List Text
sort_tables_for_drop manifest keys =
    sort (λ a b. leb (drop_priority manifest a) (drop_priority manifest b)) keys

pub record RestorePhases : Type 0 where
  pub data_tables : List Text
  pub postponed_tables : List Text
  pub ddl_only_tables : List Text

pub data Phase : Type 0 where
  data_phase postponed_phase ddl_only_phase : Phase

abbrev pub tables_of : Phase → RestorePhases → List Text
tables_of data_phase r = r.data_tables
tables_of postponed_phase r = r.postponed_tables
tables_of ddl_only_phase r = r.ddl_only_tables

-- `push` in the loop; a key is put before those of the later rounds.
abbrev pub push : Phase → Text → RestorePhases → RestorePhases
push data_phase key r = record r { data_tables = key ∷ r.data_tables }
push postponed_phase key r = record r { postponed_tables = key ∷ r.postponed_tables }
push ddl_only_phase key r = record r { ddl_only_tables = key ∷ r.ddl_only_tables }

module _ (upper : Text → Text) where
  unfoldable pub is_refreshable_mv : TableManifest → Bool
  is_refreshable_mv tm =
      if not (text_eq tm.engine (codes "MaterializedView"))
      then false
      else contains_text (upper tm.ddl) (codes " REFRESH ")
        || contains_text (upper tm.ddl) (10 ∷ codes "REFRESH ")

  unfoldable pub phase_of : TableManifest → Phase
  phase_of tm =
      if is_streaming_engine tm.engine || is_refreshable_mv tm
      then postponed_phase
      else if tm.metadata_only
      then ddl_only_phase
      else data_phase

  unfoldable pub split_tables : BackupManifest → List Text → RestorePhases
  split_tables manifest [] = record {
    data_tables = [];
    postponed_tables = [];
    ddl_only_tables = [];
  }
  split_tables manifest (key ∷ keys) =
      let rest = split_tables manifest keys in
      elim (find_table key manifest.tables) [ none ↦ rest | some tm ↦ push (phase_of tm) key rest ]

  unfoldable pub classify_restore_tables : BackupManifest → List Text → RestorePhases
  classify_restore_tables manifest keys =
      let phases = split_tables manifest keys in
      record phases {
        data_tables =
            sort (λ a b. leb (data_table_priority a) (data_table_priority b)) phases.data_tables;
      }
