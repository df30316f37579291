-- ===== src/Lib.antt =====
-- chbackup backs ClickHouse tables up to S3 and restores them. This library models the parts of it
-- that decide what is kept, what is deleted, and who may work on what at the same time.
--
-- The parts and how they interact. A backup is a manifest of tables, their disks and their parts
-- (src/manifest.rs). An incremental backup is diffed against the manifest of its base
-- (src/backup/diff.rs): a part that the base has with the same checksum is carried, that is, its
-- entry refers to the base's S3 keys. The listing of backups (src/list.rs) reads manifests into
-- summaries; retention and clean_broken (src/list.rs) delete backups by these summaries, and read
-- the manifests of the surviving ones first, to protect the keys that they still refer to. Commands
-- on the same host exclude each other by PID lock files (src/lock.rs). The API server
-- (src/server/state.rs) runs operations under a semaphore and records them in a ring buffer of
-- actions (src/server/actions.rs). The watch loop (src/watch/mod.rs) decides from the listing when
-- the next full or incremental backup is due, and against which base.
--
-- The files, by the source that they model:
--   Manifest          src/manifest.rs: BackupManifest, TableManifest, PartInfo, S3ObjectInfo, with
--                     the fields that the other parts read. A hash map is the list of its entries,
--                     in the order in which an iteration gives them.
--   Diff              src/backup/diff.rs: diff_parts, its three loops and its lookup (Diff/Lookup,
--                     Diff/Carry, Diff/Origin hold the proofs).
--   Listing           src/list.rs: summary_from_manifest, compute_object_disk_size,
--                     resolve_backup_shortcut; Listing/Cache: ManifestCache, list_remote_cached.
--   Retention         src/list.rs: collect_key_prefixes_from_manifest, is_key_protected,
--                     plan_retention_deletions, collect_incremental_bases, retention_remote_inner;
--                     Retention/Local: retention_local.
--   CleanBroken       src/list.rs: plan_clean_broken_deletion, apply_clean_broken_plan,
--                     clean_broken_remote.
--   Lock              src/lock.rs: the lock files, holder_is_live, inspect_lock_file, the scopes,
--                     check_cross_tier_exclusion; Lock/Acquire: PidLock::acquire, acquire_gate,
--                     acquire_scoped.
--   Actions           src/server/actions.rs: ActionLog with start, finish, fail, kill, running.
--   Server            src/server/state.rs: AppState, try_start_op, queue_start_op (enqueue_op and
--                     resume_op, before and after its wait), finish_op, fail_op, kill_op,
--                     validate_backup_name, reject_reserved_backup_name.
--   Server/Tasks      src/server/state.rs: run_operation with its task, its lock and the cache
--                     (Server/Endings says how a
--                     task may end, Server/TaskEnds holds the proofs).
--   Server/Steps      src/server/state.rs: the same calls, each cut into its sections between two
--                     awaits, as steps of a system whose calls interleave freely.
--   Watch             src/watch/mod.rs: resume_state with classify_backup_type, build_type_glob and
--                     resolve_template_prefix; Watch/Names: resolve_name_template; Watch/Context:
--                     WatchContext with its setters, apply_config_reload, the intervals;
--                     Watch/Loop: run_watch_loop, its cycle stage by stage, handle_error,
--                     interruptible_sleep; Watch/Events: the abstract machine of its iterations
--                     (Watch/Turns, Watch/Contract, Watch/Limit, Watch/Status hold the proofs).
--   Config            src/config.rs: the settings that the loop reads, parse_duration_secs;
--                     src/list.rs: effective_retention_local, effective_retention_remote.
--   RestoreOrder      src/restore/topo.rs: classify_restore_tables, sort_tables_for_drop and the
--                     priorities of engines; RestoreOrder/Topo: topological_sort (Kahn, Drain,
--                     Graph, Dependencies hold the proofs); RestoreOrder/Parts:
--                     src/restore/sort.rs.
--   ObjectDisk        src/object_disk.rs: parse_metadata, serialize_metadata, rewrite_metadata and
--                     the keys of objects.
--   Paths             src/path_encoding.rs: encode_path_component, sanitize_path_component,
--                     validate_disk_path.
--   Base              what the others share: tests, lists, texts, lines, decimal numbers, signed
--                     numbers, lists without repetitions, a stable sort.
--
-- How the code corresponds to the model. A text is the list of its character codes. A struct is a
-- record and an enum is a data type with the source's constructors, without the fields that none of
-- the modelled functions reads. A `Result` is a Result or, where only the failure matters, an
-- Option. What a function mutates is an argument and a part of its result. A reading of the clock
-- is an argument. Logging is left out. A `u64` counter is taken modulo 2 ^ 64, as a release build
-- does; the order of a hash map's iteration is whatever order the list has.
--
-- What is a parameter. S3 is a record of the requests that the code makes (ObjectStore in
-- Retention, Bucket in CleanBroken), over a state of any type; each request can fail. The theorems
-- that speak of the keys that are present rely on one law: a deletion leaves every key alone that
-- it is not given. The operating system's answers about processes and the JSON coding are the
-- record Host in Lock; the glob library is the parameter `matches` of Watch, and str::to_uppercase
-- is `upper` in RestoreOrder; char::is_alphanumeric and the file system's canonicalize are parameters
-- of Paths. The watch loop's calls of the rest of the program (listing, lock,
-- creation, upload, deletion, retention, cache), its clock and its signals are the record World in
-- Watch/Loop, over a state of any type; Watch/Contract says what each call may rely on. What other
-- processes or calls do while a function waits is a function `others` in Lock/Acquire and
-- Listing/Cache.
--
-- Bounds and fuel. PidLock::acquire makes 6 attempts and re-reads a corrupt file 3 times, and the
-- gate makes 40 attempts; these are the source's constants, and each loop is structural on the
-- attempts left. Six attempts are enough for an undisturbed acquisition: a corrupt file takes three
-- re-reads, one removal and one publication. Which files the user may remove is a part of the lock
-- directory, and a removal that fails leaves the file, as the code ignores the failure. The watch loop need not
-- end, so its fuel is a number of iterations, after which it may still be running. The queue of the
-- topological sort has one unit of fuel for each key, as each key is taken off at most once. The
-- digits of a number have as much fuel as the number. Every other loop is structural on a list.
--
-- What is not modelled: requests to ClickHouse and S3, the walk of local directories, printing, the
-- pipelines of upload, download and restore, the configuration's loading and validation, the types
-- of disks in src/object_disk.rs, metrics, and the HTTP routes. With the routes, the replacement of
-- the semaphore by a reload or a restart that changes allow_parallel is left out: the permits are
-- those of one semaphore. A panic is modelled where an operation's closure raises it in its task. The
-- temporary file by which a lock is published is left out, since it is removed again. The lock
-- directory is one flat directory, so a backup's name holds no slash, which validate_backup_name
-- sees to. The pause of a queued call ends in one of three ways, which is an argument of resume_op;
-- in Server/Steps it ends by a free permit, by the closing of the semaphore or by the cancellation
-- of the call's token, whenever that happens.
pub mod Base
pub mod Manifest
pub mod Diff
pub mod Listing
pub mod Retention
pub mod Actions
pub mod Server
pub mod ObjectDisk
pub mod RestoreOrder
pub mod Watch
pub mod Lock
pub mod CleanBroken
pub mod Config
pub mod Paths
