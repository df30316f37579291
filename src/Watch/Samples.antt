-- ===== src/Watch/Samples.antt =====
-- A world for runs of the watch loop of src/watch/mod.rs: its state is the backup that is locked.
use chbackup.Base.{Bool, true, false, Option, none, some, [], ◌∷◌, ◌≡◌, refl, inl, if◌then◌else◌}
use chbackup.Base.Int.{pos}
use chbackup.Base.Text.{Text, codes, text_eq}
use chbackup.Retention.Tests.{at_time}
use chbackup.Config.{Config}
use chbackup.Watch.Context.{WatchContext, idle}
use chbackup.Watch.Loop.{World}
use chbackup.Watch.Limit.{IsDown}
use chbackup.Watch.Contract.{Contract}

-- The remote is reached, or nothing of it.
abbrev pub sample_world : Bool → World
sample_world reached = record {
  State = Option Text;
  matches = λ pattern name. some (text_eq pattern name);
  format = λ now f. codes "now";
  shutdown_flag = λ s. false;
  clock = λ s. (s, 150);
  signals = λ d s. (s, []);
  list_remote = λ s. (s, if reached then some (at_time "full" 100 ∷ []) else none);
  lock_backup = λ n s. (some n, true);
  drop_lock = λ n s. none;
  create = λ n t s. (s, true);
  upload = λ n base s. (s, reached);
  invalidate_cache = λ s. s;
  delete_local = λ n s. s;
  retention_local = λ k s. s;
  retention_remote = λ k s. (s, some 0);
}

abbrev pub sample_config : Config
sample_config = record {
  general = record { backups_to_keep_local = pos 0; backups_to_keep_remote = pos 7 };
  retention = record { backups_to_keep_local = pos 0; backups_to_keep_remote = pos 0 };
  backup_tables = [];
  watch = record {
    watch_interval = codes "1h";
    full_interval = codes "24h";
    name_template = codes "shard-{type}";
    tables = none;
    max_consecutive_errors = 3;
    retry_interval = codes "5m";
    delete_local_after_upload = true;
  };
}

abbrev pub sample_context : WatchContext
sample_context = record {
  config = sample_config;
  state = idle;
  consecutive_errors = 0;
  force_next_full = false;
  last_backup_name = none;
  macros = [];
  watch_status = record {
    state = codes "inactive";
    last_full = none;
    last_incr = none;
    consecutive_errors = 0;
    next_backup_in = none;
  };
}

pub unreached-IsDown : IsDown (sample_world false)
unreached-IsDown = record {
  lists_nothing = λ s. inl refl;
  no_upload = λ n base s. refl;
  no_wake = λ d s. refl;
  runs = λ s. refl;
}

-- The state is the lock that is held.
pub sample-Contract : Contract (sample_world true) (λ held s. s ≡ held)
sample-Contract = record {
  clock_keeps = λ h s i. i;
  sleep_keeps = λ h d s i. i;
  list_keeps = λ s i. i;
  lock_taken = λ n s v i e. refl;
  lock_refused = λ n s v i e. absurd (cc e);
  drop_keeps = λ n s i. refl;
  create_keeps = λ n t s i. i;
  upload_keeps = λ n base s f i. i;
  invalidate_keeps = λ n s i. i;
  delete_keeps = λ n s i. i;
  local_keeps = λ n k s p i. i;
  remote_keeps = λ n k s p i. i;
}
