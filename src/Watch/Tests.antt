-- ===== src/Watch/Tests.antt =====
-- Decisions of src/watch/mod.rs about one backup, with a glob that knows no wildcard.
use chbackup.Base.{
  false, none, inl, arith, Bool, true, Option, some, List, [], ◌∷◌, ◌≡◌, refl, Memᴰ,
}
use chbackup.Base.Text.{Text, codes, text_eq, starts_with}
use chbackup.Base.Sort.{sort, insert}
use chbackup.Listing.{BackupSummary, broken_summary}
use chbackup.Retention.Plan.{older}
use chbackup.Retention.Tests.{at_time}
use chbackup.Watch.{
  incr_now, sleep_then_incr, is_candidate, resolve_template_prefix, resume_state, resume_matching,
  matching_backups, decide, last_backup, classify_backup_type, glob_pattern, escaped,
  escaped_glob_char, before_colon, contains_text,
}
use chbackup.Watch.Loop.{iterate, run_watch_loop}
use chbackup.Watch.Events.{Turn, health}
use chbackup.Watch.Turns.{iterate-Turn}
use chbackup.Watch.Contract.{run_watch_loop-keeps}
use chbackup.Watch.Limit.{GivesUp, run_watch_loop-GivesUp}
use chbackup.Watch.Status.{IsConsistent, run_watch_loop-IsConsistent}
use chbackup.Watch.Samples.{sample_world, sample_context, unreached-IsDown, sample-Contract}
use chbackup.Watch.Resume.{IsCandidate, HasFreshFull, resume_state-incr}

abbrev equal_text : Text → Text → Option Bool
equal_text pattern name = some (text_eq pattern name)

abbrev template : Text
template = codes "{type}"

abbrev one_full : List BackupSummary
one_full = at_time "full" 100 ∷ []

incr_due : resume_state equal_text one_full template 20 1000 150 ≡ incr_now (codes "full")
unfolding resume_state resume_matching matching_backups is_candidate resolve_template_prefix
    broken_summary sort insert classify_backup_type glob_pattern escaped escaped_glob_char
    before_colon contains_text text_eq starts_with decide last_backup
incr_due = refl

sleeps : resume_state equal_text one_full template 80 1000 150 ≡ sleep_then_incr 30
unfolding resume_state resume_matching matching_backups is_candidate resolve_template_prefix
    broken_summary sort insert classify_backup_type glob_pattern escaped escaped_glob_char
    before_colon contains_text text_eq starts_with decide last_backup
sleeps = refl

resume_state-incr_example :
    HasFreshFull equal_text template one_full 1000 150
    × ((b : BackupSummary) × Memᴰ b one_full
        × IsCandidate (resolve_template_prefix template) b
        × (b.name ≡ codes "full")
        × ((c : BackupSummary)
            → Memᴰ c one_full
            → IsCandidate (resolve_template_prefix template) c
            → older c b ≡ true))
resume_state-incr_example =
    resume_state-incr equal_text one_full template 20 1000 150 (codes "full") incr_due

iterate-Turn_example :
    Turn
      (sample_world true)
      sample_context
      none
      (iterate (sample_world true) sample_context none).exit
      (health (iterate (sample_world true) sample_context none).ctx)
iterate-Turn_example = iterate-Turn (sample_world true) sample_context none

run_watch_loop-keeps_example :
    (run_watch_loop (sample_world true) 2 sample_context none).world ≡ none
run_watch_loop-keeps_example =
    run_watch_loop-keeps (sample_world true) (λ held s. s ≡ held) sample-Contract 2 sample_context
      none refl

run_watch_loop-GivesUp_example :
    GivesUp
      (sample_world false)
      sample_context
      (run_watch_loop (sample_world false) 4 sample_context none)
run_watch_loop-GivesUp_example =
    run_watch_loop-GivesUp (sample_world false) unreached-IsDown sample_context none (omega arith)
      (omega arith) refl

run_watch_loop-IsConsistent_example :
    IsConsistent (run_watch_loop (sample_world true) 5 sample_context none).ctx
run_watch_loop-IsConsistent_example =
    run_watch_loop-IsConsistent (sample_world true) 5 sample_context none refl refl (inl refl)
