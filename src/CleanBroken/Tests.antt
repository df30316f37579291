-- ===== src/CleanBroken/Tests.antt =====
-- Passes of `clean_broken_remote` over a bucket of keys in memory.
use chbackup.Base.{
  ℕ, ◌-◌, ◌≤◌, true, false, some, List, [], ◌∷◌, map, ◌≡◌, ◌≢◌, ◌↔◌, refl, inl, Memᴰ, keep_if, err,
}
use chbackup.Base.Text.{Text, codes, starts_with, text_eq}
use chbackup.Listing.{BackupSummary, broken_summary}
use chbackup.Manifest.{BackupManifest}
use chbackup.Lock.{lock_path_for_scope, is_lock_file_active, find_file, holder_is_live}
use chbackup.Lock.Tests.{host, directory}
use chbackup.CleanBroken.{
  Bucket, unreadable_manifest, delete, plan_clean_broken_deletion, lock_is_live,
  clean_broken_remote,
}
use chbackup.CleanBroken.Plan.{unprotected, plan_clean_broken_deletion_iff}
use chbackup.CleanBroken.Pass.{clean_broken_remote-fails_closed, clean_broken_remote-keeps}
use chbackup.Retention.Keys.{collect-protects}
use chbackup.Retention.Tests.{
  lookup_manifest, without, has, without-frame, incremental, fetch_new, at_time, part_of, p2-mem,
}

abbrev keys_bucket : List BackupManifest → Bucket
keys_bucket manifests = record {
  State = List Text;
  get_manifest = λ s name. lookup_manifest name manifests;
  list_objects = λ s prefix. some (
      map (λ k. record { key = k; last_modified = some 1 })
        (keep_if (λ k. starts_with k prefix) s));
  delete_objects = λ s keys. (without keys s, some 0);
}

abbrev listing : List BackupSummary
listing = broken_summary (codes "bad") [] ∷ at_time "new" 2 ∷ []

abbrev stored : List Text
stored = codes "bad/p9" ∷ codes "new/p2" ∷ codes "new/metadata.json" ∷ []

clean_broken_remote-fails_closed_example :
    (n : Text) × (clean_broken_remote (keys_bucket []) host (directory 9) [] 9000 60 listing stored
      ≡ (stored, err (unreadable_manifest n)))
unfolding lookup_manifest broken_summary
clean_broken_remote-fails_closed_example =
    clean_broken_remote-fails_closed (keys_bucket []) host (directory 9) [] 9000 60 listing stored
      (broken_summary (codes "bad") []) (at_time "new" 2) (Memᴰ.head refl) refl
      (Memᴰ.tail (Memᴰ.head refl)) refl refl

daily_live : lock_is_live host (directory 7) (codes "daily") ≡ true
unfolding lock_is_live is_lock_file_active lock_path_for_scope find_file holder_is_live text_eq
daily_live = refl

clean_broken_remote-keeps_example :
    has
      (clean_broken_remote
        (keys_bucket (incremental ∷ []))
        host
        (directory 9)
        []
        9000
        60
        listing
        stored).0
      (codes "new/p2")
    ≡ has stored (codes "new/p2")
unfolding broken_summary
clean_broken_remote-keeps_example =
    clean_broken_remote-keeps (keys_bucket (incremental ∷ [])) host (directory 9) [] 9000 60 has
      without-frame listing stored (at_time "new" 2) incremental (codes "new/p2")
      (Memᴰ.tail (Memᴰ.head refl)) refl fetch_new
      (collect-protects incremental (codes "db.t", codes "default", codes "p2")
        (part_of "p2" "new/p2" 9) (codes "new/p2") p2-mem (inl refl) (λ e. cc e))

plan_clean_broken_deletion_iff_example :
    (plan_clean_broken_deletion (codes "bad/p9" ∷ []) (some 1) 9000 60 false []
      ≡ delete (codes "bad/p9" ∷ []))
    ↔ ((false ≡ false)
        × ((t : ℕ) × (some 1 ≡ some t) × (60 ≤ 9000 - t))
        × ((codes "bad/p9" ∷ []) ≡ unprotected (codes "bad/p9" ∷ []) [])
        × ((codes "bad/p9" ∷ []) ≢ []))
plan_clean_broken_deletion_iff_example =
    plan_clean_broken_deletion_iff (codes "bad/p9" ∷ []) (some 1) 9000 60 false []
      (codes "bad/p9" ∷ [])
