-- ===== src/Retention/Chain.antt =====
-- Incremental chains: src/backup/diff.rs and the retention pass of src/list.rs together.
use mathlib.Core.List.{map}
use chbackup.Base.{Bool, false, Option, some, List, [], ◌∷◌, ◌≡◌, ◌≢◌, sym, ap, subst, Memᴰ, ==_iff}
use chbackup.Base.Text.{Text, contains}
use chbackup.Manifest.{PartInfo, BackupManifest}
use chbackup.Diff.{PartKey, base_entries, base_lookup, diff_parts}
use chbackup.Diff.Carry.{carry, refresh, diff_parts-entries}
use chbackup.Retention.{RetentionPlan, ObjectStore, manifest_key, retention_remote_inner}
use chbackup.Retention.Keys.{RefersTo, collect-protects}
use chbackup.Retention.Pass.{retention_remote_inner-keeps}

mem-map {ℓ} : {A B : Type ℓ} (f : A → B) {a : A} (l : List A) → Memᴰ a l → Memᴰ (f a) (map f l)
mem-map f [] m = elim m [ ]
mem-map f (x ∷ l) (Memᴰ.head e) = Memᴰ.head (ap f e)
mem-map f (x ∷ l) (Memᴰ.tail m) = Memᴰ.tail (mem-map f l m)

carried-RefersTo :
    (n : Text) (b p : PartInfo) (key : Text)
    → p.checksum_crc64 ≡ b.checksum_crc64
    → RefersTo b key
    → RefersTo (carry n (some b) p) key
carried-RefersTo n b p key same r = rw ((==_iff p.checksum_crc64 b.checksum_crc64).1 same) r

-- The store, its keys, and the law of its deletions.
module _ (store : ObjectStore) (present : store.State → Text → Bool)
    (frame : (s : store.State) (keys : List Text) (key : Text)
      → contains keys key ≡ false
      → present (store.delete_keys s keys).0 key ≡ present s key) where
  -- A part that the current backup shares with its base, with the same checksum, keeps its data
  -- through a retention pass in which the incremental backup survives: a key, not empty, that the
  -- base's part refers to is present after the pass exactly if it was before, unless it is the
  -- manifest of a backup to delete. The base itself may be deleted in that pass.
  pub retention-keeps_carried :
      (current base : BackupManifest) (k : PartKey) (p b : PartInfo) (key name : Text)
      (plan : RetentionPlan) (s : store.State)
      → Memᴰ (k, p) (base_entries current.tables)
      → base_lookup base k ≡ some b
      → p.checksum_crc64 ≡ b.checksum_crc64
      → RefersTo b key
      → key ≢ []
      → Memᴰ name plan.surviving
      → store.fetch_manifest s name ≡ some (diff_parts current base).0
      → ((dead : Text) → Memᴰ dead plan.to_delete → key ≢ manifest_key dead)
      → present (retention_remote_inner store plan s).0 key ≡ present s key
  retention-keeps_carried current base k p b key name plan s m found same r ne kept fetched dead =
      let after = (diff_parts current base).0 in
      let q = carry base.name (base_lookup base k) p in
      let there : Memᴰ (k, q) (base_entries after.tables) =
        subst (Memᴰ (k, q)) (sym (diff_parts-entries current base).0)
          (mem-map (refresh base.name (base_lookup base)) (base_entries current.tables) m) in
      let refers : RefersTo q key =
        subst (λ (o : Option PartInfo). RefersTo (carry base.name o p) key) (sym found)
          (carried-RefersTo base.name b p key same r) in
      retention_remote_inner-keeps store present frame plan s name after key kept fetched
        (collect-protects after k q key there refers ne) dead
