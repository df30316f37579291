-- ===== src/Retention/Keys.antt =====
-- Key protection in src/list.rs: what `is_key_protected` decides, and that a manifest's prefixes
-- cover the data of each of its parts.
use chbackup.Base.{
  Bool, true, ◌&&◌, some, List, [], ◌∷◌, ◌++◌, ◌≡◌, ◌≢◌, refl, sym, ap, ◌∙◌, subst, inl, inr, ◌⊎◌,
  ◌↔◌, arith, Memᴰ, Bool-cases, any_of_mem, mem_of_any, mem-append_left, mem-append_right,
  mem-append_cases, mem-cons_cases,
}
use chbackup.Base.Text.{
  Text, contains, starts_with, starts_with-append, append_of_starts_with, ends_with_char,
  contains_of_mem, mem_of_contains,
}
use chbackup.Manifest.{S3ObjectInfo, PartInfo, TableManifest, BackupManifest}
use chbackup.Diff.{PartKey, disk_entries, table_entries, base_entries}
use chbackup.Retention.{
  insert_key, object_keys, optional_object_keys, part_keys, disk_keys, table_keys, tables_keys,
  collect_key_prefixes_from_manifest, is_key_protected,
}

-- An entry covers a key that it equals, and if it ends in a slash every key below it.
abbrev pub Covers : Text → Text → Type 0
Covers entry key =
    (key ≡ entry) ⊎ ((ends_with_char entry b'/' ≡ true) × ((rest : Text) × (key ≡ entry ++ rest)))

abbrev below : Text → Text → Bool
below key entry = ends_with_char entry b'/' && starts_with key entry

protected_cover :
    (key : Text) (protected : List Text)
    → is_key_protected key protected ≡ true
    → (entry : Text) × Memᴰ entry protected × Covers entry key
unfolding is_key_protected
protected_cover key protected h = elim (Bool-cases (contains protected key)) [
  | inl e ↦ (key, mem_of_contains key protected e, inl refl)
  | inr e ↦
      let (entry, m, b) = mem_of_any (below key) protected (ground arith) in
      let (rest, q) = append_of_starts_with key entry (ground arith) in
      (entry, m, inr (ground arith, (rest, q)))
]

cover_protected :
    (key : Text) (protected : List Text) (entry : Text)
    → Memᴰ entry protected
    → Covers entry key
    → is_key_protected key protected ≡ true
unfolding is_key_protected
cover_protected key protected entry m (inl e) =
    rw (contains_of_mem key protected (subst (λ k. Memᴰ k protected) (sym e) m))
cover_protected key protected entry m (inr (slash, (rest, e))) =
    let s : starts_with key entry ≡ true =
      subst (λ k. starts_with k entry ≡ true) (sym e) (starts_with-append entry rest) in
    ground (arith, any_of_mem (below key) protected m (ground arith))

-- A key is protected exactly when some protected entry covers it.
pub is_key_protected_iff :
    (key : Text) (protected : List Text)
    → (is_key_protected key protected ≡ true)
      ↔ ((entry : Text) × Memᴰ entry protected × Covers entry key)
is_key_protected_iff key protected =
    (protected_cover key protected, λ c. cover_protected key protected c.0 c.1 c.2)

pub protected-append_left :
    (key : Text) (l m : List Text)
    → is_key_protected key l ≡ true
    → is_key_protected key (l ++ m) ≡ true
protected-append_left key l m h =
    let (entry, n, c) = protected_cover key l h in
    cover_protected key (l ++ m) entry (mem-append_left l m n) c

pub protected-append_right :
    (key : Text) (l m : List Text)
    → is_key_protected key m ≡ true
    → is_key_protected key (l ++ m) ≡ true
protected-append_right key l m h =
    let (entry, n, c) = protected_cover key m h in
    cover_protected key (l ++ m) entry (mem-append_right l m n) c

-- A key that a part refers to: its own, or that of one of its objects.
abbrev pub RefersTo : PartInfo → Text → Type 0
RefersTo part key =
    (part.backup_key ≡ key)
    ⊎ ((os : List S3ObjectInfo) × (part.s3_objects ≡ some os)
        × ((o : S3ObjectInfo) × Memᴰ o os × (o.backup_key ≡ key)))

mem-insert_key : (key : Text) → key ≢ [] → Memᴰ key (insert_key key)
unfolding insert_key
mem-insert_key [] ne = absurd (ne refl)
mem-insert_key (c ∷ s) ne = Memᴰ.head refl

mem-object_keys :
    (os : List S3ObjectInfo) (o : S3ObjectInfo)
    → Memᴰ o os
    → o.backup_key ≢ []
    → Memᴰ o.backup_key (object_keys os)
unfolding object_keys
mem-object_keys [] o m ne = elim m [ ]
mem-object_keys (x ∷ os) o m ne = elim (mem-cons_cases m) [
  | inl e ↦
      mem-append_left (insert_key x.backup_key) (object_keys os) (
        subst (λ q. Memᴰ o.backup_key (insert_key q.backup_key)) e (mem-insert_key o.backup_key ne))
  | inr n ↦ mem-append_right (insert_key x.backup_key) (object_keys os) (mem-object_keys os o n ne)
]

part_keys-mem :
    (part : PartInfo) (key : Text) → RefersTo part key → key ≢ [] → Memᴰ key (part_keys part)
unfolding part_keys
part_keys-mem part key (inl e) ne =
    mem-append_left (insert_key part.backup_key) (optional_object_keys part.s3_objects)
      (subst (λ q. Memᴰ key (insert_key q)) (sym e) (mem-insert_key key ne))
part_keys-mem part key (inr (os, e, (o, m, q))) ne =
    mem-append_right (insert_key part.backup_key) (optional_object_keys part.s3_objects) (
      subst (λ x. Memᴰ key (optional_object_keys x)) (sym e)
        (subst (λ x. Memᴰ x (object_keys os)) q (mem-object_keys os o m (λ z. ne (sym q ∙ z)))))

disk_keys-mem :
    (t d : Text) (ps : List PartInfo) (k : PartKey) (part : PartInfo) (key : Text)
    → Memᴰ (k, part) (disk_entries t d ps)
    → Memᴰ key (part_keys part)
    → Memᴰ key (disk_keys ps)
unfolding disk_entries disk_keys
disk_keys-mem t d [] k part key m r = elim m [ ]
disk_keys-mem t d (p ∷ ps) k part key m r = elim (mem-cons_cases m) [
  | inl e ↦
      mem-append_left (part_keys p) (disk_keys ps)
        (subst (λ q. Memᴰ key (part_keys q)) (ap (λ (x : PartKey × PartInfo). x.1) e) r)
  | inr n ↦ mem-append_right (part_keys p) (disk_keys ps) (disk_keys-mem t d ps k part key n r)
]

table_keys-mem :
    (t : Text) (ds : List (Text × List PartInfo)) (k : PartKey) (part : PartInfo) (key : Text)
    → Memᴰ (k, part) (table_entries t ds)
    → Memᴰ key (part_keys part)
    → Memᴰ key (table_keys ds)
unfolding table_entries table_keys
table_keys-mem t [] k part key m r = elim m [ ]
table_keys-mem t ((d, ps) ∷ ds) k part key m r =
    elim (mem-append_cases (disk_entries t d ps) (table_entries t ds) m) [
      | inl n ↦ mem-append_left (disk_keys ps) (table_keys ds) (disk_keys-mem t d ps k part key n r)
      | inr n ↦ mem-append_right (disk_keys ps) (table_keys ds) (table_keys-mem t ds k part key n r)
    ]

tables_keys-mem :
    (ts : List (Text × TableManifest)) (k : PartKey) (part : PartInfo) (key : Text)
    → Memᴰ (k, part) (base_entries ts)
    → Memᴰ key (part_keys part)
    → Memᴰ key (tables_keys ts)
unfolding base_entries tables_keys
tables_keys-mem [] k part key m r = elim m [ ]
tables_keys-mem ((t, tm) ∷ ts) k part key m r =
    elim (mem-append_cases (table_entries t tm.parts) (base_entries ts) m) [
      | inl n ↦
          mem-append_left (table_keys tm.parts) (tables_keys ts)
            (table_keys-mem t tm.parts k part key n r)
      | inr n ↦
          mem-append_right (table_keys tm.parts) (tables_keys ts)
            (tables_keys-mem ts k part key n r)
    ]

-- A manifest's prefixes protect every key, not empty, that one of its parts refers to.
pub collect-protects :
    (manifest : BackupManifest) (k : PartKey) (part : PartInfo) (key : Text)
    → Memᴰ (k, part) (base_entries manifest.tables)
    → RefersTo part key
    → key ≢ []
    → is_key_protected key (collect_key_prefixes_from_manifest manifest) ≡ true
unfolding collect_key_prefixes_from_manifest
collect-protects manifest k part key m r ne =
    cover_protected key (tables_keys manifest.tables) key
      (tables_keys-mem manifest.tables k part key m (part_keys-mem part key r ne)) (inl refl)
