-- ===== src/Listing/Cache.antt =====
-- src/list.rs: the cache of the remote listing. Instants are numbers; the clock is read where an
-- argument `now` or `later` stands.
use chbackup.Base.{ℕ, ◌-◌, Option, none, some, List, ◌≡◌, refl, ap, ◌∙◌, arith, if◌then◌else◌, leb}
use chbackup.Listing.{BackupSummary}

pub record ManifestCache : Type 0 where
  pub summaries : Option (List BackupSummary)
  pub populated_at : Option ℕ
  pub ttl : ℕ

unfoldable pub new_cache : ℕ → ManifestCache
new_cache ttl = record { summaries = none; populated_at = none; ttl = ttl }

unfoldable pub get : ManifestCache → ℕ → Option (List BackupSummary)
get cache now = elim cache.populated_at [
  | none ↦ none
  | some t ↦ if leb cache.ttl (now - t) then none else cache.summaries
]

unfoldable pub set : ManifestCache → List BackupSummary → ℕ → ManifestCache
set cache l now = record cache { populated_at = some now; summaries = some l }

unfoldable pub invalidate : ManifestCache → ManifestCache
invalidate cache = record cache { summaries = none; populated_at = none }

unfoldable pub set_ttl : ManifestCache → ℕ → ManifestCache
set_ttl cache ttl = record cache { ttl = ttl }

-- `fetched` is what `list_remote` gives, with `none` for its failure, and `others` what other
-- callers do to the cache while the lock is not held.
unfoldable pub list_remote_cached :
    Option (List BackupSummary)
    → (ManifestCache → ManifestCache)
    → ManifestCache
    → ℕ
    → ℕ
    → ManifestCache × Option (List BackupSummary)
list_remote_cached fetched others cache now later = elim (get cache now) [
  | some l ↦ (cache, some l)
  | none ↦ elim fetched [
    | none ↦ (others cache, none)
    | some l ↦ (set (others cache) l later, some l)
  ]
]

get-set :
    (cache : ManifestCache) (l : List BackupSummary) (later t : ℕ)
    → get (set cache l later) t ≡ (if leb cache.ttl (t - later) then none else some l)
unfolding get set
get-set cache l later t = refl

get-invalidate : (cache : ManifestCache) (t : ℕ) → get (invalidate cache) t ≡ none
unfolding get invalidate
get-invalidate cache t = refl

-- On a miss with a successful request, the listing is what was fetched; until the cache's time to
-- live has passed since then the cache answers with it, after that and once it is invalidated with
-- nothing.
pub list_remote_cached-serves :
    (others : ManifestCache → ManifestCache) (cache : ManifestCache) (now later t : ℕ)
    (fetched : Option (List BackupSummary)) (l : List BackupSummary)
    → get cache now ≡ none
    → fetched ≡ some l
    → let (c, r) = list_remote_cached fetched others cache now later in
      (r ≡ some l)
      × (get c t ≡ (if leb (others cache).ttl (t - later) then none else some l))
      × (get (invalidate c) t ≡ none)
unfolding list_remote_cached
list_remote_cached-serves others cache now later t fetched l h f =
    let p : list_remote_cached fetched others cache now later
        ≡ (set (others cache) l later, some l) =
      stored fetched f in
    (
      ap (λ (x : ManifestCache × Option (List BackupSummary)). x.1) p,
      ap (λ (x : ManifestCache × Option (List BackupSummary)). get x.0 t) p
          ∙ get-set (others cache) l later t,
      get-invalidate (list_remote_cached fetched others cache now later).0 t,
    )
  where
    stored :
        (g : Option (List BackupSummary))
        → g ≡ some l
        → list_remote_cached g others cache now later ≡ (set (others cache) l later, some l)
    stored none e = absurd (cc e)
    stored (some k) e = ground (arith, h, e)

-- A hit gives the cached listing, whatever a request would give, and leaves the cache alone.
pub list_remote_cached-hit :
    (others : ManifestCache → ManifestCache) (cache : ManifestCache) (now later : ℕ)
    (fetched : Option (List BackupSummary)) (l : List BackupSummary)
    → get cache now ≡ some l
    → list_remote_cached fetched others cache now later ≡ (cache, some l)
unfolding list_remote_cached
list_remote_cached-hit others cache now later fetched l h = ground (arith, h)
