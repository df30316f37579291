-- ===== src/Paths/Disk.antt =====
-- Which disk paths src/path_encoding.rs lets through.
use chbackup.Base.{
  Bool, true, false, not, ◌||◌, Option, some, List, [], ◌∷◌, ◌++◌, ◌≡◌, ◌≢◌, ◌↔◌, refl, sym, ap,
  ap₂, ◌∙◌, subst, ◌⊎◌, inl, inr, arith, if◌then◌else◌, any_of_mem, mem_of_any, Bool-cases,
  Option-cases, Memᴰ,
}
use chbackup.Base.Text.{Text, codes, text_eq, eq_of_text_eq, text_eq_refl, starts_with, is_empty}
use chbackup.Base.Lines.{split, trim_end}
use chbackup.Paths.{
  is_slash, forbidden_prefixes, path_components, is_prefix, is_under, is_under_canonical,
  check_forbidden, resolves_forbidden, validate_disk_path,
}

-- A path that is a directory or lies below it.
abbrev pub LiesUnder : Text → Text → Type 0
LiesUnder path prefix = (rest : List Text) × (path_components path ≡ path_components prefix ++ rest)

prefix_rest : (p l : List Text) → is_prefix p l ≡ true → (rest : List Text) × (l ≡ p ++ rest)
unfolding is_prefix
prefix_rest [] l h = (l, refl)
prefix_rest (x ∷ p) [] h = absurd (cc h)
prefix_rest (x ∷ p) (y ∷ l) h = elim (Bool-cases (text_eq x y)) [
  | inl e ↦
      let (rest, q) = prefix_rest p l (rw e at h) in
      (rest, ap₂ (λ (z : Text) (m : List Text). z ∷ m) (sym (eq_of_text_eq x y e)) q)
  | inr e ↦ absurd (cc (rw e at h))
]

is_prefix-append : (p rest : List Text) → is_prefix p (p ++ rest) ≡ true
unfolding is_prefix
is_prefix-append [] rest = refl
is_prefix-append (x ∷ p) rest = rw (text_eq_refl x) (is_prefix-append p rest)

pub is_under_iff : (path prefix : Text) → (is_under path prefix ≡ true) ↔ LiesUnder path prefix
unfolding is_under
is_under_iff path prefix = (
  prefix_rest (path_components prefix) (path_components path),
  λ (rest, e).
      ap (is_prefix (path_components prefix)) e ∙ is_prefix-append (path_components prefix) rest,
)

-- The tests of a path, one after the other.
abbrev cascade : Bool → Bool → Bool → Bool → Bool → Bool
cascade a b c d e =
    if not a then false else if b then false else if c then false else if d then false else not e

all_tests :
    (a b c d e : Bool)
    → cascade a b c d e ≡ true
    → (a ≡ true) × (b ≡ false) × (c ≡ false) × (d ≡ false) × (e ≡ false)
all_tests a b c d e h =
    (ground (arith, h), ground (arith, h), ground (arith, h), ground (arith, h), ground (arith, h))

tests_all :
    (a b c d e : Bool)
    → a ≡ true
    → b ≡ false
    → c ≡ false
    → d ≡ false
    → e ≡ false
    → cascade a b c d e ≡ true
tests_all a b c d e p q r s t = rw (p, q, r, s, t) refl

refuted : (b : Bool) → (b ≡ true → ⊥) → b ≡ false
refuted true f = absurd (f refl)
refuted false f = refl

filled : (t : Text) → t ≢ [] → is_empty t ≡ false
filled [] n = absurd (n refl)
filled (c ∷ t) n = refl

module _ (canonicalize : Text → Option Text) where
  abbrev LiesUnderEither : Text → Text → Type 0
  LiesUnderEither path prefix =
      LiesUnder path prefix ⊎ ((c : Text) × (canonicalize prefix ≡ some c) × LiesUnder path c)

  abbrev test : Text → Text → Bool
  test path prefix = is_under path prefix || is_under_canonical canonicalize path prefix

  canonical_iff :
      (path prefix : Text)
      → (is_under_canonical canonicalize path prefix ≡ true)
        ↔ ((c : Text) × (canonicalize prefix ≡ some c) × LiesUnder path c)
  unfolding is_under_canonical
  canonical_iff path prefix = (
    λ h. elim (Option-cases (canonicalize prefix)) [
      | inl e ↦ absurd (cc (rw (e, is_under_canonical) at h))
      | inr (c, e) ↦ (c, e, (is_under_iff path c).0 (rw (e, is_under_canonical) at h))
    ],
    λ (c, e, u). rw (e, is_under_canonical) ((is_under_iff path c).1 u),
  )

  test_iff : (path prefix : Text) → (test path prefix ≡ true) ↔ LiesUnderEither path prefix
  test_iff path prefix = (forwards, backwards)
    where
      forwards : test path prefix ≡ true → LiesUnderEither path prefix
      forwards h = elim (Bool-cases (is_under path prefix)) [
        | inl e ↦ inl ((is_under_iff path prefix).0 e)
        | inr e ↦ inr ((canonical_iff path prefix).0 (rw e at h))
      ]

      backwards : LiesUnderEither path prefix → test path prefix ≡ true
      backwards (inl u) = rw ((is_under_iff path prefix).1 u) refl
      backwards (inr u) = ground (arith, (canonical_iff path prefix).1 u)

  -- A path below a system directory, or below what that resolves to.
  abbrev pub IsForbidden : Text → Type 0
  IsForbidden path = (prefix : Text) × Memᴰ prefix forbidden_prefixes × LiesUnderEither path prefix

  pub check_forbidden_iff :
      (path : Text) → (check_forbidden canonicalize path ≡ true) ↔ IsForbidden path
  unfolding check_forbidden
  check_forbidden_iff path = (
    λ h.
        let (prefix, m, t) = mem_of_any (test path) forbidden_prefixes h in
        (prefix, m, (test_iff path prefix).0 t),
    λ (prefix, m, u). any_of_mem (test path) forbidden_prefixes m ((test_iff path prefix).1 u),
  )

  -- What a disk path that passes is.
  pub record IsDiskPath (path : Text) : Type 0 where
    pub absolute : starts_with path (codes "/") ≡ true
    pub not_slashes : trim_end is_slash path ≢ []
    pub no_parent : Memᴰ (codes "..") (split b'/' (trim_end is_slash path)) → ⊥
    pub allowed : IsForbidden (trim_end is_slash path) → ⊥
    pub resolves_allowed :
        (c : Text) → canonicalize (trim_end is_slash path) ≡ some c → IsForbidden c → ⊥

  resolves_forbidden-false :
      (path : Text)
      → resolves_forbidden canonicalize path ≡ false
      → (c : Text) → canonicalize path ≡ some c
      → IsForbidden c
      → ⊥
  unfolding resolves_forbidden
  resolves_forbidden-false path h c e u =
      cc (sym (rw (e, resolves_forbidden) at h) ∙ (check_forbidden_iff c).1 u)

  false-resolves_forbidden :
      (path : Text)
      → ((c : Text) → canonicalize path ≡ some c → IsForbidden c → ⊥)
      → resolves_forbidden canonicalize path ≡ false
  unfolding resolves_forbidden
  false-resolves_forbidden path f = elim (Option-cases (canonicalize path)) [
    | inl e ↦ rw (e, resolves_forbidden) refl
    | inr (c, e) ↦ elim (Bool-cases (check_forbidden canonicalize c)) [
      | inl t ↦ absurd (f c e ((check_forbidden_iff c).0 t))
      | inr t ↦ rw (e, resolves_forbidden) t
    ]
  ]

  -- A disk path passes exactly if it is absolute, does not consist of slashes alone and has no step
  -- upwards, and neither it without its trailing slashes nor what that resolves to is a system
  -- directory or lies below one, resolved or not.
  pub validate_disk_path_iff :
      (path : Text) → (validate_disk_path canonicalize path ≡ true) ↔ IsDiskPath path
  unfolding validate_disk_path text_eq
  validate_disk_path_iff path = (passes, passed)
    where
      passes : validate_disk_path canonicalize path ≡ true → IsDiskPath path
      passes h =
          let (a, b, c, d, e) = all_tests _ _ _ _ _ h in
          record {
            absolute = a;
            not_slashes = λ q. cc (sym b ∙ ap is_empty q);
            no_parent = λ m. cc (sym c ∙ any_of_mem (λ t. text_eq t (codes "..")) _ m refl);
            allowed = λ u. cc (sym d ∙ (check_forbidden_iff (trim_end is_slash path)).1 u);
            resolves_allowed = resolves_forbidden-false (trim_end is_slash path) e;
          }

      passed : IsDiskPath path → validate_disk_path canonicalize path ≡ true
      passed d =
          tests_all _ _ _ _ _ d.absolute (filled (trim_end is_slash path) d.not_slashes)
            (refuted _ (λ h.
              let (t, m, e) = mem_of_any (λ t. text_eq t (codes "..")) _ h in
              d.no_parent (
                subst (λ x. Memᴰ x (split b'/' (trim_end is_slash path)))
                  (eq_of_text_eq t (codes "..") e) m)))
            (refuted _ (λ h. d.allowed ((check_forbidden_iff (trim_end is_slash path)).0 h)))
            (false-resolves_forbidden (trim_end is_slash path) d.resolves_allowed)
