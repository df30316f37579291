-- ===== src/Server/Names.antt =====
-- What the checks of a backup's name in src/server/state.rs let through.
use chbackup.Base.{
  ℕ, Bool, true, false, ◌&&◌, [], ◌∷◌, ◌++◌, ◌≡◌, ◌≢◌, ◌↔◌, refl, ap, inl, inr, arith, any_of_mem,
  mem_of_any, Bool-cases, subst, ◌==◌, Memᴰ, ok,
}
use chbackup.Base.Text.{Text, codes, text_eq, eq_of_text_eq, text_eq_refl, is_empty}
use chbackup.Server.{contains_char, contains_dot_dot, validate_backup_name}

-- A name that is one component of a path, and not a step upwards or none.
pub record IsPathComponent (name : Text) : Type 0 where
  pub nonempty : name ≢ []
  pub no_dot_dot : (l r : Text) → name ≢ l ++ b'.' ∷ b'.' ∷ r
  pub no_separator : (c : ℕ) → Memᴰ c name → (c ≢ b'/') × (c ≢ 92) × (c ≢ 0)
  pub not_dot : name ≢ codes "."

contains_dot_dot-append : (l r : Text) → contains_dot_dot (l ++ b'.' ∷ b'.' ∷ r) ≡ true
unfolding contains_dot_dot
contains_dot_dot-append [] r = refl
contains_dot_dot-append (a ∷ []) r = ground arith
contains_dot_dot-append (a ∷ b ∷ l) r = ground (arith, contains_dot_dot-append (b ∷ l) r)

contains_dot_dot-split :
    (s : Text) → contains_dot_dot s ≡ true → (l : Text) × (r : Text) × (s ≡ l ++ b'.' ∷ b'.' ∷ r)
unfolding contains_dot_dot
contains_dot_dot-split [] h = absurd (cc)
contains_dot_dot-split (a ∷ []) h = absurd (cc)
contains_dot_dot-split (a ∷ b ∷ s) h = elim (Bool-cases (a == b'.' && b == b'.')) [
  | inl e ↦ ([], s, ground (arith, e))
  | inr e ↦
      let (l, r, q) = contains_dot_dot-split (b ∷ s) (rw e at h) in
      (a ∷ l, r, ap (λ (t : Text). a ∷ t) q)
]

absent : (c : ℕ) (name : Text) → contains_char c name ≡ false → (a : ℕ) → Memᴰ a name → a ≢ c
unfolding contains_char
absent c name h a m q = cc (h, any_of_mem (λ b. b == c) name m (ground (arith, q)))

present : (c : ℕ) (name : Text) → contains_char c name ≡ true → Memᴰ c name
unfolding contains_char
present c name h =
    let (a, m, e) = mem_of_any (λ b. b == c) name h in subst (λ b. Memᴰ b name) (ground arith) m

-- The tests of `validate_backup_name`, apart.
record Passes (name : Text) : Type 0 where
  p_empty : is_empty name ≡ false
  p_dots : contains_dot_dot name ≡ false
  p_slash : contains_char b'/' name ≡ false
  p_backslash : contains_char 92 name ≡ false
  p_nul : contains_char 0 name ≡ false
  p_dot : text_eq name (codes ".") ≡ false

passes : (name : Text) → validate_backup_name name ≡ ok tt → Passes name
unfolding validate_backup_name
passes name h = record {
  p_empty = ground arith;
  p_dots = ground arith;
  p_slash = ground arith;
  p_backslash = ground arith;
  p_nul = ground arith;
  p_dot = ground arith;
}

passed : (name : Text) → Passes name → validate_backup_name name ≡ ok tt
unfolding validate_backup_name
passed name p = rw (p.p_empty, p.p_dots, p.p_slash, p.p_backslash, p.p_nul, p.p_dot) refl

IsPathComponent-Passes : (name : Text) → IsPathComponent name → Passes name
IsPathComponent-Passes name w = record {
  p_empty = nonempty_test name w.nonempty;
  p_dots = refute _ (λ h. let (l, r, e) = contains_dot_dot-split name h in w.no_dot_dot l r e);
  p_slash = refute _ (λ h. (w.no_separator b'/' (present b'/' name h)).0 refl);
  p_backslash = refute _ (λ h. (w.no_separator 92 (present 92 name h)).1 refl);
  p_nul = refute _ (λ h. (w.no_separator 0 (present 0 name h)).2 refl);
  p_dot = refute _ (λ h. w.not_dot (eq_of_text_eq name (codes ".") h));
}
  where
    refute : (b : Bool) → (b ≡ true → ⊥) → b ≡ false
    refute true h = absurd (h refl)
    refute false h = refl

    nonempty_test : (t : Text) → t ≢ [] → is_empty t ≡ false
    nonempty_test [] h = absurd (h refl)
    nonempty_test (a ∷ t) h = refl

Passes-IsPathComponent : (name : Text) → Passes name → IsPathComponent name
Passes-IsPathComponent name p = record {
  nonempty = λ e. cc (ap (λ (t : Text). is_empty t) e, p.p_empty);
  no_dot_dot = λ l r e. cc (p.p_dots, ap contains_dot_dot e, contains_dot_dot-append l r);
  no_separator = λ c m.
      (absent b'/' name p.p_slash c m, absent 92 name p.p_backslash c m, absent 0 name p.p_nul c m);
  not_dot = λ e. cc (p.p_dot, ap (λ (t : Text). text_eq t (codes ".")) e, text_eq_refl (codes "."));
}

-- A name passes `validate_backup_name` exactly if it is one path component: not empty, with no
-- "..", no slash, backslash or NUL, and not ".".
pub validate_backup_name_iff :
    (name : Text) → (validate_backup_name name ≡ ok tt) ↔ IsPathComponent name
validate_backup_name_iff name = (
  λ h. Passes-IsPathComponent name (passes name h),
  λ w. passed name (IsPathComponent-Passes name w),
)
