-- ===== src/Listing/Shortcut.antt =====
-- What the shortcuts of src/list.rs resolve to.
use mathlib.Core.List.{Permᴰ}
use chbackup.Base.{
  ℕ, ◌-◌, ◌+◌, ◌≤◌, true, false, not, some, List, [], ◌∷◌, ◌++◌, ◌≡◌, refl, sym, subst, ap, ◌∙◌,
  arith, ltb, Memᴰ, length, length-append, keep_if, get_elem?, mem-append_right, ok,
}
use chbackup.Base.Text.{codes, text_eq}
use chbackup.Base.Sort.{sort-perm, length-perm}
use chbackup.Listing.{BackupSummary, valid_by_time, last, resolve_backup_shortcut}
use chbackup.Retention.Plan.{older, valid_by_time-before}

-- A list of two or more ends in two.
last_two :
    {A : Type 0} (x y : A) (l : List A)
    → (ys : List A) × (p : A) × (q : A) × (x ∷ y ∷ l ≡ ys ++ p ∷ q ∷ [])
last_two x y [] = ([], x, y, refl)
last_two x y (z ∷ l) =
    let (ys, p, q, e) = last_two y z l in (x ∷ ys, p, q, ap (λ (t : List _). x ∷ t) e)

last-append : {A : Type 0} (ys : List A) (p q : A) → last (ys ++ p ∷ q ∷ []) ≡ some q
unfolding last
last-append [] p q = refl
last-append (y ∷ []) p q = refl
last-append (y ∷ z ∷ ys) p q = last-append (z ∷ ys) p q

get_elem-append :
    {A : Type 0} (ys : List A) (p : A) (t : List A) → get_elem? (ys ++ p ∷ t) (length ys) ≡ some p
get_elem-append [] p t = refl
get_elem-append (y ∷ ys) p t = get_elem-append ys p t

split_two :
    (l : List BackupSummary)
    → 2 ≤ length l
    → (ys : List BackupSummary) × (p : BackupSummary) × (q : BackupSummary) × (l ≡ ys ++ p ∷ q ∷ [])
split_two [] h = absurd (omega arith)
split_two (x ∷ []) h = absurd (omega arith)
split_two (x ∷ y ∷ l) h = last_two x y l

resolve_latest :
    (backups : List BackupSummary) (ys : List BackupSummary) (p q : BackupSummary)
    → valid_by_time backups ≡ ys ++ p ∷ q ∷ []
    → resolve_backup_shortcut (codes "latest") backups ≡ ok q.name
unfolding resolve_backup_shortcut text_eq
resolve_latest backups ys p q e = ground (arith, ap last e, last-append ys p q)

resolve_previous :
    (backups : List BackupSummary) (ys : List BackupSummary) (p q : BackupSummary)
    → valid_by_time backups ≡ ys ++ p ∷ q ∷ []
    → resolve_backup_shortcut (codes "previous") backups ≡ ok p.name
unfolding resolve_backup_shortcut text_eq
resolve_previous backups ys p q e =
    let n : length (valid_by_time backups) ≡ length ys + 2 =
      ap (λ (l : List BackupSummary). length l) e ∙ length-append ys (p ∷ q ∷ []) in
    let enough : ltb (length (valid_by_time backups)) 2 ≡ false = ground (arith, n) in
    let there : get_elem? (valid_by_time backups) (length (valid_by_time backups) - 2) ≡ some p =
      ap (λ (k : ℕ). get_elem? (valid_by_time backups) k) (omega (arith, n))
      ∙ ap (λ (l : List BackupSummary). get_elem? l (length ys)) e
      ∙ get_elem-append ys p (q ∷ []) in
    ground (arith, enough, there)

perm_valid :
    (backups : List BackupSummary)
    → Permᴰ (valid_by_time backups) (keep_if (λ b. not b.is_broken) backups)
unfolding valid_by_time
perm_valid backups = sort-perm older (keep_if (λ b. not b.is_broken) backups)

-- With two valid backups or more, "latest" and "previous" resolve to the names of two of them:
-- the rest is not newer than the previous one, and that is not newer than the latest.
pub resolve_backup_shortcut-newest_two :
    (backups : List BackupSummary)
    → 2 ≤ length (keep_if (λ b. not b.is_broken) backups)
    → (rest : List BackupSummary) × (previous : BackupSummary) × (latest : BackupSummary) × Permᴰ
        (rest ++ previous ∷ latest ∷ [])
        (keep_if (λ b. not b.is_broken) backups)
      × ((a : BackupSummary) → Memᴰ a rest → older a previous ≡ true)
      × (older previous latest ≡ true)
      × (resolve_backup_shortcut (codes "latest") backups ≡ ok latest.name)
      × (resolve_backup_shortcut (codes "previous") backups ≡ ok previous.name)
resolve_backup_shortcut-newest_two backups h =
    let perm = perm_valid backups in
    let (ys, p, q, e) = split_two (valid_by_time backups) (omega (arith, h, length-perm perm)) in
    (
      ys,
      p,
      q,
      subst (λ l. Permᴰ l (keep_if (λ b. not b.is_broken) backups)) e perm,
      λ a m. valid_by_time-before backups ys (p ∷ q ∷ []) e m (Memᴰ.head refl),
      valid_by_time-before backups (ys ++ p ∷ []) (q ∷ []) (e ∙ sym (append_assoc_two ys p q))
          (mem-append_right ys (p ∷ []) (Memᴰ.head refl)) (Memᴰ.head refl),
      resolve_latest backups ys p q e,
      resolve_previous backups ys p q e,
    )
  where
    append_assoc_two :
        (ys : List BackupSummary) (p q : BackupSummary)
        → (ys ++ p ∷ []) ++ q ∷ [] ≡ ys ++ p ∷ q ∷ []
    append_assoc_two [] p q = refl
    append_assoc_two (y ∷ ys) p q = ap (λ (t : List BackupSummary). y ∷ t) (append_assoc_two ys p q)
