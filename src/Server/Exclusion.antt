-- ===== src/Server/Exclusion.antt =====
-- Two operations never work on one backup at once, whatever the interleaving of the calls of
-- src/server/state.rs.
use chbackup.Base.{
  ℕ, Bool, true, false, not, ◌&&◌, Option, some, List, [], ◌∷◌, ◌++◌, ◌≡◌, ◌≢◌, refl, sym, ap, ◌∙◌,
  inl, inr, ◌⊎◌, arith, keep_if, any_of_mem, mem-keep_if, mem-append_cases, mem-cons_cases,
  Bool-cases, subst, Memᴰ,
}
use native.Mathlib.Decide.{ℕ_discrete}
use chbackup.Base.Text.{Text, text_eq_refl}
use chbackup.Server.{
  RunningOp, has_id, without, is_for, set_permit, has_conflict, has_other_conflict,
}

-- Operations that hold a permit and work on the same backup are one operation.
abbrev pub AreExclusive : List RunningOp → Type 0
AreExclusive ops =
    (a b : RunningOp) (name : Text)
    → Memᴰ a ops
    → Memᴰ b ops
    → a.permit ≡ true
    → b.permit ≡ true
    → a.backup_name ≡ some name
    → b.backup_name ≡ some name
    → a.id ≡ b.id

pub AreExclusive-keep :
    (p : RunningOp → Bool) (ops : List RunningOp) → AreExclusive ops → AreExclusive (keep_if p ops)
AreExclusive-keep p ops h a b name ma mb =
    h a b name (mem-keep_if p ops ma).0 (mem-keep_if p ops mb).0

is_for_self :
    (op : RunningOp) (name : Text) → op.backup_name ≡ some name → is_for name op.backup_name ≡ true
unfolding is_for
is_for_self op name e = rw (e, is_for) (text_eq_refl name)

no_conflict :
    (name : Text) (ops : List RunningOp) (a : RunningOp)
    → has_conflict (some name) ops ≡ false
    → Memᴰ a ops
    → a.backup_name ≡ some name
    → ⊥
unfolding has_conflict
no_conflict name ops a h m e =
    cc (h, any_of_mem (λ op. is_for name op.backup_name) ops m (is_for_self a name e))

-- An inserted operation is harmless if it has no permit, or nothing works on its backup.
pub AreExclusive-insert :
    (op : RunningOp) (ops : List RunningOp)
    → (op.permit ≡ false) ⊎ (has_conflict op.backup_name ops ≡ false)
    → AreExclusive ops
    → AreExclusive (without op.id ops ++ op ∷ [])
unfolding without
AreExclusive-insert op ops c h a b name ma mb pa pb ea eb =
    elim (mem-append_cases (without op.id ops) (op ∷ []) ma) [
      | inl na ↦ elim (mem-append_cases (without op.id ops) (op ∷ []) mb) [
        | inl nb ↦ h a b name (mem-keep_if _ ops na).0 (mem-keep_if _ ops nb).0 pa pb ea eb
        | inr ob ↦ absurd (clash a b (mem-keep_if _ ops na).0 ob ea pb eb)
      ]
      | inr oa ↦ elim (mem-append_cases (without op.id ops) (op ∷ []) mb) [
        | inl nb ↦ absurd (clash b a (mem-keep_if _ ops nb).0 oa eb pa ea)
        | inr ob ↦ only oa ob
      ]
    ]
  where
    same : (x : RunningOp) → Memᴰ x (op ∷ []) → x ≡ op
    same x m = elim (mem-cons_cases m) [ inl e ↦ e | inr n ↦ elim n [ ] ]

    only : Memᴰ a (op ∷ []) → Memᴰ b (op ∷ []) → a.id ≡ b.id
    only oa ob = ap (λ (x : RunningOp). x.id) (same a oa ∙ sym (same b ob))

    clash :
        (x y : RunningOp)
        → Memᴰ x ops
        → Memᴰ y (op ∷ [])
        → x.backup_name ≡ some name
        → y.permit ≡ true
        → y.backup_name ≡ some name
        → ⊥
    clash x y mx oy ex py ey = elim c [
      | inl unpermitted ↦ cc (unpermitted, py, ap (λ (z : RunningOp). z.permit) (same y oy))
      | inr free ↦
          no_conflict name ops x
            (subst (λ (o : Option Text). has_conflict o ops ≡ false)
              (sym (ap (λ (z : RunningOp). z.backup_name) (same y oy)) ∙ ey) free)
            mx ex
    ]

pub has_id-eq : (id : ℕ) (op : RunningOp) → has_id id op ≡ true → op.id ≡ id
unfolding has_id
has_id-eq id op h = ground arith

has_id-ne : (id : ℕ) (op : RunningOp) → op.id ≢ id → has_id id op ≡ false
unfolding has_id
has_id-ne id op h = ground arith

-- The members of `set_permit`.
pub set_permit-mem :
    (id : ℕ) (ops : List RunningOp) (a : RunningOp)
    → Memᴰ a (set_permit id ops).0
    → (o : RunningOp) × Memᴰ o ops
      × (a.id ≡ o.id)
      × (a.backup_name ≡ o.backup_name)
      × ((a.permit ≡ o.permit) ⊎ (o.id ≡ id))
unfolding set_permit
set_permit-mem id [] a m = elim m [ ]
set_permit-mem id (op ∷ ops) a m = elim (Bool-cases (has_id id op)) [
  | inl e ↦ elim (mem-cons_cases (rw e at m)) [
    | inl q ↦ (op, Memᴰ.head refl, ground (arith, q), ground (arith, q), inr (has_id-eq id op e))
    | inr n ↦ (a, Memᴰ.tail n, refl, refl, inl refl)
  ]
  | inr e ↦ elim (mem-cons_cases (rw e at m)) [
    | inl q ↦ (op, Memᴰ.head refl, ground (arith, q), ground (arith, q), inl (ground (arith, q)))
    | inr n ↦ let (o, mo, i, b, p) = set_permit-mem id ops a n in (o, Memᴰ.tail mo, i, b, p)
  ]
]

no_other_conflict :
    (id : ℕ) (name : Text) (ops : List RunningOp) (a : RunningOp)
    → has_other_conflict id (some name) ops ≡ false
    → Memᴰ a ops
    → a.backup_name ≡ some name
    → a.id ≡ id
unfolding has_other_conflict
no_other_conflict id name ops a h m e = elim (ℕ_discrete a.id id) [
  | yes same ↦ same
  | no other ↦ absurd (
      cc (
        h,
        any_of_mem (λ op. not (has_id id op) && is_for name op.backup_name) ops m
            (ground (arith, has_id-ne id a other, is_for_self a name e)),
      ))
]

-- The operations of `id` all work on the backup `name`.
abbrev pub WorksOn : ℕ → Option Text → List RunningOp → Type 0
WorksOn id name ops = (a : RunningOp) → Memᴰ a ops → a.id ≡ id → a.backup_name ≡ name

pub AreExclusive-set_permit :
    (id : ℕ) (name : Option Text) (ops : List RunningOp)
    → WorksOn id name ops
    → has_other_conflict id name ops ≡ false
    → AreExclusive ops
    → AreExclusive (set_permit id ops).0
AreExclusive-set_permit id name ops w c h a b n ma mb pa pb ea eb =
    let (o, mo, io, bo, po) = set_permit-mem id ops a ma in
    let (u, mu, iu, bu, pu) = set_permit-mem id ops b mb in
    elim po [
      | inr oid ↦ io ∙ oid ∙ sym (iu ∙ other u (n_of o oid mo (sym bo ∙ ea)) mu (sym bu ∙ eb))
      | inl ko ↦ elim pu [
        | inr uid ↦ io ∙ other o (n_of u uid mu (sym bu ∙ eb)) mo (sym bo ∙ ea) ∙ sym (iu ∙ uid)
        | inl ku ↦
            io ∙ h o u n mo mu (sym ko ∙ pa) (sym ku ∙ pb) (sym bo ∙ ea) (sym bu ∙ eb) ∙ sym iu
      ]
    ]
  where
    n_of : (x : RunningOp) → x.id ≡ id → Memᴰ x ops → x.backup_name ≡ some n → name ≡ some n
    n_of x i m e = sym (w x m i) ∙ e

    other : (x : RunningOp) → name ≡ some n → Memᴰ x ops → x.backup_name ≡ some n → x.id ≡ id
    other x e m q =
        no_other_conflict id n ops x
          (subst (λ (o : Option Text). has_other_conflict id o ops ≡ false) e c) m q
