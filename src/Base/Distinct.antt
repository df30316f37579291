-- ===== src/Base/Distinct.antt =====
-- Lists of texts without repetitions.
use mathlib.Core.Path.{◌≡◌, refl, sym, ◌∙◌, subst}
use mathlib.Core.Logic.{inl, inr}
use mathlib.Core.Bool.{Bool, true, not, ◌&&◌}
use mathlib.Core.List.{List, [], ◌∷◌, ◌++◌, Memᴰ, Permᴰ}
use mathlib.Core.List.Permᴰ
use native.Mathlib.Omega.{arith}
use Prim.Native.Nat.{◌≤◌}
use chbackup.Base.Tests.{Bool-cases, &&_true}
use chbackup.Base.Lists.{length, keep_if, mem-cons_cases, mem-keep_if, mem-append_cases}
use chbackup.Base.Sort.{mem-perm, length-perm}
use chbackup.Base.Text.{Text, contains, contains_of_mem}

abbrev pub IsAbsent : Text → List Text → Type 0
IsAbsent x l = Memᴰ x l → ⊥

abbrev pub IsDistinct : List Text → Type 0
IsDistinct [] = Unit
IsDistinct (x ∷ l) = IsAbsent x l × IsDistinct l

abbrev pub IsPart : List Text → List Text → Type 0
IsPart l m = (x : Text) → Memᴰ x l → Memᴰ x m

pub IsDistinct-append :
    (l m : List Text)
    → IsDistinct l
    → IsDistinct m
    → ((x : Text) → Memᴰ x l → IsAbsent x m)
    → IsDistinct (l ++ m)
IsDistinct-append [] m dl dm f = dm
IsDistinct-append (x ∷ l) m dl dm f =
    (absent, IsDistinct-append l m dl.1 dm (λ y k. f y (Memᴰ.tail k)))
  where
    absent : IsAbsent x (l ++ m)
    absent k = elim (mem-append_cases l m k) [ inl a ↦ dl.0 a | inr b ↦ f x (Memᴰ.head refl) b ]

pub IsDistinct-keep_if : (p : Text → Bool) (l : List Text) → IsDistinct l → IsDistinct (keep_if p l)
IsDistinct-keep_if p [] d = tt
IsDistinct-keep_if p (x ∷ l) d = elim (Bool-cases (p x)) [
  | inl e ↦ rw (e, IsDistinct) ((λ k. d.0 (mem-keep_if p l k).0), IsDistinct-keep_if p l d.1)
  | inr e ↦ rw (e, IsDistinct) (IsDistinct-keep_if p l d.1)
]

IsAbsent-perm : {a b : Text} {l m : List Text} → a ≡ b → Permᴰ l m → IsAbsent a l → IsAbsent b m
IsAbsent-perm {a} {b} {l} {m} e p f k =
    f (subst (λ x. Memᴰ x l) (sym e) (mem-perm (Permᴰ.symm p) k))

IsAbsent-swap :
    {a b a' b' : Text} {l : List Text}
    → a ≡ b'
    → b ≡ a'
    → IsAbsent a (b ∷ l)
    → IsAbsent b l
    → IsAbsent a' (b' ∷ l)
IsAbsent-swap {a} {b} {a'} {b'} {l} e f g h k = elim (mem-cons_cases k) [
  | inl q ↦ g (Memᴰ.head (e ∙ sym q ∙ sym f))
  | inr t ↦ h (subst (λ x. Memᴰ x l) (sym f) t)
]

pub IsDistinct-perm : {l m : List Text} → Permᴰ l m → IsDistinct l → IsDistinct m
IsDistinct-perm Permᴰ.nil d = tt
IsDistinct-perm (Permᴰ.cons e p) d = (IsAbsent-perm e p d.0, IsDistinct-perm p d.1)
IsDistinct-perm (Permᴰ.swap {l = l} e f) d =
    (IsAbsent-swap e f d.0 d.1.0, (IsAbsent-perm e (Permᴰ.refl l) (λ k. d.0 (Memᴰ.tail k)), d.1.1))
IsDistinct-perm (Permᴰ.trans p q) d = IsDistinct-perm q (IsDistinct-perm p d)

-- A member of a list can be brought to its front.
pub bring_front : (x : Text) (m : List Text) → Memᴰ x m → (m' : List Text) × Permᴰ m (x ∷ m')
bring_front x [] k = elim k [ ]
bring_front x (y ∷ m) (Memᴰ.head e) = (m, Permᴰ.cons (sym e) (Permᴰ.refl m))
bring_front x (y ∷ m) (Memᴰ.tail k) =
    let (m', p) = bring_front x m k in
    (y ∷ m', Permᴰ.trans (Permᴰ.cons refl p) (Permᴰ.swap refl refl))

without_head : (x : Text) (l m : List Text) → IsAbsent x l → IsPart l (x ∷ m) → IsPart l m
without_head x l m a f y k = elim (mem-cons_cases (f y k)) [
  | inl e ↦ absurd (a (subst (λ z. Memᴰ z l) e k))
  | inr t ↦ t
]

-- A list without repetitions is not longer than one that has its members.
pub length-IsPart : (l m : List Text) → IsDistinct l → IsPart l m → length l ≤ length m
length-IsPart [] m d f = omega arith
length-IsPart (x ∷ l) m d f =
    let (m', p) = bring_front x m (f x (Memᴰ.head refl)) in
    let rest =
      length-IsPart l m' d.1 (without_head x l m' d.0 (λ y k. mem-perm p (f y (Memᴰ.tail k)))) in
    omega (arith, rest, length-perm p)

-- Two lists without repetitions and with the same members are permutations of each other.
pub perm_of_parts :
    (l m : List Text) → IsDistinct l → IsDistinct m → IsPart l m → IsPart m l → Permᴰ l m
perm_of_parts [] [] dl dm f g = Permᴰ.nil
perm_of_parts [] (y ∷ m) dl dm f g = elim (g y (Memᴰ.head refl)) [ ]
perm_of_parts (x ∷ l) m dl dm f g =
    let (m', p) = bring_front x m (f x (Memᴰ.head refl)) in
    let dm' = IsDistinct-perm p dm in
    Permᴰ.trans
      (Permᴰ.cons refl (
        perm_of_parts l m' dl.1 dm'.1
          (without_head x l m' dl.0 (λ y k. mem-perm p (f y (Memᴰ.tail k))))
          (without_head x m' l dm'.0 (λ y k. g y (mem-perm (Permᴰ.symm p) (Memᴰ.tail k))))))
      (Permᴰ.symm p)

abbrev pub all_distinct : List Text → Bool
all_distinct [] = true
all_distinct (x ∷ l) = not (contains l x) && all_distinct l

pub all_distinct-IsDistinct : (l : List Text) → all_distinct l ≡ true → IsDistinct l
all_distinct-IsDistinct [] h = tt
all_distinct-IsDistinct (x ∷ l) h =
    let (a, b) = &&_true (not (contains l x)) (all_distinct l) h in
    ((λ k. cc (a, contains_of_mem x l k)), all_distinct-IsDistinct l b)
