-- ===== src/Base/Sort.antt =====
-- The standard library's stable sort, as an insertion sort by a Boolean "not after".
use mathlib.Core.Path.{◌≡◌, refl, sym, ◌∙◌, subst}
use mathlib.Core.Logic.{inl, inr}
use mathlib.Core.Bool.{Bool, true, false}
use mathlib.Core.List.{List, [], ◌∷◌, ◌++◌, Memᴰ, Permᴰ}
use mathlib.Core.List.Permᴰ
use native.Mathlib.Omega.{arith}
use chbackup.Base.Tests.{if◌then◌else◌, Bool-cases}
use chbackup.Base.Lists.{All, length, mem-cons_cases}

module _ {ℓ} {A : Type ℓ} (leq : A → A → Bool) where
  unfoldable pub insert : A → List A → List A
  insert x [] = x ∷ []
  insert x (y ∷ ys) = let rest = y ∷ insert x ys in if leq x y then x ∷ y ∷ ys else rest

  unfoldable pub sort : List A → List A
  unfolding insert
  sort [] = []
  sort (x ∷ xs) = insert x (sort xs)

  -- Each element is not after any later one.
  abbrev pub IsSorted : List A → Type ℓ
  IsSorted [] = Unit
  IsSorted (x ∷ xs) = All (λ y. leq x y ≡ true) xs × IsSorted xs

  insert-perm : (x : A) (l : List A) → Permᴰ (insert x l) (x ∷ l)
  unfolding insert
  insert-perm x [] = Permᴰ.refl (x ∷ [])
  insert-perm x (y ∷ ys) = elim (Bool-cases (leq x y)) [
    | inl e ↦ rw e (Permᴰ.refl (x ∷ y ∷ ys))
    | inr e ↦ rw e (Permᴰ.trans (Permᴰ.cons refl (insert-perm x ys)) (Permᴰ.swap refl refl))
  ]

  pub sort-perm : (l : List A) → Permᴰ (sort l) l
  unfolding sort
  sort-perm [] = Permᴰ.nil
  sort-perm (x ∷ xs) = Permᴰ.trans (insert-perm x (sort xs)) (Permᴰ.cons refl (sort-perm xs))

module _ {ℓ} {A : Type ℓ} where
  pub mem-perm : {a : A} {l m : List A} → Permᴰ l m → Memᴰ a l → Memᴰ a m
  mem-perm Permᴰ.nil h = h
  mem-perm (Permᴰ.cons e p) h = elim (mem-cons_cases h) [
    | inl k ↦ Memᴰ.head (k ∙ e)
    | inr k ↦ Memᴰ.tail (mem-perm p k)
  ]
  mem-perm (Permᴰ.swap e f) h = elim (mem-cons_cases h) [
    | inl k ↦ Memᴰ.tail (Memᴰ.head (k ∙ e))
    | inr k ↦ elim (mem-cons_cases k) [
      | inl n ↦ Memᴰ.head (n ∙ f)
      | inr n ↦ Memᴰ.tail (Memᴰ.tail n)
    ]
  ]
  mem-perm (Permᴰ.trans p q) h = mem-perm q (mem-perm p h)

  pub length-perm : {l m : List A} → Permᴰ l m → length l ≡ length m
  length-perm Permᴰ.nil = refl
  length-perm (Permᴰ.cons e p) = omega (arith, length-perm p)
  length-perm (Permᴰ.swap e f) = omega arith
  length-perm (Permᴰ.trans p q) = length-perm p ∙ length-perm q

  pub All-perm {κ} : (P : A → Type κ) {l m : List A} → Permᴰ l m → All P l → All P m
  All-perm P Permᴰ.nil h = h
  All-perm P (Permᴰ.cons e p) h = (subst P e h.0, All-perm P p h.1)
  All-perm P (Permᴰ.swap e f) h = (subst P f h.1.0, (subst P e h.0, h.1.1))
  All-perm P (Permᴰ.trans p q) h = All-perm P q (All-perm P p h)

  pub All-mem {κ} : (P : A → Type κ) {a : A} (l : List A) → All P l → Memᴰ a l → P a
  All-mem P [] h m = elim m [ ]
  All-mem P (x ∷ xs) h (Memᴰ.head e) = subst P (sym e) h.0
  All-mem P (x ∷ xs) h (Memᴰ.tail m) = All-mem P xs h.1 m

  pub All-append_right {κ} : (P : A → Type κ) (l m : List A) → All P (l ++ m) → All P m
  All-append_right P [] m h = h
  All-append_right P (x ∷ l) m h = All-append_right P l m h.1

  pub All-map {κ μ} :
      (P : A → Type κ) (Q : A → Type μ) (l : List A) → ((a : A) → P a → Q a) → All P l → All Q l
  All-map P Q [] f h = tt
  All-map P Q (x ∷ l) f h = (f x h.0, All-map P Q l f h.1)

-- A total and transitive comparison sorts.
module _ {ℓ} {A : Type ℓ} (leq : A → A → Bool)
    (total : (a b : A) → leq a b ≡ false → leq b a ≡ true)
    (trans : (a b c : A) → leq a b ≡ true → leq b c ≡ true → leq a c ≡ true) where
  insert-IsSorted : (x : A) (l : List A) → IsSorted leq l → IsSorted leq (insert leq x l)
  unfolding insert
  insert-IsSorted x [] s = (tt, tt)
  insert-IsSorted x (y ∷ ys) s = elim (Bool-cases (leq x y)) [
    | inl e ↦ rw e (
      (e, All-map (λ z. leq y z ≡ true) (λ z. leq x z ≡ true) ys (λ z h. trans x y z e h) s.0),
      s,
    )
    | inr e ↦ rw e (
      All-perm (λ z. leq y z ≡ true) (Permᴰ.symm (insert-perm leq x ys)) (total x y e, s.0),
      insert-IsSorted x ys s.1,
    )
  ]

  pub sort-IsSorted : (l : List A) → IsSorted leq (sort leq l)
  unfolding sort
  sort-IsSorted [] = tt
  sort-IsSorted (x ∷ xs) = insert-IsSorted x (sort leq xs) (sort-IsSorted xs)

  -- In a sorted list what stands before a cut is not after what stands behind it.
  pub IsSorted-append :
      (l m : List A) {a b : A} → IsSorted leq (l ++ m) → Memᴰ a l → Memᴰ b m → leq a b ≡ true
  IsSorted-append [] m s ma mb = elim ma [ ]
  IsSorted-append (x ∷ l) m {a} {b} s (Memᴰ.head e) mb =
      rw e (All-mem (λ z. leq x z ≡ true) m (All-append_right _ l m s.0) mb)
  IsSorted-append (x ∷ l) m s (Memᴰ.tail n) mb = IsSorted-append l m s.1 n mb
