-- ===== src/Base/Text.antt =====
-- Texts as lists of code points, with the operations of Rust's `str` that the source uses.
use Prim.Native.Nat.{ℕ}
use Prim.Native.Char.{code}
use Prim.Native.String.{String}
use mathlib.Core.Path.{◌≡◌, refl, ap, ◌∙◌, sym}
use mathlib.Core.Logic.{◌↔◌, ◌≢◌, inl, inr}
use mathlib.Core.Bool.{Bool, true, false, ◌&&◌}
use mathlib.Core.Option.{Option, none, some}
use mathlib.Core.List.{List, [], ◌∷◌, ◌++◌, Memᴰ}
use native.Mathlib.Omega.{arith}
use chbackup.Base.Tests.{◌==◌, if◌then◌else◌, Bool-cases}
use chbackup.Base.Lists.{any, any_of_mem, mem_of_any}

abbrev pub Text : Type 0
Text = List ℕ

-- The code points of a literal.
abbrev pub codes : String → Text
codes String.[] = []
codes (String.◌∷◌ c s) = code c ∷ codes s

unfoldable pub text_eq : Text → Text → Bool
text_eq [] [] = true
text_eq (a ∷ s) (b ∷ t) = a == b && text_eq s t
text_eq _ _ = false

pub eq_of_text_eq : (s t : Text) → text_eq s t ≡ true → s ≡ t
unfolding text_eq
eq_of_text_eq [] [] h = refl
eq_of_text_eq (a ∷ s) (b ∷ t) h = ground (arith, eq_of_text_eq s t)
eq_of_text_eq [] (b ∷ t) h = absurd (cc)
eq_of_text_eq (a ∷ s) [] h = absurd (cc)

pub text_eq_refl : (s : Text) → text_eq s s ≡ true
unfolding text_eq
text_eq_refl [] = refl
text_eq_refl (a ∷ s) = ground (arith, text_eq_refl s)

pub text_eq_iff : (s t : Text) → (text_eq s t ≡ true) ↔ (s ≡ t)
text_eq_iff s t = (eq_of_text_eq s t, λ e. ap (text_eq s) (sym e) ∙ text_eq_refl s)

-- `set.contains(&s)` and `list.contains(&s)`.
abbrev pub contains : List Text → Text → Bool
contains l s = any (text_eq s) l

pub contains_of_mem : (s : Text) (l : List Text) → Memᴰ s l → contains l s ≡ true
contains_of_mem s l m = any_of_mem (text_eq s) l m (text_eq_refl s)

pub mem_of_contains : (s : Text) (l : List Text) → contains l s ≡ true → Memᴰ s l
mem_of_contains s l h = let (t, m, e) = mem_of_any (text_eq s) l h in rw (eq_of_text_eq s t e) m

pub not_contains : (s : Text) (l : List Text) → (Memᴰ s l → ⊥) → contains l s ≡ false
not_contains s l ne = elim (Bool-cases (contains l s)) [
  | inl e ↦ absurd (ne (mem_of_contains s l e))
  | inr e ↦ e
]

pub text_ne : (s t : Text) → s ≢ t → text_eq s t ≡ false
text_ne s t ne = elim (Bool-cases (text_eq s t)) [
  | inl e ↦ absurd (ne (eq_of_text_eq s t e))
  | inr e ↦ e
]

-- `s.strip_prefix(p)`.
unfoldable pub strip_prefix : Text → Text → Option Text
strip_prefix s [] = some s
strip_prefix [] (b ∷ p) = none
strip_prefix (a ∷ s) (b ∷ p) = let rest = strip_prefix s p in if a == b then rest else none

pub strip_prefix-append : (p s : Text) → strip_prefix (p ++ s) p ≡ some s
unfolding strip_prefix
strip_prefix-append [] s = refl
strip_prefix-append (b ∷ p) s = ground (arith, strip_prefix-append p s)

pub append_of_strip_prefix : (s p : Text) {r : Text} → strip_prefix s p ≡ some r → s ≡ p ++ r
unfolding strip_prefix
append_of_strip_prefix s [] h = ground arith
append_of_strip_prefix [] (b ∷ p) h = absurd (cc)
append_of_strip_prefix (a ∷ s) (b ∷ p) {r} h = ground (arith, append_of_strip_prefix s p {r = r})

-- `s.starts_with(p)`.
unfoldable pub starts_with : Text → Text → Bool
starts_with s [] = true
starts_with [] (b ∷ p) = false
starts_with (a ∷ s) (b ∷ p) = a == b && starts_with s p

pub starts_with-append : (p s : Text) → starts_with (p ++ s) p ≡ true
unfolding starts_with
starts_with-append [] s = refl
starts_with-append (b ∷ p) s = ground (arith, starts_with-append p s)

pub append_of_starts_with : (s p : Text) → starts_with s p ≡ true → (r : Text) × (s ≡ p ++ r)
unfolding starts_with
append_of_starts_with s [] h = (s, refl)
append_of_starts_with [] (b ∷ p) h = absurd (cc)
append_of_starts_with (a ∷ s) (b ∷ p) h =
    let (r, e) = append_of_starts_with s p (ground arith) in (r, ground arith)

-- `s.ends_with(c)` for a single character.
unfoldable pub ends_with_char : Text → ℕ → Bool
ends_with_char [] c = false
ends_with_char (a ∷ []) c = a == c
ends_with_char (a ∷ b ∷ s) c = ends_with_char (b ∷ s) c

abbrev pub is_empty {ℓ} : {A : Type ℓ} → List A → Bool
is_empty [] = true
is_empty (x ∷ xs) = false

pub text_eq_comm : (s t : Text) → text_eq s t ≡ text_eq t s
text_eq_comm s t = elim (Bool-cases (text_eq s t)) [
  | inl e ↦ e ∙ sym (ap (text_eq t) (eq_of_text_eq s t e) ∙ text_eq_refl t)
  | inr e ↦ e ∙ sym (text_ne t s (λ q. absurd (cc (e, ap (text_eq s) q ∙ text_eq_refl s))))
]
