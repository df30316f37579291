-- ===== src/Base/Decimal.antt =====
-- Rust's `parse` and `to_string` of unsigned integers: an optional plus sign, then digits, up to a
-- greatest value.
use mathlib.Core.Bool.{true, false, ◌||◌}
use mathlib.Core.Logic.{inl, inr}
use mathlib.Core.List.{[], ◌∷◌}
use mathlib.Core.Option.{Option, none, some}
use mathlib.Core.Path.{◌≡◌, ◌∙◌}
use native.Mathlib.Omega.{arith}
use Prim.Native.Nat.{ℕ, zero, suc, ◌+◌, ◌-◌, ◌*◌, ◌/◌, ◌%◌, ◌≤◌}
use chbackup.Base.Tests.{ltb, ◌==◌, if◌then◌else◌, Bool-cases}
use chbackup.Base.Lists.{All}
use chbackup.Base.Text.{Text}

abbrev pub IsDigit : ℕ → Type 0
IsDigit c = (b'0' ≤ c) × (c ≤ b'9')

-- `n.to_string()`; the fuel is enough when it is at least the number.
unfoldable pub digits : ℕ → ℕ → Text → Text
digits zero n out = (b'0' + n % 10) ∷ out
digits (suc fuel) n out = elim (ltb n 10) [
  | true ↦ (b'0' + n) ∷ out
  | false ↦ digits fuel (n / 10) ((b'0' + n % 10) ∷ out)
]

unfoldable pub print_uint : ℕ → Text
unfolding digits
print_uint n = digits n n []

-- The digits behind a value, with the checks of its multiplication and addition.
unfoldable pub scan_digits : ℕ → Text → ℕ → Option ℕ
scan_digits max [] n = some n
scan_digits max (c ∷ s) n =
    let next = n * 10 + (c - b'0') in
    let rest = scan_digits max s next in
    if ltb c b'0' || (ltb b'9' c || ltb max next) then none else rest

-- `s.parse::<uN>()`, where `max` is the type's greatest value
unfoldable pub parse_uint : ℕ → Text → Option ℕ
unfolding scan_digits
parse_uint max [] = none
parse_uint max (c ∷ []) = if c == b'+' then none else scan_digits max (c ∷ []) 0
parse_uint max (c ∷ d ∷ s) =
    if c == b'+' then scan_digits max (d ∷ s) 0 else scan_digits max (c ∷ d ∷ s) 0

scan-digits :
    (max fuel n : ℕ) (out : Text)
    → n ≤ fuel
    → n ≤ max
    → scan_digits max (digits fuel n out) 0 ≡ scan_digits max out n
unfolding digits scan_digits
scan-digits max zero n out f h = ground arith
scan-digits max (suc fuel) n out f h =
    ground (arith, scan-digits max fuel (n / 10) ((b'0' + n % 10) ∷ out))

pub digits-All :
    (fuel n : ℕ) (out : Text) → n ≤ fuel → All IsDigit out → All IsDigit (digits fuel n out)
unfolding digits
digits-All zero n out f h = (omega arith, h)
digits-All (suc fuel) n out f h = elim (Bool-cases (ltb n 10)) [
  | inl e ↦ rw (e, All) (ground arith, h)
  | inr e ↦
      rw (e, All) (digits-All fuel (n / 10) ((b'0' + n % 10) ∷ out) (ground arith) (omega arith, h))
]

pub print_uint-All : (n : ℕ) → All IsDigit (print_uint n)
unfolding print_uint
print_uint-All n = digits-All n n [] (omega arith) tt

abbrev pub IsPositive : Text → Type 0
IsPositive [] = ⊥
IsPositive (c ∷ s) = Unit

digits-IsPositive : (fuel n : ℕ) (out : Text) → IsPositive (digits fuel n out)
unfolding digits
digits-IsPositive zero n out = tt
digits-IsPositive (suc fuel) n out = elim (Bool-cases (ltb n 10)) [
  | inl e ↦ rw (e, IsPositive) tt
  | inr e ↦ rw (e, IsPositive) (digits-IsPositive fuel (n / 10) ((b'0' + n % 10) ∷ out))
]

-- A printed text is not empty.
pub print_uint-IsPositive : (n : ℕ) → IsPositive (print_uint n)
unfolding print_uint
print_uint-IsPositive n = digits-IsPositive n n []

parse-scan :
    (max : ℕ) (s : Text) → All IsDigit s → IsPositive s → parse_uint max s ≡ scan_digits max s 0
unfolding parse_uint
parse-scan max [] a p = absurd p
parse-scan max (c ∷ []) a p = ground arith
parse-scan max (c ∷ d ∷ s) a p = ground arith

-- Every number that the type holds is read back from its print.
pub parse_uint-print_uint : (max n : ℕ) → n ≤ max → parse_uint max (print_uint n) ≡ some n
unfolding print_uint scan_digits
parse_uint-print_uint max n h =
    parse-scan max (print_uint n) (print_uint-All n) (print_uint-IsPositive n)
    ∙ scan-digits max n n [] (omega arith) h
