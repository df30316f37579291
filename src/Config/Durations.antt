-- ===== src/Config/Durations.antt =====
-- What durations of src/config.rs read as.
use chbackup.Base.{
  ℕ, ◌*◌, ◌≤◌, ◌<◌, min, false, none, [], ◌∷◌, ◌++◌, ◌≡◌, ◌≢◌, refl, sym, ap, subst, arith, inr,
  ◌⊎◌, ok, All,
}
use chbackup.Base.Text.{Text, codes, text_eq, is_empty}
use chbackup.Base.Decimal.{
  IsDigit, print_uint, print_uint-All, IsPositive, print_uint-IsPositive, parse_uint-print_uint,
}
use chbackup.Base.Lines.{trim, trim_by-All, All-map_digit, digit_plain, is_whitespace}
use chbackup.Listing.{u64_max}
use chbackup.Lock.{strip_suffix}
use chbackup.Lock.Scopes.{strip_suffix-append}
use chbackup.Config.{scaled, with_unit, parse_duration_secs}

-- A unit's letter, or none for seconds, and the seconds in it
pub data TimeUnit : Type 0 where
  hours minutes seconds plain : TimeUnit

abbrev pub letter : TimeUnit → Text
letter hours = codes "h"
letter minutes = codes "m"
letter seconds = codes "s"
letter plain = []

abbrev pub seconds_in : TimeUnit → ℕ
seconds_in hours = 3600
seconds_in minutes = 60
seconds_in seconds = 1
seconds_in plain = 1

append_nil : (s : Text) → s ++ [] ≡ s
append_nil [] = refl
append_nil (c ∷ s) = ap (λ (t : Text). c ∷ t) (append_nil s)

strip_suffix-none : (s : Text) (c : ℕ) → All (λ a. a ≢ c) s → strip_suffix s (c ∷ []) ≡ none
unfolding strip_suffix text_eq
strip_suffix-none [] c h = refl
strip_suffix-none (a ∷ s) c h = ground (arith, h.0, strip_suffix-none s c h.1)

-- Behind another letter the suffix is not found.
strip_suffix-other :
    (s : Text) (c d : ℕ)
    → d ≢ c
    → All IsDigit s
    → (c < b'0') ⊎ (b'9' < c)
    → strip_suffix (s ++ d ∷ []) (c ∷ []) ≡ none
strip_suffix-other s c d n h f = strip_suffix-none (s ++ d ∷ []) c (apart s h)
  where
    apart : (s : Text) → All IsDigit s → All (λ a. a ≢ c) (s ++ d ∷ [])
    apart [] h = (n, tt)
    apart (a ∷ s) h = ((λ e. omega (arith, e, h.0, f)), apart s h.1)

scaled-print :
    (n multiplier : ℕ)
    → n ≤ u64_max
    → scaled (print_uint n) multiplier ≡ ok (min (n * multiplier) u64_max)
unfolding scaled
scaled-print n multiplier h = rw (parse_uint-print_uint u64_max n h, scaled) refl

with_unit-print :
    (n : ℕ) (unit : TimeUnit)
    → n ≤ u64_max
    → with_unit (print_uint n ++ letter unit) ≡ ok (min (n * seconds_in unit) u64_max)
unfolding with_unit
with_unit-print n hours h =
    ground (arith, strip_suffix-append (print_uint n) (codes "h"), scaled-print n 3600 h)
with_unit-print n minutes h = ground (
  arith,
  strip_suffix-other (print_uint n) b'h' b'm' (omega arith) (print_uint-All n) (inr (omega arith)),
  strip_suffix-append (print_uint n) (codes "m"),
  scaled-print n 60 h,
)
with_unit-print n seconds h = ground (
  arith,
  strip_suffix-other (print_uint n) b'h' b's' (omega arith) (print_uint-All n) (inr (omega arith)),
  strip_suffix-other (print_uint n) b'm' b's' (omega arith) (print_uint-All n) (inr (omega arith)),
  strip_suffix-append (print_uint n) (codes "s"),
  scaled-print n 1 h,
)
with_unit-print n plain h =
    subst (λ (t : Text). with_unit t ≡ ok (min (n * 1) u64_max)) (sym (append_nil (print_uint n)))
      (ground (
        arith,
        no_letter b'h' (omega arith),
        no_letter b'm' (omega arith),
        no_letter b's' (omega arith),
        scaled-print n 1 h,
      ))
  where
    no_letter : (c : ℕ) → b'9' < c → strip_suffix (print_uint n) (c ∷ []) ≡ none
    no_letter c f = strip_suffix-none (print_uint n) c (
        All-map_digit (λ a. a ≢ c) (print_uint n) (λ a d e. omega (arith, e, d, f))
          (print_uint-All n))

digits_unit-plain :
    (s : Text) (unit : TimeUnit)
    → All IsDigit s
    → All (λ c. is_whitespace c ≡ false) (s ++ letter unit)
unfolding is_whitespace
digits_unit-plain [] hours h = (refl, tt)
digits_unit-plain [] minutes h = (refl, tt)
digits_unit-plain [] seconds h = (refl, tt)
digits_unit-plain [] plain h = tt
digits_unit-plain (c ∷ s) unit h = (digit_plain c h.0, digits_unit-plain s unit h.1)

append-IsPositive : (s t : Text) → IsPositive s → is_empty (s ++ t) ≡ false
append-IsPositive [] t h = absurd h
append-IsPositive (c ∷ s) t h = refl

-- A number with the letter of its unit, or with none for seconds, reads as that many seconds, or as
-- the greatest 64-bit number if that is less.
pub parse_duration_secs-print_uint :
    (n : ℕ) (unit : TimeUnit)
    → n ≤ u64_max
    → parse_duration_secs (print_uint n ++ letter unit) ≡ ok (min (n * seconds_in unit) u64_max)
unfolding parse_duration_secs trim
parse_duration_secs-print_uint n unit h = ground (
  arith,
  trimmed,
  append-IsPositive (print_uint n) (letter unit) (print_uint-IsPositive n),
  with_unit-print n unit h,
)
  where
    trimmed : trim (print_uint n ++ letter unit) ≡ print_uint n ++ letter unit
    trimmed =
        trim_by-All is_whitespace (print_uint n ++ letter unit)
          (digits_unit-plain (print_uint n) unit (print_uint-All n))
