-- ===== src/Base/Lines.antt =====
-- Rust's `lines`, `split` by a character, and `trim`, with what they give on printed text.
use mathlib.Core.Bool.{Bool, false, ◌&&◌, ◌||◌}
use mathlib.Core.Logic.{◌≢◌}
use mathlib.Core.List.{[], ◌∷◌, List, ◌++◌}
use mathlib.Core.Path.{◌≡◌, refl}
use native.Mathlib.Omega.{arith}
use Prim.Native.Nat.{ℕ, ◌<◌}
use chbackup.Base.Tests.{leb, ◌==◌, if◌then◌else◌}
use chbackup.Base.Lists.{All}
use chbackup.Base.Text.{Text, is_empty}
use chbackup.Base.Decimal.{IsDigit}

abbrev pub newline : ℕ
newline = 10

abbrev pub carriage_return : ℕ
carriage_return = 13

abbrev pub tab : ℕ
tab = 9

-- `c` before the first line
abbrev pub cons_line : ℕ → List Text → List Text
cons_line c [] = (c ∷ []) ∷ []
cons_line c (l ∷ ls) = (c ∷ l) ∷ ls

-- `s.lines()`: a line ends at a newline, with or without a carriage return before it, or at the
-- text's end.
unfoldable pub lines : Text → List Text
lines [] = []
lines (c ∷ []) = if c == newline then [] ∷ [] else (c ∷ []) ∷ []
lines (c ∷ d ∷ s) =
    let rest = lines (d ∷ s) in
    let after = lines s in
    if c == newline
    then [] ∷ rest
    else if c == carriage_return && d == newline
    then [] ∷ after
    else cons_line c rest

-- `s.split(sep)`
unfoldable pub split : ℕ → Text → List Text
split sep [] = [] ∷ []
split sep (c ∷ s) = let rest = split sep s in if c == sep then [] ∷ rest else cons_line c rest

-- `char::is_whitespace`
unfoldable pub is_whitespace : ℕ → Bool
is_whitespace c =
    (leb 9 c && leb c 13)
    || (c == 32
        || (c == 133
            || (c == 160
                || (c == 5760
                    || ((leb 8192 c && leb c 8202)
                        || (c == 8232
                            || (c == 8233 || (c == 8239 || (c == 8287 || c == 12288)))))))))

unfoldable pub trim_start : (ℕ → Bool) → Text → Text
trim_start p [] = []
trim_start p (c ∷ s) = let rest = trim_start p s in if p c then rest else c ∷ s

unfoldable pub trim_end : (ℕ → Bool) → Text → Text
trim_end p [] = []
trim_end p (c ∷ s) = let rest = trim_end p s in if is_empty rest && p c then [] else c ∷ rest

-- `s.trim()`, and `trim_matches` of a character
unfoldable pub trim_by : (ℕ → Bool) → Text → Text
trim_by p s = trim_end p (trim_start p s)

unfoldable pub trim : Text → Text
unfolding trim_by
trim s = trim_by is_whitespace s

-- A text that `lines` gives back from behind a newline.
abbrev pub IsLine : Text → Type 0
IsLine [] = Unit
IsLine (c ∷ []) = (c ≢ newline) × (c ≢ carriage_return)
IsLine (c ∷ d ∷ s) = (c ≢ newline) × IsLine (d ∷ s)

pub lines-line : (l s : Text) → IsLine l → lines (l ++ newline ∷ s) ≡ l ∷ lines s
unfolding lines
lines-line [] [] h = refl
lines-line [] (c ∷ s) h = refl
lines-line (c ∷ []) [] h = ground arith
lines-line (c ∷ []) (d ∷ s) h = ground (arith, lines-line [] (d ∷ s) tt)
lines-line (c ∷ d ∷ l) s h = ground (arith, lines-line (d ∷ l) s h.1)

pub split-none : (sep : ℕ) (s : Text) → All (λ c. c ≢ sep) s → split sep s ≡ s ∷ []
unfolding split
split-none sep [] h = refl
split-none sep (c ∷ s) h = ground (arith, split-none sep s h.1)

pub split-append :
    (sep : ℕ) (s t : Text) → All (λ c. c ≢ sep) s → split sep (s ++ sep ∷ t) ≡ s ∷ split sep t
unfolding split
split-append sep [] t h = ground arith
split-append sep (c ∷ s) t h = ground (arith, split-append sep s t h.1)

trim_end-All : (p : ℕ → Bool) (s : Text) → All (λ c. p c ≡ false) s → trim_end p s ≡ s
unfolding trim_end
trim_end-All p [] h = refl
trim_end-All p (c ∷ s) h = ground (arith, h.0, trim_end-All p s h.1)

trim_start-All : (p : ℕ → Bool) (s : Text) → All (λ c. p c ≡ false) s → trim_start p s ≡ s
unfolding trim_start
trim_start-All p [] h = refl
trim_start-All p (c ∷ s) h = ground (arith, h.0)

pub trim_by-All : (p : ℕ → Bool) (s : Text) → All (λ c. p c ≡ false) s → trim_by p s ≡ s
unfolding trim_by
trim_by-All p s h = rw (trim_start-All p s h) (trim_end-All p s h)

pub digit_plain : (c : ℕ) → IsDigit c → is_whitespace c ≡ false
unfolding is_whitespace
digit_plain c h = ground arith

pub All-map_digit :
    (P : ℕ → Type 0) (s : Text) → ((c : ℕ) → IsDigit c → P c) → All IsDigit s → All P s
All-map_digit P [] f h = tt
All-map_digit P (c ∷ s) f h = (f c h.0, All-map_digit P s f h.1)

-- Digits are a line, hold no separator and no whitespace.
pub trim-digits : (s : Text) → All IsDigit s → trim s ≡ s
unfolding trim
trim-digits s h =
    trim_by-All is_whitespace s (All-map_digit (λ c. is_whitespace c ≡ false) s digit_plain h)

pub digits_sep : (sep : ℕ) (s : Text) → sep < b'0' → All IsDigit s → All (λ c. c ≢ sep) s
digits_sep sep s h a = All-map_digit (λ c. c ≢ sep) s (λ c d e. omega (arith, e)) a

pub digits-IsLine : (s : Text) → All IsDigit s → IsLine s
digits-IsLine [] h = tt
digits-IsLine (c ∷ []) h = ((λ e. omega (arith, e, h.0)), λ e. omega (arith, e, h.0))
digits-IsLine (c ∷ d ∷ s) h = ((λ e. omega (arith, e, h.0)), digits-IsLine (d ∷ s) h.1)

-- Behind a text with no line break, a line stays one.
pub append-IsLine :
    (s l : Text) → All (λ c. (c ≢ newline) × (c ≢ carriage_return)) s → IsLine l → IsLine (s ++ l)
append-IsLine [] l h k = k
append-IsLine (c ∷ []) [] h k = h.0
append-IsLine (c ∷ []) (d ∷ l) h k = (h.0.0, k)
append-IsLine (c ∷ d ∷ s) l h k = (h.0.0, append-IsLine (d ∷ s) l h.1 k)
