-- ===== src/Paths/Encoding.antt =====
-- What the encoding of src/path_encoding.rs keeps and what it leaves out.
use chbackup.Base.{
  ℕ, ◌+◌, ◌-◌, ◌*◌, ◌/◌, ◌%◌, ◌<◌, Bool, true, false, ◌||◌, List, [], ◌∷◌, ◌++◌, ◌≡◌, ◌≢◌, refl,
  sym, ap, ap₂, ◌∙◌, ◌⊎◌, inl, inr, arith, if◌then◌else◌, ◌==◌, ltb, leb, All, Bool-cases,
}
use chbackup.Base.Text.{Text, codes, text_eq, text_eq_refl, is_empty}
use chbackup.Base.Lines.{trim_start}
use chbackup.Paths.{
  utf8_bytes, hex_digit, percent_encoded, is_slash, is_safe_char, encode_path_component,
  sanitize_path_component,
}

-- A byte and a character of Unicode
abbrev pub IsByte : ℕ → Type 0
IsByte b = b < 256

abbrev pub IsChar : ℕ → Type 0
IsChar c = c < 1114112

-- Percent-decoding: the bytes that a text stands for.
abbrev pub hex_value : ℕ → ℕ
hex_value d = if leb d b'9' then d - b'0' else (d - b'A') + 10

abbrev pub decoded : Text → List ℕ
decoded [] = []
decoded (c ∷ []) = utf8_bytes c
decoded (c ∷ d ∷ []) = utf8_bytes c ++ utf8_bytes d
decoded (c ∷ d ∷ e ∷ s) =
    let rest = decoded s in
    let later = decoded (d ∷ e ∷ s) in
    if c == b'%' then (hex_value d * 16 + hex_value e) ∷ rest else utf8_bytes c ++ later

abbrev pub all_bytes : Text → List ℕ
all_bytes [] = []
all_bytes (c ∷ s) = utf8_bytes c ++ all_bytes s

append_nil : (l : List ℕ) → l ++ [] ≡ l
append_nil [] = refl
append_nil (x ∷ l) = ap (λ (t : List ℕ). x ∷ t) (append_nil l)

append_assoc : (l m n : List ℕ) → (l ++ m) ++ n ≡ l ++ (m ++ n)
append_assoc [] m n = refl
append_assoc (x ∷ l) m n = ap (λ (t : List ℕ). x ∷ t) (append_assoc l m n)

decoded-plain : (c : ℕ) (s : Text) → c ≢ b'%' → decoded (c ∷ s) ≡ utf8_bytes c ++ decoded s
decoded-plain c [] n = sym (append_nil (utf8_bytes c))
decoded-plain c (d ∷ []) n = refl
decoded-plain c (d ∷ e ∷ s) n = ground (arith, n)

decoded-hex :
    (b : ℕ) (s : Text)
    → IsByte b
    → decoded (b'%' ∷ hex_digit (b / 16) ∷ hex_digit (b % 16) ∷ s) ≡ b ∷ decoded s
unfolding hex_digit
decoded-hex b s h = ap (λ (x : ℕ). x ∷ decoded s) pair
  where
    value : (d : ℕ) → d < 16 → hex_value (hex_digit d) ≡ d
    value d k = ground (arith, k)

    pair : hex_value (hex_digit (b / 16)) * 16 + hex_value (hex_digit (b % 16)) ≡ b
    pair = omega (arith, value (b / 16) (omega (arith, h)), value (b % 16) (omega arith))

decoded-percent_encoded :
    (bytes : List ℕ) (s : Text)
    → All IsByte bytes
    → decoded (percent_encoded bytes ++ s) ≡ bytes ++ decoded s
unfolding percent_encoded
decoded-percent_encoded [] s h = refl
decoded-percent_encoded (b ∷ bytes) s h =
    decoded-hex b (percent_encoded bytes ++ s) h.0
    ∙ ap (λ (t : List ℕ). b ∷ t) (decoded-percent_encoded bytes s h.1)

utf8_bytes-All : (c : ℕ) → IsChar c → All IsByte (utf8_bytes c)
unfolding utf8_bytes
utf8_bytes-All c h = elim (Bool-cases (ltb c 128)) [
  | inl e ↦ rw (e, All) (ground (arith, e), tt)
  | inr e ↦ elim (Bool-cases (ltb c 2048)) [
    | inl f ↦ rw (e, f, All) (ground (arith, f), (omega arith, tt))
    | inr f ↦ elim (Bool-cases (ltb c 65536)) [
      | inl g ↦ rw (e, f, g, All) (ground (arith, g), (omega arith, (omega arith, tt)))
      | inr g ↦
          rw (e, f, g, All) (omega (arith, h), (omega arith, (omega arith, (omega arith, tt))))
    ]
  ]
]

abbrev pub IsSlashless : Text → Type 0
IsSlashless s = All (λ c. c ≢ b'/') s

-- The name of a file in a directory, and not a step upwards.
pub record IsFileName (t : Text) : Type 0 where
  pub filled : t ≢ []
  pub slashless : IsSlashless t
  pub not_dot : t ≢ codes "."
  pub not_dot_dot : t ≢ codes ".."

module _ (is_alphanumeric : ℕ → Bool) (percent_plain : is_alphanumeric b'%' ≡ false) where
  safe-percent : (c : ℕ) → is_safe_char is_alphanumeric c ≡ true → c ≢ b'%'
  unfolding is_safe_char
  safe-percent c h e =
      let same : is_alphanumeric c ≡ false = ap is_alphanumeric e ∙ percent_plain in
      absurd (ground (arith, h, e, same))

  -- Percent-decoding an encoded component gives the bytes of the name, so that two names with
  -- different bytes have different components, if no percent sign counts as alphanumeric.
  pub encode_path_component-decoded :
      (s : Text) → All IsChar s → decoded (encode_path_component is_alphanumeric s) ≡ all_bytes s
  unfolding encode_path_component
  encode_path_component-decoded [] h = refl
  encode_path_component-decoded (c ∷ s) h =
      let rest = encode_path_component-decoded s h.1 in
      elim (Bool-cases (is_safe_char is_alphanumeric c)) [
        | inl e ↦ rw e (
            decoded-plain c (encode_path_component is_alphanumeric s) (safe-percent c e)
            ∙ ap (λ (t : List ℕ). utf8_bytes c ++ t) rest)
        | inr e ↦ rw e (
            decoded-percent_encoded (utf8_bytes c) (encode_path_component is_alphanumeric s)
              (utf8_bytes-All c h.0)
            ∙ ap (λ (t : List ℕ). utf8_bytes c ++ t) rest)
      ]

  hex_digit-slash : (d : ℕ) → d < 16 → hex_digit d ≢ b'/'
  unfolding hex_digit
  hex_digit-slash d h e = absurd (ground (arith, h, e))

  percent_encoded-IsSlashless :
      (bytes : List ℕ) (s : Text)
      → All IsByte bytes
      → IsSlashless s
      → IsSlashless (percent_encoded bytes ++ s)
  unfolding percent_encoded
  percent_encoded-IsSlashless [] s h k = k
  percent_encoded-IsSlashless (b ∷ bytes) s h k = (
    (λ e. omega (arith, e)),
    (
      hex_digit-slash (b / 16) (omega (arith, h.0)),
      (hex_digit-slash (b % 16) (omega arith), percent_encoded-IsSlashless bytes s h.1 k),
    ),
  )

  module _ (slash_plain : is_alphanumeric b'/' ≡ false) where
    encode-IsSlashless :
        (s : Text) → All IsChar s → IsSlashless (encode_path_component is_alphanumeric s)
    unfolding encode_path_component is_safe_char
    encode-IsSlashless [] h = tt
    encode-IsSlashless (c ∷ s) h = elim (Bool-cases (is_safe_char is_alphanumeric c)) [
      | inl e ↦
          rw (e, All)
            (
              (λ q. absurd (ground (arith, e, q, ap is_alphanumeric q ∙ slash_plain))),
              encode-IsSlashless s h.1,
            )
      | inr e ↦ rw e (
          percent_encoded-IsSlashless (utf8_bytes c) _ (utf8_bytes-All c h.0)
            (encode-IsSlashless s h.1))
    ]

  first_or : ℕ → Text → ℕ
  first_or d [] = d
  first_or d (c ∷ s) = c

  rest_of : Text → Text
  rest_of [] = []
  rest_of (c ∷ s) = s

  -- What is written for a character that is not safe begins with a percent sign.
  first-percent_encoded :
      (c : ℕ) (s : Text) → first_or 0 (percent_encoded (utf8_bytes c) ++ s) ≡ b'%'
  unfolding percent_encoded utf8_bytes first_or
  first-percent_encoded c s = elim (Bool-cases (ltb c 128)) [
    | inl e ↦ rw e refl
    | inr e ↦ elim (Bool-cases (ltb c 2048)) [
      | inl f ↦ rw (e, f) refl
      | inr f ↦ elim (Bool-cases (ltb c 65536)) [
        | inl g ↦ rw (e, f, g) refl
        | inr g ↦ rw (e, f, g) refl
      ]
    ]
  ]

  -- An encoded text without a percent sign was not changed.
  encode-unchanged :
      (s t : Text) → All (λ c. c ≢ b'%') t → encode_path_component is_alphanumeric s ≡ t → s ≡ t
  unfolding encode_path_component first_or rest_of
  encode-unchanged [] t p e = e
  encode-unchanged (c ∷ s) [] p e = elim (Bool-cases (is_safe_char is_alphanumeric c)) [
    | inl q ↦ absurd (cc (rw q at e))
    | inr q ↦
        let f : first_or 0
              (percent_encoded (utf8_bytes c) ++ encode_path_component is_alphanumeric s)
            ≡ 0 =
          ap (first_or 0) (rw q at e) in
        absurd (omega (arith, f, first-percent_encoded c (encode_path_component is_alphanumeric s)))
  ]
  encode-unchanged (c ∷ s) (d ∷ t) p e = elim (Bool-cases (is_safe_char is_alphanumeric c)) [
    | inl q ↦
        ap₂ (λ (x : ℕ) (l : Text). x ∷ l) (ap (first_or 0) (rw q at e))
          (encode-unchanged s t p.1 (ap rest_of (rw q at e)))
    | inr q ↦
        let f : first_or 0
              (percent_encoded (utf8_bytes c) ++ encode_path_component is_alphanumeric s)
            ≡ d =
          ap (first_or 0) (rw q at e) in
        absurd (p.0 (sym f ∙ first-percent_encoded c (encode_path_component is_alphanumeric s)))
  ]

  module _ (no_slash : is_alphanumeric b'/' ≡ false) where
    -- A sanitized component that does not begin with a slash is empty or the name of a file, if
    -- neither a percent sign nor a slash counts as alphanumeric.
    pub sanitize_path_component-IsFileName :
        (s : Text)
        → All IsChar s
        → trim_start is_slash s ≡ s
        → (sanitize_path_component is_alphanumeric s ≡ [])
          ⊎ IsFileName (sanitize_path_component is_alphanumeric s)
    unfolding sanitize_path_component
    sanitize_path_component-IsFileName s h n =
        elim (Bool-cases (is_empty s || (text_eq s (codes ".") || text_eq s (codes "..")))) [
          | inl e ↦ inl (rw e refl)
          | inr e ↦ inr (
              rw (e, n, IsFileName)
                (record {
                  filled = λ q. filled_test s e (encode-unchanged s [] tt q);
                  slashless = encode-IsSlashless no_slash s h;
                  not_dot = λ q.
                      named (codes ".") (or_left (is_empty s) _ _ e)
                        (encode-unchanged s (codes ".") ((λ f. omega (arith, f)), tt) q);
                  not_dot_dot = λ q.
                      named (codes "..") (or_right (is_empty s) (text_eq s (codes ".")) _ e) (
                        encode-unchanged s (codes "..")
                          ((λ f. omega (arith, f)), ((λ f. omega (arith, f)), tt)) q);
                }))
        ]
      where
        filled_test :
            (s : Text)
            → (is_empty s || (text_eq s (codes ".") || text_eq s (codes ".."))) ≡ false
            → s ≡ []
            → ⊥
        filled_test [] e q = cc e
        filled_test (c ∷ s) e q = cc q

        or_left : (a b c : Bool) → (a || (b || c)) ≡ false → b ≡ false
        or_left a b c e = ground (arith, e)

        or_right : (a b c : Bool) → (a || (b || c)) ≡ false → c ≡ false
        or_right a b c e = ground (arith, e)

        named : (t : Text) → text_eq s t ≡ false → s ≡ t → ⊥
        named t e q = cc (sym e ∙ ap (λ x. text_eq x t) q ∙ text_eq_refl t)
