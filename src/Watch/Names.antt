-- ===== src/Watch/Names.antt =====
-- src/watch/mod.rs: the names of the backups that the watch loop makes. The formatting of times is
-- a parameter of the library for dates.
use chbackup.Base.{
  ℕ, true, Option, none, some, List, [], ◌∷◌, ◌++◌, ◌≡◌, refl, arith, inl, inr, if◌then◌else◌, ◌==◌,
  Bool-cases,
}
use chbackup.Base.Text.{Text, codes, text_eq, strip_prefix, starts_with}
use chbackup.Watch.{resolve_template_prefix}

-- `macros.get(name)`
unfoldable pub find_macro : Text → List (Text × Text) → Option Text
find_macro name [] = none
find_macro name ((k, v) ∷ rest) =
    let later = find_macro name rest in if text_eq k name then some v else later

-- The time format of `{time:FORMAT}`
abbrev pub format_of : Text → Option Text
format_of content = strip_prefix content (codes "time:")

module _ (format : ℕ → Text → Text) where
  -- What stands for a macro.
  unfoldable pub resolve_macro : Text → ℕ → List (Text × Text) → Text → Text
  resolve_macro backup_type now macros content =
      if text_eq content (codes "type") then backup_type else elim (format_of content) [
        | some f ↦ format now f
        | none ↦ elim (find_macro content macros) [
          | some value ↦ value
          | none ↦ b'{' ∷ content ++ b'}' ∷ []
        ]
      ]

  -- The loops: outside of a macro, or in one with the content collected so far.
  unfoldable pub resolve_from : Text → ℕ → List (Text × Text) → Option Text → Text → Text
  resolve_from backup_type now macros none [] = []
  resolve_from backup_type now macros (some content) [] = b'{' ∷ content
  resolve_from backup_type now macros none (c ∷ s) =
      let opened = resolve_from backup_type now macros (some []) s in
      let rest = resolve_from backup_type now macros none s in
      if c == b'{' then opened else c ∷ rest
  resolve_from backup_type now macros (some content) (c ∷ s) =
      let closed = resolve_from backup_type now macros none s in
      let more = resolve_from backup_type now macros (some (content ++ c ∷ [])) s in
      if c == b'}' then resolve_macro backup_type now macros content ++ closed else more

  unfoldable pub resolve_name_template : Text → Text → ℕ → List (Text × Text) → Text
  resolve_name_template template backup_type now macros =
      resolve_from backup_type now macros none template

  resolve_from-prefix :
      (backup_type : Text) (now : ℕ) (macros : List (Text × Text)) (s : Text)
      → starts_with (resolve_from backup_type now macros none s) (resolve_template_prefix s) ≡ true
  unfolding resolve_from resolve_template_prefix starts_with
  resolve_from-prefix backup_type now macros [] = refl
  resolve_from-prefix backup_type now macros (c ∷ s) = elim (Bool-cases (c == b'{')) [
    | inl e ↦ rw e refl
    | inr e ↦ rw e (ground (arith, resolve_from-prefix backup_type now macros s))
  ]

  -- A name that is made from a template begins with the template's prefix, by which the loop finds
  -- the backup again.
  pub resolve_name_template-prefix :
      (template backup_type : Text) (now : ℕ) (macros : List (Text × Text))
      → starts_with
          (resolve_name_template template backup_type now macros)
          (resolve_template_prefix template)
        ≡ true
  unfolding resolve_name_template
  resolve_name_template-prefix template backup_type now macros =
      resolve_from-prefix backup_type now macros template
