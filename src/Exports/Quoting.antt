-- ===== src/Exports/Quoting.antt =====
-- A POSIX shell reads back what was quoted.
use tunstrap.Common.{
  ℕ, ◌≡◌, refl, inl, inr, Bool-cases, Option, none, some, [], ◌∷◌, ◌++◌, arith, ◌==◌, if◌then◌else◌,
}
use tunstrap.Exports.{Text, shell_single_quote}

-- Where the shell is in a word: outside quotes, inside single quotes, or behind a backslash.
pub data Mode : Type 0 where
  plain quoted escaped : Mode

abbrev prepend : ℕ → Option Text → Option Text
prepend c none = none
prepend c (some s) = some (c ∷ s)

-- The characters of a word up to the end of the line; nothing for a word that does not end there. A
-- single quote opens and closes, a backslash outside quotes keeps the next character, and between
-- quotes every other character stands for itself.
unfoldable pub shell_word : Mode → Text → Option Text
shell_word plain [] = some []
shell_word quoted [] = none
shell_word escaped [] = none
shell_word plain (c ∷ s) =
    let open_quote = shell_word quoted s in
    let escape = shell_word escaped s in
    let literal = shell_word plain s in
    if c == 39 then open_quote else if c == 92 then escape else prepend c literal
shell_word quoted (c ∷ s) =
    let close_quote = shell_word plain s in
    let literal = shell_word quoted s in if c == 39 then close_quote else prepend c literal
shell_word escaped (c ∷ s) = prepend c (shell_word plain s)

quoted_back : (value : Text) → shell_word quoted (shell_single_quote value ++ 39 ∷ []) ≡ some value
unfolding shell_word shell_single_quote
quoted_back [] = refl
quoted_back (c ∷ value) = elim (Bool-cases (c == 39)) [
  | inl quote ↦ let same : c ≡ 39 = ground arith in rw (same, quoted_back value) refl
  | inr other ↦ rw other (rw (other, quoted_back value) refl)
]

-- The value of an export line survives the shell, whatever characters it has: between the quotes
-- that the line puts around it, a shell reads exactly the value, and the quotes end with the line.
pub shell_word-shell_single_quote :
    (value : Text) → shell_word plain (39 ∷ (shell_single_quote value ++ 39 ∷ [])) ≡ some value
unfolding shell_word
shell_word-shell_single_quote value = quoted_back value
