-- ===== src/Exports.antt =====
-- `format_exports` and `_shell_single_quote` of tunstrap/envrender.py. A text is the list of its
-- characters, by their codes: 39 is the single quote, 92 the backslash, 10 the end of a line.
pub mod Quoting
use tunstrap.Common.{ℕ, List, [], ◌∷◌, ◌++◌, ◌==◌, if◌then◌else◌}

abbrev pub Text : Type 0
Text = List ℕ

-- `value.replace("'", "'\\''")`
unfoldable pub shell_single_quote : Text → Text
shell_single_quote [] = []
shell_single_quote (c ∷ value) =
    let rest = shell_single_quote value in if c == 39 then 39 ∷ 92 ∷ 39 ∷ 39 ∷ rest else c ∷ rest

-- `export key='value'`
unfoldable pub export_line : Text → Text → Text
unfolding shell_single_quote
export_line key value =
    (101 ∷ 120 ∷ 112 ∷ 111 ∷ 114 ∷ 116 ∷ 32 ∷ [])
    ++ (key ++ 61 ∷ 39 ∷ (shell_single_quote value ++ 39 ∷ []))

unfoldable pub export_lines : List (Text × Text) → List Text
unfolding export_line
export_lines [] = []
export_lines ((key, value) ∷ env) = export_line key value ∷ export_lines env

-- `"\n".join(lines)`
unfoldable pub join_lines : List Text → Text
join_lines [] = []
join_lines (line ∷ []) = line
join_lines (line ∷ next ∷ lines) = line ++ 10 ∷ join_lines (next ∷ lines)

unfoldable pub format_exports : List (Text × Text) → Text
unfolding export_lines join_lines
format_exports env = join_lines (export_lines env) ++ 10 ∷ []
