-- ===== src/Tofu.antt =====
-- tunstrap/tofu_proxy.py: the OpenTofu proxy. Its command line decides between handing the process
-- over to `tofu` and running `tofu` under a tunnel; the decision is a value of `Action`. An index
-- into `argv` is the number of arguments in front of a suffix.
pub mod Grammar
pub mod Decision
use Prim.Native.Char.{code}
use Prim.Native.String.{count}
use tunstrap.Common.{
  ℕ, zero, suc, ◌+◌, String, Bool, true, false, not, ◌&&◌, ◌||◌, Option, none, some, List, [], ◌∷◌,
  ltb, leb, ◌==◌, if◌then◌else◌, ◌=t=◌, starts_with, contains, drop,
}

abbrev pub bypass_commands : List String
bypass_commands = "init" ∷ "version" ∷ "validate" ∷ "fmt" ∷ []

abbrev pub global_value_flags : List String
global_value_flags = "-chdir" ∷ "--chdir" ∷ []

abbrev pub help_flags : List String
help_flags = "-version" ∷ "--version" ∷ "-help" ∷ "-h" ∷ "--help" ∷ []

abbrev pub plan_input_value_flags : List String
plan_input_value_flags =
    "-backup" ∷ "-exclude" ∷ "-exclude-file" ∷ "-generate-config-out" ∷ "-json-into"
    ∷ "-lock-timeout" ∷ "-parallelism" ∷ "-replace" ∷ "-state" ∷ "-state-out" ∷ "-target"
    ∷ "-target-file" ∷ "-var" ∷ "-var-file" ∷ []

-- The tests on one argument, each under a name, so that proofs can keep them shut.
unfoldable pub is_help : String → Bool
is_help tok = contains help_flags tok

unfoldable pub is_global_value_flag : String → Bool
is_global_value_flag tok = contains global_value_flags tok

unfoldable pub is_flag : String → Bool
is_flag tok = starts_with tok "-"

unfoldable pub is_plan_value_flag : String → Bool
is_plan_value_flag arg = contains plan_input_value_flags arg

-- The loop of `_find_subcommand_index`, with `i` arguments read. A value flag takes the argument
-- behind it along, if there is one.
unfoldable pub find_from : List String → ℕ → Option (String × ℕ)
find_from [] i = none
find_from (tok ∷ []) i =
    if is_help tok
    then none
    else if is_global_value_flag tok
    then none
    else if is_flag tok
    then none
    else some (tok, i)
find_from (tok ∷ next ∷ rest) i =
    let past_value = find_from rest (i + 2) in
    let past_flag = find_from (next ∷ rest) (i + 1) in
    if is_help tok
    then none
    else if is_global_value_flag tok
    then past_value
    else if is_flag tok
    then past_flag
    else some (tok, i)

unfoldable pub find_subcommand_index : List String → Option (String × ℕ)
unfolding find_from
find_subcommand_index argv = find_from argv 0

abbrev first_part : Option (String × ℕ) → Option String
first_part none = none
first_part (some (tok, i)) = some tok

unfoldable pub find_subcommand : List String → Option String
unfolding find_subcommand_index
find_subcommand argv = first_part (find_subcommand_index argv)

unfoldable pub should_bypass : List String → Bool
unfolding find_subcommand
should_bypass argv = elim (find_subcommand argv) [
  | none ↦ true
  | some subcmd ↦ contains bypass_commands subcmd
]

-- `arg.startswith(flag=)`, `arg == flag` and the argument behind it, as the two loops over
-- `enumerate(args)` share them.
unfoldable pub has_value : String → String → List String → Bool
has_value flag flag_eq [] = false
has_value flag flag_eq (arg ∷ []) =
    if starts_with arg flag_eq then ltb (count flag_eq) (count arg) else false
has_value flag flag_eq (arg ∷ next ∷ rest) =
    let further = has_value flag flag_eq (next ∷ rest) in
    if starts_with arg flag_eq
    then ltb (count flag_eq) (count arg)
    else if arg =t= flag && not (is_flag next)
    then true
    else further

unfoldable pub has_plan_output : List String → Bool
unfolding has_value
has_plan_output args = has_value "-out" "-out=" args

unfoldable pub has_show_plan_flag : List String → Bool
unfolding has_value
has_show_plan_flag args = has_value "-plan" "-plan=" args

-- `arg.endswith(suffix)`
unfoldable pub ends_with : String → String → Bool
ends_with String.[] suffix = suffix =t= ""
ends_with (String.◌∷◌ c s) suffix = (String.◌∷◌ c s) =t= suffix || ends_with s suffix

unfoldable pub is_plan_filename : String → Bool
is_plan_filename arg = arg =t= "tfplan" || ends_with arg ".tfplan"

unfoldable pub has_plan_input : List String → Bool
has_plan_input [] = false
has_plan_input (arg ∷ []) =
    if is_plan_value_flag arg then false else if is_flag arg then false else is_plan_filename arg
has_plan_input (arg ∷ next ∷ rest) =
    let past_value = has_plan_input rest in
    let past_one = has_plan_input (next ∷ rest) in
    if is_plan_value_flag arg
    then past_value
    else if is_flag arg
    then past_one
    else if is_plan_filename arg
    then true
    else past_one

-- `_saved_plan_warning`: true where the source returns the warning text.
warns : String → List String → Bool
warns subcommand args =
    if contains args "--"
    then false
    else if subcommand =t= "plan" && has_plan_output args
    then true
    else if subcommand =t= "show" && has_show_plan_flag args
    then true
    else contains ("apply" ∷ "show" ∷ []) subcommand && has_plan_input args

unfoldable pub saved_plan_warning : List String → Bool
unfolding find_subcommand_index warns
saved_plan_warning argv = elim (find_subcommand_index argv) [
  | none ↦ false
  | some (subcommand, i) ↦ warns subcommand (drop (i + 1) argv)
]

-- How the process goes on: `os.execvp` of a command line, or `run_via_env_input` with the input
-- variable, the output variable and the child's command line, after the warning or not.
pub data Action : Type 0 where
  exec : List String → Action
  tunnel : Bool → String → String → List String → Action

-- What `str.strip` removes, by its code point.
unfoldable pub is_space : ℕ → Bool
is_space n =
    leb 9 n && leb n 13
    || (leb 28 n && leb n 32
        || (n == 133
            || (n == 160
                || (n == 5760
                    || (leb 8192 n && leb n 8202
                        || (leb 8232 n && leb n 8233
                            || (n == 8239 || (n == 8287 || n == 12288))))))))

-- `not raw.strip()`
unfoldable pub is_blank : String → Bool
unfolding is_space
is_blank String.[] = true
is_blank (String.◌∷◌ c s) = is_space (code c) && is_blank s

-- `main`, with the value of `TUNSTRAP_INPUT` (empty when unset) and `sys.argv[1:]`
unfoldable pub main : String → List String → Action
unfolding should_bypass saved_plan_warning
main raw argv =
    if is_blank raw
    then exec ("tofu" ∷ argv)
    else if should_bypass argv
    then exec ("tofu" ∷ argv)
    else tunnel (saved_plan_warning argv) "TUNSTRAP_INPUT" "TF_VAR_tunstrap" ("tofu" ∷ argv)
