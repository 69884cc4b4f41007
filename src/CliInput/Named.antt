-- ===== src/CliInput/Named.antt =====
-- `parse_named` and `connection_flags_present` of tunstrap/cli_input.py, and the choice between the
-- channels of `start` in `build_start_schema`. The dict keeps the order of the flags.
use tunstrap.Common.{
  Bool, true, false, not, ◌&&◌, ◌||◌, Option, none, some, List, [], ◌∷◌, ◌++◌, Result, ok, err,
  ◌>>=◌, ◌==◌, if◌then◌else◌,
}
use tunstrap.Exports.{Text}
use tunstrap.CliInput.Port.{InputError, not_named, empty_name, empty_value, duplicate_name}
use tunstrap.CliInput.Endpoint.{partition}

unfoldable pub same_name : Text → Text → Bool
same_name [] [] = true
same_name [] (d ∷ ds) = false
same_name (c ∷ cs) [] = false
same_name (c ∷ cs) (d ∷ ds) = c == d && same_name cs ds

abbrev pub Named : Type 0
Named = List (Text × Text)

-- `name in out`
unfoldable pub is_named : Text → Named → Bool
unfolding same_name
is_named name [] = false
is_named name ((other, value) ∷ out) = same_name other name || is_named name out

-- One flag, behind `partition("=")`; a new key goes to the end of the dict.
unfoldable pub add_named : Named → Option (Text × Text) → Result InputError Named
unfolding is_named
add_named out none = err not_named
add_named out (some ([], value)) = err empty_name
add_named out (some (c ∷ cs, [])) = err empty_value
add_named out (some (c ∷ cs, d ∷ ds)) =
    if is_named (c ∷ cs) out then err duplicate_name else ok (out ++ (c ∷ cs, d ∷ ds) ∷ [])

unfoldable pub parse_from : Named → List Text → Result InputError Named
unfolding add_named
parse_from out [] = ok out
parse_from out (item ∷ items) = do more ← add_named out (partition 61 item); parse_from more items

-- `parse_named`
unfoldable pub parse_named : List Text → Result InputError Named
unfolding parse_from
parse_named items = parse_from [] items

-- The flags that describe a connection.
pub record Connection : Type 0 where
  pub ssh_key : Option Text
  pub ssh_key_passphrase : Option Text
  pub ssh_password_stdin : Bool
  pub targets : List Text
  pub kube : List Text
  pub fetch : List Text

-- Python's truth of an optional text, and of a tuple.
abbrev pub is_filled {ℓ} : {A : Type ℓ} → List A → Bool
is_filled [] = false
is_filled (x ∷ xs) = true

abbrev pub is_text_given : Option Text → Bool
is_text_given none = false
is_text_given (some t) = is_filled t

-- `connection_flags_present`
unfoldable pub connection_flags_present : Connection → Bool
connection_flags_present f =
    is_text_given f.ssh_key
    || (is_text_given f.ssh_key_passphrase
        || (f.ssh_password_stdin
            || (is_filled f.targets || (is_filled f.kube || is_filled f.fetch))))

-- Which channel `build_start_schema` reads, with its `force_materialize`, or a `click.UsageError`.
pub data Channel : Type 0 where
  stdin_json : Bool → Channel
  flags : Text → Bool → Channel
  usage_error : Channel

-- The last argument is whether there is more than white space on stdin, which is not read when the
-- password is to be read from it.
unfoldable pub start_channel : Option Text → Connection → Bool → Bool → Channel
unfolding connection_flags_present
start_channel none f output_env filled =
    if connection_flags_present f then usage_error else stdin_json output_env
start_channel (some connection) f output_env filled =
    if not f.ssh_password_stdin && filled then usage_error else flags connection output_env
