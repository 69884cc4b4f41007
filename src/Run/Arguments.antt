-- ===== src/Run/Arguments.antt =====
-- What `run` makes of its arguments before any side effect: `_split_run_args`,
-- `_reject_flags_under_input_env` and the validation window of `_run_command` in tunstrap/cli.py.
use tunstrap.Common.{
  ℕ, String, Bool, true, false, Option, none, some, List, [], ◌∷◌, Result, ok, err, ◌>>=◌, ◌>>◌,
  refuse_if, if◌then◌else◌, ◌=t=◌,
}
use tunstrap.Errors.{Raised, usage_error}
use tunstrap.Environment.{EnvError, validate_output_var}

-- `schema.daemon`, as far as `run` uses or sets it.
pub record Settings : Type 0 where
  pub materialize : Bool
  pub log_file : Option String
  pub startup_timeout_seconds : ℕ
  pub shutdown_grace_seconds : ℕ

-- The options of the command, with the test of the connection flags, and whether `--grace-seconds`
-- was given.
pub record Flags : Type 0 where
  pub conn_flags : Bool
  pub auto_stop_idle_seconds : Option ℕ
  pub materialize : Bool
  pub log_file : Option String
  pub input_env : Option String
  pub output_var : Option String
  pub session_dir : Option String
  pub grace_seconds : ℕ
  pub grace_seconds_set : Bool
  pub suppress_kubeconfig : Bool

-- The two channels of an input: the variable named by `--input-env`, or a connection with flags, of
-- which the last argument is `force_materialize`.
pub record Channels : Type 0 where
  pub build_schema_from_env : String → Result Raised Settings
  pub build_flag_schema : String → Flags → Bool → Result Raised Settings

-- `if cmd and cmd[0] == "--"`
unfoldable pub without_separator : List String → List String
without_separator [] = []
without_separator (word ∷ words) = if word =t= "--" then words else word ∷ words

unfoldable pub require_command : List String → Result Raised (List String)
require_command [] = err usage_error
require_command (word ∷ words) = ok (word ∷ words)

-- `_split_run_args`: the connection, and the child's command
unfoldable pub split_run_args :
    List String → Option String → Result Raised (Option String × List String)
unfolding without_separator require_command
split_run_args args (some var) = do cmd ← require_command (without_separator args); ok (none, cmd)
split_run_args [] none = err usage_error
split_run_args (connection ∷ rest) none = do
  cmd ← require_command (without_separator rest)
  ok (some connection, cmd)

abbrev pub is_given {ℓ} : {A : Type ℓ} → Option A → Bool
is_given none = false
is_given (some a) = true

-- `_reject_flags_under_input_env`
unfoldable pub reject_flags_under_input_env : Flags → Result Raised (Unit {0})
reject_flags_under_input_env f = do
  refuse_if f.conn_flags usage_error
  refuse_if (is_given f.auto_stop_idle_seconds) usage_error
  refuse_if f.grace_seconds_set usage_error
  refuse_if (is_given f.log_file) usage_error
  refuse_if f.materialize usage_error

-- The schema, and the seconds of grace, by the channel
unfoldable pub read_schema :
    Channels → Flags → Option String → Option String → Result Raised (Settings × ℕ)
unfolding reject_flags_under_input_env
read_schema c f connection (some var) = do
  reject_flags_under_input_env f
  schema ← c.build_schema_from_env var
  ok (
    record {
      materialize = true;
      log_file = schema.log_file;
      startup_timeout_seconds = schema.startup_timeout_seconds;
      shutdown_grace_seconds = schema.shutdown_grace_seconds;
    },
    schema.shutdown_grace_seconds,
  )
read_schema c f (some connection) none = do
  schema ← c.build_flag_schema connection f true
  ok (schema, f.grace_seconds)
read_schema c f none none = err usage_error

-- Each of the three refusals of a name is a `click.UsageError`.
abbrev pub as_usage {ℓ} : {A : Type ℓ} → Result EnvError A → Result Raised A
as_usage (ok a) = ok a
as_usage (err e) = err usage_error

-- `if output_var is not None`, with the test of a name against the pattern
unfoldable pub check_output_var :
    (String → Bool) → Option String → Option String → Result Raised (Unit {0})
check_output_var matches none input_env = ok tt
check_output_var matches (some name) input_env =
    as_usage (validate_output_var (matches name) name input_env)

pub record Prepared : Type 0 where
  pub cmd : List String
  pub schema : Settings
  pub grace : ℕ

-- `_run_command` up to the spawn
unfoldable pub prepare : Channels → (String → Bool) → Flags → List String → Result Raised Prepared
unfolding split_run_args read_schema check_output_var
prepare c matches f args = do
  (connection, cmd) ← split_run_args args f.input_env
  (schema, grace) ← read_schema c f connection f.input_env
  check_output_var matches f.output_var f.input_env
  ok (record { cmd = cmd; schema = schema; grace = grace })
