-- ===== src/Errors.antt =====
-- tunstrap/exceptions.py: the errors that the command line reports, and their exit codes. The
-- details of an error are values of Python, of which `_scrub` opens the dicts and the lists; a class of the hierarchy is a constructor of `Kind`.
pub mod Scrubbing
use tunstrap.Common.{
  ℕ, String, Bool, true, false, ◌||◌, Option, none, some, List, [], ◌∷◌, ℤ, contains, if◌then◌else◌,
  ◌=t=◌,
}

-- `opaque` is a value of another type, a tuple for one, by its `repr`.
mutual
  pub data Detail : Type 0 where
    text : String → Detail
    number : ℤ → Detail
    dict : Entries → Detail
    list : Details → Detail
    opaque : String → Detail

  pub data Details : Type 0 where
    nil : Details
    item : Detail → Details → Details

  pub data Entries : Type 0 where
    end : Entries
    entry : String → Detail → Entries → Entries

abbrev pub secret_keys : List String
secret_keys = "ssh_pkey" ∷ "ssh_password" ∷ "ssh_pkey_passphrase" ∷ []

unfoldable pub is_secret : String → Bool
is_secret key = contains secret_keys key

-- `_scrub`, on a value, on the elements of a list, and on the entries of a dict
unfoldable mutual
  pub scrub : Detail → Detail
  scrub (dict es) = dict (scrub_entries es)
  scrub (list ds) = list (scrub_all ds)
  scrub (text s) = text s
  scrub (number n) = number n
  scrub (opaque value) = opaque value

  pub scrub_all : Details → Details
  scrub_all nil = nil
  scrub_all (item d ds) = item (scrub d) (scrub_all ds)

  pub scrub_entries : Entries → Entries
  scrub_entries end = end
  scrub_entries (entry key d es) =
      let rest = scrub_entries es in
      let nested = scrub d in if is_secret key then rest else entry key nested rest

-- `details.get(key)`
unfoldable pub get : String → Entries → Option Detail
get key end = none
get key (entry k d es) = if k =t= key then some d else get key es

abbrev pub put_last : String → Detail → Entries → Entries
put_last key d end = entry key d end
put_last key d (entry k e es) = entry k e (put_last key d es)

-- `details.setdefault(key, value)`
unfoldable pub set_default : String → Detail → Entries → Entries
set_default key d es = elim (get key es) [ none ↦ put_last key d es | some old ↦ es ]

-- The subclasses of `TunstrapError`.
pub data Kind : Type 0 where
  schema_validation tunnel_startup required_tunnel daemon_error : Kind
  handshake_error handshake_timeout kube_parse session_active : Kind

pub record TunstrapError : Type 0 where
  pub kind : Kind
  pub message : String
  pub details : Entries

-- `TunstrapError.__init__`
unfoldable pub make_error : Kind → String → Entries → TunstrapError
make_error kind message details = record {
  kind = kind;
  message = message;
  details = scrub_entries details;
}

-- `exit_code_for`
unfoldable pub exit_code_for : Kind → ℕ
exit_code_for schema_validation = 1
exit_code_for required_tunnel = 2
exit_code_for kube_parse = 2
exit_code_for session_active = 3
exit_code_for daemon_error = 4
exit_code_for handshake_error = 4
exit_code_for handshake_timeout = 4
exit_code_for tunnel_startup = 1

-- `isinstance(exc, DaemonHandshakeError)`
unfoldable pub is_handshake : Kind → Bool
is_handshake handshake_error = true
is_handshake handshake_timeout = true
is_handshake _ = false

-- What a call may raise: an error of this tool, a `click.UsageError`, another `Exception` with the
-- name of its type, or an exception that is none, `KeyboardInterrupt` among them.
pub data Raised : Type 0 where
  tunstrap_error : TunstrapError → Raised
  usage_error : Raised
  exception : String → Raised
  base_exception : Raised
