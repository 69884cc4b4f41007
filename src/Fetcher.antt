-- ===== src/Fetcher.antt =====
-- tunstrap/fetcher.py: the files of a node over one SFTP channel. The channel answers from a record;
-- bytes are numbers, and base64 and SHA-256 are parameters.
pub mod Account
pub mod Escapes
use tunstrap.Common.{
  ℕ, String, Bool, true, false, not, ◌&&◌, Option, none, some, List, [], ◌∷◌, ◌++◌, Result, ok, err,
  ◌>>=◌, length, contains, ltb, ◌==◌, if◌then◌else◌,
}
use tunstrap.Common.Dict.{Dict, lookup, insert}

-- What SFTP raises: an `SFTPError` with its code, another of `_SFTP_TRANSPORT_ERRORS` with the name
-- of its type, or an exception that is none of them.
pub data Raised : Type 0 where
  sftp_error : ℕ → Raised
  transport_error : String → Raised
  program_error : Raised

-- `FileSpec`
pub record FileSpec : Type 0 where
  pub path : String
  pub required : Bool

-- `FetchedFile`
pub record FetchedFile : Type 0 where
  pub content_b64 : Option String
  pub size : Option ℕ
  pub sha256 : Option String
  pub error : Option String

abbrev pub failure : String → FetchedFile
failure code = record { content_b64 = none; size = none; sha256 = none; error = some code }

-- `_SFTP_ERRNO_NAMES.get(code, "SSH_FX_UNKNOWN")`
unfoldable pub errno_name : ℕ → String
errno_name code =
    if code == 1
    then "SSH_FX_EOF"
    else if code == 2
    then "SSH_FX_NO_SUCH_FILE"
    else if code == 3
    then "SSH_FX_PERMISSION_DENIED"
    else if code == 4
    then "SSH_FX_FAILURE"
    else if code == 5
    then "SSH_FX_BAD_MESSAGE"
    else if code == 6
    then "SSH_FX_NO_CONNECTION"
    else if code == 7
    then "SSH_FX_CONNECTION_LOST"
    else if code == 8
    then "SSH_FX_OP_UNSUPPORTED"
    else "SSH_FX_UNKNOWN"

-- `_classify_error`, or nothing for an exception that the handlers do not name.
unfoldable pub classify_error : Raised → Option String
unfolding errno_name
classify_error (sftp_error code) = some (errno_name code)
classify_error (transport_error name) = some name
classify_error program_error = none

-- The answers to one file: `stat.size` and the bytes, or what the calls raise, a timeout included.
pub record Answer : Type 0 where
  pub stat : Result Raised (Option ℕ)
  pub read : Result Raised (List ℕ)

-- The whole channel: what starting it, entering it and leaving it raise.
pub record Channel : Type 0 where
  pub start : Option Raised
  pub enter : Option Raised
  pub leave : Option Raised
  pub answer : String → Answer

pub record Digests : Type 0 where
  pub base64 : List ℕ → String
  pub sha256 : List ℕ → String

abbrev pub max_fetch_bytes : ℕ
max_fetch_bytes = 1048576

abbrev over : Option ℕ → Bool
over none = false
over (some size) = ltb max_fetch_bytes size

-- How `_read_remote_file` and the second test of the cap end.
pub data Reading : Type 0 where
  content : List ℕ → Reading
  cap_exceeded : Reading

unfoldable pub read_remote_file : Answer → Result Raised Reading
read_remote_file a = do
  size ← a.stat
  if over size then ok cap_exceeded else do
    raw ← a.read
    ok (if ltb max_fetch_bytes (length raw) then cap_exceeded else content raw)

-- `results` and `required_failures`
pub record Fetched : Type 0 where
  pub results : Dict FetchedFile
  pub required_failures : List String

abbrev pub no_files : Fetched
no_files = record { results = []; required_failures = [] }

abbrev pub has_error : FetchedFile → Bool
has_error f = elim f.error [ none ↦ false | some code ↦ true ]

-- One round of the loop of `fetch_files`.
unfoldable pub add_file : String → FileSpec → FetchedFile → Fetched → Fetched
add_file name spec f p = record {
  results = insert name f p.results;
  required_failures =
      if has_error f && spec.required
      then p.required_failures ++ name ∷ []
      else p.required_failures;
}

abbrev pub is_some {ℓ} : {A : Type ℓ} → Option A → Bool
is_some none = false
is_some (some a) = true

-- One round of `_record_channel_failure`: a file that has a result keeps it.
unfoldable pub fail_file : String → String → FileSpec → Fetched → Fetched
unfolding add_file
fail_file code name spec p =
    if is_some (lookup name p.results) then p else add_file name spec (failure code) p

unfoldable pub record_channel_failure : String → Dict FileSpec → Fetched → Fetched
unfolding fail_file
record_channel_failure code [] p = p
record_channel_failure code ((name, spec) ∷ specs) p =
    record_channel_failure code specs (fail_file code name spec p)

-- What the handlers of `fetch_files` make of an exception of the channel.
unfoldable pub channel_failed : Raised → Dict FileSpec → Fetched → Result Raised Fetched
unfolding classify_error
channel_failed e specs p = elim (classify_error e) [
  | none ↦ err e
  | some code ↦ ok (record_channel_failure code specs p)
]

module _ (digests : Digests) where
  open digests use {base64, sha256}

  -- The handlers of `_fetch_one`, and the result for a file that was read.
  unfoldable pub finish_file : Result Raised Reading → Result Raised FetchedFile
  unfolding classify_error
  finish_file (ok cap_exceeded) = ok (failure "EFBIG")
  finish_file (ok (content raw)) = ok (record {
    content_b64 = some (base64 raw);
    size = some (length raw);
    sha256 = some (sha256 raw);
    error = none;
  })
  finish_file (err e) = elim (classify_error e) [ none ↦ err e | some code ↦ ok (failure code) ]

  -- `_fetch_one`
  unfoldable pub fetch_one : Answer → Result Raised FetchedFile
  unfolding read_remote_file finish_file
  fetch_one a = finish_file (read_remote_file a)

  -- The loop over the files. `_fetch_one` lets an exception through only if it is none of the
  -- expected ones, which the handler around the loop lets through as well.
  unfoldable pub fetch_from : (String → Answer) → Dict FileSpec → Fetched → Result Raised Fetched
  fetch_from answer [] p = ok p
  fetch_from answer ((name, spec) ∷ specs) p = do
    f ← fetch_one (answer name)
    fetch_from answer specs (add_file name spec f p)

  -- The part of `fetch_files` behind the start of the channel.
  unfoldable pub fetch_over : Channel → Dict FileSpec → Result Raised Fetched
  unfolding fetch_from
  fetch_over channel specs = elim channel.enter [
    | some e ↦ channel_failed e specs no_files
    | none ↦ fetch_from channel.answer specs no_files >>= λ p. elim channel.leave [
      | none ↦ ok p
      | some e ↦ channel_failed e specs p
    ]
  ]

  -- `fetch_files`, with at least one file or none
  unfoldable pub fetch_files : Channel → Dict FileSpec → Result Raised Fetched
  unfolding fetch_over
  fetch_files channel [] = ok no_files
  fetch_files channel (spec ∷ specs) = elim channel.start [
    | some e ↦ channel_failed e (spec ∷ specs) no_files
    | none ↦ fetch_over channel (spec ∷ specs)
  ]
