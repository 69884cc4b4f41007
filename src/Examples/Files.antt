-- ===== src/Examples/Files.antt =====
-- Two files of a node: one is there, and the channel answers for the other with an error.
use tunstrap.Common.{
  ◌≡◌, refl, true, false, none, some, [], ◌∷◌, ok, err, All, ◌=t=◌, if◌then◌else◌,
}
use tunstrap.Common.Dict.{Dict, insert, lookup}
use tunstrap.Fetcher.{
  sftp_error, transport_error, FileSpec, failure, Channel, Digests, Fetched, add_file,
  classify_error, errno_name, read_remote_file, finish_file, fetch_one, fetch_from, fetch_over,
  fetch_files, channel_failed, record_channel_failure, fail_file,
}
use tunstrap.Fetcher.Account.{IsSettled, fetch_files-IsSettled}

abbrev digests : Digests
digests = record { base64 = λ raw. "AQI="; sha256 = λ raw. "a12871fe" }

abbrev specs : Dict FileSpec
specs =
    ("token", record { path = "/etc/token"; required = false })
    ∷ ("ca", record { path = "/etc/ca.pem"; required = true })
    ∷ []

-- The connection is lost when the channel closes, behind both files.
abbrev channel : Channel
channel = record {
  start = none;
  enter = none;
  leave = some (transport_error "ConnectionLost");
  answer = λ name.
      if name =t= "ca"
      then record { stat = err (sftp_error 2); read = ok [] }
      else record { stat = ok (some 2); read = ok (1 ∷ 2 ∷ []) };
}

abbrev fetched : Fetched
fetched = record {
  results =
      (
        "token",
        record { content_b64 = some "AQI="; size = some 2; sha256 = some "a12871fe"; error = none },
      )
      ∷ ("ca", failure "SSH_FX_NO_SUCH_FILE")
      ∷ [];
  required_failures = "ca" ∷ [];
}

fetch_both : fetch_files digests channel specs ≡ ok fetched
unfolding fetch_files fetch_over fetch_from fetch_one read_remote_file finish_file classify_error
    errno_name add_file insert lookup channel_failed record_channel_failure fail_file
fetch_both = refl

fetch_files-IsSettled_example : All (IsSettled fetched) specs
fetch_files-IsSettled_example = fetch_files-IsSettled digests channel specs fetched refl fetch_both
