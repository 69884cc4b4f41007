-- ===== src/Lifecycle.antt =====
-- The two verbs that end a session: `stop_command` of tunstrap/cli_stop.py and the teardown of `run`
-- in tunstrap/cli.py, with `read_identity` and the removals of tunstrap/session.py. Each is a
-- function to what it writes and what it removes; `str` of an exception of the identity check is a
-- text that begins as the source's messages do.
pub mod Telling
pub mod Disposal
pub mod Status
use tunstrap.Common.{
  ℕ, String, ◌<>◌, Bool, true, false, not, ◌||◌, Option, none, some, List, [], ◌∷◌, ◌++◌, ℤ,
  is_positive, Result, ok, err, if◌then◌else◌, ◌=t=◌,
}
use tunstrap.Identity.{Raised, unicode_decode_error}
use tunstrap.Stop.{StopOutcome, System, Stopped, failure, says_not_found, stop_session}

-- What `daemon.pid` holds: no file, a file that cannot be read, bytes that are not UTF-8, a text that
-- is no number, a number.
pub data PidFile : Type 0 where
  missing unreadable undecodable garbled : PidFile
  number : ℤ → PidFile

-- `SessionError`, its subclass `SessionIdentityUnreadable`, and the `UnicodeDecodeError` of
-- `read_text`, which `read_identity` does not catch.
pub data IdentityError : Type 0 where
  session_error identity_unreadable not_utf8 : IdentityError

unfoldable pub read_identity : PidFile → Result IdentityError ℤ
read_identity missing = err session_error
read_identity unreadable = err identity_unreadable
read_identity undecodable = err not_utf8
read_identity garbled = err identity_unreadable
read_identity (number pid) = if is_positive pid then ok pid else err identity_unreadable

-- `_stop_resolved`
unfoldable pub stop_resolved : StopOutcome → Bool
stop_resolved o = o.stopped || says_not_found o

pub data Json : Type 0 where
  flag : Bool → Json
  text : String → Json

-- `_stop_outcome_json`, before `json.dumps`
unfoldable pub stop_outcome_json : StopOutcome → List (String × Json)
unfolding stop_resolved
stop_outcome_json o =
    ("stopped", flag o.stopped)
    ∷ (elim o.reason [ none ↦ [] | some why ↦ ("reason", text why) ∷ [] ]
        ++ ((if o.forced then ("forced", flag true) ∷ [] else [])
            ++ (if stop_resolved o then [] else ("preserved", flag true) ∷ [])))

-- What a command does: the keys of its envelope, whether the notice about preserved data goes to
-- stderr, whether it removes tunnel-data, and its exit code or the exception that leaves it.
pub record Effect : Type 0 where
  pub envelope : List (String × Json)
  pub notice : Bool
  pub removes_data : Bool
  pub ending : Result Raised ℕ

-- The part of `stop_command` behind `stop_session`.
unfoldable pub report_stop : StopOutcome → Effect
unfolding stop_outcome_json stop_resolved
report_stop o = record {
  envelope = stop_outcome_json o;
  notice = not (stop_resolved o);
  removes_data = stop_resolved o;
  ending = ok (if stop_resolved o then 0 else 1);
}

-- An exception that leaves `stop_command`: nothing is written or removed before it.
abbrev pub raises : Raised → Effect
raises e = record { envelope = []; notice = false; removes_data = false; ending = err e }

-- The handler of a `SessionError`, whose message is `cannot read identity from` and more.
unfoldable pub report_unread : String → Effect
unfolding stop_outcome_json stop_resolved
report_unread detail =
    let o = failure ("cannot read identity from " <> detail) in
    record {
      envelope = stop_outcome_json o;
      notice = not (stop_resolved o);
      removes_data = false;
      ending = ok 1;
    }

-- `stop_command`
unfoldable pub stop_command : PidFile → String → ℤ → System → Effect
unfolding report_stop report_unread read_identity
stop_command file detail grace sys = elim (read_identity file) [
  | err session_error ↦ report_unread detail
  | err identity_unreadable ↦ report_unread detail
  | err not_utf8 ↦ raises unicode_decode_error
  | ok pid ↦ elim (stop_session pid grace true sys).outcome [
    | err e ↦ raises e
    | ok o ↦ report_stop o
  ]
]

-- What `_teardown_run` writes: a recovery notice with its cause, or paths that survived a removal.
pub data Notice : Type 0 where
  loss_reported : Notice
  preserved : String → Bool → Notice
  not_removed root_not_removed : List String → Notice

pub record Teardown : Type 0 where
  pub notices : List Notice
  pub removes_data : Bool
  pub removes_root : Bool

-- What survived the two removals, as `_rmtree_reporting` sees it.
pub record Survivors : Type 0 where
  pub of_data : List String
  pub of_root : List String

abbrev reported : (List String → Notice) → List String → List Notice
reported notice [] = []
reported notice (path ∷ paths) = notice (path ∷ paths) ∷ []

-- The removals at the end of `_teardown_run_inner`; a root is removed if `run` minted it.
unfoldable pub clean_up : Bool → Survivors → List Notice → Teardown
clean_up minted left before = record {
  notices =
      before
      ++ (reported not_removed left.of_data
          ++ (if minted then reported root_not_removed left.of_root else []));
  removes_data = true;
  removes_root = minted;
}

unfoldable pub preserve : String → Bool → List Notice → Teardown
preserve cause minted before = record {
  notices = before ++ preserved cause minted ∷ [];
  removes_data = false;
  removes_root = false;
}

abbrev reason_of : StopOutcome → String
reason_of o = elim o.reason [ none ↦ "None" | some why ↦ why ]

-- `_teardown_run` around `_teardown_run_inner`: an exception of the stop preserves too.
unfoldable pub teardown_run : Bool → Bool → PidFile → ℤ → System → Survivors → Teardown
unfolding stop_resolved read_identity clean_up preserve
teardown_run has_loss minted file grace sys left =
    let before = if has_loss then loss_reported ∷ [] else [] in
    elim (read_identity file) [
      | err identity_unreadable ↦ preserve "cannot read the daemon identity" minted before
      | err session_error ↦ clean_up minted left before
      | err not_utf8 ↦ preserve "teardown failed" minted before
      | ok pid ↦ elim (stop_session pid grace true sys).outcome [
        | err e ↦ preserve "teardown failed" minted before
        | ok o ↦
            if stop_resolved o
            then clean_up minted left before
            else preserve ("daemon not stopped cleanly: " <> reason_of o) minted before
      ]
    ]
