-- ===== src/Kube/Remote.antt =====
-- What a target of `run_kube_targets` of tunstrap/kube.py gets from the remote side: its kubeconfig,
-- the endpoint in it, and the name for TLS. The answers of the remote side, of the libraries and of
-- `urlsplit` are parameters; an exception that no handler of the loop names is a `Crash`.
use tunstrap.Common.{
  ℕ, String, Bool, true, false, not, ◌||◌, Option, none, some, List, [], ◌∷◌, Result, ok, err,
  ◌>>=◌, length, contains, ltb, if◌then◌else◌, ◌=t=◌,
}
use tunstrap.Kube.Document.{Value, Fields}
use tunstrap.Kube.Parse.{KubeError, Parsed, url_malformed, url_not_https, url_no_host, url_bad_port}

-- `KubeTarget` of tunstrap/schemas.py
pub record KubeTarget : Type 0 where
  pub kubeconfig_path : String
  pub tls_server_name : Option String
  pub insecure_fallback : Bool
  pub required : Bool

-- What `urlsplit` answers: `none` in place of a port that raises `ValueError`.
pub record Url : Type 0 where
  pub scheme : String
  pub hostname : Option String
  pub port : Option (Option ℕ)

-- The exceptions of a fetch. The loop names `OSError` and the timeout, and an `OSError` for a file
-- over the cap; `asyncssh.Error` is neither.
pub data FetchError : Type 0 where
  os_error timeout over_cap asyncssh_error : FetchError

-- What leaves the loop: an exception that the start of a node catches, or another one.
pub data Crash : Type 0 where
  startup_error program_error : Crash

-- The libraries.
pub record Libraries : Type 0 where
  pub yaml : List ℕ → Option Value
  pub dump : Fields → List ℕ
  pub base64 : List ℕ → String
  pub urlsplit : String → Option Url

-- The answers of the remote side to one target: `sftp.stat`, `fh.read`, `forward_local_port` and
-- the SANs in the certificate that the probe reads.
pub record Answers : Type 0 where
  pub stat : Result FetchError (Option ℕ)
  pub read : Result FetchError (List ℕ)
  pub forward : String → ℕ → Result Crash ℕ
  pub sans : ℕ → Result Crash (List String × List String)

pub data Reason : Type 0 where
  kube : KubeError → Reason
  caught : FetchError → Reason
  no_usable_name : Reason
  verification_disabled : Reason
  fell_back : String → Reason
  references_rewritten : Value → Reason

abbrev pub fetch_cap : ℕ
fetch_cap = 1048576

abbrev over : Option ℕ → Bool
over none = false
over (some size) = ltb fetch_cap size

-- `_fetch_one`
unfoldable pub fetch_one : Answers → Result FetchError (List ℕ)
fetch_one a = do
  size ← a.stat
  if over size
      then err over_cap
      else do raw ← a.read; if ltb fetch_cap (length raw) then err over_cap else ok raw

-- `choose_tls_server_name`
unfoldable pub choose_tls_server_name : String → List String → List String → Option String × Bool
choose_tls_server_name host dns_sans ip_sans =
    if contains dns_sans host || contains ip_sans host then (some host, false) else elim dns_sans [
      | dns ∷ _ ↦ (some dns, true)
      | [] ↦ elim ip_sans [ ip ∷ _ ↦ (some ip, true) | [] ↦ (none, true) ]
    ]

abbrev host_of : Option String → Option String
host_of none = none
host_of (some host) = if host =t= "" then none else some host

-- The tests behind `urlsplit` in `_split_host_port`.
unfoldable pub check_url : Url → Parsed (String × ℕ)
check_url url =
    if not (url.scheme =t= "https") then err url_not_https else elim (host_of url.hostname) [
      | none ↦ err url_no_host
      | some host ↦ elim url.port [
        | none ↦ err url_bad_port
        | some none ↦ ok (host, 443)
        | some (some port) ↦ ok (host, port)
      ]
    ]

unfoldable pub split_host_port : (String → Option Url) → String → Parsed (String × ℕ)
unfolding check_url
split_host_port urlsplit server = elim (urlsplit server) [
  | none ↦ err url_malformed
  | some url ↦ check_url url
]

-- `(tls_server_name, insecure)`, with the warnings that were appended.
pub record Tls : Type 0 where
  pub name : Option String
  pub insecure : Bool
  pub reasons : List (Reason × Bool)

-- The branches of `_resolve_tls` behind the choice of a name.
unfoldable pub settle_tls : KubeTarget → Option String × Bool → Tls
settle_tls t (none, fellback) =
    if t.insecure_fallback
    then record { name = none; insecure = true; reasons = (verification_disabled, false) ∷ [] }
    else record { name = none; insecure = false; reasons = [] }
settle_tls t (some chosen, true) = record {
  name = some chosen;
  insecure = false;
  reasons = (fell_back chosen, false) ∷ [];
}
settle_tls t (some chosen, false) = record { name = some chosen; insecure = false; reasons = [] }

-- `_resolve_tls` without an override: the probe, the choice and its branches.
unfoldable pub probe_tls : KubeTarget → String → ℕ → Answers → Result Crash Tls
unfolding choose_tls_server_name settle_tls
probe_tls t host local_port a = do
  sans ← a.sans local_port
  ok (settle_tls t (choose_tls_server_name host sans.0 sans.1))

unfoldable pub resolve_tls : KubeTarget → String → ℕ → Answers → Result Crash Tls
unfolding probe_tls
resolve_tls t host local_port a = elim t.tls_server_name [
  | some name ↦ ok (record { name = some name; insecure = false; reasons = [] })
  | none ↦ probe_tls t host local_port a
]
