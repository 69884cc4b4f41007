-- ===== src/Kube/Targets.antt =====
-- `run_kube_targets` of tunstrap/kube.py with the functions that it calls for one target. What the
-- remote side, the YAML and TLS libraries and `urlsplit` answer is a parameter; an exception that
-- no handler of the loop names, `asyncssh.Error` among them, leaves it as a `Crash`. Bytes are numbers, and a warning keeps its
-- reason in place of its text.
pub mod Choice
pub mod Delivered
pub mod Listeners
pub mod Account
pub mod Independence
use tunstrap.Common.{
  ℕ, suc, ◌+◌, String, Bool, true, false, not, ◌&&◌, ◌||◌, Option, none, some, List, [], ◌∷◌, ◌++◌,
  Result, ok, err, ◌>>=◌, length, contains, ltb, if◌then◌else◌, ◌=t=◌,
}
use tunstrap.Common.Dict.{Dict, insert}
use tunstrap.Kube.Document.{Value, Fields}
use tunstrap.Kube.Parse.{
  KubeError, Parsed, View, parse_kubeconfig, url_malformed, url_not_https, url_no_host,
  url_bad_port,
}
use tunstrap.Kube.Patch.{identity_name, local_endpoint, patch_view, rename_identities}
use tunstrap.Kube.Remote.{
  Answers, Crash, KubeTarget, Libraries, Reason, Tls, asyncssh_error, caught, fetch_one, kube,
  no_usable_name, references_rewritten, resolve_tls, split_host_port, startup_error,
}

-- `TunnelWarning`
pub record Warning : Type 0 where
  pub node : String
  pub target : String
  pub reason : Reason
  pub skipped : Bool

-- `KubeTargetOutput`
pub record Output : Type 0 where
  pub cluster_name : String
  pub context_name : String
  pub local_port : ℕ
  pub endpoint : String
  pub tls_server_name : Option String
  pub certificate_authority_data : String
  pub client_certificate_data : String
  pub client_key_data : String
  pub content_b64 : String
  pub path : Option String

-- What a round does with a listener: `forward_local_port`, and `close` with `wait_closed`.
pub data ListenerAct : Type 0 where
  forwarded closed : ListenerAct

-- The end of one round of the loop: the output or a failure, with what the round did with a listener,
-- in order, and the reasons that were given (and whether each says `skipped`).
pub data Round : Type 0 where
  failed : List ListenerAct → List (Reason × Bool) → Round
  done : List ListenerAct → Output → List (Reason × Bool) → Round

-- The three results of the loop, and the names of the targets whose listener is open.
pub record Progress : Type 0 where
  pub outputs : Dict Output
  pub required_failures : List String
  pub warnings : List Warning
  pub listening : List String

abbrev pub warnings_of : String → String → List (Reason × Bool) → List Warning
warnings_of node name [] = []
warnings_of node name ((r, skipped) ∷ rs) =
    record { node = node; target = name; reason = r; skipped = skipped } ∷ warnings_of node name rs

abbrev pub drop_first : String → List String → List String
drop_first name [] = []
drop_first name (n ∷ ns) = if n =t= name then ns else n ∷ drop_first name ns

-- The open listeners behind what a round did, each by the name of its target.
abbrev pub listening_after : String → List ListenerAct → List String → List String
listening_after name [] names = names
listening_after name (forwarded ∷ acts) names = listening_after name acts (name ∷ names)
listening_after name (closed ∷ acts) names = listening_after name acts (drop_first name names)

-- What a round adds to the results, and what it leaves listening.
unfoldable pub add_round : String → String → KubeTarget → Round → Progress → Progress
add_round node name t (failed acts reasons) p = record p {
  required_failures = if t.required then p.required_failures ++ name ∷ [] else p.required_failures;
  warnings = p.warnings ++ warnings_of node name reasons;
  listening = listening_after name acts p.listening;
}
add_round node name t (done acts output reasons) p = record p {
  outputs = insert name output p.outputs;
  warnings = p.warnings ++ warnings_of node name reasons;
  listening = listening_after name acts p.listening;
}

abbrev pub no_progress : Progress
no_progress = record { outputs = []; required_failures = []; warnings = []; listening = [] }

abbrev pub is_none : Option String → Bool
is_none none = true
is_none (some s) = false

abbrev disclosed : List Value → List (Reason × Bool)
disclosed [] = []
disclosed (v ∷ vs) = (references_rewritten v, false) ∷ disclosed vs

module _ (lib : Libraries) where
  open lib use {yaml, dump, base64, urlsplit}

  -- `patch_view`, `rename_identities`, `dump_kubeconfig`, and the output that is built of them.
  unfoldable pub deliver : String → String → View → ℕ → Tls → Round
  deliver node name v local_port tls =
      elim (rename_identities node name (patch_view v local_port tls.name tls.insecure)) [
        | err e ↦ failed (forwarded ∷ closed ∷ []) (tls.reasons ++ (kube e, true) ∷ [])
        | ok doc ↦
            done (forwarded ∷ [])
              (record {
                cluster_name = identity_name node name;
                context_name = identity_name node name;
                local_port = local_port;
                endpoint = local_endpoint local_port;
                tls_server_name = if tls.insecure then none else tls.name;
                certificate_authority_data =
                    if tls.insecure then "" else v.certificate_authority_data;
                client_certificate_data = v.client_certificate_data;
                client_key_data = v.client_key_data;
                content_b64 = base64 (dump doc);
                path = none;
              })
              (tls.reasons ++ disclosed v.ignored_contexts)
      ]

  -- The round from the forward on.
  unfoldable pub forward_and_deliver :
      String → String → KubeTarget → Answers → View → String × ℕ → Result Crash Round
  unfolding deliver
  forward_and_deliver node name t a v (host, port) = do
    local_port ← a.forward host port
    tls ← resolve_tls t host local_port a
    ok (
        if is_none tls.name && not tls.insecure
        then failed (forwarded ∷ closed ∷ []) (tls.reasons ++ (no_usable_name, true) ∷ [])
        else deliver node name v local_port tls)

  -- The round from the parse on.
  unfoldable pub parse_and_forward :
      String → String → KubeTarget → Answers → List ℕ → Result Crash Round
  unfolding forward_and_deliver
  parse_and_forward node name t a raw = elim (parse_kubeconfig yaml raw) [
    | err e ↦ ok (failed [] ((kube e, true) ∷ []))
    | ok v ↦ elim (split_host_port urlsplit v.server) [
      | err e ↦ ok (failed [] ((kube e, true) ∷ []))
      | ok endpoint ↦ forward_and_deliver node name t a v endpoint
    ]
  ]

  -- One round of the loop of `run_kube_targets`.
  unfoldable pub run_target : String → String → KubeTarget → Answers → Result Crash Round
  unfolding parse_and_forward
  run_target node name t a = elim (fetch_one a) [
    | err asyncssh_error ↦ err startup_error
    | err e ↦ ok (failed [] ((caught e, true) ∷ []))
    | ok raw ↦ parse_and_forward node name t a raw
  ]

  unfoldable pub run_from :
      String → (String → Answers) → Dict KubeTarget → Progress → Result Crash Progress
  unfolding add_round
  run_from node answers [] p = ok p
  run_from node answers ((name, t) ∷ ts) p = do
    round ← run_target node name t (answers name)
    run_from node answers ts (add_round node name t round p)

  -- `run_kube_targets`
  unfoldable pub run_kube_targets :
      String → (String → Answers) → Dict KubeTarget → Result Crash Progress
  unfolding run_from
  run_kube_targets node answers ts = run_from node answers ts no_progress
