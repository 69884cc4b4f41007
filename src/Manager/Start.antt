-- ===== src/Manager/Start.antt =====
-- `TunnelManager` of tunstrap/manager.py. What each step of a node's start answers is a parameter:
-- the connection, the forwards, the fetched files and the kube targets, with the exceptions that
-- `_NODE_STARTUP_ERRORS` names as values, and the two writes of materialised files, which stand
-- outside every `try`. An exception of another step that `_NODE_STARTUP_ERRORS` does not name is not
-- modelled here; nor are the paths of the files that are written. The nodes start concurrently; what
-- is built of them is in the order of the schema.
use tunstrap.Common.{
  ℕ, String, ◌<>◌, Bool, true, false, not, Option, none, some, List, [], ◌∷◌, Result, ok, err,
  if◌then◌else◌,
}
use tunstrap.Common.Dict.{Dict}
use tunstrap.Fetcher.{FetchedFile}
use tunstrap.Kube.Targets.{Output, Warning}

-- What the manager reads of a `NodeInput`: whether it is required, and whether its `fetch_files` and
-- its `kube_targets` hold anything; with whether the manager itself has a session to write to.
pub record NodeInput : Type 0 where
  pub required : Bool
  pub has_files : Bool
  pub has_targets : Bool
  pub has_session : Bool

-- A connection and a listener, by a number.
abbrev pub Conn : Type 0
Conn = ℕ

abbrev pub Listener : Type 0
Listener = ℕ

-- The answers to one node: `open_connection`, `open_local_forwards`, `fetch_files` and
-- `run_kube_targets`, each with `str` of an exception; and the exception, if any, of
-- `_materialize_fetch_files` and of `_materialize_kube_targets`.
pub record Start : Type 0 where
  pub connect : Result String Conn
  pub forwards : Result String (Dict ℕ × List Listener)
  pub files : Result String (Dict FetchedFile × List String)
  pub targets : Result String (Dict Output × List String × List Warning)
  pub write_files : Option String
  pub write_targets : Option String

-- `_NodeRuntime`
pub record Runtime : Type 0 where
  pub name : String
  pub success : Bool
  pub ports : Dict ℕ
  pub fetched_files : Dict FetchedFile
  pub conn : Option Conn
  pub listeners : List Listener
  pub error : Option String
  pub kube_targets : Dict Output
  pub kube_warnings : List Warning

abbrev pub new_runtime : String → Runtime
new_runtime name = record {
  name = name;
  success = false;
  ports = [];
  fetched_files = [];
  conn = none;
  listeners = [];
  error = none;
  kube_targets = [];
  kube_warnings = [];
}

-- A call of `close_transport`.
pub record Closing : Type 0 where
  pub conn : Option Conn
  pub listeners : List Listener

-- What `_start_one` leaves: the runtime, the transports that it has closed, and the exception that
-- leaves it, if one does.
pub record Started : Type 0 where
  pub runtime : Runtime
  pub closings : List Closing
  pub escaped : Option String

-- The end of a branch that gives up behind the connection: `runtime.error = why`, the transport is
-- closed and the runtime lets go of it.
unfoldable pub give_up : String → Runtime → Started
give_up why r = record {
  runtime = record r { error = some why; conn = none; listeners = [] };
  closings = record { conn = r.conn; listeners = r.listeners } ∷ [];
  escaped = none;
}

abbrev pub keep : Runtime → Started
keep r = record { runtime = r; closings = []; escaped = none }

-- The write of the materialised files, if there is a session, and what follows it: an exception
-- leaves `_start_one` with the transport open.
abbrev pub written : NodeInput → Option String → Option String
written node answer = if node.has_session then answer else none

unfoldable pub after_writing : Option String → Runtime → Started → Started
after_writing none r next = next
after_writing (some e) r next = record { runtime = r; closings = []; escaped = some e }

abbrev pub is_empty : List String → Bool
is_empty [] = true
is_empty (name ∷ names) = false

-- The last part of `_start_one`, with the success at its end. `shown` is the list of names in a
-- message.
unfoldable pub finish_targets :
    (List String → String)
    → Option String
    → Result String (Dict Output × List String × List Warning)
    → Runtime
    → Started
unfolding give_up after_writing
finish_targets shown fault (err why) r = give_up why r
finish_targets shown fault (ok (outputs, failures, warnings)) r =
    let r1 = record r { kube_targets = outputs; kube_warnings = warnings } in
    after_writing fault r1 (
      if not (is_empty failures)
      then give_up ("required kube_targets failed: " <> shown failures) r1
      else keep (record r1 { success = true }))

unfoldable pub start_targets : (List String → String) → NodeInput → Start → Runtime → Started
unfolding finish_targets
start_targets shown node s r =
    if not node.has_targets
    then keep (record r { success = true })
    else finish_targets shown (written node s.write_targets) s.targets r

-- The part that fetches the files.
unfoldable pub finish_files :
    (List String → String)
    → NodeInput
    → Start
    → Result String (Dict FetchedFile × List String)
    → Runtime
    → Started
unfolding give_up start_targets after_writing
finish_files shown node s (err why) r = give_up why r
finish_files shown node s (ok (files, failures)) r =
    let r1 = record r { fetched_files = files } in
    after_writing (written node s.write_files) r1 (
      if not (is_empty failures)
      then give_up ("required fetch_files failed: " <> shown failures) r1
      else start_targets shown node s r1)

unfoldable pub start_files : (List String → String) → NodeInput → Start → Runtime → Started
unfolding finish_files start_targets
start_files shown node s r =
    if not node.has_files then start_targets shown node s r else finish_files shown node s s.files r

-- The part behind the connection.
unfoldable pub start_forwards :
    (List String → String)
    → NodeInput
    → Start
    → Result String (Dict ℕ × List Listener)
    → Runtime
    → Started
unfolding give_up start_files
start_forwards shown node s (err why) r = give_up why r
start_forwards shown node s (ok (ports, listeners)) r =
    start_files shown node s (record r { ports = ports; listeners = listeners })

-- The whole of it, with the answer to the connection.
unfoldable pub start_connected :
    (List String → String) → NodeInput → Start → Result String Conn → Runtime → Started
unfolding start_forwards
start_connected shown node s (err why) r = keep (record r { error = some why })
start_connected shown node s (ok c) r =
    start_forwards shown node s s.forwards (record r { conn = some c })

-- `_start_one`
unfoldable pub start_one : (List String → String) → String → NodeInput → Start → Started
unfolding start_connected
start_one shown name node s = start_connected shown node s s.connect (new_runtime name)
