-- ===== src/Manager/Build.antt =====
-- `start_all_and_build_output` of tunstrap/manager.py behind the starts of the nodes, and `stop_all`.
use tunstrap.Common.{
  ℕ, String, Bool, not, ◌&&◌, Option, none, some, List, [], ◌∷◌, ◌++◌, if◌then◌else◌, ◌=t=◌,
}
use tunstrap.Common.Dict.{Dict}
use tunstrap.Fetcher.{FetchedFile}
use tunstrap.Kube.Targets.{Output, Warning}
use tunstrap.Manager.Start.{Closing, NodeInput, Runtime, Start, Started, start_one}

-- A node of the schema, with the answers to its start.
pub record Entry : Type 0 where
  pub name : String
  pub node : NodeInput
  pub start : Start

-- A runtime, beside `self._schema.nodes[r.name].required` and what was closed on the way.
pub record Done : Type 0 where
  pub required : Bool
  pub started : Started

-- `_start_all`
unfoldable pub start_all : (List String → String) → List Entry → List Done
start_all shown [] = []
start_all shown (e ∷ es) =
    record { required = e.node.required; started = start_one shown e.name e.node e.start }
    ∷ start_all shown es

-- `r.error or fallback`, where an empty text counts as none
abbrev or_text : Option String → String → String
or_text none fallback = fallback
or_text (some why) fallback = if why =t= "" then fallback else why

-- `failed_required`, as the details show it.
unfoldable pub failed_required : List Done → List (String × String)
failed_required [] = []
failed_required (d ∷ ds) =
    let r = d.started.runtime in
    let rest = failed_required ds in
    if not r.success && d.required then (r.name, or_text r.error "unknown") ∷ rest else rest

-- `NodeOutput`
pub record NodeOutput : Type 0 where
  pub ports : Dict ℕ
  pub fetch_files : Dict FetchedFile
  pub kube_targets : Dict Output

unfoldable pub connections : List Done → Dict NodeOutput
connections [] = []
connections (d ∷ ds) =
    let r = d.started.runtime in
    let rest = connections ds in
    if r.success
    then (
      r.name,
      record { ports = r.ports; fetch_files = r.fetched_files; kube_targets = r.kube_targets },
    )
      ∷ rest
    else rest

-- A warning about a node, or one that `run_kube_targets` gave.
pub data NodeWarning : Type 0 where
  node_failed : String → String → NodeWarning
  of_target : Warning → NodeWarning

unfoldable pub failure_warnings : List Done → List NodeWarning
failure_warnings [] = []
failure_warnings (d ∷ ds) =
    let r = d.started.runtime in
    let rest = failure_warnings ds in
    if not r.success && not d.required
    then node_failed r.name (or_text r.error "unknown error") ∷ rest
    else rest

abbrev pub of_targets : List Warning → List NodeWarning
of_targets [] = []
of_targets (w ∷ ws) = of_target w ∷ of_targets ws

unfoldable pub target_warnings : List Done → List NodeWarning
target_warnings [] = []
target_warnings (d ∷ ds) =
    let r = d.started.runtime in
    let rest = target_warnings ds in if r.success then of_targets r.kube_warnings ++ rest else rest

-- `self._runtimes`: the runtimes that `_start_one` finished.
unfoldable pub runtimes : List Done → List Runtime
runtimes [] = []
runtimes (d ∷ ds) =
    let rest = runtimes ds in if d.started.runtime.success then d.started.runtime ∷ rest else rest

-- `stop_all`
unfoldable pub stop_all : List Runtime → List Closing
stop_all [] = []
stop_all (r ∷ rs) = record { conn = r.conn; listeners = r.listeners } ∷ stop_all rs

unfoldable pub closings_of : List Done → List Closing
closings_of [] = []
closings_of (d ∷ ds) = d.started.closings ++ closings_of ds

-- `OutputSchema` or `ErrorOutput`, or the exception that leaves `start_all_and_build_output`.
pub data Answer : Type 0 where
  output : Dict NodeOutput → List NodeWarning → Answer
  error_output : List (String × String) → Answer
  raised : String → Answer

-- The report, every transport that was closed, and the runtimes that are left.
pub record Built : Type 0 where
  pub report : Answer
  pub closings : List Closing
  pub live : List Runtime

-- The two branches of `start_all_and_build_output`, on `failed_required`.
unfoldable pub report_on : List (String × String) → List Done → Built
unfolding connections failure_warnings target_warnings
report_on [] ds = record {
  report = output (connections ds) (failure_warnings ds ++ target_warnings ds);
  closings = closings_of ds;
  live = runtimes ds;
}
report_on (f ∷ fs) ds = record {
  report = error_output (f ∷ fs);
  closings = closings_of ds ++ stop_all (runtimes ds);
  live = [];
}

-- The exception that `asyncio.gather` passes on; when several starts raise, the first of the schema
-- stands for the first in time.
unfoldable pub first_escape : List Done → Option String
first_escape [] = none
first_escape (d ∷ ds) =
    let rest = first_escape ds in elim d.started.escaped [ some e ↦ some e | none ↦ rest ]

-- What `gather` gives: without an exception, the report. With one, nothing more is closed here: the
-- runtimes that were recorded stay live, those of the starts that end later among them.
unfoldable pub gathered : Option String → List Done → Built
unfolding failed_required report_on
gathered none ds = report_on (failed_required ds) ds
gathered (some e) ds = record { report = raised e; closings = closings_of ds; live = runtimes ds }

unfoldable pub build_output : List Done → Built
unfolding first_escape gathered
build_output ds = gathered (first_escape ds) ds

unfoldable pub start_all_and_build_output : (List String → String) → List Entry → Built
unfolding start_all build_output
start_all_and_build_output shown es = build_output (start_all shown es)
