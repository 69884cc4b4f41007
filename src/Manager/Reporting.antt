-- ===== src/Manager/Reporting.antt =====
-- What the report says of each node.
use tunstrap.Common.{
  String, ◌≡◌, refl, sym, Option, none, some, Bool, true, false, not, ◌&&◌, ◌||◌, List, [], ◌∷◌,
  ◌++◌, arith, any, contains, ◌=t=◌,
}
use tunstrap.Common.Dict.{keys}
use tunstrap.Kube.Targets.{Warning}
use tunstrap.Manager.Build.{
  Entry, Done, start_all, failed_required, connections, NodeWarning, node_failed, of_target,
  failure_warnings, of_targets, target_warnings, Answer, output, error_output, raised, first_escape,
  gathered, report_on, build_output, start_all_and_build_output,
}

abbrev pub is_required_failure : Done → Bool
is_required_failure d = not d.started.runtime.success && d.required

abbrev pub is_up : String → Done → Bool
is_up name d = d.started.runtime.success && d.started.runtime.name =t= name

abbrev pub is_given_up : String → Done → Bool
is_given_up name d =
    not d.started.runtime.success && not d.required && d.started.runtime.name =t= name

-- Whether a report says that a node failed.
abbrev pub is_warned : String → List NodeWarning → Bool
is_warned name [] = false
is_warned name (node_failed n why ∷ ws) = n =t= name || is_warned name ws
is_warned name (of_target w ∷ ws) = is_warned name ws

abbrev is_empty : List (String × String) → Bool
is_empty [] = true
is_empty (f ∷ fs) = false

failed_required_empty :
    (ds : List Done) → is_empty (failed_required ds) ≡ not (any is_required_failure ds)
unfolding failed_required
failed_required_empty [] = refl
failed_required_empty (d ∷ ds) = ground (arith, failed_required_empty ds)

connections-keys :
    (name : String) (ds : List Done) → contains (keys (connections ds)) name ≡ any (is_up name) ds
unfolding connections
connections-keys name [] = refl
connections-keys name (d ∷ ds) = ground (arith, connections-keys name ds)

is_warned-append :
    (name : String) (ws vs : List NodeWarning)
    → is_warned name (ws ++ vs) ≡ (is_warned name ws || is_warned name vs)
is_warned-append name [] vs = refl
is_warned-append name (node_failed n why ∷ ws) vs = ground (arith, is_warned-append name ws vs)
is_warned-append name (of_target w ∷ ws) vs = is_warned-append name ws vs

is_warned-failures :
    (name : String) (ds : List Done)
    → is_warned name (failure_warnings ds) ≡ any (is_given_up name) ds
unfolding failure_warnings
is_warned-failures name [] = refl
is_warned-failures name (d ∷ ds) = ground (arith, is_warned-failures name ds)

is_warned-of_targets : (name : String) (ws : List Warning) → is_warned name (of_targets ws) ≡ false
is_warned-of_targets name [] = refl
is_warned-of_targets name (w ∷ ws) = is_warned-of_targets name ws

is_warned-targets : (name : String) (ds : List Done) → is_warned name (target_warnings ds) ≡ false
unfolding target_warnings
is_warned-targets name [] = refl
is_warned-targets name (d ∷ ds) =
    let ws = d.started.runtime.kube_warnings in
    ground (
      arith,
      is_warned-targets name ds,
      is_warned-append name (of_targets ws) (target_warnings ds),
      is_warned-of_targets name ws,
    )

abbrev is_some : Option String → Bool
is_some none = false
is_some (some e) = true

-- Whether an exception has left the start of a node.
abbrev pub has_raised : Done → Bool
has_raised d = is_some d.started.escaped

first_escape-any : (ds : List Done) → is_some (first_escape ds) ≡ any has_raised ds
unfolding first_escape
first_escape-any [] = refl
first_escape-any (d ∷ ds) = ground (arith, first_escape-any ds)

-- What the report is for some outcomes of the starts.
abbrev pub Describes : List Done → Answer → Type 0
Describes ds (raised e) = any has_raised ds ≡ true
Describes ds (error_output failed) =
    (any is_required_failure ds ≡ true) × (any has_raised ds ≡ false)
Describes ds (output conns warnings) =
    (any is_required_failure ds ≡ false)
    × (any has_raised ds ≡ false)
    × ((name : String)
        → (contains (keys conns) name ≡ any (is_up name) ds)
          × (is_warned name warnings ≡ any (is_given_up name) ds))

report_on-Describes :
    (failed : List (String × String)) (ds : List Done)
    → is_empty failed ≡ not (any is_required_failure ds)
    → any has_raised ds ≡ false
    → Describes ds (report_on failed ds).report
unfolding report_on
report_on-Describes [] ds h none_raised = (
  ground arith,
  none_raised,
  λ name. (
    connections-keys name ds,
    ground (
      arith,
      is_warned-append name (failure_warnings ds) (target_warnings ds),
      is_warned-failures name ds,
      is_warned-targets name ds,
    ),
  ),
)
report_on-Describes (f ∷ fs) ds h none_raised = (ground arith, none_raised)

gathered-Describes :
    (escape : Option String) (ds : List Done)
    → is_some escape ≡ any has_raised ds
    → Describes ds (gathered escape ds).report
unfolding gathered
gathered-Describes none ds h =
    report_on-Describes (failed_required ds) ds (failed_required_empty ds) (sym h)
gathered-Describes (some e) ds h = sym h

-- An exception leaves `start_all_and_build_output` exactly if one leaves the start of a node. Else the
-- report is an error exactly if a required node failed to start, and otherwise a name is among the
-- connections exactly if a node of that name started, and there is a warning that it failed exactly
-- if a node of that name, not required, failed.
pub start_all_reports :
    (shown : List String → String) (es : List Entry)
    → Describes (start_all shown es) (start_all_and_build_output shown es).report
unfolding start_all_and_build_output build_output
start_all_reports shown es =
    let ds = start_all shown es in gathered-Describes (first_escape ds) ds (first_escape-any ds)
