-- ===== src/Manager/Outcome.antt =====
-- What `start_all_and_build_output` leaves open.

use tunstrap.Common.{
  String, ◌≡◌, refl, ap, ◌∙◌, inl, inr, Bool-cases, Bool, true, false, ◌||◌, Option, none, some,
  List, [], ◌∷◌, ◌++◌, Result, ok, err, arith, any, ◌==◌,
}
use tunstrap.Manager.Start.{NodeInput, Start, start_one, Conn, Listener, Runtime, Closing}
use tunstrap.Manager.Build.{
  Entry, Done, start_all, failed_required, runtimes, stop_all, closings_of, Answer, output,
  error_output, raised, first_escape, gathered, Built, report_on, build_output,
  start_all_and_build_output,
}
use tunstrap.Manager.Nodes.{IsSettled, start_one-IsSettled, opened}

abbrev pub is_conn : Conn → Option Conn → Bool
is_conn c none = false
is_conn c (some d) = d == c

abbrev pub answers_with : Conn → Result String Conn → Bool
answers_with c (ok d) = d == c
answers_with c (err why) = false

-- Whether the start of a node opens a connection.
abbrev pub opens : Conn → Entry → Bool
opens c e = answers_with c e.start.connect

answers_with-eq : (c : Conn) (r : Result String Conn) → answers_with c r ≡ true → r ≡ ok c
answers_with-eq c (ok d) h = let same : d ≡ c = ground arith in ap ok same
answers_with-eq c (err why) h = cc

abbrev pub closes : Conn → List Closing → Bool
closes c [] = false
closes c (x ∷ xs) = is_conn c x.conn || closes c xs

abbrev pub holds : Conn → List Runtime → Bool
holds c [] = false
holds c (r ∷ rs) = is_conn c r.conn || holds c rs

closes-append :
    (c : Conn) (xs ys : List Closing) → closes c (xs ++ ys) ≡ (closes c xs || closes c ys)
closes-append c [] ys = refl
closes-append c (x ∷ xs) ys = ground (arith, closes-append c xs ys)

closes-stop_all : (c : Conn) (rs : List Runtime) → closes c (stop_all rs) ≡ holds c rs
unfolding stop_all
closes-stop_all c [] = refl
closes-stop_all c (r ∷ rs) = ground (arith, closes-stop_all c rs)

abbrev pub is_some : Option String → Bool
is_some none = false
is_some (some e) = true

-- A connection is closed, or held by a runtime, or an exception has left one of the starts.
abbrev pub IsKept : Conn → List Done → Type 0
IsKept c ds =
    (closes c (closings_of ds) || holds c (runtimes ds) || is_some (first_escape ds)) ≡ true

-- One node more among those that have started.
accounts_started :
    (c : Conn) (d : Done) (ds : List Done) (ls : List Listener) (node : NodeInput) (s : Start)
    → IsSettled c ls node s d.started
    → IsKept c (d ∷ ds)
unfolding closings_of runtimes first_escape
accounts_started c d ds ls node s (inl (up, at, l, e, h, x, _, _)) = ground arith
accounts_started c d ds ls node s (inr (inl (down, let_go, l, w, closed, x))) =
    ground (arith, closes-append c d.started.closings (closings_of ds))
accounts_started c d ds ls node s (inr (inr (down, at, l, h, (e, escaped, _)))) = ground arith

accounts_later : (c : Conn) (d : Done) (ds : List Done) → IsKept c ds → IsKept c (d ∷ ds)
unfolding closings_of runtimes first_escape
accounts_later c d ds h = ground (arith, closes-append c d.started.closings (closings_of ds))

module _ (shown : List String → String) where
  accounts : (c : Conn) (es : List Entry) → any (opens c) es ≡ true → IsKept c (start_all shown es)
  unfolding start_all
  accounts c [] h = cc
  accounts c (e ∷ es) h = elim (Bool-cases (any (opens c) es)) [
    | inl later ↦ accounts_later c _ (start_all shown es) (accounts c es later)
    | inr own ↦ accounts_started c _ (start_all shown es) (opened e.start.forwards) e.node e.start (
        start_one-IsSettled shown e.name e.node e.start c
          (answers_with-eq c e.start.connect (ground arith)))
  ]

abbrev pub is_error : Answer → Bool
is_error (output conns warnings) = false
is_error (error_output failed) = true
is_error (raised e) = false

abbrev pub is_raised : Answer → Bool
is_raised (output conns warnings) = false
is_raised (error_output failed) = false
is_raised (raised e) = true

abbrev Accounts : Conn → List Done → Built → Type 0
Accounts c ds b =
    (IsKept c ds → is_raised b.report ≡ false → (closes c b.closings || holds c b.live) ≡ true)
    × (is_error b.report ≡ true → b.live ≡ [])

report_on-Accounts :
    (c : Conn) (failed : List (String × String)) (ds : List Done)
    → is_some (first_escape ds) ≡ false
    → Accounts c ds (report_on failed ds)
unfolding report_on
report_on-Accounts c [] ds none_raised = (λ h own. ground arith, λ h. cc)
report_on-Accounts c (f ∷ fs) ds none_raised = (
  λ h own. ground (
    arith,
    closes-append c (closings_of ds) (stop_all (runtimes ds)),
    closes-stop_all c (runtimes ds),
  ),
  λ h. refl,
)

gathered-Accounts :
    (c : Conn) (escape : Option String) (ds : List Done)
    → first_escape ds ≡ escape
    → Accounts c ds (gathered escape ds)
unfolding gathered
gathered-Accounts c none ds e = report_on-Accounts c (failed_required ds) ds (rw e refl)
gathered-Accounts c (some x) ds e = (λ h own. cc, λ h. cc)

-- Whether an exception of a write leaves the start of a node.
abbrev pub is_lost : (List String → String) → Entry → Bool
is_lost shown e = is_some (start_one shown e.name e.node e.start).escaped

raised_of_gathered :
    (escape : Option String) (ds : List Done)
    → is_raised (gathered escape ds).report ≡ is_some escape
unfolding gathered report_on
raised_of_gathered none ds = by_failures (failed_required ds)
  where
    by_failures : (failed : List (String × String)) → is_raised (report_on failed ds).report ≡ false
    by_failures [] = refl
    by_failures (f ∷ fs) = refl
raised_of_gathered (some e) ds = refl

first_escape-start_all :
    (shown : List String → String) (es : List Entry)
    → is_some (first_escape (start_all shown es)) ≡ any (is_lost shown) es
unfolding first_escape start_all
first_escape-start_all shown [] = refl
first_escape-start_all shown (e ∷ es) = ground (arith, first_escape-start_all shown es)

-- Unless an exception leaves it, `start_all_and_build_output` loses track of no connection: whatever
-- the starts of the nodes answer, each connection that one of them opened has been closed or is held
-- by a live runtime, and behind an error report no runtime is live, so that every connection has been
-- closed. An exception leaves it exactly if one leaves the start of a node.
pub start_all_accounts :
    (shown : List String → String) (es : List Entry) (c : Conn)
    → any (opens c) es ≡ true
    → (is_raised (start_all_and_build_output shown es).report ≡ false
        → (closes c (start_all_and_build_output shown es).closings
            || holds c (start_all_and_build_output shown es).live)
          ≡ true)
      × (is_error (start_all_and_build_output shown es).report ≡ true
          → (start_all_and_build_output shown es).live ≡ [])
      × (is_raised (start_all_and_build_output shown es).report ≡ any (is_lost shown) es)
unfolding start_all_and_build_output build_output
start_all_accounts shown es c h =
    let ds = start_all shown es in
    let (kept, stopped) = gathered-Accounts c (first_escape ds) ds refl in
    (
      kept (accounts shown c es h),
      stopped,
      raised_of_gathered (first_escape ds) ds ∙ first_escape-start_all shown es,
    )
