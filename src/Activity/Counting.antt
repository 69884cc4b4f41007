-- ===== src/Activity/Counting.antt =====
-- The aggregate counts the connections that are open: every hook, in any order and however often
-- it is called, keeps the count exact, so its clamp at zero never hides a miscount.
use tunstrap.Common.{
  ℕ, zero, suc, ◌+◌, ◌≡◌, refl, ◌↔◌, true, false, List, [], ◌∷◌, ◌++◌, arith, All,
}
use tunstrap.Activity.{
  Aggregate, Tracker, Forwards, Event, make_tracker, made, lost, fresh, new_aggregate, is_idle,
  connection_made, connection_lost, at_tracker, handle, handle_all,
}

-- 1 for a tracker whose connection was accepted and has not closed.
abbrev pub one_if_open : Tracker → ℕ
one_if_open t = elim t.opened [ true ↦ elim t.closed [ true ↦ 0 | false ↦ 1 ] | false ↦ 0 ]

abbrev pub open_count : List Tracker → ℕ
open_count [] = 0
open_count (t ∷ ts) = one_if_open t + open_count ts

-- A tracker closes only after it has opened.
abbrev pub ClosedWasOpen : Tracker → Type 0
ClosedWasOpen t = t.closed ≡ true → t.opened ≡ true

pub record IsCounted (f : Forwards) : Type 0 where
  pub exact : f.aggregate.active_count ≡ open_count f.trackers
  pub ordered : All ClosedWasOpen f.trackers

-- What one hook does to the tracker and the count.
abbrev Keeps : (Tracker → Aggregate → Tracker × Aggregate) → Type 0
Keeps hook =
    (t : Tracker) (a : Aggregate) (rest : ℕ)
    → a.active_count ≡ one_if_open t + rest
    → ClosedWasOpen t
    → ((hook t a).1.active_count ≡ one_if_open (hook t a).0 + rest) × ClosedWasOpen (hook t a).0

connection_made-Keeps : (now : ℕ) → Keeps (connection_made now)
unfolding connection_made
connection_made-Keeps now t a rest e c = ground arith

connection_lost-Keeps : (now : ℕ) → Keeps (connection_lost now)
unfolding connection_lost
connection_lost-Keeps now t a rest e c = ground arith

at_tracker-Keeps :
    (hook : Tracker → Aggregate → Tracker × Aggregate)
    → Keeps hook
    → (i : ℕ) (ts : List Tracker) (a : Aggregate) (before : ℕ)
    → a.active_count ≡ open_count ts + before
    → All ClosedWasOpen ts
    → ((at_tracker hook i ts a).1.active_count ≡ open_count (at_tracker hook i ts a).0 + before)
      × All ClosedWasOpen (at_tracker hook i ts a).0
unfolding at_tracker
at_tracker-Keeps hook keep i [] a before e all = (e, all)
at_tracker-Keeps hook keep zero (t ∷ ts) a before e all =
    let (counted, ordered) = keep t a (open_count ts + before) (omega arith) all.0 in
    (omega arith, (ordered, all.1))
at_tracker-Keeps hook keep (suc i) (t ∷ ts) a before e all =
    let (counted, ordered) =
      at_tracker-Keeps hook keep i ts a (one_if_open t + before) (omega arith) all.1 in
    (omega arith, (all.0, ordered))

open_count-fresh : (ts : List Tracker) → open_count (ts ++ fresh ∷ []) ≡ open_count ts
open_count-fresh [] = refl
open_count-fresh (t ∷ ts) = omega (arith, open_count-fresh ts)

All-fresh : (ts : List Tracker) → All ClosedWasOpen ts → All ClosedWasOpen (ts ++ fresh ∷ [])
All-fresh [] all = (λ h. ground arith, tt)
All-fresh (t ∷ ts) all = (all.0, All-fresh ts all.1)

handle-IsCounted : (e : Event) (f : Forwards) → IsCounted f → IsCounted (handle e f)
unfolding handle
handle-IsCounted make_tracker f c = record {
  exact = omega (arith, c.exact, open_count-fresh f.trackers);
  ordered = All-fresh f.trackers c.ordered;
}
handle-IsCounted (made i now) f c =
    let (counted, ordered) =
      at_tracker-Keeps (connection_made now) (connection_made-Keeps now) i f.trackers f.aggregate 0
        (omega (arith, c.exact)) c.ordered in
    record { exact = omega (arith, counted); ordered = ordered }
handle-IsCounted (lost i now) f c =
    let (counted, ordered) =
      at_tracker-Keeps (connection_lost now) (connection_lost-Keeps now) i f.trackers f.aggregate 0
        (omega (arith, c.exact)) c.ordered in
    record { exact = omega (arith, counted); ordered = ordered }

abbrev pub start : ℕ → Forwards
start now = record { trackers = []; aggregate = new_aggregate now }

start-IsCounted : (now : ℕ) → IsCounted (start now)
unfolding new_aggregate
start-IsCounted now = record { exact = refl; ordered = tt }

handle_all-IsCounted : (es : List Event) (f : Forwards) → IsCounted f → IsCounted (handle_all es f)
unfolding handle_all
handle_all-IsCounted [] f c = c
handle_all-IsCounted (e ∷ es) f c = handle_all-IsCounted es (handle e f) (handle-IsCounted e f c)

abbrev pub IsClosed : Tracker → Type 0
IsClosed t = one_if_open t ≡ 0

none_open : (ts : List Tracker) → (open_count ts ≡ 0) ↔ All IsClosed ts
none_open [] = (λ h. tt, λ h. refl)
none_open (t ∷ ts) = (
  λ h. (omega arith, (none_open ts).0 (omega arith)),
  λ h. omega (arith, h.0, (none_open ts).1 h.1),
)

is_idle_iff : (a : Aggregate) → (is_idle a ≡ true) ↔ (a.active_count ≡ 0)
unfolding is_idle
is_idle_iff a = (λ h. ground arith, λ h. ground arith)

-- Whatever hooks asyncssh calls, on whichever trackers, in whatever order and with whatever
-- repeats, the aggregate's count is the number of trackers that have opened and not closed, and
-- the daemon counts as idle exactly when no tracker has an open connection.
pub count_exact :
    (now : ℕ) (es : List Event)
    → ((handle_all es (start now)).aggregate.active_count
        ≡ open_count (handle_all es (start now)).trackers)
      × ((is_idle (handle_all es (start now)).aggregate ≡ true)
          ↔ All IsClosed (handle_all es (start now)).trackers)
count_exact now es =
    let c = handle_all-IsCounted es (start now) (start-IsCounted now) in
    let f = handle_all es (start now) in
    (
      c.exact,
      (
        λ h. (none_open f.trackers).0 (omega (arith, c.exact, (is_idle_iff f.aggregate).0 h)),
        λ h. (is_idle_iff f.aggregate).1 (omega (arith, c.exact, (none_open f.trackers).1 h)),
      ),
    )
