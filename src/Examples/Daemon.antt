-- ===== src/Examples/Daemon.antt =====
-- The idle accounting and the idle watchdog at concrete inputs.
use mathlib.Core.List.{map}
use tunstrap.Common.{◌≡◌, refl, ◌↔◌, true, false, some, List, [], ◌∷◌, arith, All}
use tunstrap.Activity.{Event, make_tracker, made, lost, new_aggregate, is_idle, handle, handle_all}
use tunstrap.Activity.Counting.{start, open_count, IsClosed, count_exact}
use tunstrap.Worker.Idle.{
  Poll, WasIdle, HasFired, quiet, idle_watchdog, fires_only_when_idle, fires_within_four_rounds,
}
use tunstrap.Worker.Supervise
use tunstrap.Worker.Supervise.{
  Node, NodeLoss, Supervisor, closed, has_required, payload, steps, starting, step, close_node,
  tunnel_loss_watchdog, record_losses, dispose_session, release_lock_preserving_data, cleanup,
  shut_down, supervise,
}
use tunstrap.Worker.Supervise.Losses.{required_count, supervise_cleans_up_iff}

-- One connection, accepted twice as far as its tracker hears, and another that is still open.
abbrev hooks : List Event
hooks = make_tracker ∷ made 0 5 ∷ made 0 6 ∷ make_tracker ∷ made 1 7 ∷ lost 0 9 ∷ lost 0 9 ∷ []

one_is_open : (handle_all hooks (start 0)).aggregate.active_count ≡ 1
unfolding handle_all handle new_aggregate
one_is_open = refl

count_exact_example :
    ((handle_all hooks (start 0)).aggregate.active_count
      ≡ open_count (handle_all hooks (start 0)).trackers)
    × ((is_idle (handle_all hooks (start 0)).aggregate ≡ true)
        ↔ All IsClosed (handle_all hooks (start 0)).trackers)
count_exact_example = count_exact 0 hooks

abbrev late_rounds : List Poll
late_rounds = map quiet (3 ∷ 0 ∷ 900 ∷ 0 ∷ [])

fires_only_when_idle_example : WasIdle 8 (idle_watchdog 8 late_rounds 0 (start 0))
fires_only_when_idle_example = fires_only_when_idle 8 late_rounds 0 (start 0) (omega arith)

fires_within_four_rounds_example : HasFired (idle_watchdog 8 late_rounds 0 (start 0))
unfolding new_aggregate
fires_within_four_rounds_example =
    fires_within_four_rounds 8 3 0 900 0 0 (start 0) refl (omega arith)

abbrev live : List Node
live = record { name = "edge"; required = true } ∷ record { name = "db"; required = false } ∷ []

-- The optional node is lost first, then the required one.
abbrev losses : List Supervise.Event
losses = closed 1 true ∷ closed 0 true ∷ []

abbrev preserved_state : Supervisor
preserved_state = record {
  stop_is_set = true;
  losses =
      record { node = "db"; required = false } ∷ record { node = "edge"; required = true } ∷ [];
  watched = [];
  on_disk = some (
      payload (
        record { node = "db"; required = false } ∷ record { node = "edge"; required = true } ∷ []));
}

lost_and_preserved : supervise losses live ≡ shut_down release_lock_preserving_data preserved_state
unfolding supervise steps step close_node tunnel_loss_watchdog record_losses payload dispose_session
    has_required
lost_and_preserved = refl

supervise_cleans_up_iff_example :
    (release_lock_preserving_data ≡ cleanup)
    ↔ (required_count preserved_state.watched ≡ required_count live)
supervise_cleans_up_iff_example =
    supervise_cleans_up_iff losses live release_lock_preserving_data preserved_state
      lost_and_preserved
