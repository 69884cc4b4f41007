-- ===== src/Worker/Supervise.antt =====
-- `_supervise` of tunstrap/_worker.py with the tunnel-loss watchdogs, `_record_losses` and
-- `_dispose_session`. The event loop runs one callback at a time; a run is the list of the callbacks
-- in the order in which they ran before the wait on `stop_event` resumed.
pub mod Losses
use tunstrap.Common.{
  ℕ, zero, suc, String, Bool, true, false, ◌||◌, Option, none, some, List, [], ◌∷◌, ◌++◌, any,
  if◌then◌else◌,
}

-- One entry of `live_nodes`: a node that started, and whether it is required.
pub record Node : Type 0 where
  pub name : String
  pub required : Bool

-- `_NodeLoss`
pub record NodeLoss : Type 0 where
  pub node : String
  pub required : Bool

-- The payload of `_record_losses`.
pub record LossRecord : Type 0 where
  pub self_terminated : Bool
  pub reason : String
  pub losses : List NodeLoss

abbrev pub terminal_loss : String
terminal_loss =
    "required tunnel lost: the daemon terminated itself and released its session lock; session data is preserved"

abbrev pub degraded_loss : String
degraded_loss =
    "non-required tunnel lost: the daemon is degraded and still running; the remaining forwards are unaffected"

-- `stop_event`, `watch.losses`, the nodes whose watchdog still waits, and the record on disk.
pub record Supervisor : Type 0 where
  pub stop_is_set : Bool
  pub losses : List NodeLoss
  pub watched : List Node
  pub on_disk : Option LossRecord

-- `any(loss.required for loss in losses)`
unfoldable pub has_required : List NodeLoss → Bool
has_required [] = false
has_required (l ∷ ls) = l.required || has_required ls

unfoldable pub payload : List NodeLoss → LossRecord
payload losses = record {
  self_terminated = has_required losses;
  reason = if has_required losses then terminal_loss else degraded_loss;
  losses = losses;
}

-- `_record_losses`; a write that raises leaves the record that was there.
unfoldable pub record_losses : Bool → Supervisor → Supervisor
unfolding payload
record_losses written s = record s {
  on_disk = if written then some (payload s.losses) else s.on_disk;
}

-- `_tunnel_loss_watchdog` behind the wait for the connection to close.
unfoldable pub tunnel_loss_watchdog : Node → Bool → Supervisor → Supervisor
unfolding record_losses
tunnel_loss_watchdog n written s =
    let recorded =
      record_losses written
        (record s { losses = s.losses ++ record { node = n.name; required = n.required } ∷ [] }) in
    record recorded { stop_is_set = if n.required then true else s.stop_is_set }

-- A signal or the idle watchdog sets the event; a connection closes (the position among the nodes
-- that are still watched, and whether the record can be written).
pub data Event : Type 0 where
  stop_requested : Event
  closed : ℕ → Bool → Event

abbrev pub put_back : Node → Option (Node × List Node) → Option (Node × List Node)
put_back n none = none
put_back n (some (m, rest)) = some (m, n ∷ rest)

-- The node at a position, and the nodes without it.
abbrev pub remove_at : ℕ → List Node → Option (Node × List Node)
remove_at i [] = none
remove_at zero (n ∷ ns) = some (n, ns)
remove_at (suc i) (n ∷ ns) = put_back n (remove_at i ns)

unfoldable pub close_node : Option (Node × List Node) → Bool → Supervisor → Supervisor
unfolding tunnel_loss_watchdog
close_node none written s = s
close_node (some (n, rest)) written s = tunnel_loss_watchdog n written (record s { watched = rest })

unfoldable pub step : Event → Supervisor → Supervisor
unfolding close_node
step stop_requested s = record s { stop_is_set = true }
step (closed i written) s = close_node (remove_at i s.watched) written s

unfoldable pub steps : List Event → Supervisor → Supervisor
steps [] s = s
steps (e ∷ es) s = steps es (step e s)

abbrev pub starting : List Node → Supervisor
starting live = record { stop_is_set = false; losses = []; watched = live; on_disk = none }

-- What `_dispose_session` does with the session.
pub data Disposal : Type 0 where
  release_lock_preserving_data cleanup : Disposal

unfoldable pub dispose_session : List NodeLoss → Disposal
dispose_session losses = if has_required losses then release_lock_preserving_data else cleanup

-- How a run ends: the daemon still waits, or it has shut down. The watchdogs are cancelled before
-- the connections are closed, and a cancelled watchdog returns, so that nothing is recorded behind
-- the wait.
pub data Ending : Type 0 where
  waiting : Supervisor → Ending
  shut_down : Disposal → Supervisor → Ending

unfoldable pub supervise : List Event → List Node → Ending
unfolding dispose_session
supervise es live =
    let s = steps es (starting live) in
    if s.stop_is_set then shut_down (dispose_session s.losses) s else waiting s
