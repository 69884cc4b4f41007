-- ===== src/Ssh.antt =====
-- tunstrap/ssh.py: the forwards of a node, and the closing of a transport. A listener is a number,
-- and what asyncssh and the probes answer for each target stands with the target.
pub mod Listeners
use tunstrap.Common.{
  ℕ, String, Bool, true, false, Option, none, some, List, [], ◌∷◌, ◌++◌, Result, ok, err,
  if◌then◌else◌,
}
use tunstrap.Common.Dict.{Dict, insert}

-- An `asyncssh.Error` or `OSError` of the forward, a `TunnelStartupError` of a probe, or an exception
-- that ends the task.
pub data Failure : Type 0 where
  forward_failed not_accepting unreachable cancelled : Failure

-- `conn.forward_local_port`: a listener and its port, or an exception.
pub data Forward : Type 0 where
  listens : ℕ → ℕ → Forward
  raises : Failure → Forward

-- `_probe_required_target` for the far end: a channel opens, or the probe raises.
pub record Target : Type 0 where
  pub handle : String
  pub forward : Forward
  pub accepts : Bool
  pub far_end : Option Failure

pub data Act : Type 0 where
  opened closed drained : ℕ → Act
  connection_closed connection_gone : Act

pub record Opened : Type 0 where
  pub outcome : Result Failure (Dict ℕ)
  pub listeners : List ℕ
  pub acts : List Act

abbrev pub each : (ℕ → Act) → List ℕ → List Act
each act [] = []
each act (l ∷ ls) = act l ∷ each act ls

-- The connection, if there is one, with whether `close` works: if it raises, nothing is awaited.
abbrev pub closing_connection : Option Bool → List Act
closing_connection none = []
closing_connection (some true) = connection_closed ∷ connection_gone ∷ []
closing_connection (some false) = connection_closed ∷ []

-- `close_transport`: each call is made, whether or not the one before raised.
unfoldable pub close_transport : Option Bool → List ℕ → List Act
close_transport conn listeners =
    each closed listeners ++ (closing_connection conn ++ each drained listeners)

-- The probes of one forward: the far end is probed for a required node only.
unfoldable pub probe : Bool → Target → Option Failure
probe required t = if t.accepts then (if required then t.far_end else none) else some not_accepting

abbrev pub then_opens : ℕ → Opened → Opened
then_opens l o = record { outcome = o.outcome; listeners = o.listeners; acts = opened l ∷ o.acts }

-- The `except` clause.
unfoldable pub give_up : List ℕ → Failure → Opened
unfolding close_transport
give_up listeners e = record {
  outcome = err e;
  listeners = [];
  acts = close_transport none listeners;
}

unfoldable pub after_probe : List ℕ → Opened → Option Failure → Opened
unfolding give_up
after_probe listeners next none = next
after_probe listeners next (some e) = give_up listeners e

-- The loop, with the ports and the listeners so far.
unfoldable pub open_forwards : Bool → Dict ℕ → List ℕ → List Target → Opened
unfolding after_probe give_up probe
open_forwards required ports listeners [] = record {
  outcome = ok ports;
  listeners = listeners;
  acts = [];
}
open_forwards required ports listeners (t ∷ ts) = elim t.forward [
  | raises e ↦ give_up listeners e
  | listens l port ↦ then_opens l (
      after_probe (listeners ++ l ∷ [])
        (open_forwards required (insert t.handle port ports) (listeners ++ l ∷ []) ts)
        (probe required t))
]

-- `open_local_forwards`
unfoldable pub open_local_forwards : Bool → List Target → Opened
unfolding open_forwards
open_local_forwards required targets = open_forwards required [] [] targets
