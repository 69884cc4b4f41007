-- ===== src/Examples/Forwards.antt =====
-- A required node with two targets, of which the second cannot be reached.
use tunstrap.Common.{◌≡◌, refl, true, none, some, [], ◌∷◌, List}
use tunstrap.Ssh.{
  Target, listens, unreachable, close_transport, give_up, probe, open_forwards, open_local_forwards,
}
use tunstrap.Ssh.Listeners.{Keeps, open_local_forwards-Keeps, closings}

abbrev targets : List Target
targets =
    record { handle = "db"; forward = listens 1 40001; accepts = true; far_end = none }
    ∷ record {
      handle = "api";
      forward = listens 2 40002;
      accepts = true;
      far_end = some unreachable;
    }
    ∷ []

both_closed : closings (open_local_forwards true targets).acts ≡ 1 ∷ 2 ∷ []
unfolding open_local_forwards open_forwards probe close_transport give_up
both_closed = refl

open_local_forwards-Keeps_example : Keeps true [] targets (open_local_forwards true targets)
open_local_forwards-Keeps_example = open_local_forwards-Keeps true targets
