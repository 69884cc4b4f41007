-- ===== src/Examples/Starts.antt =====
-- A start whose worker goes silent, and one whose result cannot be printed.
use tunstrap.Common.{some, pos, ok}
use tunstrap.Errors.{exception}
use tunstrap.Examples.Handshakes.{frame, silent}
use tunstrap.Examples.Runs.{settings}
use tunstrap.Start.{str, int, World}

abbrev world : World
world = record {
  schema = ok settings;
  decode = frame;
  fields = λ payload. some (record { session_dir = str "/tmp/tunstrap-1"; pid = int (pos 4711) });
  system = silent;
  emission = some (exception "BrokenPipeError");
}
