-- ===== src/Run.antt =====
-- tunstrap/cli.py: the command `run`, from its arguments to its exit code. A run is a function to
-- how it ends and to the list of what it does outside the process, in order.
pub mod Arguments
pub mod Child
pub mod Command
pub mod Ownership
pub mod Releases
pub mod Fates
pub mod Settled
pub mod Promises
pub mod Safety
