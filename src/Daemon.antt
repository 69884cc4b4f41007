-- ===== src/Daemon.antt =====
-- tunstrap/daemon.py: the parent's side of a daemon's start. Times are in milliseconds, bytes are
-- numbers, and the decoding of a frame is a parameter.
pub mod Reap
pub mod Frame
pub mod Reaping
pub mod Handshake
pub mod Spawn
pub mod Recovery
pub mod Seam
