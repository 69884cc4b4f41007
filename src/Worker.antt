-- ===== src/Worker.antt =====
-- tunstrap/_worker.py: the daemon's watchdogs, its loss record and its disposal of the session.
pub mod Idle
pub mod Supervise
pub mod Entry
pub mod Protocol
