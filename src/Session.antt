-- ===== src/Session.antt =====
-- tunstrap/session.py: the session directory, from its validation to its removal, and the files that
-- are written in it.
pub mod Files
pub mod Replacing
pub mod Atomic
pub mod Create
pub mod Locked
pub mod Taking
pub mod Exclusive
