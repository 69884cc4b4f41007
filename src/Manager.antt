-- ===== src/Manager.antt =====
-- tunstrap/manager.py: the start of the nodes, and the report of it.
pub mod Start
pub mod Build
pub mod Nodes
pub mod Outcome
pub mod Reporting
