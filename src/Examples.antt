-- ===== src/Examples.antt =====
-- Tests, and the theorems at concrete inputs.
mod Daemon
mod Files
mod Nodes
mod Variables
mod Proxy
mod Kubeconfig
mod Targets
mod Ending
mod Runs
mod Sessions
mod Starts
mod Connections
mod Workers
mod Forwards
mod Handshakes
