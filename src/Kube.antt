-- ===== src/Kube.antt =====
-- tunstrap/kube.py: a fetched kubeconfig is parsed, patched, renamed and disclosed.
pub mod Document
pub mod Parse
pub mod Patch
pub mod Remote
pub mod Targets
