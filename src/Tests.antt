-- ===== src/Tests.antt =====
-- Tests on concrete inputs.
pub mod Data
pub mod Outsides
pub mod Checkers
pub mod Cluster
pub mod Fresh
pub mod Pods
pub mod Metadata
pub mod Manifests
pub mod Runs
