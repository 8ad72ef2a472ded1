-- ===== src/Canonical.antt =====
-- canonical/: which normalized surfaces may become canonical rows, and under which keys.
pub mod Matrix
pub mod Domains
pub mod Policy
pub mod Select
pub mod Run
pub mod Winners
pub mod Chosen
pub mod Agreement
pub mod Bridge
pub mod Lookup
pub mod Copies
pub mod Coded
pub mod Bridged
pub mod CodeChange
