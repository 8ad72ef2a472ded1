-- ===== src/Samples.antt =====
-- The theorems applied at concrete inputs, one module for each part of the program.
mod Runtime
mod Gates
mod Migrations
mod Canonical
mod Identity
mod Rules
mod State
mod Domains
mod Research
mod Engine
mod Versions
