-- ===== src/MarketState.antt =====
-- state/: the descriptive market states. The rules and the engine of state/engine.py, and the
-- registry of state/registry.py that the engine compiles first.
pub mod Inputs
pub mod Rules
pub mod Specs
pub mod Structure
pub mod Engine
pub mod Registry
