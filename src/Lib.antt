-- ===== src/Lib.antt =====
-- A model of the A-share data service's core logic, with proofs of what makes it correct.
--
-- The service reads market data through a provider SDK, keeps it as canonical rows, derives features
-- and descriptive market states from them, and checks provider evidence against exchange rules.
-- Modelled here are the parts that decide:
--
-- * Lifecycle, src/ashare_state/providers/lifecycle.py: the state machine of the SDK runtime. The
--   object's fields are the record SdkLifecycle; transition, close and require_ready return the new
--   object or the raised error. Lifecycle.History and Lifecycle.Terminal hold the proofs.
-- * Subscription, src/ashare_state/providers/amazingdata/subscription.py: the controller that drives
--   a lifecycle through a subscription window. Each method takes the answer of the SDK call that it
--   makes; Window, Trail and Closing, below it, run sequences of SDK events.
-- * TradingRule, src/ashare_state/spike/trading_rule.py: Decimals and Dates are the number and date
--   functions, Rows the rule rows and validate, Resolve the point-in-time resolution, Limits the
--   limit prices.
-- * MarketState, src/ashare_state/state/: Specs and Registry are registry.py, Inputs, Rules and
--   Structure are the readers and the four rules of engine.py, Engine and Engine.Run are
--   compute_state_set with the checks of a market row.
-- * Canonical, src/ashare_state/canonical/eligibility.py: Matrix is the domain matrix, Domains its
--   lookups and key builders.
--   Policy is source_policy.py, Select and Run are _select of canonicalizer.py and the pass over one
--   domain around it; Winners, Chosen and Agreement hold the proofs. Bridge and Lookup are
--   identity.py, over Identity; Copies, Coded, Bridged and CodeChange hold the proofs.
-- * Gates, src/ashare_state/providers/runtime_gates.py: the verdicts and the pipeline, with the six
--   gates in Gates.Checks. A gate acts on a provider's state; Stops, Session, Calls and
--   Counts hold the proofs.
-- * Identity, src/ashare_state/identity/security_id.py: symbols, identity keys and the resolved
--   identity; Keys and Reading read a key back, RoundTrip and Symbols hold the proofs.
-- * Migrations, src/ashare_state/storage/migrations.py: the files and their statements, and in
--   Migrations.Apply the run over a database connection; Ledger, Transactions, Progress and Atomic
--   hold the proofs.
-- * Research, src/ashare_state/research/: Splits is splits.py with the windows of models.py, Bars is
--   eligibility.py.
-- * Versions, src/ashare_state/storage/versioning.py: the activation of feature sets and universes
--   over a Store of the three tables; Versions.Immutable holds the proofs.
-- * Common holds the tests, lists, texts and results that these share, and Samples applies the
--   theorems at concrete inputs.
--
-- The parts meet where the code makes them meet: a subscription controller owns a lifecycle object,
-- the session gate of a pipeline reads one, the state engine compiles the registry's set before it
-- computes, and the bars of the research panel are judged by the split that their date has.
--
-- Bounds and fuel: numbers are unbounded, as Python's ints are. The decimal digits of a number are
-- printed on fuel n + 1, which is enough since each digit divides the number by ten. All other loops
-- are structural. Decimals are exact: the 28 digits of Python's decimal context are not modelled,
-- and neither are positive exponents. Digits and letter case are those of ASCII.
-- A date given as an int is not below 0.
--
-- Parameters: Python's floats are the record Floats of MarketState.Inputs, an argument of the rules.
-- The order of its finite values that IEEE 754 documents is the hypothesis IsOrdered of Inputs.Reads.
-- Digests over JSON texts are the record Digests of MarketState.Engine, and date.fromisoformat is an
-- argument of Research.Splits, a digest one of Versions. JSON texts are the record Json of
-- Canonical.Select, the database connection is the record Connection of Migrations.Apply with the
-- documented rules IsTransactional of Migrations.Transactions, the UUID of a key is an argument of
-- Identity, and probes are functions on a provider's state in Gates. The clock and the answers of the
-- SDK are arguments too.
--
-- Not modelled: files, YAML, hashes, Polars frames and DuckDB, which the sources call as libraries,
-- and the components that are mostly such calls.
pub mod Common
pub mod Gates
pub mod Identity
pub mod Lifecycle
pub mod Subscription
pub mod TradingRule
pub mod MarketState
pub mod Canonical
pub mod Migrations
pub mod Research
pub mod Versions
pub mod Samples
