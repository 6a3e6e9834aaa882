-- ===== src/Lib.antt =====
-- The trading core of SPY-DER, modelled as state and actions on it.
--
-- The program takes a decision of a model about an SPY options structure, checks it, and trades it on
-- paper. Its parts, and the files that model them:
--
-- - Guard (src/spy_der/execution/guard.py): the last deterministic check before an order. Types has the
--   records, Run has `apply_execution_guard` in the order of its statements.
-- - Execution: Contracts (src/spy_der/contracts/execution.py), the order state machine in Status
--   (src/spy_der/execution/state_machine.py), the isolated ledgers in Accounts
--   (src/spy_der/execution/accounts.py) and the fill simulator in Simulator
--   (src/spy_der/execution/simulator.py). The simulator owns the orders and calls the ledgers.
-- - Positions: Contracts (src/spy_der/contracts/positions.py), Status
--   (src/spy_der/positions/state_machine.py), Manager (src/spy_der/positions/manager.py), which turns
--   filled orders into positions and posts their results on the same ledgers, and Exits
--   (src/spy_der/positions/exits.py).
-- - Risk: Contracts (src/spy_der/contracts/risk.py), Lockout (src/spy_der/risk/lockout.py), Envelope
--   (src/spy_der/risk/envelope.py), Duplicates (src/spy_der/risk/duplicates.py), Sizing
--   (src/spy_der/risk/sizing.py), Firewall (src/spy_der/risk/firewall.py), which asks the duplicate guard
--   and sizes what an envelope allows, with its checks in Checks, and Portfolio
--   (src/spy_der/risk/portfolio.py), the tracker that exports the state the firewall checks against.
-- - Deployment: Manifest (src/spy_der/deployment/manifest.py), Pointer
--   (src/spy_der/deployment/rollback.py), Promotion (src/spy_der/deployment/promotion.py), Agent (src/spy_der/deployment/agent_manifest.py and
--   src/spy_der/deployment/notifications.py) and Cutover (src/spy_der/deployment/cutover.py), whose
--   controller moves the pointer and writes to the journal.
-- - Training: Folds (src/spy_der/training/folds.py), the split of trading sessions for a fit.
-- - Journal: Chain (src/spy_der/contracts/events.py and src/spy_der/journal/hash_chain.py), Store, the
--   in-memory store of src/spy_der/journal/store.py, and what they guarantee in Sealed and Tamper.
-- - Reconciliation (src/spy_der/execution/reconciliation.py) compares an account of the book with the
--   orders and positions on record, and blocks it where they differ.
-- - Prelude has what they share: Booleans, integers, floats, texts, dictionaries, and the actions.
--
-- An object with methods is a record, and a method is an action `S → Result E A × S`: the object comes
-- back whether the method returns or raises, since what was written before a raise stays written. Where
-- what is raised does not matter, a raise is none. A
-- method of one object that calls another's runs it on the part of the state that holds it, as the
-- simulator and the manager do with the book of accounts. The names are the source's; a method that is
-- split here has helpers for its statements.
--
-- Money, prices and ratios are integers on a grid of 1/10000, an instant is a number of microseconds, a
-- float is a value on the same grid or NaN. Rounding to the grid is written out where the source rounds.
-- Counts that the constructors keep at zero or more are natural numbers. Only the loop that builds folds
-- needs fuel: each round raises its counter, which stays below the number of folds, so that number and
-- one more is enough.
--
-- Parameters stand for what the source takes from elsewhere: hashes of identities and the hashed random
-- roll, the canonical JSON texts, the quotients and products of decimals and floats, the rounded shares of
-- calibration sessions and of contracts, and the time of day in New York. The clock is an argument of each call.
--
-- Not modelled: the restart, the drift report, the journal's SQLite store and projections, the layers
-- that make candidates and forecasts in floating point, the model services, and the processes and
-- pages around them.
pub mod Prelude
pub mod Guard
pub mod Execution
pub mod Positions
pub mod Risk
pub mod Reconciliation
pub mod Journal
pub mod Deployment
pub mod Training
