-- ===== src/Lib.antt =====
-- The core of an intraday trading bot's backend: how a confirmed setup becomes an order.
--
-- The setup worker queues candidates. `run_once` of backend/execution_handoff.py takes the head of
-- that queue, checks it, writes a durable claim, places the order, writes what the exchange
-- answered into the claim, and removes the candidate from the queue before the claim is archived.
-- A run that finds a claim finishes it or stops. The two keys of the durable store
-- (`execution_handoff_active_claim`, `execution_handoff_last_claim`) outlive the process; the
-- queue does not.
--
-- Files:
-- - Prelude (Tests, Lists, Int): names of the library, Boolean tests and integers.
-- - Python: the values that JSON and Python's dicts hold, and `Python`, a record of the built-ins
--   that the source calls (`str`, `int`, `float`, comparison and arithmetic of floats). Python/Order
--   is the order of text and `sorted`.
-- - Handoff/Types, Handoff/Monad: the data of backend/execution_handoff.py and the actions on the
--   state `World` of a process with its durable store. `Env` is what a run asks of the rest of the
--   program: `py`, the settings, the fresh claim id, the claim store's status, the answers of
--   `daily_risk_report`, `existing_position_guard`, `get_mark_price`, `calculate_position_sizing`
--   and `place_demo_order`, and a fault for each effect: a store or journal operation may raise or
--   the process may die, before or after the effect.
-- - Handoff/Fill, PricePlan, Claims, Records, Recovery, Prepare, Submit, Run:
--   backend/execution_handoff.py by function; Prepare and Submit are the two halves of `run_once`.
-- - Handoff/Queue: backend/setup_queue_transaction.py and `_queue_candidate` of
--   backend/setup_worker.py.
-- - Handoff/Rules, Core, Safe, Gate, History: rules for actions, the part of the world that the
--   theorems are about, and the proofs by action. History has runs, queued rows and restarts as a
--   step relation, with any row queued at any time; `IsOrderly` is a condition of one theorem on it.
-- - Handoff/Tests: concrete runs.
--
-- The loops of the handoff go over finite lists, so there is no fuel.
--
-- Not modelled: the threads (a run that cannot take the handoff lock answers that it is busy, and
-- no other thread changes the queue or the claim during a run), the public removal method that a
-- setup worker may have instead of a queue, the encoding of claims as JSON (a claim that is read is
-- the one that was written, or the read fails), settings of Python that raise in the handler
-- itself, and the modules that patch the handoff at run time.
--
-- The scheduler, backend/runtime_orchestrator.py, is in Orchestrator:
-- - Types: its `_STATE`, the stages of a cycle, and `Env`, what one call asks of the rest: which stage
--   raises, which status function raises, and the environment variables.
-- - Failure: the classification of exceptions and the backoff.
-- - Run: `settings`, `run_due_once` and the snapshot. Run/Laws has the plan of a call.
-- - Thread: `start`, and `stop` and `_loop` in the parts between which threads can interleave.
-- - History: the scheduler as a step relation, and in History/Laws what its histories keep.
-- - Tests: concrete runs. Python/Fixed has the built-ins that the concrete runs use.
-- A call of `run_due_once` is one step. The message that a failure prints is not modelled.
--
-- The table of execution commands, backend/execution_command_storage.py, is in Commands: Types has
-- the states, the transitions and the rows; Table has the SQL statements on the list of the rows;
-- Storage has the methods, each a transaction that leaves the table as it was when it raises (and
-- Storage/Roundtrip what is read after a publication);
-- History has the methods as a step relation, with claims whose last statement comes after the
-- transactions of others. The order of text in the database, `strip` and `upper` are parameters.
-- The connection, row locks and the encoding of payloads are not modelled. The executor in Node writes
-- the same table with SQL of its own, node_execution/src/repository.js, which is no step of History.
--
-- The verification of a fill, backend/engines/order_fill.py, is in OrderFill: Classify has what one
-- row of the exchange says, Poll the two queries of each attempt and the attempts (a recursion on
-- their number, `max(1, attempts)`), Finalize the order that is handed on, the pending entry and its
-- gate; Finalize/Decision and Finalize/Filled are about the handoff's reading of that order.
-- `requester` is a function of the attempt and the query, and the polls keep the list of its calls.
-- Finalize/History has the calls of the functions that change the pending entry as a step relation, each
-- with answers of its own. Each function is one step; its thread lock is not modelled.
--
-- The outbox of approved candidates, backend/execution_command_outbox.py, is in Outbox: Payload has
-- the payload of a candidate, the settings and one request to Node; Deliver the loop of
-- `_deliver_direct` over the candidates, with `_DELIVERED` as a function; Validation and Mirror the
-- loop of `_mirror_postgres`, which calls the methods of Commands on the table; State `_STATE` and its
-- snapshot; Build `build`, `due` and `ensure_current`; History the steps of the outbox among those of
-- other threads and of the command table. The n-th request meets `urlopen n`, the n-th command of a
-- mirror `fault n`: an exception of the write, before or after its commit, or of the read. A build is
-- one step, and the transactions of others on the table come before or after it.
--
-- The guard of the leading instance, backend/runtime_instance_guard.py, is in InstanceGuard: Database is
-- what the guard relies on of PostgreSQL, an interface of calls with laws for sessions and session
-- advisory locks; Instance is the module's state in one process and its updates, Guard the functions
-- on it and the database; History has any number
-- of instances on one database, which acquire, check, release and restart in any order while others use
-- the database and write the bot's state; OneLock is a database for the concrete runs. The time is a
-- function of the reading in a call. The installation on the core is not modelled.
--
-- The candles of the historical replay, backend/replay_collector.py and the candles of
-- backend/replay_storage.py, are in Replay: Types has the exceptions as the values of `Outcome`, the
-- request and the candle; Request the validation of a request; Candle that of a candle; Rows the dict
-- and the sorts by time; Client the retries of `get_kline`; Page one page, Pages the loop of
-- `_run_pages`; Storage the SQL statements on the table as a list of rows; Cache the counts of
-- `cached_range_status`; Sync `collect`, `coverage` and `sync`. The loop over pages runs on
-- `max_pages`, which the source counts as well; the loop over chunks on the number of expected
-- candles, of which each turn reads at least one. Exchange is what the documentation of the exchange
-- says of its klines, a hypothesis of one theorem on `collect` only. The decimals of
-- Python/Decimals are compared exactly. A write that the database fails raises before or after its
-- commit. The URL, the pauses, failing reads of the table and the HTTP
-- handlers are not modelled, nor are the replay's sessions, events and trades.
--
-- `int` and `float` of an input on which they raise an OverflowError (an infinity, an integer beyond the
-- range of floats) are not modelled: Python has their results as parameters, with TypeError and ValueError
-- as the one failure.
--
-- Not modelled of the repository: the scanner and its strategies, sizing and risk, position
-- management, the replay's engine, the ledgers, the analytics, the HTTP servers and the Node executor;
-- what they answer is an input where a modelled part calls them.
pub mod Prelude
pub mod Python
pub mod Handoff
pub mod Orchestrator
pub mod Commands
pub mod OrderFill
pub mod Outbox
pub mod InstanceGuard
pub mod Replay
