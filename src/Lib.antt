-- ===== src/Lib.antt =====
-- CoinPilot, a paper-trading system for a spot market that is long or in cash and never sends an
-- order. The parts that are modelled, and how they meet:
--
--   * Broker.antt - src/coinpilot/broker.py. The account (PortfolioState) and the two operations
--     that trade: `buy`, `sell_all`. The entry_ fields and the pending_ fields are the records
--     Entry and Pending of the account, and the fields are read from the account by their source
--     names.
--   * Risk.antt - src/coinpilot/risk.py. `size_entry` decides the size of an entry or rejects it
--     with a reason; `drawdown`.
--   * Engine.antt and Engine/ - src/coinpilot/engine.py. One closed bar at a time: `process_bar` is
--     the chain check_gap, exit_at_open, enter, check_stop, equity_at, check_drawdown,
--     tick_cooldown, next_pending, one function for each block of the method, in the method's
--     order. Types holds the records, Blocks what may trade, Process the rest. Facts says what each
--     block may change, Trace splits a returned bar into its blocks, and the other files prove the
--     theorems.
--   * Backtest.antt and Backtest/ - src/coinpilot/backtest.py. The loop of `run_backtest`, which
--     calls `process_bar` for each executed row and `liquidate` at the end.
--   * Paper.antt and Paper/ - src/coinpilot/paper.py. One public ticker at a time:
--     `process_snapshot` is check_ticker, take_new_bar, guard_position, exit_on_model, enter, the
--     drawdown halt, the cooldown and keep_decision; `monitor_position` (Monitor) is the watch over
--     a held position that `run_paper_once` begins with. The layout is that of Engine/.
--   * PaperStore.antt and PaperStore/ - src/coinpilot/store.py. `save_paper_step` is the
--     transaction that replaces an account's state under its revision and appends its events;
--     tables are lists of rows, and the texts in them are those that the code writes.
--   * Outbox.antt and Outbox/ - src/coinpilot/hft_shadow_store.py. The leases of the notification
--     outbox: `claim_notifications`, `mark_notification_delivered`, `record_notification_failure`.
--   * Shadow.antt and Shadow/ - src/coinpilot/hft_shadow.py, with the tables and the transactions
--     of hft_shadow_store.py that it calls. `process_book` (Engine) takes one live order book:
--     apply_book (Book, with Feed) breaks the feed, or resolves the order that waits (Orders,
--     Settle), recovers an account that a break has halted and counts the warm-up; apply_intent
--     records the caller's intent (Intents), and close_book (Close, with Sampling) values and saves
--     the account. Control is `halt` and `stop_run`, Start with Predecessor `start_run`, Health
--     `update_heartbeat` and `record_health`; Types, Rows, Same and Ledger are the tables with
--     `insert_exact` and `enqueue_notification`. Tables, Counts, Resolved, Recorded, Fills,
--     Served, Passage, Processed and Saving say what each part leaves; Moves is the diagram of the
--     statuses, beside which it names the breaks that lift a latched halt; the other files prove the theorems.
--   * Depth.antt and Depth/ - src/coinpilot/hft_depth.py. `build_index` cuts the archived books
--     into runs without a break, `select` finds the book of a run at which a delayed order is
--     filled (both are `_ReplayBookIndex`), `sweep_visible_depth` (Sweep) fills it from the visible
--     levels, and `replay_independent_taker_orders` (Replay) does both for each order.
--   * Signal.antt and Signal/ - src/coinpilot/hft_shadow_signal.py. The diagnostic signal over the
--     records of the feed: Stream keeps the continuity of the stream and the window of trades, and
--     `feed` (Feed) takes one record and gives a snapshot at each order book.
--
-- The engines call Risk, then Broker; what they return is what the store saves under its revision. The
-- shadow account sweeps its due orders with Depth, and its alerts are the new rows of the outbox.
--
-- Floats: Arith.antt declares the operations on floats that the code uses as an instance, `Arith F`,
-- and every definition is generic in it. The theorems use at most the laws of IsOrdered (how `max`,
-- `<` and `<=` act on numbers that are in order), which hold of IEEE 754 arithmetic with its rounding,
-- infinities and NaN. No law of the field operations is assumed. Division is total,
-- where Python raises at a zero denominator: `size_entry` meets one only with a configuration that
-- `validate` refuses. Decimal.antt is an instance by
-- fixed-point integers, at which Samples.antt and the Examples modules compute. Times are naturals
-- (nanoseconds, with minutes and seconds as their multiples).
--
-- Exceptions: an operation that raises is `raised e s`, with the account as the exception leaves it,
-- since the source changes the account in place (Prelude/Results.antt); `feed` gives the state that it
-- leaves beside its result. A store transaction that raises has no state of its own, since it is
-- rolled back (`Step` of the shadow engine, whose every call is one transaction); nor has a replay,
-- which changes no object.
--
-- Books, orders and settings of a replay are as their constructors leave them: the checks of the raw
-- JSON records are not modelled. The text test of the outbox is modelled with Python's `strip`.
--
-- Loops are structural over lists; nothing runs on fuel. `bisect_left` is modelled by its documented
-- result, the number of the leading elements below the bound.
--
-- The rows of a shadow table are in the order of their insertion, a CHECK that fails or a unique
-- column that is taken is the branch of `insert_exact` that the code handles, and foreign keys are not
-- modelled. The features of an intent stand as their canonical JSON text. A shadow configuration is as
-- its `validate` leaves it.
--
-- Event ids are digests of their parts and stand as these parts. Wall-clock reads are arguments.
-- SQLite, logging, pandas and numpy, HTTP and WebSocket clients, JSON texts and hashing are not
-- modelled; nor are the model training, the metrics of a backtest, research, configuration checks, the
-- service around the shadow engine with its status reads, archive and audit journal of the program,
-- nor its command line and scripts.
pub mod Prelude
pub mod Arith
pub mod Broker
pub mod Risk
pub mod Engine
pub mod Backtest
pub mod PaperStore
pub mod Paper
pub mod Outbox
pub mod Depth
pub mod Shadow
pub mod Signal
pub mod Decimal
pub mod Samples
