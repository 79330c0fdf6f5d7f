-- ===== src/Lib.antt =====
-- A model of the trading agent's core and its correctness.
--
-- The program paper-trades perpetual futures. On each tick it reads market snapshots, forecasts each
-- asset, prices the round trip, ranks the board, lets a synthesizer decide, sizes each entry by tier
-- and regime, asks a risk gate, and lets a simulated executor change the portfolio.
--
-- The parts and their files:
--   Contracts            core/contracts.py: the records that the parts exchange, and the views of the
--                        portfolio (`PortfolioState.equity_usd`, `exposure_usd`, ...)
--   Tiers                core/tiers.py: `classify_tier`
--   Indicators           core/indicators.py: SMA, EMA, ROC, realized volatility, ATR, RSI, ADX
--   Regime               core/regime.py: `BaselineRegimeClassifier`, `apply_btc_override` and
--                        `playbook_multiplier`
--   Stops                core/stops.py: `derive_stops_takes`
--   Leverage             core/leverage.py: `choose_leverage`
--   MarketSource         core/data.py: `HyperliquidSource`, `CsvSource` and `fetch_board`, with the
--                        responses and the files as arguments
--   Feed                 core/ws.py: `HyperliquidWsSource`
--   Forecasting          core/forecast.py: `BaselineForecast`
--   Cost                 core/cost.py and core/eps.py: `CostModel`
--   Allocate             core/allocate.py: `allocate`
--   Sizing               core/sizing.py: `TierRegimeSizer.size`
--   Risk                 core/risk.py: `RiskGate.evaluate`
--   Executor             core/execute.py: `SimExecutor`; `open` is `open_position` here
--   Loop                 cli/run.py: `_aggregate_to_1h`, `_compute_btc_regime`, `_enter_sized`, `_apply`,
--                        `_AsyncAgent`, `_AgentScheduler`, `_fetch_and_score`, `step` and the loop of
--                        `main` around it
--   AgentTools           core/agent_tools.py: the views of the agent's state
--   Synthesis            core/synthesis.py: `RuleSynthesizer` and `GeminiSynthesizer._parse`
--   Audit                agent/audit.py: `AuditRecord` and `AuditStore`; agent/anchor_worker.py:
--                        `AnchorWorker`
--   Snapshot             agent/snapshot.py: `SnapshotState`, the document that `SnapshotWriter.write`
--                        composes, and the state rebuilt from an audit log
--   Recorders            cli/run.py: the loop with the audit store, the anchoring worker and the rows of
--                        the dashboard that `main` gives it; `_on_anchor_complete`
--   Wallet               agent/on_chain.py: `CircleAnchor`
--   Pusher               agent/auto_push.py: `AutoPusher`
--   Prelude              lists, dictionaries in insertion order, texts, sorting, results
--   Float                the arithmetic that the model is over
--   Tests                runs of the model on concrete inputs
--
-- How they interact: `size` uses the portfolio's equity, the playbook multiplier, the realized
-- volatility, the ATR, the exit plan and the leverage; `evaluate` reads the portfolio that the
-- executor mutates; `open_sized` takes what `size` built. The loop's `enter_sized` chains these and
-- turns exceptions of the classifier and the sizer into vetoes. The executor repeats the slippage
-- formula of the cost model, and the allocator its choice of the side.
--
-- Threads. The background agent is a future that is pending until the worker thread ends its call; the
-- input of a step says whether that happens before the loop polls, or after that and before the loop
-- asks whether a call is running. The anchoring worker is a queue on which calls of the loop and turns
-- of the thread interleave as a list of events. What the services answer is part of these inputs. A
-- pending call holds the state as it was launched; the source hands the live portfolio to the thread,
-- so that its decisions may come of a later state: the outcome of a call is any outcome in the model.
-- The socket feed is a cache on which steps of its tasks and calls of the loop interleave in the same
-- way. In the loop with recorders the turns of the worker stand between the steps, and within a step
-- before each access of the loop to what it shares with the worker: the append of a row, the calls on
-- the dashboard's memory, and the submission. An append of the loop may raise, which ends the run.
--
-- Outside services. git is an interface on a repository of any kind (Pusher), with `IsGit` as what the
-- publishing relies on. The wallet's answers are lists of the responses before the deadline. Texts
-- that the recorders compose (identifiers, reasons, times) are functions that the model takes as
-- arguments.
--
-- Numbers. The floats of the source are an abstract type `F` with an interface `Float F` of the
-- operations that the source uses (Float/Ops), and theorems that need arithmetic take the laws
-- `IsLawful F` (Float/Laws). The laws are facts of IEEE 754 doubles with rounding to nearest on runs
-- without NaN and overflow: monotone rounding, symmetry in the sign, exact neutral elements,
-- exact differences of small integers.
-- Nothing assumes that sums associate or products distribute. Float/Fixed is decimal fixed point with
-- twelve digits and shows that the laws can be met together; the tests compute with it. `sum`, `sqrt`
-- and `log` of Python are operations of the interface, raising where Python raises.
--
-- State and errors. A method of the executor maps a portfolio to a result and a portfolio: what was
-- written before a `raise` stays written. Exceptions are the constructors of `Error`, with their
-- messages left out; the reasons of the gate are constructors with the numbers that they print. A
-- `datetime` is a number of microseconds, a side is a `Side`, where `other` is any text but "long" and
-- "short"; the axes of a regime are enumerations of the texts that the source builds.
--
-- Fuel. The only loop on fuel is that of `choose_leverage`: it multiplies by 0.8 while above 1, and no
-- tier's cap is above 5, so eight rounds reach 1; the fuel is 9. Every other loop is a recursion on
-- the list that it reads.
--
-- Not modelled: the prompt and the client of the language model; the requests over the network, with
-- the check of the market source's bodies before they are sent; the ciphertext, the public key and the
-- file of settings of the wallet; the event loop and the threads themselves, whose turns are inputs;
-- the writing of files; the scripts, the dashboard page, the command line and its rendering. They call
-- services or print, and keep no state that the parts above read. The loop's forecaster is any
-- function, as its protocol allows.
pub mod Prelude
pub mod Float
pub mod Contracts
pub mod Tiers
pub mod Indicators
pub mod Regime
pub mod Stops
pub mod Leverage
pub mod Cost
pub mod Allocate
pub mod Risk
pub mod Executor
pub mod Sizing
pub mod Loop
pub mod AgentTools
pub mod Synthesis
pub mod Forecasting
pub mod Audit
pub mod Snapshot
pub mod MarketSource
pub mod Recorders
pub mod Feed
pub mod Wallet
pub mod Pusher
pub mod Tests
