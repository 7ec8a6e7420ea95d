-- ===== src/Lib.antt =====
-- A model of the trading core of kis-autotrader, an automatic trader for the KIS stock API, and
-- what its parts guarantee.
--
-- In the program an engine asks strategies for signals on market data, combines them by votes,
-- checks each order against the limits of a risk manager and sends it to the API through a rate
-- limiter. Work that can wait (calendar, Telegram, statistics) goes into a queue in the database,
-- from which worker processes take it. A backtest runs a strategy over past days with a virtual
-- broker. A harness runs cycles of automatic improvement on the repository itself.
--
-- The files and the code that they model:
-- - Trading: src/engine.py, class TradingEngine. Orders has the fills, the trades and the pending
--   orders, Execution _execute_buy and _execute_sell, Held _process_held_stock, Stock
--   _process_stock, Cycle pre_market, run_trading_cycle and the recovery after a restart. Calls
--   shows that what each single change of the engine keeps, its orders, stocks and cycles keep;
--   Ledger compares the engine's state with the trades that it recorded, over whole days, at the
--   close and after a restart.
-- - Strategy: src/strategy/base.py, SignalType and Signal with its check; the abstract strategy is
--   a function from its data to a signal. Strategy/Indicators has the four strategies on
--   indicators (src/strategy/moving_average.py, rsi.py, macd.py, bollinger.py), Strategy/Registry
--   the classes StrategyRegistry and StrategySelector (src/strategy/registry.py, selector.py),
--   Strategy/Default the ensemble that create_default builds.
-- - Risk: src/strategy/risk.py, class RiskManager. Risk/Manager has the fields and __init__,
--   Risk/Portfolio record_trade_result, reset_daily_risk, snapshot and restore, Risk/Exits the
--   stops and the exits, Risk/Gates the sizing and the gates of a buy. Below them
--   Portfolio/History and Portfolio/Recovery, Exits/Order and Exits/Conflicts, and Gates/Verdicts
--   hold the theorems.
-- - Worker/Queue: src/worker/queue.py, class TaskQueueService, on the rows of TaskQueue in
--   src/db/models.py. Worker/Runner: src/worker/runner.py, _process_task and a round of run.
-- - Ensemble: src/strategy/ensemble.py, class EnsembleStrategy.
-- - Backtest/Broker and Backtest/Engine: src/backtest/broker.py and src/backtest/engine.py.
--   Backtest/Report is calculate_metrics of src/backtest/report.py, in which a backtest ends.
-- - Client: src/api/client.py. Breaker has class CircuitBreaker, Request the retries of
--   KISClient._request. Client/WebSocket is src/api/websocket.py, class KISWebSocketManager.
-- - Screening: src/strategy/screener.py. Filter has class ScreeningFilter, Merge merge_rankings,
--   Score the scores and the ranking.
-- - RateLimiter: src/api/rate_limiter.py, classes TokenBucket and RateLimiter; RateLimiter/Redis
--   and RateLimiter/Hybrid have RedisRateLimiter and HybridRateLimiter.
-- - Harness/Progress, Harness/Contract, Harness/Trigger: src/harness/progress.py, the verifier's
--   contract.py with the artifacts that it reads, and trigger.py. Harness/Groups: the union-find
--   of src/harness/dependency.py, from the forest of its parents to the groups that it returns.
-- - Common, Float and Python hold what the parts share; Tests applies the theorems to concrete
--   inputs.
--
-- How the code is carried over. An object is a record and a method that changes it a function to
-- the new record; an exception is an error of Python.Result; each division checks for zero. The
-- clock is an argument: times of day are hours and minutes, time stamps are seconds. A float is
-- any type with the operations of Float; the laws of Float.IsRounded are those of rounded
-- arithmetic without NaN and overflow, and Float/Milli is an instance that satisfies them, with
-- three decimal places. An int is an integer without bounds, as in Python, and a natural number
-- where the code only counts. The database's sorting is a parameter with the laws of an ORDER BY
-- for any columns, the program's columns are a definition, the locks of other workers (SKIP
-- LOCKED) a predicate; Redis is an interface with the laws of its counters; the handlers of the
-- worker, the strategy of a backtest, math.sqrt and the infinite float are parameters. What the
-- API, the database and the guards answer to the engine is an argument of its functions, one
-- answer for each call that the code makes; the sequence of the calls that leave the engine stands
-- in its state. Nearly every loop follows a list, be it the days of a backtest, the tasks of a
-- batch or the readings of a clock. Two count their rounds: the reconnection has the attempts that
-- the code leaves, and the search for a root in Harness/Groups has one round for each proposal and
-- each file that is named, and one more. That is enough, since a path gets longer by one at each
-- union at most; Harness/Groups/Forest shows that the search then ends at a root.
--
-- Not modelled: calls of one object that overlap at their awaits, the reports behind the close in
-- src/engine.py, the endpoints of the API, the market calendar, the filters of flow and
-- disclosure, the series that pandas computes for the indicators, notification, calendar,
-- dashboard, persistence, configuration and scripts; log lines, the reason and the meta of a
-- signal, and the vote details, which no decision reads.
pub mod Common
pub mod Float
pub mod Python
pub mod Strategy
pub mod Risk
pub mod Worker
pub mod Ensemble
pub mod Backtest
pub mod Harness
pub mod RateLimiter
pub mod Trading
pub mod Client
pub mod Screening
pub mod Tests
