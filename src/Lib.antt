-- ===== src/Lib.antt =====
-- A verification library for idx-backtest-lab, a laboratory for backtests of trading strategies on
-- the Indonesian stock exchange. It models the Python backend under backend/app.
--
-- The program stores strategies, datasets of daily bars and manifests of runs. A run reads its
-- manifest, takes the bars of its period, lets an engine trade on them, and turns the engine's events
-- into portfolio snapshots and metrics. An optimization expands a grid of parameters into runs over
-- a training and a validation partition, selects one candidate by a metric, and runs it on a
-- holdout partition.
--
-- The parts and their files:
--   Common        numbers, texts, orders, sorted lists, results of fallible code, actions on a state,
--                 dates, JSON values
--   Market        backend/app/domain/market_data.py (Bar, Imports), backend/app/domain/dataset.py
--                 (Dataset)
--   Execution     backend/app/domain/execution_result.py (the engine's events)
--   Strategy      backend/app/domain/strategy_spec.py and
--                 backend/app/application/strategy_spec_service.py: Parameters (the classes and their
--                 checks), Build (build_parameters), Spec (StrategySpecV1, create_strategy_spec)
--   Manifest      backend/app/domain/backtest_manifest.py: Classes (the checks), Parse and Document
--                 (to_canonical_dict, parse_run_manifest)
--   Run           backend/app/domain/backtest_run.py (Record),
--                 backend/app/infrastructure/db/backtest_run_repository.py (Store),
--                 backend/app/application/execute_backtest_run_service.py (Execute)
--   Artifact      backend/app/domain/run_artifact.py: Snapshots, Fifo, Metrics
--   Engine        backend/app/infrastructure/engine/backtrader_adapter.py: Sizing (the size of an
--                 order), Signals (the lines of a strategy's indicators), State and Callbacks (the strategy
--                 classes, one function per callback), Adapter (execute)
--   Optimization  backend/app/domain/optimization.py and backend/app/domain/date_ranges.py: Status,
--                 Partitions, Grid, Selection, Records;
--                 backend/app/infrastructure/db/optimization_repository.py (Store),
--                 backend/app/application/optimization_manifest_service.py (Create),
--                 backend/app/application/execute_optimization_service.py (Services, Execute)
--   Ingestion     backend/app/infrastructure/ingestion/csv_parser.py (Csv)
--   Instrument    backend/app/domain/instrument.py (its mappings),
--                 backend/app/application/dataset_instrument_mapping_service.py and
--                 backend/app/infrastructure/db/dataset_instrument_mapping_repository.py (Mapping)
--
-- How the parts interact. Create uses Grid and Partitions and stores by Store. Execute moves an
-- optimization through Status by Store, runs each candidate by an interface of the services of
-- strategies and runs, and chooses by Selection. Run calls an engine by its port, which Engine
-- implements; Artifact reads the events that an engine returns.
--
-- How the code is modelled. A frozen dataclass is a record, and its `__post_init__` a function that
-- returns the first exception in the order of the source. An exception is a constructor of a
-- `Fault` of its module; its message is left out. Prices and money are whole multiples of one
-- smallest unit, quantities of shares are whole numbers, and a quotient of decimals is an exact
-- fraction, which the source rounds to 28 digits; the power in the annualized return stays
-- symbolic. The manifest's decimals are a whole number with a number of places, infinite, or not a
-- number. A date is its ordinal; a datetime is an instant and whether it has a zone. Python checks
-- no types when it makes the classes of a strategy or a manifest from a dictionary: the records
-- here have whole numbers and texts only, and where the source would store a value of another type
-- the model ends with the fault `untyped`, which is none of the source's; the theorems on reading
-- name the dictionaries for which that does not happen. The table of runs is a function of its
-- primary key; the tables of optimizations are one such function and one list of candidates. In Run
-- the engine and the writing of the artifact are parameters. In Engine, backtrader is one: what
-- `cerebro.run()` does is a list of callbacks, and its indicators give the sign of each line at
-- each bar; the decimal operations of the order's size, which round to 28 digits and may raise, are
-- one too, and so is whether the power in the annualized return raises. The other repositories, the
-- clock, the identifiers, the checksum, JSON and the texts of Python's decimals, dates and times
-- are parameters, and so are the decoding and the reading of delimited text in Ingestion.
--
-- Loops over lists are structural recursions, so no fuel is used. The loop over the open lots ends in
-- the round in which a lot is larger than what remains to be sold.
--
-- Not modelled: the service that stores an import of a dataset, the service that creates the
-- manifest of a run, instruments, their aliases and corporate actions, building and storing the
-- artifact bundle, the paged list of all optimizations, the HTTP routes, the database's connection
-- and migrations, and the provider of market data. Most of it is input and output, or glue of a
-- framework.
pub mod Common
pub mod Market
pub mod Execution
pub mod Manifest
pub mod Run
pub mod Artifact
pub mod Optimization
pub mod Strategy
pub mod Engine
pub mod Ingestion
pub mod Instrument
