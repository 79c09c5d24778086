-- ===== src/Execution.antt =====
-- backend/app/domain/execution_result.py: what a run of the engine reports. Money and prices are
-- whole multiples of one smallest unit; quantities are whole numbers of shares.
use idx_backtest_lab.Common.{ℕ, Option, String, List}
use idx_backtest_lab.Common.Int.{ℤ}
use idx_backtest_lab.Common.Time.{Datetime}

pub data OrderSide : Type 0 where
  buy sell : OrderSide

pub data OrderStatus : Type 0 where
  filled rejected : OrderStatus

pub data TerminalStatus : Type 0 where
  completed failed : TerminalStatus

pub record OrderEvent : Type 0 where
  pub order_id : String
  pub instrument_id : String
  pub side : OrderSide
  pub created_at_utc : Datetime
  pub intended_quantity : ℕ
  pub status : OrderStatus
  pub rejection_reason : Option String

pub record FillEvent : Type 0 where
  pub order_id : String
  pub instrument_id : String
  pub side : OrderSide
  pub filled_at_utc : Datetime
  pub quantity : ℕ
  pub price : ℤ
  pub currency : String
  pub commission : ℤ
  pub tax : ℤ
  pub slippage : ℤ

pub record PositionEvent : Type 0 where
  pub timestamp_utc : Datetime
  pub instrument_id : String
  pub quantity : ℕ
  pub average_cost : ℤ
  pub reason : String

pub record CashEvent : Type 0 where
  pub timestamp_utc : Datetime
  pub currency : String
  pub cash_before : ℤ
  pub cash_after : ℤ
  pub reason : String

pub record ExecutionWarning : Type 0 where
  pub code : String
  pub message : String
  pub instrument_id : Option String
  pub timestamp_utc : Option Datetime

pub record ExecutionMetadata : Type 0 where
  pub adapter_name : String
  pub adapter_version : String
  pub manifest_checksum : String
  pub dataset_checksum : String
  pub ordering_policy : String
  pub started_at_utc : Datetime
  pub finished_at_utc : Datetime
  pub event_count : ℕ

pub record ExecutionResult : Type 0 where
  pub metadata : ExecutionMetadata
  pub order_events : List OrderEvent
  pub fill_events : List FillEvent
  pub position_events : List PositionEvent
  pub cash_events : List CashEvent
  pub warnings : List ExecutionWarning
  pub terminal_status : TerminalStatus
  pub failure_code : Option String
