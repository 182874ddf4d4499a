-- ===== src/Signal/Types.antt =====
-- src/coinpilot/hft_shadow_signal.py: the records of the diagnostic signal, its state and its results.
use ai_coin_trading.Prelude.{ℕ, String, Bool, Option, List}
use ai_coin_trading.Depth.{PublicOrderBook, OrderSide}

-- What `feed` raises: ShadowSignalError for a field of the record, and the errors of the book's reader.
pub data SignalError : Type 0 where
  wrong_schema wrong_ordinal blank_stream wrong_time no_event : SignalError
  blank_sequence wrong_trade unknown_event wrong_book : SignalError

-- The event of a record. `none` is a number that cannot be read, a side that is neither, or a book that
-- `PublicOrderBook.from_archive_envelope` refuses.
pub data SignalEvent (F : Type 0) : Type 0 where
  trade_event : String → Option F → Option F → Option OrderSide → SignalEvent F
  book_event : Option (PublicOrderBook F) → SignalEvent F
  other_event : SignalEvent F

-- A record of the archive; `none` is a field that is missing or not of its type.
pub record Envelope (F : Type 0) : Type 0 where
  pub schema_version : Option ℕ
  pub record_ordinal : Option ℕ
  pub record_capture : Option String
  pub record_connection : Option String
  pub record_gap : Bool
  pub record_regression : Bool
  pub record_received_ns : Option ℕ
  pub event : Option (SignalEvent F)

pub record SignedTrade (F : Type 0) : Type 0 where
  pub trade_time : ℕ
  pub trade_id : String
  pub signed_value : F

-- The fields that do not change; the weights are those that the constructor has normalised.
pub record SignalSettings (F : Type 0) : Type 0 where
  pub signal_warmup : ℕ
  pub window_ns : ℕ
  pub signal_model : String
  pub book_weight : F
  pub flow_weight : F

pub record SignalState (F : Type 0) : Type 0 where
  pub stream_connection : Option String
  pub stream_capture : Option String
  pub last_ordinal : Option ℕ
  pub books_seen : ℕ
  pub signed_trades : List (SignedTrade F)
  pub trade_ids : List String

pub record DiagnosticSnapshot (F : Type 0) : Type 0 where
  pub snapshot_book : PublicOrderBook F
  pub ready : Bool
  pub snapshot_books_seen : ℕ
  pub book_imbalance : F
  pub trade_flow : F
  pub snapshot_signal : F
  pub spread_bps : F
  pub model_version : String

-- What a call of `feed` gives, beside the state that it leaves in the object.
pub data SignalOutcome (F : Type 0) : Type 0 where
  no_snapshot : SignalOutcome F
  emitted : DiagnosticSnapshot F → SignalOutcome F
  signal_error : SignalError → SignalOutcome F
