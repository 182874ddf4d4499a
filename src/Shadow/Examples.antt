-- ===== src/Shadow/Examples.antt =====
-- Runs of the shadow engine over the decimals, and the theorems about it at these runs.
use ai_coin_trading.Prelude.{
  ℕ, String, ◌≡◌, refl, ap, ◌⊎◌, inl, true, false, Option, none, some, arith,
}
use ai_coin_trading.Decimal.{ℤ, decimal, decimals}
use ai_coin_trading.Depth.{PublicOrderBook}
use ai_coin_trading.Outbox.{required_text}
use ai_coin_trading.Samples.{won}
use ai_coin_trading.Shadow.Book.{ShadowStepResult}
use ai_coin_trading.Shadow.Control.{is_latched, halt, stop_run}
use ai_coin_trading.Shadow.Diagram.{Follows, process_book-Moves, IsWarm, process_book-IsWarm}
use ai_coin_trading.Shadow.Ends.{IsEnded, halt_ends, stop_run_final}
use ai_coin_trading.Shadow.Engine.{process_book}
use ai_coin_trading.Shadow.Fixtures.{
  config, new_state, new_ledger, book_at, buys, outcome, shadow_runs,
}
use ai_coin_trading.Shadow.Ledger.{find_row, count_rows, is_state_of, is_pending_of}
use ai_coin_trading.Shadow.Predecessor.{StartRequest}
use ai_coin_trading.Shadow.Quiet.{process_book-HasSoundOrders}
use ai_coin_trading.Shadow.Repeat.{process_book_again}
use ai_coin_trading.Shadow.Restart.{start_run-Started}
use ai_coin_trading.Shadow.Rows.{ShadowState, Ledger}
use ai_coin_trading.Shadow.Settle.{ShadowConfig, ShadowIntent, key_of}
use ai_coin_trading.Shadow.Start.{ShadowRunStart, start_run}
use ai_coin_trading.Shadow.Takeover.{Started}
use ai_coin_trading.Shadow.Timely.{IsTimed, process_book-IsTimed}
use ai_coin_trading.Shadow.Trades.{IsFilled, process_book_fills}
use ai_coin_trading.Shadow.Types.{
  Step, refused, warmup, halted_recovery, interrupted, external_halt, FillKey, ShadowError, done,
}
use ai_coin_trading.Shadow.Waiting.{HasSoundOrders}

-- The first book ends the warm-up, and its intent becomes an order.
abbrev ordered : Ledger ℤ × ShadowStepResult ℤ
ordered = outcome (process_book config "r" (book_at "a" 1 100) (some buys) new_ledger)

abbrev bought : Ledger ℤ × ShadowStepResult ℤ
bought = outcome (process_book config "r" (book_at "a" 2 160) none ordered.0)

ordered_run : process_book config "r" (book_at "a" 1 100) (some buys) new_ledger ≡ done ordered
unfolding shadow_runs
ordered_run = refl

bought_run : process_book config "r" (book_at "a" 2 160) none ordered.0 ≡ done bought
unfolding shadow_runs
bought_run = refl

abbrev bought_key : FillKey
bought_key = record {
  fill_order = key_of "r" (book_at "a" 1 100);
  fill_book = key_of "r" (book_at "a" 2 160);
}

bought_fill : bought.1.fill_id ≡ some bought_key
unfolding shadow_runs
bought_fill = refl

bought_new : bought.1.duplicate_event ≡ false
unfolding shadow_runs
bought_new = refl

ordered_new : ordered.1.duplicate_event ≡ false
unfolding shadow_runs
ordered_new = refl

new_ledger-HasSoundOrders : HasSoundOrders "r" new_ledger
unfolding shadow_runs
new_ledger-HasSoundOrders = record { one = ground arith; quiet = λ s found idle. refl }

ordered-HasSoundOrders : HasSoundOrders "r" ordered.0
ordered-HasSoundOrders =
    process_book-HasSoundOrders config "r" (book_at "a" 1 100) (some buys) new_ledger ordered.0
      ordered.1 new_ledger-HasSoundOrders ordered_run

new_ledger-IsTimed : IsTimed config "r" new_ledger
new_ledger-IsTimed = record { timed = λ o within waits. absurd within }

ordered-IsTimed : IsTimed config "r" ordered.0
ordered-IsTimed =
    process_book-IsTimed config "r" (book_at "a" 1 100) (some buys) new_ledger ordered.0 ordered.1
      new_ledger-HasSoundOrders new_ledger-IsTimed ordered_run ordered_new

-- The order that waited is filled when its latency has passed.
process_book_fills_example :
    IsTimed config "r" bought.0
    × ((bought.1.fill_id ≡ none)
        ⊎ ((f : FillKey) × (bought.1.fill_id ≡ some f)
            × IsFilled config "r" (book_at "a" 2 160) ordered.0 f))
process_book_fills_example =
    process_book_fills config "r" (book_at "a" 2 160) none ordered.0 bought.0 bought.1
      ordered-HasSoundOrders ordered-IsTimed bought_run bought_new

-- The connection changes while the account holds a position.
abbrev broken : Ledger ℤ × ShadowStepResult ℤ
broken = outcome (process_book config "r" (book_at "b" 1 200) none bought.0)

broken_run : process_book config "r" (book_at "b" 1 200) none bought.0 ≡ done broken
unfolding shadow_runs
broken_run = refl

broken_new : broken.1.duplicate_event ≡ false
unfolding shadow_runs
broken_new = refl

abbrev the_state : Option (ShadowState ℤ) → ShadowState ℤ
the_state none = new_state
the_state (some s) = s

abbrev bought_state : ShadowState ℤ
bought_state = the_state (find_row (is_state_of "r") bought.0.states)

bought_found : find_row (is_state_of "r") bought.0.states ≡ some bought_state
unfolding shadow_runs
bought_found = refl

bought_free : is_latched bought_state.halt_reason ≡ false
unfolding shadow_runs
bought_free = refl

-- The account is halted at the break.
process_book-Moves_example : Follows config "r" (book_at "b" 1 200) bought_state broken.0 broken.1
process_book-Moves_example =
    process_book-Moves config "r" (book_at "b" 1 200) none bought.0 broken.0 bought_state broken.1
      bought_found (inl bought_free) broken_run broken_new

-- The next book sells the position, and a new warm-up begins.
abbrev sold : Ledger ℤ × ShadowStepResult ℤ
sold = outcome (process_book config "r" (book_at "b" 2 210) none broken.0)

sold_status : sold.1.result_lifecycle ≡ warmup
unfolding shadow_runs
sold_status = refl

-- The order of a trading account may wait.
process_book-HasSoundOrders_example : HasSoundOrders "r" ordered.0
process_book-HasSoundOrders_example =
    process_book-HasSoundOrders config "r" (book_at "a" 1 100) (some buys) new_ledger ordered.0
      ordered.1 new_ledger-HasSoundOrders ordered_run

new_ledger-IsWarm : IsWarm config "r" (book_at "a" 1 100) new_ledger
unfolding shadow_runs
new_ledger-IsWarm = record {
  warm = λ s found runs.
      let same : new_state ≡ s = ground (arith, found) in
      absurd (ground (arith, runs, ap (λ z. z.lifecycle_status) same));
}

-- The first book is all the warm-up that this configuration needs.
process_book-IsWarm_example : IsWarm config "r" (book_at "a" 1 100) ordered.0
process_book-IsWarm_example =
    process_book-IsWarm config "r" (book_at "a" 1 100) (some buys) new_ledger ordered.0 ordered.1
      new_ledger-IsWarm ordered_run

-- The first book comes again.
process_book_again_example :
    (again : ShadowStepResult ℤ) × (process_book config "r" (book_at "a" 1 100) none ordered.0
      ≡ done (ordered.0, again))
    × (again.duplicate_event ≡ true)
    × (again.result_lifecycle ≡ ordered.1.result_lifecycle)
    × (again.result_cash ≡ ordered.1.result_cash)
    × (again.result_base ≡ ordered.1.result_base)
    × (again.result_equity ≡ ordered.1.result_equity)
process_book_again_example =
    process_book_again config "r" (book_at "a" 1 100) (some buys) new_ledger ordered.0 ordered.1
      ordered_run ordered_new

abbrev nothing_done : Step (Ledger ℤ × ℕ) → Ledger ℤ × ℕ
nothing_done (done x) = x
nothing_done (refused e) = (new_ledger, 0)

abbrev halted : Ledger ℤ × ℕ
halted = nothing_done (halt "r" " manual " 300 ordered.0)

halted_run : halt "r" " manual " 300 ordered.0 ≡ done halted
unfolding shadow_runs
halted_run = refl

-- The order that waited is ended by the halt.
halt_ends_example :
    (text : String) × (required_text " manual " ≡ some text)
    × (halted.1 ≡ count_rows (is_pending_of "r") ordered.0.orders)
    × IsEnded "r" 300 ordered.0 halted.0 halted_recovery (external_halt text)
halt_ends_example = halt_ends "r" " manual " 300 ordered.0 halted.0 halted.1 halted_run

abbrev ended_run : Ledger ℤ × ℕ
ended_run = nothing_done (stop_run "r" "end" 300 ordered.0)

ended_run_done : stop_run "r" "end" 300 ordered.0 ≡ done ended_run
unfolding shadow_runs
ended_run_done = refl

-- After the stop the run takes no book.
stop_run_final_example :
    (count_rows (is_pending_of "r") ended_run.0.orders ≡ 0)
    × ((config : ShadowConfig ℤ) (book : PublicOrderBook ℤ) (intent : Option (ShadowIntent ℤ))
        → (e : ShadowError) × (process_book config "r" book intent ended_run.0 ≡ refused e))
stop_run_final_example =
    stop_run_final "r" "end" 300 ordered.0 ended_run.0 ended_run.1 ended_run_done

-- A new connection lifts an external halt of an account without a position.
abbrev reconnected : Ledger ℤ × ShadowStepResult ℤ
reconnected = outcome (process_book config "r" (book_at "b" 1 400) none halted.0)

reconnected_status : reconnected.1.result_lifecycle ≡ warmup
unfolding shadow_runs
reconnected_status = refl

-- A restart after the halt.
abbrev restart_request : StartRequest ℤ
restart_request = record {
  upper = λ t. t;
  new_run = "r2";
  new_market = " KRW-BTC";
  initial_cash = won 5_000_000;
  new_config_json = "{}";
  new_config_hash = "h";
  new_code_version = "v";
  started_at = 500;
  start_epsilon = decimal 1 1_000_000_000_000;
}

abbrev not_started : Step (Ledger ℤ × ShadowRunStart) → Ledger ℤ × ShadowRunStart
not_started (done x) = x
not_started (refused e) = (
  new_ledger,
  record {
    start_run_id = "";
    start_lifecycle = interrupted;
    restarted_from = none;
    expired_orders = 0;
    already_started = true;
  },
)

abbrev restarted : Ledger ℤ × ShadowRunStart
restarted = not_started (start_run restart_request halted.0)

restarted_run : start_run restart_request halted.0 ≡ done restarted
unfolding shadow_runs
restarted_run = refl

restarted_new : restarted.1.already_started ≡ false
unfolding shadow_runs
restarted_new = refl

restarted_halted : restarted.1.start_lifecycle ≡ halted_recovery
unfolding shadow_runs
restarted_halted = refl

-- The external halt is kept over the restart.
start_run-Started_example :
    (run : String) × (market : String) × (hash : String) × (code : String) × (required_text "r2"
      ≡ some run)
    × (required_text " KRW-BTC" ≡ some market)
    × (required_text "h" ≡ some hash)
    × (required_text "v" ≡ some code)
    × (s : ShadowState ℤ) × (find_row (is_state_of restarted.1.start_run_id) restarted.0.states
        ≡ some s)
    × Started restart_request run market hash code halted.0 restarted.0 s
start_run-Started_example =
    start_run-Started restart_request halted.0 restarted.0 restarted.1 restarted_run restarted_new
