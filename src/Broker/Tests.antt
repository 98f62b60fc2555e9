-- ===== src/Broker/Tests.antt =====
-- A strategy that buys through the broker in two fills and sells what it holds.
use mangrove_agent.Prelude.{◌/◌, ◌≡◌, refl, true, false, none, some, List, [], ◌∷◌}
use mangrove_agent.Prelude.Int.{pos}
use mangrove_agent.Prelude.Text.{codes}
use mangrove_agent.Prelude.Tables.{find_where}
use mangrove_agent.Flow.{ok, err, sdk_error}
use mangrove_agent.Strategy.{live}
use mangrove_agent.Broker.{
  buy, sell, enter, exit, OrderIntent, StrategyRow, Book, is_serial, find_holding, quantity_held,
}
use mangrove_agent.Broker.Reserve.{Reservation, reserve_order}
use mangrove_agent.Broker.Snapshot.{
  Snapshot, filled_state, partially_filled, partially_filled_rest_cancelled, equity, apply_snapshot,
}
use mangrove_agent.Broker.Accounts.{IsBalanced}
use mangrove_agent.Broker.Reserve.Returns.{Reserves, reserve_order-Reserves}
use mangrove_agent.Broker.Repeated.{SameBook, apply_snapshot_again}
use mangrove_agent.Broker.Serial.{run_calls_serial}
use mangrove_agent.Broker.Calls.{Call, reserves, reports, run_calls, opening, run_calls-IsBalanced}

abbrev strategy : StrategyRow
strategy = record {
  id = 1;
  status = live;
  exit_only = none;
  execution_revision = 3;
  book_revision = 0;
}

abbrev entry : OrderIntent
entry = record {
  action = enter;
  side = buy;
  symbol = codes "SPY";
  amount = 10;
  engine_position_id = some 5;
  engine_order_id = some 6;
}

abbrev entry_order : Reservation
entry_order = record {
  strategy_id = 1;
  evaluation_id = 2;
  is_evaluated = true;
  intent = entry;
  quantity = 10;
  ref_id = 100;
  expected_revision = some (3, 0);
}

abbrev exit_order : Reservation
exit_order = record {
  strategy_id = 1;
  evaluation_id = 3;
  is_evaluated = true;
  intent = record entry { action = exit; side = sell; engine_order_id = some 7 };
  quantity = 10;
  ref_id = 101;
  expected_revision = none;
}

abbrev first_fill : Snapshot
first_fill = record {
  id = 900;
  state = partially_filled;
  side = some buy;
  symbol = some (codes "SPY-USD");
  currency_code = none;
  ref_id = some 100;
  cumulative_quantity = some (pos 4);
  average_price = some (pos 50);
  rounded_executed_notional = none;
  net_rounded_executed_notional = none;
  fees = some (pos 1);
}

abbrev last_fill : Snapshot
last_fill = record first_fill {
  state = partially_filled_rest_cancelled;
  cumulative_quantity = some (pos 6);
  average_price = some (pos 52);
  fees = some (pos 2);
}

abbrev sale : Snapshot
sale = record first_fill {
  id = 901;
  state = filled_state;
  side = some sell;
  ref_id = some 101;
  cumulative_quantity = some (pos 6);
  average_price = some (pos 60);
}

abbrev bought : List Call
bought =
    reserves entry_order
    ∷ reports 100 first_fill equity
    ∷ reports 100 first_fill equity
    ∷ reports 100 last_fill equity
    ∷ []

abbrev after_purchase : Book
after_purchase = run_calls (λ a b. a / b) bought (opening (strategy ∷ []))

purchase_held : quantity_held (find_holding 5 after_purchase.holdings) ≡ 6
unfolding run_calls find_where
purchase_held = refl

abbrev after_sale : Book
after_sale =
    run_calls (λ a b. a / b)
      (reserves (record exit_order { quantity = 6 }) ∷ reports 101 sale equity ∷ []) after_purchase

sale_held : quantity_held (find_holding 5 after_sale.holdings) ≡ 0
unfolding run_calls find_where
sale_held = refl

-- An exit beyond the holding is not reserved.
too_large : (reserve_order exit_order after_purchase).0 ≡ ok false
unfolding run_calls reserve_order
too_large = refl

-- A fill beyond the request is refused.
overfilled :
    (apply_snapshot
      (λ a b. a / b)
      100
      (record last_fill { cumulative_quantity = some (pos 11) })
      equity
      after_purchase).0
    ≡ err sdk_error
unfolding run_calls apply_snapshot
overfilled = refl

run_calls-IsBalanced_example :
    IsBalanced (run_calls (λ a b. a / b) bought (opening (strategy ∷ [])))
run_calls-IsBalanced_example = run_calls-IsBalanced (λ a b. a / b) bought (strategy ∷ [])

run_calls_serial_example :
    is_serial (run_calls (λ a b. a / b) bought (opening (strategy ∷ []))).orders ≡ true
run_calls_serial_example = run_calls_serial (λ a b. a / b) bought (opening (strategy ∷ [])) refl

apply_snapshot_again_example :
    (u : Book) × (apply_snapshot (λ a b. a / b) 100 last_fill equity after_purchase ≡ (ok tt, u))
    × SameBook after_purchase u
unfolding run_calls
apply_snapshot_again_example =
    apply_snapshot_again (λ a b. a / b) 100 last_fill equity before after_purchase refl
  where
    before : Book
    before =
        run_calls (λ a b. a / b)
          (reserves entry_order
            ∷ reports 100 first_fill equity
            ∷ reports 100 first_fill equity
            ∷ [])
          (opening (strategy ∷ []))

reserve_order-Reserves_example :
    Reserves
      (record exit_order { quantity = 6 })
      after_purchase
      (reserve_order (record exit_order { quantity = 6 }) after_purchase)
unfolding run_calls
reserve_order-Reserves_example =
    reserve_order-Reserves (record exit_order { quantity = 6 }) after_purchase refl refl refl
