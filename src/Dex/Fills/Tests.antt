-- ===== src/Dex/Fills/Tests.antt =====
-- A purchase that is reserved, sent and filled, and a sale of a part of it.
use mangrove_agent.Prelude.{◌≡◌, refl, true, none, some, List, [], ◌∷◌, arith}
use mangrove_agent.Prelude.Text.{codes}
use mangrove_agent.Prelude.Tables.{find_where, update_where, sum_by}
use mangrove_agent.Flow.{ok, err, sdk_error}
use mangrove_agent.Strategy.{live}
use mangrove_agent.Broker.{buy, sell, enter, exit}
use mangrove_agent.Dex.Fills.{
  DexBook, DexReservation, Proved, dex_order, find_dex_holding, dex_quantity, apply_fill,
  reserve_dex,
}
use mangrove_agent.Dex.Fills.Again.{apply_fill_again}
use mangrove_agent.Dex.Fills.Journal.{run_dex-IsJournaled}
use mangrove_agent.Dex.Fills.Books.{
  DexCall, reserves, fills, updates, as_pending, run_dex, IsJournaled,
}

abbrev empty_book : DexBook
empty_book = record {
  strategies =
      record { id = 1; status = live; exit_only = none; execution_revision = 3; book_revision = 0 }
      ∷ [];
  orders = [];
  trades = [];
  positions = [];
  holdings = [];
  legacy_pending = [];
}

abbrev entry : DexReservation
entry = record {
  strategy_id = 1;
  evaluation_id = 2;
  is_evaluated = true;
  intent = record {
    action = enter;
    side = buy;
    symbol = codes "ETH";
    amount = 10;
    engine_position_id = some 5;
    engine_order_id = some 6;
  };
  revision = some (3, 0);
  fresh_id = 100;
}

abbrev leaving : DexReservation
leaving = record {
  strategy_id = 1;
  evaluation_id = 3;
  is_evaluated = true;
  intent = record {
    action = exit;
    side = sell;
    symbol = codes "ETH";
    amount = 4;
    engine_position_id = some 5;
    engine_order_id = some 7;
  };
  revision = none;
  fresh_id = 101;
}

abbrev bought : Proved
bought = record { spent = 20; received = 9; has_no_fees = true }

abbrev sold : Proved
sold = record { spent = 4; received = 10; has_no_fees = true }

-- The fill of the purchase is reported twice.
abbrev calls : List DexCall
calls =
    reserves entry
    ∷ updates 100 (λ c. c) (some as_pending) (some 70)
    ∷ fills (dex_order entry) bought
    ∷ fills (dex_order entry) bought
    ∷ reserves leaving
    ∷ fills (dex_order leaving) sold
    ∷ []

is_held : dex_quantity (find_dex_holding 5 (run_dex calls empty_book).holdings) ≡ 5
unfolding run_dex apply_fill reserve_dex find_where update_where
is_held = refl

-- More than is held cannot be sold.
is_refused :
    (reserve_dex
      (record leaving { intent = record leaving.intent { amount = 6 } })
      (run_dex calls empty_book)).0
    ≡ err sdk_error
unfolding run_dex apply_fill reserve_dex find_where update_where
is_refused = refl

empty_book-IsJournaled : IsJournaled empty_book
unfolding find_where sum_by
empty_book-IsJournaled = record { holds = λ pid. refl; once = λ oid. omega arith; booked = tt }

run_dex-IsJournaled_example : IsJournaled (run_dex calls empty_book)
run_dex-IsJournaled_example = run_dex-IsJournaled calls empty_book empty_book-IsJournaled

abbrev reserved_book : DexBook
reserved_book = run_dex (reserves entry ∷ []) empty_book

abbrev filled_book : DexBook
filled_book = run_dex (reserves entry ∷ fills (dex_order entry) bought ∷ []) empty_book

is_filled : apply_fill (dex_order entry) bought reserved_book ≡ (ok tt, filled_book)
unfolding run_dex apply_fill reserve_dex find_where update_where
is_filled = refl

apply_fill_again_example : apply_fill (dex_order entry) sold filled_book ≡ (ok tt, filled_book)
apply_fill_again_example =
    apply_fill_again (dex_order entry) bought sold reserved_book filled_book is_filled
