-- ===== src/Portfolio/Tests.antt =====
-- A live book of 100 with a loss of 40, under a limit of 30 percent.
use mangrove_agent.Prelude.{◌*◌, ◌<◌, ◌≡◌, refl, true, false, not, none, some, [], ◌∷◌, all, arith}
use mangrove_agent.Prelude.Int.{pos, negsuc, ◌≤ℤ◌}
use mangrove_agent.Prelude.Text.{codes}
use mangrove_agent.Flow.{ok}
use mangrove_agent.Strategy.{Desk, World, live}
use mangrove_agent.Portfolio.{
  Member, Portfolio, Limit, limit_of, drop_below, halt, compute_book_value, pause_for_portfolio,
  check_before_live_execution,
}
use mangrove_agent.Portfolio.Latch.{
  checks, rebaselines, transitions, books, run_checks, run_checks_tripped,
  check_before_live_execution_allowed,
}
use mangrove_agent.Portfolio.Paused.{
  is_excused, KeepsExits, check_before_live_execution-excused, pause_for_portfolio-KeepsExits,
}

abbrev exposed_world : World
exposed_world = record {
  is_broker_bound = false;
  preflight = ok tt;
  has_live_exposure = true;
  has_paper_exposure = false;
  is_stateless = true;
  backup_confirmed = ok tt;
  wallet_exists = true;
  has_history = true;
  upstream_fails = false;
  scheduler_fails = false;
  uuid = 7;
}

abbrev live_desk : Desk
live_desk = record {
  status = live;
  exit_only = none;
  allocations =
      record {
        id = 1;
        wallet_address = codes "0xab";
        token_address = codes "0xusdc";
        amount = 100;
        slippage = none;
        active = true;
      }
      ∷ [];
  capital = none;
  execution_state = none;
  execution_revision = 0;
  upstream = live;
  is_scheduled = true;
}

abbrev trader : Member
trader = record {
  id = 1;
  world = exposed_world;
  is_adopted = false;
  is_busy = false;
  desk = live_desk;
  broker_capital = none;
  trades = record { is_live = true; is_confirmed = true; p_and_l = some (negsuc 9) } ∷ [];
}

abbrev loser : Member
loser = record trader {
  trades =
      record { is_live = true; is_confirmed = true; p_and_l = some (negsuc 39) } ∷ trader.trades;
}

abbrev limit : Limit
limit = record { numerator = 3; denominator = 10 }

default_limit : limit_of none ≡ limit
unfolding limit_of
default_limit = refl

zero_limit : limit_of (some (record { numerator = 0; denominator = 10 })) ≡ limit
unfolding limit_of
zero_limit = refl

abbrev sound : Portfolio
sound = record { high_water_mark = pos 100; tripped = false; members = trader ∷ [] }

abbrev fallen : Portfolio
fallen = record sound { members = loser ∷ [] }

abbrev tripped : Portfolio
tripped = (check_before_live_execution limit fallen).1

sound_value : compute_book_value (trader ∷ []) ≡ pos 90
unfolding compute_book_value
sound_value = refl

fallen_refused : (check_before_live_execution limit fallen).0 ≡ false
unfolding check_before_live_execution
fallen_refused = refl

check_before_live_execution-excused_example : all is_excused tripped.members ≡ true
check_before_live_execution-excused_example =
    check_before_live_execution-excused limit fallen fallen_refused

check_before_live_execution_allowed_example :
    (pos 100 ≤ℤ pos 100)
    × (compute_book_value (trader ∷ []) ≤ℤ pos 100)
    × (drop_below 100 (compute_book_value (trader ∷ [])) * 10 < 3 * 100)
unfolding check_before_live_execution
check_before_live_execution_allowed_example =
    check_before_live_execution_allowed limit sound 100 refl refl (omega arith)

pause_for_portfolio-KeepsExits_example :
    KeepsExits exposed_world live_desk (pause_for_portfolio trader).desk
pause_for_portfolio-KeepsExits_example = pause_for_portfolio-KeepsExits trader refl refl refl

run_checks_tripped_example :
    (all not
        (run_checks limit
          (checks ∷ rebaselines ∷ transitions 1 halt ∷ books (trader ∷ []) ∷ checks ∷ [])
          tripped).0
      ≡ true)
    × ((run_checks limit
          (checks ∷ rebaselines ∷ transitions 1 halt ∷ books (trader ∷ []) ∷ checks ∷ [])
          tripped).1.tripped
        ≡ true)
    × ((run_checks limit
          (checks ∷ rebaselines ∷ transitions 1 halt ∷ books (trader ∷ []) ∷ checks ∷ [])
          tripped).1.high_water_mark
        ≡ tripped.high_water_mark)
unfolding check_before_live_execution
run_checks_tripped_example =
    run_checks_tripped limit
      (checks ∷ rebaselines ∷ transitions 1 halt ∷ books (trader ∷ []) ∷ checks ∷ []) tripped refl
