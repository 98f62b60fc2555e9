-- ===== src/Portfolio.antt =====
-- The kill switch of the whole live book: server/src/services/portfolio_risk_service.py over the
-- strategies of server/src/services/strategy_service.py and the deployments of
-- server/src/services/local_deployment.py. Amounts are whole numbers of a unit, and the limit is a
-- fraction, so that no sum or quotient is rounded.
pub mod Latch
pub mod Paused
mod Tests
use mangrove_agent.Prelude.{
  ℕ, zero, suc, ◌+◌, ◌-◌, ◌*◌, Bool, true, false, not, ◌&&◌, ◌||◌, Option, none, some, List, [],
  ◌∷◌, ltb, leb, ◌==◌, if◌then◌else◌,
}
use mangrove_agent.Prelude.Int.{ℤ, pos, negsuc, ◌+ℤ◌, max}
use mangrove_agent.Prelude.Tables.{update_where, find_where, sum_by}
use mangrove_agent.Flow.{
  Result, ok, err, Action, pure, raise, atomic, invalid_status_transition, sdk_error,
}
use mangrove_agent.Strategy.{
  Status, inactive, live, paper, Allocation, Desk, World, StatusUpdate, status_eq, is_mode,
  exit_monitor_mode, apply_scheduler_effects, update_status,
}

-- What the book value reads of a row of `trades`.
pub record Realized : Type 0 where
  pub is_live : Bool
  pub is_confirmed : Bool
  pub p_and_l : Option ℤ

-- A strategy with what its collaborators answer. `is_adopted` says that it has a row of
-- `local_deployments`, `is_busy` that another thread holds its tick lock.
pub record Member : Type 0 where
  pub id : ℕ
  pub world : World
  pub is_adopted : Bool
  pub is_busy : Bool
  pub desk : Desk
  pub broker_capital : Option ℕ
  pub trades : List Realized

-- The row of `portfolio_risk`, and the strategies.
pub record Portfolio : Type 0 where
  pub high_water_mark : ℤ
  pub tripped : Bool
  pub members : List Member

-- `PORTFOLIO_MAX_DRAWDOWN_PCT`
pub record Limit : Type 0 where
  pub numerator : ℕ
  pub denominator : ℕ

-- `_limit`: the default of 30 percent stands in for a setting that is absent or 0.
unfoldable pub limit_of : Option Limit → Limit
limit_of none = record { numerator = 3; denominator = 10 }
limit_of (some l) = if l.numerator == 0 then record { numerator = 3; denominator = 10 } else l

-- `s.status = 'live' OR s.exit_only_mode = 'live'`
abbrev pub is_in_book : Member → Bool
is_in_book m = status_eq m.desk.status live || is_mode live m.desk.exit_only

abbrev active_amount : Allocation → ℕ
active_amount a = if a.active then a.amount else 0

abbrev route_capital : Option ℕ → ℕ
route_capital none = 0
route_capital (some c) = c

abbrev pub profit_of : Option ℤ → ℤ
profit_of none = pos 0
profit_of (some p) = p

unfoldable pub realized : List Realized → ℤ
realized [] = pos 0
realized (t ∷ ts) =
    (if t.is_live && t.is_confirmed then profit_of t.p_and_l else pos 0) +ℤ realized ts

abbrev pub member_value : Member → ℤ
member_value m =
    if is_in_book m
    then pos (sum_by active_amount m.desk.allocations + route_capital m.broker_capital)
      +ℤ realized m.trades
    else pos 0

-- `compute_book_value`
unfoldable pub compute_book_value : List Member → ℤ
unfolding realized sum_by
compute_book_value [] = pos 0
compute_book_value (m ∷ ms) = member_value m +ℤ compute_book_value ms

abbrev pub drop_below : ℕ → ℤ → ℕ
drop_below mark (pos book) = mark - book
drop_below mark (negsuc book) = mark + book + 1

-- `hwm > 0 and (hwm - book) / hwm >= limit`
abbrev pub reaches : Limit → ℤ → ℤ → Bool
reaches l (pos zero) book = false
reaches l (negsuc n) book = false
reaches l (pos (suc n)) book = leb (l.numerator * suc n) (drop_below (suc n) book * l.denominator)

-- `rebaseline`
unfoldable pub rebaseline : Portfolio → Portfolio
unfolding compute_book_value
rebaseline p = if p.tripped then p else record p { high_water_mark = compute_book_value p.members }

-- `_stop` of server/src/services/local_deployment.py, confirmed: what is left of the strategy, also
-- when the scheduler fails after the status is committed
unfoldable pub stop_deployment : World → Desk → Desk
unfolding exit_monitor_mode apply_scheduler_effects
stop_deployment w d =
    (apply_scheduler_effects w d.exit_only inactive d.status
      (record d { status = inactive; exit_only = exit_monitor_mode w d.exit_only d.status })).1

abbrev pub halt : StatusUpdate
halt = record { target = some inactive; confirm = true; allocation = none }

-- `pause_for_portfolio`, and what is left of the strategy if it raises
unfoldable pub pause_for_portfolio : Member → Member
unfolding stop_deployment update_status
pause_for_portfolio m =
    if m.is_busy
    then m
    else if m.is_adopted
    then record m { desk = stop_deployment m.world m.desk }
    else record m { desk = (update_status m.world halt m.desk).1 }

-- `_pause_all_live`
unfoldable pub pause_all_live : List Member → List Member
unfolding update_where pause_for_portfolio
pause_all_live members =
    update_where (λ m. status_eq m.desk.status live) pause_for_portfolio members

-- `check_before_live_execution`: whether new entries are allowed
unfoldable pub check_before_live_execution : Limit → Portfolio → Bool × Portfolio
unfolding compute_book_value pause_all_live
check_before_live_execution l p =
    let book = compute_book_value p.members in
    let mark = max p.high_water_mark book in
    if p.tripped
    then (false, record p { members = pause_all_live p.members })
    else if reaches l mark book
    then (
      false,
      record { high_water_mark = mark; tripped = true; members = pause_all_live p.members },
    )
    else (true, record p { high_water_mark = mark })

-- `reset`
unfoldable pub reset_portfolio : Portfolio → Portfolio
unfolding compute_book_value
reset_portfolio p = record p { high_water_mark = compute_book_value p.members; tripped = false }

-- `update_status` of server/src/services/strategy_service.py, with the new baseline where the
-- live book changes
abbrev pub touches_live : Option Status → Status → Bool
touches_live none current = false
touches_live (some target) current =
    not (status_eq target current) && (status_eq target live || status_eq current live)

abbrev pub has_returned : Result (Unit {0}) → Bool
has_returned (ok u) = true
has_returned (err e) = false

abbrev transitioned : StatusUpdate → Member → Member
transitioned u m = record m { desk = (update_status m.world u m.desk).1 }

abbrev pub transition_of : ℕ → StatusUpdate → Option Member → Portfolio → Portfolio
transition_of sid u none p = p
transition_of sid u (some m) p =
    let moved = record p { members = update_where (λ x. x.id == sid) (transitioned u) p.members } in
    if m.is_adopted || m.is_busy
    then p
    else if has_returned (update_status m.world u m.desk).0 && touches_live u.target m.desk.status
    then rebaseline moved
    else moved

unfoldable pub transition : ℕ → StatusUpdate → Portfolio → Portfolio
unfolding find_where update_where update_status rebaseline
transition sid u p = transition_of sid u (find_where (λ m. m.id == sid) p.members) p
