-- ===== src/Broker.antt =====
-- The broker's journal: the tables of server/src/shared/db/migrations/016_broker_execution.sql and
-- 021_confirmed_execution.sql, and the reads and simple writes of
-- server/src/services/broker_store.py. Identifiers are numbers that are only compared. Quantities,
-- prices and cash are whole numbers of units so fine that a quantity times a price is a whole
-- number of cash units; the REAL copies of the tables for display hold the same values.
pub mod Reserve
pub mod Snapshot
pub mod Steps
pub mod Accounts
pub mod Balanced
pub mod Calls
pub mod Repeated
pub mod Serial
mod Tests
use mangrove_agent.Prelude.{
  ℕ, ◌+◌, ◌≡◌, Bool, true, false, ◌&&◌, not, ◌||◌, any, Option, none, some, List, [], ◌∷◌, ◌==◌,
  if◌then◌else◌,
}
use mangrove_agent.Prelude.Int.{ℤ}
use mangrove_agent.Prelude.Text.{Text}
use mangrove_agent.Prelude.Tables.{find_where, update_where, sum_by}
use mangrove_agent.Flow.{ok, err, Action, integrity}
use mangrove_agent.Strategy.{Status}

pub data Side : Type 0 where
  buy sell : Side

pub data IntentAction : Type 0 where
  enter exit : IntentAction

abbrev pub is_buy : Side → Bool
is_buy buy = true
is_buy sell = false

-- `OrderIntent` of server/src/models/domain.py
pub record OrderIntent : Type 0 where
  pub action : IntentAction
  pub side : Side
  pub symbol : Text
  pub amount : ℕ
  pub engine_position_id : Option ℕ
  pub engine_order_id : Option ℕ

-- `opened` is the status "open".
pub data OrderStatus : Type 0 where
  submitting uncertain opened partial awaiting_approval cancel_pending : OrderStatus
  filled canceled rejected : OrderStatus

-- `PENDING`
abbrev pub is_outstanding : OrderStatus → Bool
is_outstanding filled = false
is_outstanding canceled = false
is_outstanding rejected = false
is_outstanding _ = true

abbrev pub rank : OrderStatus → ℕ
rank submitting = 0
rank uncertain = 1
rank opened = 2
rank partial = 3
rank awaiting_approval = 4
rank cancel_pending = 5
rank filled = 6
rank canceled = 7
rank rejected = 8

abbrev pub same_status : OrderStatus → OrderStatus → Bool
same_status s t = rank s == rank t

-- `intent_key`: an engine order, or an evaluation with a position and an action; a sale adds its
-- amount.
pub data KeyRoot : Type 0 where
  engine_order : ℕ → KeyRoot
  evaluated : ℕ → Option ℕ → IntentAction → KeyRoot

pub record IntentKey : Type 0 where
  pub root : KeyRoot
  pub sold : Option ℕ

-- A row of `broker_orders`; `requested` is the quantity of `request_json`.
pub record BrokerOrder : Type 0 where
  pub id : ℕ
  pub strategy_id : ℕ
  pub intent_key : IntentKey
  pub intent : OrderIntent
  pub requested : ℕ
  pub broker_order_id : Option ℕ
  pub approval_id : Option ℕ
  pub status : OrderStatus
  pub filled_quantity : ℕ
  pub filled_notional : ℕ
  pub fees : ℕ

-- A row of `trades` with its position; the order and the cumulative quantity are its identifier.
pub record Trade : Type 0 where
  pub order_id : ℕ
  pub filled_to : ℕ
  pub strategy_id : ℕ
  pub position_id : ℕ
  pub side : Side
  pub quantity : ℕ
  pub notional : ℕ
  pub fees : ℕ
  pub p_and_l : Option ℤ

pub record Position : Type 0 where
  pub id : ℕ
  pub strategy_id : ℕ
  pub entry_price : ℕ
  pub entry_amount : ℕ
  pub is_open : Bool
  pub exit_amount : Option ℕ

-- A row of `broker_holdings`
pub record Holding : Type 0 where
  pub position_id : ℕ
  pub strategy_id : ℕ
  pub quantity : ℕ
  pub unit_cost : ℕ

-- What the journal reads and writes of a row of `strategies`.
pub record StrategyRow : Type 0 where
  pub id : ℕ
  pub status : Status
  pub exit_only : Option Status
  pub execution_revision : ℕ
  pub book_revision : ℕ

pub record OrderEvent : Type 0 where
  pub order_id : ℕ
  pub status : OrderStatus
  pub filled_quantity : ℕ

-- The newest trades and events stand first.
pub record Book : Type 0 where
  pub strategies : List StrategyRow
  pub orders : List BrokerOrder
  pub trades : List Trade
  pub positions : List Position
  pub holdings : List Holding
  pub events : List OrderEvent

abbrev pub find_order : ℕ → List BrokerOrder → Option BrokerOrder
find_order oid orders = find_where (λ o. o.id == oid) orders

abbrev pub find_position : ℕ → List Position → Option Position
find_position pid positions = find_where (λ p. p.id == pid) positions

abbrev pub find_holding : ℕ → List Holding → Option Holding
find_holding pid holdings = find_where (λ h. h.position_id == pid) holdings

abbrev pub find_strategy : ℕ → List StrategyRow → Option StrategyRow
find_strategy sid strategies = find_where (λ s. s.id == sid) strategies

abbrev pub quantity_held : Option Holding → ℕ
quantity_held none = 0
quantity_held (some h) = h.quantity

abbrev pub or_else : Option ℕ → Option ℕ → Option ℕ
or_else none b = b
or_else (some a) b = some a

abbrev pub same_number : Option ℕ → Option ℕ → Bool
same_number none none = true
same_number (some a) (some b) = a == b
same_number none (some b) = false
same_number (some a) none = false

-- The primary key, and the indexes `broker_one_pending_per_position` and
-- `broker_one_pending_entry_per_strategy`, forbid two such rows. That a strategy has no two rows
-- with one intent key is checked where rows are inserted.
abbrev pub clashes : BrokerOrder → BrokerOrder → Bool
clashes o p =
    o.id == p.id
    || is_outstanding o.status
      && is_outstanding p.status
      && o.strategy_id == p.strategy_id
      && (same_number o.intent.engine_position_id p.intent.engine_position_id
          || is_buy o.intent.side && is_buy p.intent.side)

abbrev pub is_serial : List BrokerOrder → Bool
is_serial [] = true
is_serial (o ∷ orders) = not (any (clashes o) orders) && is_serial orders

abbrev pub set_status : OrderStatus → Option ℕ → Option ℕ → BrokerOrder → BrokerOrder
set_status status broker_id approval_id o = record o {
  status = status;
  broker_order_id = or_else broker_id o.broker_order_id;
  approval_id = or_else approval_id o.approval_id;
}

-- `mark`
unfoldable pub mark_order : ℕ → OrderStatus → Option ℕ → Option ℕ → Action Book (Unit {0})
unfolding update_where
mark_order oid status broker_id approval_id b =
    let marked =
      update_where (λ o. o.id == oid) (set_status status broker_id approval_id) b.orders in
    if is_serial marked then (ok tt, record b { orders = marked }) else (err integrity, b)
