-- ===== src/Broker/Reserve.antt =====
-- `reserve` of server/src/services/broker_store.py: the row of an order is written before the order
-- is submitted.
pub mod Returns
use mangrove_agent.Prelude.{
  ℕ, Bool, true, false, not, ◌&&◌, ◌||◌, Option, none, some, List, [], ◌∷◌, ◌++◌, ltb, ◌==◌,
  is_some, any, if◌then◌else◌,
}
use mangrove_agent.Prelude.Tables.{find_where, select_where}
use mangrove_agent.Flow.{
  Result, ok, err, Action, pure, raise_if, gets, modify, atomic, ◌>>=◌, ◌>>◌, integrity,
}
use mangrove_agent.Strategy.{Status, live, status_eq, is_mode}
use mangrove_agent.Broker.{
  Side, buy, sell, is_buy, IntentAction, enter, exit, OrderIntent, submitting, is_outstanding,
  KeyRoot, engine_order, evaluated, IntentKey, same_number, is_serial, BrokerOrder, Position,
  Holding, StrategyRow, Book, find_position, find_holding, find_strategy,
}

-- The arguments of `reserve`; `is_evaluated` says that `evaluations` has the row of the evaluation,
-- to which the new row refers.
pub record Reservation : Type 0 where
  pub strategy_id : ℕ
  pub evaluation_id : ℕ
  pub is_evaluated : Bool
  pub intent : OrderIntent
  pub quantity : ℕ
  pub ref_id : ℕ
  pub expected_revision : Option (ℕ × ℕ)

abbrev key_root : Option ℕ → Reservation → KeyRoot
key_root (some oid) r = engine_order oid
key_root none r = evaluated r.evaluation_id r.intent.engine_position_id r.intent.action

abbrev pub intent_key : Reservation → IntentKey
intent_key r = record {
  root = key_root r.intent.engine_order_id r;
  sold = if is_buy r.intent.side then none else some r.intent.amount;
}

abbrev pub is_enter : IntentAction → Bool
is_enter enter = true
is_enter exit = false

abbrev same_action : IntentAction → IntentAction → Bool
same_action enter a = is_enter a
same_action exit a = not (is_enter a)

abbrev same_root : KeyRoot → KeyRoot → Bool
same_root (engine_order a) (engine_order b) = a == b
same_root (evaluated a p x) (evaluated b q y) = a == b && same_number p q && same_action x y
same_root (engine_order a) (evaluated b q y) = false
same_root (evaluated a p x) (engine_order b) = false

abbrev pub same_key : IntentKey → IntentKey → Bool
same_key k l = same_root k.root l.root && same_number k.sold l.sold

abbrev pub is_pending_of : ℕ → BrokerOrder → Bool
is_pending_of sid o = o.strategy_id == sid && is_outstanding o.status

abbrev pub has_revision : Option (ℕ × ℕ) → StrategyRow → Bool
has_revision none s = false
has_revision (some (e, b)) s = s.execution_revision == e && s.book_revision == b

abbrev belongs_open : ℕ → Option Position → Bool
belongs_open sid none = true
belongs_open sid (some p) = p.is_open && p.strategy_id == sid

-- The strategy may take the action now.
abbrev pub is_permitted : Reservation → IntentAction → ℕ → StrategyRow → Book → Bool
is_permitted r enter pid s b =
    belongs_open r.strategy_id (find_position pid b.positions)
    && status_eq s.status live
    && has_revision r.expected_revision s
is_permitted r exit pid s b = status_eq s.status live || is_mode live s.exit_only

-- A pending order that stands in the way.
abbrev pub conflicts : IntentAction → ℕ → BrokerOrder → Bool
conflicts action pid o =
    not (is_some o.intent.engine_position_id)
    || same_number o.intent.engine_position_id (some pid)
    || is_enter action

abbrev pub covers : ℕ → ℕ → Option Holding → Option Position → Bool
covers sid q (some h) (some p) = h.strategy_id == sid && p.is_open && not (ltb h.quantity q)
covers sid q (some h) none = false
covers sid q none p = false

abbrev pub is_covered : Reservation → IntentAction → ℕ → Book → Bool
is_covered r enter pid b = true
is_covered r exit pid b =
    covers r.strategy_id r.quantity (find_holding pid b.holdings) (find_position pid b.positions)

abbrev pub new_order : Reservation → BrokerOrder
new_order r = record {
  id = r.ref_id;
  strategy_id = r.strategy_id;
  intent_key = intent_key r;
  intent = r.intent;
  requested = r.quantity;
  broker_order_id = none;
  approval_id = none;
  status = submitting;
  filled_quantity = 0;
  filled_notional = 0;
  fees = 0;
}

-- `INSERT INTO broker_orders`: the foreign key to the evaluation, and the unique indexes.
abbrev pub insert_order : Reservation → Action Book Bool
insert_order r b =
    (raise_if (not r.is_evaluated) integrity
        >> (raise_if (not (is_serial (b.orders ++ new_order r ∷ []))) integrity
            >> (modify (λ b. record b { orders = b.orders ++ new_order r ∷ [] }) >> pure true)))
      b

abbrev pub may_insert : Reservation → ℕ → StrategyRow → Book → Bool
may_insert r pid s b =
    is_permitted r r.intent.action pid s b
    && not (any (λ o. is_pending_of r.strategy_id o && conflicts r.intent.action pid o) b.orders)
    && is_covered r r.intent.action pid b
    && not
        (any (λ o. o.strategy_id == r.strategy_id && same_key o.intent_key (intent_key r)) b.orders)

abbrev pub reserve_at : Reservation → Option ℕ → Option StrategyRow → Action Book Bool
reserve_at r (some pid) (some s) b =
    if may_insert r pid s b then insert_order r b else (ok false, b)
reserve_at r (some pid) none b = (ok false, b)
reserve_at r none s b = (ok false, b)

-- `reserve`
unfoldable pub reserve_order : Reservation → Action Book Bool
unfolding find_where
reserve_order r =
    atomic
      λ b. reserve_at r r.intent.engine_position_id (find_strategy r.strategy_id b.strategies) b
