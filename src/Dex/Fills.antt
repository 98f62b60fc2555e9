-- ===== src/Dex/Fills.antt =====
-- `reserve`, `apply_fill` and `_fee_only` of server/src/services/dex_confirmed.py: the orders, trades
-- and holdings of one database. The unit cost of a holding, and prices and profits, are not modelled.
pub mod Books
pub mod Journal
pub mod Again
mod Tests
use mangrove_agent.Prelude.{
  ℕ, ◌+◌, ◌-◌, Bool, true, false, not, ◌&&◌, ◌||◌, Option, none, some, List, [], ◌∷◌, ltb, ◌==◌,
  is_some, any, if◌then◌else◌,
}
use mangrove_agent.Prelude.Tables.{find_where, update_where}
use mangrove_agent.Flow.{Result, ok, err, Action, sdk_error, integrity, value_error, atomic}
use mangrove_agent.Strategy.{live, status_eq, is_mode}
use mangrove_agent.Broker.{
  IntentAction, enter, exit, OrderIntent, KeyRoot, engine_order, evaluated, IntentKey, same_number,
  StrategyRow, find_strategy,
}
use mangrove_agent.Broker.Reserve.{is_enter, same_key, has_revision}
use mangrove_agent.Dex.{
  DexStatus, submitting, pending, uncertain, confirmed, fee_only, failed, is_unresolved, Context,
  DexOrder, updated,
}

-- A row of `trades` that a fill writes.
pub record DexTrade : Type 0 where
  pub id : ℕ
  pub strategy_id : ℕ
  pub position_id : ℕ
  pub is_purchase : Bool
  pub quantity : ℕ
  pub cash : ℕ

-- A row of `dex_holdings`
pub record DexHolding : Type 0 where
  pub position_id : ℕ
  pub strategy_id : ℕ
  pub quantity : ℕ
  pub financial_complete : Bool

-- A row of `positions`
pub record DexPosition : Type 0 where
  pub id : ℕ
  pub strategy_id : ℕ
  pub entry_amount : ℕ
  pub exit_amount : ℕ
  pub is_open : Bool

-- `legacy_pending` has the strategies with a pending live trade that has no signed context.
pub record DexBook : Type 0 where
  pub strategies : List StrategyRow
  pub orders : List DexOrder
  pub trades : List DexTrade
  pub positions : List DexPosition
  pub holdings : List DexHolding
  pub legacy_pending : List ℕ

abbrev pub find_dex_order : ℕ → List DexOrder → Option DexOrder
find_dex_order oid orders = find_where (λ o. o.id == oid) orders

abbrev pub find_dex_holding : ℕ → List DexHolding → Option DexHolding
find_dex_holding pid holdings = find_where (λ h. h.position_id == pid) holdings

abbrev pub held_by : ℕ → Option DexHolding → Option DexHolding
held_by sid none = none
held_by sid (some h) = if h.strategy_id == sid then some h else none

abbrev pub dex_quantity : Option DexHolding → ℕ
dex_quantity none = 0
dex_quantity (some h) = h.quantity

abbrev is_complete : Option DexHolding → Bool
is_complete none = false
is_complete (some h) = h.financial_complete

-- What a receipt has proved of an order: the amounts, and whether every native fee is known to be
-- zero.
pub record Proved : Type 0 where
  pub spent : ℕ
  pub received : ℕ
  pub has_no_fees : Bool

abbrev pub is_confirmed_status : DexStatus → Bool
is_confirmed_status confirmed = true
is_confirmed_status submitting = false
is_confirmed_status pending = false
is_confirmed_status uncertain = false
is_confirmed_status fee_only = false
is_confirmed_status failed = false

abbrev pub fill_quantity : IntentAction → Proved → ℕ
fill_quantity enter v = v.received
fill_quantity exit v = v.spent

abbrev pub fill_cash : IntentAction → Proved → ℕ
fill_cash enter v = v.spent
fill_cash exit v = v.received

abbrev pub violates : IntentAction → ℕ → Option DexHolding → Bool
violates enter q held = is_some held
violates exit q none = true
violates exit q (some h) = ltb h.quantity q

abbrev pub fill_trade : DexOrder → ℕ → Proved → DexTrade
fill_trade o pid v = record {
  id = o.id;
  strategy_id = o.strategy_id;
  position_id = pid;
  is_purchase = is_enter o.intent.action;
  quantity = fill_quantity o.intent.action v;
  cash = fill_cash o.intent.action v;
}

-- A row with the same identifier stands in the way of the insertion.
abbrev pub collides : IntentAction → ℕ → ℕ → DexBook → Bool
collides exit oid pid b = any (λ t. t.id == oid) b.trades
collides enter oid pid b =
    any (λ t. t.id == oid) b.trades
    || any (λ p. p.id == pid) b.positions
    || is_some (find_dex_holding pid b.holdings)

abbrev sell_position : ℕ → ℕ → DexPosition → DexPosition
sell_position remaining q p = record p {
  entry_amount = remaining;
  exit_amount = p.exit_amount + q;
  is_open = not (remaining == 0);
}

abbrev pub fill_positions : DexOrder → ℕ → ℕ → ℕ → List DexPosition → List DexPosition
fill_positions o pid q remaining positions =
    if is_enter o.intent.action
    then record {
      id = pid;
      strategy_id = o.strategy_id;
      entry_amount = q;
      exit_amount = 0;
      is_open = true;
    }
      ∷ positions
    else update_where (λ p. p.id == pid) (sell_position remaining q) positions

abbrev pub fill_holdings : IntentAction → ℕ → ℕ → ℕ → ℕ → Bool → List DexHolding → List DexHolding
fill_holdings enter sid pid q remaining complete holdings =
    record { position_id = pid; strategy_id = sid; quantity = q; financial_complete = complete }
    ∷ holdings
fill_holdings exit sid pid q remaining complete holdings =
    update_where (λ h. h.position_id == pid)
      (λ h. record h { quantity = remaining; financial_complete = complete }) holdings

-- The context is the one that was read before the transaction.
abbrev pub confirm_order : Context → Bool → DexOrder → DexOrder
confirm_order context complete o = record o {
  status = confirmed;
  context = record context { financial_complete = complete };
}

abbrev pub count_book : StrategyRow → StrategyRow
count_book s = record s { book_revision = s.book_revision + 1 }

abbrev pub book_dex : DexOrder → ℕ → Proved → Option DexHolding → DexBook → DexBook
book_dex o pid v held b =
    let q = fill_quantity o.intent.action v in
    let remaining = dex_quantity held - q in
    let complete =
      o.context.has_no_native_value
      && v.has_no_fees
      && (is_enter o.intent.action || is_complete held) in
    record b {
      trades = fill_trade o pid v ∷ b.trades;
      positions = fill_positions o pid q remaining b.positions;
      holdings = fill_holdings o.intent.action o.strategy_id pid q remaining complete b.holdings;
      orders = update_where (λ x. x.id == o.id) (confirm_order o.context complete) b.orders;
      strategies = update_where (λ s. s.id == o.strategy_id) count_book b.strategies;
    }

abbrev pub fill_held : DexOrder → ℕ → Proved → Option DexHolding → Action DexBook (Unit {0})
fill_held o pid v held b =
    if violates o.intent.action (fill_quantity o.intent.action v) held
    then (err sdk_error, b)
    else if collides o.intent.action o.id pid b
    then (err integrity, b)
    else (ok tt, book_dex o pid v held b)

-- `reserve` writes no order without a position.
abbrev pub fill_at : DexOrder → Option ℕ → Proved → Action DexBook (Unit {0})
fill_at o none v b = (err integrity, b)
fill_at o (some pid) v b =
    fill_held o pid v (held_by o.strategy_id (find_dex_holding pid b.holdings)) b

-- The row of the order as it is now; rows are not deleted.
abbrev pub fill_current : DexOrder → Proved → Option DexOrder → Action DexBook (Unit {0})
fill_current o v none b = (err value_error, b)
fill_current o v (some current) b =
    if is_confirmed_status current.status
    then (ok tt, b)
    else fill_at o o.intent.engine_position_id v b

-- `apply_fill`, of the row `o` that was read before.
unfoldable pub apply_fill : DexOrder → Proved → Action DexBook (Unit {0})
unfolding find_where update_where
apply_fill o v = atomic (λ b. fill_current o v (find_dex_order o.id b.orders) b)

abbrev pub fee_order : Bool → DexOrder → DexOrder
fee_order complete o = record o {
  status = fee_only;
  context = record o.context { financial_complete = complete };
}

abbrev pub is_fee_only : DexStatus → Bool
is_fee_only fee_only = true
is_fee_only submitting = false
is_fee_only pending = false
is_fee_only uncertain = false
is_fee_only confirmed = false
is_fee_only failed = false

abbrev pub fee_current : ℕ → Bool → Option DexOrder → Action DexBook (Unit {0})
fee_current oid complete none b = (err value_error, b)
fee_current oid complete (some current) b = if is_fee_only current.status then (ok tt, b) else (
  ok tt,
  record b {
    orders = update_where (λ x. x.id == oid) (fee_order complete) b.orders;
    strategies = update_where (λ s. s.id == current.strategy_id) count_book b.strategies;
  },
)

-- `_fee_only`
unfoldable pub settle_fees : ℕ → Bool → Action DexBook (Unit {0})
unfolding find_where update_where
settle_fees oid complete = atomic (λ b. fee_current oid complete (find_dex_order oid b.orders) b)

-- The arguments of `reserve`; `is_evaluated` says that `evaluations` has the row of the evaluation.
pub record DexReservation : Type 0 where
  pub strategy_id : ℕ
  pub evaluation_id : ℕ
  pub is_evaluated : Bool
  pub intent : OrderIntent
  pub revision : Option (ℕ × ℕ)
  -- `uuid4()`
  pub fresh_id : ℕ

abbrev dex_root : Option ℕ → DexReservation → KeyRoot
dex_root (some oid) r = engine_order oid
dex_root none r = evaluated r.evaluation_id r.intent.engine_position_id r.intent.action

abbrev dex_key : DexReservation → IntentKey
dex_key r = record {
  root = dex_root r.intent.engine_order_id r;
  sold = if is_enter r.intent.action then none else some r.intent.amount;
}

abbrev pub dex_order : DexReservation → DexOrder
dex_order r = record {
  id = r.fresh_id;
  strategy_id = r.strategy_id;
  intent_key = dex_key r;
  intent = r.intent;
  context = record {
    expected_revision = r.revision;
    approval_required = false;
    approval_tx_hash = none;
    has_no_native_value = false;
    no_broadcast_confirmed = false;
    financial_complete = false;
  };
  status = submitting;
  tx_hash = none;
}

-- Whether the strategy may take the action now; an entry into a position that is there raises.
abbrev pub may_act : DexReservation → IntentAction → StrategyRow → Bool
may_act r enter s = status_eq s.status live && has_revision r.revision s
may_act r exit s = status_eq s.status live || is_mode live s.exit_only

abbrev pub is_recorded_entry : IntentAction → ℕ → DexBook → Bool
is_recorded_entry enter pid b = any (λ p. p.id == pid) b.positions
is_recorded_entry exit pid b = false

-- An unresolved order of the strategy that stands in the way.
abbrev pub is_in_way : DexReservation → ℕ → DexOrder → Bool
is_in_way r pid o =
    o.strategy_id == r.strategy_id
    && is_unresolved o.status
    && (not (is_some o.intent.engine_position_id)
        || same_number o.intent.engine_position_id (some pid)
        || is_enter r.intent.action)

abbrev exceeds_held : ℕ → Option DexHolding → Bool
exceeds_held amount none = true
exceeds_held amount (some h) = ltb h.quantity amount

abbrev pub exceeds_holding : DexReservation → IntentAction → ℕ → DexBook → Bool
exceeds_holding r enter pid b = false
exceeds_holding r exit pid b =
    exceeds_held r.intent.amount (held_by r.strategy_id (find_dex_holding pid b.holdings))

abbrev pub has_key : DexReservation → DexOrder → Bool
has_key r o = o.strategy_id == r.strategy_id && same_key o.intent_key (dex_key r)

-- What a reservation does once the strategy and the position are there: it raises, it returns `None`,
-- or it writes the order, which no unique index of the table then refuses, but the foreign key does
-- if the evaluation has no row.
abbrev pub reserve_dex_at : DexReservation → ℕ → StrategyRow → Action DexBook (Option ℕ)
reserve_dex_at r pid s b =
    if is_recorded_entry r.intent.action pid b
    then (err sdk_error, b)
    else if not (may_act r r.intent.action s)
    then (ok none, b)
    else if any (λ sid. sid == r.strategy_id) b.legacy_pending || any (is_in_way r pid) b.orders
    then (ok none, b)
    else if exceeds_holding r r.intent.action pid b
    then (err sdk_error, b)
    else if any (has_key r) b.orders
    then (ok none, b)
    else if not r.is_evaluated
    then (err integrity, b)
    else (ok (some r.fresh_id), record b { orders = dex_order r ∷ b.orders })

abbrev pub reserve_dex_for :
    DexReservation → Option ℕ → Option StrategyRow → Action DexBook (Option ℕ)
reserve_dex_for r (some pid) (some s) b = reserve_dex_at r pid s b
reserve_dex_for r (some pid) none b = (err sdk_error, b)
reserve_dex_for r none s b = (err sdk_error, b)

-- `reserve`
unfoldable pub reserve_dex : DexReservation → Action DexBook (Option ℕ)
unfolding find_where
reserve_dex r =
    atomic λ b.
      reserve_dex_for r r.intent.engine_position_id (find_strategy r.strategy_id b.strategies) b
