-- ===== src/Broker/Snapshot.antt =====
-- `apply_snapshot` of server/src/services/broker_store.py: what the broker reports of an order
-- becomes fills, positions and holdings in one transaction. The quotient of two decimals, which is
-- rounded, is the argument `quotient`.
use mangrove_agent.Prelude.{
  ℕ, zero, suc, ◌+◌, ◌-◌, ◌*◌, Bool, true, false, not, ◌&&◌, ◌||◌, Option, none, some, List, [],
  ◌∷◌, ltb, ◌==◌, is_some, any, if◌then◌else◌,
}
use mangrove_agent.Prelude.Int.{ℤ, pos, negsuc, sub_ℕ}
use mangrove_agent.Prelude.Text.{Text, codes, text_eq}
use mangrove_agent.Prelude.Tables.{find_where, update_where, upsert}
use mangrove_agent.Flow.{
  Result, ok, err, Action, raise_if, modify, atomic, ◌>>◌, sdk_error, integrity,
}
use mangrove_agent.Broker.{
  Side, buy, sell, is_buy, OrderStatus, opened, partial, cancel_pending, filled, canceled, rejected,
  is_outstanding, same_status, BrokerOrder, Trade, Position, Holding, StrategyRow, Book, find_order,
  find_position, find_holding, quantity_held,
}

pub data AssetClass : Type 0 where
  equity crypto : AssetClass

-- The words of Robinhood for the state of an order; the two spellings of "cancelled" are one.
pub data VenueState : Type 0 where
  filled_state cancelled partially_filled_rest_cancelled rejected_state failed voided : VenueState
  pending_cancelled queued unconfirmed confirmed new partially_filled unknown : VenueState

-- `states`
abbrev pub order_status : VenueState → Option OrderStatus
order_status filled_state = some filled
order_status cancelled = some canceled
order_status partially_filled_rest_cancelled = some canceled
order_status rejected_state = some rejected
order_status failed = some rejected
order_status voided = some canceled
order_status pending_cancelled = some cancel_pending
order_status queued = some opened
order_status unconfirmed = some opened
order_status confirmed = some opened
order_status new = some opened
order_status partially_filled = some partial
order_status unknown = none

-- An amount that is `none` is missing or is no finite number; missing `fees` are 0.
pub record Snapshot : Type 0 where
  pub id : ℕ
  pub state : VenueState
  pub side : Option Side
  pub symbol : Option Text
  pub currency_code : Option Text
  pub ref_id : Option ℕ
  pub cumulative_quantity : Option ℤ
  pub average_price : Option ℤ
  pub rounded_executed_notional : Option ℤ
  pub net_rounded_executed_notional : Option ℤ
  pub fees : Option ℤ

-- What the snapshot says of the whole order.
pub record Fill : Type 0 where
  pub quantity : ℕ
  pub gross : ℕ
  pub fees : ℕ

abbrev pub natural : Option ℤ → Result ℕ
natural (some (pos n)) = ok n
natural (some (negsuc n)) = err sdk_error
natural none = err sdk_error

abbrev pub price_of : ℕ → Option ℤ → Result ℕ
price_of zero p = ok 0
price_of (suc n) (some (pos (suc p))) = ok (suc p)
price_of (suc n) (some (pos zero)) = err sdk_error
price_of (suc n) (some (negsuc p)) = err sdk_error
price_of (suc n) none = err sdk_error

-- A negative notional is refused here; the source refuses it as a regressing one.
abbrev pub gross_of : AssetClass → Option ℤ → ℕ → ℕ → Result ℕ
gross_of equity notional quantity price = ok (quantity * price)
gross_of crypto none quantity price = ok (quantity * price)
gross_of crypto (some n) zero price = ok 0
gross_of crypto (some n) (suc quantity) price = natural (some n)

-- `max(0, net - gross)` of a purchase, `max(0, gross - net)` of a sale
abbrev pub withheld : Option Side → ℕ → ℤ → ℕ
withheld (some buy) gross (pos net) = net - gross
withheld (some buy) gross (negsuc net) = 0
withheld (some sell) gross (pos net) = gross - net
withheld (some sell) gross (negsuc net) = gross + net + 1
withheld none gross (pos net) = gross - net
withheld none gross (negsuc net) = gross + net + 1

abbrev pub crypto_fees : Option Side → Option ℤ → ℕ → Result ℕ
crypto_fees side (some net) gross = ok (withheld side gross net)
crypto_fees side none gross = err sdk_error

abbrev pub fees_of : AssetClass → Snapshot → ℕ → ℕ → Result ℕ
fees_of equity s quantity gross = natural s.fees
fees_of crypto s zero gross = ok 0
fees_of crypto s (suc quantity) gross = crypto_fees s.side s.net_rounded_executed_notional gross

infixl 5 ◌then_read◌
abbrev pub ◌then_read◌ : {A B : Type 0} → Result A → (A → Result B) → Result B
ok a then_read f = f a
err e then_read f = err e

abbrev pub read_fill : AssetClass → Snapshot → Result Fill
read_fill asset s = natural s.cumulative_quantity then_read λ quantity.
    price_of quantity s.average_price then_read λ price.
    gross_of asset s.rounded_executed_notional quantity price then_read λ gross.
    fees_of asset s quantity gross then_read λ fees.
    ok (record { quantity = quantity; gross = gross; fees = fees })

abbrev pub known_status : Option OrderStatus → Result OrderStatus
known_status none = err sdk_error
known_status (some s) = ok s

-- `str.removesuffix`
abbrev pub removesuffix : Text → Text → Text
removesuffix suffix [] = []
removesuffix suffix (c ∷ s) = if text_eq (c ∷ s) suffix then [] else c ∷ removesuffix suffix s

abbrev pub traded_symbol : Option Text → Option Text → Text → Text
traded_symbol (some s) code own = s
traded_symbol none (some c) own = c
traded_symbol none none own = own

abbrev same_side : Option Side → Side → Bool
same_side (some buy) s = is_buy s
same_side (some sell) s = not (is_buy s)
same_side none s = false

abbrev is_ref : Option ℕ → ℕ → Option ℕ → Bool
is_ref none oid approval = true
is_ref (some r) oid none = r == oid
is_ref (some r) oid (some a) = r == oid || r == a

abbrev is_broker_order : Option ℕ → ℕ → Bool
is_broker_order none id = true
is_broker_order (some b) id = id == b

-- The snapshot is of this order.
abbrev pub identifies : Snapshot → BrokerOrder → Bool
identifies s row =
    same_side s.side row.intent.side
    && text_eq
        (removesuffix (codes "-USD") (traded_symbol s.symbol s.currency_code row.intent.symbol))
        row.intent.symbol
    && is_ref s.ref_id row.id row.approval_id
    && is_broker_order row.broker_order_id s.id

abbrev pub regresses : Fill → BrokerOrder → Bool
regresses f row =
    ltb f.quantity row.filled_quantity || ltb f.gross row.filled_notional || ltb f.fees row.fees

abbrev pub changes_terminal : OrderStatus → Fill → BrokerOrder → Bool
changes_terminal state f row =
    not (is_outstanding row.status)
    && (not (f.quantity == row.filled_quantity) || not (same_status state row.status))

abbrev pub kept_status : OrderStatus → OrderStatus → OrderStatus
kept_status current state =
    if same_status current cancel_pending && is_outstanding state then cancel_pending else state

abbrev pub position_of : Option ℕ → ℕ → ℕ
position_of none oid = oid
position_of (some pid) oid = pid

-- What a snapshot adds to an order.
pub record Delta : Type 0 where
  pub position_id : ℕ
  pub quantity : ℕ
  pub gross : ℕ
  pub fees : ℕ

abbrev pub delta_of : Fill → BrokerOrder → Delta
delta_of f row = record {
  position_id = position_of row.intent.engine_position_id row.id;
  quantity = f.quantity - row.filled_quantity;
  gross = f.gross - row.filled_notional;
  fees = f.fees - row.fees;
}

abbrev pub cost_held : Option Holding → ℕ
cost_held none = 0
cost_held (some h) = h.unit_cost

abbrev pub is_foreign : ℕ → Option Position → Bool
is_foreign sid none = false
is_foreign sid (some p) = not (p.strategy_id == sid)

abbrev pub is_open_position : Option Position → Bool
is_open_position none = false
is_open_position (some p) = p.is_open

abbrev is_closed_position : Option Position → Bool
is_closed_position none = false
is_closed_position (some p) = not p.is_open

abbrev pub is_fill : ℕ → ℕ → Trade → Bool
is_fill oid filled_to t = t.order_id == oid && t.filled_to == filled_to

abbrev profit : Side → Delta → ℕ → Option ℤ
profit buy x cost = none
profit sell x cost = some (sub_ℕ x.gross (x.quantity * cost + x.fees))

abbrev pub new_trade : BrokerOrder → ℕ → Delta → ℕ → Trade
new_trade row filled_to x cost = record {
  order_id = row.id;
  filled_to = filled_to;
  strategy_id = row.strategy_id;
  position_id = x.position_id;
  side = row.intent.side;
  quantity = x.quantity;
  notional = x.gross;
  fees = x.fees;
  p_and_l = profit row.intent.side x cost;
}

abbrev pub new_holding : ℕ → ℕ → ℕ → ℕ → Holding
new_holding pid sid quantity cost = record {
  position_id = pid;
  strategy_id = sid;
  quantity = quantity;
  unit_cost = cost;
}

abbrev pub set_holding : ℕ → ℕ → Holding → Holding
set_holding quantity cost h = record h { quantity = quantity; unit_cost = cost }

-- A row of `broker_holdings` for the position, written or overwritten.
abbrev pub put_holding : ℕ → ℕ → ℕ → ℕ → List Holding → List Holding
put_holding pid sid quantity cost holdings =
    upsert (λ h. h.position_id == pid) (set_holding quantity cost)
      (new_holding pid sid quantity cost) holdings

abbrev put_position : ℕ → ℕ → ℕ → ℕ → List Position → List Position
put_position pid sid price amount positions =
    upsert (λ p. p.id == pid) (λ p. record p { entry_price = price; entry_amount = amount })
      (record {
        id = pid;
        strategy_id = sid;
        entry_price = price;
        entry_amount = amount;
        is_open = true;
        exit_amount = none;
      })
      positions

abbrev reduce_position : ℕ → ℕ → ℕ → List Position → List Position
reduce_position pid remaining sold positions =
    update_where (λ p. p.id == pid)
      (λ p. record p {
        entry_amount = remaining;
        exit_amount = some sold;
        is_open = not (remaining == 0);
      })
      positions

abbrev pub insert_trade : Trade → Action Book (Unit {0})
insert_trade t b =
    (raise_if (any (is_fill t.order_id t.filled_to) b.trades) integrity
        >> modify (λ b. record b { trades = t ∷ b.trades }))
      b

abbrev next_book : StrategyRow → StrategyRow
next_book s = record s { book_revision = s.book_revision + 1 }

abbrev pub oversells : Side → Delta → Option Position → Option Holding → Bool
oversells buy x position holding = false
oversells sell x position holding =
    not (is_open_position position) || ltb (quantity_held holding) x.quantity

abbrev pub book_sell : BrokerOrder → Delta → Option Holding → Action Book (Unit {0})
book_sell row x holding =
    let remaining = quantity_held holding - x.quantity in
    modify (λ b. record b {
      positions = reduce_position x.position_id remaining x.quantity b.positions;
      holdings = put_holding x.position_id row.strategy_id remaining (cost_held holding) b.holdings;
    })

abbrev pub next_revision : BrokerOrder → Action Book (Unit {0})
next_revision row = modify (λ b. record b {
  strategies = update_where (λ s. s.id == row.strategy_id) next_book b.strategies;
})

module _ (quotient : ℕ → ℕ → ℕ) where
  abbrev pub book_buy :
      BrokerOrder → Delta → Option Position → Option Holding → Action Book (Unit {0})
  book_buy row x position holding =
      let held = quantity_held holding in
      let total = held + x.quantity in
      let average = quotient (held * cost_held holding + x.gross + x.fees) total in
      raise_if (is_closed_position position) sdk_error
      >> modify (λ b. record b {
        positions = put_position x.position_id row.strategy_id average total b.positions;
        holdings = put_holding x.position_id row.strategy_id total average b.holdings;
      })

  abbrev pub book_side :
      Side → BrokerOrder → Delta → Option Position → Option Holding → Action Book (Unit {0})
  book_side buy row x position holding = book_buy row x position holding
  book_side sell row x position holding = book_sell row x holding

  abbrev pub write_fill :
      BrokerOrder → ℕ → Delta → Option Position → Option Holding → Action Book (Unit {0})
  write_fill row filled_to x position holding =
      insert_trade (new_trade row filled_to x (cost_held holding))
      >> (book_side row.intent.side row x position holding >> next_revision row)

  -- What a new fill needs, and its writes.
  abbrev pub book_fill :
      BrokerOrder → ℕ → Delta → Option Position → Option Holding → Action Book (Unit {0})
  book_fill row filled_to x position holding =
      raise_if (is_foreign row.strategy_id position) sdk_error
      >> (raise_if (is_some position && not (is_some holding)) sdk_error
          >> (raise_if (oversells row.intent.side x position holding) sdk_error
              >> write_fill row filled_to x position holding))

  abbrev pub book_delta : BrokerOrder → Fill → Action Book (Unit {0})
  book_delta row f b =
      let x = delta_of f row in
      (if f.quantity == row.filled_quantity
          then raise_if (not (f.gross == row.filled_notional) || not (f.fees == row.fees)) sdk_error
          else raise_if (x.gross == 0) sdk_error
            >> book_fill row f.quantity x (find_position x.position_id b.positions)
                (find_holding x.position_id b.holdings))
        b

  abbrev pub finished : Snapshot → OrderStatus → Fill → BrokerOrder → BrokerOrder
  finished s state f o = record o {
    broker_order_id = some s.id;
    status = state;
    filled_quantity = f.quantity;
    filled_notional = f.gross;
    fees = f.fees;
  }

  abbrev pub finish_order : BrokerOrder → Snapshot → OrderStatus → Fill → Book → Book
  finish_order row s state f b = record b {
    orders = update_where (λ o. o.id == row.id) (finished s state f) b.orders;
    events = record { order_id = row.id; status = state; filled_quantity = f.quantity } ∷ b.events;
  }

  abbrev pub apply_row : BrokerOrder → Snapshot → OrderStatus → Fill → Action Book (Unit {0})
  apply_row row s state f = do
    raise_if (not (identifies s row)) sdk_error
    raise_if (ltb row.requested f.quantity) sdk_error
    raise_if (regresses f row) sdk_error
    raise_if (changes_terminal state f row) sdk_error
    raise_if (same_status state filled && f.quantity == 0) sdk_error
    book_delta row f
    modify (finish_order row s (kept_status row.status state) f)

  abbrev pub apply_found :
      Option BrokerOrder → Snapshot → OrderStatus → Fill → Action Book (Unit {0})
  apply_found none s state f b = (err sdk_error, b)
  apply_found (some row) s state f b = apply_row row s state f b

  abbrev pub apply_read : ℕ → Snapshot → Result OrderStatus → Result Fill → Action Book (Unit {0})
  apply_read oid s (ok state) (ok f) b =
      atomic (λ b. apply_found (find_order oid b.orders) s state f b) b
  apply_read oid s (ok state) (err e) b = (err e, b)
  apply_read oid s (err e) f b = (err e, b)

  -- `apply_snapshot`
  unfoldable pub apply_snapshot : ℕ → Snapshot → AssetClass → Action Book (Unit {0})
  unfolding find_where update_where upsert
  apply_snapshot oid s asset =
      apply_read oid s (known_status (order_status s.state)) (read_fill asset s)
