-- ===== src/Broker/Balanced.antt =====
-- The calls of server/src/services/broker_store.py keep the journal balanced.
use mangrove_agent.Prelude.{
  ℕ, ◌≤◌, ◌≡◌, refl, sym, subst, false, not, Option, none, some, List, ◌∷◌, any, ◌==◌, ==_iff,
  arith,
}
use mangrove_agent.Prelude.Tables.{update_where, find_where-holds}
use mangrove_agent.Flow.{
  Result, ok, err, Action, modify, atomic, atomic_elim, raise_if_elim, bind_result, bind_elim, ◌>>◌,
  sdk_error, integrity,
}
use mangrove_agent.Broker.{
  Side, buy, sell, OrderStatus, BrokerOrder, Trade, Position, Holding, Book, find_order,
  find_holding,
}
use mangrove_agent.Broker.Snapshot.{
  Snapshot, Fill, AssetClass, delta_of, new_trade, cost_held, regresses, kept_status, oversells,
  is_fill, book_side, write_fill, next_revision, book_delta, finished, finish_order, apply_row,
  apply_found, apply_read, apply_snapshot, known_status, order_status, read_fill,
}
use mangrove_agent.Broker.Steps.{position, book_delta_elim, booked, Passes, apply_row_elim}
use mangrove_agent.Broker.Accounts.{
  AreBalanced, IsBalanced, Matches-trade, Matches-same, Fits-changed, Holds-trade, Moves,
  book_buy-Moves, book_sell-Moves, changed,
}

-- A call that returns leaves a balanced journal.
abbrev pub Balances : {A : Type 0} → Result A × Book → Type 0
Balances (ok a, t) = IsBalanced t
Balances (err e, t) = Unit {0}

module _ (quotient : ℕ → ℕ → ℕ) (row : BrokerOrder) (s : Snapshot) (state : OrderStatus)
    (f : Fill) where
  abbrev closing : BrokerOrder → BrokerOrder
  closing = finished quotient s state f

  -- A step of the transaction returns in a journal that is balanced once the order is written.
  abbrev WillBalance : List BrokerOrder → Result (Unit {0}) × Book → Type 0
  WillBalance orders (ok u, t) =
      (t.orders ≡ orders)
      × AreBalanced (update_where (λ o. o.id == row.id) closing orders) t.trades t.holdings
  WillBalance orders (err e, t) = Unit {0}

  module _ (orders : List BrokerOrder) (found : find_order row.id orders ≡ some row)
      (fits : f.quantity ≤ row.requested) (grows : regresses f row ≡ false) where
    trade-Balanced :
        (cost : ℕ) (trades : List Trade) (before after : List Holding)
        → AreBalanced orders trades before
        → ((pid : ℕ) → Moves pid before after (new_trade row f.quantity (delta_of f row) cost))
        → AreBalanced
            (changed row closing orders found (λ _. refl))
            (new_trade row f.quantity (delta_of f row) cost ∷ trades)
            after
    trade-Balanced cost trades before after a m = record {
      quantities =
          Matches-trade row closing orders found (λ _. refl) (λ o. o.filled_quantity)
            (λ t. t.quantity) _ trades refl (ground arith) a.quantities;
      notionals =
          Matches-trade row closing orders found (λ _. refl) (λ o. o.filled_notional)
            (λ t. t.notional) _ trades refl (ground arith) a.notionals;
      fees =
          Matches-trade row closing orders found (λ _. refl) (λ o. o.fees) (λ t. t.fees) _ trades
            refl (ground arith) a.fees;
      holds = Holds-trade before after _ trades m a.holds;
      fits = Fits-changed row closing orders found (λ _. refl) fits a.fits;
    }

    -- The writes of a fill, on either side.
    book_side-WillBalance :
        (side : Side) (position : Option Position) (cost : ℕ) (b : Book)
        → row.intent.side ≡ side
        → b.orders ≡ orders
        → AreBalanced orders b.trades b.holdings
        → oversells side
            (delta_of f row)
            position
            (find_holding (delta_of f row).position_id b.holdings)
          ≡ false
        → WillBalance orders (
            book_side quotient side row
              (delta_of f row)
              position
              (find_holding (delta_of f row).position_id b.holdings)
              (record b { trades = new_trade row f.quantity (delta_of f row) cost ∷ b.trades }))
    book_side-WillBalance buy position cost b e o a c =
        raise_if_elim (WillBalance orders) (elim position [ none ↦ false | some p ↦ not p.is_open ])
          sdk_error _
          (record b { trades = new_trade row f.quantity (delta_of f row) cost ∷ b.trades }) tt
          λ _. (
            o,
            trade-Balanced cost b.trades b.holdings _ a (λ pid.
                book_buy-Moves row f.quantity cost row.strategy_id _ (delta_of f row) b.holdings pid
                  e),
          )
    book_side-WillBalance sell position cost b e o a c = (
      o,
      trade-Balanced cost b.trades b.holdings _ a (λ pid.
          book_sell-Moves row f.quantity cost row.strategy_id _ (delta_of f row) b.holdings pid e
            (ground arith)),
    )

    write_fill-WillBalance :
        (position : Option Position) (b : Book)
        → b.orders ≡ orders
        → AreBalanced orders b.trades b.holdings
        → oversells row.intent.side
            (delta_of f row)
            position
            (find_holding (delta_of f row).position_id b.holdings)
          ≡ false
        → WillBalance orders (
            write_fill quotient row f.quantity
              (delta_of f row)
              position
              (find_holding (delta_of f row).position_id b.holdings)
              b)
    write_fill-WillBalance position b o a c =
        raise_if_elim (λ r. WillBalance orders (bind_result r next))
          (any (is_fill t.order_id t.filled_to) b.trades) integrity
          (modify (λ b. record b { trades = t ∷ b.trades })) b tt
          λ _.
            bind_elim (WillBalance orders) (WillBalance orders)
              (book_side quotient row.intent.side row (delta_of f row) position holding
                (record b { trades = t ∷ b.trades }))
              (λ _. next_revision row)
              (book_side-WillBalance row.intent.side position (cost_held holding) b refl o a c)
              (λ e t h. h) (λ u t h. h)
      where
        holding : Option Holding
        holding = find_holding (delta_of f row).position_id b.holdings

        t : Trade
        t = new_trade row f.quantity (delta_of f row) (cost_held holding)

        next : Unit {0} → Action Book (Unit {0})
        next u =
            book_side quotient row.intent.side row (delta_of f row) position holding
            >> next_revision row

    book_delta-WillBalance :
        (b : Book)
        → b.orders ≡ orders
        → AreBalanced orders b.trades b.holdings
        → WillBalance orders (book_delta quotient row f b)
    book_delta-WillBalance b o a =
        book_delta_elim quotient row f b (WillBalance orders) (λ _. tt)
          (λ k n. (
            o,
            record {
              quantities =
                  Matches-same row closing orders found (λ _. refl) (λ o. o.filled_quantity)
                    (λ t. t.quantity) b.trades (ground arith) a.quantities;
              notionals =
                  Matches-same row closing orders found (λ _. refl) (λ o. o.filled_notional)
                    (λ t. t.notional) b.trades (ground arith) a.notionals;
              fees =
                  Matches-same row closing orders found (λ _. refl) (λ o. o.fees) (λ t. t.fees)
                    b.trades (ground arith) a.fees;
              holds = a.holds;
              fits = Fits-changed row closing orders found (λ _. refl) fits a.fits;
            },
          ))
          (write_fill-WillBalance (position quotient row f b) b o a)

module _ (quotient : ℕ → ℕ → ℕ) (row : BrokerOrder) (s : Snapshot) (state : OrderStatus)
    (f : Fill) where
  booked-Balances :
      (b : Book)
      → find_order row.id b.orders ≡ some row
      → IsBalanced b
      → Passes quotient row f b s state
      → Balances (booked quotient row f b s state b)
  booked-Balances b found a p =
      bind_elim (WillBalance quotient row s closed f b.orders) Balances
        (book_delta quotient row f b) (λ _. modify (finish_order quotient row s closed f))
        (book_delta-WillBalance quotient row s closed f b.orders found (ground arith) p.grows b refl
          a)
        (λ e t h. tt) λ u t h. rw h.0 h.1
    where
      closed : OrderStatus
      closed = kept_status row.status state

  apply_row-Balances :
      (b : Book)
      → find_order row.id b.orders ≡ some row
      → IsBalanced b
      → Balances (apply_row quotient row s state f b)
  apply_row-Balances b found a =
      apply_row_elim quotient row f b s state Balances (λ _. tt) (booked-Balances b found a)

pub find_order-found :
    (oid : ℕ) (row : BrokerOrder) (orders : List BrokerOrder)
    → find_order oid orders ≡ some row
    → find_order row.id orders ≡ some row
find_order-found oid row orders e =
    subst (λ j. find_order j orders ≡ some row)
      (sym
        ((==_iff row.id oid).0 (find_where-holds (λ (o : BrokerOrder). o.id == oid) orders row e)))
      e

apply_found-Balances :
    (quotient : ℕ → ℕ → ℕ) (oid : ℕ) (o : Option BrokerOrder) (s : Snapshot) (state : OrderStatus)
    (f : Fill) (b : Book)
    → find_order oid b.orders ≡ o
    → IsBalanced b
    → Balances (apply_found quotient o s state f b)
apply_found-Balances quotient oid none s state f b e a = tt
apply_found-Balances quotient oid (some row) s state f b e a =
    apply_row-Balances quotient row s state f b (find_order-found oid row b.orders e) a

pub IsBalanced-atomic :
    {A : Type 0} (m : Action Book A) (b : Book)
    → IsBalanced b
    → Balances (m b)
    → IsBalanced (atomic m b).1
IsBalanced-atomic m b a h = atomic_elim IsBalanced m b a (λ u t e. subst Balances e h)

-- A snapshot that is refused leaves the journal, and one that is applied leaves it balanced.
pub apply_snapshot-IsBalanced :
    (quotient : ℕ → ℕ → ℕ) (oid : ℕ) (s : Snapshot) (asset : AssetClass) (b : Book)
    → IsBalanced b
    → IsBalanced (apply_snapshot quotient oid s asset b).1
unfolding apply_snapshot
apply_snapshot-IsBalanced quotient oid s asset b a =
    go (known_status (order_status s.state)) (read_fill asset s)
  where
    go :
        (st : Result OrderStatus) (f : Result Fill)
        → IsBalanced (apply_read quotient oid s st f b).1
    go (ok state) (ok f) =
        IsBalanced-atomic (λ b. apply_found quotient (find_order oid b.orders) s state f b) b a
          (apply_found-Balances quotient oid (find_order oid b.orders) s state f b refl a)
    go (ok state) (err e) = a
    go (err e) f = a
