-- ===== src/Broker/Accounts.antt =====
-- What the journal of server/src/services/broker_store.py adds up to.
use mangrove_agent.Prelude.{
  ℕ, ◌+◌, ◌-◌, ◌≤◌, ◌≡◌, refl, subst, inl, inr, not, ◌&&◌, Option, none, some, List, ◌∷◌, ◌==◌,
  ==_refl, ==_iff, if◌then◌else◌, Bool-cases, Option-cases, arith,
}
use mangrove_agent.Prelude.Tables.{
  update_where, sum_by, find_where-set_other, find_where-set_same, find_where-upsert_other,
  find_where-upsert_new, find_where-upsert_old,
}
use mangrove_agent.Broker.Snapshot.{Delta, new_trade, set_holding, new_holding, put_holding}
use mangrove_agent.Broker.{
  buy, sell, is_buy, BrokerOrder, Trade, Holding, Book, find_order, find_holding, quantity_held,
}

-- A number of an order, which is 0 for an order that is not there.
abbrev pub value : (BrokerOrder → ℕ) → Option BrokerOrder → ℕ
value f none = 0
value f (some o) = f o

-- What the trades of an order add up to.
abbrev pub of_order : ℕ → (Trade → ℕ) → Trade → ℕ
of_order oid f t = if t.order_id == oid then f t else 0

abbrev pub bought : ℕ → Trade → ℕ
bought pid t = if t.position_id == pid && is_buy t.side then t.quantity else 0

abbrev pub sold : ℕ → Trade → ℕ
sold pid t = if t.position_id == pid && not (is_buy t.side) then t.quantity else 0

abbrev pub Matches : (BrokerOrder → ℕ) → (Trade → ℕ) → List BrokerOrder → List Trade → Type 0
Matches f g orders trades =
    (oid : ℕ) → value f (find_order oid orders) ≡ sum_by (of_order oid g) trades

abbrev pub Holds : List Holding → List Trade → Type 0
Holds holdings trades =
    (pid : ℕ)
    → quantity_held (find_holding pid holdings) + sum_by (sold pid) trades
      ≡ sum_by (bought pid) trades

abbrev pub Fits : List BrokerOrder → Type 0
Fits orders =
    (oid : ℕ)
    → value (λ o. o.filled_quantity) (find_order oid orders)
      ≤ value (λ o. o.requested) (find_order oid orders)

-- Every order has the trades that its filled amounts say and no more than it asked for, and every
-- holding is what the trades of its position bought less what they sold.
pub record AreBalanced (orders : List BrokerOrder) (trades : List Trade) (holdings : List Holding)
    : Type 0 where
  pub quantities : Matches (λ o. o.filled_quantity) (λ t. t.quantity) orders trades
  pub notionals : Matches (λ o. o.filled_notional) (λ t. t.notional) orders trades
  pub fees : Matches (λ o. o.fees) (λ t. t.fees) orders trades
  pub holds : Holds holdings trades
  pub fits : Fits orders

abbrev pub IsBalanced : Book → Type 0
IsBalanced b = AreBalanced b.orders b.trades b.holdings

-- A number of an order after an update of one order.
pub value-set :
    (f : BrokerOrder → ℕ) (rid j : ℕ) (h : BrokerOrder → BrokerOrder) (row : BrokerOrder)
    (orders : List BrokerOrder)
    → find_order rid orders ≡ some row
    → ((o : BrokerOrder) → (h o).id ≡ o.id)
    → value f (find_order j (update_where (λ o. o.id == rid) h orders))
      ≡ (if rid == j then f (h row) else value f (find_order j orders))
value-set f rid j h row orders found keeps = elim (Bool-cases (rid == j)) [
  | inl k ↦
      subst
        (λ j.
          value f (find_order j (update_where (λ o. o.id == rid) h orders))
          ≡ (if rid == j then f (h row) else value f (find_order j orders)))
        ((==_iff rid j).0 k)
        (ground (
          arith,
          find_where-set_same (λ (o : BrokerOrder). o.id) rid h row orders keeps found,
          ==_refl rid,
        ))
  | inr k ↦ ground (arith, find_where-set_other (λ (o : BrokerOrder). o.id) rid j h orders keeps k)
]

module _ (row : BrokerOrder) (h : BrokerOrder → BrokerOrder) (orders : List BrokerOrder)
    (found : find_order row.id orders ≡ some row)
    (keeps : (o : BrokerOrder) → (h o).id ≡ o.id) where
  abbrev pub changed : List BrokerOrder
  changed = update_where (λ o. o.id == row.id) h orders

  -- An order moves to a larger value by one trade of the difference.
  pub Matches-trade :
      (f : BrokerOrder → ℕ) (g : Trade → ℕ) (t : Trade) (trades : List Trade)
      → t.order_id ≡ row.id
      → f row + g t ≡ f (h row)
      → Matches f g orders trades
      → Matches f g changed (t ∷ trades)
  unfolding sum_by
  Matches-trade f g t trades same adds all j = ground (
    arith,
    value-set f row.id j h row orders found keeps,
    all j,
    all row.id,
    found,
    ==_iff row.id j,
  )

  pub Matches-same :
      (f : BrokerOrder → ℕ) (g : Trade → ℕ) (trades : List Trade)
      → f (h row) ≡ f row
      → Matches f g orders trades
      → Matches f g changed trades
  Matches-same f g trades e all j = ground (
    arith,
    value-set f row.id j h row orders found keeps,
    all j,
    all row.id,
    found,
    ==_iff row.id j,
  )

  pub Fits-changed : (h row).filled_quantity ≤ (h row).requested → Fits orders → Fits changed
  Fits-changed e all j = ground (
    arith,
    value-set (λ o. o.filled_quantity) row.id j h row orders found keeps,
    value-set (λ o. o.requested) row.id j h row orders found keeps,
    all j,
  )

-- A holding moves by one trade.
abbrev pub Moves : ℕ → List Holding → List Holding → Trade → Type 0
Moves pid before after t =
    quantity_held (find_holding pid after) + sold pid t
    ≡ quantity_held (find_holding pid before) + bought pid t

pub Holds-trade :
    (before after : List Holding) (t : Trade) (trades : List Trade)
    → ((pid : ℕ) → Moves pid before after t)
    → Holds before trades
    → Holds after (t ∷ trades)
unfolding sum_by
Holds-trade before after t trades m all pid = omega (arith, m pid, all pid)

put_holding-held :
    (pid sid q cost j : ℕ) (holdings : List Holding)
    → quantity_held (find_holding j (put_holding pid sid q cost holdings))
      ≡ (if pid == j then q else quantity_held (find_holding j holdings))
put_holding-held pid sid q cost j holdings = elim (Bool-cases (pid == j)) [
  | inl k ↦
      subst
        (λ j.
          quantity_held (find_holding j (put_holding pid sid q cost holdings))
          ≡ (if pid == j then q else quantity_held (find_holding j holdings)))
        ((==_iff pid j).0 k)
        (elim (Option-cases (find_holding pid holdings)) [
          | inl e ↦ ground (
            arith,
            find_where-upsert_new (λ (h : Holding). h.position_id) pid (set_holding q cost)
                (new_holding pid sid q cost) holdings refl e,
            ==_refl pid,
          )
          | inr (h, e) ↦ ground (
            arith,
            find_where-upsert_old (λ (h : Holding). h.position_id) pid (set_holding q cost)
                (new_holding pid sid q cost) h holdings (λ _. refl) e,
            ==_refl pid,
          )
        ])
  | inr k ↦ ground (
    arith,
    find_where-upsert_other (λ (h : Holding). h.position_id) pid j (set_holding q cost)
        (new_holding pid sid q cost) holdings (λ _. refl) refl k,
  )
]

-- A purchase adds its quantity to the holding, and a sale that is covered takes it off.
pub book_buy-Moves :
    (row : BrokerOrder) (filled_to cost sid average : ℕ) (x : Delta) (holdings : List Holding)
    (pid : ℕ)
    → row.intent.side ≡ buy
    → Moves pid holdings
        (put_holding x.position_id sid
          (quantity_held (find_holding x.position_id holdings) + x.quantity)
          average
          holdings)
        (new_trade row filled_to x cost)
book_buy-Moves row filled_to cost sid average x holdings pid e = ground (
  arith,
  put_holding-held x.position_id sid
      (quantity_held (find_holding x.position_id holdings) + x.quantity) average pid holdings,
  ==_iff x.position_id pid,
)

pub book_sell-Moves :
    (row : BrokerOrder) (filled_to cost sid average : ℕ) (x : Delta) (holdings : List Holding)
    (pid : ℕ)
    → row.intent.side ≡ sell
    → x.quantity ≤ quantity_held (find_holding x.position_id holdings)
    → Moves pid holdings
        (put_holding x.position_id sid
          (quantity_held (find_holding x.position_id holdings) - x.quantity)
          average
          holdings)
        (new_trade row filled_to x cost)
book_sell-Moves row filled_to cost sid average x holdings pid e c = ground (
  arith,
  put_holding-held x.position_id sid
      (quantity_held (find_holding x.position_id holdings) - x.quantity) average pid holdings,
  ==_iff x.position_id pid,
)
