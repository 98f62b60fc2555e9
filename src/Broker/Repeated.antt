-- ===== src/Broker/Repeated.antt =====
-- A snapshot of server/src/services/broker_store.py that is reported twice.
use mangrove_agent.Prelude.{
  ℕ, ◌≡◌, refl, sym, ap, subst, ◌∙◌, false, not, Option, none, some, List, [], ◌∷◌, any, ◌==◌,
  ==_refl, ==_iff, arith,
}
use mangrove_agent.Prelude.Tables.{update_where, find_where-holds, find_where-set_same}
use mangrove_agent.Flow.{
  Result, ok, err, modify, raise_if_elim, bind_result, bind_elim, commit, ◌>>◌, sdk_error,
  integrity,
}
use mangrove_agent.Broker.{
  Side, buy, sell, OrderStatus, BrokerOrder, Trade, Position, Holding, Book, find_order,
}
use mangrove_agent.Broker.Steps.{position, holding, book_delta_elim, booked, Passes, apply_row_elim}
use mangrove_agent.Broker.Balanced.{find_order-found}
use mangrove_agent.Broker.Snapshot.{
  Snapshot, Fill, Delta, AssetClass, delta_of, new_trade, cost_held, kept_status, insert_trade,
  is_fill, book_side, write_fill, next_revision, book_delta, finished, finish_order, apply_row,
  apply_found, apply_read, apply_snapshot, known_status, order_status, read_fill,
}

-- A step that writes no order.
abbrev pub KeepsOrders : Book → Result (Unit {0}) × Book → Type 0
KeepsOrders b (ok u, t) = t.orders ≡ b.orders
KeepsOrders b (err e, t) = Unit {0}

module _ (quotient : ℕ → ℕ → ℕ) where
  book_side-KeepsOrders :
      (side : Side) (row : BrokerOrder) (x : Delta) (at : Option Position) (held : Option Holding)
      (b t : Book)
      → t.orders ≡ b.orders
      → KeepsOrders b (book_side quotient side row x at held t)
  book_side-KeepsOrders buy row x at held b t e =
      raise_if_elim (KeepsOrders b) (elim at [ none ↦ false | some p ↦ not p.is_open ]) sdk_error _
        t tt (λ _. e)
  book_side-KeepsOrders sell row x at held b t e = e

  write_fill-KeepsOrders :
      (row : BrokerOrder) (n : ℕ) (x : Delta) (at : Option Position) (held : Option Holding)
      (b : Book)
      → KeepsOrders b (write_fill quotient row n x at held b)
  write_fill-KeepsOrders row n x at held b =
      bind_elim (KeepsOrders b) (KeepsOrders b) (insert_trade t b)
        (λ _. book_side quotient row.intent.side row x at held >> next_revision row)
        (raise_if_elim (KeepsOrders b) (any (is_fill t.order_id t.filled_to) b.trades) integrity
          (modify (λ b. record b { trades = t ∷ b.trades })) b tt (λ _. refl))
        (λ e t h. h)
        λ u t h.
          bind_elim (KeepsOrders b) (KeepsOrders b)
            (book_side quotient row.intent.side row x at held t) (λ _. next_revision row)
            (book_side-KeepsOrders row.intent.side row x at held b t h) (λ e t h. h) (λ u t h. h)
    where
      t : Trade
      t = new_trade row n x (cost_held held)

  pub book_delta-KeepsOrders :
      (row : BrokerOrder) (f : Fill) (b : Book) → KeepsOrders b (book_delta quotient row f b)
  book_delta-KeepsOrders row f b =
      book_delta_elim quotient row f b (KeepsOrders b) (λ _. tt) (λ _ _. refl)
        (λ _.
          write_fill-KeepsOrders row f.quantity (delta_of f row) (position quotient row f b)
            (holding quotient row f b) b)

kept_again :
    (current state : OrderStatus)
    → kept_status (kept_status current state) state ≡ kept_status current state
kept_again current state = ground arith

-- Writing the same row twice is writing it once.
update_where-again :
    (k : ℕ) (g : BrokerOrder → BrokerOrder) (orders : List BrokerOrder)
    → ((o : BrokerOrder) → (g o).id ≡ o.id)
    → ((o : BrokerOrder) → g (g o) ≡ g o)
    → update_where (λ o. o.id == k) g (update_where (λ o. o.id == k) g orders)
      ≡ update_where (λ o. o.id == k) g orders
unfolding update_where
update_where-again k g [] h e = refl
update_where-again k g (o ∷ orders) h e =
    ground (arith, h o, e o, update_where-again k g orders h e)

module _ (quotient : ℕ → ℕ → ℕ) (row : BrokerOrder) (s : Snapshot) (state : OrderStatus)
    (f : Fill) where
  abbrev closed : OrderStatus
  closed = kept_status row.status state

  abbrev done : BrokerOrder
  done = finished quotient s closed f row

  abbrev first : Book → Book
  first b = finish_order quotient row s closed f b

  Passes-again : (b t : Book) → Passes quotient row f b s state → Passes quotient done f t s state
  Passes-again b t p = record {
    identified = ground (arith, p.identified, ==_refl s.id);
    fits = p.fits;
    grows = ground arith;
    stays = ground (arith, p.stays);
    fills = p.fills;
  }

  book_delta-again : (t : Book) → book_delta quotient done f t ≡ (ok tt, t)
  book_delta-again t = rw (==_refl f.quantity, ==_refl f.gross, ==_refl f.fees)

module _ (quotient : ℕ → ℕ → ℕ) (row : BrokerOrder) (f : Fill) (b : Book) (s : Snapshot)
    (state : OrderStatus) where
  apply_row-pass :
      Passes quotient row f b s state
      → apply_row quotient row s state f b ≡ booked quotient row f b s state b
  apply_row-pass p = rw (p.identified, p.fits, p.grows, p.stays, p.fills)

-- What a book shows beside its events.
pub record SameBook (b t : Book) : Type 0 where
  pub strategies : t.strategies ≡ b.strategies
  pub orders : t.orders ≡ b.orders
  pub trades : t.trades ≡ b.trades
  pub positions : t.positions ≡ b.positions
  pub holdings : t.holdings ≡ b.holdings

module _ (quotient : ℕ → ℕ → ℕ) (s : Snapshot) (state : OrderStatus) (f : Fill) where
  -- The same snapshot, applied to what the call has left, returns and leaves that.
  abbrev Repeats : ℕ → Result (Unit {0}) × Book → Type 0
  Repeats oid (ok u, t) =
      (v : Book) × (apply_found quotient (find_order oid t.orders) s state f t ≡ (ok tt, v))
      × SameBook t v
  Repeats oid (err e, t) = Unit {0}

  finish-Repeats :
      (row : BrokerOrder) (b t : Book)
      → Passes quotient row f b s state
      → find_order row.id t.orders ≡ some row
      → Repeats row.id (ok tt, first quotient row s state f t)
  finish-Repeats row b t p found = (
    again,
    ap (λ o. apply_found quotient o s state f t2)
          (find_where-set_same (λ (o : BrokerOrder). o.id) row.id
            (finished quotient s (closed quotient row s state f) f) row t.orders (λ _. refl) found)
        ∙ apply_row-pass quotient (done quotient row s state f) f t2 s state
            (Passes-again quotient row s state f b t2 p)
        ∙ ap
            (λ r. bind_result r (λ _. modify (
              finish_order quotient (done quotient row s state f) s
                (kept_status (closed quotient row s state f) state) f)))
            (book_delta-again quotient row s state f t2)
        ∙ ap (λ c. (ok tt, finish_order quotient (done quotient row s state f) s c f t2))
            (kept_again row.status state),
    record {
      strategies = refl;
      orders =
          update_where-again row.id (finished quotient s (closed quotient row s state f) f) t.orders
            (λ _. refl) (λ _. refl);
      trades = refl;
      positions = refl;
      holdings = refl;
    },
  )
    where
      t2 : Book
      t2 = first quotient row s state f t

      again : Book
      again =
          finish_order quotient (done quotient row s state f) s (closed quotient row s state f) f t2

  booked-Repeats :
      (row : BrokerOrder) (b : Book)
      → find_order row.id b.orders ≡ some row
      → Passes quotient row f b s state
      → Repeats row.id (booked quotient row f b s state b)
  booked-Repeats row b found p =
      bind_elim (KeepsOrders b) (Repeats row.id) (book_delta quotient row f b)
        (λ _. modify (first quotient row s state f)) (book_delta-KeepsOrders quotient row f b)
        (λ e t h. tt)
        λ u t h.
          finish-Repeats row b t p (subst (λ os. find_order row.id os ≡ some row) (sym h) found)

  apply_found-Repeats :
      (oid : ℕ) (o : Option BrokerOrder) (b : Book)
      → find_order oid b.orders ≡ o
      → Repeats oid (apply_found quotient o s state f b)
  apply_found-Repeats oid none b e = tt
  apply_found-Repeats oid (some row) b e =
      subst (λ j. Repeats j (apply_row quotient row s state f b))
        ((==_iff row.id oid).0 (find_where-holds (λ (o : BrokerOrder). o.id == oid) b.orders row e))
        (apply_row_elim quotient row f b s state (Repeats row.id) (λ _. tt)
          (booked-Repeats row b (find_order-found oid row b.orders e)))

commit-ok :
    {A : Type 0} (b : Book) (r : Result A × Book) (a : A) (t : Book)
    → commit b r ≡ (ok a, t)
    → r ≡ (ok a, t)
commit-ok b (ok c, u) a t h = h
commit-ok b (err e, u) a t h = cc

-- A snapshot that has been applied may be applied again: the second call returns, and changes no
-- order, trade, position, holding or strategy.
pub apply_snapshot_again :
    (quotient : ℕ → ℕ → ℕ) (oid : ℕ) (s : Snapshot) (asset : AssetClass) (b t : Book)
    → apply_snapshot quotient oid s asset b ≡ (ok tt, t)
    → (u : Book) × (apply_snapshot quotient oid s asset t ≡ (ok tt, u)) × SameBook t u
unfolding apply_snapshot
apply_snapshot_again quotient oid s asset b t h =
    go (known_status (order_status s.state)) (read_fill asset s) h
  where
    go :
        (st : Result OrderStatus) (f : Result Fill)
        → apply_read quotient oid s st f b ≡ (ok tt, t)
        → (u : Book) × (apply_read quotient oid s st f t ≡ (ok tt, u)) × SameBook t u
    go (ok state) (ok f) e =
        let r =
          subst (Repeats quotient s state f oid) (commit-ok b _ tt t e)
            (apply_found-Repeats quotient s state f oid (find_order oid b.orders) b refl) in
        (r.0, ap (commit t) r.1, r.2)
    go (ok state) (err x) e = cc
    go (err x) f e = cc
