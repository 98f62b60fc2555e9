-- ===== src/Broker/Serial.antt =====
-- The calls of server/src/services/broker_store.py obey the primary key and the indexes of the
-- pending orders.
use mangrove_agent.Prelude.{
  ℕ, ◌≡◌, refl, sym, subst, inl, inr, true, false, not, Option, none, some, List, [], ◌∷◌, ◌++◌,
  any, any-false, ltb, ◌==◌, ==_iff, if◌then◌else◌, if_elim, if_cases, ||_false, false_||,
  Bool-cases, All, arith,
}
use mangrove_agent.Prelude.Tables.{find_where, update_where, All-mono}
use mangrove_agent.Flow.{
  Result, ok, err, Action, modify, atomic, atomic_elim, raise_if_elim, bind_elim, pure, ◌>>◌,
  integrity,
}
use mangrove_agent.Broker.{
  OrderStatus, submitting, uncertain, opened, partial, awaiting_approval, cancel_pending, filled,
  canceled, rejected, is_outstanding, rank, BrokerOrder, StrategyRow, Book, clashes, is_serial,
  find_order, find_strategy, set_status, mark_order,
}
use mangrove_agent.Broker.Reserve.{Reservation, may_insert, new_order, reserve_at, reserve_order}
use mangrove_agent.Broker.Snapshot.{
  Snapshot, Fill, AssetClass, kept_status, changes_terminal, finished, finish_order, book_delta,
  apply_found, apply_read, apply_snapshot, known_status, order_status, read_fill,
}
use mangrove_agent.Broker.Steps.{booked, Passes, apply_row_elim}
use mangrove_agent.Broker.Balanced.{find_order-found}
use mangrove_agent.Broker.Repeated.{KeepsOrders, book_delta-KeepsOrders}
use mangrove_agent.Broker.Calls.{Call, reserves, marks, reports, run_calls}

other_rows :
    (o row : BrokerOrder) (orders : List BrokerOrder)
    → any (clashes o) orders ≡ false
    → All (λ x. (x.id == o.id) ≡ true → x ≡ row) orders
other_rows o row [] h = tt
other_rows o row (x ∷ orders) h = (ground arith, other_rows o row orders (ground arith))

-- The row with a primary key is the only one.
only_row :
    (k : ℕ) (row : BrokerOrder) (orders : List BrokerOrder)
    → is_serial orders ≡ true
    → find_order k orders ≡ some row
    → All (λ x. (x.id == k) ≡ true → x ≡ row) orders
unfolding find_where
only_row k row [] s e = tt
only_row k row (o ∷ orders) s e = elim (Bool-cases (o.id == k)) [
  | inl h ↦ (
    ground arith,
    subst (λ j. All (λ x. (x.id == j) ≡ true → x ≡ row) orders) ((==_iff o.id k).0 h)
        (other_rows o row orders (ground arith)),
  )
  | inr h ↦ (ground arith, only_row k row orders (ground arith) (rw h at e))
]

module _ (quotient : ℕ → ℕ → ℕ) (s : Snapshot) (status : OrderStatus) (f : Fill) (k : ℕ) where
  abbrev closing : BrokerOrder → BrokerOrder
  closing = finished quotient s status f

  abbrev StaysClosed : BrokerOrder → Type 0
  StaysClosed x = (x.id == k) ≡ true → is_outstanding status ≡ true → is_outstanding x.status ≡ true

  -- The row as it is after the update.
  abbrev after : BrokerOrder → BrokerOrder
  after x = if x.id == k then closing x else x

  clashes-after :
      (o x : BrokerOrder) → StaysClosed x → clashes o x ≡ false → clashes o (after x) ≡ false
  clashes-after o x h c = elim (Bool-cases (x.id == k)) [
    | inr n ↦ rw n c
    | inl n ↦ rw n (elim (Bool-cases (is_outstanding status)) [
      | inl w ↦ ground (arith, h n w)
      | inr w ↦ ground arith
    ])
  ]

  after-clashes :
      (x o : BrokerOrder) → StaysClosed x → clashes x o ≡ false → clashes (after x) o ≡ false
  after-clashes x o h c = elim (Bool-cases (x.id == k)) [
    | inr n ↦ rw n c
    | inl n ↦ rw n (elim (Bool-cases (is_outstanding status)) [
      | inl w ↦ ground (arith, h n w)
      | inr w ↦ ground arith
    ])
  ]

  any-clashes-update :
      (o : BrokerOrder) (orders : List BrokerOrder)
      → All StaysClosed orders
      → any (clashes o) orders ≡ false
      → any (clashes o) (update_where (λ x. x.id == k) closing orders) ≡ false
  unfolding update_where
  any-clashes-update o [] h c = refl
  any-clashes-update o (x ∷ orders) h c =
      let (first, rest) = ||_false (clashes o x) (any (clashes o) orders) c in
      false_|| _ _ (clashes-after o x h.0 first) (any-clashes-update o orders h.1 rest)

  is_serial-update :
      (orders : List BrokerOrder)
      → All StaysClosed orders
      → is_serial orders ≡ true
      → is_serial (update_where (λ x. x.id == k) closing orders) ≡ true
  unfolding update_where
  is_serial-update [] h c = refl
  is_serial-update (x ∷ orders) h c = ground (
    arith,
    any-clashes-update (after x) orders h.1 (
        any-false (clashes x) (clashes x) (clashes (after x)) orders
          (λ o a b. after-clashes x o h.0 a) (ground arith) (ground arith)),
    is_serial-update orders h.1,
  )

outstanding_rank : (s : OrderStatus) → is_outstanding s ≡ ltb (rank s) 6
outstanding_rank submitting = refl
outstanding_rank uncertain = refl
outstanding_rank opened = refl
outstanding_rank partial = refl
outstanding_rank awaiting_approval = refl
outstanding_rank cancel_pending = refl
outstanding_rank filled = refl
outstanding_rank canceled = refl
outstanding_rank rejected = refl

-- A row that the snapshot leaves pending was pending.
was_outstanding :
    (state : OrderStatus) (f : Fill) (row : BrokerOrder)
    → changes_terminal state f row ≡ false
    → is_outstanding (kept_status row.status state) ≡ true
    → is_outstanding row.status ≡ true
was_outstanding state f row c w =
    ground (arith, outstanding_rank row.status, outstanding_rank state)

-- A call that returns leaves a journal that obeys its indexes.
abbrev Keeps : {A : Type 0} → Result A × Book → Type 0
Keeps (ok a, t) = is_serial t.orders ≡ true
Keeps (err e, t) = Unit {0}

atomic-Keeps :
    {A : Type 0} (m : Action Book A) (b : Book)
    → is_serial b.orders ≡ true
    → Keeps (m b)
    → is_serial (atomic m b).1.orders ≡ true
atomic-Keeps m b h k = atomic_elim (λ b. is_serial b.orders ≡ true) m b h (λ u t e. subst Keeps e k)

module _ (quotient : ℕ → ℕ → ℕ) (s : Snapshot) (state : OrderStatus) (f : Fill) where
  booked-Keeps :
      (row : BrokerOrder) (b : Book)
      → find_order row.id b.orders ≡ some row
      → is_serial b.orders ≡ true
      → Passes quotient row f b s state
      → Keeps (booked quotient row f b s state b)
  booked-Keeps row b found h p =
      bind_elim (KeepsOrders b) Keeps (book_delta quotient row f b)
        (λ _. modify (finish_order quotient row s (kept_status row.status state) f))
        (book_delta-KeepsOrders quotient row f b) (λ e t h. tt)
        λ u t e.
          subst
            (λ os.
              is_serial (
                update_where (λ x. x.id == row.id)
                  (finished quotient s (kept_status row.status state) f) os)
              ≡ true)
            (sym e)
            (is_serial-update quotient s (kept_status row.status state) f row.id b.orders
              (All-mono (λ x. (x.id == row.id) ≡ true → x ≡ row)
                (StaysClosed quotient s (kept_status row.status state) f row.id) b.orders
                (λ x one k w.
                  subst (λ y. is_outstanding y.status ≡ true) (sym (one k))
                    (was_outstanding state f row p.stays w))
                (only_row row.id row b.orders h found))
              h)

  apply_found-Keeps :
      (oid : ℕ) (o : Option BrokerOrder) (b : Book)
      → find_order oid b.orders ≡ o
      → is_serial b.orders ≡ true
      → Keeps (apply_found quotient o s state f b)
  apply_found-Keeps oid none b e h = tt
  apply_found-Keeps oid (some row) b e h =
      apply_row_elim quotient row f b s state Keeps (λ _. tt)
        (booked-Keeps row b (find_order-found oid row b.orders e) h)

apply_snapshot-Keeps :
    (quotient : ℕ → ℕ → ℕ) (oid : ℕ) (s : Snapshot) (asset : AssetClass) (b : Book)
    → is_serial b.orders ≡ true
    → is_serial (apply_snapshot quotient oid s asset b).1.orders ≡ true
unfolding apply_snapshot
apply_snapshot-Keeps quotient oid s asset b h =
    go (known_status (order_status s.state)) (read_fill asset s)
  where
    go :
        (st : Result OrderStatus) (f : Result Fill)
        → is_serial (apply_read quotient oid s st f b).1.orders ≡ true
    go (ok state) (ok f) =
        atomic-Keeps (λ b. apply_found quotient (find_order oid b.orders) s state f b) b h
          (apply_found-Keeps quotient s state f oid (find_order oid b.orders) b refl h)
    go (ok state) (err e) = h
    go (err e) f = h

reserve_order-Keeps :
    (r : Reservation) (b : Book)
    → is_serial b.orders ≡ true
    → is_serial (reserve_order r b).1.orders ≡ true
unfolding reserve_order
reserve_order-Keeps r b h =
    atomic-Keeps
      (λ b. reserve_at r r.intent.engine_position_id (find_strategy r.strategy_id b.strategies) b) b
      h (go r.intent.engine_position_id (find_strategy r.strategy_id b.strategies))
  where
    go : (pid : Option ℕ) (s : Option StrategyRow) → Keeps (reserve_at r pid s b)
    go (some pid) (some s) =
        if_elim Keeps (may_insert r pid s b) _ _
          (raise_if_elim Keeps (not r.is_evaluated) integrity _ b tt (λ _.
            raise_if_elim Keeps (not (is_serial (b.orders ++ new_order r ∷ []))) integrity
              (modify (λ b. record b { orders = b.orders ++ new_order r ∷ [] }) >> pure true) b tt
              (λ k. ground arith)))
          h
    go (some pid) none = h
    go none s = h

mark_order-Keeps :
    (oid : ℕ) (status : OrderStatus) (broker_id approval_id : Option ℕ) (b : Book)
    → is_serial b.orders ≡ true
    → is_serial (mark_order oid status broker_id approval_id b).1.orders ≡ true
unfolding mark_order
mark_order-Keeps oid status broker_id approval_id b h =
    if_cases (λ (r : Result (Unit {0}) × Book). is_serial r.1.orders ≡ true) (is_serial marked)
      (ok tt, record b { orders = marked }) (err integrity, b) (λ k. k) (λ _. h)
  where
    marked : List BrokerOrder
    marked = update_where (λ o. o.id == oid) (set_status status broker_id approval_id) b.orders

-- Any sequence of reservations, marks and snapshots, refused or not, leaves a journal with one row
-- for an identifier, at most one pending order for a position of a strategy, and at most one pending
-- purchase for a strategy: a snapshot, whose write checks nothing of this, makes no order pending
-- that was not.
pub run_calls_serial :
    (quotient : ℕ → ℕ → ℕ) (cs : List Call) (b : Book)
    → is_serial b.orders ≡ true
    → is_serial (run_calls quotient cs b).orders ≡ true
unfolding run_calls
run_calls_serial quotient [] b h = h
run_calls_serial quotient (reserves r ∷ cs) b h =
    run_calls_serial quotient cs _ (reserve_order-Keeps r b h)
run_calls_serial quotient (marks oid status broker_id approval_id ∷ cs) b h =
    run_calls_serial quotient cs _ (mark_order-Keeps oid status broker_id approval_id b h)
run_calls_serial quotient (reports oid s asset ∷ cs) b h =
    run_calls_serial quotient cs _ (apply_snapshot-Keeps quotient oid s asset b h)
