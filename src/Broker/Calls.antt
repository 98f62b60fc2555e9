-- ===== src/Broker/Calls.antt =====
-- The calls of server/src/services/broker_store.py as data, and runs of them: each is one
-- transaction, so that threads and processes interleave whole calls.
use mangrove_agent.Prelude.{
  ℕ, ◌≡◌, refl, ◌∙◌, not, Option, none, some, List, [], ◌∷◌, ◌++◌, ◌==◌, if_elim, arith,
}
use mangrove_agent.Prelude.Tables.{find_where, update_where, sum_by, find_where-snoc}
use mangrove_agent.Flow.{Result, raise_if_elim, integrity}
use mangrove_agent.Broker.{
  OrderStatus, BrokerOrder, StrategyRow, Book, is_serial, find_order, find_strategy, set_status,
  mark_order,
}
use mangrove_agent.Broker.Reserve.{Reservation, new_order, may_insert, reserve_at, reserve_order}
use mangrove_agent.Broker.Snapshot.{Snapshot, AssetClass, apply_snapshot}
use mangrove_agent.Broker.Accounts.{value, IsBalanced}
use mangrove_agent.Broker.Balanced.{Balances, IsBalanced-atomic, apply_snapshot-IsBalanced}

pub data Call : Type 0 where
  reserves : Reservation → Call
  marks : ℕ → OrderStatus → Option ℕ → Option ℕ → Call
  reports : ℕ → Snapshot → AssetClass → Call

module _ (quotient : ℕ → ℕ → ℕ) where
  unfoldable pub run_call : Call → Book → Book
  unfolding reserve_order mark_order apply_snapshot
  run_call (reserves r) b = (reserve_order r b).1
  run_call (marks oid status broker_id approval_id) b =
      (mark_order oid status broker_id approval_id b).1
  run_call (reports oid s asset) b = (apply_snapshot quotient oid s asset b).1

  unfoldable pub run_calls : List Call → Book → Book
  unfolding run_call
  run_calls [] b = b
  run_calls (c ∷ cs) b = run_calls cs (run_call c b)

-- A new order has filled nothing.
value-new :
    (f : BrokerOrder → ℕ) (j : ℕ) (x : BrokerOrder) (orders : List BrokerOrder)
    → f x ≡ 0
    → value f (find_order j (orders ++ x ∷ [])) ≡ value f (find_order j orders)
value-new f j x orders e = ground (arith, find_where-snoc (λ (o : BrokerOrder). o.id) j x orders)

inserted-IsBalanced :
    (r : Reservation) (b : Book)
    → IsBalanced b
    → IsBalanced (record b { orders = b.orders ++ new_order r ∷ [] })
inserted-IsBalanced r b a = record {
  quantities =
      λ j. value-new (λ o. o.filled_quantity) j (new_order r) b.orders refl ∙ a.quantities j;
  notionals = λ j. value-new (λ o. o.filled_notional) j (new_order r) b.orders refl ∙ a.notionals j;
  fees = λ j. value-new (λ o. o.fees) j (new_order r) b.orders refl ∙ a.fees j;
  holds = a.holds;
  fits = λ j.
      ground
        (arith, find_where-snoc (λ (o : BrokerOrder). o.id) j (new_order r) b.orders, a.fits j);
}

reserve_order-IsBalanced :
    (r : Reservation) (b : Book) → IsBalanced b → IsBalanced (reserve_order r b).1
unfolding reserve_order
reserve_order-IsBalanced r b a =
    IsBalanced-atomic
      (λ b. reserve_at r r.intent.engine_position_id (find_strategy r.strategy_id b.strategies) b) b
      a (go r.intent.engine_position_id (find_strategy r.strategy_id b.strategies))
  where
    go : (pid : Option ℕ) (s : Option StrategyRow) → Balances (reserve_at r pid s b)
    go (some pid) (some s) =
        if_elim Balances (may_insert r pid s b) _ _
          (raise_if_elim Balances (not r.is_evaluated) integrity _ b tt (λ _.
            raise_if_elim Balances (not (is_serial (b.orders ++ new_order r ∷ []))) integrity _ b tt
              (λ _. inserted-IsBalanced r b a)))
          a
    go (some pid) none = a
    go none s = a

-- A write that keeps a number of every order.
value-marked :
    (f : BrokerOrder → ℕ) (oid j : ℕ) (h : BrokerOrder → BrokerOrder) (orders : List BrokerOrder)
    → ((o : BrokerOrder) → (h o).id ≡ o.id)
    → ((o : BrokerOrder) → f (h o) ≡ f o)
    → value f (find_order j (update_where (λ o. o.id == oid) h orders))
      ≡ value f (find_order j orders)
unfolding find_where update_where
value-marked f oid j h [] i e = refl
value-marked f oid j h (o ∷ orders) i e =
    ground (arith, i o, e o, value-marked f oid j h orders i e)

marked-IsBalanced :
    (oid : ℕ) (status : OrderStatus) (broker_id approval_id : Option ℕ) (b : Book)
    → IsBalanced b
    → IsBalanced (record b {
      orders = update_where (λ o. o.id == oid) (set_status status broker_id approval_id) b.orders;
    })
marked-IsBalanced oid status broker_id approval_id b a = record {
  quantities = λ j. same (λ o. o.filled_quantity) j (λ _. refl) ∙ a.quantities j;
  notionals = λ j. same (λ o. o.filled_notional) j (λ _. refl) ∙ a.notionals j;
  fees = λ j. same (λ o. o.fees) j (λ _. refl) ∙ a.fees j;
  holds = a.holds;
  fits = λ j. omega (
    arith,
    same (λ o. o.filled_quantity) j (λ _. refl),
    same (λ o. o.requested) j (λ _. refl),
    a.fits j,
  );
}
  where
    h : BrokerOrder → BrokerOrder
    h = set_status status broker_id approval_id

    same :
        (f : BrokerOrder → ℕ) (j : ℕ)
        → ((o : BrokerOrder) → f (h o) ≡ f o)
        → value f (find_order j (update_where (λ o. o.id == oid) h b.orders))
          ≡ value f (find_order j b.orders)
    same f j e = value-marked f oid j h b.orders (λ _. refl) e

mark_order-IsBalanced :
    (oid : ℕ) (status : OrderStatus) (broker_id approval_id : Option ℕ) (b : Book)
    → IsBalanced b
    → IsBalanced (mark_order oid status broker_id approval_id b).1
unfolding mark_order
mark_order-IsBalanced oid status broker_id approval_id b a =
    if_elim (λ (r : Result (Unit {0}) × Book). IsBalanced r.1) _ _ _
      (marked-IsBalanced oid status broker_id approval_id b a) a

run_call-IsBalanced :
    (quotient : ℕ → ℕ → ℕ) (c : Call) (b : Book) → IsBalanced b → IsBalanced (run_call quotient c b)
unfolding run_call
run_call-IsBalanced quotient (reserves r) b a = reserve_order-IsBalanced r b a
run_call-IsBalanced quotient (marks oid status broker_id approval_id) b a =
    mark_order-IsBalanced oid status broker_id approval_id b a
run_call-IsBalanced quotient (reports oid s asset) b a =
    apply_snapshot-IsBalanced quotient oid s asset b a

-- A journal before the first order.
abbrev pub opening : List StrategyRow → Book
opening strategies = record {
  strategies = strategies;
  orders = [];
  trades = [];
  positions = [];
  holdings = [];
  events = [];
}

kept-IsBalanced :
    (quotient : ℕ → ℕ → ℕ) (cs : List Call) (b : Book)
    → IsBalanced b
    → IsBalanced (run_calls quotient cs b)
unfolding run_calls
kept-IsBalanced quotient [] b a = a
kept-IsBalanced quotient (c ∷ cs) b a =
    kept-IsBalanced quotient cs (run_call quotient c b) (run_call-IsBalanced quotient c b a)

-- After any sequence of reservations, marks and snapshots from an empty journal, whether they were
-- refused or not: the trades of each order add up to its filled quantity, its filled notional and
-- its fees, no order is filled beyond its request, and each position holds what its trades bought
-- less what they sold.
pub run_calls-IsBalanced :
    (quotient : ℕ → ℕ → ℕ) (cs : List Call) (strategies : List StrategyRow)
    → IsBalanced (run_calls quotient cs (opening strategies))
unfolding find_where sum_by
run_calls-IsBalanced quotient cs strategies =
    kept-IsBalanced quotient cs (opening strategies) (record {
      quantities = λ _. refl;
      notionals = λ _. refl;
      fees = λ _. refl;
      holds = λ _. omega arith;
      fits = λ _. omega arith;
    })
