-- ===== src/Broker/Reserve/Returns.antt =====
-- How `reserve` of server/src/services/broker_store.py ends.
use mangrove_agent.Prelude.{
  ℕ, ◌≤◌, ◌≡◌, ◌⊎◌, refl, sym, subst, inl, inr, Bool, true, false, not, ◌&&◌, Option, none, some,
  List, [], ◌∷◌, ◌++◌, any, any-snoc, any-false, ◌==◌, if_cases, Option-cases, arith,
}
use mangrove_agent.Flow.{
  Result, ok, err, commit, bind_result, raise_if, modify, pure, ◌>>◌, integrity,
}
use mangrove_agent.Broker.{
  is_buy, IntentAction, enter, exit, BrokerOrder, Holding, StrategyRow, Book, clashes, is_serial,
  find_strategy, find_holding, find_position, quantity_held,
}
use mangrove_agent.Broker.Reserve.{
  Reservation, is_enter, is_pending_of, conflicts, is_covered, may_insert, new_order, insert_order,
  reserve_at, reserve_order,
}

is_serial-snoc :
    (orders : List BrokerOrder) (x : BrokerOrder)
    → is_serial orders ≡ true
    → any (λ o. clashes o x) orders ≡ false
    → is_serial (orders ++ x ∷ []) ≡ true
is_serial-snoc [] x s c = refl
is_serial-snoc (o ∷ orders) x s c =
    ground (arith, any-snoc (clashes o) orders x, is_serial-snoc orders x)

-- Orders that neither carry the reference nor stand in the way do not clash with the new order.
clashes-new :
    (r : Reservation) (pid : ℕ) (o : BrokerOrder)
    → r.intent.engine_position_id ≡ some pid
    → is_enter r.intent.action ≡ is_buy r.intent.side
    → (o.id == r.ref_id) ≡ false
    → (is_pending_of r.strategy_id o && conflicts r.intent.action pid o) ≡ false
    → clashes o (new_order r) ≡ false
clashes-new r pid o e m f c = ground arith

-- What a position that an intent may name holds.
abbrev held_at : Option ℕ → List Holding → ℕ
held_at none holdings = 0
held_at (some pid) holdings = quantity_held (find_holding pid holdings)

-- A refusal changes nothing, and neither does the only error, of an evaluation that has no row. An acceptance adds the order, which clashes with none, and is an entry
-- or asks for no more than its position holds.
abbrev pub Reserves : Reservation → Book → Result Bool × Book → Type 0
Reserves r b (ok false, t) = t ≡ b
Reserves r b (ok true, t) =
    (t ≡ record b { orders = b.orders ++ new_order r ∷ [] })
    × (is_serial t.orders ≡ true)
    × ((is_enter r.intent.action ≡ true)
        ⊎ (r.quantity ≤ held_at r.intent.engine_position_id b.holdings))
Reserves r b (err e, t) = (r.is_evaluated ≡ false) × (t ≡ b)

is_covered-held :
    (r : Reservation) (action : IntentAction) (pid : ℕ) (b : Book)
    → is_covered r action pid b ≡ true
    → (is_enter action ≡ true) ⊎ (r.quantity ≤ quantity_held (find_holding pid b.holdings))
is_covered-held r enter pid b c = inl refl
is_covered-held r exit pid b c = inr (elim (Option-cases (find_holding pid b.holdings)) [
  | inl e ↦ ground arith
  | inr (h, e) ↦ elim (Option-cases (find_position pid b.positions)) [
    | inl k ↦ ground arith
    | inr (p, k) ↦ ground arith
  ]
])

may_insert-Reserves :
    (r : Reservation) (pid : ℕ) (s : StrategyRow) (b : Book)
    → r.intent.engine_position_id ≡ some pid
    → is_enter r.intent.action ≡ is_buy r.intent.side
    → is_serial b.orders ≡ true
    → any (λ o. o.id == r.ref_id) b.orders ≡ false
    → may_insert r pid s b ≡ true
    → Reserves r b (insert_order r b)
may_insert-Reserves r pid s b e m serial fresh may =
    if_cases P (not r.is_evaluated) _ _ (λ n. (ground arith, refl))
      (λ _. rw kept (
        refl,
        kept,
        subst (λ p. (is_enter r.intent.action ≡ true) ⊎ (r.quantity ≤ held_at p b.holdings)) (sym e)
            (is_covered-held r r.intent.action pid b (ground arith)),
      ))
  where
    P : Result (Unit {0}) → Type 0
    P q = Reserves r b (
        bind_result (q, b)
          (λ _.
            raise_if (not (is_serial (b.orders ++ new_order r ∷ []))) integrity
            >> (modify (λ b. record b { orders = b.orders ++ new_order r ∷ [] }) >> pure true)))

    kept : is_serial (b.orders ++ new_order r ∷ []) ≡ true
    kept = is_serial-snoc b.orders (new_order r) serial (
        any-false (λ o. o.id == r.ref_id)
          (λ o. is_pending_of r.strategy_id o && conflicts r.intent.action pid o)
          (λ o. clashes o (new_order r)) b.orders (λ o f c. clashes-new r pid o e m f c) fresh
          (ground arith))

-- With a fresh reference, in a journal that obeys its indexes, a reservation of a purchase that
-- enters or of a sale that exits returns, if its evaluation has a row: its own checks leave no index
-- to break. Without that row it may raise, and then changes nothing. One that is refused changes
-- nothing; one that is accepted adds its order, and a sale asks for no more than its
-- position holds.
pub reserve_order-Reserves :
    (r : Reservation) (b : Book)
    → is_enter r.intent.action ≡ is_buy r.intent.side
    → is_serial b.orders ≡ true
    → any (λ o. o.id == r.ref_id) b.orders ≡ false
    → Reserves r b (reserve_order r b)
unfolding reserve_order
reserve_order-Reserves r b m serial fresh =
    kept (reserve_at r r.intent.engine_position_id (find_strategy r.strategy_id b.strategies) b)
      (go r.intent.engine_position_id (find_strategy r.strategy_id b.strategies) refl)
  where
    go :
        (pid : Option ℕ) (s : Option StrategyRow)
        → r.intent.engine_position_id ≡ pid
        → Reserves r b (reserve_at r pid s b)
    go none s e = refl
    go (some pid) none e = refl
    go (some pid) (some s) e =
        if_cases (Reserves r b) (may_insert r pid s b) _ _
          (may_insert-Reserves r pid s b e m serial fresh) (λ _. refl)

    kept : (x : Result Bool × Book) → Reserves r b x → Reserves r b (commit b x)
    kept (ok a, t) h = h
    kept (err e, t) h = (h.0, refl)
