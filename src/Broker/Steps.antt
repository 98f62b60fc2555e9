-- ===== src/Broker/Steps.antt =====
-- What the guards of `apply_snapshot` of server/src/services/broker_store.py leave to be shown of
-- its writes.
use mangrove_agent.Prelude.{
  ℕ, ◌≡◌, true, false, not, ◌&&◌, ◌||◌, Option, ltb, ◌==◌, is_some, if_cases,
}
use mangrove_agent.Flow.{
  Result, ok, err, Error, Action, modify, raise_if, raise_if_elim, ◌>>◌, sdk_error,
}
use mangrove_agent.Broker.{
  OrderStatus, filled, same_status, BrokerOrder, Position, Holding, Book, find_position,
  find_holding,
}
use mangrove_agent.Broker.Snapshot.{
  Snapshot, Fill, delta_of, identifies, regresses, changes_terminal, kept_status, oversells,
  is_foreign, write_fill, book_fill, book_delta, finish_order, apply_row,
}

module _ (quotient : ℕ → ℕ → ℕ) (row : BrokerOrder) (f : Fill) (b : Book) where
  abbrev pub position : Option Position
  position = find_position (delta_of f row).position_id b.positions

  abbrev pub holding : Option Holding
  holding = find_holding (delta_of f row).position_id b.holdings

  abbrev pub writes : Action Book (Unit {0})
  writes = write_fill quotient row f.quantity (delta_of f row) position holding

  -- Nothing new, or a new fill.
  pub book_delta_elim {ℓ} :
      (P : Result (Unit {0}) × Book → Type ℓ)
      → ((e : Error) → P (err e, b))
      → ((f.quantity == row.filled_quantity) ≡ true
          → (not (f.gross == row.filled_notional) || not (f.fees == row.fees)) ≡ false
          → P (ok tt, b))
      → (oversells row.intent.side (delta_of f row) position holding ≡ false → P (writes b))
      → P (book_delta quotient row f b)
  book_delta_elim P fails same new =
      if_cases (λ (m : Action Book (Unit {0})). P (m b)) (f.quantity == row.filled_quantity) _ _
        (λ k.
          if_cases (λ (r : Result (Unit {0})). P (r, b))
            (not (f.gross == row.filled_notional) || not (f.fees == row.fees)) _ _
            (λ _. fails sdk_error) (same k))
        λ _.
          raise_if_elim P ((delta_of f row).gross == 0) sdk_error
            (book_fill quotient row f.quantity (delta_of f row) position holding) b
            (fails sdk_error)
            λ _.
              raise_if_elim P (is_foreign row.strategy_id position) sdk_error
                (held_first >> (covered_first >> writes)) b (fails sdk_error)
                λ _.
                  raise_if_elim P (is_some position && not (is_some holding)) sdk_error
                    (covered_first >> writes) b (fails sdk_error)
                    λ _.
                      raise_if_elim P (oversells row.intent.side (delta_of f row) position holding)
                        sdk_error writes b (fails sdk_error) new
    where
      held_first : Action Book (Unit {0})
      held_first = raise_if (is_some position && not (is_some holding)) sdk_error

      covered_first : Action Book (Unit {0})
      covered_first =
          raise_if (oversells row.intent.side (delta_of f row) position holding) sdk_error

  module _ (s : Snapshot) (state : OrderStatus) where
    abbrev pub booked : Action Book (Unit {0})
    booked =
        book_delta quotient row f
        >> modify (finish_order quotient row s (kept_status row.status state) f)

    -- A snapshot that passes the guards.
    pub record Passes : Type 0 where
      pub identified : not (identifies s row) ≡ false
      pub fits : ltb row.requested f.quantity ≡ false
      pub grows : regresses f row ≡ false
      pub stays : changes_terminal state f row ≡ false
      pub fills : (same_status state filled && f.quantity == 0) ≡ false

    pub apply_row_elim {ℓ} :
        (P : Result (Unit {0}) × Book → Type ℓ)
        → ((e : Error) → P (err e, b))
        → (Passes → P (booked b))
        → P (apply_row quotient row s state f b)
    apply_row_elim P fails goes =
        raise_if_elim P (not (identifies s row)) sdk_error _ b (fails sdk_error) λ i.
          raise_if_elim P (ltb row.requested f.quantity) sdk_error _ b (fails sdk_error) λ k.
            raise_if_elim P (regresses f row) sdk_error _ b (fails sdk_error) λ g.
              raise_if_elim P (changes_terminal state f row) sdk_error _ b (fails sdk_error) λ c.
                raise_if_elim P (same_status state filled && f.quantity == 0) sdk_error booked b
                  (fails sdk_error)
                  λ z. goes (record { identified = i; fits = k; grows = g; stays = c; fills = z })
