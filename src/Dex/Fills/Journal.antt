-- ===== src/Dex/Fills/Journal.antt =====
-- What the trades and holdings of server/src/services/dex_confirmed.py add up to after any calls.
use mangrove_agent.Prelude.{
  ℕ, ◌-◌, ◌≡◌, refl, subst, Bool, true, false, not, ◌||◌, Option, none, some, List, [], ◌∷◌, ◌==◌,
  any, if◌then◌else◌, if_cases, if_elim, arith,
}
use mangrove_agent.Prelude.Tables.{update_where}
use mangrove_agent.Flow.{Result, ok, Action, atomic, atomic_elim}
use mangrove_agent.Broker.{IntentAction, enter, exit, StrategyRow, find_strategy}
use mangrove_agent.Broker.Reserve.{is_enter}
use mangrove_agent.Dex.{
  DexStatus, submitting, pending, uncertain, confirmed, fee_only, failed, DexOrder, updated,
  new_status,
}
use mangrove_agent.Dex.Fills.{
  DexTrade, DexHolding, DexBook, Proved, DexReservation, find_dex_order, find_dex_holding, held_by,
  dex_quantity, is_confirmed_status, fill_quantity, fill_trade, collides, fill_holdings, fill_held,
  fill_at, fill_current, apply_fill, fee_order, fee_current, settle_fees, reserve_dex,
  reserve_dex_at, reserve_dex_for, violates, is_recorded_entry, may_act, is_in_way, exceeds_holding,
  has_key, dex_order, is_fee_only, count_book,
}
use mangrove_agent.Dex.Fills.Books.{
  Mark, as_pending, as_uncertain, as_failed, status_of, DexCall, reserves, fills, fees, updates,
  purchase-HoldsDex, sale-HoldsDex, run_dex, HoldsDex, IsJournaled, once-fill, booked-fill,
  rewritten,
}

not_there :
    (a : IntentAction) (oid pid : ℕ) (b : DexBook)
    → collides a oid pid b ≡ false
    → any (λ t. t.id == oid) b.trades ≡ false
not_there exit oid pid b h = h
not_there enter oid pid b h = ground (arith, h)

fill_holdings-HoldsDex :
    (a : IntentAction) (oid sid pid q : ℕ) (t : DexTrade) (complete : Bool) (b : DexBook)
    → t.position_id ≡ pid
    → t.quantity ≡ q
    → t.is_purchase ≡ is_enter a
    → violates a q (held_by sid (find_dex_holding pid b.holdings)) ≡ false
    → collides a oid pid b ≡ false
    → HoldsDex b.holdings b.trades
    → HoldsDex
        (fill_holdings a sid pid q
          (dex_quantity (held_by sid (find_dex_holding pid b.holdings)) - q)
          complete
          b.holdings)
        (t ∷ b.trades)
fill_holdings-HoldsDex enter oid sid pid q t complete b at_position of_quantity buys fits free h =
    purchase-HoldsDex pid q t complete b.holdings b.trades at_position of_quantity sid buys
      (ground (arith, free)) h
fill_holdings-HoldsDex exit oid sid pid q t complete b at_position of_quantity sells fits free h =
    go (find_dex_holding pid b.holdings) refl fits
  where
    Sold : Option DexHolding → Type 0
    Sold held =
        HoldsDex (fill_holdings exit sid pid q (dex_quantity held - q) complete b.holdings)
          (t ∷ b.trades)

    owned :
        (mine : Bool) (x : DexHolding)
        → find_dex_holding pid b.holdings ≡ some x
        → violates exit q (if mine then some x else none) ≡ false
        → Sold (if mine then some x else none)
    owned true x found k =
        sale-HoldsDex pid q t complete b.holdings b.trades at_position of_quantity sid x sells found
          k h
    owned false x found k = cc

    go :
        (f : Option DexHolding)
        → find_dex_holding pid b.holdings ≡ f
        → violates exit q (held_by sid f) ≡ false
        → Sold (held_by sid f)
    go none found k = cc
    go (some x) found k = owned (x.strategy_id == sid) x found k

abbrev Kept : Result (Unit {0}) × DexBook → Type 0
Kept r = IsJournaled r.1

fill_held-IsJournaled :
    (o : DexOrder) (pid : ℕ) (v : Proved) (b : DexBook)
    → IsJournaled b
    → IsJournaled (fill_held o pid v (held_by o.strategy_id (find_dex_holding pid b.holdings)) b).1
fill_held-IsJournaled o pid v b h =
    if_cases Kept (violates o.intent.action (fill_quantity o.intent.action v) held) _ _ (λ e. h)
      (λ fits.
        if_cases Kept (collides o.intent.action o.id pid b) _ _ (λ e. h)
          (λ free. record {
            holds =
                fill_holdings-HoldsDex o.intent.action o.id o.strategy_id pid
                  (fill_quantity o.intent.action v) (fill_trade o pid v) _ b refl refl refl fits
                  free h.holds;
            once =
                once-fill (fill_trade o pid v) b.trades (not_there o.intent.action o.id pid b free)
                  h.once;
            booked =
                booked-fill (fill_trade o pid v) b.trades o.context _ b.orders
                  (not_there o.intent.action o.id pid b free) h.booked;
          }))
  where
    held : Option DexHolding
    held = held_by o.strategy_id (find_dex_holding pid b.holdings)

fill_at-IsJournaled :
    (o : DexOrder) (pid : Option ℕ) (v : Proved) (b : DexBook)
    → IsJournaled b
    → IsJournaled (fill_at o pid v b).1
fill_at-IsJournaled o none v b h = h
fill_at-IsJournaled o (some pid) v b h = fill_held-IsJournaled o pid v b h

fill_current-IsJournaled :
    (o : DexOrder) (v : Proved) (current : Option DexOrder) (b : DexBook)
    → IsJournaled b
    → IsJournaled (fill_current o v current b).1
fill_current-IsJournaled o v none b h = h
fill_current-IsJournaled o v (some current) b h =
    if_elim Kept _ _ _ h (fill_at-IsJournaled o o.intent.engine_position_id v b h)

-- A transaction that keeps the journal keeps it when it rolls back.
atomic-IsJournaled :
    {A : Type 0} (m : Action DexBook A) (b : DexBook)
    → IsJournaled b
    → IsJournaled (m b).1
    → IsJournaled (atomic m b).1
atomic-IsJournaled {A} m b h k =
    atomic_elim IsJournaled m b h (λ a t e. subst (λ (r : Result A × DexBook). IsJournaled r.1) e k)

apply_fill-IsJournaled :
    (o : DexOrder) (v : Proved) (b : DexBook) → IsJournaled b → IsJournaled (apply_fill o v b).1
unfolding apply_fill
apply_fill-IsJournaled o v b h =
    atomic-IsJournaled (λ b. fill_current o v (find_dex_order o.id b.orders) b) b h
      (fill_current-IsJournaled o v (find_dex_order o.id b.orders) b h)

fee_current-IsJournaled :
    (oid : ℕ) (complete : Bool) (current : Option DexOrder) (b : DexBook)
    → IsJournaled b
    → IsJournaled (fee_current oid complete current b).1
fee_current-IsJournaled oid complete none b h = h
fee_current-IsJournaled oid complete (some current) b h =
    if_elim Kept (is_fee_only current.status) _ (ok tt, charged) h
      (record { holds = r.holds; once = r.once; booked = r.booked })
  where
    charged : DexBook
    charged = record b {
      orders = update_where (λ x. x.id == oid) (fee_order complete) b.orders;
      strategies = update_where (λ s. s.id == current.strategy_id) count_book b.strategies;
    }

    r :
        IsJournaled
          (record b { orders = update_where (λ x. x.id == oid) (fee_order complete) b.orders })
    r = rewritten b (λ x. x.id == oid) (fee_order complete) (λ o. refl) (λ o e. cc) h

settle_fees-IsJournaled :
    (oid : ℕ) (complete : Bool) (b : DexBook)
    → IsJournaled b
    → IsJournaled (settle_fees oid complete b).1
unfolding settle_fees
settle_fees-IsJournaled oid complete b h =
    atomic-IsJournaled (λ b. fee_current oid complete (find_dex_order oid b.orders) b) b h
      (fee_current-IsJournaled oid complete (find_dex_order oid b.orders) b h)

reserve_dex_at-IsJournaled :
    (r : DexReservation) (s : StrategyRow) (pid : ℕ) (b : DexBook)
    → IsJournaled b
    → IsJournaled (reserve_dex_at r pid s b).1
reserve_dex_at-IsJournaled r s pid b h = if_elim P (is_recorded_entry r.intent.action pid b) _ _ h (
    if_elim P (not (may_act r r.intent.action s)) _ _ h (
      if_elim P
        (any (λ sid. sid == r.strategy_id) b.legacy_pending || any (is_in_way r pid) b.orders) _ _ h
        (if_elim P (exceeds_holding r r.intent.action pid b) _ _ h (
          if_elim P (any (has_key r) b.orders) _ _ h
            (if_elim P (not r.is_evaluated) _ (ok (some r.fresh_id), reserved) h kept)))))
  where
    P : Result (Option ℕ) × DexBook → Type 0
    P r = IsJournaled r.1

    reserved : DexBook
    reserved = record b { orders = dex_order r ∷ b.orders }

    kept : IsJournaled reserved
    kept = record { holds = h.holds; once = h.once; booked = (λ e. cc, h.booked) }

reserve_dex_for-IsJournaled :
    (r : DexReservation) (pid : Option ℕ) (s : Option StrategyRow) (b : DexBook)
    → IsJournaled b
    → IsJournaled (reserve_dex_for r pid s b).1
reserve_dex_for-IsJournaled r (some pid) (some s) b h = reserve_dex_at-IsJournaled r s pid b h
reserve_dex_for-IsJournaled r (some pid) none b h = h
reserve_dex_for-IsJournaled r none s b h = h

reserve_dex-IsJournaled :
    (r : DexReservation) (b : DexBook) → IsJournaled b → IsJournaled (reserve_dex r b).1
unfolding reserve_dex
reserve_dex-IsJournaled r b h =
    atomic-IsJournaled
      (λ b.
        reserve_dex_for r r.intent.engine_position_id (find_strategy r.strategy_id b.strategies) b)
      b h
      (reserve_dex_for-IsJournaled r r.intent.engine_position_id
        (find_strategy r.strategy_id b.strategies) b h)

updated-unconfirmed :
    (old : DexStatus) (mark : Option Mark)
    → is_confirmed_status (new_status old (status_of mark)) ≡ true
    → is_confirmed_status old ≡ true
updated-unconfirmed confirmed mark e = refl
updated-unconfirmed submitting none e = cc
updated-unconfirmed submitting (some as_pending) e = cc
updated-unconfirmed submitting (some as_uncertain) e = cc
updated-unconfirmed submitting (some as_failed) e = cc
updated-unconfirmed pending none e = cc
updated-unconfirmed pending (some as_pending) e = cc
updated-unconfirmed pending (some as_uncertain) e = cc
updated-unconfirmed pending (some as_failed) e = cc
updated-unconfirmed uncertain none e = cc
updated-unconfirmed uncertain (some as_pending) e = cc
updated-unconfirmed uncertain (some as_uncertain) e = cc
updated-unconfirmed uncertain (some as_failed) e = cc
updated-unconfirmed fee_only none e = cc
updated-unconfirmed fee_only (some as_pending) e = cc
updated-unconfirmed fee_only (some as_uncertain) e = cc
updated-unconfirmed fee_only (some as_failed) e = cc
updated-unconfirmed failed none e = cc
updated-unconfirmed failed (some as_pending) e = cc
updated-unconfirmed failed (some as_uncertain) e = cc
updated-unconfirmed failed (some as_failed) e = cc

-- After any calls, every holding is what the trades of its position bought less what they sold, no
-- order has two trades, and every confirmed order has one.
pub run_dex-IsJournaled :
    (cs : List DexCall) (b : DexBook) → IsJournaled b → IsJournaled (run_dex cs b)
unfolding run_dex
run_dex-IsJournaled [] b h = h
run_dex-IsJournaled (reserves r ∷ cs) b h = run_dex-IsJournaled cs _ (reserve_dex-IsJournaled r b h)
run_dex-IsJournaled (fills o v ∷ cs) b h = run_dex-IsJournaled cs _ (apply_fill-IsJournaled o v b h)
run_dex-IsJournaled (fees oid complete ∷ cs) b h =
    run_dex-IsJournaled cs _ (settle_fees-IsJournaled oid complete b h)
run_dex-IsJournaled (updates oid f mark tx_hash ∷ cs) b h = run_dex-IsJournaled cs _ (
    rewritten b (λ o. o.id == oid) (updated f (status_of mark) tx_hash) (λ o. refl)
      (λ o. updated-unconfirmed o.status mark) h)
