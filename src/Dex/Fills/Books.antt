-- ===== src/Dex/Fills/Books.antt =====
-- What the trades and holdings of server/src/services/dex_confirmed.py should add up to, and the writes
-- that keep it.
use mangrove_agent.Prelude.{
  ℕ, ◌+◌, ◌-◌, ◌≤◌, ◌≡◌, refl, subst, inl, inr, Bool, true, false, not, ◌&&◌, Option, none, some,
  List, [], ◌∷◌, ltb, ◌==◌, ==_iff, ==_refl, any, is_some, if◌then◌else◌, if_cases, if_elim,
  Bool-cases, All, arith,
}
use mangrove_agent.Prelude.Tables.{
  find_where, update_where, sum_by, find_where-set_other, find_where-set_same,
}
use mangrove_agent.Broker.{enter, exit}
use mangrove_agent.Dex.{DexStatus, pending, uncertain, failed, Context, DexOrder, updated}
use mangrove_agent.Dex.Fills.{
  DexTrade, DexHolding, DexBook, Proved, DexReservation, find_dex_holding, dex_quantity,
  is_confirmed_status, fill_holdings, confirm_order, apply_fill, settle_fees, reserve_dex,
}

-- The statuses that `update` writes beside those of a settlement.
pub data Mark : Type 0 where
  as_pending as_uncertain as_failed : Mark

abbrev pub status_of : Option Mark → Option DexStatus
status_of none = none
status_of (some as_pending) = some pending
status_of (some as_uncertain) = some uncertain
status_of (some as_failed) = some failed

pub data DexCall : Type 0 where
  reserves : DexReservation → DexCall
  fills : DexOrder → Proved → DexCall
  fees : ℕ → Bool → DexCall
  updates : ℕ → (Context → Context) → Option Mark → Option ℕ → DexCall

abbrev update_order : ℕ → (Context → Context) → Option DexStatus → Option ℕ → DexBook → DexBook
update_order oid f status tx_hash b = record b {
  orders = update_where (λ o. o.id == oid) (updated f status tx_hash) b.orders;
}

unfoldable pub run_dex : List DexCall → DexBook → DexBook
unfolding update_where
run_dex [] b = b
run_dex (reserves r ∷ cs) b = run_dex cs (reserve_dex r b).1
run_dex (fills o v ∷ cs) b = run_dex cs (apply_fill o v b).1
run_dex (fees oid complete ∷ cs) b = run_dex cs (settle_fees oid complete b).1
run_dex (updates oid f mark tx_hash ∷ cs) b =
    run_dex cs (update_order oid f (status_of mark) tx_hash b)

abbrev bought_dex : ℕ → DexTrade → ℕ
bought_dex pid t = if t.position_id == pid && t.is_purchase then t.quantity else 0

abbrev sold_dex : ℕ → DexTrade → ℕ
sold_dex pid t = if t.position_id == pid && not t.is_purchase then t.quantity else 0

abbrev one_of : ℕ → DexTrade → ℕ
one_of oid t = if t.id == oid then 1 else 0

abbrev pub HoldsDex : List DexHolding → List DexTrade → Type 0
HoldsDex holdings trades =
    (pid : ℕ)
    → dex_quantity (find_dex_holding pid holdings) + sum_by (sold_dex pid) trades
      ≡ sum_by (bought_dex pid) trades

abbrev IsBooked : List DexTrade → DexOrder → Type 0
IsBooked trades o = is_confirmed_status o.status ≡ true → sum_by (one_of o.id) trades ≡ 1

-- Every holding is what the trades of its position bought less what they sold; an order has one trade
-- at most, and a confirmed order has one.
pub record IsJournaled (b : DexBook) : Type 0 where
  pub holds : HoldsDex b.holdings b.trades
  pub once : (oid : ℕ) → sum_by (one_of oid) b.trades ≤ 1
  pub booked : All (IsBooked b.trades) b.orders

no_trade :
    (oid : ℕ) (trades : List DexTrade)
    → any (λ t. t.id == oid) trades ≡ false
    → sum_by (one_of oid) trades ≡ 0
unfolding sum_by
no_trade oid [] h = refl
no_trade oid (t ∷ trades) h = ground (arith, h, no_trade oid trades)

-- The holdings after a purchase, and after a sale.
module _ (pid q : ℕ) (t : DexTrade) (complete : Bool) (holdings : List DexHolding)
    (trades : List DexTrade) (of_position : t.position_id ≡ pid)
    (of_quantity : t.quantity ≡ q) where
  pub purchase-HoldsDex :
      (sid : ℕ)
      → t.is_purchase ≡ true
      → is_some (find_dex_holding pid holdings) ≡ false
      → HoldsDex holdings trades
      → HoldsDex (fill_holdings enter sid pid q 0 complete holdings) (t ∷ trades)
  unfolding sum_by find_where
  purchase-HoldsDex sid buys new h j =
      ground (arith, of_position, of_quantity, buys, new, h j, ==_iff pid j)

  pub sale-HoldsDex :
      (sid : ℕ) (x : DexHolding)
      → t.is_purchase ≡ false
      → find_dex_holding pid holdings ≡ some x
      → ltb x.quantity q ≡ false
      → HoldsDex holdings trades
      → HoldsDex (fill_holdings exit sid pid q (x.quantity - q) complete holdings) (t ∷ trades)
  unfolding sum_by
  sale-HoldsDex sid x sells found fits h j = elim (Bool-cases (pid == j)) [
    | inl e ↦ subst Sum ((==_iff pid j).0 e) (
        ground (
          arith,
          of_position,
          of_quantity,
          sells,
          fits,
          found,
          h pid,
          find_where-set_same (λ (y : DexHolding). y.position_id) pid sell x holdings (λ y. refl)
              found,
          ==_refl pid,
        ))
    | inr e ↦ ground (
      arith,
      of_position,
      e,
      h j,
      find_where-set_other (λ (y : DexHolding). y.position_id) pid j sell holdings (λ y. refl) e,
    )
  ]
    where
      sell : DexHolding → DexHolding
      sell y = record y { quantity = x.quantity - q; financial_complete = complete }

      Sum : ℕ → Type 0
      Sum k =
          dex_quantity
              (find_dex_holding k (fill_holdings exit sid pid q (x.quantity - q) complete holdings))
            + sum_by (sold_dex k) (t ∷ trades)
          ≡ sum_by (bought_dex k) (t ∷ trades)

-- One more trade of an order that had none.
pub once-fill :
    (t : DexTrade) (trades : List DexTrade)
    → any (λ u. u.id == t.id) trades ≡ false
    → ((oid : ℕ) → sum_by (one_of oid) trades ≤ 1)
    → (oid : ℕ) → sum_by (one_of oid) (t ∷ trades) ≤ 1
unfolding sum_by
once-fill t trades new once oid =
    ground (arith, once oid, no_trade t.id trades new, ==_iff t.id oid)

pub booked-fill :
    (t : DexTrade) (trades : List DexTrade) (context : Context) (complete : Bool)
    (orders : List DexOrder)
    → any (λ u. u.id == t.id) trades ≡ false
    → All (IsBooked trades) orders
    → All
        (IsBooked (t ∷ trades))
        (update_where (λ x. x.id == t.id) (confirm_order context complete) orders)
unfolding sum_by update_where
booked-fill t trades context complete [] new h = tt
booked-fill t trades context complete (o ∷ orders) new h = (
  if_cases (IsBooked (t ∷ trades)) (o.id == t.id) _ _
      (λ e c. ground (arith, e, no_trade t.id trades new, ==_iff o.id t.id, ==_refl t.id))
      (λ e c. ground (arith, e, h.0 c, ==_iff t.id o.id)),
  booked-fill t trades context complete orders new h.1,
)

-- A write of orders that confirms none.
pub rewritten :
    (b : DexBook) (c : DexOrder → Bool) (f : DexOrder → DexOrder)
    → ((o : DexOrder) → (f o).id ≡ o.id)
    → ((o : DexOrder)
        → is_confirmed_status (f o).status ≡ true
        → is_confirmed_status o.status ≡ true)
    → IsJournaled b
    → IsJournaled (record b { orders = update_where c f b.orders })
unfolding update_where
rewritten b c f same keeps h = record {
  holds = h.holds;
  once = h.once;
  booked = go b.orders h.booked;
}
  where
    go :
        (orders : List DexOrder)
        → All (IsBooked b.trades) orders
        → All (IsBooked b.trades) (update_where c f orders)
    go [] k = tt
    go (o ∷ orders) k = (
      if_elim (IsBooked b.trades) (c o) _ _ (λ e. rw (same o) (k.0 (keeps o e))) k.0,
      go orders k.1,
    )
