-- ===== src/Ledger/Spent.antt =====
-- `_spent_micro_usd` and `_payment_count` of server/src/services/spend_service.py, and how the
-- writes to the two tables move the sums.
use mangrove_agent.Prelude.{
  ℕ, ◌-◌, ◌≤◌, ◌≡◌, refl, Bool, true, false, not, ◌&&◌, List, [], ◌∷◌, ◌++◌, arith, ◌==◌,
  if◌then◌else◌, length, All,
}
use mangrove_agent.Prelude.Tables.{
  update_where, sum_by, select_where, sum_by-update_le, sum_by-update_ge, sum_by_mono, sum_by-snoc,
  sum_by-eq, All-mono,
}
use mangrove_agent.Ledger.{PayState, is_released, is_settled, is_confirmed, Payment, Refund, Db}

-- `state IN _COUNTING_STATES`
abbrev pub counts : PayState → Bool
counts s = not (is_released s)

-- What a row adds to the sum of a period.
abbrev pub charge : ℕ → Payment → ℕ
charge period p = if p.period_id == period && counts p.state then p.amount_micro_usd else 0

-- What the join of a refund with a row gives.
abbrev pub credit_of : ℕ → Refund → Payment → ℕ
credit_of period r p =
    if p.id == r.reservation_id && p.period_id == period && is_settled p.state
    then r.amount_micro_usd
    else 0

abbrev pub credit : ℕ → List Payment → Refund → ℕ
credit period ps r = if is_confirmed r.state then sum_by (credit_of period r) ps else 0

abbrev pub counted : ℕ → List Payment → ℕ
counted period ps = sum_by (charge period) ps

abbrev pub refunded : ℕ → List Payment → List Refund → ℕ
refunded period ps rs = sum_by (credit period ps) rs

-- `max(0, …)` is the truncated difference.
unfoldable pub spent_micro_usd : ℕ → Db → ℕ
spent_micro_usd period db = counted period db.payments - refunded period db.payments db.refunds

unfoldable pub payment_count : ℕ → Db → ℕ
unfolding select_where
payment_count period db =
    length (select_where (λ p. p.period_id == period && counts p.state) db.payments)

module _ (period : ℕ) (ps : List Payment) where
  credit-snoc :
      (p : Payment) (r : Refund)
      → is_settled p.state ≡ false
      → credit period (ps ++ p ∷ []) r ≡ credit period ps r
  credit-snoc p r h = ground (arith, sum_by-snoc (credit_of period r) ps p)

  -- No refund is joined to a new row that is not settled.
  pub refunded-snoc :
      (p : Payment) (rs : List Refund)
      → is_settled p.state ≡ false
      → refunded period (ps ++ p ∷ []) rs ≡ refunded period ps rs
  refunded-snoc p rs h =
      sum_by-eq (credit period (ps ++ p ∷ [])) (credit period ps) rs (λ r. credit-snoc p r h)

  -- A write that raises no charge and lowers no joined credit, row by row.
  abbrev pub Gentle : (Payment → Payment) → Payment → Type 0
  Gentle g p =
      (charge period (g p) ≤ charge period p)
      × ((r : Refund) → credit_of period r p ≤ credit_of period r (g p))

  module _ (c : Payment → Bool) (g : Payment → Payment)
      (h : All (λ p. c p ≡ true → Gentle g p) ps) where
    pub counted-update_le : counted period (update_where c g ps) ≤ counted period ps
    counted-update_le = sum_by-update_le (charge period) c g ps (
        All-mono (λ p. c p ≡ true → Gentle g p)
          (λ p. c p ≡ true → charge period (g p) ≤ charge period p) ps (λ p k e. (k e).0) h)

    credit-update_ge : (r : Refund) → credit period ps r ≤ credit period (update_where c g ps) r
    credit-update_ge r = ground (
      arith,
      sum_by-update_ge (credit_of period r) c g ps (
          All-mono (λ p. c p ≡ true → Gentle g p)
            (λ p. c p ≡ true → credit_of period r p ≤ credit_of period r (g p)) ps
            (λ p k e. (k e).1 r) h),
    )

    pub refunded-update_ge :
        (rs : List Refund) → refunded period ps rs ≤ refunded period (update_where c g ps) rs
    refunded-update_ge rs =
        sum_by_mono (credit period ps) (credit period (update_where c g ps)) rs credit-update_ge

-- In a period that no row names, nothing is counted.
pub counted-fresh :
    (period : ℕ) (ps : List Payment)
    → All (λ p. (p.period_id == period) ≡ false) ps
    → counted period ps ≡ 0
unfolding sum_by
counted-fresh period [] h = refl
counted-fresh period (p ∷ ps) h = ground (arith, h.0, counted-fresh period ps h.1)
