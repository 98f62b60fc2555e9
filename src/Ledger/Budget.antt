-- ===== src/Ledger/Budget.antt =====
-- server/src/services/payment_budget.py: the payment bounds of one request.
pub mod Bound
use mangrove_agent.Prelude.{
  ℕ, ◌+◌, ◌≤◌, ◌<◌, ◌≡◌, Bool, false, Option, none, some, arith, ltb, leb, if◌then◌else◌,
}
use mangrove_agent.Flow.{
  Result, ok, err, Action, raise_if, modify, ◌>>◌, spend_cap_exceeded, payment_limit,
  page_price_increased,
}

pub record PaymentBudget : Type 0 where
  pub max_payments : ℕ
  pub payments : ℕ
  pub unit_micro_usd : Option ℕ

-- `PaymentBudget(max_payments)`
abbrev pub payment_budget : ℕ → PaymentBudget
payment_budget n = record { max_payments = n; payments = 0; unit_micro_usd = none }

abbrev exceeds : ℕ → Option ℕ → Bool
exceeds amount none = false
exceeds amount (some unit) = ltb unit amount

abbrev fix_unit : ℕ → Option ℕ → Option ℕ
fix_unit amount none = some amount
fix_unit amount (some unit) = some unit

abbrev count_payment : ℕ → PaymentBudget → PaymentBudget
count_payment amount b = record b {
  payments = b.payments + 1;
  unit_micro_usd = fix_unit amount b.unit_micro_usd;
}

unfoldable pub consume : ℕ → Action PaymentBudget (Unit {0})
consume amount b =
    (raise_if (leb b.max_payments b.payments) (spend_cap_exceeded payment_limit)
        >> raise_if (exceeds amount b.unit_micro_usd) (spend_cap_exceeded page_price_increased)
        >> modify (count_payment amount))
      b
