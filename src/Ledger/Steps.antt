-- ===== src/Ledger/Steps.antt =====
-- What a call may do to the ledger, apart from how it does it: the abstract contract of the budget.
-- The calls of server/src/services/spend_service.py, x402_reconciliation.py, refund_service.py and
-- payment_operations.py are shown to be such steps in the modules below; the guarantees are proved
-- of the steps.
pub mod Spending
pub mod Chain
pub mod Requests
use mangrove_agent.Prelude.{
  ℕ, ◌+◌, ◌-◌, ◌≤◌, ◌<◌, ◌≡◌, ◌⊎◌, refl, Bool, true, false, Option, none, some, List, [], ◌∷◌, ◌++◌,
  ltb, leb, ◌==◌, ◌&&◌, if◌then◌else◌, All,
}
use mangrove_agent.Prelude.Tables.{update_where, find_where}
use mangrove_agent.Flow.{ok, err}
use mangrove_agent.Ledger.{Payment, PayState, authorized, settled, released, Refund, SpendState, Db}
use mangrove_agent.Ledger.Amount.{Config, cap_micro_usd}
use mangrove_agent.Ledger.Spent.{counted, refunded}
use mangrove_agent.Ledger.Keys.{Unique, by_id}
use mangrove_agent.Ledger.Unsigned.{live_ids}

-- The budget of the current period; nothing where the configured value is refused.
unfoldable pub budget : Config → SpendState → ℕ
budget cfg s = elim (cap_micro_usd cfg s) [ ok n ↦ n | err e ↦ 0 ]

-- The committed spend of the current period.
abbrev pub spent_now : Db → ℕ
spent_now d = counted d.spend.period_id d.payments - refunded d.spend.period_id d.payments d.refunds

-- An open row is closed, and keeps what it says of the authorization.
pub record Closes (p q : Payment) : Type 0 where
  pub was_open : p.state ≡ authorized
  pub closed : (q.state ≡ settled) ⊎ (q.state ≡ released)
  pub same_id : q.id ≡ p.id
  pub same_period : q.period_id ≡ p.period_id
  pub same_amount : q.amount_micro_usd ≡ p.amount_micro_usd
  pub same_wallet : q.wallet_address ≡ p.wallet_address
  pub same_payee : q.payee ≡ p.payee
  pub same_nonce : q.authorization_nonce ≡ p.authorization_nonce
  pub same_operation : q.operation_id ≡ p.operation_id

-- The period goes on: its cap stands, and a stop is lifted only below the budget.
pub record Keeps (cfg : Config) (d e : Db) : Type 0 where
  pub same_period : e.spend.period_id ≡ d.spend.period_id
  pub same_cap : e.spend.period_cap_micro_usd ≡ d.spend.period_cap_micro_usd
  pub stop :
      (e.spend.exhausted ≡ d.spend.exhausted)
      ⊎ ((e.spend.exhausted ≡ false) × (spent_now e < budget cfg e.spend))

-- The row that a reservation adds, and the room that it was given.
pub record Fits (cfg : Config) (d : Db) (p : Payment) : Type 0 where
  pub state : p.state ≡ authorized
  pub period : p.period_id ≡ d.spend.period_id
  pub open_budget : d.spend.exhausted ≡ false
  pub room : spent_now d + p.amount_micro_usd ≤ budget cfg d.spend
  pub fresh : find_where (by_id p.id) d.payments ≡ none
  pub unsigned : (oid : ℕ) → p.operation_id ≡ some oid → live_ids oid d ≡ []

-- The latch after a reservation: set exactly when the budget is full.
abbrev pub full : ℕ → ℕ → Bool
full cap spent = leb cap spent && ltb 0 spent

-- A call that adds no authorization.
pub data Quiet (cfg : Config) (d e : Db) : Type 0 where
  -- Nothing that the budget reads.
  stays : e.payments ≡ d.payments → e.refunds ≡ d.refunds → e.spend ≡ d.spend → Quiet cfg d e
  -- Open rows are settled or released.
  closes :
      (c : Payment → Bool) (g : Payment → Payment)
      → All (λ p. c p ≡ true → Closes p (g p)) d.payments
      → e.payments ≡ update_where c g d.payments
      → e.refunds ≡ d.refunds
      → Keeps cfg d e
      → Quiet cfg d e
  -- Refunds are watched or confirmed.
  credits :
      e.payments ≡ d.payments
      → ((period : ℕ) → refunded period d.payments d.refunds ≤ refunded period d.payments e.refunds)
      → Keeps cfg d e
      → Quiet cfg d e
  -- A human starts the next period.
  renews :
      e.payments ≡ d.payments
      → e.refunds ≡ d.refunds
      → e.spend.period_id ≡ d.spend.period_id + 1
      → e.spend.exhausted ≡ false
      → Quiet cfg d e

pub data Step (cfg : Config) (d e : Db) : Type 0 where
  quiet : Quiet cfg d e → Step cfg d e
  -- One more authorization.
  authorizes :
      (p : Payment)
      → Fits cfg d p
      → e.payments ≡ d.payments ++ p ∷ []
      → e.refunds ≡ d.refunds
      → e.spend.period_id ≡ d.spend.period_id
      → e.spend.period_cap_micro_usd ≡ d.spend.period_cap_micro_usd
      → e.spend.exhausted ≡ full (budget cfg d.spend) (spent_now d + p.amount_micro_usd)
      → Step cfg d e
