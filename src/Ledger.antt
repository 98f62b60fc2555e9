-- ===== src/Ledger.antt =====
-- The x402 payment ledger: the rows of server/src/shared/db/migrations/008_x402_spend.sql to
-- 020_x402_shared_recovery.sql, which server/src/services/spend_service.py,
-- payment_operations.py, refund_service.py and x402_reconciliation.py read and write.
-- Identifiers, hashes and sealed blobs are only compared, so they are numbers, and so are the
-- time stamps, which are ordered as their ISO texts are.
pub mod Keys
pub mod Amount
pub mod Spent
pub mod Budget
pub mod State
pub mod Unsigned
pub mod Reserve
pub mod Receipts
pub mod Settle
pub mod Evidence
pub mod Operations
pub mod Steps
pub mod Safety
pub mod Calls
mod Tests
use mangrove_agent.Prelude.{ℕ, Bool, true, false, Option, none, some, List, [], ◌==◌}
use mangrove_agent.Prelude.Text.{Text}

pub data PayState : Type 0 where
  authorized settled released : PayState

abbrev pub is_authorized : PayState → Bool
is_authorized authorized = true
is_authorized _ = false

abbrev pub is_settled : PayState → Bool
is_settled settled = true
is_settled _ = false

abbrev pub is_released : PayState → Bool
is_released released = true
is_released _ = false

-- Why a row was released, and what a reconciliation found; `stated` is any other text.
pub data Reason : Type 0 where
  signature_refused expired_unused cancelled settled_final unspendable : Reason
  stated : ℕ → Reason

abbrev pub reason_eq : Reason → Reason → Bool
reason_eq signature_refused signature_refused = true
reason_eq expired_unused expired_unused = true
reason_eq cancelled cancelled = true
reason_eq settled_final settled_final = true
reason_eq unspendable unspendable = true
reason_eq (stated a) (stated b) = a == b
reason_eq _ _ = false

-- A row of `x402_payments`.
pub record Payment : Type 0 where
  pub id : ℕ
  pub period_id : ℕ
  pub state : PayState
  pub amount_micro_usd : ℕ
  pub wallet_address : Text
  pub payee : Option Text
  pub network : Option Text
  pub resource : Option Text
  pub transaction_hash : Option Text
  pub valid_before : Option ℕ
  pub valid_after : Option ℕ
  pub authorization_nonce : Option Text
  pub asset : Option Text
  pub release_reason : Option Reason
  pub operation_id : Option ℕ
  pub created_at : ℕ
  pub updated_at : ℕ

-- The figures that `exhausted_reason` prints: spent, cap, number of payments.
pub record Exhaustion : Type 0 where
  pub spent : ℕ
  pub cap : ℕ
  pub count : ℕ

-- The one row of `x402_spend_state`.
pub record SpendState : Type 0 where
  pub period_id : ℕ
  pub period_started_at : Option ℕ
  pub period_cap_micro_usd : Option ℕ
  pub exhausted : Bool
  pub exhausted_at : Option ℕ
  pub exhausted_reason : Option Exhaustion
  pub updated_at : Option ℕ

pub data RefundState : Type 0 where
  pending review confirmed : RefundState

abbrev pub is_confirmed : RefundState → Bool
is_confirmed confirmed = true
is_confirmed _ = false

-- A row of `x402_refunds`, less its retry schedule.
pub record Refund : Type 0 where
  pub reservation_id : ℕ
  pub operation_id : ℕ
  pub state : RefundState
  pub refund_tx : Option Text
  pub network : Option Text
  pub amount_micro_usd : ℕ
  pub recovery_headers : Option ℕ
  pub updated_at : ℕ

pub data OpState : Type 0 where
  pending complete unsigned_failed : OpState

abbrev pub is_pending : OpState → Bool
is_pending OpState.pending = true
is_pending _ = false

abbrev pub is_unsigned_failed : OpState → Bool
is_unsigned_failed unsigned_failed = true
is_unsigned_failed _ = false

-- A row of `x402_operations`.
pub record Operation : Type 0 where
  pub id : ℕ
  pub fingerprint : ℕ
  pub state : OpState
  pub payment_headers : Option ℕ
  pub response : Option ℕ
  pub created_at : ℕ
  pub updated_at : ℕ

-- A row of `x402_recovery_state`.
pub record Recovery : Type 0 where
  pub operation_id : ℕ
  pub action_id : ℕ
  pub token : Option ℕ
  pub replacement_allowed : Bool
  pub next_id : Option ℕ

-- A row of `x402_reconciliation_evidence`: its primary key and outcome.
pub record EvidenceRow : Type 0 where
  pub reservation_id : ℕ
  pub outcome : Reason
  pub recorded_at : ℕ

pub record Db : Type 0 where
  pub spend : SpendState
  pub payments : List Payment
  pub refunds : List Refund
  pub operations : List Operation
  pub recoveries : List Recovery
  pub evidence : List EvidenceRow
