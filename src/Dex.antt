-- ===== src/Dex.antt =====
-- The journal of the swaps that the agent signs and broadcasts itself: `dex_orders` and
-- `dex_holdings` of server/src/shared/db/migrations/021_confirmed_execution.sql, and the writes of
-- server/src/services/dex_confirmed.py. Amounts are as in Broker; hashes and identifiers are numbers
-- that are only compared.
pub mod Execute
pub mod Fills
use mangrove_agent.Prelude.{
  ℕ, Bool, true, false, not, ◌&&◌, ◌||◌, Option, none, some, List, [], ◌∷◌, ◌==◌, if◌then◌else◌,
}
use mangrove_agent.Flow.{Result, ok, err, sdk_error}
use mangrove_agent.Strategy.{Status, live, status_eq}
use mangrove_agent.Broker.{OrderIntent, IntentAction, enter, exit, IntentKey, StrategyRow}

pub data DexStatus : Type 0 where
  submitting pending uncertain confirmed fee_only failed : DexStatus

-- `PENDING`
abbrev pub is_unresolved : DexStatus → Bool
is_unresolved submitting = true
is_unresolved pending = true
is_unresolved uncertain = true
is_unresolved confirmed = false
is_unresolved fee_only = false
is_unresolved failed = false

-- `context_json`, less the addresses and decimals of the tokens.
pub record Context : Type 0 where
  pub expected_revision : Option (ℕ × ℕ)
  pub approval_required : Bool
  pub approval_tx_hash : Option ℕ
  pub has_no_native_value : Bool
  pub no_broadcast_confirmed : Bool
  pub financial_complete : Bool

-- A row of `dex_orders`
pub record DexOrder : Type 0 where
  pub id : ℕ
  pub strategy_id : ℕ
  pub intent_key : IntentKey
  pub intent : OrderIntent
  pub context : Context
  pub status : DexStatus
  pub tx_hash : Option ℕ

abbrev pub new_status : DexStatus → Option DexStatus → DexStatus
new_status confirmed s = confirmed
new_status submitting (some s) = s
new_status pending (some s) = s
new_status uncertain (some s) = s
new_status fee_only (some s) = s
new_status failed (some s) = s
new_status submitting none = submitting
new_status pending none = pending
new_status uncertain none = uncertain
new_status fee_only none = fee_only
new_status failed none = failed

abbrev pub coalesce_hash : Option ℕ → Option ℕ → Option ℕ
coalesce_hash none old = old
coalesce_hash (some h) old = some h

-- `update`, on the row that it writes
abbrev pub updated : (Context → Context) → Option DexStatus → Option ℕ → DexOrder → DexOrder
updated f status tx_hash o = record o {
  context = f o.context;
  status = new_status o.status status;
  tx_hash = coalesce_hash tx_hash o.tx_hash;
}

-- What the database holds of the strategy when an entry is authorized, and whether the portfolio
-- check allows entries then.
pub record Seen : Type 0 where
  pub row : StrategyRow
  pub portfolio_allows : Bool

abbrev is_expected : Option (ℕ × ℕ) → StrategyRow → Bool
is_expected none s = false
is_expected (some (e, b)) s = s.execution_revision == e && s.book_revision == b

-- `_authorize_entry`
abbrev pub authorize_entry : IntentAction → Option (ℕ × ℕ) → Seen → Result (Unit {0})
authorize_entry exit expected seen = ok tt
authorize_entry enter expected seen =
    if status_eq seen.row.status live && is_expected expected seen.row && seen.portfolio_allows
    then ok tt
    else err sdk_error
