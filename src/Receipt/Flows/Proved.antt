-- ===== src/Receipt/Flows/Proved.antt =====
-- What a confirmed fill proves: the logs are those of the agent's transaction, and the amounts are
-- the net transfers of the wallet in them.
use mangrove_agent.Prelude.{ℕ, ◌+◌, ◌<◌, ◌≡◌, true, false, some}
use mangrove_agent.Prelude.Int.{pos}
use mangrove_agent.Prelude.Text.{codes}
use mangrove_agent.Flow.{ok}
use mangrove_agent.Wallet.{Value, Values, Fields, items, dict, lookup}
use mangrove_agent.Receipt.{Verified, SignedContext, verify_fee_receipt}
use mangrove_agent.Receipt.Units.{units}
use mangrove_agent.Receipt.Flows.{Tokens, TokenFill}
use mangrove_agent.Receipt.Flows.Net.{transfer_of, got, gave, total, moves_expected}
use mangrove_agent.Receipt.Flows.Scanned.{IsOwn, AllLogs, Scanned}

-- What a fill proves.
pub record IsProved (logs : Values) (f : TokenFill) : Type 0 where
  pub own : AllLogs (IsOwn f.verified) logs
  pub expected :
      AllLogs (λ x. moves_expected f.verified.wallet_address f.tokens (transfer_of x) ≡ true) logs
  pub net_spent :
      f.spent + total (got f.verified.wallet_address f.tokens.input) logs
      ≡ total (gave f.verified.wallet_address f.tokens.input) logs
  pub net_received :
      f.received + total (gave f.verified.wallet_address f.tokens.output) logs
      ≡ total (got f.verified.wallet_address f.tokens.output) logs
  pub spends : 0 < f.spent
  pub receives : 0 < f.received

abbrev fill_of : Verified → Tokens → ℕ → ℕ → ℕ → ℕ → TokenFill
fill_of v k spent received m n = record {
  verified = v;
  tokens = k;
  spent = spent;
  received = received;
  input_amount = units (pos spent) m;
  output_amount = units (pos received) n;
}

-- The logs of the receipt, and what the fill proves of them.
abbrev pub IsProvedBy : Fields → TokenFill → Type 0
IsProvedBy raw f =
    (logs : Values) × ((lookup (codes "logs") raw ≡ some (items logs)) × IsProved logs f)

-- A fill that `verify_erc20_receipt` confirms: the receipt is an object that passed the checks of its
-- identity, the transaction did not revert, and the logs prove the amounts.
pub record IsConfirmedBy (raw : Value) (c : SignedContext) (f : TokenFill) : Type 0 where
  pub fields : Fields
  pub is_object : raw ≡ dict fields
  pub identified : verify_fee_receipt raw c ≡ ok f.verified
  pub succeeded : f.verified.is_reverted ≡ false
  pub proved : IsProvedBy fields f
