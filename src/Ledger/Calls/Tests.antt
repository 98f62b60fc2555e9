-- ===== src/Ledger/Calls/Tests.antt =====
-- Concrete runs of the ledger's calls.
use native.Mathlib.Nat.{le_refl}
use mangrove_agent.Prelude.{
  ℕ, ◌≡◌, ◌≤◌, ◌<◌, refl, subst, sym, true, false, Option, none, some, List, [], ◌∷◌, arith,
}
use mangrove_agent.Prelude.Int.{pos}
use mangrove_agent.Prelude.Text.{codes}
use mangrove_agent.Ledger.{Payment, settled, Db}
use mangrove_agent.Ledger.Amount.{Config, dollars, integer, other}
use mangrove_agent.Ledger.Reserve.{Env, Request, nonce_other}
use mangrove_agent.Ledger.Settle.{one}
use mangrove_agent.Ledger.Steps.{budget, spent_now}
use mangrove_agent.Ledger.Safety.{IsWithin}
use mangrove_agent.Ledger.Safety.Facts.{live_count}
use mangrove_agent.Ledger.Calls.{
  Call, begins, reserves, releases_unsigned, settles, abandons, run, initial,
}
use mangrove_agent.Ledger.Calls.Guarantees.{
  run-IsWithin_budget, run_full_is_stopped, run_pays_once, run-failed_is_unsigned,
}

-- A budget of 5 USD.
abbrev config : Config
config = record { x402_spend_cap_usd = some (dollars 5_000_000) }

abbrev env : ℕ → Env
env uuid = record { config = config; bracketed_is_valid = λ _. true; uuid = uuid; now = 100 }

abbrev request : ℕ → Option ℕ → Request
request amount operation = record {
  value = integer (pos amount);
  wallet_address = codes "0x00";
  payee = none;
  network = none;
  resource = none;
  valid_before = other;
  valid_after = other;
  authorization_nonce = nonce_other;
  asset = none;
  operation_id = operation;
}

-- An operation pays 3 USD, a second reservation for it is refused, and 2 USD more fill the budget.
abbrev spending : List Call
spending =
    begins 10 1 99 none
    ∷ reserves (env 7) (request 3_000_000 (some 1)) none
    ∷ reserves (env 8) (request 1 (some 1)) none
    ∷ settles (env 0) (one 7) none none
    ∷ reserves (env 9) (request 2_000_000 none) none
    ∷ reserves (env 11) (request 1 none) none
    ∷ []

abbrev abandoning : List Call
abandoning =
    begins 10 1 99 none
    ∷ reserves (env 7) (request 3_000_000 (some 1)) none
    ∷ releases_unsigned (env 0) 7
    ∷ abandons 20 1
    ∷ []

spent-spending : spent_now (run config spending initial) ≡ 5_000_000
unfolding run mangrove_agent.Prelude.Tables.sum_by mangrove_agent.Ledger.Reserve.reserve
    mangrove_agent.Ledger.Amount.coerce_micro_usd mangrove_agent.Ledger.Amount.cap_micro_usd
    mangrove_agent.Ledger.Settle.settle mangrove_agent.Ledger.Operations.Begin.begin_locked
    mangrove_agent.Ledger.Operations.Begin.find_pending
    mangrove_agent.Ledger.Amount.configured_cap_micro_usd
    mangrove_agent.Ledger.Spent.spent_micro_usd
spent-spending = refl

run-IsWithin_budget_example : IsWithin config (run config spending initial)
run-IsWithin_budget_example = run-IsWithin_budget config spending

full_now :
    budget config (run config spending initial).spend ≤ spent_now (run config spending initial)
unfolding budget mangrove_agent.Prelude.Tables.sum_by mangrove_agent.Ledger.Amount.cap_micro_usd run
    mangrove_agent.Ledger.Reserve.reserve mangrove_agent.Ledger.Amount.coerce_micro_usd
    mangrove_agent.Ledger.Settle.settle mangrove_agent.Ledger.Operations.Begin.begin_locked
    mangrove_agent.Ledger.Operations.Begin.find_pending
    mangrove_agent.Ledger.Amount.configured_cap_micro_usd
    mangrove_agent.Ledger.Spent.spent_micro_usd
full_now = le_refl 5_000_000

some_now : 0 < spent_now (run config spending initial)
some_now = subst (λ n. 0 < n) (sym spent-spending) (ground arith)

run_full_is_stopped_example : (run config spending initial).spend.exhausted ≡ true
run_full_is_stopped_example = run_full_is_stopped config spending full_now some_now

run_pays_once_example : live_count 1 (run config spending initial).payments ≤ 1
run_pays_once_example = run_pays_once config spending 1

run-failed_is_unsigned_example : live_count 1 (run config abandoning initial).payments ≡ 0
unfolding run mangrove_agent.Ledger.Unsigned.find_operation
    mangrove_agent.Ledger.Operations.abandon_unsigned mangrove_agent.Ledger.Settle.release_unsigned
    mangrove_agent.Ledger.Reserve.reserve mangrove_agent.Ledger.Amount.coerce_micro_usd
    mangrove_agent.Ledger.Operations.Begin.begin_locked
    mangrove_agent.Ledger.Operations.Begin.find_pending mangrove_agent.Ledger.Amount.cap_micro_usd
    mangrove_agent.Ledger.Amount.configured_cap_micro_usd
    mangrove_agent.Ledger.Spent.spent_micro_usd mangrove_agent.Prelude.Tables.sum_by
    mangrove_agent.Prelude.Tables.update_where
run-failed_is_unsigned_example = run-failed_is_unsigned config abandoning 1 refl
