-- ===== src/Ledger/Calls.antt =====
-- The calls that write the ledger, in any order: what the threads and processes of the agent do to
-- one database, since each transaction of `_budget_transaction` runs alone. The configuration is
-- that of the running agent.
pub mod Guarantees
mod Tests
use mangrove_agent.Prelude.{ℕ, Bool, false, Option, none, some, List, [], ◌∷◌}
use mangrove_agent.Prelude.Text.{Text}
use mangrove_agent.Flow.{Result}
use mangrove_agent.Ledger.{Payment, Reason, SpendState, Db}
use mangrove_agent.Ledger.Amount.{Config, Usd}
use mangrove_agent.Ledger.Budget.{PaymentBudget}
use mangrove_agent.Ledger.Receipts.{Receipt}
use mangrove_agent.Ledger.Reserve.{Env, Request, Agent, reserve}
use mangrove_agent.Ledger.Settle.{IdArg, settle, reconcile, release, release_unsigned, reset}
use mangrove_agent.Ledger.Evidence.{Finding, reconcile_authorization, apply_confirmed_refund}
use mangrove_agent.Ledger.Evidence.Unspendable.{reconcile_unspendable}
use mangrove_agent.Ledger.Operations.{
  Outcome, save_headers, abandon_unsigned, complete_operation, record_replacement_permission,
}
use mangrove_agent.Ledger.Operations.Begin.{begin_locked}

pub data Call : Type 0 where
  reserves : Env → Request → Option PaymentBudget → Call
  settles : Env → IdArg → Option Text → Option Text → Call
  reconciles : Env → IdArg → Option Receipt → Option Text → Call
  releases : ℕ → IdArg → Reason → Call
  releases_unsigned : Env → ℕ → Call
  resets : Env → Option Usd → Call
  -- the ledger that was read is an argument: other calls may have come between
  inspects : Env → (Payment → Finding) → ℕ → Db → Call
  rejects : Env → (Payment → ℕ → Bool) → ℕ → Db → Call
  refunds : Env → Bool → (Payment → Result (Option Text)) → ℕ → Db → Call
  begins : (now uuid digest : ℕ) → Option ℕ → Call
  saves_headers : (now oid headers : ℕ) → Call
  completes : (now oid : ℕ) → Outcome → Call
  abandons : (now oid : ℕ) → Call
  permits : (oid token : ℕ) → Bool → Call

abbrev pub using : Config → Env → Env
using cfg env = record env { config = cfg }

unfoldable pub apply : Config → Call → Db → Db
apply cfg (reserves env r w) d = (reserve (using cfg env) r (record { db = d; workflow = w })).1.db
apply cfg (settles env ids tx resource) d = settle (using cfg env) ids tx resource d
apply cfg (reconciles env ids receipt resource) d = reconcile (using cfg env) ids receipt resource d
apply cfg (releases now ids why) d = release now ids why d
apply cfg (releases_unsigned env id) d = (release_unsigned (using cfg env) id d).1
apply cfg (resets env cap_usd) d = (reset env.now cap_usd d).1
apply cfg (inspects env inspect id before) d =
    (reconcile_authorization (using cfg env) inspect id before d).1
apply cfg (rejects env prove id before) d =
    (reconcile_unspendable (using cfg env) prove id before d).1
apply cfg (refunds env b verify id before) d =
    (apply_confirmed_refund (using cfg env) b verify id before d).1
apply cfg (begins now uuid digest oid) d = (begin_locked now uuid digest oid d).1
apply cfg (saves_headers now oid headers) d = (save_headers now oid headers d).1
apply cfg (completes now oid r) d = complete_operation now oid r d
apply cfg (abandons now oid) d = abandon_unsigned now oid d
apply cfg (permits oid token allowed) d = record_replacement_permission oid token allowed d

unfoldable pub run : Config → List Call → Db → Db
unfolding apply
run cfg [] d = d
run cfg (c ∷ cs) d = run cfg cs (apply cfg c d)

-- The ledger that the migrations create.
abbrev pub initial : Db
initial = record {
  spend = record {
    period_id = 1;
    period_started_at = some 0;
    period_cap_micro_usd = none;
    exhausted = false;
    exhausted_at = none;
    exhausted_reason = none;
    updated_at = some 0;
  };
  payments = [];
  refunds = [];
  operations = [];
  recoveries = [];
  evidence = [];
}
