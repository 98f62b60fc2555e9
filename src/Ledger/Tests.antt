-- ===== src/Ledger/Tests.antt =====
-- Concrete runs of the ledger's operations.
use mangrove_agent.Prelude.{ℕ, ◌≡◌, ◌≤◌, ◌*◌, refl, true, false, Option, none, some, [], ◌∷◌, arith}
use mangrove_agent.Prelude.Int.{pos}
use mangrove_agent.Prelude.Text.{Text, codes}
use mangrove_agent.Prelude.Tables.{find_where, sum_by}
use mangrove_agent.Flow.{ok, err, Result, value_error}
use mangrove_agent.Ledger.{Payment, authorized, settled, Refund, pending, Operation, OpState, Db}
use mangrove_agent.Ledger.Amount.{
  Config, Usd, dollars, integer, text, other, cap_micro_usd, coerce_micro_usd,
  max_storable_micro_usd, coerce_micro_usd_bound,
}
use mangrove_agent.Ledger.Spent.{spent_micro_usd, counted, refunded}
use mangrove_agent.Ledger.Budget.{payment_budget}
use mangrove_agent.Ledger.Budget.Bound.{passed_total, passed_total_bound}
use mangrove_agent.Ledger.Reserve.{Env, Request, Agent, nonce_other, reserve_locked}
use mangrove_agent.Ledger.Reserve.Gate.{Accepts, Decides, reserved, reserve-Decides}
use mangrove_agent.Ledger.Settle.{reset}
use mangrove_agent.Ledger.Settle.Undone.{Restores, undone, reserve_undone}
use mangrove_agent.Ledger.Settle.Periods.{reset_reserve}
use mangrove_agent.Ledger.Evidence.{apply_confirmed_refund}
use mangrove_agent.Ledger.Evidence.Once.{refund_once}
use mangrove_agent.Ledger.Operations.{Outcome, abandon_unsigned, complete_operation, finish}
use mangrove_agent.Ledger.Operations.Begin.{begin, absent, identity, new_operation}
use mangrove_agent.Ledger.Operations.Begin.Retries.{begin-begin, complete_begin}
use mangrove_agent.Ledger.Calls.{initial}

abbrev env : Env
env = record {
  config = record { x402_spend_cap_usd = some (dollars 5_000_000) };
  bracketed_is_valid = λ _. true;
  uuid = 7;
  now = 100;
}

abbrev request : ℕ → Request
request amount = record {
  value = integer (pos amount);
  wallet_address = codes "0x00";
  payee = none;
  network = some (codes "eip155:8453");
  resource = none;
  valid_before = other;
  valid_after = other;
  authorization_nonce = nonce_other;
  asset = none;
  operation_id = none;
}

abbrev agent : Agent
agent = record { db = initial; workflow = none }

-- The whole budget at once.
whole-Accepts : Accepts env (request 5_000_000) 5_000_000 initial
unfolding cap_micro_usd spent_micro_usd sum_by find_where
    mangrove_agent.Ledger.Amount.configured_cap_micro_usd
whole-Accepts = record {
  budget = 5_000_000;
  has_budget = refl;
  is_open = refl;
  has_room = omega arith;
  is_fresh = refl;
  may_sign = λ oid h. cc;
}

coerce_micro_usd_bound_example : 5_000_000 ≤ max_storable_micro_usd
unfolding coerce_micro_usd
coerce_micro_usd_bound_example = coerce_micro_usd_bound (text (codes " 5000000")) 5_000_000 refl

-- A text with two signs passes the test on its digits, and `int` then raises.
two_signs : coerce_micro_usd (text (codes "--5")) ≡ err value_error
unfolding coerce_micro_usd
two_signs = refl

reserve-Decides_example : Decides env (request 5_000_000) 5_000_000 initial
unfolding coerce_micro_usd
reserve-Decides_example = reserve-Decides env (request 5_000_000) 5_000_000 initial refl

nothing_back : refunded 1 [] [] ≤ counted 1 []
unfolding sum_by
nothing_back = omega arith

reserve_undone_example :
    Restores initial (undone env (request 5_000_000) 5_000_000 whole-Accepts.budget initial)
reserve_undone_example =
    reserve_undone env (request 5_000_000) 5_000_000 initial whole-Accepts (ground arith)
      nothing_back

abbrev stopped : Db
stopped = record initial { spend = record initial.spend { exhausted = true } }

abbrev renewed_db : Db
renewed_db = record initial {
  spend = record initial.spend {
    period_id = 2;
    period_started_at = some 200;
    period_cap_micro_usd = some 9_000_000;
    updated_at = some 200;
  };
}

reset_reserve_example :
    (renewed_db.payments ≡ stopped.payments)
    × (spent_micro_usd 2 renewed_db ≡ 0)
    × (reserve_locked env (request 6_000_000) 6_000_000 renewed_db
        ≡ (ok 7, reserved env (request 6_000_000) 6_000_000 9_000_000 renewed_db))
unfolding reset cap_micro_usd find_where
reset_reserve_example =
    reset_reserve env (request 6_000_000) 200 6_000_000 9_000_000 (some (dollars 9_000_000)) stopped
      renewed_db tt refl refl (omega arith) refl refl

-- Two payments at the first price pass, and the third is over the limit.
passed_total-prices : passed_total (40_000 ∷ 50_000 ∷ 40_000 ∷ 10 ∷ []) (payment_budget 2) ≡ 80_000
unfolding passed_total
passed_total-prices = refl

passed_total_bound_example :
    passed_total (40_000 ∷ 50_000 ∷ 40_000 ∷ 10 ∷ []) (payment_budget 2) ≤ 2 * 40_000
passed_total_bound_example = passed_total_bound 2 40_000 (50_000 ∷ 40_000 ∷ 10 ∷ [])

abbrev paid : Payment
paid = record {
  id = 7;
  period_id = 1;
  state = settled;
  amount_micro_usd = 40_000;
  wallet_address = codes "0x00";
  payee = none;
  network = some (codes "eip155:8453");
  resource = none;
  transaction_hash = some (codes "0x01");
  valid_before = none;
  valid_after = none;
  authorization_nonce = none;
  asset = none;
  release_reason = none;
  operation_id = some 1;
  created_at = 90;
  updated_at = 95;
}

abbrev watched : Refund
watched = record {
  reservation_id = 7;
  operation_id = 1;
  state = pending;
  refund_tx = none;
  network = some (codes "eip155:8453");
  amount_micro_usd = 40_000;
  recovery_headers = some 5;
  updated_at = 96;
}

abbrev owed : Db
owed = record initial { payments = paid ∷ []; refunds = watched ∷ [] }

abbrev verified : Payment → Result (Option Text)
verified p = ok (some (codes "0x02"))

abbrev credited : Db
credited = (apply_confirmed_refund env true verified 7 owed owed).1

refund_once_example : (apply_confirmed_refund env true verified 7 owed credited).1 ≡ credited
unfolding apply_confirmed_refund native.Mathlib.Decide.ℕ_discrete
refund_once_example = refund_once env env true true verified verified 7 owed owed owed credited refl

-- A recovery that could prove nothing, and one that has closed the attempt.
abbrev unproven : ℕ → Db → Db
unproven oid d = d

abbrev closed : ℕ → Db → Db
closed oid d = abandon_unsigned 11 oid d

abbrev started : Db
started = (begin 10 1 unproven 99 absent initial).1

begin-begin_example :
    begin 11 2 unproven 99 absent started
    ≡ (ok (record { operation = new_operation 10 1 99; created = false }), started)
unfolding begin
begin-begin_example =
    begin-begin 10 1 11 2 99 unproven unproven initial started
      (record { operation = new_operation 10 1 99; created = true }) refl refl

-- A retry whose recovery closes the attempt owns a new one.
begin_closed :
    (begin 11 2 closed 99 absent started).0
    ≡ ok (record { operation = new_operation 11 2 99; created = true })
unfolding begin abandon_unsigned mangrove_agent.Prelude.Tables.update_where
begin_closed = refl

abbrev outcome : Outcome
outcome = record { status = some 200; body_is_error = false; sealed = 5 }

-- The completed operation, with the row that its headers have made, and a later payment.
abbrev later_db : Db
later_db = record (complete_operation 20 1 outcome started) {
  payments = paid ∷ [];
  recoveries =
      record {
        operation_id = 1;
        action_id = 4;
        token = none;
        replacement_allowed = false;
        next_id = none;
      }
      ∷ [];
}

complete_begin_example : begin 30 3 unproven 99 (identity 1) later_db ≡ (
  ok (record { operation = finish 20 outcome (new_operation 10 1 99); created = false }),
  later_db,
)
unfolding begin
complete_begin_example =
    complete_begin 20 30 3 1 unproven outcome started later_db (new_operation 10 1 99) refl refl
      refl refl
