-- ===== src/Ledger/Calls/Guarantees.antt =====
-- The guarantees of the spend ledger over every run of calls.
use mangrove_agent.Prelude.{ℕ, ◌≤◌, ◌<◌, ◌≡◌, inl, inr, refl, true, Option, List, [], ◌∷◌, arith}
use mangrove_agent.Prelude.Tables.{sum_by}
use mangrove_agent.Flow.{Result, ok, err, Result-cases, bind_result, atomic}
use mangrove_agent.Ledger.{Db}
use mangrove_agent.Ledger.Amount.{Config, coerce_micro_usd}
use mangrove_agent.Ledger.Keys.{Unique}
use mangrove_agent.Ledger.Budget.{PaymentBudget}
use mangrove_agent.Ledger.Reserve.{Env, Request, Agent, reserve, reserve_locked, on_workflow, on_db}
use mangrove_agent.Ledger.Steps.{Step, quiet, stays, budget, spent_now}
use mangrove_agent.Ledger.Steps.Spending.{
  settle-Quiet, reconcile-Quiet, release-Quiet, release_unsigned-Quiet, reset-Quiet,
  reserve_locked-Step,
}
use mangrove_agent.Ledger.Steps.Chain.{
  reconcile_authorization-Quiet, reconcile_unspendable-Quiet, apply_confirmed_refund-Quiet,
}
use mangrove_agent.Ledger.Steps.Requests.{
  begin_locked-Quiet, save_headers-Quiet, complete_operation-Quiet, abandon_unsigned-Quiet,
  record_replacement_permission-Quiet,
}
use mangrove_agent.Ledger.Safety.{
  IsWithin, IsStamped, IsLatched, IsSingle, Step-IsWithin, Step-IsStamped, Step-IsLatched,
  Step-IsSingle, Step-Unique,
}
use mangrove_agent.Ledger.Safety.Facts.{live_count}
use mangrove_agent.Ledger.Safety.Unsigned.{IsUnsigned, Quiet-IsUnsigned, failed}
use mangrove_agent.Ledger.Safety.Marking.{
  settle-Marks, reconcile-Marks, release-Marks, release_unsigned-Marks, reset-Marks,
  save_headers-Marks, complete_operation-Marks, abandon_unsigned-Marks,
  record_replacement_permission-Marks,
}
use mangrove_agent.Ledger.Safety.Proving.{
  reconcile_authorization-Marks, reconcile_unspendable-Marks, apply_confirmed_refund-Marks,
}
use mangrove_agent.Ledger.Safety.Starting.{begin_locked-Marks, reserve-IsUnsigned}
use mangrove_agent.Ledger.Calls.{
  Call, reserves, settles, reconciles, releases, releases_unsigned, resets, inspects, rejects,
  refunds, begins, saves_headers, completes, abandons, permits, using, apply, run, initial,
}

pub record IsSound (cfg : Config) (d : Db) : Type 0 where
  pub unique : Unique d.payments
  pub stamped : IsStamped d
  pub within : IsWithin cfg d
  pub latched : IsLatched cfg d
  pub single : IsSingle d
  pub unsigned : IsUnsigned d

reserve-Step : (env : Env) (r : Request) (a : Agent) → Step env.config a.db (reserve env r a).1.db
unfolding reserve
reserve-Step env r a = elim (Result-cases (coerce_micro_usd r.value)) [
  | inr (x, e) ↦ rw e (quiet (stays refl refl refl))
  | inl (n, e) ↦ rw e (go n (on_workflow a.workflow n))
]
  where
    go :
        (n : ℕ) (w : Result (Unit {0}) × Option PaymentBudget)
        → Step env.config a.db
            (bind_result
              (w.0, record a { workflow = w.1 })
              (λ _. on_db (atomic (reserve_locked env r n)))).1.db
    go n (ok x, w) = reserve_locked-Step env r n a.db
    go n (err x, w) = quiet (stays refl refl refl)

-- Each call is a step of the contract.
pub apply-Step : (cfg : Config) (c : Call) (d : Db) → Unique d.payments → Step cfg d (apply cfg c d)
unfolding apply
apply-Step cfg (reserves env r w) d u =
    reserve-Step (using cfg env) r (record { db = d; workflow = w })
apply-Step cfg (settles env ids tx resource) d u =
    quiet (settle-Quiet (using cfg env) ids tx resource d)
apply-Step cfg (reconciles env ids receipt resource) d u =
    quiet (reconcile-Quiet (using cfg env) ids receipt resource d)
apply-Step cfg (releases now ids why) d u = quiet (release-Quiet cfg now ids why d)
apply-Step cfg (releases_unsigned env id) d u = quiet (release_unsigned-Quiet (using cfg env) id d)
apply-Step cfg (resets env cap_usd) d u = quiet (reset-Quiet (using cfg env) cap_usd d)
apply-Step cfg (inspects env inspect id before) d u =
    quiet (reconcile_authorization-Quiet (using cfg env) inspect id before d u)
apply-Step cfg (rejects env prove id before) d u =
    quiet (reconcile_unspendable-Quiet (using cfg env) prove id before d u)
apply-Step cfg (refunds env b verify id before) d u =
    quiet (apply_confirmed_refund-Quiet (using cfg env) b verify id before d)
apply-Step cfg (begins now uuid digest oid) d u =
    quiet (begin_locked-Quiet cfg now uuid digest oid d)
apply-Step cfg (saves_headers now oid headers) d u =
    quiet (save_headers-Quiet cfg now oid headers d)
apply-Step cfg (completes now oid r) d u = quiet (complete_operation-Quiet cfg now oid r d)
apply-Step cfg (abandons now oid) d u = quiet (abandon_unsigned-Quiet cfg now oid d)
apply-Step cfg (permits oid token allowed) d u =
    quiet (record_replacement_permission-Quiet cfg oid token allowed d)

apply-IsUnsigned :
    (cfg : Config) (c : Call) (d : Db)
    → Unique d.payments
    → IsUnsigned d
    → IsUnsigned (apply cfg c d)
unfolding apply
apply-IsUnsigned cfg (reserves env r w) d u h =
    reserve-IsUnsigned (using cfg env) r (record { db = d; workflow = w }) h
apply-IsUnsigned cfg (settles env ids tx resource) d u h =
    Quiet-IsUnsigned cfg d _ (settle-Quiet (using cfg env) ids tx resource d)
      (settle-Marks (using cfg env) ids tx resource d) h
apply-IsUnsigned cfg (reconciles env ids receipt resource) d u h =
    Quiet-IsUnsigned cfg d _ (reconcile-Quiet (using cfg env) ids receipt resource d)
      (reconcile-Marks (using cfg env) ids receipt resource d) h
apply-IsUnsigned cfg (releases now ids why) d u h =
    Quiet-IsUnsigned cfg d _ (release-Quiet cfg now ids why d) (release-Marks now ids why d) h
apply-IsUnsigned cfg (releases_unsigned env id) d u h =
    Quiet-IsUnsigned cfg d _ (release_unsigned-Quiet (using cfg env) id d)
      (release_unsigned-Marks (using cfg env) id d) h
apply-IsUnsigned cfg (resets env cap_usd) d u h =
    Quiet-IsUnsigned cfg d _ (reset-Quiet (using cfg env) cap_usd d) (reset-Marks env.now cap_usd d)
      h
apply-IsUnsigned cfg (inspects env inspect id before) d u h =
    Quiet-IsUnsigned cfg d _ (reconcile_authorization-Quiet (using cfg env) inspect id before d u)
      (reconcile_authorization-Marks (using cfg env) inspect id before d) h
apply-IsUnsigned cfg (rejects env prove id before) d u h =
    Quiet-IsUnsigned cfg d _ (reconcile_unspendable-Quiet (using cfg env) prove id before d u)
      (reconcile_unspendable-Marks (using cfg env) prove id before d) h
apply-IsUnsigned cfg (refunds env b verify id before) d u h =
    Quiet-IsUnsigned cfg d _ (apply_confirmed_refund-Quiet (using cfg env) b verify id before d)
      (apply_confirmed_refund-Marks (using cfg env) b verify id before d) h
apply-IsUnsigned cfg (begins now uuid digest oid) d u h =
    Quiet-IsUnsigned cfg d _ (begin_locked-Quiet cfg now uuid digest oid d)
      (begin_locked-Marks now uuid digest oid d) h
apply-IsUnsigned cfg (saves_headers now oid headers) d u h =
    Quiet-IsUnsigned cfg d _ (save_headers-Quiet cfg now oid headers d)
      (save_headers-Marks now oid headers d) h
apply-IsUnsigned cfg (completes now oid r) d u h =
    Quiet-IsUnsigned cfg d _ (complete_operation-Quiet cfg now oid r d)
      (complete_operation-Marks now oid r d) h
apply-IsUnsigned cfg (abandons now oid) d u h =
    Quiet-IsUnsigned cfg d _ (abandon_unsigned-Quiet cfg now oid d)
      (abandon_unsigned-Marks now oid d) h
apply-IsUnsigned cfg (permits oid token allowed) d u h =
    Quiet-IsUnsigned cfg d _ (record_replacement_permission-Quiet cfg oid token allowed d)
      (record_replacement_permission-Marks oid token allowed d) h

apply-IsSound : (cfg : Config) (c : Call) (d : Db) → IsSound cfg d → IsSound cfg (apply cfg c d)
apply-IsSound cfg c d s =
    let k = apply-Step cfg c d s.unique in
    record {
      unique = Step-Unique cfg d (apply cfg c d) k s.unique;
      stamped = Step-IsStamped cfg d (apply cfg c d) k s.stamped;
      within = Step-IsWithin cfg d (apply cfg c d) k s.stamped s.within;
      latched = Step-IsLatched cfg d (apply cfg c d) k s.stamped s.latched;
      single = Step-IsSingle cfg d (apply cfg c d) k s.single;
      unsigned = apply-IsUnsigned cfg c d s.unique s.unsigned;
    }

-- Every run keeps the invariant of the ledger.
pub run-IsSound :
    (cfg : Config) (cs : List Call) (d : Db) → IsSound cfg d → IsSound cfg (run cfg cs d)
unfolding run
run-IsSound cfg [] d s = s
run-IsSound cfg (c ∷ cs) d s = run-IsSound cfg cs (apply cfg c d) (apply-IsSound cfg c d s)

-- The ledger of the migrations satisfies it.
pub initial-IsSound : (cfg : Config) → IsSound cfg initial
unfolding sum_by
initial-IsSound cfg = record {
  unique = ground arith;
  stamped = tt;
  within = ground arith;
  latched = λ m n. ground arith;
  single = λ oid. ground arith;
  unsigned = λ oid f. refl;
}

-- In a run of the calls from the ledger that the migrations create, whatever the order, the arguments
-- and the results of the signers, servers and chains, the authorizations of the current period that
-- are not released add up to at most the budget plus what is confirmed as paid back.
pub run-IsWithin_budget : (cfg : Config) (cs : List Call) → IsWithin cfg (run cfg cs initial)
run-IsWithin_budget cfg cs = (run-IsSound cfg cs initial (initial-IsSound cfg)).within

-- In such a run a ledger whose budget is used up, by some spend, refuses the next reservation: it is
-- marked exhausted.
pub run_full_is_stopped :
    (cfg : Config) (cs : List Call)
    → budget cfg (run cfg cs initial).spend ≤ spent_now (run cfg cs initial)
    → 0 < spent_now (run cfg cs initial)
    → (run cfg cs initial).spend.exhausted ≡ true
run_full_is_stopped cfg cs = (run-IsSound cfg cs initial (initial-IsSound cfg)).latched

-- In such a run no operation has two reservations that are not released, so that a retry or a
-- concurrent worker of the same request cannot authorize a second payment.
pub run_pays_once :
    (cfg : Config) (cs : List Call) (oid : ℕ) → live_count oid (run cfg cs initial).payments ≤ 1
run_pays_once cfg cs oid = (run-IsSound cfg cs initial (initial-IsSound cfg)).single oid

-- In such a run an operation that is marked `unsigned_failed`, so that a retry may start it again, has
-- no reservation that is not released: no authorization of it can still be spent.
pub run-failed_is_unsigned :
    (cfg : Config) (cs : List Call) (oid : ℕ)
    → failed oid (run cfg cs initial) ≡ true
    → live_count oid (run cfg cs initial).payments ≡ 0
run-failed_is_unsigned cfg cs = (run-IsSound cfg cs initial (initial-IsSound cfg)).unsigned
