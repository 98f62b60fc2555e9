-- ===== src/Ledger/Settle/Periods.antt =====
-- `reset` of server/src/services/spend_service.py: a human starts the next period.
use mangrove_agent.Prelude.{ℕ, ◌+◌, ◌≤◌, ◌≡◌, inl, inr, false, Option, none, arith, ◌==◌, All}
use mangrove_agent.Prelude.Tables.{All-mono}
use mangrove_agent.Flow.{ok, Result-cases}
use mangrove_agent.Ledger.{Db}
use mangrove_agent.Ledger.Amount.{Usd, cap_micro_usd}
use mangrove_agent.Ledger.Spent.{spent_micro_usd, counted-fresh}
use mangrove_agent.Ledger.Reserve.{Env, Request, reserve_locked, has_id}
use mangrove_agent.Ledger.Reserve.Gate.{reserved, returned_of_accepts}
use mangrove_agent.Ledger.Settle.{reset, reset_locked, next_cap}

module _ (now : ℕ) (cap : Option Usd) (d : Db) where
  -- What a reset that returns has done.
  record IsRenewed (e : Db) : Type 0 where
    next_period : e.spend.period_id ≡ d.spend.period_id + 1
    is_open : e.spend.exhausted ≡ false
    same_payments : e.payments ≡ d.payments
    same_refunds : e.refunds ≡ d.refunds
    cap_agreed : next_cap cap d.spend.period_cap_micro_usd ≡ ok e.spend.period_cap_micro_usd

  renewed : (e : Db) → reset now cap d ≡ (ok tt, e) → IsRenewed e
  unfolding reset reset_locked
  renewed e h = elim (Result-cases (next_cap cap d.spend.period_cap_micro_usd)) [
    | inl (c, k) ↦
        let h' = rw k at h in
        record {
          next_period = ground (arith, h');
          is_open = ground (arith, h');
          same_payments = ground (arith, h');
          same_refunds = ground (arith, h');
          cap_agreed = ground (arith, h', k);
        }
    | inr (x, k) ↦ ground (arith, rw k at h)
  ]

  spent-renewed :
      (e : Db)
      → IsRenewed e
      → All (λ p. p.period_id ≤ d.spend.period_id) d.payments
      → spent_micro_usd e.spend.period_id e ≡ 0
  unfolding spent_micro_usd
  spent-renewed e k st =
      rw
        (
          k.next_period,
          k.same_payments,
          counted-fresh (d.spend.period_id + 1) d.payments (
              All-mono (λ p. p.period_id ≤ d.spend.period_id)
                (λ p. (p.period_id == d.spend.period_id + 1) ≡ false) d.payments
                (λ p h. ground arith) st),
        )
        (omega arith)

-- Of a ledger in which no row is stamped with a period to come, a reset that returns keeps every
-- payment, starts a period in which nothing is spent, even if the budget was stopped, and a
-- reservation that names no operation, of an amount within the new budget and with a new id, is
-- accepted at once.
pub reset_reserve :
    (env : Env) (r : Request) (now amount budget : ℕ) (cap : Option Usd) (d e : Db)
    → All (λ p. p.period_id ≤ d.spend.period_id) d.payments
    → reset now cap d ≡ (ok tt, e)
    → cap_micro_usd env.config e.spend ≡ ok budget
    → amount ≤ budget
    → has_id env.uuid d ≡ false
    → r.operation_id ≡ none
    → (e.payments ≡ d.payments)
      × (spent_micro_usd e.spend.period_id e ≡ 0)
      × (reserve_locked env r amount e ≡ (ok env.uuid, reserved env r amount budget e))
reset_reserve env r now amount budget cap d e st h c room fresh free =
    let k = renewed now cap d e h in
    let zero = spent-renewed now cap d e k st in
    (
      k.same_payments,
      zero,
      returned_of_accepts env r amount e (record {
        budget = budget;
        has_budget = c;
        is_open = k.is_open;
        has_room = omega (arith, zero, room);
        is_fresh = rw k.same_payments fresh;
        may_sign = λ oid x. ground (arith, free, x);
      }),
    )
