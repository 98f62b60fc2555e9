-- ===== src/Ledger/Reserve/Gate.antt =====
-- What the gate of server/src/services/spend_service.py lets through, and what a refusal leaves.
use mangrove_agent.Prelude.{
  ℕ, ◌+◌, ◌≤◌, ◌≡◌, ◌⊎◌, inl, inr, refl, true, false, Option, none, some, [], ◌∷◌, ◌++◌, arith,
  Option-cases,
}
use mangrove_agent.Flow.{Result, ok, err, Error, Result-cases, bind_result, atomic}
use mangrove_agent.Ledger.{Db, Operation, is_pending}
use mangrove_agent.Ledger.Amount.{coerce_micro_usd, cap_micro_usd}
use mangrove_agent.Ledger.Spent.{spent_micro_usd}
use mangrove_agent.Ledger.Budget.{PaymentBudget}
use mangrove_agent.Ledger.Unsigned.{live_ids, find_operation, require_unsigned}
use mangrove_agent.Ledger.Reserve.{
  Env, Request, Agent, reserve, reserve_locked, payment_row, on_workflow, on_db, has_id,
  latch_when_full,
}

-- The operation is open, and nothing may have been signed for it.
abbrev pub MaySign : ℕ → Db → Type 0
MaySign oid d =
    ((o : Operation) × (find_operation oid d ≡ some o) × (is_pending o.state ≡ true))
    × (live_ids oid d ≡ [])

-- What the documentation of `reserve` asks for.
pub record Accepts (env : Env) (r : Request) (amount : ℕ) (d : Db) : Type 0 where
  pub budget : ℕ
  pub has_budget : cap_micro_usd env.config d.spend ≡ ok budget
  pub is_open : d.spend.exhausted ≡ false
  pub has_room : spent_micro_usd d.spend.period_id d + amount ≤ budget
  pub is_fresh : has_id env.uuid d ≡ false
  pub may_sign : (oid : ℕ) → r.operation_id ≡ some oid → MaySign oid d

MaySign-of : (oid : ℕ) (d : Db) (e : Db) → require_unsigned oid d ≡ (ok tt, e) → MaySign oid d
unfolding require_unsigned
MaySign-of oid d e h = elim (Option-cases (find_operation oid d)) [
  | inl k ↦ ground arith
  | inr (o, k) ↦ ((o, k, ground arith), ground arith)
]

pub accepts_of_returned :
    (env : Env) (r : Request) (amount a : ℕ) (d e : Db)
    → reserve_locked env r amount d ≡ (ok a, e)
    → Accepts env r amount d
unfolding reserve_locked
accepts_of_returned env r amount a d e h = elim (Result-cases (cap_micro_usd env.config d.spend)) [
  | inl (cap, c) ↦ record {
    budget = cap;
    has_budget = c;
    is_open = ground arith;
    has_room = ground arith;
    is_fresh = ground arith;
    may_sign = λ oid k. MaySign-of oid d d (ground (arith, require_unsigned));
  }
  | inr (x, c) ↦ ground arith
]

-- The row is added, and the budget is stopped when it is full.
abbrev pub reserved : Env → Request → ℕ → ℕ → Db → Db
reserved env r amount budget d =
    latch_when_full env.now d.spend.period_id (spent_micro_usd d.spend.period_id d + amount) budget
      (record d { payments = d.payments ++ payment_row env r amount d.spend ∷ [] })

pub returned_of_accepts :
    (env : Env) (r : Request) (amount : ℕ) (d : Db) (k : Accepts env r amount d)
    → reserve_locked env r amount d ≡ (ok env.uuid, reserved env r amount k.budget d)
unfolding reserve_locked
returned_of_accepts env r amount d k = go r.operation_id refl
  where
    rest :
        r.operation_id ≡ none
        → reserve_locked env r amount d ≡ (ok env.uuid, reserved env r amount k.budget d)
    rest h = rw (h, k.has_budget, k.is_open) (ground (arith, k.has_room, k.is_fresh))

    go :
        (o : Option ℕ)
        → r.operation_id ≡ o
        → reserve_locked env r amount d ≡ (ok env.uuid, reserved env r amount k.budget d)
    go none h = rest h
    go (some oid) h =
        let ((o, found, is_pend), nothing) = k.may_sign oid h in
        rw (h, require_unsigned, found, is_pend, nothing, k.has_budget, k.is_open)
          (ground (arith, k.has_room, k.is_fresh))

pub locked_decides :
    (env : Env) (r : Request) (amount : ℕ) (d : Db) (out : Result ℕ × Db)
    → reserve_locked env r amount d ≡ out
    → ((k : Accepts env r amount d) × (atomic (reserve_locked env r amount) d
          ≡ (ok env.uuid, reserved env r amount k.budget d)))
      ⊎ (¬ Accepts env r amount d
          × ((x : Error) × (atomic (reserve_locked env r amount) d ≡ (err x, d))))
locked_decides env r amount d (ok a, e) h =
    let k = accepts_of_returned env r amount a d e h in
    inl (k, rw (returned_of_accepts env r amount d k) refl)
locked_decides env r amount d (err x, e) h =
    inr (λ k. ground (arith, returned_of_accepts env r amount d k), (x, rw h refl))

-- Accepted, with the one row added; or refused, with nothing written.
abbrev pub Decides : Env → Request → ℕ → Db → Type 0
Decides env r amount d =
    ((k : Accepts env r amount d) × (reserve env r (record { db = d; workflow = none })
        ≡ (ok env.uuid, record { db = reserved env r amount k.budget d; workflow = none })))
    ⊎ (¬ Accepts env r amount d
        × ((x : Error) × (reserve env r (record { db = d; workflow = none })
              ≡ (err x, record { db = d; workflow = none }))))

-- For a request outside a workflow whose value is a readable amount, `reserve` does one of two
-- things. Either the budget of the period can be read, is not stopped and has room for the amount,
-- the id is new, and the operation, if one is named, is pending and has no reservation that is not
-- released; then the id is returned, exactly the one row is added, and the budget is stopped if it
-- is full. Or one of these fails, an error is raised, and the ledger is as it was.
pub reserve-Decides :
    (env : Env) (r : Request) (amount : ℕ) (d : Db)
    → coerce_micro_usd r.value ≡ ok amount
    → Decides env r amount d
unfolding reserve
reserve-Decides env r amount d h =
    elim (locked_decides env r amount d (reserve_locked env r amount d) refl) [
      | inl (k, e) ↦ inl (k, rw (h, e) refl)
      | inr (bad, (x, e)) ↦ inr (bad, (x, rw (h, e) refl))
    ]

-- What any call of `reserve` leaves: the same ledger, or one with an accepted row.
pub reserve-db :
    (env : Env) (r : Request) (a : Agent)
    → ((reserve env r a).1.db ≡ a.db)
      ⊎ ((amount : ℕ) × (k : Accepts env r amount a.db) × ((reserve env r a).1.db
            ≡ reserved env r amount k.budget a.db))
unfolding reserve
reserve-db env r a = elim (Result-cases (coerce_micro_usd r.value)) [
  | inr (y, e) ↦ inl (rw e refl)
  | inl (n, e) ↦ rw e (go n (on_workflow a.workflow n))
]
  where
    go :
        (n : ℕ) (w : Result (Unit {0}) × Option PaymentBudget)
        → ((bind_result
              (w.0, record a { workflow = w.1 })
              (λ _. on_db (atomic (reserve_locked env r n)))).1.db
            ≡ a.db)
          ⊎ ((amount : ℕ) × (k : Accepts env r amount a.db) × ((bind_result
                  (w.0, record a { workflow = w.1 })
                  (λ _. on_db (atomic (reserve_locked env r n)))).1.db
                ≡ reserved env r amount k.budget a.db))
    go n (err y, w) = inl refl
    go n (ok y, w) = elim (locked_decides env r n a.db (reserve_locked env r n a.db) refl) [
      | inl (i, e) ↦ inr (n, i, rw e refl)
      | inr (bad, (y, e)) ↦ inl (rw e refl)
    ]
