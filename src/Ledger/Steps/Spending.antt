-- ===== src/Ledger/Steps/Spending.antt =====
-- The calls of server/src/services/spend_service.py are steps of the contract.
use mangrove_agent.Prelude.{
  ℕ, ◌<◌, ◌≡◌, inl, inr, refl, Bool, true, Option, none, some, ◌==◌, if◌then◌else◌, All, arith,
  Bool-cases,
}
use mangrove_agent.Prelude.Tables.{find_where, All-intro}
use mangrove_agent.Flow.{ok, atomic, atomic_elim, Result-cases}
use mangrove_agent.Prelude.Text.{Text, is_hex_word}
use mangrove_agent.Ledger.{Payment, SpendState, Db, Reason, signature_refused, is_authorized}
use mangrove_agent.Ledger.Amount.{Config, cap_micro_usd, Usd}
use mangrove_agent.Ledger.Spent.{spent_micro_usd}
use mangrove_agent.Ledger.State.{is_open_row, update_payments, update_state, unlatch}
use mangrove_agent.Ledger.Reserve.{Env, Request, reserve_locked, payment_row}
use mangrove_agent.Ledger.Settle.{
  settle, IdArg, settle_row, release, release_row, release_unsigned, reset, reconcile, last,
  as_id_list, is_listed, settle_last, settle_valid, transaction_of, reconcile_last, reset_locked,
  release_found, release_if_open, reopened,
}
use mangrove_agent.Ledger.Receipts.{Receipt, valid_settlement, satisfies}
use mangrove_agent.Ledger.Steps.{
  Step, quiet, Quiet, stays, authorizes, closes, renews, Closes, Fits, budget, spent_now,
}

stays_same : (cfg : Config) (d : Db) → Quiet cfg d d
stays_same cfg d = stays refl refl refl

-- An update of open rows alone.
pub update-Quiet :
    (cfg : Config) (c : Payment → Bool) (g : Payment → Payment) (d : Db)
    → ((p : Payment) → c p ≡ true → Closes p (g p))
    → Quiet cfg d (update_payments c g d)
update-Quiet cfg c g d h =
    closes c g (All-intro (λ p. c p ≡ true → Closes p (g p)) d.payments h) refl refl
      (record { same_period = refl; same_cap = refl; stop = inl refl })

pub budget-unlatch :
    (cfg : Config) (now : ℕ) (s : SpendState) → budget cfg (unlatch now s) ≡ budget cfg s
unfolding budget cap_micro_usd
budget-unlatch cfg now s = refl

-- The stop may be lifted after an update that has left the spend below the budget.
pub unlatched-Quiet :
    (cfg : Config) (now : ℕ) (c : Payment → Bool) (g : Payment → Payment) (d : Db)
    → All (λ p. c p ≡ true → Closes p (g p)) d.payments
    → spent_now (update_payments c g d) < budget cfg d.spend
    → Quiet cfg d (update_state (unlatch now) (update_payments c g d))
unlatched-Quiet cfg now c g d h below =
    closes c g h refl refl
      (record { same_period = refl; same_cap = refl; stop = inr (refl, rw budget-unlatch below) })

release_row-Closes :
    (now : ℕ) (why : Reason) (p : Payment)
    → is_authorized p.state ≡ true
    → Closes p (release_row now why p)
release_row-Closes now why p h = record {
  was_open = ground arith;
  closed = inr refl;
  same_id = refl;
  same_period = refl;
  same_amount = refl;
  same_wallet = refl;
  same_payee = refl;
  same_nonce = refl;
  same_operation = refl;
}

pub release-Quiet :
    (cfg : Config) (now : ℕ) (ids : IdArg) (why : Reason) (d : Db)
    → Quiet cfg d (release now ids why d)
unfolding release
release-Quiet cfg now ids why d =
    update-Quiet cfg (is_listed (as_id_list ids)) (release_row now why) d
      (λ p h. release_row-Closes now why p (ground arith))

module _ (env : Env) where
  settle_row-Closes :
      (tx resource : Option Text) (id : ℕ) (p : Payment)
      → is_open_row id p ≡ true
      → Closes p (settle_row env tx resource p)
  settle_row-Closes tx resource id p h = record {
    was_open = ground arith;
    closed = inl refl;
    same_id = refl;
    same_period = refl;
    same_amount = refl;
    same_wallet = refl;
    same_payee = refl;
    same_nonce = refl;
    same_operation = refl;
  }

  pub settle-Quiet :
      (ids : IdArg) (tx resource : Option Text) (d : Db)
      → Quiet env.config d (settle env ids tx resource d)
  unfolding settle
  settle-Quiet ids tx resource d = go (last (as_id_list ids)) (satisfies (is_hex_word 64) tx)
    where
      go : (id : Option ℕ) (b : Bool) → Quiet env.config d (settle_last env id tx resource d)
      go none b = stays_same env.config d
      go (some id) b = elim (Bool-cases (satisfies (is_hex_word 64) tx)) [
        | inl e ↦ rw e (
            update-Quiet env.config (is_open_row id) (settle_row env tx resource) d
              (λ p h. settle_row-Closes tx resource id p h))
        | inr e ↦ rw e (stays_same env.config d)
      ]

  pub reconcile-Quiet :
      (ids : IdArg) (receipt : Option Receipt) (resource : Option Text) (d : Db)
      → Quiet env.config d (reconcile env ids receipt resource d)
  unfolding reconcile
  reconcile-Quiet ids receipt resource d = go (last (as_id_list ids))
    where
      found :
          (row : Option Payment) → Quiet env.config d (settle_valid env ids row receipt resource d)
      found none = stays_same env.config d
      found (some row) =
          elim (Bool-cases (valid_settlement receipt (some row.wallet_address) row.network)) [
            | inl e ↦ rw e (settle-Quiet ids (transaction_of receipt) resource d)
            | inr e ↦ rw e (stays_same env.config d)
          ]

      go : (id : Option ℕ) → Quiet env.config d (reconcile_last env ids id receipt resource d)
      go none = stays_same env.config d
      go (some id) = found (find_where (λ p. p.id == id) d.payments)

  pub reset-Quiet : (cap : Option Usd) (d : Db) → Quiet env.config d (reset env.now cap d).1
  unfolding reset reset_locked
  reset-Quiet cap_usd d =
      atomic_elim (Quiet env.config d) (reset_locked env.now cap_usd) d (stays_same env.config d)
        (λ a e h. renews (ground arith) (ground arith) (ground arith) (ground arith))

  release_found-Quiet :
      (id : ℕ) (row : Payment) (d : Db) → Quiet env.config d (atomic (release_found env id row) d).1
  unfolding budget spent_micro_usd
  release_found-Quiet id row d = elim (Result-cases (cap_micro_usd env.config d.spend)) [
    | inl (cap_now, e) ↦ rw e (go cap_now e)
    | inr (x, e) ↦ rw e (stays_same env.config d)
  ]
    where
      closed : Db
      closed = update_payments (is_open_row id) (release_row env.now signature_refused) d

      step : Quiet env.config d closed
      step =
          update-Quiet env.config (is_open_row id) (release_row env.now signature_refused) d
            (λ p k. release_row-Closes env.now signature_refused p (ground arith))

      go :
          (cap_now : ℕ)
          → cap_micro_usd env.config d.spend ≡ ok cap_now
          → Quiet env.config d (
              if reopened cap_now
                (spent_micro_usd d.spend.period_id d)
                row
                d.spend
                d.spend.period_id
                closed
              then update_state (unlatch env.now) closed
              else closed)
      go cap_now e =
          elim (Bool-cases (
            reopened cap_now (spent_micro_usd d.spend.period_id d) row d.spend d.spend.period_id
              closed)) [
                | inl k ↦ rw k (
                    unlatched-Quiet env.config env.now (is_open_row id)
                      (release_row env.now signature_refused) d
                      (All-intro
                        (λ p.
                          is_open_row id p ≡ true
                          → Closes p (release_row env.now signature_refused p))
                        d.payments
                        (λ p k. release_row-Closes env.now signature_refused p (ground arith)))
                      (ground arith))
                | inr k ↦ rw k step
              ]

  pub release_unsigned-Quiet : (id : ℕ) (d : Db) → Quiet env.config d (release_unsigned env id d).1
  unfolding release_unsigned
  release_unsigned-Quiet id d = go (find_where (λ p. p.id == id) d.payments)
    where
      go : (row : Option Payment) → Quiet env.config d (atomic (release_if_open env id row) d).1
      go none = stays_same env.config d
      go (some row) = elim (Bool-cases (is_authorized row.state)) [
        | inl k ↦ rw k (release_found-Quiet id row d)
        | inr k ↦ rw k (stays_same env.config d)
      ]

  reserve_locked-Fits :
      (r : Request) (amount a : ℕ) (d e : Db)
      → reserve_locked env r amount d ≡ (ok a, e)
      → Fits env.config d (payment_row env r amount d.spend)
  unfolding reserve_locked budget spent_micro_usd
  reserve_locked-Fits r amount a d e h = record {
    state = refl;
    period = refl;
    open_budget = ground arith;
    room = ground arith;
    fresh = ground arith;
    unsigned = λ oid k. ground arith;
  }

  pub reserve_locked-Step :
      (r : Request) (amount : ℕ) (d : Db)
      → Step env.config d (atomic (reserve_locked env r amount) d).1
  unfolding reserve_locked budget spent_micro_usd
  reserve_locked-Step r amount d =
      atomic_elim (Step env.config d) (reserve_locked env r amount) d
        (quiet (stays_same env.config d))
        (λ a e h.
          authorizes (payment_row env r amount d.spend) (reserve_locked-Fits r amount a d e h)
            (ground arith) (ground arith) (ground arith) (ground arith) (ground arith))
