-- ===== src/Ledger/Steps/Chain.antt =====
-- The corrections by evidence (server/src/services/x402_reconciliation.py, refund_service.py) are
-- steps of the contract.
use mangrove_agent.Prelude.{
  ℕ, ◌≤◌, ◌<◌, ◌≡◌, ◌⊎◌, inl, inr, refl, sym, subst, ◌∙◌, Bool, true, false, Option, none, some,
  List, [], ◌∷◌, ◌++◌, ltb, ◌==◌, ◌&&◌, if◌then◌else◌, All, arith, Bool-cases, any,
}
use mangrove_agent.Prelude.Text.{Text}
use mangrove_agent.Prelude.Tables.{update_where, find_where, All-intro, All-mono, sum_by-update_ge}
use mangrove_agent.Flow.{Result, ok, err, Error, commit, bind_result, modify, pure, Result-cases}
use mangrove_agent.Ledger.{
  Payment, is_authorized, is_settled, Refund, Operation, Recovery, EvidenceRow, Db, is_pending,
  unsigned_failed, unspendable,
}
use mangrove_agent.Ledger.Amount.{Config, cap_micro_usd}
use mangrove_agent.Ledger.Spent.{refunded, credit, spent_micro_usd}
use mangrove_agent.Ledger.Keys.{Unique, by_id, only_row}
use mangrove_agent.Ledger.Unsigned.{live_ids, is_nil}
use mangrove_agent.Ledger.State.{update_payments, update_state, unlatch}
use mangrove_agent.Ledger.Reserve.{Env}
use mangrove_agent.Ledger.Evidence.{
  Finding, eq_of_is_unchanged, is_unconfirmed, confirm_refund, is_taken, is_unchanged,
  is_settled_final, evidence_row, lift_stop, fail_operation_of, after_release, record_current,
  record_evidence, reconcile_row, reconcile_authorization, is_final, confirm_current,
  confirm_locked, confirm_verified, refund_row, apply_confirmed_refund,
}
use mangrove_agent.Ledger.Evidence.Unspendable.{
  may_be_unspendable, saved_headers, unspendable_saved, unspendable_row, reconcile_unspendable,
}
use mangrove_agent.Ledger.Steps.{Quiet, stays, closes, credits, renews, Closes, budget, spent_now}
use mangrove_agent.Ledger.Steps.Spending.{budget-unlatch}

-- The tables that the budget does not read may change with a step.
pub Quiet-others :
    (cfg : Config) (d e : Db) (ops : List Operation) (rs : List Recovery) (es : List EvidenceRow)
    → Quiet cfg d e
    → Quiet cfg d (record e { operations = ops; recoveries = rs; evidence = es })
Quiet-others cfg d e ops rs es (stays p r s) = stays p r s
Quiet-others cfg d e ops rs es (closes c g h p r k) =
    closes c g h p r (record { same_period = k.same_period; same_cap = k.same_cap; stop = k.stop })
Quiet-others cfg d e ops rs es (credits p h k) =
    credits p h (record { same_period = k.same_period; same_cap = k.same_cap; stop = k.stop })
Quiet-others cfg d e ops rs es (renews p r s x) = renews p r s x

module _ (env : Env) where
  -- `lift_stop` raises, or leaves the ledger, or lifts the stop of a spend below the budget.
  abbrev StopCases : ℕ → Db → Type 0
  StopCases period d =
      ((x : Error) × (lift_stop env period d ≡ (err x, d)))
      ⊎ (lift_stop env period d ≡ (ok tt, d))
      ⊎ ((lift_stop env period d ≡ (ok tt, update_state (unlatch env.now) d))
          × (spent_now d < budget env.config d.spend))

  pub lift_stop-StopCases : (period : ℕ) (d : Db) → StopCases period d
  unfolding lift_stop budget spent_micro_usd
  lift_stop-StopCases period d =
      elim (Bool-cases (d.spend.period_id == period && d.spend.exhausted)) [
        | inr g ↦ inr (inl (rw g refl))
        | inl g ↦ elim (Result-cases (cap_micro_usd env.config d.spend)) [
          | inr (x, e) ↦ inl (x, rw (g, e) refl)
          | inl (n, e) ↦ elim (Bool-cases (ltb (spent_micro_usd period d) n)) [
            | inr l ↦ inr (inl (rw (g, e, l) refl))
            | inl l ↦
                let same : d.spend.period_id ≡ period = ground arith in
                let below = rw (← same) at l in inr (inr (rw (g, e, l) refl, ground arith))
          ]
        ]
      ]

  pub fail_operation_of-operations :
      (oid : Option ℕ) (d : Db)
      → (ops : List Operation) × (fail_operation_of env.now oid d ≡ record d { operations = ops })
  fail_operation_of-operations none d = (d.operations, refl)
  fail_operation_of-operations (some oid) d = elim (Bool-cases (is_nil (live_ids oid d))) [
    | inl e ↦ (
      update_where (λ o. o.id == oid && is_pending o.state)
          (λ o. record o { state = unsigned_failed; updated_at = env.now }) d.operations,
      rw e refl,
    )
    | inr e ↦ (d.operations, rw e refl)
  ]

  after_release-Quiet :
      (original : Payment) (d e : Db)
      → Quiet env.config d e
      → (spent_now e < budget env.config e.spend
          → Quiet env.config d (update_state (unlatch env.now) e))
      → Quiet env.config d (commit d (after_release env original e)).1
  after_release-Quiet original d e s l = elim (lift_stop-StopCases original.period_id e) [
    | inl (x, h) ↦ subst P (sym h) (stays refl refl refl)
    | inr (inl h) ↦
        let (ops, k) = fail_operation_of-operations original.operation_id e in
        subst P (sym h) (rw k (Quiet-others env.config d e ops e.recoveries e.evidence s))
    | inr (inr (h, below)) ↦
        let f = update_state (unlatch env.now) e in
        let (ops, k) = fail_operation_of-operations original.operation_id f in
        subst P (sym h) (rw k (Quiet-others env.config d f ops e.recoveries e.evidence (l below)))
  ]
    where
      P : Result (Unit {0}) × Db → Type 0
      P r =
          Quiet env.config d
            (commit d
              (bind_result r (λ _. modify (fail_operation_of env.now original.operation_id)))).1

  pub commit-bind_pure :
      {A B : Type 0} (d : Db) (b : B) (r : Result A × Db)
      → (commit d (bind_result r (λ _. pure b))).1 ≡ (commit d r).1
  commit-bind_pure d b (ok a, t) = refl
  commit-bind_pure d b (err e, t) = refl

  evidence_row-Closes :
      (f : Finding) (original p : Payment)
      → is_authorized original.state ≡ true
      → p ≡ original
      → Closes p (evidence_row env.now f p)
  evidence_row-Closes f original p h e = record {
    was_open = ground arith;
    closed = elim (Bool-cases (is_settled_final f.outcome)) [
      | inl k ↦ inl (rw k refl)
      | inr k ↦ inr (rw k refl)
    ];
    same_id = refl;
    same_period = refl;
    same_amount = refl;
    same_wallet = refl;
    same_payee = refl;
    same_nonce = refl;
    same_operation = refl;
  }

  module _ (original : Payment) (f : Finding) (d : Db)
      (rows : All
        (λ p. by_id original.id p ≡ true → Closes p (evidence_row env.now f p))
        d.payments) where
    record_current-Quiet : Quiet env.config d (commit d (record_current env original f d)).1
    record_current-Quiet =
        elim (Bool-cases (any (λ (e : EvidenceRow). e.reservation_id == original.id) d.evidence)) [
          | inl k ↦ rw k (stays refl refl refl)
          | inr k ↦ rw k (elim (Bool-cases (is_settled_final f.outcome)) [
            | inl s ↦ rw s step
            | inr s ↦ rw s (
                rw (commit-bind_pure d true (after_release env original e))
                  (after_release-Quiet original d e step lifted))
          ])
        ]
      where
        e : Db
        e = record (update_payments (by_id original.id) (evidence_row env.now f) d) {
          evidence =
              d.evidence
              ++ record { reservation_id = original.id; outcome = f.outcome; recorded_at = env.now }
                ∷ [];
        }

        step : Quiet env.config d e
        step =
            closes (by_id original.id) (evidence_row env.now f) rows refl refl
              (record { same_period = refl; same_cap = refl; stop = inl refl })

        lifted :
            spent_now e < budget env.config e.spend
            → Quiet env.config d (update_state (unlatch env.now) e)
        lifted below = closes (by_id original.id) (evidence_row env.now f) rows refl refl (record {
          same_period = refl;
          same_cap = refl;
          stop = inr (refl, rw budget-unlatch below);
        })

  record_found-Quiet :
      (original : Payment) (f : Finding) (d : Db) (row : Option Payment)
      → is_authorized original.state ≡ true
      → Unique d.payments
      → find_where (by_id original.id) d.payments ≡ row
      → Quiet env.config d
          (commit d (
            if is_unchanged original row then record_current env original f d else (ok false, d))).1
  record_found-Quiet original f d none h u e = unfold is_unchanged in stays refl refl refl
  record_found-Quiet original f d (some row) h u e =
      elim (Bool-cases (is_unchanged original (some row))) [
        | inl k ↦
            let same = eq_of_is_unchanged original row k in
            rw k (
              record_current-Quiet original f d (
                All-mono (λ p. by_id original.id p ≡ true → p ≡ row)
                  (λ p. by_id original.id p ≡ true → Closes p (evidence_row env.now f p)) d.payments
                  (λ p only j. evidence_row-Closes f original p h (only j ∙ same))
                  (only_row d.payments original.id row u e)))
        | inr k ↦ rw k (stays refl refl refl)
      ]

  -- Evidence for a row that was open when it was inspected closes that row, or does nothing.
  pub record_evidence-Quiet :
      (original : Payment) (f : Finding) (d : Db)
      → is_authorized original.state ≡ true
      → Unique d.payments
      → Quiet env.config d (record_evidence env original f d).1
  unfolding record_evidence
  record_evidence-Quiet original f d h u =
      record_found-Quiet original f d (find_where (by_id original.id) d.payments) h u refl

  -- Whatever was read before, and whatever the chain showed.
  pub reconcile_authorization-Quiet :
      (inspect : Payment → Finding) (id : ℕ) (before d : Db)
      → Unique d.payments
      → Quiet env.config d (reconcile_authorization env inspect id before d).1
  unfolding reconcile_authorization
  reconcile_authorization-Quiet inspect id before d u =
      go (find_where (λ p. p.id == id) before.payments)
    where
      go : (row : Option Payment) → Quiet env.config d (reconcile_row env inspect row d).1
      go none = stays refl refl refl
      go (some row) = elim (Bool-cases (is_authorized row.state)) [
        | inl h ↦ rw h (elim (Bool-cases (is_final (inspect row).outcome)) [
          | inl k ↦ rw k (record_evidence-Quiet row (inspect row) d h u)
          | inr k ↦ rw k (stays refl refl refl)
        ])
        | inr h ↦ rw h (stays refl refl refl)
      ]

  confirm_refunded :
      (id : ℕ) (tx : Option Text) (period : ℕ) (ps : List Payment) (rs : List Refund)
      → refunded period ps rs
        ≤ refunded period ps (update_where (is_unconfirmed id) (confirm_refund env.now tx) rs)
  confirm_refunded id tx period ps rs =
      sum_by-update_ge (credit period ps) (is_unconfirmed id) (confirm_refund env.now tx) rs (
        All-intro
          (λ r.
            is_unconfirmed id r ≡ true
            → credit period ps r ≤ credit period ps (confirm_refund env.now tx r))
          rs (λ r h. ground arith))

  confirm_current-Quiet :
      (payment : Payment) (tx : Option Text) (d : Db)
      → Quiet env.config d (commit d (confirm_current env payment tx d)).1
  confirm_current-Quiet payment tx d =
      elim (Bool-cases (any (is_unconfirmed payment.id) d.refunds)) [
        | inr a ↦ rw a (stays refl refl refl)
        | inl a ↦ rw a (elim (Bool-cases (is_taken payment.network tx payment.id d.refunds)) [
          | inl b ↦ rw b (stays refl refl refl)
          | inr b ↦ rw b (elim (lift_stop-StopCases payment.period_id e) [
            | inl (x, h) ↦ subst P (sym h) (stays refl refl refl)
            | inr (inl h) ↦ subst P (sym h) (
                credits refl more_credit
                  (record { same_period = refl; same_cap = refl; stop = inl refl }))
            | inr (inr (h, below)) ↦ subst P (sym h) (
                credits refl more_credit (record {
                  same_period = refl;
                  same_cap = refl;
                  stop = inr (refl, rw budget-unlatch below);
                }))
          ])
        ])
      ]
    where
      e : Db
      e = record d {
        refunds = update_where (is_unconfirmed payment.id) (confirm_refund env.now tx) d.refunds;
      }

      more_credit :
          (period : ℕ) → refunded period d.payments d.refunds ≤ refunded period d.payments e.refunds
      more_credit period = confirm_refunded payment.id tx period d.payments d.refunds

      P : Result (Unit {0}) × Db → Type 0
      P r = Quiet env.config d (commit d (bind_result r (λ _. pure true))).1

  confirm_locked-Quiet :
      (payment : Payment) (tx : Option Text) (d : Db)
      → Quiet env.config d (confirm_locked env payment tx d).1
  unfolding confirm_locked
  confirm_locked-Quiet payment tx d =
      elim (Bool-cases (is_unchanged payment (find_where (by_id payment.id) d.payments))) [
        | inl k ↦ rw k (confirm_current-Quiet payment tx d)
        | inr k ↦ rw k (stays refl refl refl)
      ]

  pub apply_confirmed_refund-Quiet :
      (state_is_confirmed : Bool) (verify : Payment → Result (Option Text)) (id : ℕ) (before d : Db)
      → Quiet env.config d (apply_confirmed_refund env state_is_confirmed verify id before d).1
  unfolding apply_confirmed_refund
  apply_confirmed_refund-Quiet b verify id before d =
      go (find_where (λ p. p.id == id) before.payments)
    where
      found :
          (p : Payment) (r : Result (Option Text))
          → Quiet env.config d (confirm_verified env p r d).1
      found p (ok none) = stays refl refl refl
      found p (ok (some tx)) = confirm_locked-Quiet p (some tx) d
      found p (err e) = stays refl refl refl

      go : (row : Option Payment) → Quiet env.config d (refund_row env b verify row d).1
      go none = stays refl refl refl
      go (some p) = elim (Bool-cases (is_settled p.state && b)) [
        | inl h ↦ rw h (found p (verify p))
        | inr h ↦ rw h (stays refl refl refl)
      ]

  pub reconcile_unspendable-Quiet :
      (prove : Payment → ℕ → Bool) (id : ℕ) (before d : Db)
      → Unique d.payments
      → Quiet env.config d (reconcile_unspendable env prove id before d).1
  unfolding reconcile_unspendable
  reconcile_unspendable-Quiet prove id before d u =
      go (find_where (λ p. p.id == id) before.payments)
    where
      found :
          (p : Payment) (h : Option ℕ)
          → is_authorized p.state ≡ true
          → Quiet env.config d (unspendable_saved env prove p h d).1
      found p none a = stays refl refl refl
      found p (some h) a = elim (Bool-cases (prove p h)) [
        | inl k ↦
            rw k
              (record_evidence-Quiet p (record { outcome = unspendable; transaction = none }) d a u)
        | inr k ↦ rw k (stays refl refl refl)
      ]

      go : (row : Option Payment) → Quiet env.config d (unspendable_row env prove before row d).1
      go none = stays refl refl refl
      go (some p) = elim (Bool-cases (may_be_unspendable p)) [
        | inl h ↦ rw h (found p (saved_headers p.operation_id before) (ground arith))
        | inr h ↦ rw h (stays refl refl refl)
      ]
