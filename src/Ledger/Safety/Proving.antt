-- ===== src/Ledger/Safety/Proving.antt =====
-- Evidence from the chain marks an operation as `unsigned_failed` only when all its reservations are
-- released.
use mangrove_agent.Prelude.{
  ℕ, ◌≡◌, inl, inr, refl, ap, sym, subst, Bool, true, ◌&&◌, Option, none, some, List, [], ◌∷◌, ◌++◌,
  ◌==◌, arith, Bool-cases, any,
}
use mangrove_agent.Prelude.Text.{Text}
use mangrove_agent.Prelude.Tables.{update_where, find_where}
use mangrove_agent.Flow.{Result, ok, err, commit, bind_result, pure, modify}
use mangrove_agent.Ledger.{
  Payment, Db, EvidenceRow, is_pending, unsigned_failed, is_authorized, is_settled, unspendable,
}
use mangrove_agent.Ledger.Reserve.{Env}
use mangrove_agent.Ledger.Unsigned.{live_ids, is_nil}
use mangrove_agent.Ledger.State.{update_payments, update_state, unlatch}
use mangrove_agent.Ledger.Evidence.{
  Finding, is_unchanged, is_settled_final, evidence_row, fail_operation_of, after_release,
  record_current, record_evidence, reconcile_row, reconcile_authorization, is_final,
  confirm_current, confirm_locked, confirm_verified, refund_row, apply_confirmed_refund,
  is_unconfirmed, is_taken, confirm_refund,
}
use mangrove_agent.Ledger.Evidence.Unspendable.{
  may_be_unspendable, saved_headers, unspendable_saved, unspendable_row, reconcile_unspendable,
}
use mangrove_agent.Ledger.Steps.Chain.{lift_stop-StopCases, commit-bind_pure}
use mangrove_agent.Ledger.Safety.Facts.{live_count, live_count-zero}
use mangrove_agent.Ledger.Safety.Unsigned.{Marks, same_operations, update-Marks}

nil_of : (xs : List ℕ) → is_nil xs ≡ true → xs ≡ []
nil_of [] h = refl
nil_of (x ∷ xs) h = cc

fail-Marks :
    (now : ℕ) (oid : Option ℕ) (d f : Db)
    → f.operations ≡ d.operations
    → Marks d (fail_operation_of now oid f)
fail-Marks now none d f h = same_operations d f h
fail-Marks now (some oid) d f h = elim (Bool-cases (is_nil (live_ids oid f))) [
  | inr k ↦ rw k (same_operations d f h)
  | inl k ↦ rw k (
      update-Marks (λ o. o.id == oid && is_pending o.state)
        (λ o. record o { state = unsigned_failed; updated_at = now }) d
        (record f {
          operations =
              update_where (λ o. o.id == oid && is_pending o.state)
                (λ o. record o { state = unsigned_failed; updated_at = now }) f.operations;
        })
        (ap
          (update_where (λ o. o.id == oid && is_pending o.state)
            (λ o. record o { state = unsigned_failed; updated_at = now }))
          h)
        (λ o c. refl)
        (λ o c m. inr (
          subst (λ n. live_count n f.payments ≡ 0) (ground arith)
            (live_count-zero oid f (nil_of (live_ids oid f) k)))))
]

module _ (env : Env) where
  after_release-Marks :
      (original : Payment) (d e : Db)
      → e.operations ≡ d.operations
      → Marks d (commit d (after_release env original e)).1
  after_release-Marks original d e h = elim (lift_stop-StopCases env original.period_id e) [
    | inl (x, k) ↦ subst P (sym k) (same_operations d d refl)
    | inr (inl k) ↦ subst P (sym k) (fail-Marks env.now original.operation_id d e h)
    | inr (inr (k, below)) ↦
        subst P (sym k)
          (fail-Marks env.now original.operation_id d (update_state (unlatch env.now) e) h)
  ]
    where
      P : Result (Unit {0}) × Db → Type 0
      P r =
          Marks d
            (commit d
              (bind_result r (λ _. modify (fail_operation_of env.now original.operation_id)))).1

  record_current-Marks :
      (original : Payment) (f : Finding) (d : Db)
      → Marks d (commit d (record_current env original f d)).1
  record_current-Marks original f d =
      elim (Bool-cases (any (λ (e : EvidenceRow). e.reservation_id == original.id) d.evidence)) [
        | inl a ↦ rw a (same_operations d d refl)
        | inr a ↦ rw a (elim (Bool-cases (is_settled_final f.outcome)) [
          | inl k ↦ rw k (same_operations d noted refl)
          | inr k ↦ rw k (
              rw (commit-bind_pure env d true (after_release env original noted))
                (after_release-Marks original d noted refl))
        ])
      ]
    where
      noted : Db
      noted = record (update_payments (λ p. p.id == original.id) (evidence_row env.now f) d) {
        evidence =
            d.evidence
            ++ record { reservation_id = original.id; outcome = f.outcome; recorded_at = env.now }
              ∷ [];
      }

  record_evidence-Marks :
      (original : Payment) (f : Finding) (d : Db) → Marks d (record_evidence env original f d).1
  unfolding record_evidence
  record_evidence-Marks original f d =
      elim (Bool-cases
        (is_unchanged original (find_where (λ (p : Payment). p.id == original.id) d.payments))) [
          | inl k ↦ rw k (record_current-Marks original f d)
          | inr k ↦ rw k (same_operations d d refl)
        ]

  pub reconcile_authorization-Marks :
      (inspect : Payment → Finding) (id : ℕ) (before d : Db)
      → Marks d (reconcile_authorization env inspect id before d).1
  unfolding reconcile_authorization
  reconcile_authorization-Marks inspect id before d =
      go (find_where (λ p. p.id == id) before.payments)
    where
      go : (row : Option Payment) → Marks d (reconcile_row env inspect row d).1
      go none = same_operations d d refl
      go (some row) = elim (Bool-cases (is_authorized row.state)) [
        | inl h ↦ rw h (elim (Bool-cases (is_final (inspect row).outcome)) [
          | inl k ↦ rw k (record_evidence-Marks row (inspect row) d)
          | inr k ↦ rw k (same_operations d d refl)
        ])
        | inr h ↦ rw h (same_operations d d refl)
      ]

  confirm_current-Marks :
      (p : Payment) (tx : Option Text) (d : Db) → Marks d (commit d (confirm_current env p tx d)).1
  confirm_current-Marks p tx d = elim (Bool-cases (any (is_unconfirmed p.id) d.refunds)) [
    | inr a ↦ rw a (same_operations d d refl)
    | inl a ↦ rw a (elim (Bool-cases (is_taken p.network tx p.id d.refunds)) [
      | inl b ↦ rw b (same_operations d d refl)
      | inr b ↦ rw b (elim (lift_stop-StopCases env p.period_id e) [
        | inl (x, h) ↦ subst P (sym h) (same_operations d d refl)
        | inr (inl h) ↦ subst P (sym h) (same_operations d e refl)
        | inr (inr (h, below)) ↦
            subst P (sym h) (same_operations d (update_state (unlatch env.now) e) refl)
      ])
    ])
  ]
    where
      e : Db
      e = record d {
        refunds = update_where (is_unconfirmed p.id) (confirm_refund env.now tx) d.refunds;
      }

      P : Result (Unit {0}) × Db → Type 0
      P r = Marks d (commit d (bind_result r (λ _. pure true))).1

  confirm_locked-Marks :
      (p : Payment) (tx : Option Text) (d : Db) → Marks d (confirm_locked env p tx d).1
  unfolding confirm_locked
  confirm_locked-Marks p tx d =
      elim (Bool-cases (is_unchanged p (find_where (λ (q : Payment). q.id == p.id) d.payments))) [
        | inl k ↦ rw k (confirm_current-Marks p tx d)
        | inr k ↦ rw k (same_operations d d refl)
      ]

  pub apply_confirmed_refund-Marks :
      (b : Bool) (verify : Payment → Result (Option Text)) (id : ℕ) (before d : Db)
      → Marks d (apply_confirmed_refund env b verify id before d).1
  unfolding apply_confirmed_refund
  apply_confirmed_refund-Marks b verify id before d =
      go (find_where (λ p. p.id == id) before.payments)
    where
      found : (p : Payment) (r : Result (Option Text)) → Marks d (confirm_verified env p r d).1
      found p (ok none) = same_operations d d refl
      found p (ok (some tx)) = confirm_locked-Marks p (some tx) d
      found p (err e) = same_operations d d refl

      go : (row : Option Payment) → Marks d (refund_row env b verify row d).1
      go none = same_operations d d refl
      go (some p) = elim (Bool-cases (is_settled p.state && b)) [
        | inl h ↦ rw h (found p (verify p))
        | inr h ↦ rw h (same_operations d d refl)
      ]

  pub reconcile_unspendable-Marks :
      (prove : Payment → ℕ → Bool) (id : ℕ) (before d : Db)
      → Marks d (reconcile_unspendable env prove id before d).1
  unfolding reconcile_unspendable
  reconcile_unspendable-Marks prove id before d = go (find_where (λ p. p.id == id) before.payments)
    where
      found : (p : Payment) (h : Option ℕ) → Marks d (unspendable_saved env prove p h d).1
      found p none = same_operations d d refl
      found p (some h) = elim (Bool-cases (prove p h)) [
        | inl k ↦
            rw k (record_evidence-Marks p (record { outcome = unspendable; transaction = none }) d)
        | inr k ↦ rw k (same_operations d d refl)
      ]

      go : (row : Option Payment) → Marks d (unspendable_row env prove before row d).1
      go none = same_operations d d refl
      go (some p) = elim (Bool-cases (may_be_unspendable p)) [
        | inl h ↦ rw h (found p (saved_headers p.operation_id before))
        | inr h ↦ rw h (same_operations d d refl)
      ]
