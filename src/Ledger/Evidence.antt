-- ===== src/Ledger/Evidence.antt =====
-- The corrections of the ledger by evidence from the chain: `_record_evidence` and
-- `reconcile_authorization` of server/src/services/x402_reconciliation.py, and
-- `apply_confirmed_refund` of refund_service.py. What the chain shows is an argument; it is read
-- before the transaction, so the ledger that was read and the ledger that is written are two.
pub mod Once
pub mod Unspendable
use native.Mathlib.Decide.{ℕ_discrete}
use mangrove_agent.Prelude.{
  ℕ, ◌≡◌, Bool, true, false, not, ◌&&◌, Option, none, some, List, [], ◌∷◌, ◌++◌, ltb, ◌==◌,
  if◌then◌else◌, is_some, any,
}
use mangrove_agent.Prelude.Text.{Text, text_eq}
use mangrove_agent.Prelude.Tables.{update_where, find_where, select_where}
use mangrove_agent.Flow.{
  Result, ok, err, Action, pure, gets, modify, lift, raise_if, atomic, ◌>>=◌, ◌>>◌, integrity,
  validation,
}
use mangrove_agent.Ledger.{
  Payment, PayState, settled, released, is_authorized, is_settled, is_released, is_confirmed,
  Reason, settled_final, expired_unused, cancelled, Refund, confirmed, Operation, unsigned_failed,
  is_pending, EvidenceRow, SpendState, Db,
}
use mangrove_agent.Ledger.Amount.{cap_micro_usd}
use mangrove_agent.Ledger.Spent.{spent_micro_usd}
use mangrove_agent.Ledger.State.{unlatch, update_state, update_payments}
use mangrove_agent.Ledger.Unsigned.{live_ids, is_nil}
use mangrove_agent.Ledger.Reserve.{Env}

Payment-discrete : Discrete Payment
Payment-discrete = hlevel ℕ_discrete

abbrev decides : {A : Type 0} → Dec A → Bool
decides (yes a) = true
decides (no h) = false

-- `current is None or dict(current) != original`
unfoldable pub is_unchanged : Payment → Option Payment → Bool
unfolding Payment-discrete
is_unchanged original none = false
is_unchanged original (some current) = decides (Payment-discrete current original)

decides-sound : {A : Type 0} (d : Dec A) → decides d ≡ true → A
decides-sound (yes a) e = a
decides-sound (no h) e = cc

pub eq_of_is_unchanged :
    (original current : Payment) → is_unchanged original (some current) ≡ true → current ≡ original
unfolding is_unchanged
eq_of_is_unchanged original current h = decides-sound (Payment-discrete current original) h

-- What an inspection reports.
pub record Finding : Type 0 where
  pub outcome : Reason
  pub transaction : Option Text

abbrev pub is_settled_final : Reason → Bool
is_settled_final settled_final = true
is_settled_final _ = false

abbrev pub evidence_state : Reason → PayState
evidence_state outcome = if is_settled_final outcome then settled else released

abbrev pub evidence_row : ℕ → Finding → Payment → Payment
evidence_row now f p = record p {
  state = evidence_state f.outcome;
  transaction_hash = if is_settled_final f.outcome then f.transaction else none;
  release_reason = if is_settled_final f.outcome then none else some f.outcome;
  updated_at = now;
}

-- `x402_reconciliation_evidence` has one row for a reservation.
abbrev pub insert_evidence : ℕ → ℕ → Reason → Action Db (Unit {0})
insert_evidence now id outcome db =
    (raise_if (any (λ (e : EvidenceRow). e.reservation_id == id) db.evidence) integrity
        >> modify (λ d. record d {
          evidence =
              d.evidence
              ++ record { reservation_id = id; outcome = outcome; recorded_at = now } ∷ [];
        }))
      db

-- A stop of this period is lifted when the spend is below the cap again. The cap is read only if
-- the tests before it pass.
unfoldable pub lift_stop : Env → ℕ → Action Db (Unit {0})
lift_stop env period db =
    if db.spend.period_id == period && db.spend.exhausted
    then (do
      cap ← lift (cap_micro_usd env.config db.spend)
      modify
          (λ d. if ltb (spent_micro_usd period d) cap then update_state (unlatch env.now) d else d))
        db
    else (ok tt, db)

-- `UPDATE x402_operations SET state = 'unsigned_failed' WHERE id = ? AND state = 'pending' AND NOT
-- EXISTS (… state != 'released')`
abbrev pub fail_operation : ℕ → ℕ → Db → Db
fail_operation now oid db =
    if is_nil (live_ids oid db)
    then record db {
      operations =
          update_where (λ o. o.id == oid && is_pending o.state)
            (λ o. record o { state = unsigned_failed; updated_at = now }) db.operations;
    }
    else db

abbrev pub fail_operation_of : ℕ → Option ℕ → Db → Db
fail_operation_of now none db = db
fail_operation_of now (some oid) db = fail_operation now oid db

abbrev pub after_release : Env → Payment → Action Db (Unit {0})
after_release env original =
    lift_stop env original.period_id >> modify (fail_operation_of env.now original.operation_id)

abbrev pub record_current : Env → Payment → Finding → Action Db Bool
record_current env original f = do
  insert_evidence env.now original.id f.outcome
  modify (update_payments (λ p. p.id == original.id) (evidence_row env.now f))
  (if is_settled_final f.outcome then pure tt else after_release env original)
  pure true

-- `ledger_changed`
unfoldable pub record_evidence : Env → Payment → Finding → Action Db Bool
unfolding find_where is_unchanged lift_stop
record_evidence env original f = atomic (λ db.
    if is_unchanged original (find_where (λ p. p.id == original.id) db.payments)
    then record_current env original f db
    else (ok false, db))

abbrev pub is_final : Reason → Bool
is_final expired_unused = true
is_final cancelled = true
is_final settled_final = true
is_final _ = false

abbrev pub reconcile_row : Env → (Payment → Finding) → Option Payment → Action Db Bool
reconcile_row env inspect none db = (err validation, db)
reconcile_row env inspect (some row) db =
    if is_authorized row.state
    then (if is_final (inspect row).outcome
        then record_evidence env row (inspect row) db
        else (ok false, db))
    else (ok false, db)

-- The row is read from `before`; the inspection asks the chain; the write meets the later ledger.
unfoldable pub reconcile_authorization : Env → (Payment → Finding) → ℕ → Db → Action Db Bool
unfolding record_evidence
reconcile_authorization env inspect id before =
    reconcile_row env inspect (find_where (λ p. p.id == id) before.payments)

abbrev pub confirm_refund : ℕ → Option Text → Refund → Refund
confirm_refund now tx r = record r {
  state = confirmed;
  refund_tx = tx;
  recovery_headers = none;
  updated_at = now;
}

-- `reservation_id = ? AND state != 'confirmed'`
abbrev pub is_unconfirmed : ℕ → Refund → Bool
is_unconfirmed id r = r.reservation_id == id && not (is_confirmed r.state)

abbrev pub option_text_eq : Option Text → Option Text → Bool
option_text_eq (some s) (some t) = text_eq s t
option_text_eq none t = false
option_text_eq (some s) none = false

-- `UNIQUE (network, refund_tx)` against a second row.
abbrev pub is_taken : Option Text → Option Text → ℕ → List Refund → Bool
is_taken network tx id rs =
    any
      (λ (r : Refund).
        not (r.reservation_id == id)
        && option_text_eq r.network network
        && option_text_eq r.refund_tx tx)
      rs

abbrev pub confirm_current : Env → Payment → Option Text → Action Db Bool
confirm_current env payment tx db =
    if any (is_unconfirmed payment.id) db.refunds
    then (do
      raise_if (is_taken payment.network tx payment.id db.refunds) integrity
      modify (λ d. record d {
        refunds = update_where (is_unconfirmed payment.id) (confirm_refund env.now tx) d.refunds;
      })
      lift_stop env payment.period_id
      pure true)
        db
    else (ok false, db)

unfoldable pub confirm_locked : Env → Payment → Option Text → Action Db Bool
unfolding find_where is_unchanged lift_stop
confirm_locked env payment tx = atomic (λ db.
    if is_unchanged payment (find_where (λ p. p.id == payment.id) db.payments)
    then confirm_current env payment tx db
    else (ok false, db))

-- What `verify_refund` returns: no evidence yet, or the transaction; or it raises.
abbrev pub confirm_verified : Env → Payment → Result (Option Text) → Action Db Bool
confirm_verified env payment (ok none) db = (ok false, db)
confirm_verified env payment (ok (some tx)) db = confirm_locked env payment (some tx) db
confirm_verified env payment (err e) db = (err e, db)

abbrev pub refund_row :
    Env → Bool → (Payment → Result (Option Text)) → Option Payment → Action Db Bool
refund_row env state_is_confirmed verify none db = (ok false, db)
refund_row env state_is_confirmed verify (some payment) db =
    if is_settled payment.state && state_is_confirmed
    then confirm_verified env payment (verify payment) db
    else (ok false, db)

unfoldable pub apply_confirmed_refund :
    Env → Bool → (Payment → Result (Option Text)) → ℕ → Db → Action Db Bool
unfolding confirm_locked
apply_confirmed_refund env state_is_confirmed verify id before =
    refund_row env state_is_confirmed verify (find_where (λ p. p.id == id) before.payments)
