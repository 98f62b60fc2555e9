-- ===== src/Ledger/Operations.antt =====
-- server/src/services/payment_operations.py: the durable identity of a paid operation. Sealed
-- payment headers and responses are opaque numbers.
pub mod Begin
use mangrove_agent.Prelude.{
  ℕ, ◌≡◌, Bool, true, false, not, ◌&&◌, ◌||◌, Option, none, some, List, [], ◌∷◌, ◌++◌, ltb, leb,
  ◌==◌, if◌then◌else◌, is_some, any, all,
}
use mangrove_agent.Prelude.Tables.{update_where, find_where, select_where}
use mangrove_agent.Flow.{
  Result, ok, err, Action, pure, gets, modify, raise_if, atomic, ◌>>=◌, ◌>>◌, payment_uncertain,
}
use mangrove_agent.Ledger.{
  Payment, PayState, is_released, is_settled, Reason, expired_unused, cancelled, reason_eq, Refund,
  RefundState, Operation, OpState, complete, unsigned_failed, is_pending, is_unsigned_failed,
  Recovery, EvidenceRow, Db,
}
use mangrove_agent.Ledger.Unsigned.{belongs, is_live, find_operation}
use mangrove_agent.Ledger.Evidence.{fail_operation}

abbrev pub update_operations : (Operation → Bool) → (Operation → Operation) → Db → Db
update_operations c g db = record db { operations = update_where c g db.operations }

abbrev pub is_pending_id : ℕ → Operation → Bool
is_pending_id oid o = o.id == oid && is_pending o.state

-- `payment_headers IS NULL` too
abbrev pub is_unsent_id : ℕ → Operation → Bool
is_unsent_id oid o = is_pending_id oid o && not (is_some o.payment_headers)

abbrev pub attach : ℕ → ℕ → Operation → Operation
attach now headers o = record o { payment_headers = some headers; updated_at = now }

-- The headers are saved once, before the signature is sent.
unfoldable pub save_headers : ℕ → ℕ → ℕ → Action Db (Unit {0})
save_headers now oid headers = atomic (λ db.
    if any (is_unsent_id oid) db.operations
    then (ok tt, update_operations (is_unsent_id oid) (attach now headers) db)
    else (err (payment_uncertain oid []), db))

-- `UPDATE x402_operations SET state = 'unsigned_failed' … payment_headers IS NULL AND NOT EXISTS …`
abbrev pub fail_unsent : ℕ → ℕ → Operation → Operation
fail_unsent now oid o = record o { state = unsigned_failed; updated_at = now }

unfoldable pub abandon_unsigned : ℕ → ℕ → Db → Db
abandon_unsigned now oid db =
    if any (is_live oid) db.payments
    then db
    else update_operations (is_unsent_id oid) (fail_unsent now oid) db

-- The result that `complete` stores: its status, if an integer, and whether its body is an error.
pub record Outcome : Type 0 where
  pub status : Option ℕ
  pub body_is_error : Bool
  pub sealed : ℕ

abbrev pub is_failed : Outcome → Bool
is_failed r = elim r.status [ none ↦ r.body_is_error | some s ↦ leb 400 s || r.body_is_error ]

abbrev pub has_refund : ℕ → List Refund → Bool
has_refund id rs = any (λ (r : Refund). r.reservation_id == id) rs

-- `operation_id = ? AND state = 'settled' AND amount_micro_usd > 0`, with a network that is not NULL.
abbrev pub is_refundable : ℕ → Payment → Bool
is_refundable oid p =
    belongs oid p && is_settled p.state && ltb 0 p.amount_micro_usd && is_some p.network

abbrev pub watch_row : ℕ → ℕ → ℕ → Payment → Refund
watch_row now oid headers p = record {
  reservation_id = p.id;
  operation_id = oid;
  state = RefundState.pending;
  refund_tx = none;
  network = p.network;
  amount_micro_usd = p.amount_micro_usd;
  recovery_headers = some headers;
  updated_at = now;
}

-- `INSERT OR IGNORE INTO x402_refunds … SELECT`
unfoldable pub watch_rows : ℕ → ℕ → ℕ → List Payment → List Refund → List Refund
watch_rows now oid headers [] rs = rs
watch_rows now oid headers (p ∷ ps) rs = watch_rows now oid headers ps (
    if is_refundable oid p && not (has_refund p.id rs)
    then rs ++ watch_row now oid headers p ∷ []
    else rs)

abbrev pub watch_found : ℕ → ℕ → Option ℕ → Db → Db
watch_found now oid none db = db
watch_found now oid (some headers) db = record db {
  refunds = watch_rows now oid headers db.payments db.refunds;
}

abbrev pub watch_headers : ℕ → ℕ → Option Operation → Db → Db
watch_headers now oid none db = db
watch_headers now oid (some o) db = watch_found now oid o.payment_headers db

-- refund_service.py `watch_failed_operation`
unfoldable pub watch_failed_operation : ℕ → ℕ → Outcome → Db → Db
unfolding watch_rows find_operation
watch_failed_operation now oid r db =
    if is_failed r then watch_headers now oid (find_operation oid db) db else db

abbrev pub finish : ℕ → Outcome → Operation → Operation
finish now r o = record o {
  state = complete;
  response = some r.sealed;
  payment_headers = none;
  updated_at = now;
}

unfoldable pub complete_operation : ℕ → ℕ → Outcome → Db → Db
unfolding watch_failed_operation
complete_operation now oid r db =
    update_operations (is_pending_id oid) (finish now r) (watch_failed_operation now oid r db)

abbrev has_evidence : List EvidenceRow → Payment → Bool
has_evidence es p = elim p.release_reason [
  | none ↦ false
  | some why ↦ any (λ (e : EvidenceRow). e.reservation_id == p.id && reason_eq e.outcome why) es
]

abbrev is_final_release : Option Reason → Bool
is_final_release none = false
is_final_release (some expired_unused) = true
is_final_release (some cancelled) = true
is_final_release (some _) = false

abbrev pub is_proven : List EvidenceRow → Payment → Bool
is_proven es p =
    is_released p.state
    && not (is_some p.transaction_hash)
    && has_evidence es p
    && is_final_release p.release_reason

abbrev pub is_failed_row : Option Operation → Bool
is_failed_row none = false
is_failed_row (some o) = is_unsigned_failed o.state

-- Every reservation of the operation is finalized unused, and there is one.
unfoldable pub proven_unpaid : ℕ → Db → Bool
unfolding find_operation
proven_unpaid oid db =
    is_failed_row (find_operation oid db)
    && any (belongs oid) db.payments
    && all (λ p. not (belongs oid p) || is_proven db.evidence p) db.payments

-- `UPDATE x402_recovery_state SET replacement_allowed=1 WHERE operation_id=?`, after
-- `identity_headers` has made sure of the row; `token` is the sealed token that it would store.
abbrev pub names : ℕ → Recovery → Bool
names oid r = r.operation_id == oid

abbrev with_token : ℕ → Recovery → Recovery
with_token token r = elim r.token [ none ↦ record r { token = some token } | some t ↦ r ]

unfoldable pub ensure_recovery : ℕ → ℕ → Db → Db
ensure_recovery oid token db =
    if any (names oid) db.recoveries
    then record db { recoveries = update_where (names oid) (with_token token) db.recoveries }
    else record db {
      recoveries =
          db.recoveries
          ++ record {
            operation_id = oid;
            action_id = oid;
            token = some token;
            replacement_allowed = false;
            next_id = none;
          }
            ∷ [];
    }

unfoldable pub record_replacement_permission : ℕ → ℕ → Bool → Db → Db
unfolding ensure_recovery
record_replacement_permission oid token false db = db
record_replacement_permission oid token true db =
    let d = ensure_recovery oid token db in
    record d {
      recoveries =
          update_where (names oid) (λ (r : Recovery). record r { replacement_allowed = true })
            d.recoveries;
    }
