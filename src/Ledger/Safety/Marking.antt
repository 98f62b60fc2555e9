-- ===== src/Ledger/Safety/Marking.antt =====
-- Which calls mark an operation as `unsigned_failed`.
use mangrove_agent.Prelude.{
  ℕ, ◌≡◌, inl, inr, refl, ap, subst, Bool, false, Option, List, [], ◌∷◌, arith, Bool-cases, any,
}
use mangrove_agent.Prelude.Text.{Text}
use mangrove_agent.Prelude.Tables.{update_where, sum_by}
use mangrove_agent.Ledger.{Payment, Db, Reason}
use mangrove_agent.Ledger.Amount.{Usd}
use mangrove_agent.Ledger.Receipts.{Receipt}
use mangrove_agent.Ledger.Reserve.{Env}
use mangrove_agent.Ledger.Settle.{
  IdArg, settle, reconcile, release, release_unsigned, reset, reset_locked,
}
use mangrove_agent.Ledger.Unsigned.{is_live}
use mangrove_agent.Ledger.Operations.{
  save_headers, abandon_unsigned, complete_operation, record_replacement_permission, Outcome,
  is_unsent_id, is_pending_id, finish, ensure_recovery, update_operations, attach, fail_unsent,
}
use mangrove_agent.Ledger.Operations.Begin.Retries.{watch-operations}
use mangrove_agent.Ledger.Safety.Facts.{live_count}
use mangrove_agent.Ledger.Safety.Unsigned.{Marks, same_operations, update-Marks}

pub settle-Marks :
    (env : Env) (ids : IdArg) (tx resource : Option Text) (d : Db)
    → Marks d (settle env ids tx resource d)
unfolding settle
settle-Marks env ids tx resource d = same_operations d (settle env ids tx resource d) same
  where
    same : (settle env ids tx resource d).operations ≡ d.operations
    same = ground arith

pub reconcile-Marks :
    (env : Env) (ids : IdArg) (receipt : Option Receipt) (resource : Option Text) (d : Db)
    → Marks d (reconcile env ids receipt resource d)
unfolding reconcile settle
reconcile-Marks env ids receipt resource d =
    same_operations d (reconcile env ids receipt resource d) same
  where
    same : (reconcile env ids receipt resource d).operations ≡ d.operations
    same = ground arith

pub release-Marks :
    (now : ℕ) (ids : IdArg) (why : Reason) (d : Db) → Marks d (release now ids why d)
unfolding release
release-Marks now ids why d = same_operations d (release now ids why d) refl

pub release_unsigned-Marks : (env : Env) (id : ℕ) (d : Db) → Marks d (release_unsigned env id d).1
unfolding release_unsigned
release_unsigned-Marks env id d = same_operations d (release_unsigned env id d).1 same
  where
    same : (release_unsigned env id d).1.operations ≡ d.operations
    same = ground arith

pub reset-Marks : (now : ℕ) (amount : Option Usd) (d : Db) → Marks d (reset now amount d).1
unfolding reset reset_locked
reset-Marks now amount d = same_operations d (reset now amount d).1 same
  where
    same : (reset now amount d).1.operations ≡ d.operations
    same = ground arith

pub save_headers-Marks : (now oid headers : ℕ) (d : Db) → Marks d (save_headers now oid headers d).1
unfolding save_headers
save_headers-Marks now oid headers d = elim (Bool-cases (any (is_unsent_id oid) d.operations)) [
  | inl h ↦ rw h (
      update-Marks (is_unsent_id oid) (attach now headers) d
        (update_operations (is_unsent_id oid) (attach now headers) d) refl (λ o k. refl)
        (λ o k f. inl f))
  | inr h ↦ rw h (same_operations d d refl)
]

pub complete_operation-Marks :
    (now oid : ℕ) (r : Outcome) (d : Db) → Marks d (complete_operation now oid r d)
unfolding complete_operation
complete_operation-Marks now oid r d =
    update-Marks (is_pending_id oid) (finish now r) d (complete_operation now oid r d)
      (ap (update_where (is_pending_id oid) (finish now r)) (watch-operations now oid r d))
      (λ o k. refl) (λ o k f. cc)

live_count-none :
    (oid : ℕ) (ps : List Payment) → any (is_live oid) ps ≡ false → live_count oid ps ≡ 0
unfolding sum_by
live_count-none oid [] h = refl
live_count-none oid (p ∷ ps) h = ground (arith, live_count-none oid ps)

pub abandon_unsigned-Marks : (now oid : ℕ) (d : Db) → Marks d (abandon_unsigned now oid d)
unfolding abandon_unsigned
abandon_unsigned-Marks now oid d = elim (Bool-cases (any (is_live oid) d.payments)) [
  | inl h ↦ rw h (same_operations d d refl)
  | inr h ↦ rw h (
      update-Marks (is_unsent_id oid) (fail_unsent now oid) d
        (update_operations (is_unsent_id oid) (fail_unsent now oid) d) refl (λ o k. refl)
        (λ o k f. inr (
          subst (λ n. live_count n d.payments ≡ 0) (ground arith)
            (live_count-none oid d.payments h))))
]

pub record_replacement_permission-Marks :
    (oid token : ℕ) (allowed : Bool) (d : Db)
    → Marks d (record_replacement_permission oid token allowed d)
unfolding record_replacement_permission ensure_recovery
record_replacement_permission-Marks oid token allowed d =
    same_operations d (record_replacement_permission oid token allowed d) same
  where
    same : (record_replacement_permission oid token allowed d).operations ≡ d.operations
    same = ground arith
