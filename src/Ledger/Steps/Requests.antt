-- ===== src/Ledger/Steps/Requests.antt =====
-- The calls of server/src/services/payment_operations.py touch no payment: they leave what the budget
-- reads, or begin to watch refunds.
use mangrove_agent.Prelude.{
  ℕ, ◌≡◌, inl, inr, refl, sym, Bool, Option, none, some, List, [], ◌∷◌, ◌++◌, arith, Bool-cases,
  any,
}
use mangrove_agent.Prelude.Tables.{update_where, sum_by-snoc}
use native.Mathlib.Nat.{le_of_eq}
use mangrove_agent.Flow.{Result, ok, err, commit}
use mangrove_agent.Ledger.{Payment, Refund, Operation, Recovery, Db}
use mangrove_agent.Ledger.Amount.{Config}
use mangrove_agent.Ledger.Spent.{refunded, credit}
use mangrove_agent.Ledger.Operations.{
  save_headers, abandon_unsigned, Outcome, watch_rows, watch_failed_operation, complete_operation,
  is_failed, record_replacement_permission, watch_row, watch_headers, watch_found, is_pending_id,
  is_unsent_id, finish,
}
use mangrove_agent.Ledger.Unsigned.{find_operation}
use mangrove_agent.Ledger.Operations.Begin.{
  begin_locked, begin_row, follow_row, row_of, link_limit, known, unknown, closed_unpaid,
  unreplaced, insert_operation, find_recovery,
}
use mangrove_agent.Ledger.Steps.{Quiet, stays, credits}
use mangrove_agent.Ledger.Steps.Chain.{Quiet-others}

module _ (cfg : Config) where
  pub save_headers-Quiet :
      (now oid headers : ℕ) (d : Db) → Quiet cfg d (save_headers now oid headers d).1
  unfolding save_headers
  save_headers-Quiet now oid headers d = elim (Bool-cases (any (is_unsent_id oid) d.operations)) [
    | inl h ↦ rw h (stays refl refl refl)
    | inr h ↦ rw h (stays refl refl refl)
  ]

  pub abandon_unsigned-Quiet : (now oid : ℕ) (d : Db) → Quiet cfg d (abandon_unsigned now oid d)
  unfolding abandon_unsigned
  abandon_unsigned-Quiet now oid d = stays (ground arith) (ground arith) (ground arith)

  pub record_replacement_permission-Quiet :
      (oid token : ℕ) (allowed : Bool) (d : Db)
      → Quiet cfg d (record_replacement_permission oid token allowed d)
  unfolding record_replacement_permission
  record_replacement_permission-Quiet oid token allowed d =
      stays (ground arith) (ground arith) (ground arith)

  -- A refund that is only watched is no credit.
  refunded-watch_rows :
      (now oid headers period : ℕ) (all ps : List Payment) (rs : List Refund)
      → refunded period all (watch_rows now oid headers ps rs) ≡ refunded period all rs
  unfolding watch_rows
  refunded-watch_rows now oid headers period all [] rs = refl
  refunded-watch_rows now oid headers period all (p ∷ ps) rs = ground (
    arith,
    refunded-watch_rows now oid headers period all ps rs,
    refunded-watch_rows now oid headers period all ps (rs ++ watch_row now oid headers p ∷ []),
    sum_by-snoc (credit period all) rs (watch_row now oid headers p),
  )

  watch_headers-Quiet :
      (now oid : ℕ) (o : Option Operation) (d : Db) → Quiet cfg d (watch_headers now oid o d)
  watch_headers-Quiet now oid none d = stays refl refl refl
  watch_headers-Quiet now oid (some o) d = go o.payment_headers
    where
      go : (h : Option ℕ) → Quiet cfg d (watch_found now oid h d)
      go none = stays refl refl refl
      go (some h) =
          credits refl
            (λ period.
              le_of_eq (sym (refunded-watch_rows now oid h period d.payments d.payments d.refunds)))
            (record { same_period = refl; same_cap = refl; stop = inl refl })

  watch-Quiet :
      (now oid : ℕ) (r : Outcome) (d : Db) → Quiet cfg d (watch_failed_operation now oid r d)
  unfolding watch_failed_operation
  watch-Quiet now oid r d = elim (Bool-cases (is_failed r)) [
    | inl h ↦ rw h (watch_headers-Quiet now oid (find_operation oid d) d)
    | inr h ↦ rw h (stays refl refl refl)
  ]

  pub complete_operation-Quiet :
      (now oid : ℕ) (r : Outcome) (d : Db) → Quiet cfg d (complete_operation now oid r d)
  unfolding complete_operation
  complete_operation-Quiet now oid r d =
      let e = watch_failed_operation now oid r d in
      Quiet-others cfg d e (update_where (is_pending_id oid) (finish now r) e.operations)
        e.recoveries e.evidence (watch-Quiet now oid r d)

-- What the budget reads is the same.
abbrev Untouched : Db → Db → Type 0
Untouched d e = (e.payments ≡ d.payments) × (e.refunds ≡ d.refunds) × (e.spend ≡ d.spend)

Untouched-insert : (now oid digest : ℕ) (d : Db) → Untouched d (insert_operation now oid digest d).1
unfolding insert_operation
Untouched-insert now oid digest d = ground arith

Untouched-unreplaced : (row : Operation) (d : Db) → Untouched d (unreplaced row d).1
Untouched-unreplaced row d = ground arith

Untouched-closed_unpaid :
    (now uuid digest : ℕ) (row : Operation) (r : Option Recovery) (d : Db)
    → Untouched d (closed_unpaid now uuid digest row r d).1
unfolding insert_operation
Untouched-closed_unpaid now uuid digest row none d = Untouched-unreplaced row d
Untouched-closed_unpaid now uuid digest row (some r) d = ground arith

Untouched-known :
    (now uuid digest : ℕ) (row : Operation) (d : Db) → Untouched d (known now uuid digest row d).1
Untouched-known now uuid digest row d =
    ground (arith, Untouched-closed_unpaid now uuid digest row (find_recovery row.id d) d)

Untouched-unknown :
    (now uuid digest : ℕ) (oid : Option ℕ) (d : Db) → Untouched d (unknown now uuid digest oid d).1
Untouched-unknown now uuid digest (some oid) d = Untouched-insert now oid digest d
Untouched-unknown now uuid digest none d = ground (arith, Untouched-insert now uuid digest d)

Untouched-begin_row :
    (now uuid digest : ℕ) (oid : Option ℕ) (row : Option (Option Operation)) (d : Db)
    → Untouched d (begin_row now uuid digest oid row d).1
Untouched-begin_row now uuid digest oid none d = (refl, refl, refl)
Untouched-begin_row now uuid digest oid (some none) d = Untouched-unknown now uuid digest oid d
Untouched-begin_row now uuid digest oid (some (some row)) d = Untouched-known now uuid digest row d

Untouched-commit :
    {A : Type 0} (d : Db) (r : Result A × Db) → Untouched d r.1 → Untouched d (commit d r).1
Untouched-commit d (ok a, e) h = h
Untouched-commit d (err x, e) h = (refl, refl, refl)

pub begin_locked-Quiet :
    (cfg : Config) (now uuid digest : ℕ) (oid : Option ℕ) (d : Db)
    → Quiet cfg d (begin_locked now uuid digest oid d).1
unfolding begin_locked
begin_locked-Quiet cfg now uuid digest oid d =
    let row = follow_row link_limit (row_of oid d) d in
    let (p, r, s) =
      Untouched-commit d (begin_row now uuid digest oid row d)
        (Untouched-begin_row now uuid digest oid row d) in
    stays p r s
