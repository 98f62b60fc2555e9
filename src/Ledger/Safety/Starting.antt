-- ===== src/Ledger/Safety/Starting.antt =====
-- `begin` of server/src/services/payment_operations.py marks no operation as `unsigned_failed`, and
-- `reserve` signs for none that is so marked.
use mangrove_agent.Prelude.{
  ℕ, ◌+◌, ◌≡◌, inl, inr, refl, sym, subst, true, false, Option, none, some, List, [], ◌∷◌, ◌++◌,
  ◌==◌, arith, Bool-cases, any, is_some,
}
use mangrove_agent.Prelude.Tables.{find_where, sum_by-snoc}
use mangrove_agent.Flow.{commit}
use mangrove_agent.Ledger.{Payment, Operation, OpState, Db, Recovery, is_unsigned_failed}
use mangrove_agent.Ledger.Unsigned.{find_operation, belongs}
use mangrove_agent.Ledger.Operations.{is_failed_row, proven_unpaid}
use mangrove_agent.Ledger.Operations.Begin.{
  begin_locked, begin_row, follow_row, row_of, link_limit, known, unknown, join_pending,
  find_pending, closed_unpaid, unreplaced, replace, replace_rows, reclaim, insert_operation,
  new_operation, find_recovery,
}
use mangrove_agent.Ledger.Reserve.{Env, Request, Agent, reserve, payment_row}
use mangrove_agent.Ledger.Reserve.Gate.{Accepts, MaySign, reserved, reserve-db}
use mangrove_agent.Ledger.Safety.Facts.{live_count, live_weight}
use mangrove_agent.Ledger.Safety.Unsigned.{Marks, same_operations, update-Marks, failed, IsUnsigned}

-- A new operation is pending.
found-appended :
    (now id digest oid : ℕ) (os : List Operation)
    → is_failed_row
        (find_where (λ (o : Operation). o.id == oid) (os ++ new_operation now id digest ∷ []))
      ≡ true
    → is_failed_row (find_where (λ (o : Operation). o.id == oid) os) ≡ true
unfolding find_where
found-appended now id digest oid [] h = ground (arith, h)
found-appended now id digest oid (o ∷ os) h = elim (Bool-cases (o.id == oid)) [
  | inl k ↦ rw k (rw k at h)
  | inr k ↦ rw k (found-appended now id digest oid os (rw k at h))
]

append-Marks :
    (now id digest : ℕ) (d e : Db)
    → e.operations ≡ d.operations ++ new_operation now id digest ∷ []
    → Marks d e
unfolding find_operation
append-Marks now id digest d e h oid f =
    inl (found-appended now id digest oid d.operations (rw h at f))

insert-Marks :
    (now id digest : ℕ) (d : Db) → Marks d (commit d (insert_operation now id digest d)).1
unfolding insert_operation
insert-Marks now id digest d =
    elim (Bool-cases (any (λ (o : Operation). o.id == id) d.operations)) [
      | inl h ↦ rw h (same_operations d d refl)
      | inr h ↦ rw h (
          append-Marks now id digest d
            (record d { operations = d.operations ++ new_operation now id digest ∷ [] }) refl)
    ]

replace-Marks :
    (now uuid digest : ℕ) (row : Operation) (r : Recovery) (d : Db)
    → Marks d (commit d (replace now uuid digest row r d)).1
unfolding insert_operation
replace-Marks now uuid digest row r d =
    elim (Bool-cases (any (λ (o : Operation). o.id == uuid) d.operations)) [
      | inl h ↦ rw h (same_operations d d refl)
      | inr h ↦ rw h (
          append-Marks now uuid digest d
            (replace_rows uuid row.id r
              (record d { operations = d.operations ++ new_operation now uuid digest ∷ [] }))
            refl)
    ]

unreplaced-Marks : (row : Operation) (d : Db) → Marks d (commit d (unreplaced row d)).1
unreplaced-Marks row d = elim (Bool-cases (is_some row.payment_headers)) [
  | inl h ↦ rw h (same_operations d d refl)
  | inr h ↦ rw h (same_operations d d refl)
]

closed-Marks :
    (now uuid digest : ℕ) (row : Operation) (r : Option Recovery) (d : Db)
    → Marks d (commit d (closed_unpaid now uuid digest row r d)).1
closed-Marks now uuid digest row none d = unreplaced-Marks row d
closed-Marks now uuid digest row (some r) d = elim (Bool-cases r.replacement_allowed) [
  | inl h ↦ rw h (replace-Marks now uuid digest row r d)
  | inr h ↦ rw h (unreplaced-Marks row d)
]

reclaim-Marks : (now : ℕ) (row : Operation) (d : Db) → Marks d (commit d (reclaim now row d)).1
reclaim-Marks now row d =
    update-Marks (λ o. o.id == row.id) (λ o. record o { state = OpState.pending; updated_at = now })
      d (commit d (reclaim now row d)).1 refl (λ o k. refl) (λ o k f. cc)

known-Marks :
    (now uuid digest : ℕ) (row : Operation) (d : Db)
    → Marks d (commit d (known now uuid digest row d)).1
known-Marks now uuid digest row d = elim (Bool-cases (row.fingerprint == digest)) [
  | inr a ↦ rw a (same_operations d d refl)
  | inl a ↦ elim (Bool-cases (is_unsigned_failed row.state)) [
    | inr b ↦ rw (a, b) (same_operations d d refl)
    | inl b ↦ elim (Bool-cases (any (belongs row.id) d.payments)) [
      | inr c ↦ rw (a, b, c) (reclaim-Marks now row d)
      | inl c ↦ elim (Bool-cases (proven_unpaid row.id d)) [
        | inl e ↦ rw (a, b, c, e) (closed-Marks now uuid digest row (find_recovery row.id d) d)
        | inr e ↦ rw (a, b, c, e) (same_operations d d refl)
      ]
    ]
  ]
]

unknown-Marks :
    (now uuid digest : ℕ) (oid : Option ℕ) (d : Db)
    → Marks d (commit d (unknown now uuid digest oid d)).1
unknown-Marks now uuid digest (some oid) d = insert-Marks now oid digest d
unknown-Marks now uuid digest none d = go (find_pending digest d)
  where
    go : (o : Option Operation) → Marks d (commit d (join_pending now uuid digest o d)).1
    go none = insert-Marks now uuid digest d
    go (some o) = same_operations d d refl

pub begin_locked-Marks :
    (now uuid digest : ℕ) (oid : Option ℕ) (d : Db) → Marks d (begin_locked now uuid digest oid d).1
unfolding begin_locked
begin_locked-Marks now uuid digest oid d = go (follow_row link_limit (row_of oid d) d)
  where
    go :
        (row : Option (Option Operation))
        → Marks d (commit d (begin_row now uuid digest oid row d)).1
    go none = same_operations d d refl
    go (some none) = unknown-Marks now uuid digest oid d
    go (some (some row)) = known-Marks now uuid digest row d

reserved-tables :
    (env : Env) (r : Request) (amount budget : ℕ) (d : Db)
    → ((reserved env r amount budget d).payments
        ≡ d.payments ++ payment_row env r amount d.spend ∷ [])
      × ((reserved env r amount budget d).operations ≡ d.operations)
reserved-tables env r amount budget d = (ground arith, ground arith)

same_failed :
    (oid : ℕ) (d e : Db) → e.operations ≡ d.operations → failed oid e ≡ true → failed oid d ≡ true
unfolding find_operation
same_failed oid d e h f = rw h at f

weight-none : (oid : ℕ) (p : Payment) → p.operation_id ≡ none → live_weight oid p ≡ 0
weight-none oid p h = ground arith

weight-other :
    (oid n : ℕ) (p : Payment) → p.operation_id ≡ some n → (n == oid) ≡ false → live_weight oid p ≡ 0
weight-other oid n p h k = ground arith

open_failed : (n oid : ℕ) (d : Db) → MaySign n d → (n == oid) ≡ true → failed oid d ≡ true → ⊥
open_failed n oid d ((o, found, waits), nothing) k f =
    let same : n ≡ oid = ground arith in
    let found' = subst (λ x. find_operation x d ≡ some o) same found in
    ground (arith, waits, (rw found' at f))

-- A reservation is for an operation that is not marked.
pub reserved-IsUnsigned :
    (env : Env) (r : Request) (amount : ℕ) (d : Db) (k : Accepts env r amount d)
    → IsUnsigned d
    → IsUnsigned (reserved env r amount k.budget d)
reserved-IsUnsigned env r amount d k h oid f =
    let e : Db = reserved env r amount k.budget d in
    let t = reserved-tables env r amount k.budget d in
    rw (t.0, sum_by-snoc (live_weight oid) d.payments (payment_row env r amount d.spend))
      (go r.operation_id refl (same_failed oid d e (t.1) f))
  where
    row : Payment
    row = payment_row env r amount d.spend

    go :
        (o : Option ℕ)
        → r.operation_id ≡ o
        → failed oid d ≡ true
        → live_count oid d.payments + live_weight oid (payment_row env r amount d.spend) ≡ 0
    go none own f' = omega (arith, weight-none oid row own, h oid f')
    go (some n) own f' = elim (Bool-cases (n == oid)) [
      | inr other ↦ omega (arith, weight-other oid n row own other, h oid f')
      | inl mine ↦ absurd (open_failed n oid d (k.may_sign n own) mine f')
    ]

pub reserve-IsUnsigned :
    (env : Env) (r : Request) (a : Agent) → IsUnsigned a.db → IsUnsigned (reserve env r a).1.db
reserve-IsUnsigned env r a h = elim (reserve-db env r a) [
  | inl same ↦ subst IsUnsigned (sym same) h
  | inr (amount, k, e) ↦ subst IsUnsigned (sym e) (reserved-IsUnsigned env r amount a.db k h)
]
