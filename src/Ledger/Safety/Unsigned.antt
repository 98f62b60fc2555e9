-- ===== src/Ledger/Safety/Unsigned.antt =====
-- An operation that is marked `unsigned_failed` has nothing outstanding: the flag that lets a retry
-- start again (server/src/services/payment_operations.py, x402_reconciliation.py).
use mangrove_agent.Prelude.{
  ℕ, ◌≤◌, ◌≡◌, ◌⊎◌, inl, inr, refl, subst, Bool, true, Option, none, some, ◌==◌, if◌then◌else◌,
  arith, Bool-cases,
}
use mathlib.Core.Option.{map}
use mangrove_agent.Prelude.Tables.{
  update_where, find_where, sum_by-update_le, All-mono, find_where-update, find_where-holds,
}
use mangrove_agent.Ledger.{Operation, Db, is_unsigned_failed}
use mangrove_agent.Ledger.Amount.{Config}
use mangrove_agent.Ledger.Unsigned.{find_operation}
use mangrove_agent.Ledger.Operations.{is_failed_row}
use mangrove_agent.Ledger.Steps.{Quiet, stays, closes, credits, renews, Closes}
use mangrove_agent.Ledger.Safety.Facts.{live_count, live_weight, Closes-live}

abbrev pub failed : ℕ → Db → Bool
failed oid d = is_failed_row (find_operation oid d)

-- An operation that is marked as failed before a signature has no reservation in force.
abbrev pub IsUnsigned : Db → Type 0
IsUnsigned d = (oid : ℕ) → failed oid d ≡ true → live_count oid d.payments ≡ 0

-- A call marks only such operations.
abbrev pub Marks : Db → Db → Type 0
Marks d e =
    (oid : ℕ) → failed oid e ≡ true → (failed oid d ≡ true) ⊎ (live_count oid e.payments ≡ 0)

pub Quiet-live :
    (cfg : Config) (d e : Db) (oid : ℕ)
    → Quiet cfg d e
    → live_count oid e.payments ≤ live_count oid d.payments
Quiet-live cfg d e oid (stays p r s) = rw p (omega arith)
Quiet-live cfg d e oid (closes c g h p r k) = rw p (
    sum_by-update_le (live_weight oid) c g d.payments (
      All-mono (λ q. c q ≡ true → Closes q (g q))
        (λ q. c q ≡ true → live_weight oid (g q) ≤ live_weight oid q) d.payments
        (λ q l j. Closes-live oid q (g q) (l j)) h))
Quiet-live cfg d e oid (credits p h k) = rw p (omega arith)
Quiet-live cfg d e oid (renews p r s x) = rw p (omega arith)

pub Quiet-IsUnsigned :
    (cfg : Config) (d e : Db) → Quiet cfg d e → Marks d e → IsUnsigned d → IsUnsigned e
Quiet-IsUnsigned cfg d e q m h = λ oid f. elim (m oid f) [
  | inl before ↦ omega (arith, h oid before, Quiet-live cfg d e oid q)
  | inr none_left ↦ none_left
]

pub same_operations : (d e : Db) → e.operations ≡ d.operations → Marks d e
unfolding find_operation
same_operations d e h = λ oid f. inl (rw h at f)

-- Where an update may mark an operation.
abbrev pub MayMark : Db → (Operation → Bool) → (Operation → Operation) → Type 0
MayMark e c g =
    (o : Operation)
    → c o ≡ true
    → is_unsigned_failed (g o).state ≡ true
    → (is_unsigned_failed o.state ≡ true) ⊎ (live_count o.id e.payments ≡ 0)

pub update-Marks :
    (c : Operation → Bool) (g : Operation → Operation) (d e : Db)
    → e.operations ≡ update_where c g d.operations
    → ((o : Operation) → c o ≡ true → (g o).id ≡ o.id)
    → MayMark e c g
    → Marks d e
unfolding find_operation
update-Marks c g d e h keeps may oid f =
    go (find_where q d.operations) refl (rw (h, find_where-update q c g d.operations same) at f)
  where
    q : Operation → Bool
    q o = o.id == oid

    same : (o : Operation) → c o ≡ true → q (g o) ≡ q o
    same o k = ground (arith, keeps o k)

    go :
        (found : Option Operation)
        → find_where q d.operations ≡ found
        → is_failed_row (map (λ o. if c o then g o else o) found) ≡ true
        → (is_failed_row found ≡ true) ⊎ (live_count oid e.payments ≡ 0)
    go none k f' = inl f'
    go (some o) k f' =
        let own : o.id ≡ oid = ground (arith, find_where-holds q d.operations o k) in
        elim (Bool-cases (c o)) [
          | inr n ↦ inl (rw n at f')
          | inl y ↦
              subst (λ n. (is_unsigned_failed o.state ≡ true) ⊎ (live_count n e.payments ≡ 0)) own
                (may o y (rw y at f'))
        ]
