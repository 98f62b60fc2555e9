-- ===== src/Ledger/Safety.antt =====
-- What every step of the budget's contract keeps: the facts behind the guarantees of
-- server/src/services/spend_service.py.
pub mod Facts
pub mod Audit
pub mod Unsigned
pub mod Marking
pub mod Proving
pub mod Starting
use native.Mathlib.Nat.{le_trans}
use mangrove_agent.Prelude.{
  ℕ, ◌+◌, ◌-◌, ◌≤◌, ◌<◌, ◌≡◌, ◌⊎◌, inl, inr, refl, ◌∙◌, Bool, true, false, Option, none, some, List,
  [], ◌∷◌, ◌++◌, ltb, leb, ◌==◌, ◌&&◌, if◌then◌else◌, All, arith,
}
use mangrove_agent.Prelude.Tables.{
  update_where, find_where, sum_by, sum_by-snoc, sum_by-update_le, All-mono, All-snoc, All-update,
}
use mangrove_agent.Ledger.{Payment, PayState, authorized, settled, released, Refund, SpendState, Db}
use mangrove_agent.Ledger.Amount.{Config}
use mangrove_agent.Ledger.Spent.{
  counted, refunded, charge, credit_of, refunded-snoc, Gentle, counted-update_le,
  refunded-update_ge, counted-fresh,
}
use mangrove_agent.Ledger.Keys.{Unique, KeepsKey, Unique-snoc, Unique-update}
use mangrove_agent.Ledger.Unsigned.{live_ids}
use mangrove_agent.Ledger.Steps.{
  Step, quiet, stays, authorizes, closes, credits, renews, Closes, Keeps, Fits, full, budget,
  spent_now,
}
use mangrove_agent.Ledger.Safety.Facts.{
  budget-eq, Closes-Gentle, live_count, live_weight, Closes-live, live_count-zero,
}

-- The committed spend of the period is covered by the budget and by what was paid back.
abbrev pub IsWithin : Config → Db → Type 0
IsWithin cfg d =
    counted d.spend.period_id d.payments
    ≤ budget cfg d.spend + refunded d.spend.period_id d.payments d.refunds

-- No row is stamped with a period to come.
abbrev pub IsStamped : Db → Type 0
IsStamped d = All (λ p. p.period_id ≤ d.spend.period_id) d.payments

-- A full budget is stopped.
abbrev pub IsLatched : Config → Db → Type 0
IsLatched cfg d = budget cfg d.spend ≤ spent_now d → 0 < spent_now d → d.spend.exhausted ≡ true

-- An operation has at most one reservation that is not released.
abbrev pub IsSingle : Db → Type 0
IsSingle d = (oid : ℕ) → live_count oid d.payments ≤ 1

module _ (cfg : Config) (d e : Db) where
  gentle :
      (c : Payment → Bool) (g : Payment → Payment) (period : ℕ)
      → All (λ p. c p ≡ true → Closes p (g p)) d.payments
      → All (λ p. c p ≡ true → Gentle period d.payments g p) d.payments
  gentle c g period h =
      All-mono (λ p. c p ≡ true → Closes p (g p)) (λ p. c p ≡ true → Gentle period d.payments g p)
        d.payments (λ p k j. Closes-Gentle period d.payments g p (k j)) h

  unnamed : IsStamped d → All (λ p. (p.period_id == d.spend.period_id + 1) ≡ false) d.payments
  unnamed st =
      All-mono (λ p. p.period_id ≤ d.spend.period_id)
        (λ p. (p.period_id == d.spend.period_id + 1) ≡ false) d.payments (λ p h. ground arith) st

  -- In the terms of the ledger before the step.
  counted_after :
      (c : Payment → Bool) (g : Payment → Payment)
      → All (λ p. c p ≡ true → Closes p (g p)) d.payments
      → (counted d.spend.period_id (update_where c g d.payments)
          ≤ counted d.spend.period_id d.payments)
        × (refunded d.spend.period_id d.payments d.refunds
            ≤ refunded d.spend.period_id (update_where c g d.payments) d.refunds)
  counted_after c g h =
      let k = gentle c g d.spend.period_id h in
      (
        counted-update_le d.spend.period_id d.payments c g k,
        refunded-update_ge d.spend.period_id d.payments c g k d.refunds,
      )

  pub Step-IsWithin : Step cfg d e → IsStamped d → IsWithin cfg d → IsWithin cfg e
  Step-IsWithin (quiet (stays p r s)) st h = rw (s, p, r) h
  Step-IsWithin (authorizes p f a b c g x) st h =
      rw
        (
          budget-eq cfg e.spend d.spend g,
          c,
          a,
          b,
          refunded-snoc d.spend.period_id d.payments p d.refunds (ground (arith, f.state)),
          sum_by-snoc (charge d.spend.period_id) d.payments p,
        )
        (ground (arith, f.room, f.state, f.period))
  Step-IsWithin (quiet (closes c g h p r k)) st w =
      rw (budget-eq cfg e.spend d.spend k.same_cap, k.same_period, p, r)
        (omega (arith, counted_after c g h))
  Step-IsWithin (quiet (credits p h k)) st w =
      rw (budget-eq cfg e.spend d.spend k.same_cap, k.same_period, p)
        (omega (arith, h d.spend.period_id))
  Step-IsWithin (quiet (renews p r s x)) st w =
      rw (s, p, r, counted-fresh (d.spend.period_id + 1) d.payments (unnamed st)) (omega arith)

  pub Step-IsStamped : Step cfg d e → IsStamped d → IsStamped e
  Step-IsStamped (quiet (stays p r s)) st = rw (s, p) st
  Step-IsStamped (authorizes p f a b c g x) st =
      rw (c, a)
        (All-snoc (λ q. q.period_id ≤ d.spend.period_id) d.payments p st (omega (arith, f.period)))
  Step-IsStamped (quiet (closes c g h p r k)) st =
      rw (k.same_period, p)
        (All-update (λ q. q.period_id ≤ d.spend.period_id) c g d.payments
          (All-mono (λ q. c q ≡ true → Closes q (g q))
            (λ q.
              c q ≡ true → q.period_id ≤ d.spend.period_id → (g q).period_id ≤ d.spend.period_id)
            d.payments (λ q l j m. omega (arith, (l j).same_period)) h)
          st)
  Step-IsStamped (quiet (credits p h k)) st = rw (k.same_period, p) st
  Step-IsStamped (quiet (renews p r s x)) st =
      rw (s, p)
        (All-mono (λ q. q.period_id ≤ d.spend.period_id) (λ q. q.period_id ≤ d.spend.period_id + 1)
          d.payments (λ q h. omega arith) st)

  -- What a step can do to the spend of the period.
  spent-authorizes :
      (p : Payment)
      → Fits cfg d p
      → e.payments ≡ d.payments ++ p ∷ []
      → e.refunds ≡ d.refunds
      → e.spend.period_id ≡ d.spend.period_id
      → spent_now e ≤ spent_now d + p.amount_micro_usd
  spent-authorizes p f a b c =
      rw
        (
          c,
          a,
          b,
          refunded-snoc d.spend.period_id d.payments p d.refunds (ground (arith, f.state)),
          sum_by-snoc (charge d.spend.period_id) d.payments p,
        )
        (ground (arith, f.state, f.period))

  spent-Closes :
      (c : Payment → Bool) (g : Payment → Payment)
      → All (λ p. c p ≡ true → Closes p (g p)) d.payments
      → e.payments ≡ update_where c g d.payments
      → e.refunds ≡ d.refunds
      → e.spend.period_id ≡ d.spend.period_id
      → spent_now e ≤ spent_now d
  spent-Closes c g h p r s = rw (s, p, r) (omega (arith, counted_after c g h))

  spent-credits :
      e.payments ≡ d.payments
      → refunded d.spend.period_id d.payments d.refunds
        ≤ refunded d.spend.period_id d.payments e.refunds
      → e.spend.period_id ≡ d.spend.period_id
      → spent_now e ≤ spent_now d
  spent-credits p h s = rw (s, p) (omega (arith, h))

  spent-renews :
      IsStamped d
      → e.payments ≡ d.payments
      → e.spend.period_id ≡ d.spend.period_id + 1
      → spent_now e ≡ 0
  spent-renews st p s =
      rw (s, p, counted-fresh (d.spend.period_id + 1) d.payments (unnamed st)) (omega arith)

  Keeps-IsLatched : Keeps cfg d e → spent_now e ≤ spent_now d → IsLatched cfg d → IsLatched cfg e
  Keeps-IsLatched k less w = λ m n. elim k.stop [
    | inl same ↦
        same
        ∙ w (omega (arith, m, less, budget-eq cfg e.spend d.spend k.same_cap))
            (omega (arith, n, less))
    | inr (x, below) ↦ absurd (omega (arith, below, m))
  ]

  pub Step-IsLatched : Step cfg d e → IsStamped d → IsLatched cfg d → IsLatched cfg e
  Step-IsLatched (quiet (stays p r s)) st h = rw (s, p, r) h
  Step-IsLatched (authorizes p f a b c g x) st h =
      λ m n. x ∙ ground (arith, m, n, spent-authorizes p f a b c, budget-eq cfg e.spend d.spend g)
  Step-IsLatched (quiet (closes c g h p r k)) st w =
      Keeps-IsLatched k (spent-Closes c g h p r k.same_period) w
  Step-IsLatched (quiet (credits p h k)) st w =
      Keeps-IsLatched k (spent-credits p (h d.spend.period_id) k.same_period) w
  Step-IsLatched (quiet (renews p r s x)) st w =
      λ m n. absurd (omega (arith, n, spent-renews st p s))

  pub Step-IsSingle : Step cfg d e → IsSingle d → IsSingle e
  Step-IsSingle (quiet (stays p r s)) h = rw p h
  Step-IsSingle (authorizes p f a b c g x) h =
      λ oid. rw (a, sum_by-snoc (live_weight oid) d.payments p) (one oid p.operation_id refl)
    where
      one :
          (oid : ℕ) (o : Option ℕ)
          → p.operation_id ≡ o
          → sum_by (live_weight oid) d.payments + live_weight oid p ≤ 1
      one oid none k = ground (arith, h oid)
      one oid (some own) k = ground (arith, h oid, live_count-zero own d (f.unsigned own k))
  Step-IsSingle (quiet (closes c g h p r k)) w = λ oid. rw p (
      le_trans
        (sum_by-update_le (live_weight oid) c g d.payments (
          All-mono (λ q. c q ≡ true → Closes q (g q))
            (λ q. c q ≡ true → live_weight oid (g q) ≤ live_weight oid q) d.payments
            (λ q l j. Closes-live oid q (g q) (l j)) h))
        (w oid))
  Step-IsSingle (quiet (credits p h k)) w = rw p w
  Step-IsSingle (quiet (renews p r s x)) w = rw p w

  pub Step-Unique : Step cfg d e → Unique d.payments → Unique e.payments
  Step-Unique (quiet (stays p r s)) h = rw p h
  Step-Unique (authorizes p f a b c g x) h = rw a (Unique-snoc d.payments p h f.fresh)
  Step-Unique (quiet (closes c g h p r k)) u = rw p (
      Unique-update c g d.payments
        (All-mono (λ q. c q ≡ true → Closes q (g q)) (KeepsKey c g) d.payments
          (λ q l j. (l j).same_id) h)
        u)
  Step-Unique (quiet (credits p h k)) w = rw p w
  Step-Unique (quiet (renews p r s x)) w = rw p w
