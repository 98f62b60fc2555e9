-- ===== src/Ledger/Budget/Bound.antt =====
-- What one request can pay in all under the bounds of server/src/services/payment_budget.py.
use mangrove_agent.Prelude.{
  ℕ, zero, suc, ◌+◌, ◌*◌, ◌≤◌, ◌≡◌, refl, true, false, some, List, [], ◌∷◌, arith, ltb, leb,
  Bool-cases, inl, inr,
}
use mangrove_agent.Flow.{Result, ok, err}
use mangrove_agent.Ledger.Budget.{PaymentBudget, payment_budget, consume}

-- What a payment adds to the sum.
abbrev added : Result (Unit {0}) → ℕ → ℕ
added (ok u) a = a
added (err e) a = 0

-- The sum of the attempted payments that the budget of a request lets through.
unfoldable pub passed_total : List ℕ → PaymentBudget → ℕ
unfolding consume
passed_total [] b = 0
passed_total (a ∷ prices) b = added (consume a b).0 a + passed_total prices (consume a b).1

abbrev at_price : ℕ → ℕ → ℕ → PaymentBudget
at_price m p u = record { max_payments = m; payments = p; unit_micro_usd = some u }

-- Nothing passes once the limit is reached.
passed_total-full :
    (b : PaymentBudget) (prices : List ℕ)
    → leb b.max_payments b.payments ≡ true
    → passed_total prices b ≡ 0
unfolding passed_total consume
passed_total-full b [] h = refl
passed_total-full b (a ∷ prices) h = rw h (ground (arith, passed_total-full b prices h))

-- `k` payments are left.
passed_total_le :
    (u m p k : ℕ) (prices : List ℕ) → p + k ≡ m → passed_total prices (at_price m p u) ≤ k * u
unfolding passed_total consume
passed_total_le u m p k [] h = ground arith
passed_total_le u m p zero (a ∷ prices) h =
    ground (arith, passed_total-full (at_price m p u) (a ∷ prices) (ground arith))
passed_total_le u m p (suc k) (a ∷ prices) h =
    let left : leb m p ≡ false = ground arith in
    elim (Bool-cases (ltb u a)) [
      | inl big ↦ rw (left, big) (ground (arith, passed_total_le u m p (suc k) prices h))
      | inr small ↦
          rw (left, small) (ground (arith, passed_total_le u m (p + 1) k prices (omega arith)))
    ]

-- A request with a limit of `n` payments whose first payment costs `a` pays at most `n * a` in all,
-- whatever the prices that the server asks for afterwards.
pub passed_total_bound :
    (n a : ℕ) (prices : List ℕ) → passed_total (a ∷ prices) (payment_budget n) ≤ n * a
unfolding passed_total consume
passed_total_bound zero a prices = ground (arith, passed_total-full (payment_budget 0) prices refl)
passed_total_bound (suc n) a prices =
    ground (arith, passed_total_le a (suc n) 1 n prices (omega arith))
