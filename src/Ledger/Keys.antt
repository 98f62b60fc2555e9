-- ===== src/Ledger/Keys.antt =====
-- `x402_payments.id` is a primary key: no two rows share it.
use mangrove_agent.Prelude.{
  ℕ, ◌≡◌, refl, Bool, true, false, none, some, List, [], ◌∷◌, ◌++◌, arith, ◌==◌, if◌then◌else◌, All,
  Bool-cases, inl, inr,
}
use mangrove_agent.Prelude.Tables.{update_where, find_where, All-snoc, All-update, All-mono}
use mangrove_agent.Ledger.{Payment}

abbrev pub Unique : List Payment → Type 0
Unique [] = Unit
Unique (p ∷ ps) = All (λ q. (q.id == p.id) ≡ false) ps × Unique ps

abbrev pub by_id : ℕ → Payment → Bool
by_id id p = p.id == id

-- A row with a key that the table does not hold may be added.
pub Unique-snoc :
    (ps : List Payment) (p : Payment)
    → Unique ps
    → find_where (by_id p.id) ps ≡ none
    → Unique (ps ++ p ∷ [])
unfolding find_where
Unique-snoc [] p u h = (tt, tt)
Unique-snoc (q ∷ ps) p u h = (
  All-snoc (λ x. (x.id == q.id) ≡ false) ps p u.0 (ground arith),
  Unique-snoc ps p u.1 (ground arith),
)

-- An update that leaves the keys alone keeps them apart.
abbrev pub KeepsKey : (Payment → Bool) → (Payment → Payment) → Payment → Type 0
KeepsKey c g p = c p ≡ true → (g p).id ≡ p.id

pub Unique-update :
    (c : Payment → Bool) (g : Payment → Payment) (ps : List Payment)
    → All (KeepsKey c g) ps
    → Unique ps
    → Unique (update_where c g ps)
unfolding update_where
Unique-update c g [] h u = tt
Unique-update c g (q ∷ ps) h u = (apart, Unique-update c g ps h.1 u.1)
  where
    same : (b : Bool) → c q ≡ b → (if b then g q else q).id ≡ q.id
    same true e = h.0 e
    same false e = refl

    old : All (λ p. (p.id == q.id) ≡ false) (update_where c g ps)
    old =
        All-update (λ p. (p.id == q.id) ≡ false) c g ps
          (All-mono (KeepsKey c g)
            (λ p. c p ≡ true → (p.id == q.id) ≡ false → ((g p).id == q.id) ≡ false) ps
            (λ p k j e. ground (arith, k j)) h.1)
          u.0

    apart : All (λ p. (p.id == (if c q then g q else q).id) ≡ false) (update_where c g ps)
    apart =
        All-mono (λ p. (p.id == q.id) ≡ false) (λ p. (p.id == (if c q then g q else q).id) ≡ false)
          (update_where c g ps) (λ p e. ground (arith, same (c q) refl)) old

-- The row that a lookup by key finds is the only one with that key.
pub only_row :
    (ps : List Payment) (id : ℕ) (row : Payment)
    → Unique ps
    → find_where (by_id id) ps ≡ some row
    → All (λ p. by_id id p ≡ true → p ≡ row) ps
unfolding find_where
only_row [] id row u h = tt
only_row (p ∷ ps) id row u h = elim (Bool-cases (by_id id p)) [
  | inl e ↦ (
    λ k. ground arith,
    All-mono (λ q. (q.id == p.id) ≡ false) (λ q. by_id id q ≡ true → q ≡ row) ps
        (λ q a b. ground arith) u.0,
  )
  | inr e ↦ (λ k. cc (rw e at k), only_row ps id row u.1 (ground arith))
]
