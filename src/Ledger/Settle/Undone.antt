-- ===== src/Ledger/Settle/Undone.antt =====
-- A reservation that `release_unsigned` takes back, because nothing was signed.
use mangrove_agent.Prelude.{
  ℕ, ◌+◌, ◌-◌, ◌≤◌, ◌<◌, ◌≡◌, refl, ◌∙◌, sym, Bool, true, false, none, some, List, [], ◌∷◌, ◌++◌,
  arith, ltb, leb, ◌==◌, ◌&&◌, if◌then◌else◌, ==_refl, Bool-cases, inl, inr, ◌⊎◌, subst,
}
use mangrove_agent.Prelude.Tables.{update_where, find_where, select_where, sum_by-snoc}
use mangrove_agent.Flow.{ok}
use mangrove_agent.Ledger.{Payment, signature_refused, Db, SpendState, is_released}
use mangrove_agent.Ledger.Amount.{Config, cap_micro_usd}
use mangrove_agent.Ledger.Spent.{
  spent_micro_usd, payment_count, counted, refunded, charge, refunded-snoc,
}
use mangrove_agent.Ledger.Unsigned.{live_ids, is_live}
use mangrove_agent.Ledger.State.{is_open_row, update_state, unlatch, exhaust}
use mangrove_agent.Ledger.Reserve.{Env, Request, payment_row}
use mangrove_agent.Ledger.Reserve.Gate.{Accepts, reserved}
use mangrove_agent.Ledger.Settle.{release_unsigned, release_row, reopened}

module _ (id : ℕ) (g : Payment → Payment) (p : Payment) (own : (p.id == id) ≡ true) where
  found_last :
      (ps : List Payment)
      → find_where (λ (q : Payment). q.id == id) ps ≡ none
      → find_where (λ (q : Payment). q.id == id) (ps ++ p ∷ []) ≡ some p
  unfolding find_where
  found_last [] h = rw own refl
  found_last (q ∷ ps) h = elim (Bool-cases (q.id == id)) [
    | inl e ↦ ground arith
    | inr e ↦ rw e (found_last ps (rw e at h))
  ]

  updated_last :
      (ps : List Payment)
      → find_where (λ (q : Payment). q.id == id) ps ≡ none
      → is_open_row id p ≡ true
      → update_where (is_open_row id) g (ps ++ p ∷ []) ≡ ps ++ g p ∷ []
  unfolding find_where update_where
  updated_last [] h k = rw k refl
  updated_last (q ∷ ps) h k = elim (Bool-cases (q.id == id)) [
    | inl e ↦ ground arith
    | inr e ↦ rw (e, updated_last ps (rw e at h) k) refl
  ]

select_where-unlive :
    (oid : ℕ) (p : Payment) (ps : List Payment)
    → is_live oid p ≡ false
    → select_where (is_live oid) (ps ++ p ∷ []) ≡ select_where (is_live oid) ps
unfolding select_where
select_where-unlive oid p [] h = rw h refl
select_where-unlive oid p (q ∷ ps) h = ground (arith, select_where-unlive oid p ps h)

unlive_of_released : (oid : ℕ) (p : Payment) → is_released p.state ≡ true → is_live oid p ≡ false
unlive_of_released oid p h = ground arith

cap_micro_usd-eq :
    (cfg : Config) (s t : SpendState)
    → s.period_cap_micro_usd ≡ t.period_cap_micro_usd
    → cap_micro_usd cfg s ≡ cap_micro_usd cfg t
unfolding cap_micro_usd
cap_micro_usd-eq cfg s t h = rw h refl

-- What was before a reservation is back: the spend of the period, the open budget, and the
-- reservations in force of every operation.
abbrev pub Restores : Db → Db → Type 0
Restores d f =
    (spent_micro_usd d.spend.period_id f ≡ spent_micro_usd d.spend.period_id d)
    × (f.spend.exhausted ≡ false)
    × ((oid : ℕ) → live_ids oid f ≡ live_ids oid d)

module _ (env : Env) (r : Request) (amount : ℕ) (d : Db) where
  abbrev row : Payment
  row = payment_row env r amount d.spend

  abbrev with_row : Payment → SpendState → Db
  with_row p s = record d { payments = d.payments ++ p ∷ []; spend = s }

  abbrev closed_row : Payment
  closed_row = release_row env.now signature_refused row

  abbrev unlatch_if : Bool → Db → Db
  unlatch_if b e = if b then update_state (unlatch env.now) e else e

  released_last :
      (s : SpendState) (cap : ℕ)
      → find_where (λ (q : Payment). q.id == env.uuid) d.payments ≡ none
      → cap_micro_usd env.config s ≡ ok cap
      → (release_unsigned env env.uuid (with_row row s)).1
        ≡ unlatch_if
            (reopened cap
              (spent_micro_usd s.period_id (with_row row s))
              row
              s
              s.period_id
              (with_row closed_row s))
            (with_row closed_row s)
  unfolding release_unsigned
  released_last s cap h c =
      rw
        (
          found_last env.uuid closed_of row (==_refl env.uuid) d.payments h,
          c,
          updated_last env.uuid closed_of row (==_refl env.uuid) d.payments h
              (ground (arith, ==_refl env.uuid)),
        )
        refl
    where
      closed_of : Payment → Payment
      closed_of = release_row env.now signature_refused

  spent-row :
      (s : SpendState)
      → s.period_id ≡ d.spend.period_id
      → (spent_micro_usd s.period_id (with_row closed_row s) ≡ spent_micro_usd d.spend.period_id d)
        × (spent_micro_usd s.period_id (with_row row s)
            ≡ counted d.spend.period_id d.payments
              + amount
              - refunded d.spend.period_id d.payments d.refunds)
  unfolding spent_micro_usd
  spent-row s h = (
    rw
        (
          h,
          refunded-snoc d.spend.period_id d.payments closed_row d.refunds refl,
          sum_by-snoc (charge d.spend.period_id) d.payments closed_row,
        )
        (ground arith),
    rw
        (
          h,
          refunded-snoc d.spend.period_id d.payments row d.refunds refl,
          sum_by-snoc (charge d.spend.period_id) d.payments row,
        )
        (ground arith),
  )

  live-row : (s : SpendState) (oid : ℕ) → live_ids oid (with_row closed_row s) ≡ live_ids oid d
  unfolding live_ids
  live-row s oid =
      rw (select_where-unlive oid closed_row d.payments (unlive_of_released oid closed_row refl))
        refl

  unlatch_if-Restores :
      (s : SpendState) (b : Bool)
      → s.period_id ≡ d.spend.period_id
      → (s.exhausted ≡ false) ⊎ (b ≡ true)
      → Restores d (unlatch_if b (with_row closed_row s))
  unlatch_if-Restores s true h k = (
    subst
        (λ n.
          spent_micro_usd n (with_row closed_row (unlatch env.now s))
          ≡ spent_micro_usd d.spend.period_id d)
        h (spent-row (unlatch env.now s) h).0,
    refl,
    live-row (unlatch env.now s),
  )
  unlatch_if-Restores s false h k = (
    subst (λ n. spent_micro_usd n (with_row closed_row s) ≡ spent_micro_usd d.spend.period_id d) h
        (spent-row s h).0,
    ground (arith, k),
    live-row s,
  )

  spent-eq :
      spent_micro_usd d.spend.period_id d
      ≡ counted d.spend.period_id d.payments - refunded d.spend.period_id d.payments d.refunds
  unfolding spent_micro_usd
  spent-eq = refl

  reopens :
      (s : SpendState) (cap : ℕ)
      → s.period_id ≡ d.spend.period_id
      → s.exhausted ≡ true
      → 0 < amount
      → refunded d.spend.period_id d.payments d.refunds ≤ counted d.spend.period_id d.payments
      → spent_micro_usd d.spend.period_id d + amount ≤ cap
      → cap ≤ spent_micro_usd d.spend.period_id d + amount
      → reopened cap
          (spent_micro_usd s.period_id (with_row row s))
          row
          s
          s.period_id
          (with_row closed_row s)
        ≡ true
  reopens s cap h e pos covered room stop =
      rw ((spent-row s h).0, (spent-row s h).1, e)
        (ground (arith, spent-eq, h, pos, covered, room, stop))

  released-Restores :
      (s : SpendState) (cap : ℕ)
      → find_where (λ (q : Payment). q.id == env.uuid) d.payments ≡ none
      → cap_micro_usd env.config s ≡ ok cap
      → s.period_id ≡ d.spend.period_id
      → 0 < amount
      → refunded d.spend.period_id d.payments d.refunds ≤ counted d.spend.period_id d.payments
      → spent_micro_usd d.spend.period_id d + amount ≤ cap
      → (s.exhausted ≡ false) ⊎ (cap ≤ spent_micro_usd d.spend.period_id d + amount)
      → Restores d (release_unsigned env env.uuid (with_row row s)).1
  released-Restores s cap fresh c h pos covered room stop =
      subst (Restores d) (sym (released_last s cap fresh c)) (
        unlatch_if-Restores s
          (reopened cap (spent_micro_usd s.period_id (with_row row s)) row s s.period_id
            (with_row closed_row s))
          h
          (elim (Bool-cases s.exhausted) [
            | inr e ↦ inl e
            | inl e ↦ inr (reopens s cap h e pos covered room (ground (arith, stop)))
          ]))

-- The ledger after a reservation that `release_unsigned` takes back.
abbrev pub undone : Env → Request → ℕ → ℕ → Db → Db
undone env r amount budget d = (release_unsigned env env.uuid (reserved env r amount budget d)).1

-- After an accepted reservation of a positive amount, in a period that has not been refunded more
-- than it counts, `release_unsigned` of its id takes it back: the period has spent what it had spent
-- before, the budget is not stopped, and every operation has the reservations in force that it had.
pub reserve_undone :
    (env : Env) (r : Request) (amount : ℕ) (d : Db) (k : Accepts env r amount d)
    → 0 < amount
    → refunded d.spend.period_id d.payments d.refunds ≤ counted d.spend.period_id d.payments
    → Restores d (undone env r amount k.budget d)
reserve_undone env r amount d k pos covered = go (leb k.budget after && ltb 0 after) refl
  where
    after : ℕ
    after = spent_micro_usd d.spend.period_id d + amount

    base : Db
    base = with_row env r amount d (row env r amount d) d.spend

    stopped : SpendState
    stopped =
        exhaust env.now
          (record { spent = after; cap = k.budget; count = payment_count d.spend.period_id base })
          d.spend

    absent : find_where (λ (q : Payment). q.id == env.uuid) d.payments ≡ none
    absent = ground (arith, k.is_fresh)

    go :
        (b : Bool)
        → (leb k.budget after && ltb 0 after) ≡ b
        → Restores d
            (release_unsigned env env.uuid (if b then record base { spend = stopped } else base)).1
    go true e =
        released-Restores env r amount d stopped k.budget absent
          (cap_micro_usd-eq env.config stopped d.spend refl ∙ k.has_budget) refl pos covered
          k.has_room (inr (ground (arith, e)))
    go false e =
        released-Restores env r amount d d.spend k.budget absent k.has_budget refl pos covered
          k.has_room (inl k.is_open)
