-- ===== src/Dex/Fills/Again.antt =====
-- A fill that is reported twice is booked once: `apply_fill` of server/src/services/dex_confirmed.py.
use mangrove_agent.Prelude.{ℕ, ◌≡◌, refl, ap, subst, true, Option, none, some, if_cases}
use mangrove_agent.Prelude.Tables.{find_where-set_same}
use mangrove_agent.Flow.{Result, ok, err, commit}
use mangrove_agent.Dex.{DexOrder}
use mangrove_agent.Dex.Fills.{
  DexHolding, DexBook, Proved, find_dex_order, find_dex_holding, held_by, is_confirmed_status,
  fill_quantity, collides, confirm_order, fill_held, fill_at, fill_current, apply_fill, violates,
}

-- The order is there and confirmed.
abbrev Confirms : ℕ → DexBook → Type 0
Confirms oid d =
    (x : DexOrder) × ((find_dex_order oid d.orders ≡ some x)
      × (is_confirmed_status x.status ≡ true))

-- The row of an order after its fill.
fill_held-Confirms :
    (o : DexOrder) (pid : ℕ) (v : Proved) (held : Option DexHolding) (b c : DexBook)
    (row : DexOrder)
    → find_dex_order o.id b.orders ≡ some row
    → fill_held o pid v held b ≡ (ok tt, c)
    → Confirms o.id c
fill_held-Confirms o pid v held b c row found =
    if_cases P (violates o.intent.action (fill_quantity o.intent.action v) held) _ _ (λ e k. cc)
      (λ fits.
        if_cases P (collides o.intent.action o.id pid b) _ _ (λ e k. cc)
          (λ free k. subst (Confirms o.id) (ap (λ (r : Result (Unit {0}) × DexBook). r.1) k) (
            _,
            (
              find_where-set_same (λ (x : DexOrder). x.id) o.id (confirm_order o.context _) row
                  b.orders (λ y. refl) found,
              refl,
            ),
          )))
  where
    P : Result (Unit {0}) × DexBook → Type 0
    P r = r ≡ (ok tt, c) → Confirms o.id c

fill_at-Confirms :
    (o : DexOrder) (pid : Option ℕ) (v : Proved) (b c : DexBook) (row : DexOrder)
    → find_dex_order o.id b.orders ≡ some row
    → fill_at o pid v b ≡ (ok tt, c)
    → Confirms o.id c
fill_at-Confirms o none v b c row found h = cc
fill_at-Confirms o (some pid) v b c row found h =
    fill_held-Confirms o pid v (held_by o.strategy_id (find_dex_holding pid b.holdings)) b c row
      found h

fill_current-Confirms :
    (o : DexOrder) (v : Proved) (current : Option DexOrder) (b c : DexBook)
    → find_dex_order o.id b.orders ≡ current
    → fill_current o v current b ≡ (ok tt, c)
    → Confirms o.id c
fill_current-Confirms o v none b c found = λ h. cc
fill_current-Confirms o v (some row) b c found =
    if_cases P (is_confirmed_status row.status) _ _
      (λ e k.
        subst (Confirms o.id) (ap (λ (r : Result (Unit {0}) × DexBook). r.1) k) (row, (found, e)))
      (λ e k. fill_at-Confirms o o.intent.engine_position_id v b c row found k)
  where
    P : Result (Unit {0}) × DexBook → Type 0
    P r = r ≡ (ok tt, c) → Confirms o.id c

commit-ok :
    {S A : Type 0} (s : S) (r : Result A × S) (a : A) (t : S)
    → commit s r ≡ (ok a, t)
    → r ≡ (ok a, t)
commit-ok s (ok b, u) a t h = h
commit-ok s (err e, u) a t h = cc

-- A fill that was booked leaves its order confirmed, and any further fill of that order, whatever its
-- receipt proves, then changes nothing.
pub apply_fill_again :
    (o : DexOrder) (v w : Proved) (b c : DexBook)
    → apply_fill o v b ≡ (ok tt, c)
    → apply_fill o w c ≡ (ok tt, c)
unfolding apply_fill
apply_fill_again o v w b c h =
    let (x, stays) =
      fill_current-Confirms o v (find_dex_order o.id b.orders) b c refl
        (commit-ok b (fill_current o v (find_dex_order o.id b.orders) b) tt c h) in
    rw stays.0 (rw stays.1 refl)
