-- ===== src/Ledger/Evidence/Once.antt =====
-- Evidence from the chain is applied once: server/src/services/x402_reconciliation.py and
-- refund_service.py against repeated and concurrent workers.
use mangrove_agent.Prelude.{
  ℕ, ◌≡◌, inl, inr, refl, sym, subst, Bool, true, false, ◌&&◌, Option, none, some, List, [], ◌∷◌,
  ◌==◌, any, arith, Bool-cases,
}
use mangrove_agent.Prelude.Text.{Text}
use mangrove_agent.Prelude.Tables.{update_where, find_where, find_where-holds}
use mangrove_agent.Flow.{Result, ok, err, commit, bind_result, pure}
use mangrove_agent.Ledger.{Payment, Refund, Db, is_settled}
use mangrove_agent.Ledger.Reserve.{Env}
use mangrove_agent.Ledger.Steps.Chain.{lift_stop-StopCases}
use mangrove_agent.Ledger.Evidence.{
  is_unchanged, is_unconfirmed, confirm_refund, is_taken, lift_stop, confirm_current,
  confirm_locked, confirm_verified, refund_row, apply_confirmed_refund,
}

-- No refund of the reservation waits for its confirmation.
abbrev pub IsConfirmed : ℕ → Db → Type 0
IsConfirmed id d = any (is_unconfirmed id) d.refunds ≡ false

confirmed-all :
    (now id : ℕ) (tx : Option Text) (rs : List Refund)
    → any (is_unconfirmed id) (update_where (is_unconfirmed id) (confirm_refund now tx) rs) ≡ false
unfolding update_where
confirmed-all now id tx [] = refl
confirmed-all now id tx (r ∷ rs) = ground (arith, confirmed-all now id tx rs)

module _ (env : Env) (p : Payment) (tx : Option Text) (d : Db) where
  -- The ledger after the update, before the stop is looked at.
  abbrev credited : Db
  credited = record d {
    refunds = update_where (is_unconfirmed p.id) (confirm_refund env.now tx) d.refunds;
  }

  abbrev finished : Result (Unit {0}) × Db → Result Bool × Db
  finished r = commit d (bind_result r (λ _. pure true))

  credited-IsConfirmed :
      (e : Db) → finished (lift_stop env p.period_id credited) ≡ (ok true, e) → IsConfirmed p.id e
  credited-IsConfirmed e h = elim (lift_stop-StopCases env p.period_id credited) [
    | inl (x, k) ↦ ground (arith, subst (λ r. finished r ≡ (ok true, e)) k h)
    | inr (inl k) ↦
        ground (
          arith,
          subst (λ r. finished r ≡ (ok true, e)) k h,
          confirmed-all env.now p.id tx d.refunds,
        )
    | inr (inr (k, below)) ↦
        ground (
          arith,
          subst (λ r. finished r ≡ (ok true, e)) k h,
          confirmed-all env.now p.id tx d.refunds,
        )
  ]

  confirm_current-IsConfirmed :
      (e : Db) → commit d (confirm_current env p tx d) ≡ (ok true, e) → IsConfirmed p.id e
  confirm_current-IsConfirmed e h = elim (Bool-cases (any (is_unconfirmed p.id) d.refunds)) [
    | inr a ↦ ground (arith, rw a at h)
    | inl a ↦ elim (Bool-cases (is_taken p.network tx p.id d.refunds)) [
      | inl b ↦ ground (arith, rw (a, b) at h)
      | inr b ↦ credited-IsConfirmed e (rw (a, b) at h)
    ]
  ]

  confirm_locked-IsConfirmed :
      (e : Db) → confirm_locked env p tx d ≡ (ok true, e) → IsConfirmed p.id e
  unfolding confirm_locked
  confirm_locked-IsConfirmed e h =
      elim (Bool-cases (is_unchanged p (find_where (λ (q : Payment). q.id == p.id) d.payments))) [
        | inl k ↦ confirm_current-IsConfirmed e (rw k at h)
        | inr k ↦ ground (arith, rw k at h)
      ]

  -- Without a waiting refund nothing is written.
  confirm_locked-stays : IsConfirmed p.id d → (confirm_locked env p tx d).1 ≡ d
  unfolding confirm_locked
  confirm_locked-stays h =
      elim (Bool-cases (is_unchanged p (find_where (λ (q : Payment). q.id == p.id) d.payments))) [
        | inl k ↦ rw (k, h) refl
        | inr k ↦ rw k refl
      ]

module _ (env : Env) (confirmed_now : Bool) (verify : Payment → Result (Option Text)) (id : ℕ)
    (before : Db) where
  verified-IsConfirmed :
      (p : Payment) (r : Result (Option Text)) (d e : Db)
      → confirm_verified env p r d ≡ (ok true, e)
      → IsConfirmed p.id e
  verified-IsConfirmed p (ok none) d e h = ground arith
  verified-IsConfirmed p (ok (some tx)) d e h = confirm_locked-IsConfirmed env p (some tx) d e h
  verified-IsConfirmed p (err x) d e h = ground arith

  verified-stays :
      (p : Payment) (r : Result (Option Text)) (d : Db)
      → IsConfirmed p.id d
      → (confirm_verified env p r d).1 ≡ d
  verified-stays p (ok none) d h = refl
  verified-stays p (ok (some tx)) d h = confirm_locked-stays env p (some tx) d h
  verified-stays p (err x) d h = refl

  row-IsConfirmed :
      (row : Option Payment) (d e : Db)
      → ((p : Payment) → row ≡ some p → p.id ≡ id)
      → refund_row env confirmed_now verify row d ≡ (ok true, e)
      → IsConfirmed id e
  row-IsConfirmed none d e own h = ground arith
  row-IsConfirmed (some p) d e own h = elim (Bool-cases (is_settled p.state && confirmed_now)) [
    | inl k ↦
        subst (λ n. IsConfirmed n e) (own p refl)
          (verified-IsConfirmed p (verify p) d e (rw k at h))
    | inr k ↦ ground (arith, rw k at h)
  ]

  row-stays :
      (row : Option Payment) (d : Db)
      → ((p : Payment) → row ≡ some p → p.id ≡ id)
      → IsConfirmed id d
      → (refund_row env confirmed_now verify row d).1 ≡ d
  row-stays none d own h = refl
  row-stays (some p) d own h = elim (Bool-cases (is_settled p.state && confirmed_now)) [
    | inl k ↦
        rw k (verified-stays p (verify p) d (subst (λ n. IsConfirmed n d) (sym (own p refl)) h))
    | inr k ↦ rw k refl
  ]

  own_row :
      (p : Payment) → find_where (λ (q : Payment). q.id == id) before.payments ≡ some p → p.id ≡ id
  own_row p h = ground (arith, find_where-holds (λ (q : Payment). q.id == id) before.payments p h)

  applied-IsConfirmed :
      (d e : Db)
      → apply_confirmed_refund env confirmed_now verify id before d ≡ (ok true, e)
      → IsConfirmed id e
  unfolding apply_confirmed_refund
  applied-IsConfirmed d e h =
      row-IsConfirmed (find_where (λ (q : Payment). q.id == id) before.payments) d e own_row h

  applied-stays :
      (d : Db)
      → IsConfirmed id d
      → (apply_confirmed_refund env confirmed_now verify id before d).1 ≡ d
  unfolding apply_confirmed_refund
  applied-stays d h =
      row-stays (find_where (λ (q : Payment). q.id == id) before.payments) d own_row h

-- Once a refund of a reservation has been applied, applying one again, with any evidence, at any
-- time and from any ledger that was read before, writes nothing: a refund is credited once.
pub refund_once :
    (env env' : Env) (b b' : Bool) (verify verify' : Payment → Result (Option Text)) (id : ℕ)
    (before before' d e : Db)
    → apply_confirmed_refund env b verify id before d ≡ (ok true, e)
    → (apply_confirmed_refund env' b' verify' id before' e).1 ≡ e
refund_once env env' b b' verify verify' id before before' d e h =
    applied-stays env' b' verify' id before' e (applied-IsConfirmed env b verify id before d e h)
