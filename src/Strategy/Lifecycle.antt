-- ===== src/Strategy/Lifecycle.antt =====
-- Where `_update_status` of server/src/services/strategy_service.py leaves a strategy.
use mangrove_agent.Prelude.{
  ℕ, ◌≡◌, ◌⊎◌, inl, inr, refl, sym, ◌∙◌, is_some, if◌then◌else◌, true, false, not, ◌&&◌, ◌||◌,
  Option, none, some, arith, subst, if_elim, if_cases,
}
use mangrove_agent.Flow.{
  Result, ok, err, Error, Action, bind_result, atomic_elim, gets, lift_elim, raise_if_elim, ◌>>=◌,
  wallet_not_found, modify, pure, invalid_status_transition, confirmation_required, ◌>>◌,
  scheduler_error,
}
use mangrove_agent.Strategy.{
  Status, Desk, World, AllocationInput, Allocation, StatusUpdate, allows, status_eq, paper, live,
  is_mode, is_running, needs_confirm, register_job, stop_monitor, exit_monitor_mode,
  get_active_allocation, release_allocation, record_allocation, apply_scheduler_effects,
  update_status, update_to, move_to, fund, sync_upstream, fund_broker, record_dex_allocation,
  record_amount, record_beside, record_capital, Capital, insert_allocation, release_active,
}

-- What funding and compensation leave alone.
abbrev pub SameStatus : Desk → Desk → Type 0
SameStatus d t = (t.status ≡ d.status) × (t.upstream ≡ d.upstream)

record_capital-SameStatus :
    (w : World) (r : AllocationInput) (n : ℕ) (c : Option Capital) (d t : Desk)
    → SameStatus d t
    → SameStatus d (record_capital w r n c t).1
record_capital-SameStatus w r n (some c) d t h = h
record_capital-SameStatus w r n none d t h =
    if_elim (λ (p : Result (Unit {0}) × Desk). SameStatus d p.1) w.has_history _ _ h h

record_beside-SameStatus :
    (w : World) (r : AllocationInput) (n : ℕ) (a : Option Allocation) (d : Desk)
    → SameStatus d (record_beside w r n a d).1
record_beside-SameStatus w r n (some a) d = (refl, refl)
record_beside-SameStatus w r n none d =
    atomic_elim (SameStatus d) (insert_allocation w r n) d (refl, refl)
      λ u t e.
        subst (λ p. SameStatus d p.1) e (record_capital-SameStatus w r n d.capital d _ (refl, refl))

record_amount-SameStatus :
    (w : World) (r : AllocationInput) (n : Option ℕ) (d : Desk)
    → SameStatus d (record_amount w r n d).1
unfolding get_active_allocation
record_amount-SameStatus w r none d = (refl, refl)
record_amount-SameStatus w r (some n) d =
    raise_if_elim (λ p. SameStatus d p.1) (not w.wallet_exists) wallet_not_found
      (gets get_active_allocation >>= record_beside w r n) d (refl, refl)
      λ _. record_beside-SameStatus w r n (get_active_allocation d) d

record_dex_allocation-SameStatus :
    (w : World) (r : Option AllocationInput) (d : Desk)
    → SameStatus d (record_dex_allocation w r d).1
unfolding record_allocation
record_dex_allocation-SameStatus w none d = (refl, refl)
record_dex_allocation-SameStatus w (some r) d =
    lift_elim (λ p. SameStatus d p.1) w.backup_confirmed _ d (λ _. (refl, refl))
      (record_amount-SameStatus w r r.amount d)

fund_broker-SameStatus :
    (w : World) (r : Option AllocationInput) (d : Desk) → SameStatus d (fund_broker w r d).1
fund_broker-SameStatus w none d = (refl, refl)
fund_broker-SameStatus w (some r) d = (refl, refl)

fund-SameStatus : (w : World) (r : Option AllocationInput) (d : Desk) → SameStatus d (fund w r d).1
fund-SameStatus w r d =
    if_elim (λ (m : Action Desk (Unit {0})). SameStatus d (m d).1) w.is_broker_bound _ _
      (fund_broker-SameStatus w r d) (record_dex_allocation-SameStatus w r d)

release_active-SameStatus : (a : Option Allocation) (d : Desk) → SameStatus d (release_active a d)
release_active-SameStatus none d = (refl, refl)
release_active-SameStatus (some a) d = (refl, refl)

release_allocation-SameStatus : (d t : Desk) → SameStatus d t → SameStatus d (release_allocation t)
unfolding release_allocation
release_allocation-SameStatus d t h = released (get_active_allocation t)
  where
    released : (a : Option Allocation) → SameStatus d (release_active a t)
    released none = h
    released (some a) = h

-- The scheduler raises nothing but its own error, and only if it fails.
abbrev pub Schedules : World → Desk → Result (Unit {0}) × Desk → Type 0
Schedules w d (ok u, t) = SameStatus d t
Schedules w d (err e, t) =
    SameStatus d t × (w.scheduler_fails ≡ true) × (Path Error e scheduler_error)

register_job-Schedules :
    (w : World) (d t : Desk) → SameStatus d t → Schedules w d (register_job w t)
register_job-Schedules w d t h =
    if_cases (Schedules w d) w.scheduler_fails _ _ (λ e. (h, e, refl)) (λ e. h)

stop_monitor-Schedules :
    (w : World) (m row : Option Status) (current : Status) (d t : Desk)
    → SameStatus d t
    → Schedules w d (stop_monitor w m row current t)
stop_monitor-Schedules w (some m) row current d t h =
    register_job-Schedules w d (record t { exit_only = some m }) h
stop_monitor-Schedules w none row current d t h =
    if_elim (SameStatus d) (status_eq current live || is_mode live row) _ _
      (release_allocation-SameStatus d (record t { is_scheduled = false }) h) h

pub apply_scheduler_effects-Schedules :
    (w : World) (mode : Option Status) (target current : Status) (d t : Desk)
    → SameStatus d t
    → Schedules w d (apply_scheduler_effects w mode target current t)
unfolding apply_scheduler_effects
apply_scheduler_effects-Schedules w mode target current d t h =
    if_elim (Schedules w d) (is_running target) _ _ (register_job-Schedules w d t h)
      (stop_monitor-Schedules w (exit_monitor_mode w mode current) mode current d t h)

-- The scheduler has failed after the upstream call: the two statuses have come apart.
abbrev pub ComesApart : World → Desk → Error → Desk → Type 0
ComesApart w d e t =
    (t.status ≡ d.status)
    × (allows d.status t.upstream ≡ true)
    × (w.scheduler_fails ≡ true)
    × (w.upstream_fails ≡ false)
    × (e ≡ scheduler_error)

-- How a call ends: it changes nothing, or it moves the strategy along an edge here and upstream.
abbrev pub Ends : World → Desk → Result (Unit {0}) × Desk → Type 0
Ends w d (ok u, t) = (t ≡ d) ⊎ ((allows d.status t.status ≡ true) × (t.upstream ≡ t.status))
Ends w d (err e, t) = SameStatus d t ⊎ ComesApart w d e t

-- What `_update_status` does after the funding.
abbrev pub finish :
    World → Status → Option Status → Status → Option Allocation → Action Desk (Unit {0})
finish w current mode target prior =
    sync_upstream w target prior
    >> (apply_scheduler_effects w mode target current >> modify (λ d. record d { status = target }))

-- The row is written only if the scheduler has not failed.
scheduled-Ends :
    (w : World) (target : Status) (d s : Desk) (p : Result (Unit {0}) × Desk)
    → allows d.status target ≡ true
    → w.upstream_fails ≡ false
    → s.status ≡ d.status
    → s.upstream ≡ target
    → Schedules w s p
    → Ends w d (bind_result p (λ _. modify (λ d. record d { status = target })))
scheduled-Ends w target d s (ok u, t) a n h g k = inr (a, k.1 ∙ g)
scheduled-Ends w target d s (err x, t) a n h g k =
    let (same, fails, is_error) = k in
    inr (same.0 ∙ h, subst (λ v. allows d.status v ≡ true) (sym (same.1 ∙ g)) a, fails, n, is_error)

finish-Ends :
    (w : World) (mode : Option Status) (target : Status) (prior : Option Allocation) (d t : Desk)
    → allows d.status target ≡ true
    → SameStatus d t
    → Ends w d (finish w d.status mode target prior t)
finish-Ends w mode target prior d t a h =
    if_cases
      (λ (p : Result (Unit {0}) × Desk). Ends w d (
        bind_result p (λ _.
          apply_scheduler_effects w mode target d.status
          >> modify (λ d. record d { status = target }))))
      w.upstream_fails _ _
      (λ _. inl (
        if_elim (SameStatus d) (status_eq target live && not (is_some prior)) _ _
          (release_allocation-SameStatus d t h) h))
      (λ n.
        scheduled-Ends w target d (record t { upstream = target }) _ a n h.0 refl
          (apply_scheduler_effects-Schedules w mode target d.status (record t { upstream = target })
            (record t { upstream = target }) (refl, refl)))

-- After an action that keeps the status.
bind-Ends :
    (w : World) (d t : Desk) (m k : Action Desk (Unit {0}))
    → SameStatus d (m t).1
    → ((e : Desk) → SameStatus d e → Ends w d (k e))
    → Ends w d ((m >> k) t)
bind-Ends w d t m k = go (m t)
  where
    go :
        (r : Result (Unit {0}) × Desk)
        → SameStatus d r.1
        → ((e : Desk) → SameStatus d e → Ends w d (k e))
        → Ends w d (bind_result r λ _. k)
    go (ok u, e) h g = g e h
    go (err x, e) h g = inl h

move_to-Ends :
    (w : World) (u : StatusUpdate) (mode : Option Status) (target : Status) (d : Desk)
    → Ends w d (move_to w u d.status mode target d)
unfolding get_active_allocation
move_to-Ends w u mode target d =
    raise_if_elim (Ends w d) (not (allows d.status target)) invalid_status_transition _ d
      (inl (refl, refl))
      λ a.
        raise_if_elim (Ends w d) (status_eq target paper && is_mode live mode)
          invalid_status_transition _ d (inl (refl, refl))
          λ _.
            raise_if_elim (Ends w d) (status_eq target paper && w.is_broker_bound)
              invalid_status_transition _ d (inl (refl, refl))
              λ _.
                raise_if_elim (Ends w d)
                  (status_eq target live && (is_mode paper mode || w.has_paper_exposure))
                  invalid_status_transition _ d (inl (refl, refl))
                  λ _.
                    raise_if_elim (Ends w d) (needs_confirm d.status target && not u.confirm)
                      confirmation_required _ d (inl (refl, refl))
                      λ _.
                        bind-Ends w d d
                          (if status_eq target live then fund w u.allocation else pure tt)
                          (finish w d.status mode target (get_active_allocation d))
                          (if_elim (λ (m : Action Desk (Unit {0})). SameStatus d (m d).1)
                            (status_eq target live) _ _ (fund-SameStatus w u.allocation d)
                            (refl, refl))
                          λ e.
                            finish-Ends w mode target (get_active_allocation d) d e (ground arith)

-- An update that returns leaves the strategy as it was, or moves it along an edge of the transition
-- table with the upstream status equal to the new one. One that raises leaves both statuses, except
-- that a registration with the scheduler that fails after the upstream call has returned raises its
-- error with the upstream status already moved along an edge of the table.
pub update_status-Ends : (w : World) (u : StatusUpdate) (d : Desk) → Ends w d (update_status w u d)
unfolding update_status
update_status-Ends w u d = go u.target
  where
    go : (target : Option Status) → Ends w d (update_to w u target d)
    go none = inl (refl, refl)
    go (some s) =
        if_elim (Ends w d) (status_eq s d.status) _ _ (inl refl) (move_to-Ends w u d.exit_only s d)
