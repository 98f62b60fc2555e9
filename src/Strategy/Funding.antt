-- ===== src/Strategy/Funding.antt =====
-- Which allocation of server/src/services/allocation_service.py a change of status leaves active.
use mangrove_agent.Prelude.{
  ℕ, ◌≡◌, ◌⊎◌, inl, inr, refl, sym, ap, subst, ◌∙◌, is_some, if◌then◌else◌, if_elim, if_cases, Bool,
  true, false, not, ◌&&◌, ◌||◌, Option, none, some, List, [], ◌∷◌, ◌==◌, arith, Bool-cases,
}
use mangrove_agent.Prelude.Tables.{update_where, find_where}
use mangrove_agent.Flow.{
  Result, ok, err, Error, Action, bind_result, commit, gets, modify, pure, lift_elim, raise_if_elim,
  ◌>>=◌, ◌>>◌, wallet_not_found, invalid_status_transition, confirmation_required, scheduler_error,
}
use mangrove_agent.Strategy.Lifecycle.{finish}
use mangrove_agent.Strategy.{
  Status, Desk, World, AllocationInput, Allocation, StatusUpdate, allows, status_eq, draft,
  inactive, paper, live, archived, is_mode, needs_confirm, get_active_allocation,
  release_allocation, record_allocation, apply_scheduler_effects, update_status, update_to, move_to,
  fund, fund_broker, record_dex_allocation, record_amount, record_beside, record_capital, Capital,
  same_capital, register_job, stop_monitor, exit_monitor_mode, is_running, release_active,
  is_active, set_inactive, new_allocation,
}

-- No allocation is active, or only the newest.
abbrev OnlyNewest : List Allocation → Type 0
OnlyNewest [] = Unit {0}
OnlyNewest (a ∷ rest) = find_where is_active rest ≡ none

find-inactive :
    (c : Allocation → Bool) (rows : List Allocation)
    → find_where is_active rows ≡ none
    → find_where is_active (update_where c set_inactive rows) ≡ none
unfolding find_where update_where
find-inactive c [] h = refl
find-inactive c (a ∷ rest) h = ground (arith, find-inactive c rest)

release_allocation-none :
    (d : Desk) → OnlyNewest d.allocations → get_active_allocation (release_allocation d) ≡ none
unfolding find_where update_where get_active_allocation release_allocation
release_allocation-none d h = go d.allocations h
  where
    go :
        (rows : List Allocation)
        → OnlyNewest rows
        → get_active_allocation
            (release_active (find_where is_active rows) (record d { allocations = rows }))
          ≡ none
    go [] h = refl
    go (a ∷ rest) h = elim (Bool-cases a.active) [
      | inl k ↦ ground (arith, find-inactive (λ b. b.id == a.id) rest h)
      | inr k ↦ ground arith
    ]

none-OnlyNewest : (rows : List Allocation) → find_where is_active rows ≡ none → OnlyNewest rows
unfolding find_where
none-OnlyNewest [] h = tt
none-OnlyNewest (a ∷ rest) h = elim (Bool-cases a.active) [
  | inl k ↦ ground arith
  | inr k ↦ ground arith
]

-- How the funding of a strategy without an active allocation ends.
abbrev Funds : Bool → Result (Unit {0}) × Desk → Type 0
Funds b (ok u, t) = OnlyNewest t.allocations × (b ≡ true → is_some (get_active_allocation t) ≡ true)
Funds b (err e, t) = get_active_allocation t ≡ none

commit-Funds :
    (w : World) (r : AllocationInput) (n : ℕ) (c : Option Capital) (d t : Desk)
    → get_active_allocation d ≡ none
    → OnlyNewest t.allocations × (true ≡ true → is_some (get_active_allocation t) ≡ true)
    → Funds true (commit d (record_capital w r n c t))
unfolding get_active_allocation
commit-Funds w r n (some c) d t h k =
    if_elim (λ (q : Result (Unit {0})). Funds true (commit d (q, t))) (same_capital c r n) _ _ k h
commit-Funds w r n none d t h k =
    if_elim (λ (p : Result (Unit {0}) × Desk). Funds true (commit d p)) w.has_history _ _ k k

record_beside-Funds :
    (w : World) (r : AllocationInput) (n : ℕ) (d : Desk)
    → get_active_allocation d ≡ none
    → Funds true (record_beside w r n none d)
unfolding get_active_allocation find_where
record_beside-Funds w r n d h =
    commit-Funds w r n d.capital d (record d { allocations = new_allocation w r n ∷ d.allocations })
      h (h, λ _. refl)

record_amount-Funds :
    (w : World) (r : AllocationInput) (n : Option ℕ) (d : Desk)
    → get_active_allocation d ≡ none
    → Funds true (record_amount w r n d)
unfolding get_active_allocation
record_amount-Funds w r none d h = h
record_amount-Funds w r (some n) d h =
    raise_if_elim (Funds true) (not w.wallet_exists) wallet_not_found
      (gets get_active_allocation >>= record_beside w r n) d h
      λ _. subst (λ a. Funds true (record_beside w r n a d)) (sym h) (record_beside-Funds w r n d h)

record_dex_allocation-Funds :
    (w : World) (r : Option AllocationInput) (d : Desk)
    → get_active_allocation d ≡ none
    → Funds true (record_dex_allocation w r d)
unfolding record_allocation
record_dex_allocation-Funds w none d h = h
record_dex_allocation-Funds w (some r) d h =
    lift_elim (Funds true) w.backup_confirmed _ d (λ _. h) (record_amount-Funds w r r.amount d h)

fund_broker-Funds :
    (w : World) (r : Option AllocationInput) (d : Desk)
    → get_active_allocation d ≡ none
    → Funds false (fund_broker w r d)
unfolding get_active_allocation
fund_broker-Funds w (some r) d h = h
fund_broker-Funds w none d h = go w.preflight
  where
    go : (q : Result (Unit {0})) → Funds false (q, d)
    go (ok u) = (none-OnlyNewest d.allocations h, λ e. ground arith)
    go (err e) = h

fund-Funds :
    (w : World) (r : Option AllocationInput) (d : Desk)
    → get_active_allocation d ≡ none
    → Funds (not w.is_broker_bound) (fund w r d)
fund-Funds w r d h = go w.is_broker_bound
  where
    go : (b : Bool) → Funds (not b) ((if b then fund_broker w r else record_dex_allocation w r) d)
    go true = fund_broker-Funds w r d h
    go false = record_dex_allocation-Funds w r d h

-- The scheduler has failed after the upstream service has moved to live; the flag says that the
-- strategy was to be funded by an allocation, which is then still active.
abbrev pub IsUnscheduled : World → Bool → Error → Desk → Type 0
IsUnscheduled w b e t =
    (b ≡ true → is_some (get_active_allocation t) ≡ true)
    × (t.upstream ≡ live)
    × (w.scheduler_fails ≡ true)
    × (w.upstream_fails ≡ false)
    × (e ≡ scheduler_error)

-- How a change of status ends from a strategy without an active allocation.
abbrev Settles : World → Status → Bool → Result (Unit {0}) × Desk → Type 0
Settles w s b (ok u, t) = b ≡ true → is_some (get_active_allocation t) ≡ true
Settles w s b (err e, t) = (get_active_allocation t ≡ none) ⊎ (s ≡ live) × IsUnscheduled w b e t

register_job-Settles :
    (w : World) (b : Bool) (t : Desk)
    → w.upstream_fails ≡ false
    → t.upstream ≡ live
    → (b ≡ true → is_some (get_active_allocation t) ≡ true)
    → Settles w live b
        (bind_result (register_job w t) (λ _. modify (λ d. record d { status = live })))
unfolding get_active_allocation
register_job-Settles w b t n l h =
    if_cases
      (λ (p : Result (Unit {0}) × Desk).
        Settles w live b (bind_result p (λ _. modify (λ d. record d { status = live }))))
      w.scheduler_fails _ _ (λ f. inr (refl, (h, l, f, n, refl))) (λ _. h)

finish-live :
    (w : World) (current : Status) (mode : Option Status) (b : Bool) (t : Desk)
    → Funds b (ok tt, t)
    → Settles w live b (finish w current mode live none t)
unfolding apply_scheduler_effects get_active_allocation
finish-live w current mode b t h =
    if_cases
      (λ (p : Result (Unit {0}) × Desk). Settles w live b (
        bind_result p (λ _.
          apply_scheduler_effects w mode live current >> modify (λ d. record d { status = live }))))
      w.upstream_fails _ _ (λ _. inl (release_allocation-none t h.0))
      (λ n. register_job-Settles w b (record t { upstream = live }) n refl h.1)

-- A strategy that has no active allocation gets none from the scheduler.
find-released :
    (t : Desk)
    → get_active_allocation t ≡ none
    → get_active_allocation (release_allocation t) ≡ none
unfolding get_active_allocation
find-released t h = release_allocation-none t (none-OnlyNewest t.allocations h)

register_job-none :
    (w : World) (t : Desk)
    → get_active_allocation t ≡ none
    → get_active_allocation (register_job w t).1 ≡ none
unfolding get_active_allocation
register_job-none w t h =
    if_elim (λ (p : Result (Unit {0}) × Desk). get_active_allocation p.1 ≡ none) w.scheduler_fails _
      _ h h

stop_monitor-none :
    (w : World) (m row : Option Status) (current : Status) (t : Desk)
    → get_active_allocation t ≡ none
    → get_active_allocation (stop_monitor w m row current t).1 ≡ none
unfolding get_active_allocation
stop_monitor-none w (some m) row current t h =
    register_job-none w (record t { exit_only = some m }) h
stop_monitor-none w none row current t h =
    if_elim (λ (e : Desk). get_active_allocation e ≡ none)
      (status_eq current live || is_mode live row) _ _
      (find-released (record t { is_scheduled = false }) h) h

apply_scheduler_effects-none :
    (w : World) (mode : Option Status) (target current : Status) (t : Desk)
    → get_active_allocation t ≡ none
    → get_active_allocation (apply_scheduler_effects w mode target current t).1 ≡ none
unfolding apply_scheduler_effects
apply_scheduler_effects-none w mode target current t h =
    if_elim (λ (p : Result (Unit {0}) × Desk). get_active_allocation p.1 ≡ none) (is_running target)
      _ _ (register_job-none w t h)
      (stop_monitor-none w (exit_monitor_mode w mode current) mode current t h)

none-Settles :
    (w : World) (target : Status) (p : Result (Unit {0}) × Desk)
    → get_active_allocation p.1 ≡ none
    → Settles w target false (bind_result p (λ _. modify (λ d. record d { status = target })))
none-Settles w target (ok u, t) h = λ e. ground arith
none-Settles w target (err x, t) h = inl h

finish-other :
    (w : World) (current : Status) (mode : Option Status) (target : Status) (t : Desk)
    → status_eq target live ≡ false
    → get_active_allocation t ≡ none
    → Settles w target false (finish w current mode target none t)
unfolding get_active_allocation
finish-other w current mode target t k h =
    if_elim
      (λ (p : Result (Unit {0}) × Desk). Settles w target false (
        bind_result p (λ _.
          apply_scheduler_effects w mode target current
          >> modify (λ d. record d { status = target }))))
      w.upstream_fails _ _
      (inl (
        subst (λ b. get_active_allocation (if b && true then release_allocation t else t) ≡ none)
          (sym k) h))
      (none-Settles w target _
        (apply_scheduler_effects-none w mode target current (record t { upstream = target }) h))

bind-Settles :
    (w : World) (s : Status) (b : Bool) (p : Result (Unit {0}) × Desk) (k : Action Desk (Unit {0}))
    → Funds b p
    → ((t : Desk) → Funds b (ok tt, t) → Settles w s b (k t))
    → Settles w s b (bind_result p λ _. k)
bind-Settles w s b (ok u, t) k h g = g t h
bind-Settles w s b (err x, t) k h g = inl h

funded-Settles :
    (w : World) (r : Option AllocationInput) (current : Status) (mode : Option Status)
    (target : Status) (d : Desk)
    → get_active_allocation d ≡ none
    → Settles w target (status_eq target live && not w.is_broker_bound) (
        ((if status_eq target live then fund w r else pure tt) >> finish w current mode target none)
          d)
funded-Settles w r current mode live d h =
    bind-Settles w live (not w.is_broker_bound) (fund w r d) (finish w current mode live none)
      (fund-Funds w r d h) (finish-live w current mode (not w.is_broker_bound))
funded-Settles w r current mode draft d h = finish-other w current mode draft d refl h
funded-Settles w r current mode inactive d h = finish-other w current mode inactive d refl h
funded-Settles w r current mode paper d h = finish-other w current mode paper d refl h
funded-Settles w r current mode archived d h = finish-other w current mode archived d refl h

move_to-Settles :
    (w : World) (u : StatusUpdate) (mode : Option Status) (target : Status) (d : Desk)
    → get_active_allocation d ≡ none
    → Settles w target
        (status_eq target live && not w.is_broker_bound)
        (move_to w u d.status mode target d)
unfolding get_active_allocation
move_to-Settles w u mode target d h =
    let P = Settles w target (status_eq target live && not w.is_broker_bound) in
    raise_if_elim P (not (allows d.status target)) invalid_status_transition _ d (inl h) λ _.
      raise_if_elim P (status_eq target paper && is_mode live mode) invalid_status_transition _ d
        (inl h)
        λ _.
          raise_if_elim P (status_eq target paper && w.is_broker_bound) invalid_status_transition _
            d (inl h)
            λ _.
              raise_if_elim P
                (status_eq target live && (is_mode paper mode || w.has_paper_exposure))
                invalid_status_transition _ d (inl h)
                λ _.
                  raise_if_elim P (needs_confirm d.status target && not u.confirm)
                    confirmation_required _ d (inl h)
                    λ _.
                      subst
                        (λ a. P (
                          ((if status_eq target live then fund w u.allocation else pure tt)
                              >> finish w d.status mode target a)
                            d))
                        (sym h) (funded-Settles w u.allocation d.status mode target d h)

Settles-err :
    (w : World) (s : Status) (b : Bool) (p : Result (Unit {0}) × Desk) (x : Error) (t : Desk)
    → Settles w s b p
    → p ≡ (err x, t)
    → (get_active_allocation t ≡ none) ⊎ (s ≡ live) × IsUnscheduled w b x t
Settles-err w s b p x t h e = subst (Settles w s b) e h

-- An update that raises, of a strategy without an active allocation, leaves none active: what it
-- allocated for the move to live is rolled back or released. The exception is a registration with
-- the scheduler that fails after the upstream service has moved to live: its error is raised with the
-- upstream status live, and the allocation of a strategy that no broker is bound to stays active.
pub update_status_raised :
    (w : World) (u : StatusUpdate) (d t : Desk) (x : Error)
    → get_active_allocation d ≡ none
    → update_status w u d ≡ (err x, t)
    → (get_active_allocation t ≡ none)
      ⊎ (u.target ≡ some live) × IsUnscheduled w (not w.is_broker_bound) x t
unfolding update_status
update_status_raised w u d t x h e = go u.target refl e
  where
    C : Type 0
    C =
        (get_active_allocation t ≡ none)
        ⊎ (u.target ≡ some live) × IsUnscheduled w (not w.is_broker_bound) x t

    named :
        (s : Status)
        → u.target ≡ some s
        → (get_active_allocation t ≡ none)
          ⊎ (s ≡ live) × IsUnscheduled w (status_eq s live && not w.is_broker_bound) x t
        → C
    named s k (inl none_active) = inl none_active
    named s k (inr (l, apart)) = inr (
      k ∙ ap some l,
      subst (λ v. IsUnscheduled w (status_eq v live && not w.is_broker_bound) x t) l apart,
    )

    go : (target : Option Status) → u.target ≡ target → update_to w u target d ≡ (err x, t) → C
    go none l e =
        inl (subst (λ (p : Result (Unit {0}) × Desk). get_active_allocation p.1 ≡ none) e h)
    go (some s) l e = elim (Bool-cases (status_eq s d.status)) [
      | inl k ↦ ground arith
      | inr k ↦ named s l (
          Settles-err w s _ _ x t (move_to-Settles w u d.exit_only s d h) (
            subst
              (λ b. (if b then (ok tt, d) else move_to w u d.status d.exit_only s d) ≡ (err x, t)) k
              e))
    ]

-- A move to live that returns, of a strategy that is not live, is not bound to a broker and has no
-- active allocation, leaves an allocation active.
pub update_status_funded :
    (w : World) (u : StatusUpdate) (d t : Desk)
    → get_active_allocation d ≡ none
    → w.is_broker_bound ≡ false
    → u.target ≡ some live
    → status_eq live d.status ≡ false
    → update_status w u d ≡ (ok tt, t)
    → is_some (get_active_allocation t) ≡ true
unfolding update_status
update_status_funded w u d t h n l k e =
    let moved = subst (λ s. update_to w u s d ≡ (ok tt, t)) l e in
    let ends =
      subst (λ b. (if b then (ok tt, d) else move_to w u d.status d.exit_only live d) ≡ (ok tt, t))
        k moved in
    subst (Settles w live (not w.is_broker_bound)) ends (move_to-Settles w u d.exit_only live d h)
      (ap not n)
