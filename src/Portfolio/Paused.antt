-- ===== src/Portfolio/Paused.antt =====
-- What a refused check of server/src/services/portfolio_risk_service.py leaves of the strategies.
use mangrove_agent.Prelude.{
  ◌≡◌, ◌⊎◌, refl, sym, ap, subst, inl, inr, Bool, true, false, not, ◌&&◌, ◌||◌, Option, none, some,
  is_some, List, [], ◌∷◌, all, if◌then◌else◌, if_cases, if_elim, Bool-cases, arith,
}
use mangrove_agent.Flow.{Result, ok, err, bind_result, modify}
use mangrove_agent.Strategy.{
  Status, draft, inactive, live, paper, archived, Desk, World, status_eq, is_mode,
  exit_monitor_mode, register_job, stop_monitor, apply_scheduler_effects, update_status,
}
use mangrove_agent.Strategy.Lifecycle.{Schedules, apply_scheduler_effects-Schedules}
use mangrove_agent.Portfolio.{
  Member, Portfolio, Limit, halt, stop_deployment, pause_for_portfolio, pause_all_live,
  check_before_live_execution,
}

pub live_of_eq : (s : Status) → status_eq s live ≡ true → s ≡ live
live_of_eq live h = refl
live_of_eq draft h = cc
live_of_eq inactive h = cc
live_of_eq paper h = cc
live_of_eq archived h = cc

at_live : (d : Desk) → d.status ≡ live → d ≡ record d { status = live }
at_live d e = ap (λ s. record d { status = s }) e

-- Not live, or not to be stopped now: the tick lock is held, or the strategy is not adopted and its
-- upstream call fails or the scheduler refuses the job of the exit monitor that it has.
abbrev pub is_excused : Member → Bool
is_excused m =
    not (status_eq m.desk.status live)
    || (m.is_busy
        || not m.is_adopted
          && (m.world.upstream_fails || m.world.scheduler_fails && is_some m.desk.exit_only))

-- The desk that a halt of a live strategy leaves.
abbrev halted : World → Desk → Result (Unit {0}) × Desk
halted w d =
    bind_result
      (apply_scheduler_effects w d.exit_only inactive live (record d { upstream = inactive }))
      (λ _. modify (λ e. record e { status = inactive }))

update_status-halt :
    (w : World) (d : Desk)
    → (update_status w halt (record d { status = live })).1 ≡ (
        if w.upstream_fails
        then record d { status = live }
        else (halted w (record d { status = live })).1)
unfolding update_status
update_status-halt w d = elim (Bool-cases w.upstream_fails) [
  | inl k ↦ ground arith
  | inr k ↦ ground arith
]

-- A halt stops the strategy, unless the scheduler refuses the job of an exit monitor.
abbrev Stops : World → Desk → Type 0
Stops w t = (t.status ≡ inactive) ⊎ ((w.scheduler_fails ≡ true) × (is_some t.exit_only ≡ true))

halted-Stops : (w : World) (d : Desk) → Stops w (halted w d).1
unfolding apply_scheduler_effects
halted-Stops w d = go (exit_monitor_mode w d.exit_only live)
  where
    go :
        (m : Option Status)
        → Stops w
            (bind_result
              (stop_monitor w m d.exit_only live (record d { upstream = inactive }))
              (λ _. modify (λ e. record e { status = inactive }))).1
    go none = inl refl
    go (some m) =
        if_cases
          (λ (p : Result (Unit {0}) × Desk).
            Stops w (bind_result p (λ _. modify (λ e. record e { status = inactive }))).1)
          w.scheduler_fails _ _ (λ f. inr (f, refl)) (λ _. inl refl)

stopped_status : (w : World) (d : Desk) → (stop_deployment w d).status ≡ inactive
unfolding stop_deployment
stopped_status w d =
    go _ (
      apply_scheduler_effects-Schedules w d.exit_only inactive d.status stopped stopped
        (refl, refl))
  where
    stopped : Desk
    stopped = record d { status = inactive; exit_only = exit_monitor_mode w d.exit_only d.status }

    go : (p : Result (Unit {0}) × Desk) → Schedules w stopped p → p.1.status ≡ inactive
    go (ok u, t) h = h.0
    go (err e, t) h = h.0.0

halted_status :
    (w : World) (d : Desk)
    → d.status ≡ live
    → w.upstream_fails ≡ false
    → Stops w (update_status w halt d).1
halted_status w d e n =
    subst (λ c. Stops w (update_status w halt c).1) (sym (at_live d e))
      (subst (Stops w) (sym (update_status-halt w d)) (
        subst
          (λ b.
            Stops w
              (if b then record d { status = live } else (halted w (record d { status = live })).1))
          (sym n) (halted-Stops w (record d { status = live }))))

pause_for_portfolio-excused :
    (m : Member) → status_eq m.desk.status live ≡ true → is_excused (pause_for_portfolio m) ≡ true
unfolding pause_for_portfolio
pause_for_portfolio-excused m h =
    if_cases (λ x. is_excused x ≡ true) m.is_busy m _ (λ k. ground arith)
      λ k.
        if_cases (λ x. is_excused x ≡ true) m.is_adopted _ _
          (λ a. ground (arith, stopped_status m.world m.desk))
          λ a. elim (Bool-cases m.world.upstream_fails) [
            | inl f ↦ ground arith
            | inr n ↦ elim (halted_status m.world m.desk (live_of_eq m.desk.status h) n) [
              | inl stopped ↦ ground arith
              | inr (f, monitored) ↦ ground arith
            ]
          ]

pause_all_live-excused : (members : List Member) → all is_excused (pause_all_live members) ≡ true
unfolding pause_all_live
pause_all_live-excused [] = refl
pause_all_live-excused (m ∷ members) = ground (
  arith,
  if_cases (λ x. is_excused x ≡ true) (status_eq m.desk.status live) (pause_for_portfolio m) m
      (pause_for_portfolio-excused m) (λ k. ground arith),
  pause_all_live-excused members,
)

-- A check that refuses entries, whether the switch trips or has tripped before, leaves live only
-- strategies whose tick lock another thread holds and strategies that are not adopted and whose
-- upstream call fails or whose exit monitor the scheduler refuses to register.
pub check_before_live_execution-excused :
    (l : Limit) (p : Portfolio)
    → (check_before_live_execution l p).0 ≡ false
    → all is_excused (check_before_live_execution l p).1.members ≡ true
unfolding check_before_live_execution
check_before_live_execution-excused l p h = elim (Bool-cases p.tripped) [
  | inl k ↦ ground (arith, pause_all_live-excused p.members)
  | inr k ↦ ground (arith, pause_all_live-excused p.members)
]

-- Confirmed exposure keeps the monitor that watches its exits.
monitored :
    (w : World) (mode : Option Status) (d : Desk)
    → w.has_live_exposure ≡ true
    → is_mode paper mode ≡ false
    → apply_scheduler_effects w mode inactive live d
      ≡ register_job w (record d { exit_only = some live })
unfolding apply_scheduler_effects
monitored w mode d e n = ground arith

monitor_mode :
    (w : World) (mode : Option Status)
    → w.has_live_exposure ≡ true
    → is_mode paper mode ≡ false
    → exit_monitor_mode w mode live ≡ some live
unfolding exit_monitor_mode
monitor_mode w mode e n = ground arith

abbrev pub KeepsExits : World → Desk → Desk → Type 0
KeepsExits w d t =
    (t ≡ d)
    ⊎ ((t.status ≡ inactive)
        × (t.exit_only ≡ some live)
        × (t.is_scheduled ≡ true)
        × (t.allocations ≡ d.allocations))
    ⊎ ((w.scheduler_fails ≡ true)
        × (t.exit_only ≡ some live)
        × (t.is_scheduled ≡ d.is_scheduled)
        × (t.allocations ≡ d.allocations))

stop_deployment-KeepsExits :
    (w : World) (d : Desk)
    → w.has_live_exposure ≡ true
    → is_mode paper d.exit_only ≡ false
    → KeepsExits w (record d { status = live }) (stop_deployment w (record d { status = live }))
unfolding stop_deployment
stop_deployment-KeepsExits w d e n =
    subst (λ (p : Result (Unit {0}) × Desk). KeepsExits w (record d { status = live }) p.1)
      (sym (
        monitored w d.exit_only
          (record d { status = inactive; exit_only = exit_monitor_mode w d.exit_only live }) e n))
      (if_cases (λ (p : Result (Unit {0}) × Desk). KeepsExits w (record d { status = live }) p.1)
        w.scheduler_fails _ _ (λ f. inr (inr (f, refl, refl, refl)))
        (λ _. inr (inl (refl, refl, refl, refl))))

halted-KeepsExits :
    (w : World) (d : Desk)
    → w.has_live_exposure ≡ true
    → is_mode paper d.exit_only ≡ false
    → KeepsExits w (record d { status = live }) (halted w (record d { status = live })).1
halted-KeepsExits w d e n =
    rw (monitored w d.exit_only (record d { status = live; upstream = inactive }) e n) (
      if_cases
        (λ (p : Result (Unit {0}) × Desk).
          KeepsExits w (record d { status = live })
            (bind_result p (λ _. modify (λ e. record e { status = inactive }))).1)
        w.scheduler_fails _ _ (λ f. inr (inr (f, refl, refl, refl)))
        (λ _. inr (inl (refl, refl, refl, refl))))

halt-KeepsExits :
    (w : World) (d : Desk)
    → w.has_live_exposure ≡ true
    → is_mode paper d.exit_only ≡ false
    → KeepsExits w
        (record d { status = live })
        (update_status w halt (record d { status = live })).1
halt-KeepsExits w d e n = rw (update_status-halt w d) (
    if_elim (KeepsExits w (record d { status = live })) w.upstream_fails _ _ (inl refl)
      (halted-KeepsExits w d e n))

-- A pause of a live strategy with confirmed live exposure, which no paper monitor watches, leaves it
-- as it was, or inactive with its exits still monitored and scheduled and its allocations kept. When
-- the scheduler fails, the exits are marked as monitored too, the job is left as it was, and the
-- allocations are kept.
pub pause_for_portfolio-KeepsExits :
    (m : Member)
    → m.desk.status ≡ live
    → m.world.has_live_exposure ≡ true
    → is_mode paper m.desk.exit_only ≡ false
    → KeepsExits m.world m.desk (pause_for_portfolio m).desk
unfolding pause_for_portfolio
pause_for_portfolio-KeepsExits m h e n =
    if_cases (λ (x : Member). KeepsExits m.world m.desk x.desk) m.is_busy m _ (λ _. inl refl)
      λ _.
        if_cases (λ (x : Member). KeepsExits m.world m.desk x.desk) m.is_adopted _ _
          (λ _.
            subst (λ d. KeepsExits m.world d (stop_deployment m.world d)) (sym (at_live m.desk h))
              (stop_deployment-KeepsExits m.world m.desk e n))
          (λ _.
            subst (λ d. KeepsExits m.world d (update_status m.world halt d).1)
              (sym (at_live m.desk h)) (halt-KeepsExits m.world m.desk e n))
