-- ===== src/Strategy/Confirmed.antt =====
-- What `_update_status` of server/src/services/strategy_service.py asks to be confirmed.
use mangrove_agent.Prelude.{
  ◌≡◌, refl, subst, if_elim, Bool, true, false, not, ◌&&◌, ◌||◌, Option, none, some, arith,
}
use mangrove_agent.Flow.{
  Result, ok, err, Action, bind_result, modify, raise_if_elim, ◌>>◌, invalid_status_transition,
  confirmation_required,
}
use mangrove_agent.Strategy.{
  Status, draft, inactive, paper, live, archived, Desk, World, Allocation, StatusUpdate, allows,
  status_eq, is_mode, needs_confirm, get_active_allocation, apply_scheduler_effects, update_status,
  update_to, move_to,
}
use mangrove_agent.Strategy.Lifecycle.{finish}

unconfirmed_edge :
    (current target : Status)
    → allows current target ≡ true
    → needs_confirm current target ≡ false
    → status_eq target live ≡ status_eq current live
unfolding allows
unconfirmed_edge draft target a k = ground arith
unconfirmed_edge inactive target a k = ground arith
unconfirmed_edge paper target a k = ground arith
unconfirmed_edge live target a k = ground arith
unconfirmed_edge archived target a k = ground arith

-- What a call that returns does about `live`.
abbrev Keeps : Bool → Result (Unit {0}) × Desk → Type 0
Keeps b (ok u, t) = status_eq t.status live ≡ b
Keeps b (err e, t) = Unit {0}

status-Keeps :
    (target : Status) (b : Bool) (p : Result (Unit {0}) × Desk)
    → status_eq target live ≡ b
    → Keeps b (bind_result p (λ _. modify (λ d. record d { status = target })))
status-Keeps target b (ok u, t) h = h
status-Keeps target b (err x, t) h = tt

finish-Keeps :
    (w : World) (current target : Status) (mode : Option Status) (prior : Option Allocation)
    (b : Bool) (t : Desk)
    → status_eq target live ≡ b
    → Keeps b (finish w current mode target prior t)
finish-Keeps w current target mode prior b t h =
    if_elim
      (λ (p : Result (Unit {0}) × Desk). Keeps b (
        bind_result p (λ _.
          apply_scheduler_effects w mode target current
          >> modify (λ d. record d { status = target }))))
      w.upstream_fails _ _ tt (status-Keeps target b _ h)

bind-Keeps :
    (b : Bool) (p : Result (Unit {0}) × Desk) (k : Action Desk (Unit {0}))
    → ((t : Desk) → Keeps b (k t))
    → Keeps b (bind_result p λ _. k)
bind-Keeps b (ok u, t) k g = g t
bind-Keeps b (err x, t) k g = tt

move_to-Keeps :
    (w : World) (u : StatusUpdate) (mode : Option Status) (target : Status) (d : Desk)
    → u.confirm ≡ false
    → Keeps (status_eq d.status live) (move_to w u d.status mode target d)
unfolding get_active_allocation
move_to-Keeps w u mode target d c =
    let P = Keeps (status_eq d.status live) in
    raise_if_elim P (not (allows d.status target)) invalid_status_transition _ d tt λ a.
      raise_if_elim P (status_eq target paper && is_mode live mode) invalid_status_transition _ d tt
        λ _.
          raise_if_elim P (status_eq target paper && w.is_broker_bound) invalid_status_transition _
            d tt
            λ _.
              raise_if_elim P
                (status_eq target live && (is_mode paper mode || w.has_paper_exposure))
                invalid_status_transition _ d tt
                λ _.
                  raise_if_elim P (needs_confirm d.status target && not u.confirm)
                    confirmation_required _ d tt
                    λ k.
                      bind-Keeps (status_eq d.status live) _
                        (finish w d.status mode target (get_active_allocation d))
                        λ t.
                          finish-Keeps w d.status target mode (get_active_allocation d)
                            (status_eq d.status live) t
                            (unconfirmed_edge d.status target (ground arith) (ground arith))

-- An update that returns without a confirmation neither starts nor stops live execution.
pub update_status_unconfirmed :
    (w : World) (u : StatusUpdate) (d t : Desk)
    → u.confirm ≡ false
    → update_status w u d ≡ (ok tt, t)
    → status_eq t.status live ≡ status_eq d.status live
unfolding update_status
update_status_unconfirmed w u d t c e = subst (Keeps (status_eq d.status live)) e (go u.target)
  where
    go : (target : Option Status) → Keeps (status_eq d.status live) (update_to w u target d)
    go none = tt
    go (some s) =
        if_elim (Keeps (status_eq d.status live)) (status_eq s d.status) _ _ refl
          (move_to-Keeps w u d.exit_only s d c)
