-- ===== src/Portfolio/Latch.antt =====
-- What the switch of server/src/services/portfolio_risk_service.py lets through, and its latch.
use mangrove_agent.Prelude.{
  ℕ, zero, suc, ◌*◌, ◌<◌, ◌≡◌, refl, Bool, true, false, not, Option, none, some, List, [], ◌∷◌, all,
  ◌==◌, if_elim, arith,
}
use mangrove_agent.Prelude.Int.{ℤ, pos, max_bounds, ◌≤ℤ◌}
use mangrove_agent.Prelude.Tables.{find_where}
use mangrove_agent.Strategy.{StatusUpdate}
use mangrove_agent.Portfolio.{
  Member, Portfolio, Limit, drop_below, reaches, compute_book_value, rebaseline,
  check_before_live_execution, transition, transition_of,
}

-- What a process does with the portfolio; `books` stands for fills, allocations and all else that
-- changes the strategies.
pub data Call : Type 0 where
  checks rebaselines : Call
  transitions : ℕ → StatusUpdate → Call
  books : List Member → Call

-- The answers of the checks, and the portfolio after the calls.
unfoldable pub run_checks : Limit → List Call → Portfolio → List Bool × Portfolio
unfolding check_before_live_execution rebaseline transition
run_checks l [] p = ([], p)
run_checks l (checks ∷ cs) p =
    let (allowed, q) = check_before_live_execution l p in
    let (answers, r) = run_checks l cs q in (allowed ∷ answers, r)
run_checks l (rebaselines ∷ cs) p = run_checks l cs (rebaseline p)
run_checks l (transitions sid u ∷ cs) p = run_checks l cs (transition sid u p)
run_checks l (books members ∷ cs) p = run_checks l cs (record p { members = members })

-- What a tripped switch keeps.
abbrev IsLatched : ℤ → Portfolio → Type 0
IsLatched mark p = (p.tripped ≡ true) × (p.high_water_mark ≡ mark)

rebaseline-IsLatched : (mark : ℤ) (p : Portfolio) → IsLatched mark p → IsLatched mark (rebaseline p)
unfolding rebaseline
rebaseline-IsLatched mark p h = ground (arith, h.0, h.1)

transition-IsLatched :
    (mark : ℤ) (sid : ℕ) (u : StatusUpdate) (p : Portfolio)
    → IsLatched mark p
    → IsLatched mark (transition sid u p)
unfolding transition
transition-IsLatched mark sid u p h = go (find_where (λ m. m.id == sid) p.members)
  where
    go : (m : Option Member) → IsLatched mark (transition_of sid u m p)
    go none = h
    go (some m) =
        if_elim (IsLatched mark) _ _ _ h
          (if_elim (IsLatched mark) _ _ _ (rebaseline-IsLatched mark _ h) h)

check-IsLatched :
    (mark : ℤ) (l : Limit) (p : Portfolio)
    → IsLatched mark p
    → ((check_before_live_execution l p).0 ≡ false)
      × IsLatched mark (check_before_live_execution l p).1
unfolding check_before_live_execution
check-IsLatched mark l p h = ground (arith, h.0, h.1)

abbrev Refuses : ℤ → List Bool × Portfolio → Type 0
Refuses mark r = (all not r.0 ≡ true) × (r.1.tripped ≡ true) × (r.1.high_water_mark ≡ mark)

run_checks-Refuses :
    (l : Limit) (cs : List Call) (mark : ℤ) (p : Portfolio)
    → IsLatched mark p
    → Refuses mark (run_checks l cs p)
unfolding run_checks
run_checks-Refuses l [] mark p h = (refl, h.0, h.1)
run_checks-Refuses l (checks ∷ cs) mark p h =
    let (refused, latched) = check-IsLatched mark l p h in
    let rest = run_checks-Refuses l cs mark (check_before_live_execution l p).1 latched in
    (rw refused rest.0, rest.1, rest.2)
run_checks-Refuses l (rebaselines ∷ cs) mark p h =
    run_checks-Refuses l cs mark (rebaseline p) (rebaseline-IsLatched mark p h)
run_checks-Refuses l (transitions sid u ∷ cs) mark p h =
    run_checks-Refuses l cs mark (transition sid u p) (transition-IsLatched mark sid u p h)
run_checks-Refuses l (books members ∷ cs) mark p h =
    run_checks-Refuses l cs mark (record p { members = members }) h

-- Once the switch has tripped, no check allows an entry, and neither status changes nor new
-- baselines nor anything that happens to the strategies clears it or moves its high-water mark.
pub run_checks_tripped :
    (l : Limit) (cs : List Call) (p : Portfolio)
    → p.tripped ≡ true
    → (all not (run_checks l cs p).0 ≡ true)
      × ((run_checks l cs p).1.tripped ≡ true)
      × ((run_checks l cs p).1.high_water_mark ≡ p.high_water_mark)
run_checks_tripped l cs p h = run_checks-Refuses l cs p.high_water_mark p (h, refl)

-- An allowed check has raised the high-water mark to the old one and to the book value, and the fall
-- of the book below a mark that is positive is less than the limit's share of the mark.
pub check_before_live_execution_allowed :
    (l : Limit) (p : Portfolio) (h : ℕ)
    → (check_before_live_execution l p).0 ≡ true
    → (check_before_live_execution l p).1.high_water_mark ≡ pos h
    → 0 < h
    → (p.high_water_mark ≤ℤ pos h)
      × (compute_book_value p.members ≤ℤ pos h)
      × (drop_below h (compute_book_value p.members) * l.denominator < l.numerator * h)
unfolding check_before_live_execution
check_before_live_execution_allowed l p h a m k = ground (
  arith,
  max_bounds p.high_water_mark (compute_book_value p.members),
  below h (compute_book_value p.members),
)
  where
    below :
        (n : ℕ) (book : ℤ)
        → 0 < n
        → reaches l (pos n) book ≡ false
        → drop_below n book * l.denominator < l.numerator * n
    below zero book z r = absurd (omega arith)
    below (suc n) book z r = ground arith
