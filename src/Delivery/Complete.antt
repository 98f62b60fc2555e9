-- ===== src/Delivery/Complete.antt =====
-- No closed position is lost between the reports of server/src/services/confirmed_execution.py.
use mangrove_agent.Prelude.Tables.{All-mono}
use mangrove_agent.Prelude.{
  ℕ, ◌≡◌, ◌⊎◌, inl, inr, refl, ap, sym, subst, Bool, true, false, not, Option, none, some, List, [],
  ◌∷◌, leb, if_cases, if_elim, of_not-false, All,
}
use mangrove_agent.Delivery.{
  Close, RiskState, close_delivery, is_receipted, compare_times, or_raising, keep_if,
  filter_raising, unless_receipted, not_after, books_after, missed, decide, deliver_selected,
  deliver_checked, deliver_from, starts_again,
}

-- The close stands in the list.
abbrev pub IsIn : Close → List Close → Type 0
IsIn p [] = ⊥
IsIn p (q ∷ qs) = (p ≡ q) ⊎ IsIn p qs

-- The close is reported, or the server has acknowledged it.
abbrev pub Delivers : RiskState → List Close → Close → Type 0
Delivers r sent p = IsIn p sent ⊎ (is_receipted r p ≡ true)

all_in : (r : RiskState) (closes : List Close) → All (Delivers r closes) closes
all_in r [] = tt
all_in r (p ∷ ps) =
    (inl (inl refl), All-mono (Delivers r ps) (Delivers r (p ∷ ps)) ps (λ q. later q) (all_in r ps))
  where
    later : (q : Close) → Delivers r ps q → Delivers r (p ∷ ps) q
    later q (inl h) = inl (inr h)
    later q (inr h) = inr h

or_raising-false :
    (a b : Option Bool) → or_raising a b ≡ some false → (a ≡ some false) × (b ≡ some false)
or_raising-false none b h = cc
or_raising-false (some true) b h = cc
or_raising-false (some false) b h = (refl, h)

-- A close that is not after the cursor, and was not missed, has a receipt.
flip :
    (a b : Option ℕ)
    → compare_times (λ x y. not (leb x y)) a b ≡ some false
    → compare_times leb a b ≡ some true
flip (some x) (some y) h = ap some (of_not-false (leb x y) (some_inj h))
  where
    some_inj : {u v : Bool} → Path (Option Bool) (some u) (some v) → u ≡ v
    some_inj e = cc
flip (some x) none h = cc
flip none b h = cc

receipted :
    (r : RiskState) (p : Close) (test : Option Bool)
    → unless_receipted r p test ≡ some false
    → test ≡ some true
    → is_receipted r p ≡ true
receipted r p test =
    if_cases (λ x. x ≡ some false → test ≡ some true → is_receipted r p ≡ true) (is_receipted r p) _
      _ (λ e h k. e) (λ e h k. cc)

keep_if-some :
    (p : Close) (f : Option Bool) (rest : Option (List Close)) (selected : List Close) (C : Type 0)
    → ((ps : List Close) → f ≡ some true → rest ≡ some ps → selected ≡ p ∷ ps → C)
    → (f ≡ some false → rest ≡ some selected → C)
    → keep_if p f rest ≡ some selected
    → C
keep_if-some p none rest selected C k m h = cc
keep_if-some p (some b) none selected C k m h = cc
keep_if-some p (some true) (some ps) selected C k m h = k ps refl refl (cc)
keep_if-some p (some false) (some ps) selected C k m h = m refl h

selected_in :
    (r : RiskState) (cursor : Option ℕ) (closes selected : List Close)
    → missed r cursor closes ≡ some false
    → filter_raising (books_after cursor) closes ≡ some selected
    → All (Delivers r selected) closes
selected_in r cursor [] selected h k = tt
selected_in r cursor (p ∷ ps) selected h k =
    let (here, there) = or_raising-false _ _ h in
    keep_if-some p (books_after cursor p) (filter_raising (books_after cursor) ps) selected
      (All (Delivers r selected) (p ∷ ps))
      (λ qs after rest e.
        subst (λ s. All (Delivers r s) (p ∷ ps)) (sym e)
          (
            inl (inl refl),
            All-mono (Delivers r qs) (Delivers r (p ∷ qs)) ps (λ q. later q qs)
                (selected_in r cursor ps qs there rest),
          ))
      (λ before rest. (
        inr (receipted r p (not_after cursor p) here (flip p.booked_at cursor before)),
        selected_in r cursor ps selected there rest,
      ))
      k
  where
    later : (q : Close) (qs : List Close) → Delivers r qs q → Delivers r (p ∷ qs) q
    later q qs (inl m) = inl (inr m)
    later q qs (inr m) = inr m

decide-Delivers :
    (r : RiskState) (closes selected : List Close) (o : Option Bool)
    → All (Delivers r selected) closes
    → All (Delivers r (decide closes selected o).0) closes
decide-Delivers r closes selected none h = all_in r closes
decide-Delivers r closes selected (some true) h = all_in r closes
decide-Delivers r closes selected (some false) h = h

deliver_checked-Delivers :
    (r : RiskState) (cursor : Option ℕ) (closes : List Close) (o : Option Bool)
    → missed r cursor closes ≡ o
    → All (Delivers r (deliver_checked r cursor closes o).0) closes
deliver_checked-Delivers r cursor closes none e = all_in r closes
deliver_checked-Delivers r cursor closes (some true) e = all_in r closes
deliver_checked-Delivers r cursor closes (some false) e =
    go (filter_raising (books_after cursor) closes) refl
  where
    go :
        (s : Option (List Close))
        → filter_raising (books_after cursor) closes ≡ s
        → All (Delivers r (deliver_selected r closes s).0) closes
    go none f = all_in r closes
    go (some selected) f =
        decide-Delivers r closes selected _ (selected_in r cursor closes selected e f)

deliver_from-Delivers :
    (r : RiskState) (closes : List Close) (cursor : Option (Option ℕ))
    → All (Delivers r (deliver_from r closes cursor).0) closes
deliver_from-Delivers r closes none = all_in r closes
deliver_from-Delivers r closes (some cursor) =
    deliver_checked-Delivers r cursor closes (missed r cursor closes) refl

-- When the history of the closed positions is complete, no close is lost: each is in the list that is
-- reported, or has a receipt of an earlier report.
pub close_delivery-Delivers :
    (r : RiskState) (closes : List Close) → All (Delivers r (close_delivery r closes true).0) closes
unfolding close_delivery
close_delivery-Delivers r closes =
    if_elim (λ (d : List Close × Bool). All (Delivers r d.0) closes) (starts_again r) _ _
      (all_in r closes) (deliver_from-Delivers r closes r.closes_booked_through)
