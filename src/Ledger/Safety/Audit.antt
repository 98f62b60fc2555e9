-- ===== src/Ledger/Safety/Audit.antt =====
-- The audit trail: what a run leaves of the payments that it found.
use mangrove_agent.Prelude.{
  ◌≡◌, ◌⊎◌, inl, inr, refl, ◌∙◌, Bool, true, false, List, [], ◌∷◌, ◌++◌, if◌then◌else◌, All, arith,
}
use mangrove_agent.Prelude.Tables.{update_where}
use mangrove_agent.Ledger.{Payment, Db}
use mangrove_agent.Ledger.Amount.{Config}
use mangrove_agent.Ledger.Steps.{Step, quiet, stays, authorizes, closes, credits, renews, Closes}

-- A row is as it was, or it was open and is now closed.
abbrev pub Evolves : Payment → Payment → Type 0
Evolves p q = (q ≡ p) ⊎ Closes p q

-- Every row is still there, in its place, and no other change has happened to it.
abbrev pub Grows : List Payment → List Payment → Type 0
Grows [] qs = Unit
Grows (p ∷ ps) [] = ⊥
Grows (p ∷ ps) (q ∷ qs) = Evolves p q × Grows ps qs

pub Grows-refl : (ps : List Payment) → Grows ps ps
Grows-refl [] = tt
Grows-refl (p ∷ ps) = (inl refl, Grows-refl ps)

Evolves-trans : (p q r : Payment) → Evolves p q → Evolves q r → Evolves p r
Evolves-trans p q r (inl e) (inl f) = inl (f ∙ e)
Evolves-trans p q r (inl e) (inr k) = inr (rw e at k)
Evolves-trans p q r (inr k) (inl f) = inr (rw (← f) at k)
Evolves-trans p q r (inr k) (inr l) = ground (arith, k.closed, l.was_open)

pub Grows-trans : (ps qs rs : List Payment) → Grows ps qs → Grows qs rs → Grows ps rs
Grows-trans [] qs rs g h = tt
Grows-trans (p ∷ ps) [] rs g h = absurd g
Grows-trans (p ∷ ps) (q ∷ qs) [] g h = h
Grows-trans (p ∷ ps) (q ∷ qs) (r ∷ rs) g h =
    (Evolves-trans p q r g.0 h.0, Grows-trans ps qs rs g.1 h.1)

Grows-append : (ps qs : List Payment) → Grows ps (ps ++ qs)
Grows-append [] qs = tt
Grows-append (p ∷ ps) qs = (inl refl, Grows-append ps qs)

Grows-update :
    (c : Payment → Bool) (g : Payment → Payment) (ps : List Payment)
    → All (λ p. c p ≡ true → Closes p (g p)) ps
    → Grows ps (update_where c g ps)
unfolding update_where
Grows-update c g [] h = tt
Grows-update c g (p ∷ ps) h = (one (c p) refl, Grows-update c g ps h.1)
  where
    one : (b : Bool) → c p ≡ b → Evolves p (if b then g p else p)
    one true e = inr (h.0 e)
    one false e = inl refl

pub Step-Grows : (cfg : Config) (d e : Db) → Step cfg d e → Grows d.payments e.payments
Step-Grows cfg d e (quiet (stays p r s)) = rw p (Grows-refl d.payments)
Step-Grows cfg d e (authorizes p f a b c g x) = rw a (Grows-append d.payments (p ∷ []))
Step-Grows cfg d e (quiet (closes c g h p r k)) = rw p (Grows-update c g d.payments h)
Step-Grows cfg d e (quiet (credits p h k)) = rw p (Grows-refl d.payments)
Step-Grows cfg d e (quiet (renews p r s x)) = rw p (Grows-refl d.payments)
