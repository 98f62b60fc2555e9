-- ===== src/Receipt/Units.antt =====
-- `_units` of server/src/services/receipt_settlement.py: an integer amount of the smallest unit as a
-- decimal text.
pub mod Exact
use mangrove_agent.Prelude.{
  ℕ, zero, suc, ◌+◌, ◌*◌, ◌-◌, ◌/◌, ◌%◌, ◌^◌, ◌≡◌, Bool, true, false, ◌&&◌, List, [], ◌∷◌, ◌++◌,
  ltb, ◌==◌, if◌then◌else◌, length,
}
use mangrove_agent.Prelude.Int.{ℤ, pos, negsuc}
use mangrove_agent.Prelude.Text.{Text}

abbrev pub digit : ℕ → ℕ
digit n = b'0' + n % 10

-- The last digits of a number, as many as are asked for: `f"{n:0{k}d}"` of a number below `10 ** k`.
unfoldable pub padded : ℕ → ℕ → Text
padded zero n = []
padded (suc k) n = padded k (n / 10) ++ digit n ∷ []

-- `str(n)`, on enough fuel.
unfoldable pub whole_text : ℕ → ℕ → Text
whole_text zero n = digit n ∷ []
whole_text (suc fuel) n = elim (ltb n 10) [
  | true ↦ digit n ∷ []
  | false ↦ whole_text fuel (n / 10) ++ digit n ∷ []
]

abbrev pub drop_zero : ℕ → Text → Text
drop_zero c [] = if c == b'0' then [] else c ∷ []
drop_zero c (d ∷ s) = c ∷ d ∷ s

-- `s.rstrip("0")`
unfoldable pub rstrip_zeros : Text → Text
rstrip_zeros [] = []
rstrip_zeros (c ∷ s) = drop_zero c (rstrip_zeros s)

abbrev pub unsigned_units : ℕ → ℕ → Text
unsigned_units amount decimals =
    let whole = amount / 10 ^ decimals in
    let fraction = amount % 10 ^ decimals in
    if fraction == 0
    then whole_text whole whole
    else rstrip_zeros (whole_text whole whole ++ b'.' ∷ padded decimals fraction)

-- `_units`
unfoldable pub units : ℤ → ℕ → Text
unfolding whole_text padded rstrip_zeros
units (pos n) decimals = unsigned_units n decimals
units (negsuc n) decimals = b'-' ∷ unsigned_units (suc n) decimals
