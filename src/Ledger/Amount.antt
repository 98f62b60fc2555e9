-- ===== src/Ledger/Amount.antt =====
-- The amounts of server/src/services/spend_service.py: `_coerce_micro_usd`,
-- `_coerce_unix_seconds`, `_to_micro_usd` and the cap of a period.
use mangrove_agent.Prelude.{
  ℕ, ◌+◌, ◌-◌, ◌*◌, ◌^◌, ◌≤◌, ◌≡◌, Bool, true, false, ◌&&◌, Option, none, some, [], ◌∷◌, arith, ltb,
  leb, ◌==◌, if◌then◌else◌, length, all, Bool-cases, inl, inr,
}
use mangrove_agent.Prelude.Int.{ℤ, pos, negsuc, negated}
use mangrove_agent.Prelude.Text.{Text, is_digit, strip, strip_ascii, lstrip}
use mangrove_agent.Flow.{Result, ok, err, validation, value_error}
use mangrove_agent.Ledger.{SpendState}

-- `_MAX_STORABLE_MICRO_USD`
abbrev pub max_storable_micro_usd : ℕ
max_storable_micro_usd = 2 ^ 63 - 1

-- An object of a payment envelope, as the two readers tell them apart.
pub data PyValue : Type 0 where
  boolean : Bool → PyValue
  integer : ℤ → PyValue
  text : Text → PyValue
  other : PyValue

abbrev is_minus : ℕ → Bool
is_minus c = c == b'-'

-- `s.isdigit()`
abbrev pub isdigit : Text → Bool
isdigit [] = false
isdigit (c ∷ s) = is_digit c && all is_digit s

-- The number that ASCII digits write.
unfoldable pub decimal : ℕ → Text → ℕ
decimal acc [] = acc
decimal acc (c ∷ s) = decimal (acc * 10 + (c - 48)) s

-- CPython's limit on the digits that `int` reads from a text.
abbrev pub max_str_digits : ℕ
max_str_digits = 4300

abbrev put_digit : ℕ → Option Text → Option Text
put_digit c none = none
put_digit c (some s) = some (c ∷ s)

-- The digits of a numeral, in which one `_` may stand between two digits; the flag says that the
-- character before was a digit.
unfoldable pub numeral : Bool → Text → Option Text
numeral after [] = if after then some [] else none
numeral after (c ∷ s) =
    let rest = numeral (is_digit c) s in
    if is_digit c then put_digit c rest else if c == b'_' && after then rest else none

abbrev magnitude : Text → Result ℕ
magnitude s = elim (numeral false s) [
  | none ↦ err value_error
  | some ds ↦ if leb (length ds) max_str_digits then ok (decimal 0 ds) else err value_error
]

abbrev signed : Bool → Result ℕ → Result ℤ
signed minus (ok n) = ok (if minus then negated n else pos n)
signed minus (err e) = err e

abbrev read_sign : Text → Result ℤ
read_sign [] = err value_error
read_sign (c ∷ s) =
    if is_minus c
    then signed true (magnitude s)
    else signed false (if c == b'+' then magnitude s else magnitude (c ∷ s))

-- `int(s)` of an ASCII text: blanks round it, at most one sign.
unfoldable pub int_of : Text → Result ℤ
unfolding decimal numeral
int_of s = read_sign (strip_ascii s)

-- The tests on `amount` at the end of `_coerce_micro_usd`.
abbrev in_range : Result ℤ → Result ℕ
in_range (ok (pos n)) = if ltb max_storable_micro_usd n then err validation else ok n
in_range (ok (negsuc n)) = err validation
in_range (err e) = err e

unfoldable pub coerce_micro_usd : PyValue → Result ℕ
unfolding int_of
coerce_micro_usd (boolean b) = err validation
coerce_micro_usd (integer n) = in_range (ok n)
coerce_micro_usd (text s) =
    if isdigit (lstrip is_minus (strip s)) then in_range (int_of (strip s)) else err validation
coerce_micro_usd other = err validation

-- What `float(cap_usd)` gives: no number; NaN or an infinity; a negative number; or a finite amount,
-- by its value of `round(value * _MICRO_USD_PER_USD)`.
pub data Usd : Type 0 where
  not_number not_finite negative : Usd
  dollars : ℕ → Usd

unfoldable pub to_micro_usd : Usd → Result ℕ
to_micro_usd not_number = err validation
to_micro_usd not_finite = err validation
to_micro_usd negative = err validation
to_micro_usd (dollars micro) = if ltb max_storable_micro_usd micro then err validation else ok micro

-- `X402_SPEND_CAP_USD`; `none` is an absent or a blank value.
pub record Config : Type 0 where
  pub x402_spend_cap_usd : Option Usd

-- `_DEFAULT_CAP_USD`
abbrev pub default_cap_usd : Usd
default_cap_usd = dollars 25_000_000

unfoldable pub configured_cap_micro_usd : Config → Result ℕ
unfolding to_micro_usd
configured_cap_micro_usd c = elim c.x402_spend_cap_usd [
  | none ↦ to_micro_usd default_cap_usd
  | some u ↦ to_micro_usd u
]

unfoldable pub cap_micro_usd : Config → SpendState → Result ℕ
cap_micro_usd c state = elim state.period_cap_micro_usd [
  | none ↦ configured_cap_micro_usd c
  | some n ↦ ok n
]

abbrev keep_seconds : ℕ → Result ℤ → Option ℕ
keep_seconds least (ok (pos n)) =
    if leb least n && leb n max_storable_micro_usd then some n else none
keep_seconds least _ = none

abbrev is_true : Bool → ℕ
is_true true = 0
is_true false = 1

-- An unreadable or out-of-range expiry is `None`, never an error.
unfoldable pub coerce_unix_seconds : Bool → PyValue → Option ℕ
unfolding int_of
coerce_unix_seconds allow_zero (integer n) = keep_seconds (is_true allow_zero) (ok n)
coerce_unix_seconds allow_zero (text s) = keep_seconds (is_true allow_zero) (int_of s)
coerce_unix_seconds allow_zero _ = none

in_range_bound : (r : Result ℤ) (n : ℕ) → in_range r ≡ ok n → n ≤ max_storable_micro_usd
in_range_bound (ok (pos m)) n h = ground arith
in_range_bound (ok (negsuc m)) n h = cc
in_range_bound (err e) n h = cc

-- An amount that is accepted is one that SQLite can hold.
pub coerce_micro_usd_bound :
    (v : PyValue) (n : ℕ) → coerce_micro_usd v ≡ ok n → n ≤ max_storable_micro_usd
unfolding coerce_micro_usd
coerce_micro_usd_bound (boolean b) n h = cc
coerce_micro_usd_bound (integer (pos m)) n h = ground arith
coerce_micro_usd_bound (integer (negsuc m)) n h = cc
coerce_micro_usd_bound (text s) n h = elim (Bool-cases (isdigit (lstrip is_minus (strip s)))) [
  | inl digits ↦ in_range_bound (int_of (strip s)) n (rw digits at h)
  | inr odd ↦ cc (rw odd at h)
]
coerce_micro_usd_bound v n h = cc
