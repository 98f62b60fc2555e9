-- ===== src/Receipt/Units/Exact.antt =====
-- The decimal text of an amount says it exactly.
use mangrove_agent.Prelude.{
  ℕ, zero, suc, ◌+◌, ◌*◌, ◌-◌, ◌/◌, ◌%◌, ◌^◌, ◌≡◌, ◌≤◌, ◌<◌, ◌∙◌, refl, sym, Bool, true, false, [],
  ◌∷◌, ◌++◌, All, ltb, ◌==◌, if◌then◌else◌, length, length-append, ==_iff, if_elim, if_cases, arith,
}
use mangrove_agent.Prelude.Int.{ℤ, pos, negsuc}
use mangrove_agent.Prelude.Text.{Text}
use mangrove_agent.Receipt.Units.{
  digit, padded, whole_text, drop_zero, rstrip_zeros, unsigned_units, units,
}

-- The number that digits write after a number that is read.
unfoldable pub value : ℕ → Text → ℕ
value n [] = n
value n (c ∷ s) = value (10 * n + (c - b'0')) s

-- The digits of a decimal text as a number, and how many of them stand after the point.
unfoldable pub read : ℕ → Text → ℕ × ℕ
unfolding value
read n [] = (n, 0)
read n (c ∷ s) =
    let rest = read (10 * n + (c - b'0')) s in if c == b'.' then (value n s, length s) else rest

-- The sign, the digits and the scale of a text.
abbrev pub read_units : Text → Bool × (ℕ × ℕ)
read_units [] = (false, read 0 [])
read_units (c ∷ s) = if c == b'-' then (true, read 0 s) else (false, read 0 (c ∷ s))

value-append : (n : ℕ) (s t : Text) → value n (s ++ t) ≡ value (value n s) t
unfolding value
value-append n [] t = refl
value-append n (c ∷ s) t = value-append (10 * n + (c - b'0')) s t

value-digit : (m n : ℕ) (s : Text) → value m (s ++ digit n ∷ []) ≡ 10 * value m s + n % 10
unfolding value
value-digit m n s = ground (arith, value-append m s (digit n ∷ []))

pow_suc : (k : ℕ) → 10 ^ suc k ≡ 10 * 10 ^ k
pow_suc k = omega arith

mul-pow_suc : (m k : ℕ) → m * 10 ^ suc k ≡ 10 * (m * 10 ^ k)
mul-pow_suc m k = rw (pow_suc k) (omega arith)

pow_pos : (k : ℕ) → 0 < 10 ^ k
pow_pos zero = omega arith
pow_pos (suc k) = omega (arith, pow_pos k)

value-whole_text : (fuel n : ℕ) → n ≤ fuel → value 0 (whole_text fuel n) ≡ n
unfolding value whole_text
value-whole_text zero n h = omega (arith, h)
value-whole_text (suc fuel) n h =
    go (ltb n 10) refl (λ e. value-whole_text fuel (n / 10) (ground (arith, h, e)))
  where
    go :
        (b : Bool)
        → ltb n 10 ≡ b
        → (ltb n 10 ≡ false → value 0 (whole_text fuel (n / 10)) ≡ n / 10)
        → value 0
            (elim b [ true ↦ digit n ∷ [] | false ↦ whole_text fuel (n / 10) ++ digit n ∷ [] ])
          ≡ n
    go true e whole = ground (arith, e)
    go false e whole = ground (arith, e, value-digit 0 n (whole_text fuel (n / 10)), whole e)

value-padded : (m k n : ℕ) → n < 10 ^ k → value m (padded k n) ≡ m * 10 ^ k + n
unfolding value padded
value-padded m zero n h = omega (arith, h)
value-padded m (suc k) n h =
    value-digit m n (padded k (n / 10))
    ∙ omega (arith, h, mul-pow_suc m k, value-padded m k (n / 10) (omega (arith, h)))

length-padded : (k n : ℕ) → length (padded k n) ≡ k
unfolding padded
length-padded zero n = refl
length-padded (suc k) n =
    ground (arith, length-append (padded k (n / 10)) (digit n ∷ []), length-padded k (n / 10))

-- A text without a point.
abbrev IsWhole : Text → Type 0
IsWhole s = All (λ c. (c == b'.') ≡ false) s

All-append : (s t : Text) → IsWhole s → IsWhole t → IsWhole (s ++ t)
All-append [] t h k = k
All-append (c ∷ s) t h k = (h.0, All-append s t h.1 k)

digit-IsWhole : (n : ℕ) → IsWhole (digit n ∷ [])
digit-IsWhole n = (ground arith, tt)

whole_text-IsWhole : (fuel n : ℕ) → IsWhole (whole_text fuel n)
unfolding whole_text
whole_text-IsWhole zero n = digit-IsWhole n
whole_text-IsWhole (suc fuel) n = go (ltb n 10) (whole_text-IsWhole fuel (n / 10))
  where
    go :
        (b : Bool)
        → IsWhole (whole_text fuel (n / 10))
        → IsWhole
            (elim b [ true ↦ digit n ∷ [] | false ↦ whole_text fuel (n / 10) ++ digit n ∷ [] ])
    go true h = digit-IsWhole n
    go false h = All-append (whole_text fuel (n / 10)) (digit n ∷ []) h (digit-IsWhole n)

-- The point ends the whole part.
read-point :
    (n : ℕ) (s t : Text) → IsWhole s → read n (s ++ b'.' ∷ t) ≡ (value (value n s) t, length t)
unfolding read value
read-point n [] t h = refl
read-point n (c ∷ s) t h = rw h.0 (read-point (10 * n + (c - b'0')) s t h.1)

read-whole : (n : ℕ) (s : Text) → IsWhole s → read n s ≡ (value n s, 0)
unfolding read value
read-whole n [] h = refl
read-whole n (c ∷ s) h = rw h.0 (read-whole (10 * n + (c - b'0')) s h.1)

drop_zero-append : (c x : ℕ) (s t : Text) → drop_zero c (s ++ x ∷ t) ≡ c ∷ s ++ x ∷ t
drop_zero-append c x [] t = refl
drop_zero-append c x (d ∷ s) t = refl

drop_zero-point : (s : Text) → drop_zero b'.' s ≡ b'.' ∷ s
drop_zero-point [] = refl
drop_zero-point (d ∷ s) = refl

-- Only zeros after the point go.
rstrip_zeros-point : (s t : Text) → rstrip_zeros (s ++ b'.' ∷ t) ≡ s ++ b'.' ∷ rstrip_zeros t
unfolding rstrip_zeros
rstrip_zeros-point [] t = drop_zero-point (rstrip_zeros t)
rstrip_zeros-point (c ∷ s) t =
    rw (rstrip_zeros-point s t) (drop_zero-append c b'.' s (rstrip_zeros t))

-- A text without the zeros at its end, which scale its value.
record IsStripped (n : ℕ) (s t : Text) : Type 0 where
  zeros : ℕ
  shorter : length s ≡ length t + zeros
  scaled : value n s ≡ value n t * 10 ^ zeros

shift : (n c z : ℕ) → c ≡ b'0' → (10 * n + (c - b'0')) * 10 ^ z ≡ n * 10 ^ suc z
shift n c z e = rw e (rw (mul-pow_suc n z) (omega arith))

rstrip_zeros-IsStripped : (n : ℕ) (s : Text) → IsStripped n s (rstrip_zeros s)
unfolding rstrip_zeros value
rstrip_zeros-IsStripped n [] = record { zeros = 0; shorter = refl; scaled = omega arith }
rstrip_zeros-IsStripped n (c ∷ s) =
    go (rstrip_zeros s) (rstrip_zeros-IsStripped (10 * n + (c - b'0')) s)
  where
    go : (t : Text) → IsStripped (10 * n + (c - b'0')) s t → IsStripped n (c ∷ s) (drop_zero c t)
    go (d ∷ t) h = record { zeros = h.zeros; shorter = omega (arith, h.shorter); scaled = h.scaled }
    go [] h =
        if_cases (IsStripped n (c ∷ s)) (c == b'0') _ _
          (λ e. record {
            zeros = suc h.zeros;
            shorter = omega (arith, h.shorter);
            scaled = h.scaled ∙ shift n c h.zeros ((==_iff c b'0').0 e);
          })
          (λ e. record { zeros = h.zeros; shorter = omega (arith, h.shorter); scaled = h.scaled })

abbrev pub is_negative : ℤ → Bool
is_negative (pos n) = false
is_negative (negsuc n) = true

-- What a text says of an amount with this many decimals.
pub record Says (amount decimals : ℕ) (r : ℕ × ℕ) : Type 0 where
  pub missing : ℕ
  pub scale : r.1 + missing ≡ decimals
  pub exact : r.0 * 10 ^ missing ≡ amount

unsigned_units-Says :
    (amount decimals : ℕ) → Says amount decimals (read 0 (unsigned_units amount decimals))
unsigned_units-Says amount decimals =
    if_cases (λ s. Says amount decimals (read 0 s)) (fraction == 0) _ _ is_whole is_split
  where
    whole : ℕ
    whole = amount / 10 ^ decimals

    fraction : ℕ
    fraction = amount % 10 ^ decimals

    parts : (whole * 10 ^ decimals + fraction ≡ amount) × (fraction < 10 ^ decimals)
    parts = omega (arith, pow_pos decimals)

    is_whole : (fraction == 0) ≡ true → Says amount decimals (read 0 (whole_text whole whole))
    is_whole e = rw (read-whole 0 (whole_text whole whole) (whole_text-IsWhole whole whole)) (
        rw (value-whole_text whole whole (omega arith)) (record {
          missing = decimals;
          scale = omega arith;
          exact = omega (arith, parts.0, (==_iff fraction 0).0 e);
        }))

    digits : Text
    digits = padded decimals fraction

    is_split :
        (fraction == 0) ≡ false
        → Says amount decimals (read 0 (rstrip_zeros (whole_text whole whole ++ b'.' ∷ digits)))
    is_split e =
        let stripped = rstrip_zeros-IsStripped whole digits in
        rw (rstrip_zeros-point (whole_text whole whole) digits) (
          rw
            (read-point 0 (whole_text whole whole) (rstrip_zeros digits)
              (whole_text-IsWhole whole whole))
            (rw (value-whole_text whole whole (omega arith)) (record {
              missing = stripped.zeros;
              scale = omega (arith, stripped.shorter, length-padded decimals fraction);
              exact =
                  sym stripped.scaled ∙ (value-padded whole decimals fraction parts.1 ∙ parts.0);
            })))

-- A text that does not begin with a sign.
abbrev HasNoSign : Text → Type 0
HasNoSign [] = Unit {0}
HasNoSign (c ∷ s) = (c == b'-') ≡ false

HasNoSign-append : (s t : Text) → HasNoSign s → HasNoSign t → HasNoSign (s ++ t)
HasNoSign-append [] t h k = k
HasNoSign-append (c ∷ s) t h k = h

whole_text-HasNoSign : (fuel n : ℕ) → HasNoSign (whole_text fuel n)
unfolding whole_text
whole_text-HasNoSign zero n = ground arith
whole_text-HasNoSign (suc fuel) n = go (ltb n 10) (whole_text-HasNoSign fuel (n / 10))
  where
    go :
        (b : Bool)
        → HasNoSign (whole_text fuel (n / 10))
        → HasNoSign
            (elim b [ true ↦ digit n ∷ [] | false ↦ whole_text fuel (n / 10) ++ digit n ∷ [] ])
    go true h = ground arith
    go false h = HasNoSign-append (whole_text fuel (n / 10)) (digit n ∷ []) h (ground arith)

rstrip_zeros-HasNoSign : (s : Text) → HasNoSign s → HasNoSign (rstrip_zeros s)
unfolding rstrip_zeros
rstrip_zeros-HasNoSign [] h = tt
rstrip_zeros-HasNoSign (c ∷ s) h = go (rstrip_zeros s)
  where
    go : (t : Text) → HasNoSign (drop_zero c t)
    go [] = if_cases HasNoSign (c == b'0') _ _ (λ e. tt) (λ e. h)
    go (d ∷ t) = h

unsigned_units-HasNoSign : (amount decimals : ℕ) → HasNoSign (unsigned_units amount decimals)
unsigned_units-HasNoSign amount decimals =
    if_elim HasNoSign _ _ _ (whole_text-HasNoSign _ _) (
      rstrip_zeros-HasNoSign _
        (HasNoSign-append (whole_text _ _) _ (whole_text-HasNoSign _ _) refl))

read_units-unsigned_units : (s : Text) → HasNoSign s → read_units s ≡ (false, read 0 s)
read_units-unsigned_units [] h = refl
read_units-unsigned_units (c ∷ s) h = rw h refl

abbrev pub abs : ℤ → ℕ
abs (pos n) = n
abs (negsuc n) = suc n

-- The text of an amount, read back, is the amount: its sign, and its digits scaled by as many places
-- as it leaves off.
pub units_exact :
    (amount : ℤ) (decimals : ℕ)
    → ((read_units (units amount decimals)).0 ≡ is_negative amount)
      × Says (abs amount) decimals (read_units (units amount decimals)).1
unfolding units
units_exact (pos n) decimals =
    rw (read_units-unsigned_units (unsigned_units n decimals) (unsigned_units-HasNoSign n decimals))
      (refl, unsigned_units-Says n decimals)
units_exact (negsuc n) decimals = (refl, unsigned_units-Says (suc n) decimals)
