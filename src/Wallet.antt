-- ===== src/Wallet.antt =====
-- The signing guards of server/src/services/wallet_manager.py, and the two functions that sign
-- behind them. What a remote server has sent is a tree of JSON values.
pub mod Swap
pub mod Authorization
pub mod Signing
mod Tests
use mangrove_agent.Prelude.{
  ℕ, Bool, true, false, ◌&&◌, ◌||◌, not, Option, none, some, List, [], ◌∷◌, ◌==◌, leb,
  if◌then◌else◌, any, drop, length,
}
use mangrove_agent.Prelude.Int.{ℤ}
use mangrove_agent.Prelude.Text.{Text, text_eq, is_hex, is_digit, lower_char, codes, strip_ascii}

mutual
  -- A Python value of an envelope or of a receipt; `null` is `None`, and `other` is any other object,
  -- such as a float.
  pub data Value : Type 0 where
    boolean : Bool → Value
    integer : ℤ → Value
    text bytes : Text → Value
    items : Values → Value
    dict : Fields → Value
    null other : Value

  pub data Values : Type 0 where
    end : Values
    item : Value → Values → Values

  -- The keys of a dict differ.
  pub data Fields : Type 0 where
    empty : Fields
    field : Text → Value → Fields → Fields

-- `d.get(key)`
unfoldable pub lookup : Text → Fields → Option Value
lookup key empty = none
lookup key (field k v fs) = let rest = lookup key fs in if text_eq k key then some v else rest

-- `set(d) - allowed` is empty
unfoldable pub keys_within : List Text → Fields → Bool
keys_within allowed empty = true
keys_within allowed (field k v fs) = any (text_eq k) allowed && keys_within allowed fs

-- A value that is a certain text.
abbrev pub is_text : Text → Option Value → Bool
is_text want (some (text s)) = text_eq s want
is_text want _ = false

abbrev pub put_char : ℕ → Option Text → Option Text
put_char c none = none
put_char c (some s) = some (c ∷ s)

-- The digits of a hexadecimal numeral, with one `_` at most before a digit; the flag says that one
-- may stand here.
unfoldable pub hex_numeral : Bool → Text → Option Text
hex_numeral free [] = if free then some [] else none
hex_numeral free (c ∷ s) =
    let rest = hex_numeral (is_hex c) s in
    if is_hex c then put_char c rest else if c == b'_' && free then rest else none

abbrev pub is_some_digits : Option Text → Bool
is_some_digits none = false
is_some_digits (some []) = false
is_some_digits (some (c ∷ s)) = true

abbrev pub starts_with_0x : Text → Bool
starts_with_0x (c ∷ d ∷ s) = c == b'0' && d == b'x'
starts_with_0x [] = false
starts_with_0x (c ∷ []) = false

-- `int(s, 16)` of a text that begins with `0x` does not raise: blanks at its end, and underscores
-- between the digits or after the prefix.
unfoldable pub int16_after_0x : Text → Bool
unfolding hex_numeral
int16_after_0x s = is_some_digits (hex_numeral true (drop 2 (strip_ascii s)))

-- `_is_hex_address`
abbrev pub is_hex_address_text : Text → Bool
is_hex_address_text s = starts_with_0x s && length s == 42 && int16_after_0x s

unfoldable pub is_hex_address : Option Value → Bool
unfolding int16_after_0x
is_hex_address (some (text s)) = is_hex_address_text s
is_hex_address _ = false
