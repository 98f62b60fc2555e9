-- ===== src/Prelude/Text.antt =====
-- Texts as lists of code points, and the parts of Python's `str` and `re` that the program uses
-- on them. `is_space`, `is_digit` and `lower` read code points up to 127.
use Prim.Native.Char.{code}
use Prim.Native.String.{String}
use mangrove_agent.Prelude.Tests.{◌==◌, leb, if◌then◌else◌}
use mangrove_agent.Prelude.Lists.{all, length}
use Prim.Native.Nat.{ℕ, ◌+◌}
use mathlib.Core.Path.{◌≡◌, refl}
use mathlib.Core.Bool.{Bool, true, false, ◌&&◌, ◌||◌}
use mathlib.Core.List.{List, [], ◌∷◌, reverse}
use native.Mathlib.Omega.{arith}

abbrev pub Text : Type 0
Text = List ℕ

abbrev pub codes : String → Text
codes String.[] = []
codes (String.◌∷◌ c s) = code c ∷ codes s

abbrev pub text_eq : Text → Text → Bool
text_eq [] [] = true
text_eq [] (d ∷ t) = false
text_eq (c ∷ s) [] = false
text_eq (c ∷ s) (d ∷ t) = c == d && text_eq s t

pub text_eq_refl : (s : Text) → text_eq s s ≡ true
text_eq_refl [] = refl
text_eq_refl (c ∷ s) = ground (arith, text_eq_refl s)

pub eq_of_text_eq : (s t : Text) → text_eq s t ≡ true → s ≡ t
eq_of_text_eq [] [] h = refl
eq_of_text_eq [] (d ∷ t) h = cc
eq_of_text_eq (c ∷ s) [] h = cc
eq_of_text_eq (c ∷ s) (d ∷ t) h = ground (arith, eq_of_text_eq s t)

abbrev pub is_digit : ℕ → Bool
is_digit c = leb b'0' c && leb c b'9'

-- `str.isspace` on ASCII: tab to carriage return, the separators 28 to 31, the blank.
abbrev pub is_space : ℕ → Bool
is_space c = leb 9 c && leb c 13 || leb 28 c && leb c 32

-- `[0-9a-fA-F]`
abbrev pub is_hex : ℕ → Bool
is_hex c = is_digit c || leb b'a' c && leb c b'f' || leb b'A' c && leb c b'F'

-- What `int` and `bytes.fromhex` skip in an ASCII text: the separators are not among them.
abbrev pub is_ascii_blank : ℕ → Bool
is_ascii_blank c = leb 9 c && leb c 13 || c == 32

-- `str.lstrip` of the characters that `p` accepts, `str.strip` of blanks, and what `int` reads.
abbrev pub lstrip : (ℕ → Bool) → Text → Text
lstrip p [] = []
lstrip p (c ∷ s) = let rest = lstrip p s in if p c then rest else c ∷ s

abbrev strip_all : (ℕ → Bool) → Text → Text
strip_all p s = reverse (lstrip p (reverse (lstrip p s)))

abbrev pub strip : Text → Text
strip s = strip_all is_space s

abbrev pub strip_ascii : Text → Text
strip_ascii s = strip_all is_ascii_blank s

abbrev pub lower_char : ℕ → ℕ
lower_char c = if leb b'A' c && leb c b'Z' then c + 32 else c

abbrev pub lower : Text → Text
lower [] = []
lower (c ∷ s) = lower_char c ∷ lower s

-- `re.fullmatch(r"0x[0-9a-fA-F]{n}", s)`
abbrev pub is_hex_word : ℕ → Text → Bool
is_hex_word n (z ∷ x ∷ s) = z == b'0' && x == b'x' && all is_hex s && length s == n
is_hex_word n [] = false
is_hex_word n (z ∷ []) = false
