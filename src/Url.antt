-- ===== src/Url.antt =====
-- server/src/shared/urls.py: `strip_query`, over Python 3.11's `urlsplit` and `urlunsplit` for
-- ASCII texts. The check of a bracketed host (`_check_bracketed_netloc`, which asks `ipaddress`) is
-- the argument `bracketed_is_valid`.
pub mod Stripped
mod Tests
use mathlib.Core.List.{reverse}
use mangrove_agent.Prelude.{
  ℕ, zero, suc, ◌≤◌, ◌≡◌, refl, Bool, true, false, not, ◌&&◌, ◌||◌, Option, none, some, List, [],
  ◌∷◌, ◌++◌, arith, ◌==◌, leb, if◌then◌else◌, any, all, drop,
}
use mangrove_agent.Prelude.Text.{Text, codes, text_eq, is_digit, lower, lstrip}

abbrev is_letter : ℕ → Bool
is_letter c = leb b'a' c && leb c b'z' || leb b'A' c && leb c b'Z'

-- `scheme_chars`
abbrev pub is_scheme_char : ℕ → Bool
is_scheme_char c = is_letter c || is_digit c || c == b'+' || c == b'-' || c == b'.'

-- The text before the first character that `p` accepts, and the text from there on.
unfoldable pub before : (ℕ → Bool) → Text → Text
before p [] = []
before p (c ∷ s) = let rest = before p s in if p c then [] else c ∷ rest

unfoldable pub from : (ℕ → Bool) → Text → Text
from p [] = []
from p (c ∷ s) = let rest = from p s in if p c then c ∷ s else rest

-- `_UNSAFE_URL_BYTES_TO_REMOVE`
abbrev is_unsafe : ℕ → Bool
is_unsafe c = c == 9 || c == 10 || c == 13

unfoldable pub remove_unsafe : Text → Text
remove_unsafe [] = []
remove_unsafe (c ∷ s) = let rest = remove_unsafe s in if is_unsafe c then rest else c ∷ rest

abbrev is_colon : ℕ → Bool
is_colon c = c == b':'

abbrev pub is_query_mark : ℕ → Bool
is_query_mark c = c == b'?'

abbrev pub is_hash : ℕ → Bool
is_hash c = c == b'#'

abbrev pub is_netloc_end : ℕ → Bool
is_netloc_end c = c == b'/' || is_query_mark c || is_hash c

abbrev is_open : ℕ → Bool
is_open c = c == b'['

abbrev is_close : ℕ → Bool
is_close c = c == b']'

abbrev starts_with_letter : Text → Bool
starts_with_letter [] = false
starts_with_letter (c ∷ s) = is_letter c

-- `url[:i]` names a scheme, for the first colon at `i > 0`.
abbrev has_scheme : Text → Bool
has_scheme s = any is_colon s && starts_with_letter s && all is_scheme_char (before is_colon s)

abbrev starts_with_slashes : Text → Bool
starts_with_slashes (c ∷ d ∷ s) = c == b'/' && d == b'/'
starts_with_slashes [] = false
starts_with_slashes (c ∷ []) = false

pub record UrlParts : Type 0 where
  pub scheme : Text
  pub netloc : Text
  pub path : Text

abbrev pub path_of : Text → Text
path_of s = before is_query_mark (before is_hash s)

module _ (bracketed_is_valid : Text → Bool) where
  abbrev netloc_is_valid : Text → Bool
  netloc_is_valid n =
      if any is_open n then any is_close n && bracketed_is_valid n else not (any is_close n)

  abbrev split_netloc : Text → Text → Option UrlParts
  split_netloc scheme url =
      if starts_with_slashes url
      then (if netloc_is_valid (before is_netloc_end (drop 2 url))
          then some (record {
            scheme = scheme;
            netloc = before is_netloc_end (drop 2 url);
            path = path_of (from is_netloc_end (drop 2 url));
          })
          else none)
      else some (record { scheme = scheme; netloc = []; path = path_of url })

  abbrev split_scheme : Text → Option UrlParts
  split_scheme url =
      if has_scheme url
      then split_netloc (lower (before is_colon url)) (drop 1 (from is_colon url))
      else split_netloc [] url

  -- `none` is a `ValueError`. The query and the fragment are not kept.
  unfoldable pub urlsplit : Text → Option UrlParts
  unfolding before from remove_unsafe
  urlsplit url = split_scheme (remove_unsafe (lstrip (λ c. leb c 32) url))

-- `uses_netloc`, less the empty scheme
abbrev uses_netloc : List Text
uses_netloc =
    codes "ftp"
    ∷ codes "http"
    ∷ codes "gopher"
    ∷ codes "nntp"
    ∷ codes "telnet"
    ∷ codes "imap"
    ∷ codes "wais"
    ∷ codes "file"
    ∷ codes "mms"
    ∷ codes "https"
    ∷ codes "shttp"
    ∷ codes "snews"
    ∷ codes "prospero"
    ∷ codes "rtsp"
    ∷ codes "rtspu"
    ∷ codes "rsync"
    ∷ codes "svn"
    ∷ codes "svn+ssh"
    ∷ codes "sftp"
    ∷ codes "nfs"
    ∷ codes "git"
    ∷ codes "git+ssh"
    ∷ codes "ws"
    ∷ codes "wss"
    ∷ []

unfoldable pub is_netloc_scheme : Text → Bool
is_netloc_scheme s = any (text_eq s) uses_netloc

abbrev pub is_empty : Text → Bool
is_empty [] = true
is_empty (c ∷ s) = false

abbrev starts_with_slash : Text → Bool
starts_with_slash [] = false
starts_with_slash (c ∷ s) = c == b'/'

abbrev with_slash : Text → Text
with_slash p = if is_empty p || starts_with_slash p then p else b'/' ∷ p

abbrev with_netloc : UrlParts → Text
with_netloc u =
    if not (is_empty u.netloc) || is_netloc_scheme u.scheme && not (starts_with_slashes u.path)
    then b'/' ∷ b'/' ∷ (u.netloc ++ with_slash u.path)
    else u.path

-- `urlunsplit((scheme, netloc, path, "", ""))`
unfoldable pub urlunsplit : UrlParts → Text
urlunsplit u = if is_empty u.scheme then with_netloc u else u.scheme ++ b':' ∷ with_netloc u

abbrev pub is_at : ℕ → Bool
is_at c = c == b'@'

-- `s.rsplit("@", 1)[-1]`
unfoldable pub after_last_at : Text → Text
unfolding before
after_last_at s = reverse (before is_at (reverse s))

abbrev some_text : Text → Option Text
some_text [] = none
some_text (c ∷ s) = some (c ∷ s)

unfoldable pub strip_query : (Text → Bool) → Option Text → Option Text
unfolding urlsplit urlunsplit after_last_at
strip_query bracketed_is_valid none = none
strip_query bracketed_is_valid (some []) = none
strip_query bracketed_is_valid (some (c ∷ s)) = elim (urlsplit bracketed_is_valid (c ∷ s)) [
  | none ↦ none
  | some u ↦ some_text (urlunsplit (record u { netloc = after_last_at u.netloc }))
]
