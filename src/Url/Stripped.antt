-- ===== src/Url/Stripped.antt =====
-- What `strip_query` of server/src/shared/urls.py leaves out.
use mangrove_agent.Prelude.{ℕ, ◌≡◌, Bool, false, ◌||◌, any}
use mangrove_agent.Prelude.Text.{Text}
use mangrove_agent.Url.{UrlParts, is_query_mark, is_hash}

-- `s` has no character that `p` accepts.
abbrev pub Lacks : (ℕ → Bool) → Text → Type 0
Lacks p s = any p s ≡ false

-- What a query or a fragment begins with.
abbrev pub is_mark : ℕ → Bool
is_mark c = is_query_mark c || is_hash c

-- Every part of a split URL is free of the marks.
record IsPlain (u : UrlParts) : Type 0 where
  scheme : Lacks is_mark u.scheme
  netloc : Lacks is_mark u.netloc
  path : Lacks is_mark u.path
