-- ===== src/Url/Tests.antt =====
-- `strip_query` on a URL with userinfo, a query and a fragment.
use mangrove_agent.Prelude.Text.{Text, codes}

abbrev signed_url : Text
signed_url = codes "https://me:pw@a.b/x/y?token=1#z"

abbrev plain_url : Text
plain_url = codes "https://a.b/x/y"
