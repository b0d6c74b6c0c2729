-- ===== src/Security/Url/Canonical.antt =====
-- src/fetech/security.py: the URL that `normalize_url` gives is canonical, and normalizing it again
-- changes nothing.
use fetech.Prelude.{ℕ, String, ◌≡◌, ◌⊎◌, false, not, Option, [], ◌∷◌, elem}
use fetech.Prelude.Text.{lower, is_empty_text}
use fetech.Prelude.Answer.{give}
use fetech.Security.Url.{SplitUrl, UrlLibrary, encode_host, normalized_parts}

-- A URL as `normalize_url` leaves it.
pub record IsCanonical (u : SplitUrl) : Type 0 where
  pub accepted_scheme : (u.scheme ≡ "http") ⊎ (u.scheme ≡ "https")
  pub no_credentials : (u.username ≡ "") × (u.password ≡ "")
  pub has_host : is_empty_text u.hostname ≡ false
  pub has_path : is_empty_text u.path ≡ false
  pub no_fragment : u.fragment ≡ ""

-- What the code has read and checked when `normalize_parts` gives a URL.
record Normalized (lib : UrlLibrary) (parts u : SplitUrl) : Type 0 where
  good_scheme : not (elem (lower parts.scheme) ("http" ∷ "https" ∷ [])) ≡ false
  has_name : is_empty_text parts.hostname ≡ false
  host : String
  encoded : encode_host lib parts.hostname ≡ give host
  number : Option ℕ
  result : normalized_parts parts host number ≡ u
