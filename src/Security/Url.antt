-- ===== src/Security/Url.antt =====
-- src/fetech/security.py: `sanitize_url`, `normalize_url` and `ensure_safe_redirect`. A URL is the
-- parts that `urlsplit` gives of its text; the network location is user, password, host and port.
pub mod Canonical
pub mod Redact
use fetech.Prelude.{
  ℕ, zero, suc, String, ◌=s=◌, Bool, true, false, not, ◌&&◌, ◌||◌, Option, none, some, List, [],
  ◌∷◌, map, ◌==◌, if◌then◌else◌, elem,
}
use fetech.Prelude.Text.{lower, rstrip, strip, is_empty_text}
use fetech.Prelude.Answer.{Answer, raise, give, ◌>>=◌, ◌>>◌, raise_if, raise_first}

-- `malformed_port` is a port whose reading raises a ValueError.
pub data Port : Type 0 where
  no_port malformed_port : Port
  port : ℕ → Port

-- What is absent is the empty text.
pub record SplitUrl : Type 0 where
  pub scheme : String
  pub username : String
  pub password : String
  pub hostname : String
  pub port : Port
  pub path : String
  pub query : String
  pub fragment : String

-- A text that is to be read as a URL: blank, one that `urlsplit` refuses, or one with its parts.
pub data Target : Type 0 where
  blank : Target
  unreadable : Target
  split : SplitUrl → Target

pub data UrlError : Type 0 where
  empty_target : UrlError
  unreadable_target : UrlError
  scheme_not_accepted : UrlError
  credentials_forbidden : UrlError
  no_hostname : UrlError
  bad_hostname : UrlError
  bad_port : UrlError

-- The functions on texts that the standard library brings: the codec `idna`, `parse_qsl` with
-- whether blank values are kept, `urlencode`, `urlsplit`, `none` for its ValueError, and the text of a
-- URL.
pub record UrlLibrary : Type 0 where
  pub idna : String → Option String
  pub parse_qsl : Bool → String → List (String × String)
  pub urlencode : List (String × String) → String
  pub urlsplit : String → Option SplitUrl
  pub urlunsplit : SplitUrl → String

-- SENSITIVE_QUERY_KEYS
abbrev pub sensitive_query_keys : List String
sensitive_query_keys =
    "access_token" ∷ "api_key" ∷ "apikey" ∷ "auth" ∷ "code" ∷ "key" ∷ "password" ∷ "signature"
    ∷ "sig" ∷ "token" ∷ []

-- parts.port
unfoldable pub read_port : Port → Answer UrlError (Option ℕ)
read_port no_port = give none
read_port malformed_port = raise bad_port
read_port (port n) = give (some n)

-- f":{port}" if port else ""
abbrev pub shown_port : Option ℕ → Port
shown_port none = no_port
shown_port (some n) = if n == 0 then no_port else port n

abbrev pub redact_pair : Bool → String × String → String × String
redact_pair redact_query (key, value) =
    (key, if redact_query || elem (lower key) sensitive_query_keys then "[REDACTED]" else value)

abbrev pub is_default_port : String → ℕ → Bool
is_default_port scheme n = (scheme =s= "http" && n == 80) || (scheme =s= "https" && n == 443)

-- The port that the normalized URL names
abbrev pub kept_port : String → Option ℕ → Port
kept_port scheme none = no_port
kept_port scheme (some n) = if is_default_port scheme n then no_port else port n

abbrev pub root_path : String → String
root_path path = if is_empty_text path then "/" else path

abbrev pub normalized_parts : SplitUrl → String → Option ℕ → SplitUrl
normalized_parts parts host number = record {
  scheme = lower parts.scheme;
  username = "";
  password = "";
  hostname = host;
  port = kept_port (lower parts.scheme) number;
  path = root_path parts.path;
  query = parts.query;
  fragment = "";
}

-- The `if … raise` statements of `normalize_url`
abbrev pub url_checks : SplitUrl → List (Bool × UrlError)
url_checks parts =
    (not (elem (lower parts.scheme) ("http" ∷ "https" ∷ [])), scheme_not_accepted)
    ∷ (
      not (is_empty_text parts.username) || not (is_empty_text parts.password),
      credentials_forbidden,
    )
    ∷ (is_empty_text parts.hostname, no_hostname)
    ∷ []

module _ (lib : UrlLibrary) where
  unfoldable pub sanitize_url : Bool → SplitUrl → Answer UrlError SplitUrl
  unfolding lower
  sanitize_url redact_query parts = do
    number ← read_port parts.port
    let query = lib.urlencode (map (redact_pair redact_query) (lib.parse_qsl false parts.query))
    give record {
      scheme = parts.scheme;
      username = "";
      password = "";
      hostname = parts.hostname;
      port = shown_port number;
      path = parts.path;
      query = query;
      fragment = "";
    }

  -- parts.hostname.encode("idna").decode("ascii").lower().rstrip(".")
  unfoldable pub encode_host : String → Answer UrlError String
  encode_host hostname = elim (lib.idna hostname) [
    | none ↦ raise bad_hostname
    | some host ↦ give (rstrip 46 (lower host))
  ]

  abbrev pub normalize_parts : SplitUrl → Answer UrlError SplitUrl
  normalize_parts parts = do
    raise_first (url_checks parts)
    host ← encode_host parts.hostname
    number ← read_port parts.port
    give (normalized_parts parts host number)

  unfoldable pub normalize_url : Target → Answer UrlError SplitUrl
  normalize_url blank = raise empty_target
  normalize_url unreadable = raise unreadable_target
  normalize_url (split parts) = normalize_parts parts

  -- What `normalize_url` reads of a text: `target.strip()` and `urlsplit`
  abbrev pub read_target : String → Target
  read_target text =
      let candidate = strip text in
      if is_empty_text candidate
      then blank
      else elim (lib.urlsplit candidate) [ none ↦ unreadable | some parts ↦ split parts ]

  -- `normalize_url` from a text to a text
  unfoldable pub normalize_text : String → Answer UrlError String
  unfolding normalize_url
  normalize_text text = do parts ← normalize_url (read_target text); give (lib.urlunsplit parts)

-- ensure_safe_redirect; the test that `evaluate` makes too
unfoldable pub is_downgrade : String → String → Bool
is_downgrade previous following = previous =s= "https" && following =s= "http"

pub data RedirectError : Type 0 where
  https_downgrade unreadable_url : RedirectError

abbrev pub read_parts : Target → Answer RedirectError String
read_parts blank = give ""
read_parts unreadable = raise unreadable_url
read_parts (split parts) = give parts.scheme

unfoldable pub ensure_safe_redirect : Target → Target → Answer RedirectError (Unit {0})
ensure_safe_redirect previous_url next_url = do
  previous ← read_parts previous_url
  following ← read_parts next_url
  raise_if (is_downgrade previous following) https_downgrade
