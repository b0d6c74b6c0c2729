-- ===== src/Ledger/Document.antt =====
-- src/fetech/ledger.py, src/fetech/security.py: the documents that are sanitized, and the sanitizing
-- of the URLs in a text.
use Prim.Native.Char.{Char, code}
use fetech.Prelude.{ℕ, String, Bool, true, ◌||◌, none, some, List, [], ◌∷◌, ◌==◌, if◌then◌else◌}
use fetech.Prelude.Text.{append}
use fetech.Prelude.Answer.{Answer, raise, give, ◌>>=◌, catch}
use fetech.Security.Url.{UrlError, unreadable_target, UrlLibrary, sanitize_url}

-- `other` is a value that is neither a text nor a container, by the text that `json.dumps` writes for it;
-- `number` is a natural one.
mutual
  pub data Json : Type 0 where
    null : Json
    flag : Bool → Json
    number : ℕ → Json
    other : String → Json
    text : String → Json
    array : Items → Json
    object : Fields → Json

  pub data Items : Type 0 where
    no_item : Items
    item : Json → Items → Items

  pub data Fields : Type 0 where
    no_field : Fields
    field : String → Json → Fields → Fields

-- A text as the matches of the pattern of URLs cut it
pub data Piece : Type 0 where
  plain : String → Piece
  url_match : String → Piece

-- What the library functions make of texts: those on URLs, and the matches of `_URL_IN_TEXT`
pub record TextLibrary : Type 0 where
  pub urls : UrlLibrary
  pub url_pieces : String → List Piece

-- `candidate[-1] in ".,;)]}"`
abbrev pub is_trailing : Char → Bool
is_trailing c =
    (code c == 46 || code c == 44)
    || ((code c == 59 || code c == 41) || (code c == 93 || code c == 125))

abbrev pub cut_at : Char → String × String → String × String
cut_at c (String.[], trailing) =
    if is_trailing c then ("", String.◌∷◌ c trailing) else (String.◌∷◌ c "", trailing)
cut_at c (String.◌∷◌ d kept, trailing) = (String.◌∷◌ c (String.◌∷◌ d kept), trailing)

-- The `while` loop of `replace_url`: what is kept, and the marks at the end
unfoldable pub cut_trailing : String → String × String
cut_trailing String.[] = ("", "")
cut_trailing (String.◌∷◌ c s) = cut_at c (cut_trailing s)

module _ (lib : TextLibrary) where
  -- `sanitize_url` on a text
  unfoldable pub sanitize_text_url : Bool → String → Answer UrlError String
  sanitize_text_url redact_query s = elim (lib.urls.urlsplit s) [
    | none ↦ raise unreadable_target
    | some parts ↦ do
      shown ← sanitize_url lib.urls redact_query parts
      give (lib.urls.urlunsplit shown)
  ]

  -- `try: … except ValueError: …`
  abbrev pub url_or_redacted : Answer UrlError String → String
  url_or_redacted answer = catch answer (λ e. "[REDACTED_INVALID_URL]")

  -- `replace_url`, on the two parts that its loop leaves
  abbrev pub replace_url : String × String → String
  replace_url (candidate, trailing) =
      append (url_or_redacted (sanitize_text_url true candidate)) trailing

  unfoldable pub replace_pieces : List Piece → String
  unfolding cut_trailing sanitize_text_url
  replace_pieces [] = ""
  replace_pieces (plain s ∷ pieces) = append s (replace_pieces pieces)
  replace_pieces (url_match s ∷ pieces) =
      append (replace_url (cut_trailing s)) (replace_pieces pieces)

  -- sanitize_authenticated_text
  unfoldable pub sanitize_authenticated_text : String → String
  unfolding replace_pieces
  sanitize_authenticated_text value = replace_pieces (lib.url_pieces value)
