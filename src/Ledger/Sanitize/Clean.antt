-- ===== src/Ledger/Sanitize/Clean.antt =====
-- src/fetech/ledger.py: what `_sanitize_payload` leaves of a document.
use Prim.Native.Char.{Char}
use fetech.Prelude.{
  ap, ◌∙◌, some, none, Option-cases, String, ◌≡◌, refl, sym, ◌⊎◌, inl, inr, Bool, true, false, List,
  [], ◌∷◌, elem, if◌then◌else◌, Bool-cases, arith,
}
use fetech.Prelude.Text.{lower, append}
use fetech.Prelude.Answer.{Answer, raise, give}
use fetech.Security.Url.{SplitUrl, UrlError, unreadable_target, sanitize_url}
use fetech.Security.Url.Redact.{IsSanitized, sanitize_url-IsSanitized}
use fetech.Ledger.Document.{
  Json, null, flag, number, other, text, array, object, Items, no_item, item, Fields, no_field,
  field, Piece, plain, url_match, TextLibrary, is_trailing, cut_at, cut_trailing, sanitize_text_url,
  url_or_redacted, replace_pieces, sanitize_authenticated_text,
}
use fetech.Ledger.Sanitize.Secret.{IsSecret, IsSecret-is_secret_key}
use fetech.Ledger.Sanitize.Secret.Named.{is_secret_key-IsSecret}
use fetech.Ledger.Sanitize.{
  is_secret_key, sanitize_text, sanitize_payload, sanitize_items, sanitize_fields,
}

-- The keys under which a text is a URL
abbrev pub url_names : List String
url_names =
    "authority_url" ∷ "candidate" ∷ "canonical_url" ∷ "destination" ∷ "normalized_target"
    ∷ "parent_url" ∷ "requested_url" ∷ "root_url" ∷ "source_url" ∷ "target" ∷ "url" ∷ []

-- What is shown of the text of a URL: a sanitized URL, or the mark of one that cannot be read
pub ShownUrl : TextLibrary → Bool → String → String → Type 0
ShownUrl lib redact_query original shown =
    (shown ≡ "[REDACTED_INVALID_URL]")
    ⊎ ((parts : SplitUrl) × (u : SplitUrl) × (lib.urls.urlsplit original ≡ some parts)
        × IsSanitized lib.urls redact_query parts u
        × (shown ≡ lib.urls.urlunsplit u))

-- What is shown of a text that the pattern of URLs has cut: each URL, less the marks at its end, is
-- shown with all values of its query redacted, and all else stays.
pub Scrubbed : TextLibrary → List Piece → String → Type 0
Scrubbed lib [] shown = shown ≡ ""
Scrubbed lib (plain s ∷ pieces) shown =
    (rest : String) × Scrubbed lib pieces rest × (shown ≡ append s rest)
Scrubbed lib (url_match s ∷ pieces) shown =
    (candidate : String) × (trailing : String) × (url : String) × (rest : String) × (s
      ≡ append candidate trailing)
    × ShownUrl lib true candidate url
    × Scrubbed lib pieces rest
    × (shown ≡ append (append url trailing) rest)

-- What is shown of a text under a key that names no secret
pub TextShown : TextLibrary → Bool → String → String → String → Type 0
TextShown lib authenticated key original shown =
    ((elem (lower key) url_names ≡ true) × ShownUrl lib authenticated original shown)
    ⊎ ((elem (lower key) url_names ≡ false)
        × (authenticated ≡ true)
        × Scrubbed lib (lib.url_pieces original) shown)
    ⊎ ((elem (lower key) url_names ≡ false) × (authenticated ≡ false) × (shown ≡ original))

-- The mark in a value's place if the key names a secret, and what the type tells of the value if not
pub OrMark : String → Json → Type 0 → Type 0
OrMark key kept Rest = (IsSecret key × (kept ≡ text "[REDACTED]")) ⊎ (¬ IsSecret key × Rest)

-- What is kept of a value whose key names no secret is of the same form, and its parts are kept this
-- way or marked; the items of a list stand under the key of the list.
mutual
  pub CleanValue : TextLibrary → Bool → String → Json → Json → Type 0
  CleanValue lib authenticated key (text s) kept =
      (shown : String) × (kept ≡ text shown) × TextShown lib authenticated key s shown
  CleanValue lib authenticated key (array items) kept =
      (items' : Items) × (kept ≡ array items') × CleanItems lib authenticated key items items'
  CleanValue lib authenticated key (object fields) kept =
      (fields' : Fields) × (kept ≡ object fields') × CleanFields lib authenticated fields fields'
  CleanValue lib authenticated key null kept = kept ≡ null
  CleanValue lib authenticated key (flag b) kept = kept ≡ flag b
  CleanValue lib authenticated key (number n) kept = kept ≡ number n
  CleanValue lib authenticated key (other s) kept = kept ≡ other s

  pub CleanItems : TextLibrary → Bool → String → Items → Items → Type 0
  CleanItems lib authenticated key no_item kept = kept ≡ no_item
  CleanItems lib authenticated key (item value items) kept =
      (value' : Json) × (items' : Items) × (kept ≡ item value' items')
      × OrMark key value' (CleanValue lib authenticated key value value')
      × CleanItems lib authenticated key items items'

  pub CleanFields : TextLibrary → Bool → Fields → Fields → Type 0
  CleanFields lib authenticated no_field kept = kept ≡ no_field
  CleanFields lib authenticated (field key value fields) kept =
      (value' : Json) × (fields' : Fields) × (kept ≡ field key value' fields')
      × OrMark key value' (CleanValue lib authenticated key value value')
      × CleanFields lib authenticated fields fields'

cut_at-append :
    (c : Char) (p : String × String)
    → append (cut_at c p).0 (cut_at c p).1 ≡ String.◌∷◌ c (append p.0 p.1)
cut_at-append c (String.[], trailing) = elim (Bool-cases (is_trailing c)) [
  | inl e ↦ rw e refl
  | inr e ↦ rw e refl
]
cut_at-append c (String.◌∷◌ d kept, trailing) = refl

cut_trailing-append : (s : String) → append (cut_trailing s).0 (cut_trailing s).1 ≡ s
unfolding cut_trailing
cut_trailing-append String.[] = refl
cut_trailing-append (String.◌∷◌ c s) =
    cut_at-append c (cut_trailing s) ∙ ap (λ t. String.◌∷◌ c t) (cut_trailing-append s)

module _ (lib : TextLibrary) where
  unread :
      (redact_query : Bool) (s : String)
      → lib.urls.urlsplit s ≡ none
      → sanitize_text_url lib redact_query s ≡ raise unreadable_target
  unfolding sanitize_text_url
  unread redact_query s e = ground arith

  refused :
      (redact_query : Bool) (s : String) (parts : SplitUrl) (x : UrlError)
      → lib.urls.urlsplit s ≡ some parts
      → sanitize_url lib.urls redact_query parts ≡ raise x
      → sanitize_text_url lib redact_query s ≡ raise x
  unfolding sanitize_text_url
  refused redact_query s parts x e h = ground arith

  sanitized :
      (redact_query : Bool) (s : String) (parts u : SplitUrl)
      → lib.urls.urlsplit s ≡ some parts
      → sanitize_url lib.urls redact_query parts ≡ give u
      → sanitize_text_url lib redact_query s ≡ give (lib.urls.urlunsplit u)
  unfolding sanitize_text_url
  sanitized redact_query s parts u e h = ground arith

  sanitize_text_url-shown :
      (redact_query : Bool) (s : String)
      → ShownUrl lib redact_query s (url_or_redacted lib (sanitize_text_url lib redact_query s))
  unfolding ShownUrl
  sanitize_text_url-shown redact_query s = elim (Option-cases (lib.urls.urlsplit s)) [
    | inl e ↦ inl (ap (url_or_redacted lib) (unread redact_query s e))
    | inr (parts, e) ↦ by_answer parts e (sanitize_url lib.urls redact_query parts) refl
  ]
    where
      by_answer :
          (parts : SplitUrl)
          → lib.urls.urlsplit s ≡ some parts
          → (a : Answer UrlError SplitUrl) → sanitize_url lib.urls redact_query parts ≡ a
          → ShownUrl lib redact_query s (url_or_redacted lib (sanitize_text_url lib redact_query s))
      by_answer parts e (raise x) h =
          inl (ap (url_or_redacted lib) (refused redact_query s parts x e h))
      by_answer parts e (give u) h = inr (
        parts,
        u,
        e,
        sanitize_url-IsSanitized lib.urls redact_query parts u h,
        ap (url_or_redacted lib) (sanitized redact_query s parts u e h),
      )

  replace_pieces-Scrubbed : (pieces : List Piece) → Scrubbed lib pieces (replace_pieces lib pieces)
  unfolding Scrubbed replace_pieces
  replace_pieces-Scrubbed [] = refl
  replace_pieces-Scrubbed (plain s ∷ pieces) =
      (replace_pieces lib pieces, replace_pieces-Scrubbed pieces, refl)
  replace_pieces-Scrubbed (url_match s ∷ pieces) =
      let cut = cut_trailing s in
      (
        cut.0,
        cut.1,
        url_or_redacted lib (sanitize_text_url lib true cut.0),
        replace_pieces lib pieces,
        sym (cut_trailing-append s),
        sanitize_text_url-shown true cut.0,
        replace_pieces-Scrubbed pieces,
        refl,
      )

module _ (lib : TextLibrary) (authenticated : Bool) where
  sanitize_text-TextShown :
      (key value : String)
      → TextShown lib authenticated key value (sanitize_text lib authenticated key value)
  unfolding sanitize_text TextShown sanitize_authenticated_text
  sanitize_text-TextShown key value = elim (Bool-cases (elem (lower key) url_names)) [
    | inl e ↦ inl (e, rw e (sanitize_text_url-shown lib authenticated value))
    | inr e ↦ elim (Bool-cases authenticated) [
      | inl a ↦ inr (inl (e, a, rw (e, a) (replace_pieces-Scrubbed lib (lib.url_pieces value))))
      | inr a ↦ inr (inr (e, a, rw (e, a) refl))
    ]
  ]

  -- The mark, or a value that is clean when the key names no secret
  by_key :
      (key : String) (original value : Json)
      → CleanValue lib authenticated key original value
      → OrMark key (if is_secret_key key then text "[REDACTED]" else value) (
          CleanValue lib authenticated key original
            (if is_secret_key key then text "[REDACTED]" else value))
  unfolding OrMark
  by_key key original value clean = elim (Bool-cases (is_secret_key key)) [
    | inl e ↦ rw e (inl (is_secret_key-IsSecret key e, refl))
    | inr e ↦ rw e (inr ((λ s. let replaced = IsSecret-is_secret_key key s in ground arith), clean))
  ]

  mutual
    unfolding sanitize_payload sanitize_items sanitize_fields CleanValue CleanItems CleanFields

    value-Clean :
        (key : String) (value : Json)
        → OrMark key
            (sanitize_payload lib authenticated key value)
            (CleanValue lib authenticated key value (sanitize_payload lib authenticated key value))
    value-Clean key null = by_key key null null refl
    value-Clean key (flag b) = by_key key (flag b) (flag b) refl
    value-Clean key (number n) = by_key key (number n) (number n) refl
    value-Clean key (other s) = by_key key (other s) (other s) refl
    value-Clean key (text s) =
        let shown = sanitize_text lib authenticated key s in
        by_key key (text s) (text shown) (shown, refl, sanitize_text-TextShown key s)
    value-Clean key (array items) =
        let items' = sanitize_items lib authenticated key items in
        by_key key (array items) (array items') (items', refl, items-Clean key items)
    value-Clean key (object fields) =
        let fields' = sanitize_fields lib authenticated fields in
        by_key key (object fields) (object fields') (fields', refl, fields-Clean fields)

    items-Clean :
        (key : String) (items : Items)
        → CleanItems lib authenticated key items (sanitize_items lib authenticated key items)
    items-Clean key no_item = refl
    items-Clean key (item value items) = (
      sanitize_payload lib authenticated key value,
      sanitize_items lib authenticated key items,
      refl,
      value-Clean key value,
      items-Clean key items,
    )

    fields-Clean :
        (fields : Fields)
        → CleanFields lib authenticated fields (sanitize_fields lib authenticated fields)
    fields-Clean no_field = refl
    fields-Clean (field key value fields) = (
      sanitize_payload lib authenticated key value,
      sanitize_fields lib authenticated fields,
      refl,
      value-Clean key value,
      fields-Clean fields,
    )
