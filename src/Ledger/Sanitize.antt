-- ===== src/Ledger/Sanitize.antt =====
-- src/fetech/ledger.py: `_sanitize_payload`.
pub mod Secret
pub mod Clean
use fetech.Prelude.{
  ℕ, String, ◌=s=◌, Bool, true, false, not, ◌&&◌, ◌||◌, List, [], ◌∷◌, any, elem, if◌then◌else◌,
}
use fetech.Prelude.Text.{lower, underscored, without_underscores, has_prefix, ends_with, has_part}
use fetech.Ledger.Document.{
  Json, null, flag, number, other, text, array, object, Items, no_item, item, Fields, no_field,
  field, TextLibrary, sanitize_text_url, url_or_redacted, sanitize_authenticated_text,
}

abbrev pub safe_token_metrics : List String
safe_token_metrics =
    "estimated_tokens" ∷ "graphify_tokens" ∷ "input_tokens" ∷ "model_tokens" ∷ "output_tokens"
    ∷ "qmd_tokens" ∷ "source_tokens" ∷ "token_budget" ∷ "token_limit" ∷ "token_usage"
    ∷ "tokens_used" ∷ "total_tokens" ∷ []

abbrev pub secret_fragments : List String
secret_fragments =
    "authentication" ∷ "authorization" ∷ "credential" ∷ "apikey" ∷ "token" ∷ "cookie" ∷ "password"
    ∷ "secret" ∷ []

abbrev pub url_keys : List String
url_keys =
    "authority_url" ∷ "candidate" ∷ "canonical_url" ∷ "destination" ∷ "normalized_target"
    ∷ "parent_url" ∷ "requested_url" ∷ "root_url" ∷ "source_url" ∷ "target" ∷ "url" ∷ []

-- The key in lower case with underscores; `auth_component`
abbrev pub is_auth_component : String → Bool
is_auth_component key =
    (key =s= "auth" || has_prefix "auth_" key) || (ends_with "_auth" key || has_part "_auth_" key)

-- The condition under which a value is replaced, on the normalized key
abbrev pub is_secret_name : String → Bool
is_secret_name key =
    (key =s= "body" || is_auth_component key)
    || (not (elem key safe_token_metrics)
        && any (λ fragment. has_part fragment (without_underscores key)) secret_fragments)

unfoldable pub is_secret_key : String → Bool
is_secret_key key = is_secret_name (underscored (lower key))

module _ (lib : TextLibrary) where
  -- What becomes of a text under a key that is not secret
  unfoldable pub sanitize_text : Bool → String → String → String
  unfolding lower sanitize_text_url sanitize_authenticated_text
  sanitize_text authenticated key value =
      if elem (lower key) url_keys
      then url_or_redacted lib (sanitize_text_url lib authenticated value)
      else if authenticated
      then sanitize_authenticated_text lib value
      else value

  unfoldable mutual
    unfolding is_secret_key sanitize_text

    pub sanitize_payload : Bool → String → Json → Json
    sanitize_payload authenticated key null = if is_secret_key key then text "[REDACTED]" else null
    sanitize_payload authenticated key (flag b) =
        if is_secret_key key then text "[REDACTED]" else flag b
    sanitize_payload authenticated key (number n) =
        if is_secret_key key then text "[REDACTED]" else number n
    sanitize_payload authenticated key (other s) =
        if is_secret_key key then text "[REDACTED]" else other s
    sanitize_payload authenticated key (text s) =
        if is_secret_key key then text "[REDACTED]" else text (sanitize_text authenticated key s)
    sanitize_payload authenticated key (array items) =
        let children = sanitize_items authenticated key items in
        if is_secret_key key then text "[REDACTED]" else array children
    sanitize_payload authenticated key (object fields) =
        let children = sanitize_fields authenticated fields in
        if is_secret_key key then text "[REDACTED]" else object children

    pub sanitize_items : Bool → String → Items → Items
    sanitize_items authenticated key no_item = no_item
    sanitize_items authenticated key (item value items) =
        item (sanitize_payload authenticated key value) (sanitize_items authenticated key items)

    pub sanitize_fields : Bool → Fields → Fields
    sanitize_fields authenticated no_field = no_field
    sanitize_fields authenticated (field key value fields) =
        field key (sanitize_payload authenticated key value) (sanitize_fields authenticated fields)
