-- ===== src/Ledger/Sanitize/Secret.antt =====
-- src/fetech/ledger.py: the keys that name a secret, as parts of a text.
pub mod Named
use fetech.Prelude.{
  ℕ, String, ◌=s=◌, =s=_refl, ◌≡◌, refl, ◌⊎◌, inl, inr, Bool, true, false, not, ◌&&◌, ◌||◌, List,
  [], ◌∷◌, any, elem, In, arith, ◌==◌,
}
use Prim.Native.Char.{code}
use fetech.Prelude.Text.{
  lower, underscored, without_underscores, append, has_prefix, ends_with, has_part,
}
use fetech.Ledger.Sanitize.{
  safe_token_metrics, secret_fragments, is_auth_component, is_secret_name, is_secret_key,
}

-- The text stands in the other one, with something before it and something behind it.
pub IsPart : String → String → Type 0
IsPart part whole =
    (before : String) × (behind : String) × (whole ≡ append before (append part behind))

-- The words of a secret
abbrev pub secret_words : List String
secret_words =
    "authentication" ∷ "authorization" ∷ "credential" ∷ "apikey" ∷ "token" ∷ "cookie" ∷ "password"
    ∷ "secret" ∷ []

-- The names of counts of tokens, which are no secrets
abbrev pub token_counts : List String
token_counts =
    "estimated_tokens" ∷ "graphify_tokens" ∷ "input_tokens" ∷ "model_tokens" ∷ "output_tokens"
    ∷ "qmd_tokens" ∷ "source_tokens" ∷ "token_budget" ∷ "token_limit" ∷ "token_usage"
    ∷ "tokens_used" ∷ "total_tokens" ∷ []

-- A name, with underscores and in lower case, of a secret: `body`, one with the part `auth` between
-- underscores or at an end, or one that holds a word of a secret when the underscores are left out
-- and that counts no tokens
pub NamesSecret : String → Type 0
NamesSecret name =
    (name ≡ "body")
    ⊎ (name ≡ "auth")
    ⊎ ((rest : String) × (name ≡ append "auth_" rest))
    ⊎ ((start : String) × (name ≡ append start "_auth"))
    ⊎ IsPart "_auth_" name
    ⊎ ((elem name token_counts ≡ false)
        × ((word : String) × In word secret_words × IsPart word (without_underscores name)))

pub IsSecret : String → Type 0
IsSecret key = NamesSecret (underscored (lower key))

same_code : (n : ℕ) → (n == n) ≡ true
same_code n = ground arith

has_prefix-append : (p s : String) → has_prefix p (append p s) ≡ true
has_prefix-append String.[] s = refl
has_prefix-append (String.◌∷◌ a p) s = rw (same_code (code a), has_prefix-append p s) refl

or_right : (a b : Bool) → b ≡ true → (a || b) ≡ true
or_right a b h = ground arith

or_left : (a b : Bool) → a ≡ true → (a || b) ≡ true
or_left a b h = rw h refl

has_prefix-has_part : (p s : String) → has_prefix p s ≡ true → has_part p s ≡ true
has_prefix-has_part String.[] String.[] h = refl
has_prefix-has_part (String.◌∷◌ a p) String.[] h = absurd (ground arith)
has_prefix-has_part p (String.◌∷◌ c s) h = or_left (has_prefix p (String.◌∷◌ c s)) (has_part p s) h

has_part-append :
    (p before s : String) → has_prefix p s ≡ true → has_part p (append before s) ≡ true
has_part-append p String.[] s h = has_prefix-has_part p s h
has_part-append p (String.◌∷◌ c before) s h = or_right _ _ (has_part-append p before s h)

IsPart-has_part : (p s : String) → IsPart p s → has_part p s ≡ true
unfolding IsPart
IsPart-has_part p s (before, behind, e) =
    rw e (has_part-append p before (append p behind) (has_prefix-append p behind))

ends_with_self : (s : String) → ends_with s s ≡ true
ends_with_self String.[] = =s=_refl ""
ends_with_self (String.◌∷◌ c s) = or_left _ _ (=s=_refl (String.◌∷◌ c s))

ends_with-append : (start s : String) → ends_with s (append start s) ≡ true
ends_with-append String.[] s = ends_with_self s
ends_with-append (String.◌∷◌ c start) s = or_right _ _ (ends_with-append start s)

any-In :
    (p : String → Bool) (x : String) (xs : List String) → In x xs → p x ≡ true → any p xs ≡ true
any-In p x [] i h = absurd i.1
any-In p x (y ∷ ys) (inl e) h = or_left (p y) _ (rw e h)
any-In p x (y ∷ ys) (inr i) h = or_right (p y) _ (any-In p x ys i h)

auth_is_secret : (name : String) → is_auth_component name ≡ true → is_secret_name name ≡ true
auth_is_secret name h =
    or_left (name =s= "body" || is_auth_component name) _
      (or_right (name =s= "body") (is_auth_component name) h)

starts_or_is_auth :
    (name : String)
    → (name =s= "auth" || has_prefix "auth_" name) ≡ true
    → is_secret_name name ≡ true
starts_or_is_auth name h =
    auth_is_secret name (or_left (name =s= "auth" || has_prefix "auth_" name) _ h)

ends_or_holds_auth :
    (name : String)
    → (ends_with "_auth" name || has_part "_auth_" name) ≡ true
    → is_secret_name name ≡ true
ends_or_holds_auth name h = auth_is_secret name (
    or_right (name =s= "auth" || has_prefix "auth_" name)
      (ends_with "_auth" name || has_part "_auth_" name) h)

both : (a b : Bool) → a ≡ false → b ≡ true → (not a && b) ≡ true
both a b h k = rw (h, k) refl

NamesSecret-is_secret_name : (name : String) → NamesSecret name → is_secret_name name ≡ true
unfolding NamesSecret
NamesSecret-is_secret_name name (inl e) =
    or_left (name =s= "body" || is_auth_component name) _
      (or_left (name =s= "body") (is_auth_component name) (rw e (=s=_refl "body")))
NamesSecret-is_secret_name name (inr (inl e)) =
    starts_or_is_auth name
      (or_left (name =s= "auth") (has_prefix "auth_" name) (rw e (=s=_refl "auth")))
NamesSecret-is_secret_name name (inr (inr (inl (rest, e)))) =
    starts_or_is_auth name
      (or_right (name =s= "auth") (has_prefix "auth_" name) (rw e (has_prefix-append "auth_" rest)))
NamesSecret-is_secret_name name (inr (inr (inr (inl (start, e))))) = ends_or_holds_auth name (
    or_left (ends_with "_auth" name) (has_part "_auth_" name)
      (rw e (ends_with-append start "_auth")))
NamesSecret-is_secret_name name (inr (inr (inr (inr (inl part))))) = ends_or_holds_auth name (
    or_right (ends_with "_auth" name) (has_part "_auth_" name) (IsPart-has_part "_auth_" name part))
NamesSecret-is_secret_name name (inr (inr (inr (inr (inr (no_count, (word, i, part))))))) =
    or_right (name =s= "body" || is_auth_component name) _ (
      both (elem name safe_token_metrics) _ no_count (
        any-In (λ w. has_part w (without_underscores name)) word secret_fragments i
          (IsPart-has_part word (without_underscores name) part)))

-- A key that names a secret is one whose value `_sanitize_payload` replaces.
pub IsSecret-is_secret_key : (key : String) → IsSecret key → is_secret_key key ≡ true
unfolding IsSecret is_secret_key
IsSecret-is_secret_key key h = NamesSecret-is_secret_name (underscored (lower key)) h
