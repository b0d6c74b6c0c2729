-- ===== src/Ledger/Sanitize/Secret/Named.antt =====
-- src/fetech/ledger.py: only keys that name a secret have their values replaced.
use text.Mathlib.TextEquality.{Char-path}
use Prim.Native.Char.{code}
use fetech.Prelude.{
  String, ◌=s=◌, =s=→eq, ◌≡◌, refl, sym, ◌⊎◌, inl, inr, Bool, true, false, not, ◌&&◌, ◌||◌, List,
  [], ◌∷◌, any, elem, In, arith, ◌==◌, ==→eq,
}
use fetech.Prelude.Text.{
  lower, underscored, without_underscores, append, has_prefix, ends_with, has_part,
}
use fetech.Ledger.Sanitize.{
  safe_token_metrics, secret_fragments, is_auth_component, is_secret_name, is_secret_key,
}
use fetech.Ledger.Sanitize.Secret.{IsPart, NamesSecret, IsSecret}

either : (a b : Bool) → (a || b) ≡ true → (a ≡ true) ⊎ (b ≡ true)
either true b h = inl refl
either false b h = inr h

conjuncts : (a b : Bool) → (a && b) ≡ true → (a ≡ true) × (b ≡ true)
conjuncts true b h = (refl, h)
conjuncts false b h = absurd (ground arith)

has_prefix-rest : (p s : String) → has_prefix p s ≡ true → (rest : String) × (s ≡ append p rest)
has_prefix-rest String.[] s h = (s, refl)
has_prefix-rest (String.◌∷◌ a p) String.[] h = absurd (ground arith)
has_prefix-rest (String.◌∷◌ a p) (String.◌∷◌ b s) h =
    let (same, more) = conjuncts (code a == code b) (has_prefix p s) h in
    let (rest, e) = has_prefix-rest p s more in
    let a_is : a ≡ b = Char-path a b (==→eq (code a) (code b) same) in
    (rest, λ i. String.◌∷◌ (sym a_is i) (e i))

has_part-IsPart : (p s : String) → has_part p s ≡ true → IsPart p s
unfolding IsPart
has_part-IsPart String.[] String.[] h = ("", "", refl)
has_part-IsPart (String.◌∷◌ a p) String.[] h = absurd (ground arith)
has_part-IsPart p (String.◌∷◌ c s) h =
    elim (either (has_prefix p (String.◌∷◌ c s)) (has_part p s) h) [
      | inl e ↦ let (rest, is) = has_prefix-rest p (String.◌∷◌ c s) e in ("", rest, is)
      | inr e ↦
          let (before, behind, is) = has_part-IsPart p s e in
          (String.◌∷◌ c before, behind, λ i. String.◌∷◌ c (is i))
    ]

ends_with-start :
    (suffix s : String) → ends_with suffix s ≡ true → (start : String) × (s ≡ append start suffix)
ends_with-start suffix String.[] h = ("", sym (=s=→eq suffix "" h))
ends_with-start suffix (String.◌∷◌ c s) h =
    elim (either (suffix =s= String.◌∷◌ c s) (ends_with suffix s) h) [
      | inl e ↦ ("", sym (=s=→eq suffix (String.◌∷◌ c s) e))
      | inr e ↦
          let (start, is) = ends_with-start suffix s e in
          (String.◌∷◌ c start, λ i. String.◌∷◌ c (is i))
    ]

any-one :
    (p : String → Bool) (xs : List String) → any p xs ≡ true → (x : String) × In x xs × (p x ≡ true)
any-one p [] h = absurd (ground arith)
any-one p (x ∷ xs) h = elim (either (p x) (any p xs) h) [
  | inl e ↦ (x, inl refl, e)
  | inr e ↦ let (y, i, k) = any-one p xs e in (y, inr i, k)
]

auth_component-NamesSecret : (name : String) → is_auth_component name ≡ true → NamesSecret name
unfolding NamesSecret
auth_component-NamesSecret name h =
    elim (either (name =s= "auth" || has_prefix "auth_" name)
      (ends_with "_auth" name || has_part "_auth_" name) h) [
        | inl e ↦ elim (either (name =s= "auth") (has_prefix "auth_" name) e) [
          | inl k ↦ inr (inl (=s=→eq name "auth" k))
          | inr k ↦ inr (inr (inl (has_prefix-rest "auth_" name k)))
        ]
        | inr e ↦ elim (either (ends_with "_auth" name) (has_part "_auth_" name) e) [
          | inl k ↦ inr (inr (inr (inl (ends_with-start "_auth" name k))))
          | inr k ↦ inr (inr (inr (inr (inl (has_part-IsPart "_auth_" name k)))))
        ]
      ]

word-NamesSecret :
    (name : String)
    → (not (elem name safe_token_metrics)
        && any (λ w. has_part w (without_underscores name)) secret_fragments)
      ≡ true
    → NamesSecret name
unfolding NamesSecret
word-NamesSecret name h =
    let (no_count, some_word) =
      conjuncts (not (elem name safe_token_metrics))
        (any (λ w. has_part w (without_underscores name)) secret_fragments) h in
    let (word, i, k) =
      any-one (λ w. has_part w (without_underscores name)) secret_fragments some_word in
    let part = has_part-IsPart word (without_underscores name) k in
    inr (inr (inr (inr (inr (un_not (elem name safe_token_metrics) no_count, (word, i, part))))))
  where
    un_not : (b : Bool) → not b ≡ true → b ≡ false
    un_not false h' = refl
    un_not true h' = absurd (ground arith)

body_is : {name : String} → name ≡ "body" → NamesSecret name
unfolding NamesSecret
body_is e = inl e

is_secret_name-NamesSecret : (name : String) → is_secret_name name ≡ true → NamesSecret name
is_secret_name-NamesSecret name h = elim (either (name =s= "body" || is_auth_component name) _ h) [
  | inl e ↦ elim (either (name =s= "body") (is_auth_component name) e) [
    | inl k ↦ body_is (=s=→eq name "body" k)
    | inr k ↦ auth_component-NamesSecret name k
  ]
  | inr e ↦ word-NamesSecret name e
]

-- A key whose value `_sanitize_payload` replaces is one that names a secret.
pub is_secret_key-IsSecret : (key : String) → is_secret_key key ≡ true → IsSecret key
unfolding IsSecret is_secret_key
is_secret_key-IsSecret key h = is_secret_name-NamesSecret (underscored (lower key)) h
