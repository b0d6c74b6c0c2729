-- ===== src/Prelude/Text.antt =====
-- Texts as code points, and comparisons that fold the case of ASCII letters.
use Prim.Native.Char.{Char, char, code, IsScalar}
use Prim.Native.Nat.{ℕ, ◌+◌}
use Prim.Native.String.{String}
use mathlib.Core.Path.{◌≡◌, refl}
use mathlib.Core.Logic.{◌⊎◌, inl, inr}
use mathlib.Core.Bool.{Bool, true, false, ◌&&◌, ◌||◌}
use mathlib.Core.List.{List, [], ◌∷◌, map}
use native.Mathlib.Omega.{arith}
use text.Mathlib.TextEquality.{Char-path}
use fetech.Prelude.Lists.{any}
use fetech.Prelude.Tests.{if◌then◌else◌, ◌=s=◌, leb, ◌==◌, Bool-cases}

abbrev pub codes : String → List ℕ
codes String.[] = []
codes (String.◌∷◌ c s) = code c ∷ codes s

abbrev pub lower_code : ℕ → ℕ
lower_code c = if leb 65 c && leb c 90 then c + 32 else c

abbrev pub same_codes : List ℕ → List ℕ → Bool
same_codes [] [] = true
same_codes (a ∷ as') (b ∷ bs) = (a == b) && same_codes as' bs
same_codes _ _ = false

-- `s.lower() == t` for a text `t` of ASCII without capitals
unfoldable pub folds_to : String → String → Bool
folds_to s t = same_codes (map lower_code (codes s)) (codes t)

abbrev pub is_empty_text : String → Bool
is_empty_text String.[] = true
is_empty_text (String.◌∷◌ c s) = false

abbrev is_capital : Char → Bool
is_capital c = leb 65 (code c) && leb (code c) 90

pub IsScalar-small : (c : Char) → is_capital c ≡ true → IsScalar (code c + 32)
IsScalar-small c h = ground arith

abbrev lower_if : (c : Char) → (is_capital c ≡ true) ⊎ (is_capital c ≡ false) → Char
lower_if c (inl h) = char (code c + 32) (IsScalar-small c h)
lower_if c (inr h) = c

abbrev test_of : (b : Bool) → (b ≡ true) ⊎ (b ≡ false)
test_of true = inl refl
test_of false = inr refl

abbrev lower_char : Char → Char
lower_char c = lower_if c (test_of (is_capital c))

-- s.lower(), on ASCII letters
unfoldable pub lower : String → String
lower String.[] = String.[]
lower (String.◌∷◌ c s) = String.◌∷◌ (lower_char c) (lower s)

-- s.rstrip(mark), for a mark of one character, given by its code
unfoldable pub rstrip : ℕ → String → String
rstrip mark String.[] = String.[]
rstrip mark (String.◌∷◌ c s) =
    let rest = rstrip mark s in
    if is_empty_text rest && (code c == mark) then String.[] else String.◌∷◌ c rest

code-lower_if :
    (c : Char) (d : (is_capital c ≡ true) ⊎ (is_capital c ≡ false))
    → code (lower_if c d) ≡ (if is_capital c then code c + 32 else code c)
code-lower_if c (inl h) = rw h refl
code-lower_if c (inr h) = rw h refl

code-lower_char : (c : Char) → code (lower_char c) ≡ lower_code (code c)
code-lower_char c = code-lower_if c (test_of (is_capital c))

lower_char-idempotent : (c : Char) → lower_char (lower_char c) ≡ lower_char c
lower_char-idempotent c =
    Char-path (lower_char (lower_char c)) (lower_char c)
      (ground (arith, code-lower_char (lower_char c), code-lower_char c))

pub lower-idempotent : (s : String) → lower (lower s) ≡ lower s
unfolding lower
lower-idempotent String.[] = refl
lower-idempotent (String.◌∷◌ c s) = rw (lower_char-idempotent c, lower-idempotent s) refl

pub rstrip-idempotent : (mark : ℕ) (s : String) → rstrip mark (rstrip mark s) ≡ rstrip mark s
unfolding rstrip
rstrip-idempotent mark String.[] = refl
rstrip-idempotent mark (String.◌∷◌ c s) =
    elim (Bool-cases (is_empty_text (rstrip mark s) && (code c == mark))) [
      | inl e ↦ rw e refl
      | inr e ↦ rw (e, rstrip-idempotent mark s, e) refl
    ]

is_empty_text-lower : (s : String) → is_empty_text (lower s) ≡ is_empty_text s
unfolding lower
is_empty_text-lower String.[] = refl
is_empty_text-lower (String.◌∷◌ c s) = refl

lower_char-dot : (c : Char) → (code (lower_char c) == 46) ≡ (code c == 46)
lower_char-dot c = ground (arith, code-lower_char c)

lower-rstrip_dots : (s : String) → lower (rstrip 46 s) ≡ rstrip 46 (lower s)
unfolding lower rstrip
lower-rstrip_dots String.[] = refl
lower-rstrip_dots (String.◌∷◌ c s) =
    rw (← lower-rstrip_dots s, is_empty_text-lower (rstrip 46 s), lower_char-dot c)
      (elim (Bool-cases (is_empty_text (rstrip 46 s) && (code c == 46))) [
        | inl e ↦ rw e refl
        | inr e ↦ rw e refl
      ])

-- What is in lower case and has no dot at its end stays as it is.
pub lower-rstrip_stable :
    (s : String) → rstrip 46 (lower (rstrip 46 (lower s))) ≡ rstrip 46 (lower s)
lower-rstrip_stable s =
    rw (lower-rstrip_dots (lower s), lower-idempotent s) (rstrip-idempotent 46 (lower s))

-- s.endswith(suffix)
abbrev pub ends_with : String → String → Bool
ends_with suffix String.[] = suffix =s= ""
ends_with suffix (String.◌∷◌ c s) = (suffix =s= String.◌∷◌ c s) || ends_with suffix s

-- s.startswith(prefix)
abbrev pub has_prefix : String → String → Bool
has_prefix String.[] s = true
has_prefix (String.◌∷◌ a p) String.[] = false
has_prefix (String.◌∷◌ a p) (String.◌∷◌ b s) = (code a == code b) && has_prefix p s

-- part in s
abbrev pub has_part : String → String → Bool
has_part part String.[] = is_empty_text part
has_part part (String.◌∷◌ c s) = has_prefix part (String.◌∷◌ c s) || has_part part s

abbrev pub underscore : Char
underscore = char 95 tt

-- s.replace("-", "_").replace(" ", "_")
abbrev pub underscored : String → String
underscored String.[] = String.[]
underscored (String.◌∷◌ c s) =
    String.◌∷◌ (if code c == 45 || code c == 32 then underscore else c) (underscored s)

-- s.replace("_", "")
abbrev pub without_underscores : String → String
without_underscores String.[] = String.[]
without_underscores (String.◌∷◌ c s) =
    let rest = without_underscores s in if code c == 95 then rest else String.◌∷◌ c rest

-- s + t
abbrev pub append : String → String → String
append String.[] t = t
append (String.◌∷◌ c s) t = String.◌∷◌ c (append s t)

-- str.isspace
abbrev pub is_space : ℕ → Bool
is_space c =
    (leb 9 c && leb c 13)
    || ((leb 28 c && leb c 32)
        || ((leb 8192 c && leb c 8202)
            || any (λ d. c == d) (133 ∷ 160 ∷ 5760 ∷ 8232 ∷ 8233 ∷ 8239 ∷ 8287 ∷ 12288 ∷ [])))

abbrev pub lstrip_space : String → String
lstrip_space String.[] = String.[]
lstrip_space (String.◌∷◌ c s) =
    let rest = lstrip_space s in if is_space (code c) then rest else String.◌∷◌ c s

abbrev pub rstrip_space : String → String
rstrip_space String.[] = String.[]
rstrip_space (String.◌∷◌ c s) =
    let rest = rstrip_space s in
    if is_empty_text rest && is_space (code c) then String.[] else String.◌∷◌ c rest

-- s.strip()
abbrev pub strip : String → String
strip s = rstrip_space (lstrip_space s)
