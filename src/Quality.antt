-- ===== src/Quality.antt =====
-- src/fetech/quality.py: the state of a page and the score of its text. A text is the list of its
-- code points, and letters are folded within ASCII; which code points are word characters and
-- letters is a parameter. Scores are thousandths.
pub mod Language
pub mod Assess
pub mod Consistent
pub mod Examples
use fetech.Prelude.{
  ℕ, ◌+◌, String, Bool, true, false, not, ◌&&◌, ◌||◌, Option, none, some, List, [], ◌∷◌, ◌++◌, map,
  any, ◌==◌, leb, ltb, length, if◌then◌else◌,
}
use fetech.Prelude.Text.{is_space, codes, lower_code}
use fetech.Models.Status.{PageState}

-- `\w` and `[^\W\d_]` of the library's regular expressions
pub record Alphabet : Type 0 where
  pub is_word : ℕ → Bool
  pub is_letter : ℕ → Bool

abbrev pub starts : (ℕ → Bool) → List ℕ → Bool
starts p [] = false
starts p (c ∷ cs) = p c

abbrev pub extend : Bool → ℕ → List (List ℕ) → List (List ℕ)
extend true c (run ∷ rest) = (c ∷ run) ∷ rest
extend true c [] = (c ∷ []) ∷ []
extend false c rest = (c ∷ []) ∷ rest

-- The longest parts whose characters all pass the test: `text.split()` and `_WORDS.findall(text)`
unfoldable pub runs : (ℕ → Bool) → List ℕ → List (List ℕ)
runs p [] = []
runs p (c ∷ cs) = let rest = runs p cs in if p c then extend (starts p cs) c rest else rest

-- " ".join_words(words)
abbrev pub join_words : List (List ℕ) → List ℕ
join_words [] = []
join_words (w ∷ []) = w
join_words (w ∷ v ∷ ws) = w ++ 32 ∷ join_words (v ∷ ws)

unfoldable pub normalized_text : List ℕ → List ℕ
unfolding runs
normalized_text text = join_words (runs (λ c. not (is_space c)) text)

-- The marker is a prefix of the text, and no word goes on behind it.
abbrev pub matches_at : (ℕ → Bool) → List ℕ → List ℕ → Bool
matches_at is_word [] cs = not (starts is_word cs)
matches_at is_word (m ∷ ms) [] = false
matches_at is_word (m ∷ ms) (c ∷ cs) = (lower_code c == m) && matches_at is_word ms cs

-- `\b…\b`: the Boolean tells whether the character before the text is part of a word.
abbrev pub search_marker : (ℕ → Bool) → Bool → List ℕ → List ℕ → Bool
search_marker is_word inside marker [] = false
search_marker is_word inside marker (c ∷ cs) =
    (not inside && matches_at is_word marker (c ∷ cs))
    || search_marker is_word (is_word c) marker cs

unfoldable pub has_marker : Alphabet → List String → List ℕ → Bool
has_marker a markers cs = any (λ m. search_marker a.is_word false (codes m) cs) markers

-- _LOGIN
abbrev pub login_markers : List String
login_markers =
    "signin" ∷ "sign in" ∷ "sign-in" ∷ "login" ∷ "log in" ∷ "log-in" ∷ "enter your password"
    ∷ "authentication required" ∷ []

-- _CAPTCHA
abbrev pub captcha_markers : List String
captcha_markers = "captcha" ∷ "verify you are human" ∷ "human verification" ∷ []

-- _BOT
abbrev pub bot_markers : List String
bot_markers = "access denied" ∷ "bot detection" ∷ "unusual traffic" ∷ "checking your browser" ∷ []

-- _PAYWALL
abbrev pub paywall_markers : List String
paywall_markers = "subscribe to continue" ∷ "subscription required" ∷ "unlock this article" ∷ []

-- _ERROR
abbrev pub error_markers : List String
error_markers = "404 not found" ∷ "500 internal server error" ∷ "service unavailable" ∷ []

-- The state that the markers tell, and its reason
unfoldable pub marker_state : Alphabet → List ℕ → PageState × List String
unfolding has_marker
marker_state a cs =
    if length cs == 0
    then (PageState.empty, "no usable text" ∷ [])
    else if has_marker a captcha_markers cs
    then (PageState.captcha, "CAPTCHA marker detected" ∷ [])
    else if has_marker a bot_markers cs
    then (PageState.bot_block, "bot-block marker detected" ∷ [])
    else if has_marker a paywall_markers cs
    then (PageState.paywall, "paywall marker detected" ∷ [])
    else if has_marker a login_markers cs && ltb (length cs) 5000
    then (PageState.login, "login page marker detected" ∷ [])
    else if has_marker a error_markers cs && ltb (length cs) 5000
    then (PageState.error, "error page marker detected" ∷ [])
    else (PageState.ok, [])
