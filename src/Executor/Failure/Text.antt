-- ===== src/Executor/Failure/Text.antt =====
-- What `_adapter_retry_code` and `_retry_code_allowed` do with texts: substrings, digits, and the
-- pattern `(?<!\d)([45]\d{2})(?!\d)`.
use Prim.Native.Char.{Char, code}
use Prim.Native.String.{◌++◌ as append}
use text.Mathlib.Text.{find?, starts_with}
use fetech.Prelude.{
  ℕ, zero, suc, ◌/◌, ◌%◌, String, ◌==◌, ◌&&◌, ◌||◌, not, Bool, true, false, Option, none, some, leb,
  ltb, if◌then◌else◌,
}

-- part in text
abbrev pub contains : String → String → Bool
contains part t = elim (find? t part) [ none ↦ false | some i ↦ true ]

abbrev pub is_digit : Char → Bool
is_digit c = leb 48 (code c) && leb (code c) 57

abbrev pub all_digits : String → Bool
all_digits String.[] = true
all_digits (String.◌∷◌ c s) = is_digit c && all_digits s

-- str.isdigit, of ASCII texts
abbrev pub is_digit_text : String → Bool
is_digit_text String.[] = false
is_digit_text (String.◌∷◌ c s) = is_digit c && all_digits s

abbrev pub starts_with_five : String → Bool
starts_with_five s = starts_with s "5"

abbrev pub begins_with_digit : String → Bool
begins_with_digit String.[] = false
begins_with_digit (String.◌∷◌ c s) = is_digit c

abbrev pub three : Char → Char → Char → String
three a b c = String.◌∷◌ a (String.◌∷◌ b (String.◌∷◌ c String.[]))

-- The pattern at the front of the text, where no digit stands before it.
abbrev pub status_at : String → Option String
status_at (String.◌∷◌ a (String.◌∷◌ b (String.◌∷◌ c rest))) =
    if (code a == 52 || code a == 53)
      && (is_digit b && (is_digit c && not (begins_with_digit rest)))
    then some (three a b c)
    else none
status_at _ = none

abbrev pub status_after : Bool → String → Option String
status_after digit_before String.[] = none
status_after digit_before (String.◌∷◌ c s) =
    let later = status_after (is_digit c) s in
    let here = status_at (String.◌∷◌ c s) in
    if digit_before then later else elim here [ some code ↦ some code | none ↦ later ]

-- The first match of the pattern.
abbrev pub status_in : String → Option String
status_in = status_after false

abbrev pub digit_text : ℕ → String
digit_text n =
    if n == 0
    then "0"
    else if n == 1
    then "1"
    else if n == 2
    then "2"
    else if n == 3
    then "3"
    else if n == 4
    then "4"
    else if n == 5
    then "5"
    else if n == 6
    then "6"
    else if n == 7
    then "7"
    else if n == 8
    then "8"
    else "9"

abbrev pub decimal_upto : ℕ → ℕ → String
decimal_upto zero n = digit_text n
decimal_upto (suc fuel) n =
    let high = decimal_upto fuel (n / 10) in
    if ltb n 10 then digit_text n else append high (digit_text (n % 10))

-- str(n); a number has at most as many digits as its size
unfoldable pub decimal : ℕ → String
decimal n = decimal_upto n n
