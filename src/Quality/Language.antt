-- ===== src/Quality/Language.antt =====
-- src/fetech/quality.py: `detect_language`.
use fetech.Prelude.{
  ℕ, ◌+◌, String, Bool, not, ◌&&◌, Option, none, some, List, [], ◌∷◌, map, any, leb, ltb,
  if◌then◌else◌,
}
use fetech.Prelude.Dict.{Dict}
use fetech.Prelude.Text.{is_space, codes, lower_code, same_codes}
use fetech.Quality.{Alphabet, runs}

-- sum(test(x) for x in xs)
abbrev pub count_if {ℓ} : {A : Type ℓ} → (A → Bool) → List A → ℕ
count_if test [] = 0
count_if test (x ∷ xs) = (if test x then 1 else 0) + count_if test xs

abbrev pub count_between : ℕ → ℕ → List ℕ → ℕ
count_between low high = count_if (λ c. leb low c && leb c high)

-- max(counts, key=counts.__getitem__): the first of the largest, with its count
abbrev pub largest : String × ℕ → Dict ℕ → String × ℕ
largest best [] = best
largest best (entry ∷ rest) = largest (if ltb best.1 entry.1 then entry else best) rest

-- _LANGUAGE_MARKERS, after its first entry
abbrev pub other_language_markers : Dict (List String)
other_language_markers =
    ("en", "a" ∷ "and" ∷ "for" ∷ "is" ∷ "of" ∷ "that" ∷ "the" ∷ "to" ∷ [])
    ∷ ("es", "de" ∷ "el" ∷ "en" ∷ "es" ∷ "la" ∷ "los" ∷ "que" ∷ "y" ∷ [])
    ∷ ("fr", "dans" ∷ "de" ∷ "des" ∷ "est" ∷ "et" ∷ "la" ∷ "le" ∷ "les" ∷ [])
    ∷ ("it", "che" ∷ "con" ∷ "di" ∷ "e" ∷ "il" ∷ "la" ∷ "per" ∷ "un" ∷ [])
    ∷ ("pt", "a" ∷ "com" ∷ "de" ∷ "e" ∷ "o" ∷ "os" ∷ "para" ∷ "que" ∷ [])
    ∷ []

abbrev pub first_language_markers : String × List String
first_language_markers = ("de", "der" ∷ "die" ∷ "das" ∷ "ein" ∷ "eine" ∷ "ist" ∷ "mit" ∷ "und" ∷ [])

-- The language, with the number of the text's words that are among its markers
abbrev pub marker_score : List (List ℕ) → String × List String → String × ℕ
marker_score words (language, markers) =
    (language, count_if (λ word. any (λ m. same_codes (codes m) word) markers) words)

abbrev pub script_counts : List ℕ → Dict ℕ
script_counts text =
    ("ko", count_between 44032 55215 text) ∷ ("ru", count_between 1024 1279 text) ∷ []

unfoldable pub most_script : List ℕ → String × ℕ
most_script text = largest ("ar", count_between 1536 1791 text) (script_counts text)

unfoldable pub most_marked : Alphabet → List ℕ → String × ℕ
unfolding runs
most_marked a text =
    let words = map (map lower_code) (runs a.is_letter text) in
    largest (marker_score words first_language_markers)
      (map (marker_score words) other_language_markers)

unfoldable pub detect_language : Alphabet → List ℕ → Option String
unfolding most_script most_marked
detect_language a text =
    if not (any (λ c. not (is_space c)) text)
    then none
    else if leb 8 (most_script text).1
    then some (most_script text).0
    else if leb 4 (count_between 12352 12543 text)
    then some "ja"
    else if leb 8 (count_between 19968 40959 text)
    then some "zh"
    else if leb 2 (most_marked a text).1
    then some (most_marked a text).0
    else none
