-- ===== src/Quality/Examples.antt =====
-- src/fetech/quality.py: concrete texts.
use fetech.Prelude.{ℕ, ◌≡◌, refl, ◌&&◌, ◌||◌, Bool, true, none, some, List, [], ◌∷◌, leb, ◌==◌}
use fetech.Prelude.Text.{codes}
use fetech.Models.Status.{PageState}
use fetech.Models.Record.{QualityAssessment}
use fetech.Quality.{Alphabet, runs, normalized_text, has_marker, marker_state}
use fetech.Quality.Language.{most_script, most_marked, detect_language}
use fetech.Quality.Assess.{assess_text, assess_binary}
use fetech.Quality.Consistent.{IsConsistent, assess_text-IsConsistent}

abbrev is_ascii_letter : ℕ → Bool
is_ascii_letter c = (leb 65 c && leb c 90) || (leb 97 c && leb c 122)

abbrev ascii : Alphabet
ascii = record {
  is_word = λ c. is_ascii_letter c || ((leb 48 c && leb c 57) || c == 95);
  is_letter = is_ascii_letter;
}

abbrev story : List ℕ
story = codes "The history  of the town is a story of trade and of the river."

abbrev challenge : List ℕ
challenge = codes " Please verify: CAPTCHA "

abbrev story_assessment : QualityAssessment
story_assessment = record {
  page_state = PageState.ok;
  score = 61;
  accepted = true;
  language = some "en";
  completeness = 61;
  duplicate_of = none;
  reasons = [];
}

story_is_fine : assess_text ascii story (some "en-GB") ≡ story_assessment
unfolding assess_text marker_state has_marker detect_language normalized_text runs most_script
    most_marked
story_is_fine = refl

challenge_is_found : (assess_text ascii challenge none).page_state ≡ PageState.captcha
unfolding assess_text marker_state has_marker detect_language normalized_text runs most_script
    most_marked
challenge_is_found = refl

nothing_there : (assess_binary 0 "image/png").reasons ≡ "empty image/png body" ∷ []
unfolding assess_binary
nothing_there = refl

assess_text-IsConsistent_example :
    IsConsistent ascii story (some "en-GB") (assess_text ascii story (some "en-GB"))
assess_text-IsConsistent_example = assess_text-IsConsistent ascii story (some "en-GB")
