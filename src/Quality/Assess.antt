-- ===== src/Quality/Assess.antt =====
-- src/fetech/quality.py: `assess_text` and `assess_binary`. The unit of a score is a thousandth, so
-- the rounding to four decimals changes nothing.
use fetech.Prelude.{
  ℕ, String, Bool, true, false, not, ◌&&◌, Option, none, some, List, [], ◌∷◌, ◌++◌, map, leb, ltb,
  length, if◌then◌else◌, min, ◌==◌,
}
use fetech.Prelude.Text.{codes, lower_code, same_codes, append}
use fetech.Models.Status.{PageState}
use fetech.Models.Record.{QualityAssessment}
use fetech.Security.Variants.{given}
use fetech.Quality.{Alphabet, normalized_text, marker_state}
use fetech.Quality.Language.{detect_language}

abbrev pub is_ok : PageState → Bool
is_ok PageState.ok = true
is_ok _ = false

-- text.split("-", maxsplit=1)[0]
abbrev pub before_dash : List ℕ → List ℕ
before_dash [] = []
before_dash (c ∷ cs) = if c == 45 then [] else c ∷ before_dash cs

-- The detected language is another one than the expected one.
abbrev pub differs : Option String → Option String → Bool
differs none detected = false
differs (some expected) none = false
differs (some expected) (some detected) =
    not (same_codes (codes detected) (before_dash (map lower_code (codes expected))))

abbrev pub or_nothing : Option String → String
or_nothing none = ""
or_nothing (some s) = s

abbrev pub mismatch_reason : Option String → Option String → String
mismatch_reason expected detected =
    append "detected language "
      (append (or_nothing detected) (append " does not match requested " (or_nothing expected)))

-- The state and the reasons once the language is known
abbrev pub with_language : Bool → String → PageState × List String → PageState × List String
with_language other reason (PageState.ok, reasons) =
    if other then (PageState.wrong_language, reasons ++ reason ∷ []) else (PageState.ok, reasons)
with_language other reason (state, reasons) = (state, reasons)

abbrev pub is_ambiguous : Option String → Option String → Bool
is_ambiguous (some expected) none = true
is_ambiguous _ _ = false

abbrev pub reason_if : Bool → String → List String
reason_if true reason = reason ∷ []
reason_if false reason = []

-- The assessment of a text of the given length
abbrev pub assessment : PageState × List String → Option String → Bool → ℕ → QualityAssessment
assessment (state, reasons) detected ambiguous size =
    let completeness = min 1000 size in
    let accepted = is_ok state && leb 50 completeness in
    record {
      page_state = state;
      score = if is_ok state then completeness else min 200 completeness;
      accepted = accepted;
      language = detected;
      completeness = completeness;
      duplicate_of = none;
      reasons =
          (reasons
            ++ reason_if (is_ok state && not accepted)
                "content is below the minimum useful-text threshold")
          ++ reason_if ambiguous "text was too ambiguous for deterministic language detection";
    }

unfoldable pub assess_text : Alphabet → List ℕ → Option String → QualityAssessment
unfolding marker_state detect_language normalized_text
assess_text a text expected_language =
    let normalized = normalized_text text in
    let expected = given expected_language in
    let detected = detect_language a normalized in
    assessment
      (with_language (differs expected detected) (mismatch_reason expected detected)
        (marker_state a normalized))
      detected (is_ambiguous expected detected) (length normalized)

unfoldable pub assess_binary : ℕ → String → QualityAssessment
assess_binary size media_type =
    let accepted = ltb 0 size in
    record {
      page_state = if accepted then PageState.ok else PageState.empty;
      score = if accepted then 1000 else 0;
      accepted = accepted;
      language = none;
      completeness = if accepted then 1000 else 0;
      duplicate_of = none;
      reasons = if accepted then [] else append "empty " (append media_type " body") ∷ [];
    }
