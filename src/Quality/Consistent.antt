-- ===== src/Quality/Consistent.antt =====
-- src/fetech/quality.py: what `assess_text` accepts, and how it scores and explains the rest.
use fetech.Prelude.{
  length-append, Bool-cases, ◌++◌, leb, ℕ, ◌≡◌, refl, ◌↔◌, ◌⊎◌, inl, inr, String, Bool, true, false,
  ◌&&◌, Option, List, [], ◌≤◌, ◌<◌, min, length, arith, ltb,
}
use fetech.Models.Status.{PageState}
use fetech.Models.Record.{QualityAssessment}
use fetech.Security.Variants.{given}
use fetech.Quality.{
  Alphabet, normalized_text, has_marker, captcha_markers, bot_markers, paywall_markers,
  login_markers, error_markers, marker_state,
}
use fetech.Quality.Language.{detect_language}
use fetech.Quality.Assess.{
  differs, is_ambiguous, with_language, mismatch_reason, is_ok, assessment, assess_text,
}

-- No marker tells that the text is something else than the page that was asked for.
pub IsUnmarked : Alphabet → List ℕ → Type 0
IsUnmarked a cs =
    (has_marker a captcha_markers cs ≡ false)
    × (has_marker a bot_markers cs ≡ false)
    × (has_marker a paywall_markers cs ≡ false)
    × ((has_marker a login_markers cs && ltb (length cs) 5000) ≡ false)
    × ((has_marker a error_markers cs && ltb (length cs) 5000) ≡ false)

marker_state-ok :
    (a : Alphabet) (cs : List ℕ)
    → ((is_ok (marker_state a cs).0 ≡ true) × (50 ≤ length cs))
      ↔ (IsUnmarked a cs × (50 ≤ length cs))
unfolding marker_state IsUnmarked
marker_state-ok a cs = ((λ h. ground arith), (λ h. ground arith))

-- A text is fine, or a reason is given.
IsExplained : PageState × List String → Type 0
IsExplained m = (m ≡ (PageState.ok, [])) ⊎ ((is_ok m.0 ≡ false) × (0 < length m.1))

marker_state-IsExplained : (a : Alphabet) (cs : List ℕ) → IsExplained (marker_state a cs)
unfolding marker_state IsExplained
marker_state-IsExplained a cs = ground arith

-- The state is not changed once it is known to be bad.
with_language-bad :
    (other : Bool) (reason : String) (m : PageState × List String)
    → is_ok m.0 ≡ false
    → with_language other reason m ≡ m
with_language-bad other reason (PageState.ok, rs) h = absurd (ground arith)
with_language-bad other reason (PageState.empty, rs) h = refl
with_language-bad other reason (PageState.login, rs) h = refl
with_language-bad other reason (PageState.captcha, rs) h = refl
with_language-bad other reason (PageState.bot_block, rs) h = refl
with_language-bad other reason (PageState.paywall, rs) h = refl
with_language-bad other reason (PageState.error, rs) h = refl
with_language-bad other reason (PageState.wrong_language, rs) h = refl
with_language-bad other reason (PageState.needs_ocr, rs) h = refl
with_language-bad other reason (PageState.unknown, rs) h = refl

with_language-IsExplained :
    (other : Bool) (reason : String) (m : PageState × List String)
    → IsExplained m
    → IsExplained (with_language other reason m)
unfolding IsExplained
with_language-IsExplained true reason m (inl e) = rw e (inr (refl, omega arith))
with_language-IsExplained false reason m (inl e) = rw e (inl refl)
with_language-IsExplained other reason m (inr (h, pos)) =
    rw (with_language-bad other reason m h) (inr (h, pos))

with_language-ok :
    (other : Bool) (reason : String) (m : PageState × List String)
    → IsExplained m
    → (is_ok (with_language other reason m).0 ≡ true) ↔ ((is_ok m.0 ≡ true) × (other ≡ false))
unfolding IsExplained
with_language-ok true reason m (inl e) =
    rw e ((λ h. absurd (ground arith)), (λ h. absurd (ground arith)))
with_language-ok false reason m (inl e) = rw e ((λ h. (refl, refl)), (λ h. refl))
with_language-ok other reason m (inr (h, pos)) =
    rw (with_language-bad other reason m h) ((λ k. absurd (ground arith)), (λ k. k.0))

is_ok-eq : (s : PageState) → is_ok s ≡ true → s ≡ PageState.ok
is_ok-eq PageState.ok h = refl
is_ok-eq PageState.empty h = absurd (ground arith)
is_ok-eq PageState.login h = absurd (ground arith)
is_ok-eq PageState.captcha h = absurd (ground arith)
is_ok-eq PageState.bot_block h = absurd (ground arith)
is_ok-eq PageState.paywall h = absurd (ground arith)
is_ok-eq PageState.error h = absurd (ground arith)
is_ok-eq PageState.wrong_language h = absurd (ground arith)
is_ok-eq PageState.needs_ocr h = absurd (ground arith)
is_ok-eq PageState.unknown h = absurd (ground arith)

nonempty_left : (xs ys : List String) → 0 < length xs → 0 < length (xs ++ ys)
nonempty_left xs ys h = rw (length-append xs ys) (omega arith)

-- What `assessment` does with a state that is explained
Concluded : PageState × List String → Option String → Bool → ℕ → Type 0
Concluded m detected ambiguous size =
    let q : QualityAssessment = assessment m detected ambiguous size in
    ((q.accepted ≡ true) ↔ ((is_ok m.0 ≡ true) × (50 ≤ size)))
    × ((q.accepted ≡ true) ⊎ (0 < length q.reasons))
    × ((is_ok q.page_state ≡ true) ⊎ (q.score ≤ 200))
    × (q.score ≤ q.completeness)

assessment-fine :
    (detected : Option String) (ambiguous : Bool) (size : ℕ)
    → Concluded (PageState.ok, []) detected ambiguous size
unfolding Concluded
assessment-fine detected ambiguous size = elim (Bool-cases (leb 50 (min 1000 size))) [
  | inl e ↦ (((λ h. (refl, ground arith)), (λ h. e)), inl e, inl refl, ground arith)
  | inr e ↦ (
    ((λ h. absurd (ground arith)), (λ h. absurd (ground arith))),
    inr (rw e (omega arith)),
    inl refl,
    ground arith,
  )
]

assessment-bad :
    (m : PageState × List String) (detected : Option String) (ambiguous : Bool) (size : ℕ)
    → is_ok m.0 ≡ false
    → 0 < length m.1
    → Concluded m detected ambiguous size
unfolding Concluded
assessment-bad m detected ambiguous size h pos = rw h (
  ((λ k. absurd (ground arith)), (λ k. absurd (ground arith))),
  inr (nonempty_left (m.1 ++ []) _ (nonempty_left m.1 [] pos)),
  inr (ground arith),
  ground arith,
)

assessment-Concluded :
    (m : PageState × List String) (detected : Option String) (ambiguous : Bool) (size : ℕ)
    → IsExplained m
    → Concluded m detected ambiguous size
unfolding IsExplained
assessment-Concluded m detected ambiguous size (inl e) =
    rw e (assessment-fine detected ambiguous size)
assessment-Concluded m detected ambiguous size (inr (h, pos)) =
    assessment-bad m detected ambiguous size h pos

pub record IsConsistent (a : Alphabet) (text : List ℕ) (expected_language : Option String)
    (q : QualityAssessment) : Type 0 where
  pub language : q.language ≡ detect_language a (normalized_text text)
  pub accepted_iff : (q.accepted ≡ true) ↔ (
      IsUnmarked a (normalized_text text)
      × (differs (given expected_language) q.language ≡ false)
      × (50 ≤ length (normalized_text text)))
  pub explained : (q.accepted ≡ true) ⊎ (0 < length q.reasons)
  pub penalized : (q.page_state ≡ PageState.ok) ⊎ (q.score ≤ 200)
  pub completeness : q.completeness ≡ min 1000 (length (normalized_text text))
  pub bounded : q.score ≤ q.completeness

-- A text is accepted exactly when it holds none of the markers, with the login and error markers
-- counting in short texts only, its language is not found to be another one than the expected one,
-- and it has 50 characters at least after the white space is normalized. A text that is not
-- accepted has a reason, the score of a page that is not fine is a fifth at most, and no score
-- exceeds the completeness.
pub assess_text-IsConsistent :
    (a : Alphabet) (text : List ℕ) (expected_language : Option String)
    → IsConsistent a text expected_language (assess_text a text expected_language)
unfolding assess_text Concluded
assess_text-IsConsistent a text expected_language =
    let cs = normalized_text text in
    let expected = given expected_language in
    let detected = detect_language a cs in
    let other = differs expected detected in
    let reason = mismatch_reason expected detected in
    let m = with_language other reason (marker_state a cs) in
    let explains =
      with_language-IsExplained other reason (marker_state a cs) (marker_state-IsExplained a cs) in
    let (accepts, gives_reason, lowers, bound) =
      assessment-Concluded m detected (is_ambiguous expected detected) (length cs) explains in
    let fine = with_language-ok other reason (marker_state a cs) (marker_state-IsExplained a cs) in
    let unmarked = marker_state-ok a cs in
    record {
      language = refl;
      accepted_iff = (
        (λ h.
            let (ok, long) = accepts.0 h in
            let (ok_before, same) = fine.0 ok in ((unmarked.0 (ok_before, long)).0, same, long)),
        (λ h. accepts.1 (fine.1 ((unmarked.1 (h.0, h.2)).0, h.1), h.2)),
      );
      explained = gives_reason;
      penalized = either lowers;
      completeness = refl;
      bounded = bound;
    }
  where
    either : {s : PageState} {n : ℕ} → (is_ok s ≡ true) ⊎ (n ≤ 200) → (s ≡ PageState.ok) ⊎ (n ≤ 200)
    either {s} (inl e) = inl (is_ok-eq s e)
    either (inr h) = inr h
