-- ===== src/Executor/Quality.antt =====
-- src/fetech/adapters/base.py: `ExecutionContext.record_quality_outcomes`.
use fetech.Prelude.{
  ℕ, ◌≡◌, refl, ap, sym, ◌∙◌, map, String, Bool, true, false, Option, none, some, List, [], ◌∷◌,
  ◌++◌, if◌then◌else◌, ◌==◌,
}
use fetech.Prelude.Dict.{Dict}
use fetech.Models.Status.{PageState, OutcomeStatus}
use fetech.Models.Record.{Detail, text, number, flag, null, CapabilityOutcome, QualityAssessment}
use fetech.Executor.Context.{ExecutionContext, record_outcome}

-- The enumeration's order, which tells its members apart.
abbrev pub state_index : PageState → ℕ
state_index PageState.ok = 0
state_index PageState.empty = 1
state_index PageState.login = 2
state_index PageState.captcha = 3
state_index PageState.bot_block = 4
state_index PageState.paywall = 5
state_index PageState.error = 6
state_index PageState.wrong_language = 7
state_index PageState.needs_ocr = 8
state_index PageState.unknown = 9

-- quality.page_state.value
abbrev pub state_value : PageState → String
state_value PageState.ok = "OK"
state_value PageState.empty = "EMPTY"
state_value PageState.login = "LOGIN"
state_value PageState.captcha = "CAPTCHA"
state_value PageState.bot_block = "BOT_BLOCK"
state_value PageState.paywall = "PAYWALL"
state_value PageState.error = "ERROR"
state_value PageState.wrong_language = "WRONG_LANGUAGE"
state_value PageState.needs_ocr = "NEEDS_OCR"
state_value PageState.unknown = "UNKNOWN"

abbrev pub detectors : List (String × PageState)
detectors =
    ("paywall_detection", PageState.paywall)
    ∷ ("captcha_detection", PageState.captcha)
    ∷ ("bot_block_detection", PageState.bot_block)
    ∷ ("login_wall_detection", PageState.login)
    ∷ ("empty_page_detection", PageState.empty)
    ∷ ("error_page_detection", PageState.error)
    ∷ ("wrong_language_detection", PageState.wrong_language)
    ∷ []

abbrev pub observed_if : Bool → OutcomeStatus
observed_if true = OutcomeStatus.observed
observed_if false = OutcomeStatus.not_applicable

abbrev pub is_there : Option ℕ → Bool
is_there none = false
is_there (some id) = true

-- str(quality.duplicate_of) if there is one; an identifier is a number here
abbrev pub duplicate_detail : Option ℕ → Detail
duplicate_detail none = null
duplicate_detail (some id) = number id

-- The `for` loop over the detectors
unfoldable pub record_detectors :
    QualityAssessment → String → List (String × PageState) → ExecutionContext → ExecutionContext
record_detectors q stage [] c = c
record_detectors q stage ((capability, state) ∷ ds) c = record_detectors q stage ds (
    record_outcome capability (observed_if (state_index q.page_state == state_index state)) stage
      (("page_state", text (state_value q.page_state)) ∷ []) c)

-- record_quality_outcomes
unfoldable pub record_quality_outcomes :
    QualityAssessment → String → ExecutionContext → ExecutionContext
unfolding record_detectors
record_quality_outcomes q stage c =
    record_outcome "content_quality_validation" OutcomeStatus.applied stage
      (("accepted", flag q.accepted)
        ∷ ("page_state", text (state_value q.page_state))
        ∷ ("score", number q.score)
        ∷ [])
      (record_outcome "duplicate_detection" (observed_if (is_there q.duplicate_of)) stage
        (("duplicate_of", duplicate_detail q.duplicate_of) ∷ [])
        (record_detectors q stage detectors c))

-- The identifier of an outcome that is observed
abbrev pub observed_id : OutcomeStatus → String → List String
observed_id OutcomeStatus.observed capability = capability ∷ []
observed_id _ capability = []

abbrev pub observed_ids : List CapabilityOutcome → List String
observed_ids [] = []
observed_ids (o ∷ os) = observed_id o.status o.capability_id ++ observed_ids os

-- The detection that a state of a page calls for: none for these three
abbrev pub detection_of : PageState → List String
detection_of PageState.paywall = "paywall_detection" ∷ []
detection_of PageState.captcha = "captcha_detection" ∷ []
detection_of PageState.bot_block = "bot_block_detection" ∷ []
detection_of PageState.login = "login_wall_detection" ∷ []
detection_of PageState.empty = "empty_page_detection" ∷ []
detection_of PageState.error = "error_page_detection" ∷ []
detection_of PageState.wrong_language = "wrong_language_detection" ∷ []
detection_of PageState.ok = []
detection_of PageState.needs_ocr = []
detection_of PageState.unknown = []

-- What `record_quality_outcomes` records, in order
abbrev pub recorded_ids : List String
recorded_ids =
    "paywall_detection" ∷ "captcha_detection" ∷ "bot_block_detection" ∷ "login_wall_detection"
    ∷ "empty_page_detection" ∷ "error_page_detection" ∷ "wrong_language_detection"
    ∷ "duplicate_detection" ∷ "content_quality_validation" ∷ []

abbrev hits : PageState → List (String × PageState) → List String
hits s [] = []
hits s ((capability, state) ∷ ds) =
    observed_id (observed_if (state_index s == state_index state)) capability ++ hits s ds

hits_lem : (s : PageState) → hits s detectors ≡ detection_of s
hits_lem PageState.ok = refl
hits_lem PageState.empty = refl
hits_lem PageState.login = refl
hits_lem PageState.captcha = refl
hits_lem PageState.bot_block = refl
hits_lem PageState.paywall = refl
hits_lem PageState.error = refl
hits_lem PageState.wrong_language = refl
hits_lem PageState.needs_ocr = refl
hits_lem PageState.unknown = refl

-- From `c` to `d`, outcomes of these identifiers were appended, of which `found` are observed.
abbrev Appended : ExecutionContext → ExecutionContext → List String → List String → Type 0
Appended c d names found =
    (added : List CapabilityOutcome) × (d.capability_outcomes ≡ c.capability_outcomes ++ added)
    × (map (λ o. o.capability_id) added ≡ names)
    × (observed_ids added ≡ found)

module _ {ℓ} {A : Type ℓ} where
  append_nil : (xs : List A) → xs ≡ xs ++ []
  append_nil [] = refl
  append_nil (x ∷ xs) = λ i. x ∷ append_nil xs i

  append_assoc : (xs ys zs : List A) → (xs ++ ys) ++ zs ≡ xs ++ (ys ++ zs)
  append_assoc [] ys zs = refl
  append_assoc (x ∷ xs) ys zs = λ i. x ∷ append_assoc xs ys zs i

map-append :
    (xs ys : List CapabilityOutcome)
    → map (λ o. o.capability_id) (xs ++ ys)
      ≡ map (λ o. o.capability_id) xs ++ map (λ o. o.capability_id) ys
map-append [] ys = refl
map-append (x ∷ xs) ys = λ i. x.capability_id ∷ map-append xs ys i

observed_ids-append :
    (xs ys : List CapabilityOutcome) → observed_ids (xs ++ ys) ≡ observed_ids xs ++ observed_ids ys
observed_ids-append [] ys = refl
observed_ids-append (x ∷ xs) ys =
    ap (λ zs. observed_id x.status x.capability_id ++ zs) (observed_ids-append xs ys)
    ∙ sym (append_assoc (observed_id x.status x.capability_id) (observed_ids xs) (observed_ids ys))

record_outcome-Appended :
    (capability : String) (status : OutcomeStatus) (stage : String) (details : Dict Detail)
    (c d : ExecutionContext) (names found : List String)
    → Appended c d names found
    → Appended c
        (record_outcome capability status stage details d)
        (names ++ capability ∷ [])
        (found ++ observed_id status capability)
unfolding record_outcome
record_outcome-Appended capability status stage details c d names found (added, e, l, m) =
    let o : CapabilityOutcome = record {
      capability_id = capability;
      status = status;
      stage = stage;
      details = details;
    } in
    (
      added ++ o ∷ [],
      rw e (append_assoc c.capability_outcomes added (o ∷ [])),
      map-append added (o ∷ []) ∙ ap (λ ns. ns ++ capability ∷ []) l,
      observed_ids-append added (o ∷ [])
          ∙ ap (λ z. observed_ids added ++ z) (sym (append_nil (observed_id status capability)))
          ∙ ap (λ z. z ++ observed_id status capability) m,
    )

record_detectors-Appended :
    (q : QualityAssessment) (stage : String) (c : ExecutionContext) (ds : List (String × PageState))
    (d : ExecutionContext) (names found : List String)
    → Appended c d names found
    → Appended c
        (record_detectors q stage ds d)
        (names ++ map (λ p. p.0) ds)
        (found ++ hits q.page_state ds)
unfolding record_detectors
record_detectors-Appended q stage c [] d names found (added, e, l, m) =
    (added, e, l ∙ append_nil names, m ∙ append_nil found)
record_detectors-Appended q stage c ((capability, state) ∷ ds) d names found h =
    let hit : OutcomeStatus = observed_if (state_index q.page_state == state_index state) in
    let details : Dict Detail = ("page_state", text (state_value q.page_state)) ∷ [] in
    let (added, e, l, m) =
      record_detectors-Appended q stage c ds (record_outcome capability hit stage details d)
        (names ++ capability ∷ []) (found ++ observed_id hit capability)
        (record_outcome-Appended capability hit stage details c d names found h) in
    (
      added,
      e,
      l ∙ append_assoc names (capability ∷ []) (map (λ p. p.0) ds),
      m ∙ append_assoc found (observed_id hit capability) (hits q.page_state ds),
    )

duplicate_lem :
    (b : Bool)
    → observed_id (observed_if b) "duplicate_detection"
      ≡ (if b then "duplicate_detection" ∷ [] else [])
duplicate_lem true = refl
duplicate_lem false = refl

-- `record_quality_outcomes` appends nine outcomes: those of the seven detections, of the duplicate
-- detection and of the validation, in this order. Those that are observed are that of the detection
-- that the state of the page calls for, if there is one, and that of the duplicate detection, if
-- there is a duplicate.
pub record_quality_outcomes_exact :
    (q : QualityAssessment) (stage : String) (c : ExecutionContext)
    → (added : List CapabilityOutcome) × ((record_quality_outcomes q stage c).capability_outcomes
        ≡ c.capability_outcomes ++ added)
      × (map (λ o. o.capability_id) added ≡ recorded_ids)
      × (observed_ids added
          ≡ detection_of q.page_state
            ++ (if is_there q.duplicate_of then "duplicate_detection" ∷ [] else []))
unfolding record_quality_outcomes
record_quality_outcomes_exact q stage c =
    let start : Appended c c [] [] = ([], append_nil c.capability_outcomes, refl, refl) in
    let d : ExecutionContext = record_detectors q stage detectors c in
    let seven = record_detectors-Appended q stage c detectors c [] [] start in
    let copy : OutcomeStatus = observed_if (is_there q.duplicate_of) in
    let details : Dict Detail = ("duplicate_of", duplicate_detail q.duplicate_of) ∷ [] in
    let names = map (λ p. p.0) detectors in
    let found = hits q.page_state detectors in
    let eight =
      record_outcome-Appended "duplicate_detection" copy stage details c d names found seven in
    let (added, e, n, m) =
      record_outcome-Appended "content_quality_validation" OutcomeStatus.applied stage
        (("accepted", flag q.accepted)
          ∷ ("page_state", text (state_value q.page_state))
          ∷ ("score", number q.score)
          ∷ [])
        c (record_outcome "duplicate_detection" copy stage details d)
        (names ++ "duplicate_detection" ∷ []) (found ++ observed_id copy "duplicate_detection")
        eight in
    (
      added,
      e,
      n,
      m
          ∙ sym (append_nil (found ++ observed_id copy "duplicate_detection"))
          ∙ ap (λ z. z ++ observed_id copy "duplicate_detection") (hits_lem q.page_state)
          ∙ ap (λ z. detection_of q.page_state ++ z) (duplicate_lem (is_there q.duplicate_of)),
    )
