-- ===== src/Models/Status.antt =====
-- src/fetech/models.py: the enumerations.

pub data ResultStatus : Type 0 where
  succeeded partial blocked_by_policy auth_required dependency_missing : ResultStatus
  budget_exhausted low_quality not_found failed : ResultStatus

pub data AttemptStatus : Type 0 where
  planned running succeeded skipped failed cancelled : AttemptStatus

-- `CapabilityOutcomeStatus`
pub data OutcomeStatus : Type 0 where
  applied observed not_applicable blocked dependency_missing failed : OutcomeStatus

pub data RunState : Type 0 where
  queued planning running finished : RunState

pub data PageState : Type 0 where
  ok empty login captcha bot_block paywall error wrong_language needs_ocr unknown : PageState

pub data CapabilityKind : Type 0 where
  operation transport_feature variant_generator extractor format_handler : CapabilityKind
  detector policy connector storage_strategy : CapabilityKind

pub PageState-discrete : Discrete PageState
PageState-discrete = hlevel
