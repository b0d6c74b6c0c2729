-- ===== src/Models/Record.antt =====
-- src/fetech/models.py: what a run records. Identifiers are numbers; time stamps are left out but
-- for whether an attempt has ended.
use fetech.Prelude.{ℕ, String, Bool, Option, List}
use fetech.Prelude.Dict.{Dict}
use fetech.Models.Status.{AttemptStatus, OutcomeStatus, PageState}

pub record FetchAttempt : Type 0 where
  pub capability_id : String
  pub sanitized_destination : String
  pub status : AttemptStatus
  pub is_finished : Bool
  pub failure_code : Option String
  pub consumed_budget : Dict ℕ

pub record Resource : Type 0 where
  pub resource_id : ℕ
  pub canonical_url : String

pub record Artifact : Type 0 where
  pub artifact_id : ℕ
  pub representation : String

pub record PolicyDecision : Type 0 where
  pub policy_id : String
  pub allowed : Bool
  pub reason : String
  pub destination : Option String

-- A value in the details of an outcome or in the payload of an event.
pub data Detail : Type 0 where
  text : String → Detail
  number : ℕ → Detail
  flag : Bool → Detail
  null : Detail

pub record CapabilityOutcome : Type 0 where
  pub capability_id : String
  pub status : OutcomeStatus
  pub stage : String
  pub details : Dict Detail

pub record Diagnostic : Type 0 where
  pub code : String
  pub message : String

pub record CrawlReport : Type 0 where
  pub root_url : String
  pub pages_fetched : ℕ
  pub pages_failed : ℕ

pub record ProvenanceEvent : Type 0 where
  pub event_id : ℕ
  pub event_type : String
  pub actor : String
  pub payload : Dict Detail
  pub parent_event_ids : List ℕ

-- Scores between 0 and 1 are counted in a small unit.
pub record QualityAssessment : Type 0 where
  pub page_state : PageState
  pub score : ℕ
  pub accepted : Bool
  pub language : Option String
  pub completeness : ℕ
  pub duplicate_of : Option ℕ
  pub reasons : List String
