-- ===== src/Executor/Failure.antt =====
-- src/fetech/adapters/base.py, src/fetech/executor.py: how an adapter's call can end, and the retry
-- code of a failure.
pub mod Text
use fetech.Prelude.{
  ℕ, zero, suc, ◌+◌, ◌-◌, ◌*◌, ◌≡◌, String, ◌=s=◌, ◌==◌, ◌&&◌, ◌||◌, not, Bool, true, false, Option,
  none, some, List, [], ◌∷◌, leb, ltb, if◌then◌else◌, elem,
}
use fetech.Prelude.Text.{lower}
use fetech.Models.Record.{PolicyDecision}
use fetech.Executor.Failure.Text.{contains, is_digit_text, starts_with_five, status_in, decimal}

-- One exception of the chain `__cause__ or __context__`, the failure itself first.
pub record Link : Type 0 where
  pub is_timeout : Bool
  pub is_connection : Bool
  pub status_code : Option ℕ
  pub type_name : String

-- An `AdapterExecutionError` of no subclass that is handled by itself. `code` is `none` for a code
-- that is missing or blank; `type_name` is the name of its type as it is written.
pub record ExecutionFailure : Type 0 where
  pub message : String
  pub code : Option String
  pub chain : List Link
  pub type_name : String

-- How the call of an adapter, or what is awaited around it, ends. `execution` is an
-- AdapterExecutionError, `invalid` a ValueError or JSONDecodeError, and `other` is any exception
-- that the executor does not handle.
pub data Signal : Type 0 where
  returned : Signal
  budget_exceeded : String → Signal
  policy_blocked : String → List PolicyDecision → Signal
  dependency : String → Signal
  auth_expired : Signal
  auth_required : Signal
  not_found : String → Signal
  timeout : Signal
  cancelled : Signal
  execution : ExecutionFailure → Signal
  invalid : String → String → Signal
  other : Signal

abbrev pub link_code : Link → Option String
link_code k =
    if k.is_timeout
    then some "timeout"
    else if k.is_connection
    then some "connection"
    else elim k.status_code [
      | some n ↦ some (decimal n)
      | none ↦
          if contains "timeout" (lower k.type_name)
          then some "timeout"
          else if contains "connect" (lower k.type_name) || contains "network" (lower k.type_name)
          then some "connection"
          else none
    ]

-- The `while` loop over the causes.
abbrev pub chain_code : List Link → Option String
chain_code [] = none
chain_code (k ∷ ks) =
    let rest = chain_code ks in elim (link_code k) [ some c ↦ some c | none ↦ rest ]

abbrev pub message_code : String → Option String
message_code m =
    if contains "timeout" m || contains "timed out" m
    then some "timeout"
    else if contains "connection" m || contains "connect failed" m
    then some "connection"
    else status_in m

-- _adapter_retry_code
unfoldable pub adapter_retry_code : ExecutionFailure → Option String
adapter_retry_code e = elim e.code [
  | some c ↦ some (lower c)
  | none ↦ elim (chain_code e.chain) [ some c ↦ some c | none ↦ message_code (lower e.message) ]
]

-- _retry_code_allowed
unfoldable pub retry_code_allowed : String → List String → Bool
retry_code_allowed code allowed =
    let normalized = lower code in
    elem normalized allowed
    || (is_digit_text normalized && (starts_with_five normalized && elem "5xx" allowed))
