-- ===== src/Web/Dispatcher.antt =====
-- core/usecase/dispatcher.go, and Dispatch of modules/auth/module.go with its counters. A use case
-- stands under the name of its command's type; what it answers is given.
use hexagonal_backend.Common.{
  ℕ, ◌+◌, String, Option, none, some, List, [], ◌∷◌, if◌then◌else◌, ◌==◌, is_some, contains,
}
use hexagonal_backend.Errors.{ErrCode, invalid_email_or_password}
use hexagonal_backend.World.Map.{lookup, insert}
use hexagonal_backend.Web.{Context}
use hexagonal_backend.Web.AppError.{AppError, with_status, foreign, code_of}
use hexagonal_backend.Web.Responder.{Answer}

-- How Execute ends.
pub data Outcome : Type 0 where
  answers : Answer → Outcome
  fails : AppError → Outcome
  panics : Outcome

-- A use case with its command: binding the request to the command, validator.ValidateStruct on it,
-- and Execute.
pub record UseCase : Type 0 where
  pub bind : Context → Option AppError
  pub validate : Context → Option String
  pub execute : Context → Outcome

abbrev pub Registry : Type 0
Registry = List (String × UseCase)

abbrev pub validation_err_code : ErrCode
validation_err_code = 10001

abbrev pub use_case_not_found_code : ErrCode
use_case_not_found_code = 11002

-- Register: the first use case of a command stays.
unfoldable pub register : String → UseCase → Registry → Registry
unfolding lookup insert
register name uc registry =
    if is_some (lookup name registry) then registry else insert name uc registry

-- find
unfoldable pub find : String → Registry → Option UseCase
unfolding lookup
find name registry = lookup name registry

-- What Dispatch returns.
pub data Reply : Type 0 where
  answered : Answer → Reply
  failed : AppError → Reply

-- The end of Registry.Dispatch: validation, and Execute, a panic of which is recovered.
unfoldable pub run_use_case : UseCase → Context → Reply
run_use_case uc c = elim (uc.validate c) [
  | some msg ↦ failed (with_status validation_err_code 400 msg)
  | none ↦ elim (uc.execute c) [
    | panics ↦ failed (foreign "panic in registry")
    | answers a ↦ answered a
    | fails e ↦ failed e
  ]
]

-- Registry.Dispatch
unfoldable pub dispatch : Registry → String → Context → Reply
unfolding find run_use_case
dispatch registry name c = elim (find name registry) [
  | none ↦ failed (with_status use_case_not_found_code 404 "use case not found")
  | some uc ↦ run_use_case uc c
]

-- The counters of the module.
pub record Metrics : Type 0 where
  pub failed_logins : ℕ
  pub tokens_issued : ℕ

abbrev pub issuing_commands : List String
issuing_commands = "ExchangeCodeCommand" ∷ "CreateAuthCodeCommand" ∷ "GetTokenQuery" ∷ []

-- observeMetrics
unfoldable pub observe_metrics : String → Reply → Metrics → Metrics
unfolding code_of contains
observe_metrics name (answered a) m =
    if contains issuing_commands name then record m { tokens_issued = m.tokens_issued + 1 } else m
observe_metrics name (failed e) m = elim (code_of e) [
  | none ↦ m
  | some c ↦
      if c == invalid_email_or_password then record m { failed_logins = m.failed_logins + 1 } else m
]

-- Module.Dispatch
unfoldable pub dispatch_observed : Registry → String → Context → Metrics → Reply × Metrics
unfolding dispatch observe_metrics
dispatch_observed registry name c m =
    let reply = dispatch registry name c in (reply, observe_metrics name reply m)
