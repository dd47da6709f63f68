-- ===== src/Errors.antt =====
-- packages/schemas/src/errors.ts and apps/mcp-server/src/errors.ts: the stable error codes and the
-- normalisation of whatever is thrown. Only the texts of messages that are built at a throw site,
-- and the free-form `details`, are left out.
pub mod Payload
mod Tests
use Prim.Native.Char.{code}
use vcv_rack_mcp.Prelude.{
  ◌≡◌, refl, ◌⊎◌, inl, inr, ℕ, ◌+◌, ◌-◌, String, Bool, true, false, List, [], ◌∷◌, ◌++◌, Option,
  none, some, leb, take, find, length, str_eq, if◌then◌else◌,
}

pub data ErrorCode : Type 0 where
  rack_not_found rack_disconnected bridge_not_ready writer_lease_required : ErrorCode
  authentication_failed protocol_version_mismatch stale_session stale_patch_epoch : ErrorCode
  patch_conflict model_not_installed module_not_found cable_not_found : ErrorCode
  parameter_not_found port_not_found validation_failed confirmation_required : ErrorCode
  confirmation_expired path_not_allowed transaction_too_large rollback_failed : ErrorCode
  timeout unsupported_operation opaque_state_unsupported telemetry_unavailable : ErrorCode
  bad_request rate_limited lease_held instance_not_selected result_too_large internal : ErrorCode

-- The spelling of a code on the wire.
unfoldable pub code_name : ErrorCode → String
code_name rack_not_found = "RACK_NOT_FOUND"
code_name rack_disconnected = "RACK_DISCONNECTED"
code_name bridge_not_ready = "BRIDGE_NOT_READY"
code_name writer_lease_required = "WRITER_LEASE_REQUIRED"
code_name authentication_failed = "AUTHENTICATION_FAILED"
code_name protocol_version_mismatch = "PROTOCOL_VERSION_MISMATCH"
code_name stale_session = "STALE_SESSION"
code_name stale_patch_epoch = "STALE_PATCH_EPOCH"
code_name patch_conflict = "PATCH_CONFLICT"
code_name model_not_installed = "MODEL_NOT_INSTALLED"
code_name module_not_found = "MODULE_NOT_FOUND"
code_name cable_not_found = "CABLE_NOT_FOUND"
code_name parameter_not_found = "PARAMETER_NOT_FOUND"
code_name port_not_found = "PORT_NOT_FOUND"
code_name validation_failed = "VALIDATION_FAILED"
code_name confirmation_required = "CONFIRMATION_REQUIRED"
code_name confirmation_expired = "CONFIRMATION_EXPIRED"
code_name path_not_allowed = "PATH_NOT_ALLOWED"
code_name transaction_too_large = "TRANSACTION_TOO_LARGE"
code_name rollback_failed = "ROLLBACK_FAILED"
code_name timeout = "TIMEOUT"
code_name unsupported_operation = "UNSUPPORTED_OPERATION"
code_name opaque_state_unsupported = "OPAQUE_STATE_UNSUPPORTED"
code_name telemetry_unavailable = "TELEMETRY_UNAVAILABLE"
code_name bad_request = "BAD_REQUEST"
code_name rate_limited = "RATE_LIMITED"
code_name lease_held = "LEASE_HELD"
code_name instance_not_selected = "INSTANCE_NOT_SELECTED"
code_name result_too_large = "RESULT_TOO_LARGE"
code_name internal = "INTERNAL"

-- `ERROR_CODES`.
abbrev pub error_codes : List ErrorCode
error_codes =
    rack_not_found ∷ rack_disconnected ∷ bridge_not_ready ∷ writer_lease_required
    ∷ authentication_failed ∷ protocol_version_mismatch ∷ stale_session ∷ stale_patch_epoch
    ∷ patch_conflict ∷ model_not_installed ∷ module_not_found ∷ cable_not_found
    ∷ parameter_not_found ∷ port_not_found ∷ validation_failed ∷ confirmation_required
    ∷ confirmation_expired ∷ path_not_allowed ∷ transaction_too_large ∷ rollback_failed ∷ timeout
    ∷ unsupported_operation ∷ opaque_state_unsupported ∷ telemetry_unavailable ∷ bad_request
    ∷ rate_limited ∷ lease_held ∷ instance_not_selected ∷ result_too_large ∷ internal ∷ []

-- A code that the set does not hold becomes INTERNAL.
unfoldable pub normalize_error_code : String → ErrorCode
unfolding code_name
normalize_error_code name = elim (find (λ c. str_eq (code_name c) name) error_codes) [
  | none ↦ internal
  | some c ↦ c
]

pub record RollbackReport : Type 0 where
  pub complete : Bool
  pub failed_operation_index : ℕ
  pub inverses_executed : ℕ

pub record ToolError : Type 0 where
  pub code : ErrorCode
  pub retry_safe : Bool
  pub mutation_may_have_occurred : Bool

-- The error that a bridge response carries; its code is whatever the plugin sent.
pub record RpcError : Type 0 where
  pub code : String
  pub retry_safe : Bool
  pub mutation_may_have_occurred : Bool
  pub rollback : Option RollbackReport

-- A `ToolError`, a `BridgeRequestError`, or any other throwable.
pub data Thrown : Type 0 where
  tool : ToolError → Thrown
  bridge : RpcError → Thrown
  other : Thrown

-- `new ToolError(code, …)` with the default flags.
abbrev pub tool_error : ErrorCode → Thrown
tool_error c = tool (record { code = c; retry_safe = false; mutation_may_have_occurred = false })

-- `new ToolError(code, …, true)`.
abbrev pub retryable : ErrorCode → Thrown
retryable c = tool (record { code = c; retry_safe = true; mutation_may_have_occurred = false })

-- A message is its UTF-16 code units, which for the marks used here are the characters' codes.
abbrev pub Message : Type 0
Message = List ℕ

abbrev pub units : String → Message
units String.[] = []
units (String.◌∷◌ c s) = code c ∷ units s

abbrev pub max_message : ℕ
max_message = 4096

abbrev pub truncation_mark : Message
truncation_mark = units "... [truncated]"

pub clamp_message : Message → Message
clamp_message m =
    if leb (length m) max_message
    then m
    else take (max_message - length truncation_mark) m ++ truncation_mark

pub record ErrorPayload : Type 0 where
  pub code : ErrorCode
  pub message : Message
  pub retry_safe : Bool
  pub mutation_may_have_occurred : Bool
  pub rollback : Option RollbackReport

unfoldable pub to_error_payload : Thrown → Message → ErrorPayload
unfolding clamp_message
to_error_payload (tool e) m = record {
  code = e.code;
  message = clamp_message m;
  retry_safe = e.retry_safe;
  mutation_may_have_occurred = e.mutation_may_have_occurred;
  rollback = none;
}
to_error_payload (bridge e) m = record {
  code = normalize_error_code e.code;
  message = clamp_message m;
  retry_safe = e.retry_safe;
  mutation_may_have_occurred = e.mutation_may_have_occurred;
  rollback = e.rollback;
}
to_error_payload other m = record {
  code = internal;
  message = clamp_message m;
  retry_safe = false;
  mutation_may_have_occurred = false;
  rollback = none;
}

-- What a call returns or throws.
pub data Result {ℓ} (A : Type ℓ) : Type ℓ where
  ok : A → Result A
  throw : Thrown → Result A

infixl 5 ◌>>=◌ ◌>>◌
abbrev pub ◌>>=◌ {ℓ κ} : {A : Type ℓ} {B : Type κ} → Result A → (A → Result B) → Result B
throw thrown >>= next = throw thrown
ok value >>= next = next value

abbrev pub ◌>>◌ {ℓ} : {B : Type ℓ} → Result (Unit {0}) → Result B → Result B
throw thrown >> next = throw thrown
ok _ >> next = next

-- `if (!test) throw new ToolError(code, …)`.
abbrev pub guard : Bool → ErrorCode → Result (Unit {0})
guard test code = if test then ok tt else throw (tool_error code)

pub Result-cases {ℓ} :
    {A : Type ℓ} (r : Result A) → ((e : Thrown) × (r ≡ throw e)) ⊎ ((a : A) × (r ≡ ok a))
Result-cases (ok a) = inr (a, refl)
Result-cases (throw e) = inl (e, refl)
