-- ===== src/Handlers/Errors.antt =====
-- `toError` and `runUnary` of apps/server/src/services/handlers.ts
use sharepaste.Prelude.{ℕ, String, Option, none, some}
use sharepaste.Exec.{
  World, Exec, Error, Result, ok, err, device_not_found, group_not_found, recovery_phrase_invalid,
  group_mismatch, group_device_limit_reached, bind_code_expired, bind_code_exhausted,
  bind_request_expired, already_bound, not_authorized, policy_version_conflict,
  invalid_max_file_size, policy_rejected, source_device_mismatch, rate_limited,
}

-- The code of the gRPC status; 13 for a message that is not in the table.
unfoldable pub grpc_code : Error → ℕ
grpc_code device_not_found = 5
grpc_code group_not_found = 5
grpc_code recovery_phrase_invalid = 16
grpc_code group_mismatch = 9
grpc_code group_device_limit_reached = 8
grpc_code bind_code_expired = 9
grpc_code bind_code_exhausted = 8
grpc_code bind_request_expired = 9
grpc_code already_bound = 6
grpc_code not_authorized = 7
grpc_code policy_version_conflict = 10
grpc_code invalid_max_file_size = 3
grpc_code policy_rejected = 9
grpc_code source_device_mismatch = 3
grpc_code rate_limited = 8
grpc_code _ = 13

-- message.toLowerCase().replaceAll("_", " "), of the messages in the table; `none` for a message
-- that the source does not write.
unfoldable pub details_of : Error → Option String
details_of device_not_found = some "device not found"
details_of group_not_found = some "group not found"
details_of recovery_phrase_invalid = some "recovery phrase invalid"
details_of group_mismatch = some "group mismatch"
details_of group_device_limit_reached = some "group device limit reached"
details_of bind_code_expired = some "bind code expired"
details_of bind_code_exhausted = some "bind code exhausted"
details_of bind_request_expired = some "bind request expired"
details_of already_bound = some "already bound"
details_of not_authorized = some "not authorized"
details_of policy_version_conflict = some "policy version conflict"
details_of invalid_max_file_size = some "invalid max file size"
details_of policy_rejected = some "policy rejected"
details_of source_device_mismatch = some "source device mismatch"
details_of rate_limited = some "rate limited"
details_of _ = none

-- What the callback is given: a payload, or the code of an error and its details.
pub data Reply (A : Type 0) : Type 0 where
  payload : A → Reply A
  failure : ℕ → Option String → Reply A

abbrev pub reply_of : {A : Type 0} → Result A → Reply A
reply_of (ok a) = payload a
reply_of (err e) = failure (grpc_code e) (details_of e)

unfoldable pub run_unary : {A : Type 0} → Exec A → World → Reply A × World
run_unary work w = let (r, w') = work w in (reply_of r, w')
