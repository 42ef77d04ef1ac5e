-- ===== src/Errors/Response.antt =====
-- The response envelope (core/errors/errors.go, `Success` and `Failure`). The time of the envelope is
-- an argument.
use service_forge.Prelude.{ℕ, String, Table, [], Option, none, some}
use service_forge.Errors.{
  Code, code_ok, code_internal, Error, app, status, plain, AppError, app_error, CodeMaps, new,
}
use service_forge.Errors.Status.{GrpcStatus}

pub record Response {ℓ} (A : Type ℓ) : Type ℓ where
  pub code : Code
  pub message : String
  pub payload : Option A  -- the field `Data`
  pub details : Table String
  pub timestamp : ℕ

unfoldable pub success {ℓ} : {A : Type ℓ} → ℕ → A → Response A
success now value = record {
  code = code_ok;
  message = "ok";
  payload = some value;
  details = [];
  timestamp = now;
}

module _ {ℓ} {A : Type ℓ} where
  envelope : ℕ → AppError → Response A
  envelope now (app_error code message details cause http grpc) = record {
    code = code;
    message = message;
    payload = none;
    details = details;
    timestamp = now;
  }

  unfoldable pub failure : GrpcStatus → CodeMaps → ℕ → Error → Response A
  unfolding envelope
  failure S maps now (app e) = envelope now e
  failure S maps now (status c m) = envelope now (new maps code_internal (S.status_text c m))
  failure S maps now (plain t) = envelope now (new maps code_internal t)
