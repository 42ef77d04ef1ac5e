-- ===== src/Errors/Sample.antt =====
-- A `status` package that keeps code and message: the parameter of Errors/Status can be met.
use service_forge.Prelude.{◌≡◌, ◌≢◌, refl, String, Option, none, some}
use service_forge.Errors.{GrpcCode, ok, Error, app, status, plain}
use service_forge.Errors.Status.{GrpcStatus}

abbrev pub fails_with : GrpcCode → String → Option Error
fails_with ok m = none
fails_with c m = some (status c m)

pub fails_with_ne : (c : GrpcCode) (m : String) → c ≢ ok → fails_with c m ≡ some (status c m)
fails_with_ne ok m h = absurd (h refl)
fails_with_ne _ m h = refl

abbrev pub status_of : Error → Option (GrpcCode × String)
status_of (status c m) = some (c, m)
status_of (app e) = none
status_of (plain t) = none

-- A `status` package that keeps code and message.
abbrev pub plain_status : GrpcStatus
plain_status = record {
  status_error = fails_with;
  from_error = status_of;
  status_text = λ c m. m;
  status_error_ok = λ m. refl;
  status_error_fails = fails_with_ne;
  from_error_status = λ c m. refl;
  from_error_plain = λ t. refl;
}
