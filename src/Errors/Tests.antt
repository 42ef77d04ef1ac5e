-- ===== src/Errors/Tests.antt =====
-- The theorems on errors at concrete inputs.
use service_forge.Prelude.{◌≡◌, some, All}
use service_forge.Errors.{app, default_maps, new}
use service_forge.Errors.Status.{to_grpc_error, from_grpc_error}
use service_forge.Errors.Transport.{failure_codes, from_grpc_error-to_grpc_error}
use service_forge.Errors.Sample.{plain_status}

from_grpc_error-to_grpc_error_example :
    All
      (λ code.
        from_grpc_error plain_status default_maps
          (to_grpc_error plain_status (some (app (new default_maps code "down"))))
        ≡ some (new default_maps code "down"))
      failure_codes
from_grpc_error-to_grpc_error_example = from_grpc_error-to_grpc_error plain_status "down"
