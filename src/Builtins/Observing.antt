-- ===== src/Builtins/Observing.antt =====
-- The plugins around a request (transport/gateway/plugins/accesslog/accesslog.go and
-- transport/gateway/plugins/recovery/recovery.go). What the next handlers return is an argument; none
-- is a panic.
use service_forge.Prelude.{String, Bool, false, Option, none, some, List, if◌then◌else◌}
use service_forge.Prelude.Float.{Float64}
use service_forge.Prelude.Value.{Fields}
use service_forge.Errors.{Error, AppError, code_internal, CodeMaps, new}
use service_forge.Errors.Result.{Result, ok}
use service_forge.Settings.{Formats, strings_of}
use service_forge.Builtins.{then_with}
use service_forge.Builtins.Auth.{is_among}

module _ (F : Float64) (fmt : Formats F.Carrier) where
  -- The paths that accesslog's `Factory` puts into its set.
  unfoldable pub skip_paths : Fields F.Carrier → Result (List String)
  skip_paths s = then_with (strings_of F fmt s "skip_paths") λ paths. ok paths

-- accesslog's handler: the error of the next handlers, and whether it logs a line, where it has a logger.
unfoldable pub log_access : List String → Bool → String → Option Error → Option Error × Bool
unfolding is_among
log_access skipped has_logger path next =
    if is_among path skipped then (next, false) else (next, has_logger)

-- What a request ends with behind recovery's handler: the error of the next handlers, or the error that
-- is written after a panic.
pub data Recovered : Type 0 where
  returned : Option Error → Recovered
  wrote : AppError → Recovered

unfoldable pub recover : CodeMaps → Option (Option Error) → Recovered
recover maps none = wrote (new maps code_internal "internal server error")
recover maps (some result) = returned result
