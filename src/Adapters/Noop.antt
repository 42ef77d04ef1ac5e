-- ===== src/Adapters/Noop.antt =====
-- The adapters that are switched off (adapters/noop/noop.go).
use Prim.Native.String.{◌++◌ as append}
use service_forge.Prelude.{
  String, Bool, false, Option, none, some, List, [], Table, insert, if◌then◌else◌,
}
use service_forge.Prelude.Text.{is_empty}
use service_forge.Prelude.Int.{ℤ}
use service_forge.Errors.{Error, plain}
use service_forge.Errors.Result.{Result, ok, err}
use service_forge.Dialer.{ServiceInstance}
use service_forge.App.{Module}
use service_forge.Bus.{Message}

abbrev pub err_disabled : Error
err_disabled = plain "adapter disabled"

unfoldable pub get : String → Result String
get key = err err_disabled

unfoldable pub set : String → String → ℤ → Option Error
set key value ttl = none

unfoldable pub delete : List String → Option Error
delete keys = none

unfoldable pub exists : String → Bool × Option Error
exists key = (false, none)

-- `Store.WithinTx`, which runs the function without a transaction
unfoldable pub within_tx : {C W : Type 0} → C → (C → W → Option Error × W) → W → Option Error × W
within_tx ctx f w = f ctx w

unfoldable pub register : ServiceInstance → Option Error
register service = none

unfoldable pub deregister : String → Option Error
deregister id = none

unfoldable pub resolve : String → Result (List ServiceInstance)
resolve name = ok []

-- `EventBus`: a message reaches nobody, and a handler is never called.
unfoldable pub publish : String → Message → Option Error
publish topic msg = none

unfoldable pub subscribe : {W : Type 0} → String → (Message → W → Option Error × W) → Option Error
subscribe topic handler = none

-- `Tracer` and `Span`, which have no state; the context stays as it is.
pub data Span : Type 0 where
  no_span : Span

unfoldable pub start_span : {C : Type 0} → C → String → Table String → C × Span
start_span ctx name attributes = (ctx, no_span)

unfoldable pub end_span : {W : Type 0} → Span → W → W
end_span span w = w

unfoldable pub record_error : {W : Type 0} → Span → Error → W → W
record_error span e w = w

unfoldable pub set_attributes : {W : Type 0} → Span → Table String → W → W
set_attributes span attributes w = w

unfoldable pub shutdown : {C : Type 0} → C → Option Error
shutdown ctx = none

-- `ObjectStore`; a body and an object are their bytes.
unfoldable pub put_object : String → String → String → Option Error
put_object bucket key body = none

unfoldable pub get_object : String → String → Result String
get_object bucket key = err err_disabled

unfoldable pub delete_object : String → String → Option Error
delete_object bucket key = none

unfoldable pub presign_get : String → String → ℤ → Result String
presign_get bucket key ttl = err err_disabled

-- the value of the module's logger, where the application has one
abbrev pub set_logger : {V : Type 0} → String → Option V → Table V → Table V
set_logger name none values = values
set_logger name (some logger) values = insert (append "logger." name) logger values

module _ {V W : Type 0} where
  unfoldable pub new_module : String → String → V → Option V → Module V W
  unfolding insert
  new_module name key value logger = record {
    name = name;
    init = λ r.
        let values = set_logger name logger r.values in
        (none, record r { values = if is_empty key then values else insert key value values });
    start = λ w. (none, w);
    stop = λ w. (none, w);
    health = λ w. (none, w);
  }
