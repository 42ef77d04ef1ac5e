-- ===== src/Gateway/Bound.antt =====
-- The binding that is found for an RPC and a kind of stream (transport/gateway/gateway.go,
-- `mountConfiguredRoutes`).
use service_forge.Prelude.{
  String, subst, lookup, str_eq, eq_iff, true, false, Option, none, some, List, Table, ◌≡◌, refl,
  inl, inr, arith, Bool-cases,
}
use service_forge.Prelude.Text.{is_blank, lower_trimmed}
use service_forge.Prelude.Float.{Float64}
use service_forge.Errors.{CodeMaps}
use service_forge.Errors.Result.{Result, ok, ok_inj}
use service_forge.Dialer.{Network}
use service_forge.Routes.{GatewayRouteConfig, lookup_proxy_invoker}
use service_forge.Streams.Codecs.{StreamCodec, lookup_stream_proxy}
use service_forge.Gateway.Mounting.{Binding, unary, stream, of_kind, of_invoker, bind}

module _ {F : Float64} {Invoker Factory Handler : Type 0} (N : Network) (maps : CodeMaps)
    (codecs : Table (StreamCodec Factory)) (invokers : Table Invoker)
    (route_plugins : GatewayRouteConfig F → Result (List Handler)) where
  -- The binding of an RPC under a configured kind of stream: the invoker that is registered for it, where
  -- no kind is given, and else the codec that is registered for it and is of that kind.
  unfoldable pub IsBound : String → String → Binding Invoker Factory → Type 0
  IsBound rpc kind (unary invoker) = (is_blank kind ≡ true) × (lookup rpc invokers ≡ some invoker)
  IsBound rpc kind (stream codec) =
      (is_blank kind ≡ false) × (lookup rpc codecs ≡ some codec) × (lower_trimmed kind ≡ codec.kind)

  stream-IsBound :
      (rpc kind : String) (codec : StreamCodec Factory)
      → is_blank kind ≡ false
      → lookup rpc codecs ≡ some codec
      → lower_trimmed kind ≡ codec.kind
      → IsBound rpc kind (stream codec)
  unfolding IsBound
  stream-IsBound rpc kind codec blank found same = (blank, found, same)

  of_kind-IsBound :
      (rpc kind : String) (o : Option (StreamCodec Factory)) (binding : Binding Invoker Factory)
      → is_blank kind ≡ false
      → lookup rpc codecs ≡ o
      → of_kind N maps codecs invokers route_plugins rpc (lower_trimmed kind) o ≡ ok binding
      → IsBound rpc kind binding
  of_kind-IsBound rpc kind none binding blank found e = absurd cc
  of_kind-IsBound rpc kind (some codec) binding blank found e =
      elim (Bool-cases (str_eq (lower_trimmed kind) codec.kind)) [
        | inl q ↦ subst (IsBound rpc kind) (ground (arith, q, e)) (
            stream-IsBound rpc kind codec blank found
              ((eq_iff (lower_trimmed kind) codec.kind).0 q))
        | inr q ↦ absurd (ground (arith, q, e))
      ]

  of_invoker-IsBound :
      (rpc kind : String) (o : Option Invoker) (binding : Binding Invoker Factory)
      → is_blank kind ≡ true
      → lookup rpc invokers ≡ o
      → of_invoker N maps codecs invokers route_plugins rpc o ≡ ok binding
      → IsBound rpc kind binding
  unfolding IsBound
  of_invoker-IsBound rpc kind none binding blank found e = absurd cc
  of_invoker-IsBound rpc kind (some invoker) binding blank found e =
      subst (IsBound rpc kind) (ok_inj e) (blank, found)

  pub bind-IsBound :
      (rpc kind : String) (binding : Binding Invoker Factory)
      → bind N maps codecs invokers route_plugins rpc kind ≡ ok binding
      → IsBound rpc kind binding
  unfolding bind lookup_stream_proxy lookup_proxy_invoker
  bind-IsBound rpc kind binding e = elim (Bool-cases (is_blank kind)) [
    | inl q ↦
        of_invoker-IsBound rpc kind (lookup rpc invokers) binding q refl (ground (arith, q, e))
    | inr q ↦ of_kind-IsBound rpc kind (lookup rpc codecs) binding q refl (ground (arith, q, e))
  ]
