-- ===== src/Streams.antt =====
-- The stream proxy of the gateway (transport/gateway/proxy_stream.go): the registered codecs, and how a
-- stream is opened and ended. The two pumps of a WebSocket are in Streams/Bidi.
pub mod Codecs
pub mod Frames
pub mod Bidi
pub mod Moves
pub mod Encoding
pub mod Pumps
pub mod Progress
pub mod Released
mod Tests
use Prim.Native.String.{◌++◌ as append}
use service_forge.Prelude.{
  ℕ, String, Bool, true, false, Option, none, some, List, [], ◌∷◌, str_eq, if◌then◌else◌,
}
use service_forge.Prelude.Float.{Float64}
use service_forge.Errors.{Error, app, AppError, code_unavailable, new, with_cause, http_status_of}
use service_forge.Errors.Status.{GrpcStatus, as_app_error, from_grpc_error}
use service_forge.Errors.Response.{Response, failure}
use service_forge.Errors.Result.{Result, ok, err}
use service_forge.Balancer.{Release, release}
use service_forge.Claims.{Forwarded, metadata, refused, outgoing}
use service_forge.Dialer.{Dialer}
use service_forge.Proxy.{Upstream, Route, Session, pick_conn, dial}

-- What a stream meets outside the gateway's code. `new_stream` is told whether the client streams too,
-- and the claim metadata. `bind` is `bindProtoRequest`, which may panic; `bridge` is a run of the two pumps
-- (Streams/Bidi) and its result; `marshal` is protojson's.
pub record StreamNet {F : Float64} {A : Type 0} (U : Upstream F A) : Type 1 where
  pub Stream : Type 0
  pub new_stream :
      Bool
      → List (String × String)
      → U.network.Conn
      → U.network.World
      → Result Stream × U.network.World
  pub send_msg : A → Stream → U.network.World → Option Error × U.network.World
  pub close_send : Stream → U.network.World → U.network.World
  pub cancel : U.network.World → U.network.World
  pub bind : Option (Result A)
  pub bridge : Stream → U.network.World → Option Error × U.network.World
  pub marshal : A → Result String
  pub write : String → U.network.World → Option Error × U.network.World
  pub flush : U.network.World → Option Error × U.network.World

module _ {F : Float64} {A : Type 0} (U : Upstream F A) (N : StreamNet U) where
  abbrev set_world : U.network.World → Session U → Session U
  set_world w s = record s { dialer = record (s.dialer) { world = w } }

  abbrev unavailable : String → Error → Error
  unavailable text cause = app (with_cause cause (new U.maps code_unavailable text))

  -- The connection that was picked, or else a dialed one.
  unfoldable pub conn_or_dial :
      Route U.network.Conn → Option U.network.Conn → Session U → Result U.network.Conn × Session U
  unfolding dial
  conn_or_dial r (some conn) s = (ok conn, s)
  conn_or_dial r none s =
      let (dialed, d) = dial U r s.dialer in
      elim dialed [
        | ok conn ↦ (ok conn, record s { dialer = d })
        | err e ↦ (err (unavailable "grpc target unavailable" e), record s { dialer = d })
      ]

  -- The stream of a connection, opened with the claims that are forwarded.
  unfoldable pub open_stream :
      Bool → Route U.network.Conn → U.network.Conn → Session U → Result N.Stream × Session U
  unfolding outgoing
  open_stream client_streams r conn s = elim (outgoing F U.maps r.forwarder U.claims) [
    | refused e ↦ (err e, s)
    | metadata md ↦
        let (opened, w) = N.new_stream client_streams md conn s.dialer.world in
        elim opened [
          | ok stream ↦ (ok stream, set_world w s)
          | err e ↦ (err (unavailable "grpc stream unavailable" e), set_world w s)
        ]
  ]

  -- `InvokeStream` behind `pickConn`, without what is deferred.
  unfoldable pub bridge_picked :
      Route U.network.Conn → Option U.network.Conn → Session U → Option Error × Session U
  unfolding conn_or_dial open_stream
  bridge_picked r picked s =
      let (conn, s') = conn_or_dial r picked s in
      elim conn [
        | err e ↦ (some e, s')
        | ok c ↦
            let (opened, s'') = open_stream true r c s' in
            elim opened [
              | err e ↦ (some e, s'')
              | ok stream ↦ let (e, w) = N.bridge stream s''.dialer.world in (e, set_world w s'')
            ]
      ]

  -- The release of a connection, which is deferred or called on each path.
  abbrev released : Release → Session U → Session U
  released rel s = record s { balancer = release rel s.balancer }

  abbrev cancelled : Session U → Session U
  cancelled s = set_world (N.cancel s.dialer.world) s

  -- `InvokeStream`; what is deferred runs in the opposite order.
  unfoldable pub invoke_stream : Route U.network.Conn → Session U → Option Error × Session U
  unfolding bridge_picked
  invoke_stream r s =
      let (conn, rel, s') = pick_conn U r s in
      let (e, s'') = bridge_picked r conn s' in (e, cancelled (released rel s''))

  -- `writeProxyError`: the HTTP status and the envelope, at a time
  unfoldable pub write_proxy_error : Error → ℕ → ℕ × Response A
  write_proxy_error e now =
      let failed = as_app_error U.status U.maps e in
      (http_status_of failed, failure U.status U.maps now (app failed))

  -- `sferrors.FromGRPCError(err)` as an error
  abbrev translated : Error → Error
  translated e = elim (from_grpc_error U.status U.maps (some e)) [ some f ↦ app f | none ↦ e ]

  -- The opening of a server stream from the request that was bound; the flag says whether there is a
  -- context to cancel, and a panic has no result.
  unfoldable pub start_stream :
      Route U.network.Conn
      → U.network.Conn
      → Session U
      → Option (Result N.Stream) × Bool × Session U
  unfolding open_stream
  start_stream r conn s = elim N.bind [
    | none ↦ (none, false, s)
    | some bound ↦ elim bound [
      | err e ↦ (some (err e), false, s)
      | ok request ↦
          let (opened, s') = open_stream false r conn s in
          elim opened [
            | err e ↦ (some (err e), true, s')
            | ok stream ↦
                let (failed, w) = N.send_msg request stream s'.dialer.world in
                elim failed [
                  | some e ↦ (some (err (translated e)), true, set_world w s')
                  | none ↦ (some (ok stream), true, set_world (N.close_send stream w) s')
                ]
          ]
    ]
  ]

  -- What `InvokeServerStream` leaves behind: an answer, a stream that the body writer will pump and the
  -- release that it will call, or a panic, behind which nothing is released.
  pub data Started : Type 0 where
    answered : Error → Started
    streaming : N.Stream → Release → Started
    crashed : Started

  abbrev settle : Release → Option (Result N.Stream) × Bool × Session U → Started × Session U
  settle rel (none, started, s) = (crashed, s)
  settle rel (some (ok stream), started, s) = (streaming stream rel, s)
  settle rel (some (err e), true, s) = (answered e, released rel (cancelled s))
  settle rel (some (err e), false, s) = (answered e, released rel s)

  -- `InvokeServerStream` behind the dialing
  unfoldable pub relay_on :
      Route U.network.Conn → Release → Result U.network.Conn → Session U → Started × Session U
  unfolding start_stream
  relay_on r rel (err e) s = (answered e, released rel s)
  relay_on r rel (ok conn) s = settle rel (start_stream r conn s)

  unfoldable pub invoke_server_stream : Route U.network.Conn → Session U → Started × Session U
  unfolding conn_or_dial relay_on
  invoke_server_stream r s =
      let (picked, rel, s') = pick_conn U r s in
      let (conn, s'') = conn_or_dial r picked s' in relay_on r rel conn s''

  -- The loop of the body writer, over the messages that the stream delivers before its error.
  unfoldable pub pump_events : List A → U.network.World → U.network.World
  pump_events [] w = w
  pump_events (msg ∷ rest) w = elim (N.marshal msg) [
    | err e ↦ w
    | ok json ↦
        let (failed, w') = N.write (append "data: " (append json "\n\n")) w in
        let (gone, w'') = N.flush w' in
        let more = pump_events rest w'' in
        elim failed [ some e ↦ w' | none ↦ elim gone [ some e ↦ w'' | none ↦ more ] ]
  ]

  -- The body writer, with what it defers.
  unfoldable pub write_body : List A → Started × Session U → Session U
  unfolding pump_events
  write_body messages (answered e, s) = s
  write_body messages (crashed, s) = s
  write_body messages (streaming stream rel, s) =
      cancelled (released rel (set_world (pump_events messages s.dialer.world) s))
