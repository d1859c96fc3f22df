-- ===== src/Rpc/Sending.antt =====
-- What src/server/express/json_rpc_handler.ts sends for a reply of `JsonRpcTransportHandler`, on the
-- path of version 1.0 and to a client that stays connected: the responses, in order. Status codes,
-- headers and the framing of events are left out.
use package.a2a_js.Prelude.{
  pos, zero, Bool, true, false, not, Option, none, some, List, [], ◌∷◌, ◌++◌, All, truthy,
  if◌then◌else◌, ◌⊎◌, ◌≡◌,
}
use package.a2a_js.Types.{Json, null, bool, num, str, arr, obj}
use package.a2a_js.Errors.{ok}
use package.a2a_js.Errors.Classes.{Thrown}
use package.a2a_js.Errors.JsonRpc.{to_json_rpc_error}
use package.a2a_js.Codec.Fields.{JsPlatform}
use package.a2a_js.Rpc.{Events, failure, RpcResponse, Reply, response, stream, rejected}
use package.a2a_js.Rpc.Server.{id_of}

abbrev counts_as_zero : JsPlatform → Json → Bool
counts_as_zero js v = elim (js.number_of v) [ ok (pos zero) ↦ true | _ ↦ false ]

abbrev counts_as_true : JsPlatform → Json → Bool
counts_as_true js null = false
counts_as_true js (bool b) = b
counts_as_true js (str s) = truthy s
counts_as_true js (num n) = not (counts_as_zero js (num n))
counts_as_true js (arr vs) = true
counts_as_true js (obj fs) = true

-- `req.body?.id || null`.
abbrev pub or_null : JsPlatform → Json → Json
or_null js id = if counts_as_true js id then id else null

-- `errorResponse`, for what the handler or a stream throws.
abbrev pub thrown_response : JsPlatform → Json → Thrown → RpcResponse
thrown_response js body e = record {
  id = or_null js (id_of body);
  outcome = failure (to_json_rpc_error e);
}

abbrev after_stream : JsPlatform → Json → Option Thrown → List RpcResponse
after_stream js body none = []
after_stream js body (some e) = thrown_response js body e ∷ []

pub sent : JsPlatform → Json → Reply → List RpcResponse
sent js body (response r) = r ∷ []
sent js body (stream s) = s.yielded ++ after_stream js body s.failure
sent js body (rejected e) = thrown_response js body e ∷ []

-- No response is left, or the one for the error by which a stream failed.
abbrev pub IsStreamFailure : JsPlatform → Json → Reply → List RpcResponse → Type 0
IsStreamFailure js body reply back =
    (back ≡ [])
    ⊎ ((s : Events RpcResponse) × (e : Thrown) × (reply ≡ stream s)
        × (s.failure ≡ some e)
        × (back ≡ thrown_response js body e ∷ []))

-- The responses that are sent have the identifier, but for the error by which a stream fails.
abbrev SendsId : JsPlatform → Json → Json → Reply → Type 0
SendsId js body id reply =
    (front : List RpcResponse) × (back : List RpcResponse) × (sent js body reply ≡ front ++ back)
    × All (λ r. r.id ≡ id) front
    × IsStreamFailure js body reply back
