-- ===== src/Client.antt =====
-- packages/protocol/src/client.ts: the bridge client's multiplexing of requests and handshakes over
-- one socket. A promise is a number, and what a handler does to the outside is a list of effects.
-- Node's socket, timers and JSON coder are outside: `Wire` holds the coders, and a timer that fires
-- or a socket that closes is an event.
pub mod Handshake
pub mod Events
pub mod Pending
pub mod Settled
pub mod Delivery
pub mod Closing
pub mod Exchange
mod Tests
use vcv_rack_mcp.Prelude.{
  ℕ, zero, suc, ◌+◌, ◌-◌, ◌≡◌, String, Bool, true, false, not, List, [], ◌∷◌, ◌++◌, map, Option,
  none, some, ltb, str_eq, ◌||◌, if◌then◌else◌, lookup, insert, delete,
}
use vcv_rack_mcp.Errors.{RpcError}
use vcv_rack_mcp.Operations.{Json}
use vcv_rack_mcp.Framing.{Utf8, FrameDecoder, push, next, encode_frame}

-- `protocolVersionRange(min, max)`
unfoldable pub count_up : ℕ → ℕ → List ℕ
count_up from zero = []
count_up from (suc n) = from ∷ count_up (suc from) n

unfoldable pub protocol_version_range : ℕ → ℕ → List ℕ
protocol_version_range min max = if ltb max min then [] else count_up min (max - min + 1)

-- What is thrown: an `Error` with its message, or a `BridgeRequestError`.
pub data Failure : Type 0 where
  plain : String → Failure
  request_error : RpcError → Failure

pub record WelcomeData : Type 0 where
  pub instance_id : String
  pub session_id : String
  pub bridge_version : String
  pub rack_version : String
  pub rack_edition : String
  pub patch_epoch : ℕ
  pub nonce : String

-- The fields that the client reads of a parsed frame. `none` is a missing field.
pub record Incoming : Type 0 where
  pub kind : String
  pub id : Option String
  pub ok : Bool
  pub payload : Json
  pub error : Option RpcError
  pub event : String
  pub version : ℕ
  pub welcome : WelcomeData

pub record Request : Type 0 where
  pub id : String
  pub method : String
  pub deadline_ms : ℕ
  pub payload : Json
  pub operation_id : Option String

pub data Outgoing : Type 0 where
  hello : (versions : List ℕ) → Outgoing
  auth : (hmac : String) → Outgoing
  req : Request → Outgoing
  ping : (id : String) → Outgoing

pub data Parsed : Type 0 where
  invalid_json : Parsed
  -- The text `null`, whose `kind` cannot be read.
  null_value : Parsed
  value : Incoming → Parsed

-- `JSON.stringify`, `JSON.parse` and the UTF-8 coder.
pub record Wire : Type 1 where
  pub utf8 : Utf8
  pub stringify : Outgoing → utf8.Text
  pub parse : utf8.Text → Parsed

pub data Effect : Type 0 where
  wrote : List ℕ → Effect
  resolved : (promise : ℕ) → Json → Effect
  rejected : (promise : ℕ) → Failure → Effect
  handshake_resolved : (promise : ℕ) → Incoming → Effect
  handshake_rejected : (promise : ℕ) → Failure → Effect
  event_fired : (event : String) → Json → Effect
  socket_destroyed close_fired uncaught_exception : Effect

pub record BridgeClient : Type 0 where
  pub connected : Bool
  pub closed : Bool
  pub decoder : FrameDecoder
  pub pending : List (String × ℕ)
  pub handshake_queue : List ℕ
  pub heartbeat : Bool
  pub welcome_data : Option WelcomeData

-- The client's own errors; none of them is safe to retry.
abbrev pub rpc_error : String → (mutation_may_have_occurred : Bool) → RpcError
rpc_error c unknown = record {
  code = c;
  retry_safe = false;
  mutation_may_have_occurred = unknown;
  rollback = none;
}

abbrev pub disconnected : Failure
disconnected = request_error (rpc_error "RACK_DISCONNECTED" true)

unfoldable pub reject_pending : List (String × ℕ) → List Effect
reject_pending [] = []
reject_pending ((id, p) ∷ entries) = rejected p disconnected ∷ reject_pending entries

unfoldable pub reject_waiters : Failure → List ℕ → List Effect
reject_waiters reason [] = []
reject_waiters reason (p ∷ waiters) = handshake_rejected p reason ∷ reject_waiters reason waiters

unfoldable pub teardown : Failure → BridgeClient → BridgeClient × List Effect
teardown reason c = if c.closed then (c, []) else (
  record c {
    connected = false;
    closed = true;
    pending = [];
    handshake_queue = [];
    heartbeat = false;
  },
  (if c.connected then socket_destroyed ∷ [] else [])
      ++ reject_pending c.pending
      ++ reject_waiters reason c.handshake_queue
      ++ close_fired ∷ [],
)

abbrev pub answer : ℕ → Incoming → Effect
answer p frame = if frame.ok then resolved p frame.payload else elim frame.error [
  | none ↦ rejected p (request_error (rpc_error "INTERNAL" true))
  | some e ↦ rejected p (request_error e)
]

-- `handshakeQueue.shift()` and its resolution.
unfoldable pub dispatch_handshake : Incoming → List ℕ → List ℕ × List Effect
dispatch_handshake frame [] = ([], [])
dispatch_handshake frame (p ∷ waiters) = (waiters, handshake_resolved p frame ∷ [])

unfoldable pub dispatch_response : Incoming → List (String × ℕ) → List (String × ℕ) × List Effect
dispatch_response frame pending = elim frame.id [
  | none ↦ (pending, [])
  | some id ↦ elim (lookup id pending) [
    | none ↦ (pending, [])
    | some p ↦ (delete id pending, answer p frame ∷ [])
  ]
]

unfoldable pub dispatch : Incoming → BridgeClient → BridgeClient × List Effect
dispatch frame c =
    let shaken = dispatch_handshake frame c.handshake_queue in
    let answered = dispatch_response frame c.pending in
    if str_eq frame.kind "welcome" || str_eq frame.kind "authResult"
    then (record c { handshake_queue = shaken.0 }, shaken.1)
    else if str_eq frame.kind "res"
    then (record c { pending = answered.0 }, answered.1)
    else if str_eq frame.kind "evt"
    then (c, event_fired frame.event frame.payload ∷ [])
    else (c, [])

module _ (w : Wire) (frame_limit : ℕ) where
  -- `send`: the bytes written, or `none` where it throws.
  unfoldable pub send : Outgoing → BridgeClient → Option (List ℕ)
  send frame c = if c.connected then encode_frame w.utf8 frame_limit (w.stringify frame) else none

  -- `request`, whose promise is `p` and whose random id is `r.id`.
  unfoldable pub request : ℕ → Request → BridgeClient → BridgeClient × List Effect
  request p r c =
      if not c.connected || c.closed
      then (c, rejected p (plain "not connected") ∷ [])
      else let entered = insert r.id p c.pending in
        elim (send (req r) c) [
          | none ↦ (record c { pending = delete r.id entered }, rejected p (plain "not sent") ∷ [])
          | some bytes ↦ (record c { pending = entered }, wrote bytes ∷ [])
        ]

  -- The `while` loop of `onData` and what follows it, with fuel.
  unfoldable pub dispatch_frames : ℕ → BridgeClient → BridgeClient × List Effect
  dispatch_frames zero c = (c, [])
  dispatch_frames (suc fuel) c =
      let (d, frame) = next w.utf8 c.decoder in
      let c' : BridgeClient = record c { decoder = d } in
      elim frame [
        | none ↦ if d.failed then teardown (plain "bridge frame decode error") c' else (c', [])
        | some text ↦ elim (w.parse text) [
          | invalid_json ↦ teardown (plain "bridge sent invalid JSON") c'
          | null_value ↦ (c', uncaught_exception ∷ [])
          | value f ↦
              let (c'', effects) = dispatch f c' in
              let (end, later) = dispatch_frames fuel c'' in (end, effects ++ later)
        ]
      ]

  unfoldable pub on_data : List ℕ → BridgeClient → BridgeClient × List Effect
  on_data chunk c =
      let (d, ok) = push c.decoder chunk in
      if ok
      then dispatch_frames (suc d.buffered) (record c { decoder = d })
      else teardown (plain "bridge frame decode error") (record c { decoder = d })

-- The deadline timer of a request: it is cleared wherever its entry leaves the map.
unfoldable pub request_timeout : String → BridgeClient → BridgeClient × List Effect
request_timeout id c = elim (lookup id c.pending) [
  | none ↦ (c, [])
  | some p ↦ (
    record c { pending = delete id c.pending },
    rejected p (request_error (rpc_error "TIMEOUT" true)) ∷ [],
  )
]
