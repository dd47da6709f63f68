-- ===== src/Client/Handshake.antt =====
-- client.ts: the hello and authentication exchanges. `connect` and `authenticate` are split where
-- they wait for the bridge's frame.
use vcv_rack_mcp.Prelude.{
  ℕ, ◌⊎◌, inl, inr, String, true, false, not, List, [], ◌∷◌, ◌++◌, Option, none, some, str_eq, ◌||◌,
  if◌then◌else◌, ◌==◌, any,
}
use Prim.Native.String
use vcv_rack_mcp.Client.{
  BridgeClient, Effect, Outgoing, Wire, Incoming, WelcomeData, Failure, plain, request_error, auth,
  handshake_rejected, wrote, send, teardown, protocol_version_range, rpc_error,
}

abbrev pub supported_protocol_versions : List ℕ
unfolding protocol_version_range
supported_protocol_versions = protocol_version_range 1 1

module _ (w : Wire) (frame_limit : ℕ) where
  -- `exchangeHandshake`: a waiter whose frame cannot be sent does not stay in the queue.
  unfoldable pub exchange_handshake : ℕ → Outgoing → BridgeClient → BridgeClient × List Effect
  exchange_handshake p frame c = elim (send w frame_limit frame c) [
    | none ↦ (c, handshake_rejected p (plain "not sent") ∷ [])
    | some bytes ↦ (record c { handshake_queue = c.handshake_queue ++ p ∷ [] }, wrote bytes ∷ [])
  ]

-- The timer of a waiter rejects its promise and leaves the waiter in the queue.
unfoldable pub handshake_timeout : ℕ → BridgeClient → BridgeClient × List Effect
handshake_timeout p c =
    if any (λ q. q == p) c.handshake_queue
    then (c, handshake_rejected p (plain "handshake timeout") ∷ [])
    else (c, [])

-- `close()`, and the error that is then thrown: the frame's own, or the one given.
unfoldable pub refuse :
    {A : Type 0} → Incoming → String → BridgeClient → BridgeClient × List Effect × (Failure ⊎ A)
refuse frame code c =
    let (c', effects) = teardown (plain "client closed") c in
    (
      c',
      effects,
      inl (request_error (elim frame.error [ none ↦ rpc_error code false | some e ↦ e ])),
    )

-- `connect` from the frame that answers its hello.
unfoldable pub connected_with :
    Incoming → BridgeClient → BridgeClient × List Effect × (Failure ⊎ WelcomeData)
connected_with frame c =
    let c' : BridgeClient = record c { welcome_data = some frame.welcome } in
    let (c'', effects) = teardown (plain "client closed") c' in
    if not (str_eq frame.kind "welcome")
    then refuse frame "PROTOCOL_VERSION_MISMATCH" c
    else if not (any (λ v. v == frame.version) supported_protocol_versions)
    then (c'', effects, inl (request_error (rpc_error "PROTOCOL_VERSION_MISMATCH" false)))
    else (c', [], inr frame.welcome)

-- The frame that `authenticate` sends, from the HMAC of its message; without a welcome it throws.
unfoldable pub auth_frame : (hmac : String → String) → BridgeClient → Option Outgoing
auth_frame hmac c = elim c.welcome_data [
  | none ↦ none
  | some d ↦ some (
      auth (
        hmac (
          String.◌++◌ d.nonce
            (String.◌++◌ "|" (String.◌++◌ d.instance_id (String.◌++◌ "|" d.session_id))))))
]

-- `authenticate` from the frame that answers it.
unfoldable pub authenticated_with :
    Incoming → BridgeClient → BridgeClient × List Effect × (Failure ⊎ Unit {0})
authenticated_with frame c =
    if not (str_eq frame.kind "authResult") || not frame.ok
    then refuse frame "AUTHENTICATION_FAILED" c
    else (record c { heartbeat = true }, [], inr tt)
