-- ===== src/Client/Events.antt =====
-- client.ts: a client's life as a sequence of events, in whatever order the event loop runs them.
use vcv_rack_mcp.Prelude.{
  true, ℕ, suc, ◌≡◌, String, List, [], ◌∷◌, ◌++◌, none, lookup, ◌==◌, if◌then◌else◌,
}
use vcv_rack_mcp.Client.{
  BridgeClient, Effect, Outgoing, Request, Wire, Failure, resolved, rejected, request, on_data,
  request_timeout, teardown,
}
use vcv_rack_mcp.Client.Handshake.{exchange_handshake, handshake_timeout}

pub data Event : Type 0 where
  requested : (promise : ℕ) → Request → Event
  received : (chunk : List ℕ) → Event
  timed_out : (id : String) → Event
  handshake_begun : (promise : ℕ) → Outgoing → Event
  handshake_timed_out : (promise : ℕ) → Event
  -- `connect` takes the socket that it has opened, closed client or not.
  socket_opened : Event
  -- The socket closes or fails, or `close()` is called.
  torn_down : Failure → Event

module _ (w : Wire) (frame_limit : ℕ) where
  unfoldable pub handle : Event → BridgeClient → BridgeClient × List Effect
  handle (requested p r) c = request w frame_limit p r c
  handle (received chunk) c = on_data w frame_limit chunk c
  handle (timed_out id) c = request_timeout id c
  handle (handshake_begun p frame) c = exchange_handshake w frame_limit p frame c
  handle (handshake_timed_out p) c = handshake_timeout p c
  handle socket_opened c = (record c { connected = true }, [])
  handle (torn_down reason) c = teardown reason c

  unfoldable pub run : List Event → BridgeClient → BridgeClient × List Effect
  run [] c = (c, [])
  run (e ∷ es) c =
      let (c', effects) = handle e c in let (end, later) = run es c' in (end, effects ++ later)

  abbrev pub IsFresh : Event → BridgeClient → Type 0
  IsFresh (requested p r) c = lookup r.id c.pending ≡ none
  IsFresh _ c = Unit

  -- No request draws the id of one that is pending.
  unfoldable pub IsFreshRun : List Event → BridgeClient → Type 0
  IsFreshRun [] c = Unit
  IsFreshRun (e ∷ es) c = IsFresh e c × IsFreshRun es (handle e c).0

-- How often a promise stands in the map, is settled, and is given to a request.
unfoldable pub waiting : ℕ → List (String × ℕ) → ℕ
waiting p [] = 0
waiting p ((id, q) ∷ entries) = if q == p then suc (waiting p entries) else waiting p entries

unfoldable pub settled : ℕ → List Effect → ℕ
settled p [] = 0
settled p (resolved q payload ∷ effects) =
    if q == p then suc (settled p effects) else settled p effects
settled p (rejected q failure ∷ effects) =
    if q == p then suc (settled p effects) else settled p effects
settled p (_ ∷ effects) = settled p effects

unfoldable pub issued : ℕ → List Event → ℕ
issued p [] = 0
issued p (requested q r ∷ events) = if q == p then suc (issued p events) else issued p events
issued p (_ ∷ events) = issued p events
