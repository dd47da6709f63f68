-- ===== src/Client/Tests.antt =====
-- The client theorems at concrete runs, with a coder for texts of bytes and small frames.
use vcv_rack_mcp.Prelude.{
  ℕ, ◌≡◌, refl, String, true, false, List, [], ◌∷◌, none, some, Option, arith, lookup, insert, ◌==◌,
  map, if◌then◌else◌, ◌⊎◌, inl, inr, ◌+◌,
}
use vcv_rack_mcp.Framing.{Utf8, FrameDecoder, new_decoder, encode_frame}
use vcv_rack_mcp.Framing.Stream.{wire}
use vcv_rack_mcp.Client.{
  BridgeClient, Incoming, Request, Wire, Failure, WelcomeData, plain, wrote, hello, request, send,
  dispatch, value, resolved,
}
use vcv_rack_mcp.Client.Handshake.{connected_with, exchange_handshake}
use vcv_rack_mcp.Client.Events.{
  Event, requested, received, handshake_begun, torn_down, handle, run, IsFreshRun, waiting, settled,
  issued,
}
use vcv_rack_mcp.Client.Pending.{IsKeyed}
use vcv_rack_mcp.Client.Settled.{requests_settled}
use vcv_rack_mcp.Client.Closing.{IsClosed, AllInert, run-IsClosed}
use vcv_rack_mcp.Client.Delivery.{dispatch_all, run-wire}
use vcv_rack_mcp.Client.Exchange.{dispatch-request, IsWelcome, connected_with_cases}

abbrev bytes : Utf8
bytes = record {
  Text = List ℕ;
  encode = λ t. t;
  decode = λ t. t;
  IsWellFormed = λ t. Unit;
  decode-encode = λ t h. refl;
}

abbrev data_ : WelcomeData
data_ = record {
  instance_id = "i";
  session_id = "s";
  bridge_version = "1";
  rack_version = "2";
  rack_edition = "free";
  patch_epoch = 7;
  nonce = "n";
}

abbrev frame_of : String → Option String → Incoming
frame_of k id = record {
  kind = k;
  id = id;
  ok = true;
  payload = "{}";
  error = none;
  event = "";
  version = 1;
  welcome = data_;
}

-- A frame of one byte: 1 answers the request "a", 2 the request "b", and another one is a welcome.
abbrev object : List ℕ → Incoming
object [] = frame_of "pong" none
object (b ∷ t) =
    if b == 1
    then frame_of "res" (some "a")
    else if b == 2
    then frame_of "res" (some "b")
    else frame_of "welcome" none

abbrev small : Wire
small = record { utf8 = bytes; stringify = λ f. 9 ∷ []; parse = λ t. value (object t) }

abbrev fresh : BridgeClient
fresh = record {
  connected = true;
  closed = false;
  decoder = new_decoder 16;
  pending = [];
  handshake_queue = [];
  heartbeat = false;
  welcome_data = none;
}

abbrev ask : String → Request
ask id = record { id = id; method = "ping"; deadline_ms = 1; payload = "{}"; operation_id = none }

-- Two requests; the second is answered, in two chunks, and the first is cut off.
abbrev story : List Event
story =
    handshake_begun 0 (hello (1 ∷ []))
    ∷ requested 1 (ask "a")
    ∷ requested 2 (ask "b")
    ∷ received (0 ∷ 0 ∷ 0 ∷ [])
    ∷ received (1 ∷ 2 ∷ [])
    ∷ torn_down (plain "bridge connection closed")
    ∷ []

abbrev closed : BridgeClient
closed = record fresh { connected = false; closed = true }

requests_settled_example :
    let (end, effects) = run small 16 story fresh in
    IsKeyed end.pending × (waiting 2 end.pending + settled 2 effects ≡ 1)
unfolding run handle IsFreshRun waiting settled issued send encode_frame request IsKeyed lookup
    insert exchange_handshake
requests_settled_example =
    requests_settled small 16 story fresh 2 tt (tt, (refl, (refl, (tt, (tt, (tt, tt))))))

run-IsClosed_example :
    let (end, effects) = run small 16 story closed in IsClosed end × AllInert effects
run-IsClosed_example =
    run-IsClosed small 16 story closed
      (record { shut = refl; off = refl; none_pending = refl; none_waiting = refl }) refl

-- A waiter and a request, and the frames of a welcome and a response in three chunks.
abbrev waits : BridgeClient
waits = record fresh { pending = ("a", 1) ∷ []; handshake_queue = 0 ∷ [] }

abbrev parts : List (List ℕ)
parts = (0 ∷ 0 ∷ 0 ∷ []) ∷ (1 ∷ 3 ∷ 0 ∷ 0 ∷ []) ∷ (0 ∷ 1 ∷ 1 ∷ []) ∷ []

run-wire_example :
    (d : FrameDecoder) × (run small 16 (map received parts) waits ≡ (
      let (c', effects) =
        dispatch_all (frame_of "welcome" none ∷ frame_of "res" (some "a") ∷ []) waits in
      (record c' { decoder = d }, effects)))
unfolding wire encode_frame
run-wire_example =
    run-wire small 16 object ((3 ∷ []) ∷ (1 ∷ []) ∷ []) parts waits refl (omega arith)
      (tt, (tt, tt)) (refl, (refl, tt)) (omega arith) refl

dispatch-request_example :
    let (c', sent) = request small 16 5 (ask "a") fresh in
    (sent ≡ wrote (0 ∷ 0 ∷ 0 ∷ 1 ∷ 9 ∷ []) ∷ [])
    × (dispatch (frame_of "res" (some "a")) c' ≡ (fresh, resolved 5 "{}" ∷ []))
unfolding send encode_frame lookup
dispatch-request_example =
    dispatch-request small 16 5 (ask "a") fresh (0 ∷ 0 ∷ 0 ∷ 1 ∷ 9 ∷ []) (frame_of "res" (some "a"))
      refl refl refl refl refl refl

connected_with_cases_example :
    let f = frame_of "res" (some "a") in
    let (c', effects, result) = connected_with f fresh in
    (IsWelcome f
      × (c' ≡ record fresh { welcome_data = some f.welcome })
      × (effects ≡ [])
      × (result ≡ inr f.welcome))
    ⊎ (¬ (IsWelcome f) × IsClosed c' × ((e : Failure) × (result ≡ inl e)))
connected_with_cases_example = connected_with_cases (frame_of "res" (some "a")) fresh refl
