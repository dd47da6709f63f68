-- ===== src/Client/Delivery.antt =====
-- client.ts over framing.ts: the frames that arrive are dispatched in order, whatever the chunks.
use vcv_rack_mcp.Prelude.{
  ℕ, zero, suc, ◌+◌, ◌^◌, ◌≤◌, ◌<◌, ◌≡◌, refl, inl, inr, true, false, List, [], ◌∷◌, ◌++◌, some,
  Option-cases, Bool-cases, arith, map, All, sym, All-left, All-right, length, concat, ap, ◌∙◌,
}
use mathlib.Core.List.{append_assoc, map-append}
use vcv_rack_mcp.Framing.{FrameDecoder, push, next, drain, receive, new_decoder}
use vcv_rack_mcp.Framing.Stream.{receive-wire, wire}
use vcv_rack_mcp.Client.{
  BridgeClient, Effect, Incoming, Wire, value, dispatch, dispatch_frames, on_data,
}
use vcv_rack_mcp.Client.Events.{received, handle, run}

-- The frames one after another.
unfoldable pub dispatch_all : List Incoming → BridgeClient → BridgeClient × List Effect
dispatch_all [] c = (c, [])
dispatch_all (f ∷ fs) c =
    let (c', effects) = dispatch f c in
    let (end, later) = dispatch_all fs c' in (end, effects ++ later)

abbrev with_decoder : FrameDecoder → BridgeClient × List Effect → BridgeClient × List Effect
with_decoder d (c, effects) = (record c { decoder = d }, effects)

dispatch-decoder :
    (f : Incoming) (d : FrameDecoder) (c : BridgeClient)
    → dispatch f (record c { decoder = d }) ≡ with_decoder d (dispatch f c)
unfolding dispatch
dispatch-decoder f d c = ground arith

dispatch_all-decoder :
    (fs : List Incoming) (d : FrameDecoder) (c : BridgeClient)
    → dispatch_all fs (record c { decoder = d }) ≡ with_decoder d (dispatch_all fs c)
unfolding dispatch_all
dispatch_all-decoder [] d c = refl
dispatch_all-decoder (f ∷ fs) d c =
    rw (dispatch-decoder f d c, dispatch_all-decoder fs d (dispatch f c).0) refl

dispatch_all-append :
    (fs gs : List Incoming) (c : BridgeClient)
    → dispatch_all (fs ++ gs) c ≡ (
        let (c', effects) = dispatch_all fs c in
        let (end, later) = dispatch_all gs c' in (end, effects ++ later))
unfolding dispatch_all
dispatch_all-append [] gs c = refl
dispatch_all-append (f ∷ fs) gs c =
    let c' = (dispatch f c).0 in
    rw (dispatch_all-append fs gs c') (
      ap (λ es. ((dispatch_all gs (dispatch_all fs c').0).0, es))
        (sym (append_assoc (dispatch f c).1 _ _)))

push-refused :
    (d : FrameDecoder) (chunk : List ℕ) → (push d chunk).1 ≡ false → (push d chunk).0.failed ≡ true
unfolding push
push-refused d chunk refused = ground arith

module _ (w : Wire) (limit : ℕ) (frame : w.utf8.Text → Incoming) where
  abbrev AllParsed : List w.utf8.Text → Type 0
  AllParsed = All (λ t. w.parse t ≡ value (frame t))

  dispatch_frames-drain :
      (fuel : ℕ) (c : BridgeClient)
      → (drain w.utf8 fuel c.decoder).0.failed ≡ false
      → AllParsed (drain w.utf8 fuel c.decoder).1
      → dispatch_frames w limit fuel c
        ≡ with_decoder
            (drain w.utf8 fuel c.decoder).0
            (dispatch_all (map frame (drain w.utf8 fuel c.decoder).1) c)
  unfolding dispatch_frames drain dispatch_all
  dispatch_frames-drain zero c ok p = refl
  dispatch_frames-drain (suc fuel) c ok p =
      let d = (next w.utf8 c.decoder).0 in
      elim (Option-cases (next w.utf8 c.decoder).1) [
        | inl drained ↦
            let alive : d.failed ≡ false = rw (drained, drain) at ok in
            rw (drained, dispatch_frames, drain) (rw alive refl)
        | inr (text, framed) ↦
            let (good, parsed) = rw (framed, drain) at p in
            let alive = rw (framed, drain) at ok in
            let c' : BridgeClient = record (dispatch (frame text) c).0 { decoder = d } in
            rw (framed, dispatch_frames, drain)
              (rw
                (
                  good,
                  dispatch-decoder (frame text) d c,
                  dispatch_frames-drain fuel c' alive parsed,
                  dispatch_all-decoder (map frame (drain w.utf8 fuel d).1) d
                      (dispatch (frame text) c).0,
                )
                refl)
      ]

  -- A decoder that is not failed at the end never was.
  receive-alive :
      (chunks : List (List ℕ)) (d : FrameDecoder)
      → (receive w.utf8 d chunks).0.failed ≡ false
      → d.failed ≡ false
  unfolding receive push
  receive-alive [] d ok = ok
  receive-alive (chunk ∷ chunks) d ok = elim (Bool-cases d.failed) [
    | inl dead ↦ absurd (ground (arith, dead))
    | inr alive ↦ alive
  ]

  on_data-receive :
      (chunks : List (List ℕ)) (c : BridgeClient)
      → (receive w.utf8 c.decoder chunks).0.failed ≡ false
      → AllParsed (receive w.utf8 c.decoder chunks).1
      → run w limit (map received chunks) c
        ≡ with_decoder
            (receive w.utf8 c.decoder chunks).0
            (dispatch_all (map frame (receive w.utf8 c.decoder chunks).1) c)
  unfolding run handle on_data receive dispatch_all
  on_data-receive [] c ok p = refl
  on_data-receive (chunk ∷ chunks) c ok p =
      let d = (push c.decoder chunk).0 in
      let (d', ts) = drain w.utf8 (suc d.buffered) d in
      let (d'', us) = receive w.utf8 d' chunks in
      elim (Bool-cases (push c.decoder chunk).1) [
        | inr full ↦
            let dead = push-refused c.decoder chunk full in
            absurd (ground (arith, dead, rw full at ok))
        | inl took ↦
            let parsed = rw took at p in
            let alive = rw took at ok in
            let c' : BridgeClient = record c { decoder = d } in
            let c'' : BridgeClient = record (dispatch_all (map frame ts) c).0 { decoder = d' } in
            rw
              (
                took,
                dispatch_frames-drain (suc d.buffered) c' (receive-alive chunks d' alive)
                    (All-left _ ts us parsed),
                dispatch_all-decoder (map frame ts) d c,
                on_data-receive chunks c'' alive (All-right _ ts us parsed),
                dispatch_all-decoder (map frame us) d' (dispatch_all (map frame ts) c).0,
                map-append frame ts us,
                dispatch_all-append (map frame ts) (map frame us) c,
              )
              refl
      ]

-- Whatever the coders, a client that has just connected, and whatever state its maps are in: if the
-- frames of some messages, each well formed, within a limit below 2^32 and parsed as JSON objects,
-- arrive in chunks of at most limit + 4 bytes, however they are cut, then handling the chunks does
-- what dispatching the messages one after another does, and only the decoder differs.
pub run-wire :
    (w : Wire) (limit : ℕ) (frame : w.utf8.Text → Incoming) (ts : List w.utf8.Text)
    (chunks : List (List ℕ)) (c : BridgeClient)
    → c.decoder ≡ new_decoder limit
    → limit < 2 ^ 32
    → All w.utf8.IsWellFormed ts
    → All (λ t. w.parse t ≡ value (frame t)) ts
    → All (λ chunk. length chunk ≤ limit + 4) chunks
    → wire w.utf8 limit ts ≡ some (concat chunks)
    → (d : FrameDecoder) × (run w limit (map received chunks) c ≡ (
        let (c', effects) = dispatch_all (map frame ts) c in (record c' { decoder = d }, effects)))
run-wire w limit frame ts chunks c new small well parsed sizes sent =
    let (order, alive, empty) = receive-wire w.utf8 limit ts chunks small well sizes sent in
    let same = ap (λ d. receive w.utf8 d chunks) new in
    let texts : (receive w.utf8 c.decoder chunks).1 ≡ ts = ap (λ r. r.1) same ∙ order in
    let live : (receive w.utf8 c.decoder chunks).0.failed ≡ false =
      ap (λ r. r.0.failed) same ∙ alive in
    (
      (receive w.utf8 c.decoder chunks).0,
      on_data-receive w limit frame chunks c live (rw texts parsed)
          ∙ ap
              (λ us.
                with_decoder (receive w.utf8 c.decoder chunks).0 (dispatch_all (map frame us) c))
              texts,
    )
