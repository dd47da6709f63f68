-- ===== src/Client/Closing.antt =====
-- client.ts: what a closed client still does, as long as it is not connected anew.
use vcv_rack_mcp.Prelude.{
  ℕ, zero, suc, ◌≡◌, refl, inl, inr, Bool, true, false, List, [], ◌∷◌, none, lookup, Option-cases,
  Bool-cases, str_eq, ◌==◌, arith, ◌||◌, not, any, All, All-append,
}
use vcv_rack_mcp.Framing.{push, next}
use vcv_rack_mcp.Client.{
  BridgeClient, Effect, Incoming, Outgoing, Request, Wire, Failure, plain, teardown, dispatch,
  dispatch_handshake, dispatch_response, dispatch_frames, on_data, request, request_timeout, send,
  wrote, resolved, rejected, handshake_resolved, socket_destroyed, close_fired,
}
use vcv_rack_mcp.Client.Handshake.{exchange_handshake, handshake_timeout}
use vcv_rack_mcp.Client.Events.{
  socket_opened, Event, requested, received, timed_out, handshake_begun, handshake_timed_out,
  torn_down, handle, run,
}
use vcv_rack_mcp.Client.Settled.{Parsed-cases}

pub record IsClosed (c : BridgeClient) : Type 0 where
  pub shut : c.closed ≡ true
  pub off : c.connected ≡ false
  pub none_pending : c.pending ≡ []
  pub none_waiting : c.handshake_queue ≡ []

abbrev pub is_opening : Event → Bool
is_opening socket_opened = true
is_opening _ = false

-- Nothing is written, no promise is resolved, and nothing is closed again.
pub is_inert : Effect → Bool
is_inert (wrote bytes) = false
is_inert (resolved p j) = false
is_inert (handshake_resolved p f) = false
is_inert socket_destroyed = false
is_inert close_fired = false
is_inert _ = true

abbrev pub AllInert : List Effect → Type 0
AllInert = All (λ e. is_inert e ≡ true)

abbrev Silent : BridgeClient × List Effect → Type 0
Silent r = IsClosed r.0 × AllInert r.1

teardown-Silent : (reason : Failure) (c : BridgeClient) → IsClosed c → Silent (teardown reason c)
unfolding teardown
teardown-Silent reason c v = rw v.shut (
  record { shut = refl; off = v.off; none_pending = v.none_pending; none_waiting = v.none_waiting },
  tt,
)

dispatch_response_empty : (f : Incoming) → dispatch_response f [] ≡ ([], [])
unfolding dispatch_response lookup
dispatch_response_empty f = elim (Option-cases f.id) [
  | inl missing ↦ rw missing refl
  | inr (id, given) ↦ rw given refl
]

dispatch-Silent : (f : Incoming) (c : BridgeClient) → IsClosed c → Silent (dispatch f c)
unfolding dispatch dispatch_handshake is_inert
dispatch-Silent f c v =
    rw (v.none_pending, v.none_waiting, dispatch_response_empty f)
      (elim (Bool-cases (str_eq f.kind "welcome" || str_eq f.kind "authResult")) [
        | inl shake ↦ rw shake (closed_still, tt)
        | inr more ↦ rw more (elim (Bool-cases (str_eq f.kind "res")) [
          | inl response ↦ rw response (closed_still, tt)
          | inr further ↦ rw further (elim (Bool-cases (str_eq f.kind "evt")) [
            | inl event ↦ rw event (closed_still, (refl, tt))
            | inr other ↦ rw other (closed_still, tt)
          ])
        ])
      ])
  where
    closed_still : IsClosed (record c { pending = []; handshake_queue = [] })
    closed_still = record { shut = v.shut; off = v.off; none_pending = refl; none_waiting = refl }

module _ (w : Wire) (limit : ℕ) where
  dispatch_frames-Silent :
      (fuel : ℕ) (c : BridgeClient) → IsClosed c → Silent (dispatch_frames w limit fuel c)
  unfolding dispatch_frames is_inert
  dispatch_frames-Silent zero c v = (v, tt)
  dispatch_frames-Silent (suc fuel) c v =
      let d = (next w.utf8 c.decoder).0 in
      let c' : BridgeClient = record c { decoder = d } in
      let v' : IsClosed c' = record {
        shut = v.shut;
        off = v.off;
        none_pending = v.none_pending;
        none_waiting = v.none_waiting;
      } in
      elim (Option-cases (next w.utf8 c.decoder).1) [
        | inl drained ↦
            rw (drained, dispatch_frames)
              (elim (Bool-cases d.failed) [
                | inl failed ↦ rw failed (teardown-Silent (plain "bridge frame decode error") c' v')
                | inr waits ↦ rw waits (v', tt)
              ])
        | inr (text, framed) ↦
            rw (framed, dispatch_frames)
              (elim (Parsed-cases (w.parse text)) [
                | inl bad ↦ rw bad (teardown-Silent (plain "bridge sent invalid JSON") c' v')
                | inr (inl null) ↦ rw null (v', (refl, tt))
                | inr (inr (f, good)) ↦ rw good (
                    let (closed, inert) = dispatch-Silent f c' v' in
                    let (end, later) = dispatch_frames-Silent fuel (dispatch f c').0 closed in
                    (end, All-append _ _ _ inert later))
              ])
      ]

  on_data-Silent :
      (chunk : List ℕ) (c : BridgeClient) → IsClosed c → Silent (on_data w limit chunk c)
  unfolding on_data
  on_data-Silent chunk c v =
      let d = (push c.decoder chunk).0 in
      let c' : BridgeClient = record c { decoder = d } in
      let v' : IsClosed c' = record {
        shut = v.shut;
        off = v.off;
        none_pending = v.none_pending;
        none_waiting = v.none_waiting;
      } in
      elim (Bool-cases (push c.decoder chunk).1) [
        | inl ok ↦ rw ok (dispatch_frames-Silent (suc d.buffered) c' v')
        | inr full ↦ rw full (teardown-Silent (plain "bridge frame decode error") c' v')
      ]

  send_closed : (frame : Outgoing) (c : BridgeClient) → IsClosed c → send w limit frame c ≡ none
  unfolding send
  send_closed frame c v = rw v.off refl

  request-Silent :
      (p : ℕ) (r : Request) (c : BridgeClient)
      → IsClosed c
      → request w limit p r c ≡ (c, rejected p (plain "not connected") ∷ [])
  unfolding request
  request-Silent p r c v =
      let off : (not c.connected || c.closed) ≡ true = ground (arith, v.off) in ground (arith, off)

  handle-Silent :
      (e : Event) (c : BridgeClient)
      → IsClosed c
      → is_opening e ≡ false
      → Silent (handle w limit e c)
  unfolding handle is_inert exchange_handshake handshake_timeout request_timeout lookup
  handle-Silent (requested p r) c v quiet = rw (request-Silent p r c v) (v, (refl, tt))
  handle-Silent (received chunk) c v quiet = on_data-Silent chunk c v
  handle-Silent (timed_out id) c v quiet =
      let gone : lookup id c.pending ≡ none = rw v.none_pending refl in
      rw (gone, request_timeout) (v, tt)
  handle-Silent (handshake_begun p frame) c v quiet =
      rw (send_closed frame c v, exchange_handshake) (v, (refl, tt))
  handle-Silent (handshake_timed_out p) c v quiet =
      let gone : any (λ q. q == p) c.handshake_queue ≡ false = rw v.none_waiting refl in
      rw gone (v, tt)
  handle-Silent (torn_down reason) c v quiet = teardown-Silent reason c v
  handle-Silent socket_opened c v opens = absurd (cc)

  -- Closing is final, as long as `connect` opens no new socket. Whatever else is done with a closed
  -- client, and whatever still arrives for it, it stays closed with nothing pending; nothing is
  -- written, no request or handshake is resolved, and neither the socket nor the close hook is
  -- touched again.
  pub run-IsClosed :
      (events : List Event) (c : BridgeClient)
      → IsClosed c
      → any is_opening events ≡ false
      → let (end, effects) = run w limit events c in IsClosed end × AllInert effects
  unfolding run
  run-IsClosed [] c v unopened = (v, tt)
  run-IsClosed (e ∷ events) c v unopened =
      let (closed, inert) = handle-Silent e c v (ground (arith, unopened)) in
      let (end, later) =
        run-IsClosed events (handle w limit e c).0 closed (ground (arith, unopened)) in
      (end, All-append _ _ _ inert later)
