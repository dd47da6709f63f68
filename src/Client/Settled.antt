-- ===== src/Client/Settled.antt =====
-- client.ts: every request is settled exactly once, or is still pending.
use vcv_rack_mcp.Prelude.{
  ℕ, zero, suc, ◌+◌, ◌≡◌, refl, inl, inr, String, Bool, true, false, List, [], ◌∷◌, ◌++◌, none,
  some, lookup, insert, delete, Option-cases, Bool-cases, str_eq, ◌==◌, if◌then◌else◌, arith, ◌||◌,
  not, any, ◌⊎◌,
}
use vcv_rack_mcp.Framing.{push, next}
use vcv_rack_mcp.Client.{
  BridgeClient, Effect, Incoming, Outgoing, Request, Wire, Failure, Parsed, teardown, dispatch,
  dispatch_handshake, dispatch_response, dispatch_frames, on_data, request, request_timeout, send,
  reject_pending, reject_waiters, invalid_json, null_value, value, answer, req,
}
use vcv_rack_mcp.Client.Handshake.{exchange_handshake, handshake_timeout}
use vcv_rack_mcp.Client.Events.{
  socket_opened, Event, requested, received, timed_out, handshake_begun, handshake_timed_out,
  torn_down, handle, run, IsFresh, IsFreshRun, waiting, settled, issued,
}
use vcv_rack_mcp.Client.Pending.{
  IsKeyed, IsKeyed-delete, IsKeyed-insert, waiting-insert, waiting-delete, delete-insert,
  settled-append, settled-reject_pending, settled-reject_waiters,
}

pub Parsed-cases :
    (r : Parsed) → (r ≡ invalid_json) ⊎ (r ≡ null_value) ⊎ ((f : Incoming) × (r ≡ value f))
Parsed-cases invalid_json = inl refl
Parsed-cases null_value = inr (inl refl)
Parsed-cases (value f) = inr (inr (f, refl))

-- What a handler leaves in the map and what it settles make up what was in the map.
pub record Keeps (before after : List (String × ℕ)) (effects : List Effect) : Type 0 where
  pub keyed : IsKeyed after
  pub balance : (x : ℕ) → waiting x after + settled x effects ≡ waiting x before

Keeps-refl :
    (m : List (String × ℕ)) (es : List Effect)
    → IsKeyed m
    → ((x : ℕ) → settled x es ≡ 0)
    → Keeps m m es
Keeps-refl m es k none_settled = record { keyed = k; balance = λ x. omega (arith, none_settled x) }

Keeps-trans :
    (a b c : List (String × ℕ)) (es fs : List Effect)
    → Keeps a b es
    → Keeps b c fs
    → Keeps a c (es ++ fs)
Keeps-trans a b c es fs k l = record {
  keyed = l.keyed;
  balance = λ x. omega (arith, k.balance x, l.balance x, settled-append x es fs);
}

abbrev Kept : BridgeClient → BridgeClient × List Effect → Type 0
Kept c r = Keeps c.pending r.0.pending r.1

settled-torn :
    (x : ℕ) (on : Bool) (m : List (String × ℕ)) (reason : Failure) (waiters : List ℕ)
    → settled x (
        (if on then Effect.socket_destroyed ∷ [] else [])
        ++ reject_pending m
        ++ reject_waiters reason waiters
        ++ Effect.close_fired ∷ [])
      ≡ waiting x m
unfolding settled
settled-torn x true m reason waiters =
    simp (settled-append, settled-reject_pending, settled-reject_waiters) (ground arith)
settled-torn x false m reason waiters =
    simp (settled-append, settled-reject_pending, settled-reject_waiters) (ground arith)

teardown-Keeps :
    (reason : Failure) (c : BridgeClient) → IsKeyed c.pending → Kept c (teardown reason c)
unfolding teardown waiting IsKeyed settled
teardown-Keeps reason c k = elim (Bool-cases c.closed) [
  | inl shut ↦ rw shut (Keeps-refl c.pending [] k (λ x. refl))
  | inr up ↦ rw up (record {
    keyed = tt;
    balance = λ x. omega (arith, settled-torn x c.connected c.pending reason c.handshake_queue);
  })
]

-- Taking the entry of an id out and settling its promise.
settle-Keeps :
    (id : String) (p : ℕ) (m : List (String × ℕ)) (e : Effect)
    → IsKeyed m
    → lookup id m ≡ some p
    → ((x : ℕ) → settled x (e ∷ []) ≡ waiting x ((id, p) ∷ []))
    → Keeps m (delete id m) (e ∷ [])
unfolding waiting
settle-Keeps id p m e k found settles = record {
  keyed = IsKeyed-delete id m k;
  balance = λ x. ground (arith, waiting-delete x id p m k found, settles x);
}

answer-settles :
    (x : ℕ) (id : String) (p : ℕ) (f : Incoming)
    → settled x (answer p f ∷ []) ≡ waiting x ((id, p) ∷ [])
unfolding settled waiting
answer-settles x id p f = elim (Bool-cases f.ok) [
  | inl good ↦ rw good refl
  | inr bad ↦ rw bad (elim (Option-cases f.error) [
    | inl missing ↦ rw missing refl
    | inr (e, given) ↦ rw given refl
  ])
]

dispatch_response-Keeps :
    (f : Incoming) (m : List (String × ℕ))
    → IsKeyed m
    → Keeps m (dispatch_response f m).0 (dispatch_response f m).1
unfolding dispatch_response settled
dispatch_response-Keeps f m k = elim (Option-cases f.id) [
  | inl missing ↦ rw missing (Keeps-refl m [] k (λ x. refl))
  | inr (id, given) ↦ rw given (elim (Option-cases (lookup id m)) [
    | inl unknown ↦ rw (unknown, dispatch_response) (Keeps-refl m [] k (λ x. refl))
    | inr (p, found) ↦
        rw (found, dispatch_response)
          (settle-Keeps id p m (answer p f) k found (λ x. answer-settles x id p f))
  ])
]

dispatch_handshake-settled :
    (x : ℕ) (f : Incoming) (waiters : List ℕ) → settled x (dispatch_handshake f waiters).1 ≡ 0
unfolding settled dispatch_handshake
dispatch_handshake-settled x f [] = refl
dispatch_handshake-settled x f (p ∷ waiters) = refl

dispatch-Keeps : (f : Incoming) (c : BridgeClient) → IsKeyed c.pending → Kept c (dispatch f c)
unfolding dispatch settled
dispatch-Keeps f c k = elim (Bool-cases (str_eq f.kind "welcome" || str_eq f.kind "authResult")) [
  | inl shake ↦ rw shake (
      Keeps-refl c.pending (dispatch_handshake f c.handshake_queue).1 k
        (λ x. dispatch_handshake-settled x f c.handshake_queue))
  | inr more ↦ rw more (elim (Bool-cases (str_eq f.kind "res")) [
    | inl response ↦ rw response (dispatch_response-Keeps f c.pending k)
    | inr further ↦ rw further (elim (Bool-cases (str_eq f.kind "evt")) [
      | inl event ↦ rw event (Keeps-refl c.pending _ k (λ x. refl))
      | inr other ↦ rw other (Keeps-refl c.pending [] k (λ x. refl))
    ])
  ])
]

module _ (w : Wire) (frame_limit : ℕ) where
  dispatch_frames-Keeps :
      (fuel : ℕ) (c : BridgeClient)
      → IsKeyed c.pending
      → Kept c (dispatch_frames w frame_limit fuel c)
  unfolding dispatch_frames settled
  dispatch_frames-Keeps zero c k = Keeps-refl c.pending [] k (λ x. refl)
  dispatch_frames-Keeps (suc fuel) c k =
      let d = (next w.utf8 c.decoder).0 in
      let c' : BridgeClient = record c { decoder = d } in
      elim (Option-cases (next w.utf8 c.decoder).1) [
        | inl drained ↦
            rw (drained, dispatch_frames)
              (elim (Bool-cases d.failed) [
                | inl failed ↦
                    rw failed (teardown-Keeps (Failure.plain "bridge frame decode error") c' k)
                | inr waits ↦ rw waits (Keeps-refl c.pending [] k (λ x. refl))
              ])
        | inr (text, framed) ↦
            rw (framed, dispatch_frames)
              (elim (Parsed-cases (w.parse text)) [
                | inl bad ↦ rw bad (teardown-Keeps (Failure.plain "bridge sent invalid JSON") c' k)
                | inr (inl null) ↦ rw null (Keeps-refl c.pending _ k (λ x. refl))
                | inr (inr (f, good)) ↦ rw good (
                    let first = dispatch-Keeps f c' k in
                    Keeps-trans c.pending (dispatch f c').0.pending _ _ _ first
                      (dispatch_frames-Keeps fuel (dispatch f c').0 first.keyed))
              ])
      ]

  on_data-Keeps :
      (chunk : List ℕ) (c : BridgeClient)
      → IsKeyed c.pending
      → Kept c (on_data w frame_limit chunk c)
  unfolding on_data
  on_data-Keeps chunk c k =
      let d = (push c.decoder chunk).0 in
      let c' : BridgeClient = record c { decoder = d } in
      elim (Bool-cases (push c.decoder chunk).1) [
        | inl ok ↦ rw ok (dispatch_frames-Keeps (suc d.buffered) c' k)
        | inr full ↦ rw full (teardown-Keeps (Failure.plain "bridge frame decode error") c' k)
      ]

  -- A request that is made enters the map or is rejected at once.
  request-Keeps :
      (p : ℕ) (r : Request) (c : BridgeClient)
      → IsKeyed c.pending
      → lookup r.id c.pending ≡ none
      → Keeps
          ((r.id, p) ∷ c.pending)
          (request w frame_limit p r c).0.pending
          (request w frame_limit p r c).1
  unfolding request settled waiting
  request-Keeps p r c k fresh = elim (Bool-cases (not c.connected || c.closed)) [
    | inl off ↦ rw off (record { keyed = k; balance = λ x. ground arith })
    | inr on ↦ rw on (elim (Option-cases (send w frame_limit (req r) c)) [
      | inl refused ↦
          rw (refused, request)
            (record {
              keyed =
                  IsKeyed-delete r.id (insert r.id p c.pending) (IsKeyed-insert r.id p c.pending k);
              balance = λ x. ground (arith, delete-insert r.id p c.pending fresh);
            })
      | inr (bytes, sent) ↦
          rw (sent, request)
            (record {
              keyed = IsKeyed-insert r.id p c.pending k;
              balance = λ x. ground (arith, waiting-insert x r.id p c.pending fresh);
            })
    ])
  ]

  request_timeout-Keeps :
      (id : String) (c : BridgeClient) → IsKeyed c.pending → Kept c (request_timeout id c)
  unfolding request_timeout settled waiting
  request_timeout-Keeps id c k = elim (Option-cases (lookup id c.pending)) [
    | inl gone ↦ rw (gone, request_timeout) (Keeps-refl c.pending [] k (λ x. refl))
    | inr (p, found) ↦
        rw (found, request_timeout) (settle-Keeps id p c.pending _ k found (λ x. refl))
  ]

  handshake-Keeps :
      (p : ℕ) (frame : Outgoing) (c : BridgeClient)
      → IsKeyed c.pending
      → Kept c (exchange_handshake w frame_limit p frame c)
  unfolding exchange_handshake settled
  handshake-Keeps p frame c k = elim (Option-cases (send w frame_limit frame c)) [
    | inl refused ↦ rw (refused, exchange_handshake) (Keeps-refl c.pending _ k (λ x. refl))
    | inr (bytes, sent) ↦ rw (sent, exchange_handshake) (Keeps-refl c.pending _ k (λ x. refl))
  ]

  handshake_timeout-Keeps :
      (p : ℕ) (c : BridgeClient) → IsKeyed c.pending → Kept c (handshake_timeout p c)
  unfolding handshake_timeout settled
  handshake_timeout-Keeps p c k = elim (Bool-cases (any (λ q. q == p) c.handshake_queue)) [
    | inl waits ↦ rw waits (Keeps-refl c.pending _ k (λ x. refl))
    | inr gone ↦ rw gone (Keeps-refl c.pending [] k (λ x. refl))
  ]

-- What a handler does with the requests that it is given.
handled :
    (w : Wire) (limit : ℕ) (e : Event) (c : BridgeClient) (x : ℕ)
    → IsKeyed c.pending
    → IsFresh w limit e c
    → IsKeyed (handle w limit e c).0.pending
      × (waiting x (handle w limit e c).0.pending + settled x (handle w limit e c).1
          ≡ waiting x c.pending + issued x (e ∷ []))
unfolding handle issued waiting settled
handled w limit (requested p r) c x k fresh =
    let kept = request-Keeps w limit p r c k fresh in (kept.keyed, ground (arith, kept.balance x))
handled w limit (received chunk) c x k fresh =
    let kept = on_data-Keeps w limit chunk c k in (kept.keyed, omega (arith, kept.balance x))
handled w limit (timed_out id) c x k fresh =
    let kept = request_timeout-Keeps w limit id c k in (kept.keyed, omega (arith, kept.balance x))
handled w limit (handshake_begun p frame) c x k fresh =
    let kept = handshake-Keeps w limit p frame c k in (kept.keyed, omega (arith, kept.balance x))
handled w limit (handshake_timed_out p) c x k fresh =
    let kept = handshake_timeout-Keeps w limit p c k in (kept.keyed, omega (arith, kept.balance x))
handled w limit socket_opened c x k fresh = (k, omega arith)
handled w limit (torn_down reason) c x k fresh =
    let kept = teardown-Keeps reason c k in (kept.keyed, omega (arith, kept.balance x))

issued-cons :
    (x : ℕ) (e : Event) (es : List Event) → issued x (e ∷ es) ≡ issued x (e ∷ []) + issued x es
unfolding issued
issued-cons x (requested p r) es = ground arith
issued-cons x (_) es = omega arith

-- Whatever happens in whatever order, as long as no request draws the id of one that is pending: a
-- promise is settled, or still waits, exactly as often as it waited at first or was given to a
-- request. So a request is settled once or is still pending, and is never lost or settled twice.
pub requests_settled :
    (w : Wire) (limit : ℕ) (events : List Event) (c : BridgeClient) (p : ℕ)
    → IsKeyed c.pending
    → IsFreshRun w limit events c
    → let (end, effects) = run w limit events c in
      IsKeyed end.pending
      × (waiting p end.pending + settled p effects ≡ waiting p c.pending + issued p events)
unfolding run IsFreshRun settled issued
requests_settled w limit [] c p k fresh = (k, refl)
requests_settled w limit (e ∷ es) c p k (fresh, later) =
    let (k', now) = handled w limit e c p k fresh in
    let c' = (handle w limit e c).0 in
    let (k'', rest) = requests_settled w limit es c' p k' later in
    (
      k'',
      omega (
        arith,
        now,
        rest,
        issued-cons p e es,
        settled-append p (handle w limit e c).1 (run w limit es c').1,
      ),
    )
