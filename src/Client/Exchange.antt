-- ===== src/Client/Exchange.antt =====
-- client.ts: a request with its response, and the negotiation of the protocol version.
use vcv_rack_mcp.Prelude.{
  ℕ, zero, suc, ◌+◌, ◌-◌, ◌≤◌, ◌<◌, ◌≡◌, refl, ◌⊎◌, inl, inr, ◌↔◌, true, false, List, [], ◌∷◌, none,
  some, Bool-cases, str_eq, eq_iff, arith, ◌||◌, not, any, ◌==◌, lookup, lookup-insert_self,
}
use vcv_rack_mcp.Client.{
  BridgeClient, Incoming, Request, Wire, Failure, wrote, answer, req, request, send, dispatch,
  dispatch_response, teardown, protocol_version_range, count_up,
}
use vcv_rack_mcp.Client.Pending.{delete-insert}
use vcv_rack_mcp.Client.Closing.{IsClosed}
use vcv_rack_mcp.Client.Handshake.{connected_with, refuse, supported_protocol_versions}

-- On a connected client, a request with an id that is not pending and a frame within the limit
-- writes that frame and settles nothing; the response with its id then settles its promise alone,
-- with the payload or the error that the response carries, and leaves the client as it was before.
pub dispatch-request :
    (w : Wire) (limit : ℕ) (p : ℕ) (r : Request) (c : BridgeClient) (bytes : List ℕ) (f : Incoming)
    → c.connected ≡ true
    → c.closed ≡ false
    → lookup r.id c.pending ≡ none
    → send w limit (req r) c ≡ some bytes
    → f.kind ≡ "res"
    → f.id ≡ some r.id
    → let (c', sent) = request w limit p r c in
      (sent ≡ wrote bytes ∷ []) × (dispatch f c' ≡ (c, answer p f ∷ []))
unfolding request dispatch dispatch_response
dispatch-request w limit p r c bytes f on open_ fresh sent kind id =
    let up : (not c.connected || c.closed) ≡ false = ground (arith, on, open_) in
    let found = lookup-insert_self r.id p c.pending in
    let gone = delete-insert r.id p c.pending fresh in
    rw up (rw (sent, request) (refl, rw (kind, id) (rw (found, dispatch_response) (rw gone refl))))

count_up-any :
    (v from n : ℕ) → (any (λ x. x == v) (count_up from n) ≡ true) ↔ ((from ≤ v) × (v < from + n))
unfolding count_up
count_up-any v from zero = (λ e. absurd (ground arith), λ h. absurd (omega arith))
count_up-any v from (suc n) = ground (arith, count_up-any v (suc from) n)

-- The range holds exactly the versions from the oldest to the newest, both included.
pub protocol_version_range-any :
    (v min max : ℕ)
    → (any (λ x. x == v) (protocol_version_range min max) ≡ true) ↔ ((min ≤ v) × (v ≤ max))
unfolding protocol_version_range
protocol_version_range-any v min max = ground (arith, count_up-any v min (max - min + 1))

-- The client and the bridge agree on a version that this client speaks.
abbrev pub IsWelcome : Incoming → Type 0
IsWelcome f = (f.kind ≡ "welcome") × (f.version ≡ 1)

-- The frame that answers the hello decides: a welcome with a version that the client offered is
-- accepted and remembered, with no effect on the connection; on anything else `connect` throws and
-- leaves an open client closed.
pub connected_with_cases :
    (f : Incoming) (c : BridgeClient)
    → c.closed ≡ false
    → let (c', effects, result) = connected_with f c in
      (IsWelcome f
        × (c' ≡ record c { welcome_data = some f.welcome })
        × (effects ≡ [])
        × (result ≡ inr f.welcome))
      ⊎ (¬ (IsWelcome f) × IsClosed c' × ((e : Failure) × (result ≡ inl e)))
unfolding connected_with refuse teardown count_up protocol_version_range
connected_with_cases f c up = elim (Bool-cases (str_eq f.kind "welcome")) [
  | inr other ↦
      rw (other, up)
        (inr (
          λ w. ground (arith, other, eq_iff f.kind "welcome", w.0),
          record { shut = refl; off = refl; none_pending = refl; none_waiting = refl },
          (_, refl),
        ))
  | inl welcome ↦
      rw (welcome, up)
        (elim (Bool-cases (any (λ v. v == f.version) supported_protocol_versions)) [
          | inl offered ↦ rw offered (
              inl (
                (ground (arith, welcome, eq_iff f.kind "welcome"), ground (arith, offered)),
                refl,
                refl,
                refl,
              ))
          | inr foreign ↦ rw foreign (
              inr (
                λ w. ground (arith, foreign, w.1),
                record { shut = refl; off = refl; none_pending = refl; none_waiting = refl },
                (_, refl),
              ))
        ])
]
