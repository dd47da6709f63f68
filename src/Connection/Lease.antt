-- ===== src/Connection/Lease.antt =====
-- connection.ts: where the writer lease comes from, and what ends it.
use vcv_rack_mcp.Prelude.{
  ◌≡◌, refl, ◌⊎◌, inl, inr, String, Bool, true, false, not, List, [], ◌∷◌, Option, none, some, any,
  find, filter, str_eq, Bool-cases, Option-cases, arith, subst, sym, ◌∙◌,
}
use vcv_rack_mcp.Errors.{Thrown, Result, ok, throw, Result-cases}
use vcv_rack_mcp.Connection.{
  DiscoveredInstance, ConnectionManager, Surroundings, Operation, acquired, dropped, dropping,
  starting, closing, disconnecting, notified, Exchange, is_connected, disconnect, current,
  open_session, find_and_open, connect_to, only_live, auto_select, ensure_connected, session_closed,
  bridge_event, lease_acquired, lease_dropped, operate, operate_all, request, acquire_lease,
  acquire_and_forget, ensure_lease,
}
use vcv_rack_mcp.Connection.Selection.{Handshake-cases}

-- The lease is the one from before, or is gone.
abbrev pub IsKeptOrLost : (before after : Option String) → Type 0
IsKeptOrLost before after = (after ≡ before) ⊎ (after ≡ none)

IsKeptOrLost-trans :
    (a b c : Option String) → IsKeptOrLost a b → IsKeptOrLost b c → IsKeptOrLost a c
IsKeptOrLost-trans a b c (inl same) (inl kept) = inl (kept ∙ same)
IsKeptOrLost-trans a b c (inr gone) (inl kept) = inr (kept ∙ gone)
IsKeptOrLost-trans a b c first (inr gone) = inr gone

abbrev Loses : ConnectionManager → ConnectionManager → Type 0
Loses m m' = IsKeptOrLost m.lease_id m'.lease_id

module _ (s : Surroundings) where
  open_session-lease :
      (found : DiscoveredInstance) (m : ConnectionManager)
      → (open_session s found m).0.lease_id ≡ none
  unfolding open_session disconnect
  open_session-lease found m = elim (Bool-cases s.secret_readable) [
    | inr locked ↦ rw locked refl
    | inl readable ↦ rw readable (elim (Handshake-cases s.handshake) [
      | inl (e, failed) ↦ rw (failed, open_session) refl
      | inr (c, w, shaken) ↦ rw (shaken, open_session) refl
    ])
  ]

  opened :
      (id : String) (found : DiscoveredInstance) (m : ConnectionManager)
      → find (λ i. str_eq i.instance_id id) s.instances ≡ some found
      → found.stale ≡ false
      → find_and_open s id m ≡ open_session s found m
  unfolding find_and_open
  opened id found m there live = ground (arith, there, live)

  find_and_open-Loses : (id : String) (m : ConnectionManager) → Loses m (find_and_open s id m).0
  unfolding find_and_open
  find_and_open-Loses id m = elim (Option-cases (find (λ i. str_eq i.instance_id id) s.instances)) [
    | inl missing ↦ rw (missing, find_and_open) (inl refl)
    | inr (found, there) ↦ elim (Bool-cases found.stale) [
      | inl stale ↦ rw (there, find_and_open) (rw stale (inl refl))
      | inr live ↦
          subst (λ r. Loses m r.0) (sym (opened id found m there live))
            (inr (open_session-lease found m))
    ]
  ]

  connect_to-Loses : (id : String) (m : ConnectionManager) → Loses m (connect_to s id m).0
  unfolding connect_to
  connect_to-Loses id m = elim (Option-cases (current m)) [
    | inl away ↦ rw (away, connect_to) (find_and_open-Loses id m)
    | inr (i, here) ↦
        rw (here, connect_to)
          (elim (Bool-cases (str_eq i.instance_id id)) [
            | inl same ↦ rw same (inl refl)
            | inr different ↦ rw different (find_and_open-Loses id m)
          ])
  ]

  auto_select-Loses : (m : ConnectionManager) → Loses m (auto_select s m).0
  unfolding auto_select
  auto_select-Loses m = elim (Result-cases (only_live (filter (λ i. not i.stale) s.instances))) [
    | inl (e, unclear) ↦ rw (unclear, auto_select) (inl refl)
    | inr (i, only) ↦ rw (only, auto_select) (connect_to-Loses i.instance_id m)
  ]

  ensure_connected-Loses : (m : ConnectionManager) → Loses m (ensure_connected s m).0
  unfolding ensure_connected
  ensure_connected-Loses m = elim (Option-cases m.selected) [
    | inl free ↦ rw (free, ensure_connected) (auto_select-Loses m)
    | inr (i, chosen) ↦
        rw (chosen, ensure_connected)
          (elim (Bool-cases (is_connected m.client)) [
            | inl up ↦ rw up (inl refl)
            | inr down ↦ rw down (connect_to-Loses i.instance_id m)
          ])
  ]

-- The step that takes up the reply to a `lease.acquire`.
abbrev pub is_acquisition : Operation → Bool
is_acquisition (acquired id) = true
is_acquisition _ = false

-- The steps that end a lease: its release or a failed renewal, a new connect, a close, a disconnect,
-- and the bridge's notice that it shuts down.
abbrev pub ends_lease : Operation → Bool
ends_lease dropped = true
ends_lease dropping = true
ends_lease closing = true
ends_lease disconnecting = true
ends_lease (notified event) = str_eq event "shutting_down"
ends_lease _ = false

bridge_event-lease :
    (event : String) (m : ConnectionManager)
    → str_eq event "shutting_down" ≡ false
    → (bridge_event event m).lease_id ≡ m.lease_id
unfolding bridge_event
bridge_event-lease event m other = ground (arith, other)

operate_keeps :
    (op : Operation) (m : ConnectionManager)
    → is_acquisition op ≡ false
    → ends_lease op ≡ false
    → (operate op m).lease_id ≡ m.lease_id
unfolding operate
operate_keeps dropping m other on = absurd (cc)
operate_keeps (starting c i) m other on = refl
operate_keeps (acquired id) m other on = absurd (cc)
operate_keeps dropped m other on = absurd (cc)
operate_keeps closing m other on = absurd (cc)
operate_keeps disconnecting m other on = absurd (cc)
operate_keeps (notified event) m other on = bridge_event-lease event m on

operate_ends :
    (op : Operation) (m : ConnectionManager) → ends_lease op ≡ true → (operate op m).lease_id ≡ none
unfolding operate lease_dropped session_closed disconnect bridge_event
operate_ends dropping m ends = refl
operate_ends (starting c i) m ends = absurd (cc)
operate_ends (acquired id) m ends = absurd (cc)
operate_ends dropped m ends = refl
operate_ends closing m ends = refl
operate_ends disconnecting m ends = refl
operate_ends (notified event) m ends = ground (arith, ends)

-- A lease comes only from a reply to `lease.acquire`, and what ends it is known. Over whatever other
-- steps, in whatever order: if one of them releases the lease, fails to renew it, begins a connect,
-- closes the session, disconnects or is the bridge's notice that it shuts down, no lease is held; if
-- none is, the lease is the one from before.
pub operate_all-lease :
    (ops : List Operation) (m : ConnectionManager)
    → any is_acquisition ops ≡ false
    → let m' = operate_all ops m in
      ((any ends_lease ops ≡ true) × (m'.lease_id ≡ none))
      ⊎ ((any ends_lease ops ≡ false) × (m'.lease_id ≡ m.lease_id))
unfolding operate_all
operate_all-lease [] m none_acquired = inr (refl, refl)
operate_all-lease (op ∷ ops) m none_acquired =
    elim (operate_all-lease ops (operate op m) (ground (arith, none_acquired))) [
      | inl (ended, gone) ↦ inl (ground (arith, ended), gone)
      | inr (on, kept) ↦ elim (Bool-cases (ends_lease op)) [
        | inl now ↦ inl (ground (arith, now), kept ∙ operate_ends op m now)
        | inr not_now ↦ inr (
          ground (arith, on, not_now),
          kept ∙ operate_keeps op m (ground (arith, none_acquired)) not_now,
        )
      ]
    ]

operate_all-Loses :
    (ops : List Operation) (m : ConnectionManager)
    → any is_acquisition ops ≡ false
    → Loses m (operate_all ops m)
operate_all-Loses ops m none_acquired = elim (operate_all-lease ops m none_acquired) [
  | inl (ended, gone) ↦ inr gone
  | inr (on, kept) ↦ inl kept
]

-- Nothing that runs while the request waits takes up another acquisition.
pub record IsAlone {A : Type 0} (x : Exchange A) : Type 0 where
  pub resuming : any is_acquisition x.resuming ≡ false
  pub meanwhile : any is_acquisition x.meanwhile ≡ false

-- A request changes the lease at most by losing it, and what it returns, if anything, is the reply.
request_lem :
    {A : Type 0} (x : Exchange A) (m : ConnectionManager)
    → IsAlone x
    → Loses m (request x m).0
      × (((e : Thrown) × ((request x m).1 ≡ throw e)) ⊎ ((request x m).1 ≡ x.reply))
unfolding request
request_lem x m alone =
    let m' = (ensure_connected x.around m).0 in
    let resumed = operate_all x.resuming m' in
    let first = ensure_connected-Loses x.around m in
    let second =
      IsKeptOrLost-trans m.lease_id m'.lease_id resumed.lease_id first
        (operate_all-Loses x.resuming m' alone.resuming) in
    elim (Result-cases (ensure_connected x.around m).1) [
      | inl (e, failed) ↦ rw (failed, request) (first, inl (e, refl))
      | inr (i, there) ↦
          rw (there, request)
            (elim (Option-cases resumed.client) [
              | inl gone ↦ rw (gone, request) (second, inl (_, refl))
              | inr (c, open_) ↦
                  rw (open_, request)
                    (
                      IsKeptOrLost-trans m.lease_id resumed.lease_id _ second
                          (operate_all-Loses x.meanwhile resumed alone.meanwhile),
                      inr refl,
                    )
            ])
    ]

-- What an acquisition leaves where no lease was held: the lease that it got, or none.
abbrev Acquired : Exchange String → ConnectionManager × Result (Unit {0}) → Type 0
Acquired x (m', result) =
    ((e : Thrown) × (result ≡ throw e) × (m'.lease_id ≡ none))
    ⊎ ((result ≡ ok tt) × ((id : String) × (x.reply ≡ ok id) × (m'.lease_id ≡ some id)))

module _ (x : Exchange String) (m : ConnectionManager) where
  acquisition_failed :
      (e : Thrown) → (request x m).1 ≡ throw e → acquire_and_forget x m ≡ ((request x m).0, throw e)
  unfolding acquire_and_forget acquire_lease
  acquisition_failed e failed = ground (arith, failed)

  acquisition_done :
      (id : String)
      → (request x m).1 ≡ ok id
      → acquire_and_forget x m ≡ (lease_acquired id (request x m).0, ok tt)
  unfolding acquire_and_forget acquire_lease
  acquisition_done id got = ground (arith, got)

  acquire_and_forget_lem : IsAlone x → m.lease_id ≡ none → Acquired x (acquire_and_forget x m)
  unfolding lease_acquired
  acquire_and_forget_lem alone free =
      let (loses, replied) = request_lem x m alone in
      elim (Result-cases (request x m).1) [
        | inl (e, failed) ↦
            subst (Acquired x) (sym (acquisition_failed e failed))
              (inl (e, refl, elim loses [ inl kept ↦ kept ∙ free | inr gone ↦ gone ]))
        | inr (id, got) ↦ subst (Acquired x) (sym (acquisition_done id got)) (
            inr (
              refl,
              (
                id,
                elim replied [
                  | inl (e, failed) ↦ absurd (ground (arith, failed, got))
                  | inr same ↦ sym same ∙ got
                ],
                refl,
              ),
            ))
      ]

-- What `ensureLease` leaves.
abbrev Ensured :
    (renewal : Exchange (Unit {0})) (acquisition : Exchange String)
    → ConnectionManager
    → ConnectionManager × Result (Unit {0})
    → Type 0
Ensured renewal acquisition m (m', result) =
    ((e : Thrown) × (result ≡ throw e) × (m'.lease_id ≡ none))
    ⊎ ((result ≡ ok tt)
        × (((id : String) × (acquisition.reply ≡ ok id) × (m'.lease_id ≡ some id))
            ⊎ ((id : String) × (m.lease_id ≡ some id)
                × (renewal.reply ≡ ok tt)
                × IsKeptOrLost (some id) m'.lease_id)))

Acquired-Ensured :
    (renewal : Exchange (Unit {0})) (acquisition : Exchange String) (m : ConnectionManager)
    (r : ConnectionManager × Result (Unit {0}))
    → Acquired acquisition r
    → Ensured renewal acquisition m r
Acquired-Ensured renewal acquisition m r (inl failed) = inl failed
Acquired-Ensured renewal acquisition m r (inr (done, got)) = inr (done, inl got)

module _ (renewal : Exchange (Unit {0})) (acquisition : Exchange String)
    (m : ConnectionManager) where
  lease_free :
      m.lease_id ≡ none → ensure_lease renewal acquisition m ≡ acquire_and_forget acquisition m
  unfolding ensure_lease
  lease_free free = ground (arith, free)

  lease_renewed :
      (id : String)
      → m.lease_id ≡ some id
      → (u : Unit {0}) → (request renewal m).1 ≡ ok u
      → ensure_lease renewal acquisition m ≡ ((request renewal m).0, ok tt)
  unfolding ensure_lease
  lease_renewed id held u sent = ground (arith, held, sent)

  lease_lost :
      (id : String)
      → m.lease_id ≡ some id
      → (e : Thrown) → (request renewal m).1 ≡ throw e
      → ensure_lease renewal acquisition m
        ≡ acquire_and_forget acquisition (lease_dropped (request renewal m).0)
  unfolding ensure_lease
  lease_lost id held e failed = ground (arith, held, failed)

-- Where a connect of its own is one step and no other acquisition is taken up meanwhile, whatever else
-- runs while `ensureLease` waits: if it throws, no lease is held; if it returns, the lease of its own acquisition is held, or
-- the renewal of the lease that was held has succeeded, and that lease is still held or has been lost
-- since.
pub ensure_lease_cases :
    (renewal : Exchange (Unit {0})) (acquisition : Exchange String) (m : ConnectionManager)
    → IsAlone renewal
    → IsAlone acquisition
    → let (m', result) = ensure_lease renewal acquisition m in
      ((e : Thrown) × (result ≡ throw e) × (m'.lease_id ≡ none))
      ⊎ ((result ≡ ok tt)
          × (((id : String) × (acquisition.reply ≡ ok id) × (m'.lease_id ≡ some id))
              ⊎ ((id : String) × (m.lease_id ≡ some id)
                  × (renewal.reply ≡ ok tt)
                  × IsKeptOrLost (some id) m'.lease_id)))
unfolding lease_dropped
ensure_lease_cases renewal acquisition m alone alone' = elim (Option-cases m.lease_id) [
  | inl free ↦ subst (Ensured renewal acquisition m) (sym (lease_free renewal acquisition m free)) (
      Acquired-Ensured renewal acquisition m (acquire_and_forget acquisition m)
        (acquire_and_forget_lem acquisition m alone' free))
  | inr (id, held) ↦
      let (loses, replied) = request_lem renewal m alone in
      elim (Result-cases (request renewal m).1) [
        | inl (e, failed) ↦
            subst (Ensured renewal acquisition m)
              (sym (lease_lost renewal acquisition m id held e failed))
              (Acquired-Ensured renewal acquisition m
                (acquire_and_forget acquisition (lease_dropped (request renewal m).0))
                (acquire_and_forget_lem acquisition (lease_dropped (request renewal m).0) alone'
                  refl))
        | inr (u, sent) ↦
            subst (Ensured renewal acquisition m)
              (sym (lease_renewed renewal acquisition m id held u sent))
              (inr (
                refl,
                inr (
                  id,
                  held,
                  elim replied [
                    | inl (e, failed) ↦ absurd (ground (arith, failed, sent))
                    | inr same ↦ sym same ∙ sent
                  ],
                  elim loses [ inl kept ↦ inl (kept ∙ held) | inr gone ↦ inr gone ],
                ),
              ))
      ]
]
