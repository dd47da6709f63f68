-- ===== src/Connection/Selection.antt =====
-- connection.ts: what a connect leaves behind, whether it succeeds or not.
use vcv_rack_mcp.Prelude.{
  ◌≡◌, refl, ◌⊎◌, inl, inr, String, true, false, not, none, some, str_eq, find, filter, Bool-cases,
  Option-cases, arith, subst, sym,
}
use vcv_rack_mcp.Errors.{Thrown, Result, ok, throw, Result-cases}
use vcv_rack_mcp.Client.{BridgeClient, WelcomeData}
use vcv_rack_mcp.Connection.{
  SelectedInstance, DiscoveredInstance, ConnectionManager, Surroundings, is_connected, disconnect,
  current, select_from, open_session, find_and_open, connect_to, only_live, auto_select,
  ensure_connected,
}

-- A handshake that succeeds leaves the new client connected.
unfoldable pub OpensConnected : Surroundings → Type 0
OpensConnected s =
    (c : BridgeClient) (w : WelcomeData) → s.handshake ≡ inr (c, w) → is_connected (some c) ≡ true

pub record IsDropped (m : ConnectionManager) : Type 0 where
  pub no_client : m.client ≡ none
  pub no_selection : m.selected ≡ none
  pub no_lease : m.lease_id ≡ none

-- Either it returns the instance that is now selected and connected, and a lease has not survived a
-- change of session; or it throws, and nothing has changed or nothing is left of the old session.
abbrev pub Outcome : ConnectionManager → ConnectionManager × Result SelectedInstance → Type 0
Outcome m (m', result) =
    ((i : SelectedInstance) × (result ≡ ok i)
      × (current m' ≡ some i)
      × ((m' ≡ m) ⊎ (m'.lease_id ≡ none)))
    ⊎ ((e : Thrown) × (result ≡ throw e) × ((m' ≡ m) ⊎ IsDropped m'))

pub Handshake-cases :
    (h : Thrown ⊎ (BridgeClient × WelcomeData))
    → ((e : Thrown) × (h ≡ inl e)) ⊎ ((c : BridgeClient) × (w : WelcomeData) × (h ≡ inr (c, w)))
Handshake-cases (inl e) = inl (e, refl)
Handshake-cases (inr (c, w)) = inr (c, w, refl)

module _ (s : Surroundings) (opens : OpensConnected s) where
  open_session_cases :
      (found : DiscoveredInstance) (m : ConnectionManager) → Outcome m (open_session s found m)
  unfolding open_session disconnect current OpensConnected
  open_session_cases found m = elim (Bool-cases s.secret_readable) [
    | inr locked ↦
        rw locked
          (inr (_, refl, inr (record { no_client = refl; no_selection = refl; no_lease = refl })))
    | inl readable ↦ rw readable (elim (Handshake-cases s.handshake) [
      | inl (e, failed) ↦
          rw (failed, open_session)
            (inr (e, refl, inr (record { no_client = refl; no_selection = refl; no_lease = refl })))
      | inr (c, w, shaken) ↦
          let up = opens c w shaken in
          rw (shaken, open_session) (inl (select_from w found, refl, rw up refl, inr refl))
    ])
  ]

  opened :
      (id : String) (found : DiscoveredInstance) (m : ConnectionManager)
      → find (λ i. str_eq i.instance_id id) s.instances ≡ some found
      → found.stale ≡ false
      → find_and_open s id m ≡ open_session s found m
  unfolding find_and_open
  opened id found m there live = rw (there, find_and_open) (rw live refl)

  find_and_open_cases : (id : String) (m : ConnectionManager) → Outcome m (find_and_open s id m)
  unfolding find_and_open
  find_and_open_cases id m = elim (Option-cases (find (λ i. str_eq i.instance_id id) s.instances)) [
    | inl missing ↦ rw (missing, find_and_open) (inr (_, refl, inl refl))
    | inr (found, there) ↦ elim (Bool-cases found.stale) [
      | inl stale ↦ rw (there, find_and_open) (rw stale (inr (_, refl, inl refl)))
      | inr live ↦
          subst (Outcome m) (sym (opened id found m there live)) (open_session_cases found m)
    ]
  ]

  -- For handshakes that leave a connected client: connecting to an instance either returns the
  -- instance that is then selected and connected, and a lease of an earlier session is gone, or
  -- throws and has changed nothing, or throws and has left no client, selection or lease.
  pub connect_to_cases : (id : String) (m : ConnectionManager) → Outcome m (connect_to s id m)
  unfolding connect_to
  connect_to_cases id m = elim (Option-cases (current m)) [
    | inl away ↦ rw (away, connect_to) (find_and_open_cases id m)
    | inr (i, here) ↦
        rw (here, connect_to)
          (elim (Bool-cases (str_eq i.instance_id id)) [
            | inl same ↦ rw same (inl (i, refl, here, inl refl))
            | inr different ↦ rw different (find_and_open_cases id m)
          ])
  ]

  auto_select_cases : (m : ConnectionManager) → Outcome m (auto_select s m)
  unfolding auto_select
  auto_select_cases m = elim (Result-cases (only_live (filter (λ i. not i.stale) s.instances))) [
    | inl (e, unclear) ↦ rw (unclear, auto_select) (inr (e, refl, inl refl))
    | inr (i, only) ↦ rw (only, auto_select) (connect_to_cases i.instance_id m)
  ]

  unselected : (m : ConnectionManager) → m.selected ≡ none → ensure_connected s m ≡ auto_select s m
  unfolding ensure_connected
  unselected m free = ground (arith, free)

  reselected :
      (m : ConnectionManager) (i : SelectedInstance)
      → m.selected ≡ some i
      → is_connected m.client ≡ false
      → ensure_connected s m ≡ connect_to s i.instance_id m
  unfolding ensure_connected
  reselected m i chosen down = ground (arith, chosen, down)

  connected_still :
      (m : ConnectionManager) (i : SelectedInstance)
      → m.selected ≡ some i
      → is_connected m.client ≡ true
      → ensure_connected s m ≡ (m, ok i)
  unfolding ensure_connected
  connected_still m i chosen up = ground (arith, chosen, up)

  pub ensure_connected_cases : (m : ConnectionManager) → Outcome m (ensure_connected s m)
  unfolding current
  ensure_connected_cases m = elim (Option-cases m.selected) [
    | inl free ↦ subst (Outcome m) (sym (unselected m free)) (auto_select_cases m)
    | inr (i, chosen) ↦ elim (Bool-cases (is_connected m.client)) [
      | inl up ↦
          let now : current m ≡ some i = rw up chosen in
          subst (Outcome m) (sym (connected_still m i chosen up)) (inl (i, refl, now, inl refl))
      | inr down ↦
          subst (Outcome m) (sym (reselected m i chosen down)) (connect_to_cases i.instance_id m)
    ]
  ]
