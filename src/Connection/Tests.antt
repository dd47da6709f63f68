-- ===== src/Connection/Tests.antt =====
-- The connection theorems with one running instance, whose handshake succeeds.
use vcv_rack_mcp.Prelude.{
  ◌≡◌, refl, inr, ◌⊎◌, any, String, true, false, List, [], ◌∷◌, none, some, arith,
}
use vcv_rack_mcp.Errors.{Thrown, ok, throw, retryable, rack_disconnected}
use vcv_rack_mcp.Framing.{new_decoder}
use vcv_rack_mcp.Client.{BridgeClient, WelcomeData}
use vcv_rack_mcp.Connection.{
  ConnectionManager, Surroundings, SelectedInstance, connect_to, ensure_lease, Operation, dropping,
  starting, acquired, closing, notified, Exchange, operate, operate_all, bridge_event, disconnect,
  lease_acquired,
}
use vcv_rack_mcp.Connection.Selection.{OpensConnected, Outcome, connect_to_cases}
use vcv_rack_mcp.Connection.Lease.{IsKeptOrLost, ends_lease, operate_all-lease, ensure_lease_cases}

abbrev welcome : WelcomeData
welcome = record {
  instance_id = "one";
  session_id = "s";
  bridge_version = "1";
  rack_version = "2";
  rack_edition = "free";
  patch_epoch = 1;
  nonce = "n";
}

abbrev session : BridgeClient
session = record {
  connected = true;
  closed = false;
  decoder = new_decoder 16;
  pending = [];
  handshake_queue = [];
  heartbeat = true;
  welcome_data = some welcome;
}

abbrev around : Surroundings
around = record {
  instances = record { instance_id = "one"; port = 1; pid = 2; stale = false } ∷ [];
  secret_readable = true;
  handshake = inr (session, welcome);
}

around_opens : OpensConnected around
unfolding OpensConnected
around_opens c w e = ground (arith, e)

abbrev initial : ConnectionManager
initial = record { user_notes_pending = false; client = none; selected = none; lease_id = none }

connect_to_cases_example : Outcome initial (connect_to around "one" initial)
connect_to_cases_example = connect_to_cases around around_opens "one" initial

-- A session with a lease, which the bridge's shutdown ends while it is renewed.
abbrev leased : ConnectionManager
leased = record initial { client = some session; lease_id = some "lease" }

abbrev renewing : Exchange (Unit {0})
renewing = record {
  around = around;
  resuming = [];
  meanwhile = notified "shutting_down" ∷ [];
  reply = throw (retryable rack_disconnected);
}

abbrev acquiring : Exchange String
acquiring = record {
  around = around;
  resuming = notified "user_note_pending" ∷ [];
  meanwhile = [];
  reply = ok "next";
}

ensure_lease_cases_example :
    let (m', result) = ensure_lease renewing acquiring leased in
    ((e : Thrown) × (result ≡ throw e) × (m'.lease_id ≡ none))
    ⊎ ((result ≡ ok tt)
        × (((id : String) × (acquiring.reply ≡ ok id) × (m'.lease_id ≡ some id))
            ⊎ ((id : String) × (leased.lease_id ≡ some id)
                × (renewing.reply ≡ ok tt)
                × IsKeptOrLost (some id) m'.lease_id)))
ensure_lease_cases_example =
    ensure_lease_cases renewing acquiring leased (record { resuming = refl; meanwhile = refl })
      (record { resuming = refl; meanwhile = refl })

abbrev chosen : SelectedInstance
chosen = record {
  instance_id = "one";
  session_id = "s";
  rack_version = "2";
  rack_edition = "free";
  port = 1;
  pid = 2;
}

abbrev working : List Operation
working = dropping ∷ notified "shutting_down" ∷ starting session chosen ∷ closing ∷ []

operate_all-lease_example :
    let m' = operate_all working leased in
    ((any ends_lease working ≡ true) × (m'.lease_id ≡ none))
    ⊎ ((any ends_lease working ≡ false) × (m'.lease_id ≡ some "lease"))
operate_all-lease_example = operate_all-lease working leased refl

-- A reply to `lease.acquire` that is taken up after the bridge has announced that it shuts down: a
-- lease is held, and there is no client.
abbrev late : ConnectionManager
late = operate_all (notified "shutting_down" ∷ acquired "late" ∷ []) leased

lease-late : (late.client ≡ none) × (late.lease_id ≡ some "late")
unfolding operate_all operate bridge_event disconnect lease_acquired
lease-late = (refl, refl)
