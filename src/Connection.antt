-- ===== src/Connection.antt =====
-- apps/mcp-server/src/connection.ts: the selected Rack instance, its session and its writer lease.
-- What the outside answers is an argument: the discovered instances and the pairing secret of a
-- connect, the outcome of its handshake, and the bridge's reply to a request. What runs while a
-- request waits is an argument too, as a list of steps. A request's own connect, which the source
-- serialises by a lock, is one step; what runs during its handshake, and the wait for the command
-- pump, are left out.
pub mod Lease
pub mod Selection
mod Tests
use vcv_rack_mcp.Prelude.{
  ℕ, ◌≡◌, ◌⊎◌, inl, inr, String, Bool, true, false, not, List, [], ◌∷◌, Option, none, some, str_eq,
  find, filter, ◌&&◌, if◌then◌else◌,
}
use vcv_rack_mcp.Errors.{
  Thrown, tool, other, bridge, Result, ok, throw, tool_error, retryable, rack_not_found,
  rack_disconnected, authentication_failed, instance_not_selected,
}
use vcv_rack_mcp.Operations.{Json}
use vcv_rack_mcp.Client.{BridgeClient, WelcomeData, Effect, Failure, plain, teardown}

pub record SelectedInstance : Type 0 where
  pub instance_id : String
  pub session_id : String
  pub rack_version : String
  pub rack_edition : String
  pub port : ℕ
  pub pid : ℕ

-- An instance that `scanInstances` reports.
pub record DiscoveredInstance : Type 0 where
  pub instance_id : String
  pub port : ℕ
  pub pid : ℕ
  pub stale : Bool

-- A lease id of the bridge is not empty, so that `!this.leaseId` is that there is none.
pub record ConnectionManager : Type 0 where
  pub user_notes_pending : Bool
  pub client : Option BridgeClient
  pub selected : Option SelectedInstance
  pub lease_id : Option String

-- What a connect finds: the instances, whether the secret can be read, and what the handshake with a
-- new client comes to.
pub record Surroundings : Type 0 where
  pub instances : List DiscoveredInstance
  pub secret_readable : Bool
  pub handshake : Thrown ⊎ (BridgeClient × WelcomeData)

-- `client?.isConnected ?? false`
abbrev pub is_connected : Option BridgeClient → Bool
is_connected none = false
is_connected (some c) = c.connected && not c.closed

unfoldable pub disconnect : ConnectionManager → ConnectionManager
disconnect m = record m { client = none; lease_id = none }

-- The instance that a call can go to without connecting.
unfoldable pub current : ConnectionManager → Option SelectedInstance
current m = if is_connected m.client then m.selected else none

abbrev pub select_from : WelcomeData → DiscoveredInstance → SelectedInstance
select_from w found = record {
  instance_id = w.instance_id;
  session_id = w.session_id;
  rack_version = w.rack_version;
  rack_edition = w.rack_edition;
  port = found.port;
  pid = found.pid;
}

-- The two parts of `connectTo` that change the state: before its handshake, and after it.
abbrev pub drop_session : ConnectionManager → ConnectionManager
drop_session m = record (disconnect m) { selected = none }

abbrev pub start_session : BridgeClient → SelectedInstance → ConnectionManager → ConnectionManager
start_session c i m = record m { client = some c; selected = some i }

-- `connectTo` from where the old session is dropped.
unfoldable pub open_session :
    Surroundings
    → DiscoveredInstance
    → ConnectionManager
    → ConnectionManager × Result SelectedInstance
open_session s found m =
    let dropped = drop_session m in
    if not s.secret_readable
    then (dropped, throw (tool_error authentication_failed))
    else elim s.handshake [
      | inl e ↦ (dropped, throw e)
      | inr (c, w) ↦ (start_session c (select_from w found) dropped, ok (select_from w found))
    ]

unfoldable pub find_and_open :
    Surroundings → String → ConnectionManager → ConnectionManager × Result SelectedInstance
find_and_open s id m = elim (find (λ i. str_eq i.instance_id id) s.instances) [
  | none ↦ (m, throw (retryable rack_not_found))
  | some found ↦
      if found.stale then (m, throw (retryable rack_disconnected)) else open_session s found m
]

unfoldable pub connect_to :
    Surroundings → String → ConnectionManager → ConnectionManager × Result SelectedInstance
connect_to s id m = elim (current m) [
  | none ↦ find_and_open s id m
  | some i ↦ if str_eq i.instance_id id then (m, ok i) else find_and_open s id m
]

unfoldable pub only_live : List DiscoveredInstance → Result DiscoveredInstance
only_live [] = throw (retryable rack_not_found)
only_live (i ∷ []) = ok i
only_live (i ∷ j ∷ is) = throw (tool_error instance_not_selected)

unfoldable pub auto_select :
    Surroundings → ConnectionManager → ConnectionManager × Result SelectedInstance
auto_select s m = elim (only_live (filter (λ i. not i.stale) s.instances)) [
  | throw e ↦ (m, throw e)
  | ok i ↦ connect_to s i.instance_id m
]

unfoldable pub ensure_connected :
    Surroundings → ConnectionManager → ConnectionManager × Result SelectedInstance
ensure_connected s m = elim m.selected [
  | none ↦ auto_select s m
  | some i ↦ if is_connected m.client then (m, ok i) else connect_to s i.instance_id m
]

-- The `onClose` hook of the current client.
unfoldable pub session_closed : ConnectionManager → ConnectionManager
session_closed m = record m { client = none; lease_id = none }

unfoldable pub bridge_event : String → ConnectionManager → ConnectionManager
bridge_event event m =
    let m' = if str_eq event "shutting_down" then disconnect m else m in
    if str_eq event "user_note_pending" then record m' { user_notes_pending = true } else m'

-- `this.leaseId = res.leaseId` and `this.leaseId = null`, which follow an await.
unfoldable pub lease_acquired : String → ConnectionManager → ConnectionManager
lease_acquired id m = record m { lease_id = some id }

unfoldable pub lease_dropped : ConnectionManager → ConnectionManager
lease_dropped m = record m { lease_id = none }

-- What the event loop can run while a request waits: a part of another call's connect, the
-- continuation of another lease request, a hook of a client, or `disconnect`.
pub data Operation : Type 0 where
  dropping : Operation
  starting : BridgeClient → SelectedInstance → Operation
  acquired : (id : String) → Operation
  dropped closing disconnecting : Operation
  notified : (event : String) → Operation

unfoldable pub operate : Operation → ConnectionManager → ConnectionManager
operate dropping m = drop_session m
operate (starting c i) m = start_session c i m
operate (acquired id) m = lease_acquired id m
operate dropped m = lease_dropped m
operate closing m = session_closed m
operate disconnecting m = disconnect m
operate (notified event) m = bridge_event event m

unfoldable pub operate_all : List Operation → ConnectionManager → ConnectionManager
operate_all [] m = m
operate_all (op ∷ ops) m = operate_all ops (operate op m)

-- The course of a request: what a connect finds, what runs before the request goes on once it is
-- connected, what runs until its reply has been handed over, and the reply.
pub record Exchange (A : Type 0) : Type 0 where
  pub around : Surroundings
  pub resuming : List Operation
  pub meanwhile : List Operation
  pub reply : Result A

unfoldable pub request :
    {A : Type 0} → Exchange A → ConnectionManager → ConnectionManager × Result A
request x m =
    let (m', connected) = ensure_connected x.around m in
    let resumed = operate_all x.resuming m' in
    elim connected [
      | throw e ↦ (m', throw e)
      | ok i ↦ elim resumed.client [
        | none ↦ (resumed, throw (retryable rack_disconnected))
        | some c ↦ (operate_all x.meanwhile resumed, x.reply)
      ]
    ]

unfoldable pub acquire_lease :
    Exchange String → ConnectionManager → ConnectionManager × Result String
acquire_lease x m =
    let (m', got) = request x m in
    elim got [ throw e ↦ (m', throw e) | ok id ↦ (lease_acquired id m', ok id) ]

unfoldable pub release_lease :
    Exchange (Unit {0}) → ConnectionManager → ConnectionManager × Result Bool
release_lease x m = elim m.lease_id [
  | none ↦ (m, ok false)
  | some id ↦
      let (m', released) = request x m in
      elim released [ throw e ↦ (m', throw e) | ok u ↦ (lease_dropped m', ok true) ]
]

-- The awaited acquisition, whose result is not returned.
unfoldable pub acquire_and_forget :
    Exchange String → ConnectionManager → ConnectionManager × Result (Unit {0})
acquire_and_forget x m =
    let (m', got) = acquire_lease x m in elim got [ throw e ↦ (m', throw e) | ok id ↦ (m', ok tt) ]

-- A renewal that fails for whatever reason is followed by a fresh acquisition.
unfoldable pub ensure_lease :
    (renewal : Exchange (Unit {0}))
    → (acquisition : Exchange String) → ConnectionManager
    → ConnectionManager × Result (Unit {0})
ensure_lease renewal acquisition m = elim m.lease_id [
  | none ↦ acquire_and_forget acquisition m
  | some id ↦
      let (m', renewed) = request renewal m in
      elim renewed [
        | ok u ↦ (m', ok tt)
        | throw e ↦ acquire_and_forget acquisition (lease_dropped m')
      ]
]
