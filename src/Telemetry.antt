-- ===== src/Telemetry.antt =====
-- apps/mcp-server/src/telemetry.ts: probes are attached and detached through plans of the transaction
-- manager. Snapshots and replies of the bridge are arguments. `listProbes` and `readProbe` only pass
-- the bridge's reply on.
pub mod Attach
pub mod Detach
pub mod Slots
pub mod Reports
pub mod Attached
mod Tests
use vcv_rack_mcp.Prelude.{
  ℕ, zero, suc, ◌≡◌, String, Bool, true, false, not, List, [], ◌∷◌, ◌++◌, map, Option, none, some,
  str_eq, leb, ◌==◌, find, filter, length, ◌&&◌, if◌then◌else◌, lookup, insert, delete,
}
use vcv_rack_mcp.Errors.{Thrown, Result, ok, throw, tool_error, telemetry_unavailable}
use vcv_rack_mcp.Operations.{
  Json, ModuleRef, module_id, alias, PortRef, input, output, AddModule, auto, PatchOperation,
  add_module, connect, disconnect_port, replace_all, all_cables,
}
use vcv_rack_mcp.Connection.{SelectedInstance}
use vcv_rack_mcp.Transactions.{TransactionManager, Signer}
use vcv_rack_mcp.Transactions.Preview.{PreviewReply, PreviewResult, Expected, preview}
use vcv_rack_mcp.Transactions.Commit.{CommitArgs, CommitTimes, CommitOutcome, commit}

pub record ProbeInput : Type 0 where
  pub port_id : ℕ
  pub connected : Bool

pub record SnapshotModule : Type 0 where
  pub module_id : String
  pub is_probe : Bool
  pub inputs : List ProbeInput

pub record SnapshotCable : Type 0 where
  pub cable_id : String
  pub input_module_id : String
  pub input_id : ℕ

pub record Snapshot : Type 0 where
  pub modules : List SnapshotModule
  pub cables : List SnapshotCable

pub record AttachMeta : Type 0 where
  pub probe_module_id : Option String
  pub probe_alias : Option String
  pub probe_input_id : ℕ
  pub adds_probe_module : Bool

abbrev pub probe_inputs : ℕ
probe_inputs = 8

abbrev pub max_active_probes : ℕ
max_active_probes = 16

abbrev pub existing_slot : String → ℕ → AttachMeta
existing_slot id i = record {
  probe_module_id = some id;
  probe_alias = none;
  probe_input_id = i;
  adds_probe_module = false;
}

abbrev pub new_slot : AttachMeta
new_slot = record {
  probe_module_id = none;
  probe_alias = some "rackmcp_probe";
  probe_input_id = 0;
  adds_probe_module = true;
}

-- `input && !input.connected` for the input with this id.
unfoldable pub is_free : List ProbeInput → ℕ → Bool
is_free inputs i = elim (find (λ p. p.port_id == i) inputs) [
  | none ↦ false
  | some p ↦ not p.connected
]

-- The loop over the inputs `i`, `i + 1`, …, of which `n` are left.
unfoldable pub free_input : List ProbeInput → ℕ → ℕ → Option ℕ
free_input inputs i zero = none
free_input inputs i (suc n) = if is_free inputs i then some i else free_input inputs (suc i) n

unfoldable pub free_slot : List SnapshotModule → Option AttachMeta
free_slot [] = none
free_slot (m ∷ ms) = elim (free_input m.inputs 0 probe_inputs) [
  | none ↦ free_slot ms
  | some i ↦ some (existing_slot m.module_id i)
]

abbrev pub probes : Snapshot → List SnapshotModule
probes snap = filter (λ m. m.is_probe) snap.modules

unfoldable pub choose_slot : Snapshot → Option (String × ℕ) → AttachMeta
choose_slot snap (some (id, i)) = existing_slot id i
choose_slot snap none = elim (free_slot (probes snap)) [ none ↦ new_slot | some slot ↦ slot ]

abbrev pub probe_module : String → PatchOperation
probe_module name = add_module (record {
  plugin_slug = "RackMCP";
  model_slug = "Probe";
  name = name;
  placement = auto none;
  initial_params = [];
  bypassed = none;
})

abbrev pub probe_cable : ModuleRef → String → ℕ → ℕ → PatchOperation
probe_cable probe source port_id input_id =
    connect (record { target = module_id source; port_type = output; port_id = port_id })
      (record { target = probe; port_type = input; port_id = input_id }) (some "#2a7fc8")
      replace_all

-- A slot has the id of an existing probe or the alias of a new one.
abbrev pub given_name : Option String → String
given_name none = ""
given_name (some s) = s

unfoldable pub attach_operations : AttachMeta → String → ℕ → List PatchOperation
attach_operations slot source port_id =
    if slot.adds_probe_module
    then probe_module (given_name slot.probe_alias)
      ∷ probe_cable (alias (given_name slot.probe_alias)) source port_id slot.probe_input_id
      ∷ []
    else probe_cable (module_id (given_name slot.probe_module_id)) source port_id
        slot.probe_input_id
      ∷ []

unfoldable pub is_over_limit : Snapshot → AttachMeta → Bool
is_over_limit snap slot = slot.adds_probe_module && leb max_active_probes (length (probes snap))

abbrev pub feeds : String → ℕ → SnapshotCable → Bool
feeds id i c = str_eq c.input_module_id id && c.input_id == i
