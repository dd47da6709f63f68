-- ===== src/Operations.antt =====
-- packages/schemas/src/operations.ts (with the references of refs.ts): the typed patch operations.
-- Parameter targets and durations are JSON numbers that the server only forwards: they are kept as
-- their texts.
use vcv_rack_mcp.Prelude.{ℕ, String, Bool, true, false, List, Option}
use vcv_rack_mcp.Prelude.Int.{ℤ}

-- A JSON value that the server hands on without looking into it.
abbrev pub Json : Type 0
Json = String

-- `{ moduleId }`, or `{ alias }` for a module that the same transaction adds.
pub data ModuleRef : Type 0 where
  module_id alias : String → ModuleRef

pub data PortType : Type 0 where
  input output : PortType

pub record PortRef : Type 0 where
  pub target : ModuleRef
  pub port_type : PortType
  pub port_id : ℕ

pub record GridPosition : Type 0 where
  pub x : ℤ
  pub y : ℤ

-- Exactly one of the three.
pub data ParamTarget : Type 0 where
  value normalized : Json → ParamTarget
  display : String → ParamTarget

pub data Placement : Type 0 where
  auto : Option GridPosition → Placement
  at : GridPosition → Placement

pub record AddModule : Type 0 where
  pub plugin_slug : String
  pub model_slug : String
  pub name : String
  pub placement : Placement
  pub initial_params : List (ℕ × ParamTarget)
  pub bypassed : Option Bool

pub data CablePolicy : Type 0 where
  remove_attached fail_if_attached : CablePolicy

pub data CollisionPolicy : Type 0 where
  fail nearest force squeeze : CollisionPolicy

pub data InputPolicy : Type 0 where
  fail_if_connected stack replace_all : InputPolicy

pub data DisconnectPolicy : Type 0 where
  top all_cables : DisconnectPolicy

pub data PatchOperation : Type 0 where
  add_module : AddModule → PatchOperation
  remove_module : ModuleRef → CablePolicy → (allow_last_bridge : Bool) → PatchOperation
  move_module : ModuleRef → GridPosition → CollisionPolicy → PatchOperation
  duplicate_module : ModuleRef → (name : String) → (copy_cables : Bool) → Placement → PatchOperation
  set_parameter : ModuleRef → (param_id : ℕ) → ParamTarget → Option Json → PatchOperation
  set_bypass : ModuleRef → Bool → PatchOperation
  connect : (source destination : PortRef) → Option String → InputPolicy → PatchOperation
  disconnect : (cable_id : String) → PatchOperation
  disconnect_port : PortRef → DisconnectPolicy → PatchOperation
  reset_module randomize_module : ModuleRef → PatchOperation

abbrev pub is_add_module : PatchOperation → Bool
is_add_module (add_module a) = true
is_add_module _ = false

abbrev pub is_set_parameter : PatchOperation → Bool
is_set_parameter (set_parameter m i t s) = true
is_set_parameter _ = false
