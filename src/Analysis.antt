-- ===== src/Analysis.antt =====
-- apps/mcp-server/src/analysis.ts: a snapshot of the patch, and which modules signal comes from.
-- The values of parameters are of a type `N`, that of JSON's numbers.
pub mod Trace
pub mod Fuel
pub mod Reached
pub mod Findings
pub mod Structure
pub mod Advice
pub mod Validation
pub mod Errors
pub mod Plugged
pub mod Sound
mod Tests
use vcv_rack_mcp.Prelude.{
  ℕ, zero, suc, ◌+◌, String, Bool, true, false, List, [], ◌∷◌, ◌++◌, map, Option, none, some,
  str_eq, any, filter, length, lookup, insert, if◌then◌else◌, ◌&&◌, ◌||◌,
}
use vcv_rack_mcp.Prelude.Int.{ℤ}
use vcv_rack_mcp.Paths.{codes, fold_case, starts_with}

pub record Port : Type 0 where
  pub port_id : ℤ
  pub connected : Bool
  pub channels : ℕ

-- A live value that is not finite arrives as null.
pub record Param (N : Type 0) : Type 0 where
  pub param_id : ℤ
  pub value : Option N
  pub min_value : Option N
  pub max_value : Option N

pub record PatchModule (N : Type 0) : Type 0 where
  pub module_id : String
  pub model_slug : String
  pub plugin_slug : String
  pub bypassed : Bool
  pub params : List (Param N)
  pub inputs : List Port
  pub outputs : List Port
  pub grid_position : Option (ℤ × ℤ)
  pub grid_width : Option ℕ
  pub left_expander : Option String

pub record Cable : Type 0 where
  pub cable_id : String
  pub output_module_id : String
  pub output_id : ℤ
  pub input_module_id : String
  pub input_id : ℤ

pub record Snapshot (N : Type 0) : Type 0 where
  pub modules : List (PatchModule N)
  pub cables : List Cable
  pub bridge_module_count : ℕ

-- `/audio/i`
unfoldable pub mentions_audio : List ℕ → Bool
mentions_audio [] = false
mentions_audio (c ∷ s) = starts_with (codes "audio") (map fold_case (c ∷ s)) || mentions_audio s

abbrev pub is_audio_destination : {N : Type 0} → PatchModule N → Bool
is_audio_destination m = str_eq m.plugin_slug "Core" && mentions_audio (codes m.model_slug)

abbrev pub mem : String → List String → Bool
mem id ids = any (λ x. str_eq x id) ids

-- `incoming.get(id) ?? []`
abbrev pub incoming_cables : String → List (String × List Cable) → List Cable
incoming_cables id incoming = elim (lookup id incoming) [ none ↦ [] | some cables ↦ cables ]

abbrev pub add_incoming : Cable → List (String × List Cable) → List (String × List Cable)
add_incoming c incoming = elim (lookup c.input_module_id incoming) [
  | none ↦ insert c.input_module_id (c ∷ []) incoming
  | some list ↦ insert c.input_module_id (list ++ (c ∷ [])) incoming
]

-- The map from a module to the cables into it, from what there is of it.
unfoldable pub group_incoming : List Cable → List (String × List Cable) → List (String × List Cable)
group_incoming [] incoming = incoming
group_incoming (c ∷ cables) incoming = group_incoming cables (add_incoming c incoming)

-- One `push` for each cable: the top of the stack is the head.
abbrev pub push_sources : List Cable → List String → List String
push_sources [] stack = stack
push_sources (c ∷ cables) stack = push_sources cables (c.output_module_id ∷ stack)

abbrev pub push_all : List String → List String → List String
push_all [] stack = stack
push_all (id ∷ ids) stack = push_all ids (id ∷ stack)

-- The loop over the stack, with fuel; `none` is fuel that ran out. The set has its last element first.
unfoldable pub trace :
    List (String × List Cable) → ℕ → (stack reached : List String) → Option (List String)
trace incoming fuel [] reached = some reached
trace incoming zero (id ∷ stack) reached = none
trace incoming (suc fuel) (id ∷ stack) reached =
    let (stack', reached') =
      if mem id reached
      then (stack, reached)
      else (push_sources (incoming_cables id incoming) stack, id ∷ reached) in
    trace incoming fuel stack' reached'

-- The modules from which signal reaches one of the `starts`.
unfoldable pub trace_back : List Cable → List String → Option (List String)
trace_back cables starts =
    trace (group_incoming cables []) (length starts + length cables) (push_all starts []) []

abbrev pub destinations : {N : Type 0} → Snapshot N → List String
destinations snap = map (λ m. m.module_id) (filter is_audio_destination snap.modules)

unfoldable pub modules_feeding_destinations : {N : Type 0} → Snapshot N → Option (List String)
modules_feeding_destinations snap = trace_back snap.cables (destinations snap)

-- The ancestors that `describePatch` collects for one destination.
unfoldable pub ancestors : {N : Type 0} → Snapshot N → String → Option (List String)
ancestors snap destination = trace_back snap.cables (destination ∷ [])
