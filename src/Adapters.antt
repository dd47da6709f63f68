-- ===== src/Adapters.antt =====
-- packages/adapters/src/index.ts (with packages/schemas/src/adapters.ts): the registry of verified
-- module adapters and its lookups. Its documents are an argument; a JSON number is kept as its text.
pub mod Registry
mod Tests
use Prim.Native.String
use vcv_rack_mcp.Prelude.{
  ℕ, String, Bool, true, false, List, [], ◌∷◌, Option, none, some, ◌==◌, find, length,
  if◌then◌else◌, lookup, insert,
}
use vcv_rack_mcp.Operations.{Json}

pub data SignalRole : Type 0 where
  audio cv_unipolar cv_bipolar pitch_voct gate trigger clock unknown : SignalRole

pub data PolyphonyBehavior : Type 0 where
  monophonic polyphonic poly_from_input unknown_polyphony : PolyphonyBehavior

pub record AdapterParamSemantics : Type 0 where
  pub param_id : ℕ
  pub role : String
  pub description : Option String
  pub safe_initial : Option Json
  pub safe_range : Option (Json × Json)

pub record AdapterPortSemantics : Type 0 where
  pub port_id : ℕ
  pub role : SignalRole
  pub key : String
  pub description : Option String
  pub polyphony : PolyphonyBehavior

pub record AdapterConnectionRecipe : Type 0 where
  pub name : String
  pub description : String
  pub from_output_key : String
  pub to_role : SignalRole

pub record ModuleAdapter : Type 0 where
  pub plugin_slug : String
  pub model_slug : String
  pub plugin_version_range : String
  pub display_name : String
  pub summary : String
  pub params : List AdapterParamSemantics
  pub inputs : List AdapterPortSemantics
  pub outputs : List AdapterPortSemantics
  pub polyphony : PolyphonyBehavior
  pub connection_recipes : List AdapterConnectionRecipe
  pub provenance : List String

-- The two slugs with a NUL between them.
unfoldable pub model_key : String → String → String
model_key plugin model = String.◌++◌ plugin (String.◌++◌ "\0" model)

-- `new Map(…)` from the documents, on top of the entries so far.
unfoldable pub index_adapters :
    List ModuleAdapter → List (String × ModuleAdapter) → List (String × ModuleAdapter)
index_adapters [] entries = entries
index_adapters (a ∷ rest) entries =
    index_adapters rest (insert (model_key a.plugin_slug a.model_slug) a entries)

-- The registry, or `none` where two documents have one key and loading throws.
unfoldable pub load_registry : List ModuleAdapter → Option (List (String × ModuleAdapter))
load_registry docs =
    let by_model = index_adapters docs [] in
    if length by_model == length docs then some by_model else none

unfoldable pub get_adapter : List (String × ModuleAdapter) → String → String → Option ModuleAdapter
get_adapter by_model plugin model = lookup (model_key plugin model) by_model

unfoldable pub has_adapter : List (String × ModuleAdapter) → String → String → Bool
has_adapter by_model plugin model = elim (get_adapter by_model plugin model) [
  | none ↦ false
  | some a ↦ true
]

abbrev pub port_role : List AdapterPortSemantics → ℕ → Option SignalRole
port_role ports id = elim (find (λ p. p.port_id == id) ports) [ none ↦ none | some p ↦ some p.role ]

unfoldable pub output_role : List (String × ModuleAdapter) → String → String → ℕ → Option SignalRole
output_role by_model plugin model id = elim (get_adapter by_model plugin model) [
  | none ↦ none
  | some a ↦ port_role a.outputs id
]

unfoldable pub input_role : List (String × ModuleAdapter) → String → String → ℕ → Option SignalRole
input_role by_model plugin model id = elim (get_adapter by_model plugin model) [
  | none ↦ none
  | some a ↦ port_role a.inputs id
]

unfoldable pub param_semantics :
    List (String × ModuleAdapter) → String → String → ℕ → Option AdapterParamSemantics
param_semantics by_model plugin model id = elim (get_adapter by_model plugin model) [
  | none ↦ none
  | some a ↦ find (λ p. p.param_id == id) a.params
]
