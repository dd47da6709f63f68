-- ===== src/Adapters/Tests.antt =====
-- The registry with two documents.
use vcv_rack_mcp.Prelude.{◌≡◌, refl, String, List, [], ◌∷◌, some, All, insert}
use vcv_rack_mcp.Adapters.{
  ModuleAdapter, unknown_polyphony, model_key, index_adapters, load_registry, get_adapter,
}
use vcv_rack_mcp.Adapters.Registry.{load_registry-All}

abbrev bare : String → ModuleAdapter
bare model = record {
  plugin_slug = "Core";
  model_slug = model;
  plugin_version_range = "2";
  display_name = model;
  summary = "";
  params = [];
  inputs = [];
  outputs = [];
  polyphony = unknown_polyphony;
  connection_recipes = [];
  provenance = "manual" ∷ [];
}

abbrev docs : List ModuleAdapter
docs = bare "Audio" ∷ bare "Notes" ∷ []

load_registry-All_example :
    All (λ a. get_adapter (index_adapters docs []) a.plugin_slug a.model_slug ≡ some a) docs
unfolding load_registry index_adapters insert model_key
load_registry-All_example = load_registry-All docs (index_adapters docs []) refl
