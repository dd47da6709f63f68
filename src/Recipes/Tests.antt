-- ===== src/Recipes/Tests.antt =====
-- The theorem on expansion at a recipe of one role.
use vcv_rack_mcp.Prelude.{true, false, ◌≡◌, refl, ◌⊎◌, List, [], ◌∷◌, none, some}
use vcv_rack_mcp.Operations.{PatchOperation, add_module, reset_module, alias, auto}
use vcv_rack_mcp.Recipes.{
  Recipe, RecipeRole, InstalledModel, resolve_recipe, expand_recipe_operations,
}
use vcv_rack_mcp.Recipes.Expansion.{AllInstalled, AllFill, expand_cases}

abbrev oscillator : RecipeRole
oscillator = record {
  role = "oscillator";
  description = "";
  preferred = record { plugin_slug = "Fundamental"; model_slug = "VCO" };
  signal_roles = [];
}

abbrev drone : Recipe
drone = record {
  id = "drone";
  name = "Drone";
  description = "";
  roles = oscillator ∷ [];
  operations =
      add_module (record {
        plugin_slug = "$role";
        model_slug = "oscillator";
        name = "osc";
        placement = auto none;
        initial_params = [];
        bypassed = none;
      })
      ∷ reset_module (alias "osc")
      ∷ [];
  notes = [];
}

abbrev installed : List InstalledModel
installed = record { plugin_slug = "Fundamental"; model_slug = "VCO" } ∷ []

expand_cases_example :
    let resolution = resolve_recipe drone installed in
    (AllInstalled installed drone.roles
      × (resolution.resolved ≡ true)
      × ((ops : List PatchOperation) × (expand_recipe_operations drone resolution ≡ some ops)
          × AllFill installed drone.roles drone.operations ops))
    ⊎ (¬ (AllInstalled installed drone.roles)
        × (resolution.resolved ≡ false)
        × (expand_recipe_operations drone resolution ≡ none))
expand_cases_example = expand_cases drone installed (λ p. refl, (tt, tt))
