-- ===== src/Tools/BuildRecipe.antt =====
-- tools.ts: `build_recipe` builds the recipe from models that the bridge listed, or nothing.
use vcv_rack_mcp.Prelude.{◌≡◌, String, List, Option, some}
use vcv_rack_mcp.Errors.{Result, ok}
use vcv_rack_mcp.Operations.{PatchOperation}
use vcv_rack_mcp.Connection.{SelectedInstance}
use vcv_rack_mcp.Transactions.{TransactionManager, Signer}
use vcv_rack_mcp.Transactions.Commit.{CommitRequest}
use vcv_rack_mcp.Recipes.{Recipe}
use vcv_rack_mcp.Recipes.Expansion.{AllInstalled, AllFill}
use vcv_rack_mcp.Catalog.{ModelsPage, CatalogScan, scan_installed_models}
use vcv_rack_mcp.Tools.Build.{BuildOptions, BuildAnswers, get_recipe}
use vcv_rack_mcp.Tools.Unattended.{IsUnattended}

module _ (s : Signer) (w : BuildAnswers) where
  -- What a build of a recipe that commits `r` rests on.
  pub record IsRecipeBuilt (recipes : List Recipe) (recipe_id : String)
      (connected : Result SelectedInstance) (pages : Option String → Result ModelsPage)
      (opts : BuildOptions) (m : TransactionManager) (r : CommitRequest) : Type 0 where
    pub recipe : Recipe
    pub instance : SelectedInstance
    pub scan : CatalogScan
    pub operations : List PatchOperation
    pub registered : get_recipe recipes recipe_id ≡ some recipe
    pub connection : connected ≡ ok instance
    pub scanned : scan_installed_models pages ≡ ok scan
    pub installed : AllInstalled scan.models recipe.roles
    pub filled : AllFill scan.models recipe.roles recipe.operations operations
    pub unattended : IsUnattended s w instance operations opts m r
