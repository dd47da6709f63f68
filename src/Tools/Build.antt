-- ===== src/Tools/Build.antt =====
-- tools.ts: `previewAndMaybeCommit`, and the tools `build_patch` and `build_recipe` that share it.
use vcv_rack_mcp.Prelude.{
  ℕ, String, Bool, not, ◌||◌, List, [], Option, none, some, str_eq, find, if◌then◌else◌,
}
use vcv_rack_mcp.Errors.{other, retryable, Result, ok, throw, bad_request}
use vcv_rack_mcp.Operations.{Json, PatchOperation}
use vcv_rack_mcp.Connection.{SelectedInstance}
use vcv_rack_mcp.Transactions.{TransactionManager, Signer}
use vcv_rack_mcp.Transactions.Preview.{PreviewReply, PreviewResult, Expected, preview}
use vcv_rack_mcp.Transactions.Commit.{CommitArgs, CommitTimes, CommitRequest, commit}
use vcv_rack_mcp.Recipes.{Recipe, RecipeResolution, resolve_recipe, expand_recipe_operations}
use vcv_rack_mcp.Catalog.{ModelsPage, CatalogScan, scan_installed_models}

pub record BuildOptions : Type 0 where
  pub auto_commit : Bool
  pub operation_id : String
  pub expected_patch_epoch : Option ℕ

-- The clock's readings, and what the bridge and the connection answer, in their order.
pub record BuildAnswers : Type 0 where
  pub pruned_at : ℕ
  pub previewed_at : ℕ
  pub reply : Result PreviewReply
  pub times : CommitTimes
  pub lease : Result (Unit {0})
  pub committed : Result Json

pub data BuildPhase : Type 0 where
  previewed : PreviewResult → BuildPhase
  committed : PreviewResult → Json → BuildPhase

-- `sent` holds the commits that reached the bridge.
pub record BuildOutcome : Type 0 where
  pub manager : TransactionManager
  pub sent : List CommitRequest
  pub result : Result BuildPhase

-- The commit of a plan that needs no confirmation carries no token.
abbrev pub unattended : String → SelectedInstance → PreviewResult → CommitArgs
unattended operation_id instance result = record {
  operation_id = operation_id;
  plan_hash = result.preview.plan_hash;
  expected_fingerprint = result.preview.base_fingerprint;
  confirmation_token = none;
  instance = instance;
}

abbrev pub expected_epoch : Option ℕ → Expected
expected_epoch epoch = record { fingerprint = none; patch_epoch = epoch }

module _ (s : Signer) (w : BuildAnswers) where
  -- From the preview's result on.
  unfoldable pub maybe_commit :
      SelectedInstance → BuildOptions → TransactionManager → PreviewResult → BuildOutcome
  maybe_commit instance opts m result =
      let done =
        commit s w.times (unattended opts.operation_id instance result) w.lease w.committed m in
      if not opts.auto_commit || result.confirmation.required
      then record { manager = m; sent = []; result = ok (previewed result) }
      else record {
        manager = done.manager;
        sent = done.sent;
        result = elim done.result [ throw e ↦ throw e | ok answer ↦ ok (committed result answer) ];
      }

  unfoldable pub preview_and_maybe_commit :
      SelectedInstance → List PatchOperation → BuildOptions → TransactionManager → BuildOutcome
  preview_and_maybe_commit instance operations opts m =
      let (m', result) =
        preview s w.pruned_at w.previewed_at operations instance
          (expected_epoch opts.expected_patch_epoch) w.reply m in
      elim result [
        | throw e ↦ record { manager = m'; sent = []; result = throw e }
        | ok r ↦ maybe_commit instance opts m' r
      ]

  unfoldable pub build_patch :
      Result SelectedInstance
      → List PatchOperation
      → BuildOptions
      → TransactionManager
      → BuildOutcome
  build_patch (throw e) operations opts m = record { manager = m; sent = []; result = throw e }
  build_patch (ok instance) operations opts m = preview_and_maybe_commit instance operations opts m

-- `getRecipe`: the ids of the registry are unique.
unfoldable pub get_recipe : List Recipe → String → Option Recipe
get_recipe recipes id = find (λ r. str_eq r.id id) recipes

pub data RecipePhase : Type 0 where
  unresolved_recipe : RecipeResolution → (catalog_complete : Bool) → RecipePhase
  built : BuildPhase → RecipeResolution → (catalog_complete : Bool) → RecipePhase

pub record RecipeOutcome : Type 0 where
  pub manager : TransactionManager
  pub sent : List CommitRequest
  pub result : Result RecipePhase

module _ (s : Signer) (w : BuildAnswers) where
  -- From the scan on.
  unfoldable pub build_resolved :
      Recipe → SelectedInstance → CatalogScan → BuildOptions → TransactionManager → RecipeOutcome
  build_resolved recipe instance scan opts m =
      let resolution = resolve_recipe recipe scan.models in
      if not resolution.resolved
      then record {
        manager = m;
        sent = [];
        result = ok (unresolved_recipe resolution scan.complete);
      }
      else elim (expand_recipe_operations recipe resolution) [
        | none ↦ record { manager = m; sent = []; result = throw other }
        | some operations ↦
            let o = preview_and_maybe_commit s w instance operations opts m in
            record {
              manager = o.manager;
              sent = o.sent;
              result = elim o.result [
                | throw e ↦ throw e
                | ok phase ↦ ok (built phase resolution scan.complete)
              ];
            }
      ]

  unfoldable pub build_recipe :
      List Recipe
      → (recipe_id : String) → Result SelectedInstance
      → (pages : Option String → Result ModelsPage) → BuildOptions
      → TransactionManager
      → RecipeOutcome
  build_recipe recipes recipe_id instance pages opts m = elim (get_recipe recipes recipe_id) [
    | none ↦ record { manager = m; sent = []; result = throw (retryable bad_request) }
    | some recipe ↦ elim instance [
      | throw e ↦ record { manager = m; sent = []; result = throw e }
      | ok i ↦ elim (scan_installed_models pages) [
        | throw e ↦ record { manager = m; sent = []; result = throw e }
        | ok scan ↦ build_resolved recipe i scan opts m
      ]
    ]
  ]
