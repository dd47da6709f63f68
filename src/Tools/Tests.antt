-- ===== src/Tools/Tests.antt =====
-- A recipe of one module is built without a confirmation.
use vcv_rack_mcp.Prelude.{
  ℕ, ◌+◌, ◌≡◌, refl, ◌↔◌, inl, inr, String, Bool, true, false, List, [], ◌∷◌, Option, none, some,
  arith, ap, Option-cases, str_eq,
}
use vcv_rack_mcp.Errors.{Result, ok, throw}
use vcv_rack_mcp.Operations.{PatchOperation, add_module, auto, reset_module, alias}
use vcv_rack_mcp.RateLimiter.{new_rate_limiter}
use vcv_rack_mcp.Connection.{SelectedInstance}
use vcv_rack_mcp.Transactions.{TransactionManager}
use vcv_rack_mcp.Transactions.Samples.{sample_signer}
use vcv_rack_mcp.Transactions.Preview.{PreviewReply}
use vcv_rack_mcp.Transactions.Commit.{CommitRequest}
use vcv_rack_mcp.Recipes.{InstalledModel, Recipe, RecipeRole}
use vcv_rack_mcp.Catalog.{ModelsPage}
use vcv_rack_mcp.Tools.{undo_last_mcp_transaction}
use vcv_rack_mcp.Tools.Build.{BuildOptions, BuildAnswers, preview_and_maybe_commit, build_patch}
use vcv_rack_mcp.Tools.Unattended.{IsUnattended, preview_and_maybe_commit-sent_iff}

abbrev rack : SelectedInstance
rack = record {
  instance_id = "i";
  session_id = "s";
  rack_version = "2.6.6";
  rack_edition = "Free";
  port = 1;
  pid = 2;
}

abbrev fresh : TransactionManager
fresh = record { plans = []; load_bindings = []; limiter = new_rate_limiter 30 1000 }

abbrev answers : BuildAnswers
answers = record {
  pruned_at = 5;
  previewed_at = 10;
  reply = ok (record {
    plan = "plan";
    plan_hash = "h";
    base_fingerprint = "f";
    patch_epoch = 3;
    risk_level = "low";
    confirmation_required = false;
    rest = "";
  });
  times = record { pruned = 20; verified = 21; cut = 22; at = 23 };
  lease = ok tt;
  committed = ok "done";
}

abbrev options : BuildOptions
options = record { auto_commit = true; operation_id = "op"; expected_patch_epoch = some 3 }

abbrev request : CommitRequest
request = record {
  instance_id = "i";
  session_id = "s";
  patch_epoch = 3;
  operation_id = "op";
  plan = "plan";
  plan_hash = "h";
  expected_fingerprint = "f";
}

abbrev reset : List PatchOperation
reset = reset_module (alias "osc") ∷ []

build_sends :
    (preview_and_maybe_commit sample_signer answers rack reset options fresh).sent ≡ request ∷ []
unfolding preview_and_maybe_commit vcv_rack_mcp.Transactions.Preview.preview
    vcv_rack_mcp.Transactions.Preview.checked_reply vcv_rack_mcp.Tools.Build.maybe_commit
    vcv_rack_mcp.Transactions.Commit.commit vcv_rack_mcp.Transactions.Commit.authorised
    vcv_rack_mcp.Transactions.Commit.cached vcv_rack_mcp.Prelude.lookup vcv_rack_mcp.Prelude.insert
    vcv_rack_mcp.Transactions.Preview.cached_plan vcv_rack_mcp.RateLimiter.admit
    vcv_rack_mcp.Transactions.Preview.count_param_changes
    vcv_rack_mcp.Transactions.Commit.send_commit vcv_rack_mcp.Transactions.Commit.commit_request
build_sends = refl

preview_and_maybe_commit-sent_iff_example :
    ((preview_and_maybe_commit sample_signer answers rack reset options fresh).sent ≡ request ∷ [])
    ↔ IsUnattended sample_signer answers rack reset options fresh request
preview_and_maybe_commit-sent_iff_example =
    preview_and_maybe_commit-sent_iff sample_signer answers rack reset options fresh request
      (omega arith)

previewed_only :
    (build_patch sample_signer answers
      (ok rack)
      reset
      (record options { auto_commit = false })
      fresh).sent
    ≡ []
unfolding build_patch preview_and_maybe_commit vcv_rack_mcp.Transactions.Preview.preview
    vcv_rack_mcp.Transactions.Preview.checked_reply vcv_rack_mcp.Tools.Build.maybe_commit
previewed_only = refl

abbrev oscillator : RecipeRole
oscillator = record {
  role = "oscillator";
  description = "";
  preferred = record { plugin_slug = "Fundamental"; model_slug = "VCO" };
  signal_roles = [];
}

abbrev drone : Recipe
drone = record {
  id = "drone";
  name = "Drone";
  description = "";
  roles = oscillator ∷ [];
  operations =
      add_module (record {
        plugin_slug = "$role";
        model_slug = "oscillator";
        name = "osc";
        placement = auto none;
        initial_params = [];
        bypassed = none;
      })
      ∷ reset_module (alias "osc")
      ∷ [];
  notes = [];
}

abbrev pages : Option String → Result ModelsPage
pages cursor = ok (record {
  models = record { plugin_slug = "Fundamental"; model_slug = "VCO" } ∷ [];
  total_models = 1;
  next_cursor = none;
})

undo_needs_lease :
    (instance : Result SelectedInstance) (e : vcv_rack_mcp.Errors.Thrown) (reply : Result String)
    → (undo_last_mcp_transaction instance (throw e) "id" "op" reply).sent ≡ []
unfolding undo_last_mcp_transaction
undo_needs_lease (ok i) e reply = refl
undo_needs_lease (throw f) e reply = refl
