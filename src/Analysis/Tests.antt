-- ===== src/Analysis/Tests.antt =====
-- A patch of four modules, of which one feeds the audio destination and two feed each other.
use vcv_rack_mcp.Prelude.{
  All, not, str_eq, ◌≡◌, refl, ◌↔◌, String, true, false, List, [], ◌∷◌, Option, none, some,
}
use vcv_rack_mcp.Prelude.Int.{pos}
use vcv_rack_mcp.Analysis.{
  Cable, PatchModule, Snapshot, mem, destinations, modules_feeding_destinations, ancestors,
}
use vcv_rack_mcp.Analysis.Structure.{Numbers, by_id, is_readable}
use vcv_rack_mcp.Analysis.Validation.{validate_patch}
use vcv_rack_mcp.Analysis.Errors.{HasFiniteValue}
use vcv_rack_mcp.Analysis.Plugged.{IsPlugged}
use vcv_rack_mcp.Analysis.Sound.{validate_patch-errors_iff}
use vcv_rack_mcp.Analysis.Reached.{IsReached, modules_feeding_destinations-IsReached_iff}

abbrev patch_module : String → (plugin slug : String) → PatchModule String
patch_module id plugin slug = record {
  module_id = id;
  model_slug = slug;
  plugin_slug = plugin;
  bypassed = false;
  params = [];
  inputs = [];
  outputs = [];
  grid_position = none;
  grid_width = none;
  left_expander = none;
}

abbrev cable : (from to : String) → Cable
cable from to = record {
  cable_id = "c";
  output_module_id = from;
  output_id = pos 0;
  input_module_id = to;
  input_id = pos 0;
}

abbrev patch : Snapshot String
patch = record {
  modules =
      patch_module "out" "Core" "AudioInterface2"
      ∷ patch_module "vco" "Fundamental" "VCO"
      ∷ patch_module "a" "Fundamental" "Delay"
      ∷ patch_module "b" "Fundamental" "Delay"
      ∷ [];
  cables = cable "vco" "out" ∷ cable "vco" "out" ∷ cable "a" "b" ∷ cable "b" "a" ∷ [];
  bridge_module_count = 1;
}

feeding : modules_feeding_destinations patch ≡ some ("vco" ∷ "out" ∷ [])
unfolding modules_feeding_destinations vcv_rack_mcp.Analysis.trace_back vcv_rack_mcp.Analysis.trace
    vcv_rack_mcp.Analysis.mentions_audio vcv_rack_mcp.Paths.starts_with vcv_rack_mcp.Prelude.lookup
    vcv_rack_mcp.Analysis.group_incoming vcv_rack_mcp.Prelude.insert
feeding = refl

loop_ancestors : ancestors patch "a" ≡ some ("b" ∷ "a" ∷ [])
unfolding ancestors vcv_rack_mcp.Analysis.trace_back vcv_rack_mcp.Analysis.trace
    vcv_rack_mcp.Prelude.lookup vcv_rack_mcp.Analysis.group_incoming vcv_rack_mcp.Prelude.insert
loop_ancestors = refl

modules_feeding_destinations-IsReached_iff_example :
    (found : List String) × (modules_feeding_destinations patch ≡ some found)
    × ((x : String) → (mem x found ≡ true) ↔ IsReached patch.cables (destinations patch) x)
modules_feeding_destinations-IsReached_iff_example =
    modules_feeding_destinations-IsReached_iff patch

-- Numbers that stand for themselves as texts, all of them finite and in range.
abbrev plain : Numbers String
plain = record {
  is_finite = λ n. not (str_eq n "");
  below = λ v bound. false;
  above = λ v bound. false;
  of_json = λ j. j;
  decimal = λ z. "0";
}

abbrev one_param : PatchModule String
one_param = record (patch_module "vco" "Fundamental" "VCO") {
  params = record { param_id = pos 0; value = some ""; min_value = none; max_value = none } ∷ [];
}

abbrev broken : Snapshot String
broken = record {
  modules = one_param ∷ [];
  cables = cable "vco" "out" ∷ [];
  bridge_module_count = 0;
}

-- The dangling cable and the value that is not finite.
two_errors : (validate_patch plain [] broken []).error_count ≡ 2
unfolding validate_patch vcv_rack_mcp.Analysis.Findings.report
    vcv_rack_mcp.Analysis.Validation.structure_findings
    vcv_rack_mcp.Analysis.Structure.cable_findings vcv_rack_mcp.Prelude.lookup by_id
    vcv_rack_mcp.Prelude.insert vcv_rack_mcp.Analysis.Structure.cables_by_input_port
    vcv_rack_mcp.Analysis.Structure.param_finding vcv_rack_mcp.Analysis.Validation.advice_findings
    modules_feeding_destinations vcv_rack_mcp.Analysis.trace_back vcv_rack_mcp.Analysis.trace
    vcv_rack_mcp.Analysis.group_incoming vcv_rack_mcp.Analysis.mentions_audio
    vcv_rack_mcp.Paths.starts_with vcv_rack_mcp.Analysis.Structure.input_key
    vcv_rack_mcp.Analysis.Structure.cable_key vcv_rack_mcp.Adapters.has_adapter
    vcv_rack_mcp.Adapters.get_adapter vcv_rack_mcp.Adapters.model_key
    vcv_rack_mcp.Analysis.Advice.role_findings vcv_rack_mcp.Adapters.param_semantics
two_errors = refl

validate_patch-errors_iff_example : ((validate_patch plain [] broken []).error_count ≡ 0) ↔ (
    All (IsPlugged plain (by_id broken.modules [])) broken.cables
    × All (λ m. All (HasFiniteValue plain) m.params) broken.modules)
validate_patch-errors_iff_example = validate_patch-errors_iff plain [] broken []
