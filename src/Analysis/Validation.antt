-- ===== src/Analysis/Validation.antt =====
-- analysis.ts: `validatePatch`, its findings in their order and their counts.
use vcv_rack_mcp.Prelude.{String, List, [], ◌++◌, Option, none, some}
use vcv_rack_mcp.Adapters.{ModuleAdapter}
use vcv_rack_mcp.Analysis.{PatchModule, Snapshot, modules_feeding_destinations}
use vcv_rack_mcp.Analysis.Findings.{ValidationFinding, ValidationReport, report}
use vcv_rack_mcp.Analysis.Structure.{
  Numbers, by_id, cable_findings, cables_by_input_port, stacked_findings, collision_findings,
  expander_findings, param_findings,
}
use vcv_rack_mcp.Analysis.Advice.{
  bridge_findings, bypass_findings, cycle_findings, adapter_findings, unverified_findings,
  silence_findings,
}

-- The search ends, so that the other case does not occur.
abbrev pub found : Option (List String) → List String
found none = []
found (some ids) = ids

module _ {N : Type 0} (num : Numbers N) (registry : List (String × ModuleAdapter)) where
  unfoldable pub structure_findings :
      List (String × PatchModule N) → Snapshot N → List ValidationFinding
  structure_findings modules snap =
      cable_findings num modules [] snap.cables
      ++ stacked_findings num (cables_by_input_port num modules snap.cables [])
      ++ collision_findings num [] snap.modules
      ++ expander_findings num modules snap.modules
      ++ param_findings num registry snap.modules

  unfoldable pub advice_findings :
      List (String × PatchModule N) → Snapshot N → (cycles : List String) → List ValidationFinding
  advice_findings modules snap cycles =
      bridge_findings snap.bridge_module_count
      ++ bypass_findings (found (modules_feeding_destinations snap)) snap.modules
      ++ cycle_findings cycles
      ++ adapter_findings registry modules snap.cables
      ++ unverified_findings registry snap.modules
      ++ silence_findings snap.modules

  -- From the snapshot on; `cycles` are the modules that `modulesInCycles` finds.
  unfoldable pub validate_patch : Snapshot N → (cycles : List String) → ValidationReport
  validate_patch snap cycles =
      let modules = by_id snap.modules [] in
      report (structure_findings modules snap ++ advice_findings modules snap cycles)
