-- ===== src/Analysis/Findings.antt =====
-- packages/schemas/src/validation.ts: what a validation reports. The evidence and the texts of a
-- finding are not modelled.
use vcv_rack_mcp.Prelude.{ℕ, Bool, true, false, String, List, filter, length, ◌-◌}
use vcv_rack_mcp.Prelude.Int.{ℤ}
use vcv_rack_mcp.Operations.{PortType}

pub data Severity : Type 0 where
  error warning info : Severity

pub data Confidence : Type 0 where
  certain adapter heuristic : Confidence

pub data EntityRef : Type 0 where
  the_module : (module_id : String) → EntityRef
  the_cable : (cable_id : String) → EntityRef
  the_port : (module_id : String) → PortType → (port_id : ℤ) → EntityRef
  the_param : (module_id : String) → (param_id : ℤ) → EntityRef
  the_patch : EntityRef

-- `VALIDATION_RULES`
pub data ValidationRule : Type 0 where
  cable_dangling port_out_of_bounds cable_duplicate inputs_stacked module_collision : ValidationRule
  expander_adjacency param_non_finite param_out_of_range param_outside_safe_range : ValidationRule
  bridge_missing bypass_interrupts_path cycle_feedback adapter_signal_role_cross : ValidationRule
  adapter_pitch_gate_confusion adapter_poly_into_mono adapter_unverified_modules : ValidationRule
  audio_no_input audio_no_destination : ValidationRule

pub record ValidationFinding : Type 0 where
  pub rule_id : ValidationRule
  pub severity : Severity
  pub confidence : Confidence
  pub entities : List EntityRef

pub record ValidationReport : Type 0 where
  pub findings : List ValidationFinding
  pub error_count : ℕ
  pub warning_count : ℕ
  pub info_count : ℕ

abbrev pub finding : ValidationRule → Severity → Confidence → List EntityRef → ValidationFinding
finding rule severity confidence entities = record {
  rule_id = rule;
  severity = severity;
  confidence = confidence;
  entities = entities;
}

abbrev pub is_error : ValidationFinding → Bool
is_error f = elim f.severity [ error ↦ true | warning ↦ false | info ↦ false ]

abbrev pub is_warning : ValidationFinding → Bool
is_warning f = elim f.severity [ error ↦ false | warning ↦ true | info ↦ false ]

unfoldable pub report : List ValidationFinding → ValidationReport
report findings =
    let errors = length (filter is_error findings) in
    let warnings = length (filter is_warning findings) in
    record {
      findings = findings;
      error_count = errors;
      warning_count = warnings;
      info_count = length findings - errors - warnings;
    }
