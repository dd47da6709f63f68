-- ===== src/Analysis/Sound.antt =====
-- analysis.ts: `validatePatch` counts no errors exactly in a patch whose structure is sound.
use vcv_rack_mcp.Prelude.{
  ℕ, ◌+◌, ◌≡◌, refl, ◌↔◌, inl, inr, String, Bool, true, false, List, [], ◌∷◌, ◌++◌, filter, length,
  lookup, ◌&&◌, ◌||◌, ◌==◌, All, arith, Bool-cases, Option-cases, ltb, any, ◌∙◌,
}
use vcv_rack_mcp.Adapters.{ModuleAdapter}
use vcv_rack_mcp.Analysis.{
  PatchModule, Cable, Snapshot, modules_feeding_destinations, is_audio_destination,
}
use vcv_rack_mcp.Analysis.Findings.{
  report, finding, EntityRef, the_cable, info, adapter, adapter_signal_role_cross,
  adapter_pitch_gate_confusion, adapter_poly_into_mono,
}
use vcv_rack_mcp.Analysis.Structure.{
  Numbers, when, by_id, cable_findings, stacked_findings, collision_findings, expander_findings,
  param_findings, cables_by_input_port,
}
use vcv_rack_mcp.Analysis.Advice.{
  bridge_findings, is_interrupting, bypass_findings, cycle_findings, role_findings, adapter_finding,
  adapter_findings, unadaptered, unverified_findings, silence_findings, families_cross, family_of,
  kinds_cross, control_kind_of, output_role_of, input_role_of, channels_at, is_monophonic_input,
  is_past,
}
use vcv_rack_mcp.Analysis.Plugged.{IsPlugged, errors-cables}
use vcv_rack_mcp.Analysis.Validation.{found, structure_findings, advice_findings, validate_patch}
use vcv_rack_mcp.Analysis.Errors.{
  errors, errors-append, errors-quiet, HasFiniteValue, errors-stacked, errors-collision,
  errors-expander, errors-modules,
}

errors-bridge : (count : ℕ) → errors (bridge_findings count) ≡ 0
errors-bridge count = elim (Bool-cases (count == 0)) [
  | inl e ↦ ground (arith, e)
  | inr e ↦ ground (arith, e)
]

errors-cycle : (cycles : List String) → errors (cycle_findings cycles) ≡ 0
errors-cycle cycles = elim (Bool-cases (ltb 0 (length cycles))) [
  | inl e ↦ ground (arith, e)
  | inr e ↦ ground (arith, e)
]

errors-advice :
    (cross confusion mono : Bool) (entity : List EntityRef)
    → errors (
        when cross (finding adapter_signal_role_cross info adapter entity)
        ++ when confusion (finding adapter_pitch_gate_confusion info adapter entity)
        ++ when mono (finding adapter_poly_into_mono info adapter entity))
      ≡ 0
errors-advice true true true entity = refl
errors-advice true true false entity = refl
errors-advice true false true entity = refl
errors-advice true false false entity = refl
errors-advice false true true entity = refl
errors-advice false true false entity = refl
errors-advice false false true entity = refl
errors-advice false false false entity = refl

module _ {N : Type 0} (registry : List (String × ModuleAdapter)) where
  errors-bypass :
      (feeds : List String) (modules : List (PatchModule N))
      → errors (bypass_findings feeds modules) ≡ 0
  errors-bypass feeds [] = refl
  errors-bypass feeds (m ∷ modules) = elim (Bool-cases (is_interrupting feeds m)) [
    | inl e ↦ ground (arith, e, errors-bypass feeds modules)
    | inr e ↦ ground (arith, e, errors-bypass feeds modules)
  ]

  errors-unverified :
      (modules : List (PatchModule N)) → errors (unverified_findings registry modules) ≡ 0
  errors-unverified modules = elim (Bool-cases (ltb 0 (length (unadaptered registry modules)))) [
    | inl e ↦ ground (arith, e)
    | inr e ↦ ground (arith, e)
  ]

  errors-silence : (modules : List (PatchModule N)) → errors (silence_findings modules) ≡ 0
  errors-silence modules =
      let destinations = filter is_audio_destination modules in
      elim (Bool-cases (ltb 0 (length destinations))) [
        | inr e ↦ ground (arith, e)
        | inl e ↦ elim (Bool-cases (any (λ m. any (λ p. p.connected) m.inputs) destinations)) [
          | inl f ↦ ground (arith, e, f)
          | inr f ↦ ground (arith, e, f)
        ]
      ]

  errors-role :
      (c : Cable) (out inp : PatchModule N) → errors (role_findings registry c out inp) ≡ 0
  unfolding role_findings
  errors-role c out inp =
      let from = output_role_of registry out c.output_id in
      let to = input_role_of registry inp c.input_id in
      errors-advice (families_cross (family_of from) (family_of to))
        (kinds_cross (control_kind_of from) (control_kind_of to))
        (ltb 1 (channels_at out.outputs c.output_id) && is_monophonic_input registry inp c.input_id)
        (the_cable c.cable_id ∷ [])

  errors-adapter_one :
      (entries : List (String × PatchModule N)) (c : Cable)
      → errors (adapter_finding registry entries c) ≡ 0
  errors-adapter_one entries c = elim (Option-cases (lookup c.output_module_id entries)) [
    | inl none_there ↦ ground (arith, none_there)
    | inr (out, from) ↦ elim (Option-cases (lookup c.input_module_id entries)) [
      | inl none_there ↦ ground (arith, from, none_there)
      | inr (inp, to) ↦
          elim (Bool-cases (is_past c.output_id out.outputs || is_past c.input_id inp.inputs)) [
            | inl past ↦ ground (arith, from, to, past)
            | inr there ↦ ground (arith, from, to, there, errors-role c out inp)
          ]
    ]
  ]

  errors-adapter :
      (entries : List (String × PatchModule N)) (cables : List Cable)
      → errors (adapter_findings registry entries cables) ≡ 0
  errors-adapter entries [] = refl
  errors-adapter entries (c ∷ cables) =
      errors-quiet (adapter_finding registry entries c) (adapter_findings registry entries cables)
        (errors-adapter_one entries c) (errors-adapter entries cables)

  -- What depends on adapters, names or shapes is advice: it is never an error.
  errors-advice_findings :
      (entries : List (String × PatchModule N)) (num : Numbers N) (snap : Snapshot N)
      (cycles : List String)
      → errors (advice_findings num registry entries snap cycles) ≡ 0
  unfolding advice_findings
  errors-advice_findings entries num snap cycles =
      let feeds = found (modules_feeding_destinations snap) in
      let a = bridge_findings snap.bridge_module_count in
      let b = bypass_findings feeds snap.modules in
      let c = cycle_findings cycles in
      let d = adapter_findings registry entries snap.cables in
      let e = unverified_findings registry snap.modules in
      let ab =
        errors-quiet a b (errors-bridge snap.bridge_module_count)
          (errors-bypass feeds snap.modules) in
      let abc = errors-quiet (a ++ b) c ab (errors-cycle cycles) in
      let abcd = errors-quiet (a ++ b ++ c) d abc (errors-adapter entries snap.cables) in
      let abcde = errors-quiet (a ++ b ++ c ++ d) e abcd (errors-unverified snap.modules) in
      errors-quiet (a ++ b ++ c ++ d ++ e) (silence_findings snap.modules) abcde
        (errors-silence snap.modules)

module _ {N : Type 0} (num : Numbers N) (registry : List (String × ModuleAdapter)) where
  errors-structure :
      (entries : List (String × PatchModule N)) (snap : Snapshot N)
      → errors (structure_findings num registry entries snap)
        ≡ errors (cable_findings num entries [] snap.cables)
          + errors (param_findings num registry snap.modules)
  unfolding structure_findings
  errors-structure entries snap =
      let cables = cable_findings num entries [] snap.cables in
      let stacked = stacked_findings num (cables_by_input_port num entries snap.cables []) in
      let collisions = collision_findings num [] snap.modules in
      let expanders = expander_findings num entries snap.modules in
      let params = param_findings num registry snap.modules in
      let a = errors-append (cables ++ stacked ++ collisions ++ expanders) params in
      let b = errors-append (cables ++ stacked ++ collisions) expanders in
      let c = errors-append (cables ++ stacked) collisions in
      let d = errors-append cables stacked in
      let e = errors-stacked num (cables_by_input_port num entries snap.cables []) in
      let f = errors-collision num [] snap.modules in
      let g = errors-expander num entries snap.modules in a ∙ ground (arith, b, c, d, e, f, g)

  -- A validation counts no errors exactly if both ends of every cable are ports of modules of the
  -- patch and every parameter has a finite value. Nothing that is inferred from adapters, names or
  -- cycles counts as an error.
  pub validate_patch-errors_iff :
      (snap : Snapshot N) (cycles : List String)
      → ((validate_patch num registry snap cycles).error_count ≡ 0) ↔ (
          All (IsPlugged num (by_id snap.modules [])) snap.cables
          × All (λ m. All (HasFiniteValue num) m.params) snap.modules)
  unfolding validate_patch report
  validate_patch-errors_iff snap cycles =
      let entries = by_id snap.modules [] in
      let whole =
        errors-append (structure_findings num registry entries snap)
          (advice_findings num registry entries snap cycles) in
      let structure = errors-structure entries snap in
      let advice = errors-advice_findings registry entries num snap cycles in
      let (to, from) = errors-cables num entries [] snap.cables in
      let (to_params, from_params) = errors-modules num registry snap.modules in
      (
        λ e. (
          to (ground (arith, whole, structure, advice, e)),
          to_params (ground (arith, whole, structure, advice, e)),
        ),
        λ (plugged, readable).
            let a = from plugged in
            let b = from_params readable in whole ∙ ground (arith, structure, advice, a, b),
      )
