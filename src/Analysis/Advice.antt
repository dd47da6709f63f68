-- ===== src/Analysis/Advice.antt =====
-- analysis.ts, `validatePatch`: the checks of the bridge, of bypassed modules, of what the adapters say
-- and of silence.
use vcv_rack_mcp.Prelude.{
  ℕ, ◌==◌, String, Bool, true, false, not, List, [], ◌∷◌, ◌++◌, map, Option, none, some, any,
  length, ltb, take, lookup, if◌then◌else◌, ◌&&◌, ◌||◌, filter, get_elem?, find,
}
use vcv_rack_mcp.Prelude.Int.{ℤ, pos, negsuc}
use vcv_rack_mcp.Adapters.{
  SignalRole, audio, pitch_voct, gate, trigger, clock, unknown, PolyphonyBehavior, monophonic,
  ModuleAdapter, AdapterPortSemantics, get_adapter, has_adapter, input_role, output_role,
}
use vcv_rack_mcp.Analysis.{Port, PatchModule, Cable, mem, is_audio_destination}
use vcv_rack_mcp.Analysis.Findings.{
  warning, info, certain, adapter, heuristic, the_module, the_cable, the_patch, bridge_missing,
  bypass_interrupts_path, cycle_feedback, adapter_signal_role_cross, adapter_pitch_gate_confusion,
  adapter_poly_into_mono, adapter_unverified_modules, audio_no_input, audio_no_destination,
  ValidationFinding, finding,
}
use vcv_rack_mcp.Analysis.Structure.{when}

pub data Family : Type 0 where
  audio_family control_family : Family

abbrev pub family_of : Option SignalRole → Option Family
family_of none = none
family_of (some audio) = some audio_family
family_of (some unknown) = none
family_of (some _) = some control_family

pub data ControlKind : Type 0 where
  pitch event : ControlKind

abbrev pub control_kind_of : Option SignalRole → Option ControlKind
control_kind_of (some pitch_voct) = some pitch
control_kind_of (some gate) = some event
control_kind_of (some trigger) = some event
control_kind_of (some clock) = some event
control_kind_of _ = none

-- `a && b && a !== b`
abbrev pub families_cross : Option Family → Option Family → Bool
families_cross (some audio_family) (some control_family) = true
families_cross (some control_family) (some audio_family) = true
families_cross _ _ = false

abbrev pub kinds_cross : Option ControlKind → Option ControlKind → Bool
kinds_cross (some pitch) (some event) = true
kinds_cross (some event) (some pitch) = true
kinds_cross _ _ = false

abbrev pub bridge_findings : ℕ → List ValidationFinding
bridge_findings count = when (count == 0) (finding bridge_missing warning certain (the_patch ∷ []))

-- `feeds` are the modules that feed an audio destination.
abbrev pub is_interrupting : {N : Type 0} → List String → PatchModule N → Bool
is_interrupting feeds m =
    m.bypassed
    && mem m.module_id feeds
    && any (λ p. p.connected) m.inputs
    && any (λ p. p.connected) m.outputs

abbrev pub bypass_findings :
    {N : Type 0} → List String → List (PatchModule N) → List ValidationFinding
bypass_findings feeds [] = []
bypass_findings feeds (m ∷ modules) =
    when (is_interrupting feeds m)
      (finding bypass_interrupts_path warning heuristic (the_module m.module_id ∷ []))
    ++ bypass_findings feeds modules

-- `cycles` are the modules in feedback cycles, in the order in which they were found.
abbrev pub cycle_findings : List String → List ValidationFinding
cycle_findings cycles =
    when (ltb 0 (length cycles))
      (finding cycle_feedback info certain (map the_module (take 64 cycles)))

abbrev pub is_monophonic : Option AdapterPortSemantics → Bool
is_monophonic none = false
is_monophonic (some p) = elim p.polyphony [
  | monophonic ↦ true
  | PolyphonyBehavior.polyphonic ↦ false
  | PolyphonyBehavior.poly_from_input ↦ false
  | PolyphonyBehavior.unknown_polyphony ↦ false
]

-- `ports[id]?.channels ?? 0`
abbrev pub channels_at : List Port → ℤ → ℕ
channels_at ports (negsuc n) = 0
channels_at ports (pos n) = elim (get_elem? ports n) [ none ↦ 0 | some p ↦ p.channels ]

abbrev pub is_past : ℤ → List Port → Bool
is_past (negsuc n) ports = false
is_past (pos n) ports = not (ltb n (length ports))

module _ {N : Type 0} (registry : List (String × ModuleAdapter)) where
  abbrev pub output_role_of : PatchModule N → ℤ → Option SignalRole
  output_role_of m (negsuc n) = none
  output_role_of m (pos n) = output_role registry m.plugin_slug m.model_slug n

  abbrev pub input_role_of : PatchModule N → ℤ → Option SignalRole
  input_role_of m (negsuc n) = none
  input_role_of m (pos n) = input_role registry m.plugin_slug m.model_slug n

  -- `inputPolyphonyOf(m, portId) === "monophonic"`
  abbrev pub is_monophonic_input : PatchModule N → ℤ → Bool
  is_monophonic_input m (negsuc n) = false
  is_monophonic_input m (pos n) = elim (get_adapter registry m.plugin_slug m.model_slug) [
    | none ↦ false
    | some a ↦ is_monophonic (find (λ p. p.port_id == n) a.inputs)
  ]

  unfoldable pub role_findings : Cable → (out inp : PatchModule N) → List ValidationFinding
  role_findings c out inp =
      let from = output_role_of out c.output_id in
      let to = input_role_of inp c.input_id in
      let entity = the_cable c.cable_id ∷ [] in
      when (families_cross (family_of from) (family_of to))
        (finding adapter_signal_role_cross info adapter entity)
      ++ when (kinds_cross (control_kind_of from) (control_kind_of to))
          (finding adapter_pitch_gate_confusion info adapter entity)
      ++ when (ltb 1 (channels_at out.outputs c.output_id) && is_monophonic_input inp c.input_id)
          (finding adapter_poly_into_mono info adapter entity)

  abbrev pub adapter_finding : List (String × PatchModule N) → Cable → List ValidationFinding
  adapter_finding modules c = elim (lookup c.output_module_id modules) [
    | none ↦ []
    | some out ↦ elim (lookup c.input_module_id modules) [
      | none ↦ []
      | some inp ↦
          if is_past c.output_id out.outputs || is_past c.input_id inp.inputs
          then []
          else role_findings c out inp
    ]
  ]

  abbrev pub adapter_findings : List (String × PatchModule N) → List Cable → List ValidationFinding
  adapter_findings modules [] = []
  adapter_findings modules (c ∷ cables) =
      adapter_finding modules c ++ adapter_findings modules cables

  abbrev pub unadaptered : List (PatchModule N) → List (PatchModule N)
  unadaptered modules = filter (λ m. not (has_adapter registry m.plugin_slug m.model_slug)) modules

  abbrev pub unverified_findings : List (PatchModule N) → List ValidationFinding
  unverified_findings modules = when (ltb 0 (length (unadaptered modules))) (
      finding adapter_unverified_modules info heuristic
        (map (λ m. the_module m.module_id) (take 64 (unadaptered modules))))

abbrev pub silence_findings : {N : Type 0} → List (PatchModule N) → List ValidationFinding
silence_findings modules =
    let destinations = filter is_audio_destination modules in
    let any_connected = any (λ m. any (λ p. p.connected) m.inputs) destinations in
    if ltb 0 (length destinations)
    then when (not any_connected)
        (finding audio_no_input warning heuristic (map (λ m. the_module m.module_id) destinations))
    else finding audio_no_destination info heuristic (the_patch ∷ []) ∷ []
