-- ===== src/Analysis/Structure.antt =====
-- analysis.ts, `validatePatch`: the checks of cables, positions, expanders and parameters.
use Prim.Native.String
use vcv_rack_mcp.Prelude.{
  ◌==◌, String, Bool, true, false, not, List, [], ◌∷◌, ◌++◌, map, Option, none, some, str_eq,
  length, ltb, lookup, insert, if◌then◌else◌, ◌&&◌, ◌||◌, is_some,
}
use vcv_rack_mcp.Prelude.Int.{ℤ, pos, negsuc, ◌+ℤ◌, eq_ℤ}
use vcv_rack_mcp.Operations.{input, output, Json}
use vcv_rack_mcp.Adapters.{ModuleAdapter, param_semantics}
use vcv_rack_mcp.Analysis.{Port, Param, PatchModule, Cable, mem}
use vcv_rack_mcp.Analysis.Findings.{
  error, warning, info, certain, adapter, the_module, the_cable, the_port, the_param,
  cable_dangling, port_out_of_bounds, cable_duplicate, inputs_stacked, module_collision,
  expander_adjacency, param_non_finite, param_out_of_range, param_outside_safe_range,
  ValidationFinding, finding,
}

-- JSON's numbers, as far as they are compared: with the tolerance of 1e-4 at a bound.
pub record Numbers (N : Type 0) : Type 0 where
  pub is_finite : N → Bool
  -- `value < bound - 1e-4` and `value > bound + 1e-4`
  pub below : (value bound : N) → Bool
  pub above : (value bound : N) → Bool
  pub of_json : Json → N
  -- A number in a template text.
  pub decimal : ℤ → String

-- `new Map(modules.map((m) => [m.moduleId, m]))`, on top of the entries so far.
unfoldable pub by_id :
    {N : Type 0}
    → List (PatchModule N)
    → List (String × PatchModule N)
    → List (String × PatchModule N)
by_id [] entries = entries
by_id (m ∷ modules) entries = by_id modules (insert m.module_id m entries)

-- `id < 0 || id >= ports.length`
abbrev pub is_out_of_bounds : ℤ → List Port → Bool
is_out_of_bounds (negsuc n) ports = true
is_out_of_bounds (pos n) ports = not (ltb n (length ports))

abbrev pub when : Bool → ValidationFinding → List ValidationFinding
when test f = if test then f ∷ [] else []

module _ {N : Type 0} (num : Numbers N) where
  unfoldable pub input_key : Cable → String
  input_key c = String.◌++◌ c.input_module_id (String.◌++◌ ":" (num.decimal c.input_id))

  unfoldable pub cable_key : Cable → String
  cable_key c =
      String.◌++◌ c.output_module_id
        (String.◌++◌ ":" (String.◌++◌ (num.decimal c.output_id) (String.◌++◌ "->" (input_key c))))

  abbrev pub port_findings : Cable → (out inp : PatchModule N) → List ValidationFinding
  port_findings c out inp =
      when (is_out_of_bounds c.output_id out.outputs) (
        finding port_out_of_bounds error certain
          (the_port c.output_module_id output c.output_id ∷ []))
      ++ when (is_out_of_bounds c.input_id inp.inputs) (
          finding port_out_of_bounds error certain
            (the_port c.input_module_id input c.input_id ∷ []))

  abbrev pub dangling : Cable → ValidationFinding
  dangling c = finding cable_dangling error certain (the_cable c.cable_id ∷ [])

  -- The loop over the cables, with the keys seen so far.
  unfoldable pub cable_findings :
      List (String × PatchModule N) → (seen : List String) → List Cable → List ValidationFinding
  cable_findings modules seen [] = []
  cable_findings modules seen (c ∷ cables) = elim (lookup c.output_module_id modules) [
    | none ↦ dangling c ∷ cable_findings modules seen cables
    | some out ↦ elim (lookup c.input_module_id modules) [
      | none ↦ dangling c ∷ cable_findings modules seen cables
      | some inp ↦
          port_findings c out inp
          ++ when (mem (cable_key c) seen)
              (finding cable_duplicate warning certain (the_cable c.cable_id ∷ []))
          ++ cable_findings modules (cable_key c ∷ seen) cables
    ]
  ]

  -- The map that the same loop makes: the cables at each input port, of those that are not dangling.
  unfoldable pub cables_by_input_port :
      List (String × PatchModule N)
      → List Cable
      → List (String × List Cable)
      → List (String × List Cable)
  cables_by_input_port modules [] ports = ports
  cables_by_input_port modules (c ∷ cables) ports =
      let added : List (String × List Cable) = elim (lookup (input_key c) ports) [
        | none ↦ insert (input_key c) (c ∷ []) ports
        | some list ↦ insert (input_key c) (list ++ (c ∷ [])) ports
      ] in
      cables_by_input_port modules cables (
        if is_some (lookup c.output_module_id modules) && is_some (lookup c.input_module_id modules)
        then added
        else ports)

  abbrev pub stacked_findings : List (String × List Cable) → List ValidationFinding
  stacked_findings [] = []
  stacked_findings ((key, list) ∷ ports) =
      when (ltb 1 (length list))
        (finding inputs_stacked info certain (map (λ c. the_cable c.cable_id) list))
      ++ stacked_findings ports

  unfoldable pub position_key : ℤ × ℤ → String
  position_key (x, y) = String.◌++◌ (num.decimal x) (String.◌++◌ "," (num.decimal y))

  -- The loop over the positions, with those taken so far.
  abbrev pub collision_findings :
      (taken : List String) → List (PatchModule N) → List ValidationFinding
  collision_findings taken [] = []
  collision_findings taken (m ∷ modules) = elim m.grid_position [
    | none ↦ collision_findings taken modules
    | some at ↦
        when (mem (position_key at) taken)
          (finding module_collision warning certain (the_module m.module_id ∷ []))
        ++ collision_findings (position_key at ∷ taken) modules
  ]

  -- A module with a position and a width that is not 0 ends where another begins, in the same row.
  abbrev pub is_left_neighbour : PatchModule N → ℤ × ℤ → Bool
  is_left_neighbour l (x, y) = elim l.grid_position [
    | none ↦ false
    | some (lx, ly) ↦ elim l.grid_width [
      | none ↦ false
      | some width ↦ not (width == 0) && eq_ℤ ly y && eq_ℤ (lx +ℤ pos width) x
    ]
  ]

  abbrev pub is_adjacent : List (String × PatchModule N) → String → ℤ × ℤ → Bool
  is_adjacent modules id at = elim (lookup id modules) [
    | none ↦ false
    | some l ↦ is_left_neighbour l at
  ]

  abbrev pub declared_left : PatchModule N → Option String
  declared_left m = elim m.left_expander [
    | none ↦ none
    | some id ↦ if str_eq id "" then none else some id
  ]

  abbrev pub expander_finding :
      List (String × PatchModule N) → PatchModule N → List ValidationFinding
  expander_finding modules m = elim (declared_left m) [
    | none ↦ []
    | some left ↦ elim m.grid_position [
      | none ↦ []
      | some at ↦
          when (not (is_adjacent modules left at))
            (finding expander_adjacency info certain (the_module m.module_id ∷ []))
    ]
  ]

  abbrev pub expander_findings :
      List (String × PatchModule N) → List (PatchModule N) → List ValidationFinding
  expander_findings modules [] = []
  expander_findings modules (m ∷ rest) =
      expander_finding modules m ++ expander_findings modules rest

  abbrev pub is_outside : N → Option N → Option N → Bool
  is_outside value (some low) (some high) = num.below value low || num.above value high
  is_outside value _ _ = false

  abbrev pub safe_range : List (String × ModuleAdapter) → PatchModule N → ℤ → Option (Json × Json)
  safe_range registry m (negsuc n) = none
  safe_range registry m (pos n) = elim (param_semantics registry m.plugin_slug m.model_slug n) [
    | none ↦ none
    | some semantics ↦ semantics.safe_range
  ]

  abbrev pub is_unsafe : N → Option (Json × Json) → Bool
  is_unsafe value none = false
  is_unsafe value (some (low, high)) =
      num.below value (num.of_json low) || num.above value (num.of_json high)

  abbrev pub is_readable : Param N → Bool
  is_readable p = elim p.value [ none ↦ false | some value ↦ num.is_finite value ]

  unfoldable pub param_finding :
      List (String × ModuleAdapter) → PatchModule N → Param N → List ValidationFinding
  param_finding registry m p =
      let entity = the_param m.module_id p.param_id ∷ [] in
      elim p.value [
        | none ↦ finding param_non_finite error certain entity ∷ []
        | some value ↦
            if not (num.is_finite value)
            then finding param_non_finite error certain entity ∷ []
            else if is_outside value p.min_value p.max_value
            then finding param_out_of_range warning certain entity ∷ []
            else when (is_unsafe value (safe_range registry m p.param_id))
                (finding param_outside_safe_range info adapter entity)
      ]

  abbrev pub params_findings :
      List (String × ModuleAdapter) → PatchModule N → List (Param N) → List ValidationFinding
  params_findings registry m [] = []
  params_findings registry m (p ∷ params) =
      param_finding registry m p ++ params_findings registry m params

  abbrev pub param_findings :
      List (String × ModuleAdapter) → List (PatchModule N) → List ValidationFinding
  param_findings registry [] = []
  param_findings registry (m ∷ modules) =
      params_findings registry m m.params ++ param_findings registry modules
