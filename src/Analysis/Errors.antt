-- ===== src/Analysis/Errors.antt =====
-- analysis.ts: `validatePatch` counts as errors what it finds in parameters, and no advice on stacked
-- inputs, positions and expanders.
use vcv_rack_mcp.Prelude.{
  ℕ, ◌+◌, ◌≡◌, refl, ◌↔◌, inl, inr, String, true, List, [], ◌∷◌, ◌++◌, some, filter, length,
  if◌then◌else◌, All, arith, Bool-cases, Option-cases, ltb,
}
use vcv_rack_mcp.Adapters.{ModuleAdapter}
use vcv_rack_mcp.Analysis.{Param, PatchModule, Cable, mem}
use vcv_rack_mcp.Analysis.Findings.{ValidationFinding, is_error}
use vcv_rack_mcp.Analysis.Structure.{
  Numbers, is_readable, stacked_findings, collision_findings, expander_finding, expander_findings,
  param_finding, params_findings, param_findings, position_key, is_adjacent, declared_left,
  is_outside, is_unsafe, safe_range,
}

abbrev pub errors : List ValidationFinding → ℕ
errors findings = length (filter is_error findings)

pub errors-append : (xs ys : List ValidationFinding) → errors (xs ++ ys) ≡ errors xs + errors ys
errors-append [] ys = omega arith
errors-append (x ∷ xs) ys = ground (arith, errors-append xs ys)

pub errors-quiet :
    (xs ys : List ValidationFinding) → errors xs ≡ 0 → errors ys ≡ 0 → errors (xs ++ ys) ≡ 0
errors-quiet xs ys e f = let split = errors-append xs ys in ground (arith, split, e, f)

module _ {N : Type 0} (num : Numbers N) where
  pub errors-stacked :
      (ports : List (String × List Cable)) → errors (stacked_findings num ports) ≡ 0
  errors-stacked [] = refl
  errors-stacked ((key, list) ∷ ports) = elim (Bool-cases (ltb 1 (length list))) [
    | inl many ↦ ground (arith, many, errors-stacked ports)
    | inr few ↦ ground (arith, few, errors-stacked ports)
  ]

  pub errors-collision :
      (taken : List String) (modules : List (PatchModule N))
      → errors (collision_findings num taken modules) ≡ 0
  errors-collision taken [] = refl
  errors-collision taken (m ∷ modules) = elim (Option-cases m.grid_position) [
    | inl nowhere ↦ ground (arith, nowhere, errors-collision taken modules)
    | inr (at, placed) ↦
        let rest = errors-collision (position_key num at ∷ taken) modules in
        elim (Bool-cases (mem (position_key num at) taken)) [
          | inl hit ↦ ground (arith, placed, hit, rest)
          | inr free ↦ ground (arith, placed, free, rest)
        ]
  ]

  errors-expander_one :
      (entries : List (String × PatchModule N)) (m : PatchModule N)
      → errors (expander_finding num entries m) ≡ 0
  errors-expander_one entries m = elim (Option-cases (declared_left num m)) [
    | inl alone ↦ ground (arith, alone)
    | inr (left, declared) ↦ elim (Option-cases m.grid_position) [
      | inl nowhere ↦ ground (arith, declared, nowhere)
      | inr (at, placed) ↦ elim (Bool-cases (is_adjacent num entries left at)) [
        | inl beside ↦ ground (arith, declared, placed, beside)
        | inr apart ↦ ground (arith, declared, placed, apart)
      ]
    ]
  ]

  pub errors-expander :
      (entries : List (String × PatchModule N)) (modules : List (PatchModule N))
      → errors (expander_findings num entries modules) ≡ 0
  errors-expander entries [] = refl
  errors-expander entries (m ∷ modules) =
      errors-quiet (expander_finding num entries m) (expander_findings num entries modules)
        (errors-expander_one entries m) (errors-expander entries modules)

  errors-param :
      (registry : List (String × ModuleAdapter)) (m : PatchModule N) (p : Param N)
      → errors (param_finding num registry m p) ≡ (if is_readable num p then 0 else 1)
  unfolding param_finding
  errors-param registry m p = elim (Option-cases p.value) [
    | inl null ↦ ground (arith, null)
    | inr (value, there) ↦ elim (Bool-cases (num.is_finite value)) [
      | inr infinite ↦ ground (arith, there, infinite)
      | inl finite ↦ elim (Bool-cases (is_outside num value p.min_value p.max_value)) [
        | inl outside ↦ ground (arith, there, finite, outside)
        | inr inside ↦
            elim (Bool-cases (is_unsafe num value (safe_range num registry m p.param_id))) [
              | inl unsafe_ ↦ ground (arith, there, finite, inside, unsafe_)
              | inr safe ↦ ground (arith, there, finite, inside, safe)
            ]
      ]
    ]
  ]

  -- The parameter has a value, and that is finite.
  abbrev pub HasFiniteValue : Param N → Type 0
  HasFiniteValue p = (v : N) × (p.value ≡ some v) × (num.is_finite v ≡ true)

  is_readable-HasFiniteValue_iff : (p : Param N) → (is_readable num p ≡ true) ↔ HasFiniteValue p
  is_readable-HasFiniteValue_iff p = elim (Option-cases p.value) [
    | inl null ↦ (
      λ e. absurd (ground (arith, null, e)),
      λ (v, there, finite). absurd (ground (arith, null, there)),
    )
    | inr (v, there) ↦ (
      λ e. (v, there, ground (arith, there, e)),
      λ (u, same, finite). ground (arith, same, finite),
    )
  ]

  errors-params :
      (registry : List (String × ModuleAdapter)) (m : PatchModule N) (params : List (Param N))
      → (errors (params_findings num registry m params) ≡ 0) ↔ All HasFiniteValue params
  errors-params registry m [] = (λ e. tt, λ h. refl)
  errors-params registry m (p ∷ params) =
      let (to, from) = errors-params registry m params in
      let split =
        errors-append (param_finding num registry m p) (params_findings num registry m params) in
      let one = errors-param registry m p in
      (
        λ e. (
          elim (Bool-cases (is_readable num p)) [
            | inl good ↦ (is_readable-HasFiniteValue_iff p).0 good
            | inr bad ↦ absurd (ground (arith, split, one, bad, e))
          ],
          to (ground (arith, split, e)),
        ),
        λ (good, rest).
            errors-quiet (param_finding num registry m p) (params_findings num registry m params)
              (let readable = (is_readable-HasFiniteValue_iff p).1 good in
                ground (arith, one, readable))
              (from rest),
      )

  pub errors-modules :
      (registry : List (String × ModuleAdapter)) (modules : List (PatchModule N))
      → (errors (param_findings num registry modules) ≡ 0)
        ↔ All (λ m. All HasFiniteValue m.params) modules
  errors-modules registry [] = (λ e. tt, λ h. refl)
  errors-modules registry (m ∷ modules) =
      let (to, from) = errors-modules registry modules in
      let (to_one, from_one) = errors-params registry m m.params in
      let split =
        errors-append (params_findings num registry m m.params)
          (param_findings num registry modules) in
      (
        λ e. (to_one (ground (arith, split, e)), to (ground (arith, split, e))),
        λ (good, rest).
            errors-quiet (params_findings num registry m m.params)
              (param_findings num registry modules) (from_one good) (from rest),
      )
