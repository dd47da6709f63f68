-- ===== src/Analysis/Plugged.antt =====
-- analysis.ts: `validatePatch` counts as errors the cables whose ends are not there.
use vcv_rack_mcp.Prelude.{
  ℕ, ◌+◌, ◌≡◌, refl, ◌↔◌, ◌⊎◌, inl, inr, String, false, List, [], ◌∷◌, ◌++◌, none, some, length,
  lookup, if◌then◌else◌, All, subst, ◌∙◌, arith, Bool-cases, Option-cases, ◌<◌, ltb→lt, lt→ltb,
}
use vcv_rack_mcp.Prelude.Int.{ℤ, pos, negsuc}
use vcv_rack_mcp.Analysis.{Port, PatchModule, Cable, mem}
use vcv_rack_mcp.Analysis.Findings.{
  ValidationFinding, finding, cable_duplicate, warning, certain, the_cable,
}
use vcv_rack_mcp.Analysis.Structure.{
  Numbers, is_out_of_bounds, when, dangling, port_findings, cable_key, cable_findings,
}
use vcv_rack_mcp.Analysis.Errors.{errors, errors-append}

-- The id is the index of one of the ports.
abbrev pub IsPortOf : ℤ → List Port → Type 0
IsPortOf id ports = (n : ℕ) × (id ≡ pos n) × (n < length ports)

in_bounds-IsPortOf_iff :
    (id : ℤ) (ports : List Port) → (is_out_of_bounds id ports ≡ false) ↔ IsPortOf id ports
in_bounds-IsPortOf_iff (pos n) ports = (
  λ e. (n, refl, ltb→lt n (length ports) (ground (arith, e))),
  λ (m, same, there). let smaller = lt→ltb m (length ports) there in ground (arith, same, smaller),
)
in_bounds-IsPortOf_iff (negsuc n) ports = (λ e. absurd (cc), λ (m, same, there). absurd (cc))

module _ {N : Type 0} (num : Numbers N) where
  -- Both ends of a cable are modules of the patch, at ports that they have.
  pub record IsPlugged (modules : List (String × PatchModule N)) (c : Cable) : Type 0 where
    pub out : PatchModule N
    pub inp : PatchModule N
    pub from : lookup c.output_module_id modules ≡ some out
    pub to : lookup c.input_module_id modules ≡ some inp
    pub output_there : IsPortOf c.output_id out.outputs
    pub input_there : IsPortOf c.input_id inp.inputs

  errors-port :
      (c : Cable) (out inp : PatchModule N)
      → errors (port_findings num c out inp)
        ≡ (if is_out_of_bounds c.output_id out.outputs then 1 else 0)
          + (if is_out_of_bounds c.input_id inp.inputs then 1 else 0)
  errors-port c out inp = elim (Bool-cases (is_out_of_bounds c.output_id out.outputs)) [
    | inl past ↦ elim (Bool-cases (is_out_of_bounds c.input_id inp.inputs)) [
      | inl late ↦ ground (arith, past, late)
      | inr there ↦ ground (arith, past, there)
    ]
    | inr within ↦ elim (Bool-cases (is_out_of_bounds c.input_id inp.inputs)) [
      | inl late ↦ ground (arith, within, late)
      | inr there ↦ ground (arith, within, there)
    ]
  ]

  cable-dangling :
      (entries : List (String × PatchModule N)) (seen : List String) (c : Cable)
      (cables : List Cable)
      → (lookup c.output_module_id entries ≡ none) ⊎ (lookup c.input_module_id entries ≡ none)
      → cable_findings num entries seen (c ∷ cables)
        ≡ dangling num c ∷ cable_findings num entries seen cables
  unfolding cable_findings
  cable-dangling entries seen c cables (inl no_out) = rw (no_out, cable_findings) refl
  cable-dangling entries seen c cables (inr no_in) =
      elim (Option-cases (lookup c.output_module_id entries)) [
        | inl no_out ↦ rw (no_out, cable_findings) refl
        | inr (out, from) ↦ rw (from, cable_findings) (rw (no_in) refl)
      ]

  abbrev duplicates : List String → Cable → List ValidationFinding
  duplicates seen c =
      when (mem (cable_key num c) seen)
        (finding cable_duplicate warning certain (the_cable c.cable_id ∷ []))

  cable-plugged :
      (entries : List (String × PatchModule N)) (seen : List String) (c : Cable)
      (cables : List Cable) (out inp : PatchModule N)
      → lookup c.output_module_id entries ≡ some out
      → lookup c.input_module_id entries ≡ some inp
      → cable_findings num entries seen (c ∷ cables)
        ≡ port_findings num c out inp
          ++ duplicates seen c
          ++ cable_findings num entries (cable_key num c ∷ seen) cables
  unfolding cable_findings
  cable-plugged entries seen c cables out inp from to = rw (from, cable_findings) (rw (to) refl)

  errors-duplicates : (seen : List String) (c : Cable) → errors (duplicates seen c) ≡ 0
  errors-duplicates seen c = elim (Bool-cases (mem (cable_key num c) seen)) [
    | inl again ↦ ground (arith, again)
    | inr new ↦ ground (arith, new)
  ]

  errors-plugged :
      (entries : List (String × PatchModule N)) (seen : List String) (c : Cable)
      (cables : List Cable) (out inp : PatchModule N)
      → lookup c.output_module_id entries ≡ some out
      → lookup c.input_module_id entries ≡ some inp
      → errors (cable_findings num entries seen (c ∷ cables))
        ≡ errors (port_findings num c out inp)
          + errors (cable_findings num entries (cable_key num c ∷ seen) cables)
  errors-plugged entries seen c cables out inp from to =
      let ports = port_findings num c out inp in
      let twice = duplicates seen c in
      let rest = cable_findings num entries (cable_key num c ∷ seen) cables in
      let whole = errors-append (ports ++ twice) rest in
      let end = errors-append ports twice in
      let none_twice = errors-duplicates seen c in
      rw (cable-plugged entries seen c cables out inp from to)
        (whole ∙ ground (arith, end, none_twice))

  pub errors-cables :
      (entries : List (String × PatchModule N)) (seen : List String) (cables : List Cable)
      → (errors (cable_findings num entries seen cables) ≡ 0) ↔ All (IsPlugged entries) cables
  unfolding cable_findings
  errors-cables entries seen [] = (λ e. tt, λ h. refl)
  errors-cables entries seen (c ∷ cables) =
      elim (Option-cases (lookup c.output_module_id entries)) [
        | inl no_out ↦ (
          λ e.
              let same = cable-dangling entries seen c cables (inl no_out) in
              absurd (ground (arith, same, e)),
          λ (p, rest). let there = p.from in absurd (ground (arith, there, no_out)),
        )
        | inr (out, from) ↦ elim (Option-cases (lookup c.input_module_id entries)) [
          | inl no_in ↦ (
            λ e.
                let same = cable-dangling entries seen c cables (inr no_in) in
                absurd (ground (arith, same, e)),
            λ (p, rest). let there = p.to in absurd (ground (arith, there, no_in)),
          )
          | inr (inp, to) ↦
              let (sound, complete) = errors-cables entries (cable_key num c ∷ seen) cables in
              let whole = errors-plugged entries seen c cables out inp from to in
              let ports = errors-port c out inp in
              (
                λ e. (
                  record {
                    out = out;
                    inp = inp;
                    from = from;
                    to = to;
                    output_there = elim (Bool-cases (is_out_of_bounds c.output_id out.outputs)) [
                      | inr inside ↦ (in_bounds-IsPortOf_iff c.output_id out.outputs).0 inside
                      | inl past ↦ absurd (ground (arith, whole, ports, past, e))
                    ];
                    input_there = elim (Bool-cases (is_out_of_bounds c.input_id inp.inputs)) [
                      | inr inside ↦ (in_bounds-IsPortOf_iff c.input_id inp.inputs).0 inside
                      | inl past ↦ absurd (ground (arith, whole, ports, past, e))
                    ];
                  },
                  sound (ground (arith, whole, e)),
                ),
                λ (p, rest).
                    let out_same : p.out ≡ out =
                      let there = p.from in ground (arith, there, from) in
                    let inp_same : p.inp ≡ inp = let there = p.to in ground (arith, there, to) in
                    let first : is_out_of_bounds c.output_id out.outputs ≡ false =
                      subst (λ (m : PatchModule N). is_out_of_bounds c.output_id m.outputs ≡ false)
                        out_same
                        ((in_bounds-IsPortOf_iff c.output_id p.out.outputs).1 p.output_there) in
                    let second : is_out_of_bounds c.input_id inp.inputs ≡ false =
                      subst (λ (m : PatchModule N). is_out_of_bounds c.input_id m.inputs ≡ false)
                        inp_same
                        ((in_bounds-IsPortOf_iff c.input_id p.inp.inputs).1 p.input_there) in
                    let none_left = complete rest in
                    whole ∙ ground (arith, ports, first, second, none_left),
              )
        ]
      ]
