-- ===== src/Analysis/Fuel.antt =====
-- analysis.ts: the loop over the stack visits each cable at most once.
use vcv_rack_mcp.Prelude.{
  ℕ, ◌+◌, ◌≡◌, refl, inl, inr, String, Bool, false, not, List, [], ◌∷◌, str_eq, eq_iff, filter,
  length, ◌||◌, any, arith, Bool-cases,
}
use vcv_rack_mcp.Analysis.{Cable, mem, push_sources, push_all}
use vcv_rack_mcp.Analysis.Trace.{enters}

-- The cables out of modules into which signal has not been followed.
abbrev pub unseen : List String → List Cable → ℕ
unseen reached cables = length (filter (λ c. not (mem c.input_module_id reached)) cables)

abbrev pub leaves : String → Cable → Bool
leaves id c = str_eq c.output_module_id id

pub unseen-cons :
    (id : String) (reached : List String) (cables : List Cable)
    → mem id reached ≡ false
    → unseen (id ∷ reached) cables + length (filter (enters id) cables) ≡ unseen reached cables
unseen-cons id reached [] new = refl
unseen-cons id reached (c ∷ cables) new = elim (Bool-cases (str_eq c.input_module_id id)) [
  | inl here ↦
      let same = (eq_iff c.input_module_id id).0 here in
      ground
        (arith, here, same, new, unseen-cons id reached cables new, eq_iff id c.input_module_id)
  | inr other ↦ ground (
    arith,
    other,
    unseen-cons id reached cables new,
    eq_iff id c.input_module_id,
    eq_iff c.input_module_id id,
  )
]

pub length-push_sources :
    (cables : List Cable) (stack : List String)
    → length (push_sources cables stack) ≡ length cables + length stack
length-push_sources [] stack = omega arith
length-push_sources (c ∷ cables) stack =
    ground (arith, length-push_sources cables (c.output_module_id ∷ stack))

pub length-push_all :
    (ids stack : List String) → length (push_all ids stack) ≡ length ids + length stack
length-push_all [] stack = omega arith
length-push_all (id ∷ ids) stack = ground (arith, length-push_all ids (id ∷ stack))

pub mem-push_sources :
    (id : String) (cables : List Cable) (stack : List String)
    → mem id (push_sources cables stack) ≡ (any (leaves id) cables || mem id stack)
mem-push_sources id [] stack = refl
mem-push_sources id (c ∷ cables) stack =
    ground (arith, mem-push_sources id cables (c.output_module_id ∷ stack))

pub mem-push_all :
    (id : String) (ids stack : List String)
    → mem id (push_all ids stack) ≡ (mem id ids || mem id stack)
mem-push_all id [] stack = refl
mem-push_all id (x ∷ ids) stack = ground (arith, mem-push_all id ids (x ∷ stack))

pub unseen-nothing : (cables : List Cable) → unseen [] cables ≡ length cables
unseen-nothing [] = refl
unseen-nothing (c ∷ cables) = ground (arith, unseen-nothing cables)
