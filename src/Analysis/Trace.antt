-- ===== src/Analysis/Trace.antt =====
-- analysis.ts: what the map from a module to the cables into it holds.
use mathlib.Core.List.{append_assoc, append-nil}
use vcv_rack_mcp.Prelude.{
  ◌≡◌, refl, inl, inr, String, Bool, List, [], ◌∷◌, ◌++◌, str_eq, eq_iff, filter, lookup, insert,
  lookup-insert, if◌then◌else◌, arith, Bool-cases, Option-cases, ◌∙◌, sym, ap,
}
use vcv_rack_mcp.Analysis.{Cable, incoming_cables, add_incoming, group_incoming}

abbrev pub enters : String → Cable → Bool
enters id c = str_eq c.input_module_id id

add_incoming-insert :
    (c : Cable) (incoming : List (String × List Cable))
    → add_incoming c incoming
      ≡ insert c.input_module_id (incoming_cables c.input_module_id incoming ++ (c ∷ [])) incoming
add_incoming-insert c incoming = elim (Option-cases (lookup c.input_module_id incoming)) [
  | inl new ↦ rw (new, add_incoming, incoming_cables) refl
  | inr (list, old) ↦ rw (old, add_incoming, incoming_cables) refl
]

incoming-insert :
    (key id : String) (list : List Cable) (incoming : List (String × List Cable))
    → incoming_cables id (insert key list incoming)
      ≡ (if str_eq key id then list else incoming_cables id incoming)
incoming-insert key id list incoming = elim (Bool-cases (str_eq key id)) [
  | inl here ↦ ground (arith, here, lookup-insert key id list incoming)
  | inr other ↦ ground (arith, other, lookup-insert key id list incoming)
]

incoming-add :
    (c : Cable) (id : String) (incoming : List (String × List Cable))
    → incoming_cables id (add_incoming c incoming)
      ≡ incoming_cables id incoming ++ (if enters id c then c ∷ [] else [])
incoming-add c id incoming =
    let key = c.input_module_id in
    let list = incoming_cables key incoming ++ (c ∷ []) in
    ap (incoming_cables id) (add_incoming-insert c incoming)
    ∙ incoming-insert key id list incoming
    ∙ (elim (Bool-cases (str_eq key id)) [
      | inl here ↦
          rw (here) (ap (λ k. incoming_cables k incoming ++ (c ∷ [])) ((eq_iff key id).0 here))
      | inr other ↦ rw (other) (sym (append-nil (incoming_cables id incoming)))
    ])

incoming-group :
    (cables : List Cable) (id : String) (incoming : List (String × List Cable))
    → incoming_cables id (group_incoming cables incoming)
      ≡ incoming_cables id incoming ++ filter (enters id) cables
unfolding group_incoming
incoming-group [] id incoming = sym (append-nil (incoming_cables id incoming))
incoming-group (c ∷ cables) id incoming =
    incoming-group cables id (add_incoming c incoming)
    ∙ ap (λ l. l ++ filter (enters id) cables) (incoming-add c id incoming)
    ∙ append_assoc (incoming_cables id incoming) (if enters id c then c ∷ [] else [])
        (filter (enters id) cables)
    ∙ ap (λ l. incoming_cables id incoming ++ l)
        (elim (Bool-cases (enters id c)) [
          | inl here ↦ rw (here) refl
          | inr other ↦ rw (other) refl
        ])

-- In the whole map, a module has exactly the cables into it, in their order.
pub incoming-group_all :
    (cables : List Cable) (id : String)
    → incoming_cables id (group_incoming cables []) ≡ filter (enters id) cables
unfolding lookup
incoming-group_all cables id = incoming-group cables id []
