-- ===== src/Adapters/Registry.antt =====
-- adapters/src/index.ts: a registry that loads finds each of its documents.
use vcv_rack_mcp.Prelude.{
  ◌+◌, ◌≤◌, ◌≡◌, refl, ◌⊎◌, inl, inr, String, List, [], ◌∷◌, none, some, ◌==◌, length, lookup,
  insert, lookup-insert, lookup-insert_self, eq_iff, All, Bool-cases, arith, subst,
}
use vcv_rack_mcp.Adapters.{ModuleAdapter, model_key, index_adapters, load_registry, get_adapter}

length-insert :
    (key : String) (a : ModuleAdapter) (entries : List (String × ModuleAdapter))
    → ((lookup key entries ≡ none) × (length (insert key a entries) ≡ length entries + 1))
      ⊎ (length (insert key a entries) ≡ length entries)
unfolding insert lookup
length-insert key a [] = inl (refl, omega arith)
length-insert key a ((name, old) ∷ entries) = ground (arith, length-insert key a entries)

length-index_adapters-le :
    (docs : List ModuleAdapter) (entries : List (String × ModuleAdapter))
    → length (index_adapters docs entries) ≤ length entries + length docs
unfolding index_adapters
length-index_adapters-le [] entries = omega arith
length-index_adapters-le (a ∷ docs) entries =
    let key = model_key a.plugin_slug a.model_slug in
    let rest = length-index_adapters-le docs (insert key a entries) in
    elim (length-insert key a entries) [
      | inl (fresh, longer) ↦ omega (arith, rest, longer)
      | inr same ↦ omega (arith, rest, same)
    ]

abbrev NoneLost : List ModuleAdapter → List (String × ModuleAdapter) → Type 0
NoneLost docs entries = length (index_adapters docs entries) ≡ length entries + length docs

-- If nothing was overwritten, the first document's key was fresh, and nothing is overwritten later.
first_fresh :
    (a : ModuleAdapter) (docs : List ModuleAdapter) (entries : List (String × ModuleAdapter))
    → NoneLost (a ∷ docs) entries
    → let key = model_key a.plugin_slug a.model_slug in
      (lookup key entries ≡ none) × NoneLost docs (insert key a entries)
unfolding index_adapters
first_fresh a docs entries whole =
    let key = model_key a.plugin_slug a.model_slug in
    let rest = length-index_adapters-le docs (insert key a entries) in
    elim (length-insert key a entries) [
      | inl (fresh, longer) ↦ (fresh, omega (arith, whole, longer))
      | inr same ↦ absurd (omega (arith, rest, same, whole))
    ]

lookup-index_adapters :
    (docs : List ModuleAdapter) (entries : List (String × ModuleAdapter)) (key : String)
    (a : ModuleAdapter)
    → NoneLost docs entries
    → lookup key entries ≡ some a
    → lookup key (index_adapters docs entries) ≡ some a
unfolding index_adapters
lookup-index_adapters [] entries key a whole found = found
lookup-index_adapters (b ∷ docs) entries key a whole found =
    let other = model_key b.plugin_slug b.model_slug in
    let (fresh, later) = first_fresh b docs entries whole in
    let kept : lookup key (insert other b entries) ≡ some a =
      ground (arith, lookup-insert other key b entries, eq_iff other key, fresh, found) in
    lookup-index_adapters docs (insert other b entries) key a later kept

indexed :
    (docs : List ModuleAdapter) (entries : List (String × ModuleAdapter))
    → NoneLost docs entries
    → All (λ a. get_adapter (index_adapters docs entries) a.plugin_slug a.model_slug ≡ some a) docs
unfolding index_adapters get_adapter
indexed [] entries whole = tt
indexed (a ∷ docs) entries whole =
    let key = model_key a.plugin_slug a.model_slug in
    let (fresh, later) = first_fresh a docs entries whole in
    (
      lookup-index_adapters docs (insert key a entries) key a later
          (lookup-insert_self key a entries),
      indexed docs (insert key a entries) later,
    )

-- A registry that loads, and so has as many entries as documents, finds each document under its own
-- plugin and model.
pub load_registry-All :
    (docs : List ModuleAdapter) (by_model : List (String × ModuleAdapter))
    → load_registry docs ≡ some by_model
    → All (λ a. get_adapter by_model a.plugin_slug a.model_slug ≡ some a) docs
unfolding load_registry
load_registry-All docs by_model e =
    elim (Bool-cases (length (index_adapters docs []) == length docs)) [
      | inr lost ↦ absurd (ground (arith, lost, e))
      | inl whole ↦
          let size : NoneLost docs [] = ground (arith, whole) in
          let same : index_adapters docs [] ≡ by_model = ground (arith, whole, e) in
          subst (λ m. All (λ a. get_adapter m a.plugin_slug a.model_slug ≡ some a) docs) same
            (indexed docs [] size)
    ]
